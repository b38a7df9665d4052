-- ===== src/Core/Object/Frame.antt =====
-- The object file: what `encode_file` wrote is what `parse_file` reads, and the other way round.
use forgefs.Base.{
  ℕ, ◌^◌, ◌≤◌, ◌<◌, ◌≡◌, refl, ap, sym, true, [], ◌∷◌, ◌++◌, length-append, length-take,
  length-drop, length-to_be_bytes, from_be_bytes-to_be_bytes, to_be_bytes-from_be_bytes, arith, All,
  IsByte, ltb, leb, eqb, length, take, drop, take-append, drop-append, take-append-drop, Bytes,
  to_be_bytes, from_be_bytes, append-nil,
}
use forgefs.Types.{Error, corrupt, ok, ◌>>=◌, ◌>>◌, guard, ObjectType, to_u8, from_u8, eq_type}
use forgefs.Core.Cbor.Reader.{Reader, Read, at_end, usize_max}
use forgefs.Core.Cbor.Reader.Reads.{advance, advance_zero, Reads}
use forgefs.Core.Object.{encode_file, parse_file, read_all, header_of, end_of, decode_with}

pub from_u8-to_u8 : (ty : ObjectType) → from_u8 (to_u8 ty) ≡ ok ty
unfolding from_u8
from_u8-to_u8 ObjectType.blob = refl
from_u8-to_u8 ObjectType.tree = refl
from_u8-to_u8 ObjectType.commit = refl
from_u8-to_u8 ObjectType.conflict = refl
from_u8-to_u8 ObjectType.snapshot = refl
from_u8-to_u8 ObjectType.contribution = refl

eq_type_refl : (ty : ObjectType) → eq_type ty ty ≡ true
eq_type_refl ty = ground arith

module _ (ty : ObjectType) (header payload : Bytes) where
  parse_frame :
      (size : Bytes)
      → length size ≡ 4
      → from_be_bytes size ≡ length header
      → parse_file (to_u8 ty ∷ (size ++ (header ++ payload))) ≡ ok (ty, header, payload)
  unfolding parse_file
  parse_frame (a ∷ b ∷ c ∷ d ∷ []) four value =
      rw (from_u8-to_u8 ty, value, fits, take-append header payload, drop-append header payload)
        refl
    where
      fits : leb (length header) (length (header ++ payload)) ≡ true
      fits = ground (arith, length-append header payload)
  parse_frame [] four value = absurd (omega arith)
  parse_frame (a ∷ []) four value = absurd (omega arith)
  parse_frame (a ∷ b ∷ []) four value = absurd (omega arith)
  parse_frame (a ∷ b ∷ c ∷ []) four value = absurd (omega arith)
  parse_frame (a ∷ b ∷ c ∷ d ∷ e ∷ size) four value = absurd (omega arith)

  -- An object file reads back as its type, its header and its payload; one is written when the
  -- header's length fits 32 bits.
  pub parse_file-encode_file :
      length header < 2 ^ 32
      → (bs : Bytes) × (encode_file ty header payload ≡ ok bs)
        × (parse_file bs ≡ ok (ty, header, payload))
  unfolding encode_file
  parse_file-encode_file h =
      let fits : ltb (length header) (2 ^ 32) ≡ true = ground arith in
      (
        to_u8 ty ∷ (to_be_bytes 4 (length header) ++ (header ++ payload)),
        rw fits refl,
        parse_frame (to_be_bytes 4 (length header)) (length-to_be_bytes 4 (length header))
            (from_be_bytes-to_be_bytes 4 (length header) (omega arith)),
      )

to_u8-from_u8 : (b : ℕ) (ty : ObjectType) → from_u8 b ≡ ok ty → to_u8 ty ≡ b
unfolding from_u8
to_u8-from_u8 b ty h = ground arith

from_be_bytes-lt_4 :
    (a b c d : ℕ) → All IsByte (a ∷ b ∷ c ∷ d ∷ []) → from_be_bytes (a ∷ b ∷ c ∷ d ∷ []) < 2 ^ 32
unfolding from_be_bytes
from_be_bytes-lt_4 a b c d (ha, (hb, (hc, (hd, _)))) = omega arith

parse_file-cases :
    (b n : ℕ) (body : Bytes) (ty : ObjectType) (header payload : Bytes)
    → ◌>>=◌ {U = ObjectType × Bytes × Bytes} (from_u8 b) (λ t.
      guard (leb n (length body)) (corrupt "object header truncated")
      >> ok (t, take n body, drop n body))
      ≡ ok (ty, header, payload)
    → (from_u8 b ≡ ok ty) × (n ≤ length body) × (take n body ≡ header) × (drop n body ≡ payload)
parse_file-cases b n body ty header payload h = ground arith

-- A file of bytes that `parse_file` accepts is the one that its parts are written to.
pub encode_file-parse_file :
    (bs : Bytes) (ty : ObjectType) (header payload : Bytes)
    → All IsByte bs
    → parse_file bs ≡ ok (ty, header, payload)
    → encode_file ty header payload ≡ ok bs
unfolding encode_file parse_file
encode_file-parse_file (b ∷ n3 ∷ n2 ∷ n1 ∷ n0 ∷ body) ty header payload bytes h =
    let size = n3 ∷ n2 ∷ n1 ∷ n0 ∷ [] in
    let n = from_be_bytes size in
    let sizes : All IsByte size =
      (bytes.1.0, (bytes.1.1.0, (bytes.1.1.1.0, (bytes.1.1.1.1.0, tt)))) in
    let (kind, inside, front, back) = parse_file-cases b n body ty header payload h in
    let len : length header ≡ n = omega (arith, ap length front, length-take n body, inside) in
    let small : ltb (length header) (2 ^ 32) ≡ true =
      ground (arith, from_be_bytes-lt_4 n3 n2 n1 n0 sizes) in
    rw
      (
        small,
        to_u8-from_u8 b ty kind,
        len,
        to_be_bytes-from_be_bytes size sizes,
        ← front,
        ← back,
        take-append-drop n body,
      )
      refl
encode_file-parse_file [] ty header payload bytes h = cc
encode_file-parse_file (a ∷ []) ty header payload bytes h = cc
encode_file-parse_file (a ∷ b ∷ []) ty header payload bytes h = cc
encode_file-parse_file (a ∷ b ∷ c ∷ []) ty header payload bytes h = cc
encode_file-parse_file (a ∷ b ∷ c ∷ d ∷ []) ty header payload bytes h = cc

pub read_all-Reads {ℓ} :
    {A : Type ℓ} (m : Read A) (header : Bytes) (a : A)
    → length header ≤ usize_max
    → Reads m header [] a
    → read_all m header ≡ ok a
unfolding read_all
read_all-Reads m header a sized reads =
    let start : Reader = record { buf = header; pos = 0 } in
    let run : m start ≡ ok (a, advance start (length header)) =
      reads.run start (record { inside = omega arith; sized = sized }) (sym (append-nil header)) in
    rw run refl

pub Reads-end_of : (e : Error) → Reads (end_of e) [] [] tt
unfolding end_of at_end
Reads-end_of e = record {
  run = λ r w d.
      let done : eqb r.pos (length r.buf) ≡ true =
        ground (arith, length-drop r.pos r.buf, ap length d, w.inside) in
      rw done (ap (λ (q : Reader). ok (tt, q)) (sym (advance_zero r)));
}

-- What is written as a header of one type, and reads back, is decoded.
pub decode_with-encode_file {ℓ} :
    {A : Type ℓ} (ty : ObjectType) (wrong_type has_payload : Error) (m : Read A) (header : Bytes)
    (a : A)
    → length header < 2 ^ 32
    → Reads m header [] a
    → (bs : Bytes) × (encode_file ty header [] ≡ ok bs)
      × (decode_with ty wrong_type has_payload m bs ≡ ok a)
unfolding decode_with header_of
decode_with-encode_file ty wrong_type has_payload m header a h reads =
    let (bs, written, parsed) = parse_file-encode_file ty header [] h in
    (bs, written, rw (parsed, eq_type_refl ty) (read_all-Reads m header a (omega arith) reads))
