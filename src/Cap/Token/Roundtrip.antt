-- ===== src/Cap/Token/Roundtrip.antt =====
-- A credential's bytes, and its text, decode to the credential.
use forgefs.Base.{
  strip_prefix, some, ℕ, zero, suc, ◌+◌, ◌*◌, ◌≤◌, ◌≡◌, refl, ◌∙◌, sym, true, List, [], ◌∷◌, ◌++◌,
  arith, leb, length, take, drop, All, length-append, take-append, drop-append, take_front,
  drop_front, append_assoc, append-nil, list_eq, nat_eq, Bytes, Str, bytes, IsByte, to_be_bytes,
  from_be_bytes, length-to_be_bytes, from_be_bytes-to_be_bytes, is_utf8, ◌%◌,
}
use forgefs.Types.{ok}
use forgefs.Types.Hex.{hex_encode, hex_decode-hex_encode, length-hex_encode}
use forgefs.Cap.{Cap, max_token_bytes}
use forgefs.Cap.Parse.{cap_from_parts}
use forgefs.Cap.Chain.Monotone.{IsParsed}
use forgefs.Cap.Chain.{prefix_bytes, append_caveat_bytes}
use forgefs.Cap.Token.{append_caveats, encode, to_token, field, caveat_loop, decode_cap, from_token}

-- A Rust `String` that fits a field.
abbrev pub IsField : Str → Type 0
IsField s = (length s ≤ 65535) × (is_utf8 s ≡ true)

-- A text as a field.
abbrev framed : Str → Bytes
framed s = to_be_bytes 2 (length s % 65536) ++ s

length-framed : (s : Str) → length (framed s) ≡ 2 + length s
length-framed s = omega (
  arith,
  length-append (to_be_bytes 2 (length s % 65536)) s,
  length-to_be_bytes 2 (length s % 65536),
)

module _ (s rest : Bytes) (f : IsField s) where
  frame_head : take 2 (framed s ++ rest) ≡ to_be_bytes 2 (length s % 65536)
  frame_head =
      rw (append_assoc (to_be_bytes 2 (length s % 65536)) s rest)
        (take_front 2 (to_be_bytes 2 (length s % 65536)) (s ++ rest) (length-to_be_bytes 2 _))

  frame_tail : drop 2 (framed s ++ rest) ≡ s ++ rest
  frame_tail =
      rw (append_assoc (to_be_bytes 2 (length s % 65536)) s rest)
        (drop_front 2 (to_be_bytes 2 (length s % 65536)) (s ++ rest) (length-to_be_bytes 2 _))

  frame_length : from_be_bytes (to_be_bytes 2 (length s % 65536)) ≡ length s
  frame_length = from_be_bytes-to_be_bytes 2 (length s % 65536) (omega arith) ∙ omega (arith, f.0)

  -- A framed text reads back, and leaves what follows it.
  field-framed : (after : ℕ) → after ≤ length rest → field after (framed s ++ rest) ≡ ok (s, rest)
  unfolding field
  field-framed after room =
      rw (frame_head, frame_length, frame_tail, fits, take-append s rest, f.1, drop-append s rest)
    where
      fits : leb (length s + after) (length (s ++ rest)) ≡ true
      fits = ground (arith, length-append s rest)

-- The caveats as `encode` writes them.
abbrev framed_all : List Str → Bytes
framed_all [] = []
framed_all (c ∷ cs) = framed c ++ framed_all cs

append_caveats-framed_all : (v : Bytes) (cs : List Str) → append_caveats v cs ≡ v ++ framed_all cs
unfolding append_caveat_bytes
append_caveats-framed_all v [] = sym (append-nil v)
append_caveats-framed_all v (c ∷ cs) =
    append_caveats-framed_all (v ++ framed c) cs ∙ append_assoc v (framed c) (framed_all cs)

length-framed_all : (cs : List Str) → 2 * length cs ≤ length (framed_all cs)
length-framed_all [] = omega arith
length-framed_all (c ∷ cs) =
    omega (arith, length-append (framed c) (framed_all cs), length-framed c, length-framed_all cs)

caveat_loop-framed_all :
    (fuel : ℕ) (caveats cs : List Str) (sig : Bytes)
    → length cs ≤ fuel
    → length caveats + length cs ≤ 256
    → All IsField cs
    → length sig ≡ 32
    → caveat_loop fuel caveats (framed_all cs ++ sig) ≡ ok (caveats ++ cs, sig)
unfolding caveat_loop
caveat_loop-framed_all zero caveats [] sig h few fs len = rw append-nil (ground arith)
caveat_loop-framed_all (suc fuel) caveats [] sig h few fs len = rw append-nil (ground arith)
caveat_loop-framed_all zero caveats (c ∷ cs) sig h few fs len = absurd (omega arith)
caveat_loop-framed_all (suc fuel) caveats (c ∷ cs) sig h few (f, fs) len =
    let rest : Bytes = framed_all cs ++ sig in
    rw (append_assoc (framed c) (framed_all cs) sig) (
      ground (
        arith,
        field-framed c rest f 32 (omega (arith, length-append (framed_all cs) sig)),
        length-append (framed c) rest,
        length-framed c,
        length-append (framed_all cs) sig,
        length-append caveats (c ∷ []),
        append_assoc caveats (c ∷ []) cs,
        caveat_loop-framed_all fuel (caveats ++ c ∷ []) cs sig,
      ))

-- What `mint` and `attenuate_holder` keep to: every text fits its field, the signature has 32 bytes,
-- and the whole fits a token.
pub record IsEncodable (cap : Cap) : Type 0 where
  pub loc_fits : IsField cap.loc
  pub id_fits : IsField cap.id
  pub caveats_fit : All IsField cap.caveats
  pub few : length cap.caveats ≤ 256
  pub sig_fits : length cap.sig ≡ 32
  pub small : length (encode cap) ≤ max_token_bytes

module _ (cap : Cap) (w : IsEncodable cap) where
  abbrev tail2 : Bytes
  tail2 = framed_all cap.caveats ++ cap.sig

  abbrev tail1 : Bytes
  tail1 = framed cap.id ++ tail2

  encode_parts : encode cap ≡ (bytes "FMAC" ++ 1 ∷ []) ++ (framed cap.loc ++ tail1)
  unfolding encode prefix_bytes
  encode_parts = rw append_caveats-framed_all (simp append_assoc)

  length-tail2 : 32 + 2 * length cap.caveats ≤ length tail2
  length-tail2 = omega (
    arith,
    length-append (framed_all cap.caveats) cap.sig,
    length-framed_all cap.caveats,
    w.sig_fits,
  )

  length-tail1 : length tail1 ≡ 2 + length cap.id + length tail2
  length-tail1 = omega (arith, length-append (framed cap.id) tail2, length-framed cap.id)

  small_enough : leb (length (encode cap)) max_token_bytes ≡ true
  small_enough = ground (arith, w.small)

  big_enough : leb 41 (length (encode cap)) ≡ true
  big_enough = rw encode_parts (
      ground (
        arith,
        length-append (framed cap.loc) tail1,
        length-framed cap.loc,
        length-tail1,
        length-tail2,
      ))

  rebuilt : IsParsed cap → cap_from_parts cap.loc cap.id cap.caveats cap.sig ≡ ok cap
  unfolding cap_from_parts
  rebuilt parsed = rw parsed

  -- The bytes of a credential decode to it, if its texts fit their fields and are UTF-8, it has at
  -- most 256 caveats, its signature has 32 bytes, the whole fits a token, and its fields are those
  -- that its caveats parse to.
  pub decode_cap-encode : IsParsed cap → decode_cap (encode cap) ≡ ok cap
  unfolding decode_cap
  decode_cap-encode parsed =
      rw
        (
          small_enough,
          big_enough,
          encode_parts,
          field-framed cap.loc tail1 w.loc_fits 34 (omega (arith, length-tail1, length-tail2)),
          field-framed cap.id tail2 w.id_fits 32 (omega (arith, length-tail2)),
          caveat_loop-framed_all (length tail2) [] cap.caveats cap.sig (omega (arith, length-tail2))
              (omega (arith, w.few)) w.caveats_fit w.sig_fits,
          w.sig_fits,
        )
        (rebuilt parsed)

  strip_token : (s : Str) → strip_prefix (bytes "fmac1_" ++ s) (bytes "fmac1_") ≡ some s
  unfolding strip_prefix
  strip_token s = refl

  -- The text of a credential parses to it, if its strings are made of bytes and fit their fields, are
  -- UTF-8, it has at most 256 caveats, its signature has 32 bytes, the whole fits a token, and its
  -- fields are those that its caveats parse to.
  pub from_token-to_token :
      All IsByte (encode cap) → IsParsed cap → from_token (to_token cap) ≡ ok cap
  unfolding from_token to_token
  from_token-to_token b parsed =
      rw (strip_token (hex_encode (encode cap)), fits, hex_decode-hex_encode (encode cap) b)
        (decode_cap-encode parsed)
    where
      fits : leb (length (hex_encode (encode cap))) (max_token_bytes * 2) ≡ true
      fits = ground (arith, length-hex_encode (encode cap), w.small)
