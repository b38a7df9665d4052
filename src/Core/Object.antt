-- ===== src/Core/Object.antt =====
-- forge-core/object.rs: the object file and its codecs.
-- A panic of the source is the error `internal`.
pub mod Frame
pub mod Blob
pub mod Commit
pub mod Conflict
pub mod Contribution
pub mod Snapshot
pub mod TreeCodec
use forgefs.Base.{
  ℕ, ◌^◌, Option, none, some, Bool, true, false, List, [], ◌∷◌, ◌++◌, ltb, leb, if◌then◌else◌,
  length, take, drop, Bytes, to_be_bytes, from_be_bytes,
}
use forgefs.Types.{
  Error, corrupt, internal, Result, Checked, ok, err, ◌>>=◌, ◌>>◌, guard, ObjectType, to_u8,
  from_u8, eq_type,
}
use forgefs.Core.Cbor.Reader.{Reader, Read, at_end, check, fail, pure}

abbrev pub max_tree_entries : ℕ
max_tree_entries = 100_000

abbrev pub max_commit_parents : ℕ
max_commit_parents = 1_024

abbrev pub max_conflict_items : ℕ
max_conflict_items = 100_000

unfoldable pub encode_file : ObjectType → Bytes → Bytes → Result Bytes
encode_file ty header payload =
    if ltb (length header) (2 ^ 32)
    then ok (to_u8 ty ∷ (to_be_bytes 4 (length header) ++ (header ++ payload)))
    else err (internal "Forge object header exceeds u32::MAX")

-- The sum of 5 and a `u32` does not overflow a `usize` of 64 bits.
unfoldable pub parse_file : Bytes → Result (ObjectType × Bytes × Bytes)
parse_file (b ∷ n3 ∷ n2 ∷ n1 ∷ n0 ∷ body) = do
  ty ← from_u8 b
  let n = from_be_bytes (n3 ∷ n2 ∷ n1 ∷ n0 ∷ [])
  guard (leb n (length body)) (corrupt "object header truncated")
  ok (ty, take n body, drop n body)
parse_file _ = err (corrupt "object file too short")

-- A read of a header, from `Reader::new(header)`.
unfoldable pub read_all {ℓ} : {A : Type ℓ} → Read A → Bytes → Result A
read_all m header = do (a, _) ← m (record { buf = header; pos = 0 }); ok a

-- `if !r.at_end() { return Err(e) }`
unfoldable pub end_of : Error → Read (Unit {0})
unfolding at_end
end_of e r = check (at_end r) e r

-- `?`, in a file where a read has the notation.
abbrev pub and_then {ℓ κ} : {A : Type ℓ} {B : Type κ} → Result A → (A → Result B) → Result B
and_then m f = m >>= f

-- `v.ok_or_else(|| e)?`
abbrev pub require {ℓ} : {A : Type ℓ} → Option A → Error → Read A
require none e = fail e
require (some a) e = pure a

-- The type test and the test for a payload with which a decoder starts.
unfoldable pub header_of : ObjectType → Error → Error → Bytes → Result Bytes
header_of expected wrong_type has_payload bs = do
  (ty, header, payload) ← parse_file bs
  guard (eq_type ty expected) wrong_type
  guard (elim payload [ [] ↦ true | _ ∷ _ ↦ false ]) has_payload
  ok header

-- The decoder of an object that is all header.
unfoldable pub decode_with {ℓ} :
    {A : Type ℓ} → ObjectType → Error → Error → Read A → Bytes → Result A
unfolding header_of read_all
decode_with expected wrong_type has_payload m bs = do
  header ← header_of expected wrong_type has_payload bs
  read_all m header

-- The type test of `Blob::decode`, and the read of the header, which looks at the payload.
unfoldable pub parse_blob {ℓ} : {A : Type ℓ} → (Bytes → Read A) → Bytes → Result A
unfolding read_all
parse_blob m bs = do
  (ty, header, payload) ← parse_file bs
  guard (eq_type ty ObjectType.blob) (corrupt "not a blob")
  read_all (m payload) header
