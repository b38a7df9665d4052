-- ===== src/Core/Cbor.antt =====
-- forge-core/cbor.rs, the writers: minimal canonical CBOR.
-- A function that appends to `out` is the bytes that it appends.
pub mod Reader
pub mod Uint
pub mod Fields
use Prim.Native.Nat.Ordering.{gt}
use forgefs.Base.{
  ℕ, ◌+◌, ◌*◌, ◌^◌, ◌%◌, Bool, true, false, List, [], ◌∷◌, ◌++◌, ltb, leb, eqb, if◌then◌else◌,
  length, bit_or, cmp, Bytes, Str, to_be_bytes,
}

unfoldable pub u8_len : ℕ → ℕ
u8_len n =
    if ltb n 24
    then n
    else if leb n 0xff
    then 24
    else if leb n 0xffff
    then 25
    else if leb n 0xffff_ffff
    then 26
    else 27

-- What follows the first byte, by the additional information in it.
abbrev tail_of : ℕ → ℕ → Bytes
tail_of ai n =
    if eqb ai 24
    then to_be_bytes 1 (n % 256)
    else if eqb ai 25
    then to_be_bytes 2 (n % 65536)
    else if eqb ai 26
    then to_be_bytes 4 (n % 2 ^ 32)
    else if eqb ai 27
    then to_be_bytes 8 n
    else []

unfoldable pub push_uint : ℕ → ℕ → Bytes
push_uint major n = bit_or (major * 32 % 256) (u8_len n) ∷ tail_of (u8_len n) n

unfoldable pub encode_u64 : ℕ → Bytes
encode_u64 n = push_uint 0 n

unfoldable pub encode_bool : Bool → Bytes
encode_bool v = (if v then 0xf5 else 0xf4) ∷ []

unfoldable pub encode_null : Bytes
encode_null = 0xf6 ∷ []

unfoldable pub encode_bytes : Bytes → Bytes
encode_bytes b = push_uint 2 (length b) ++ b

unfoldable pub encode_text : Str → Bytes
encode_text s = push_uint 3 (length s) ++ s

unfoldable pub encode_array_header : ℕ → Bytes
encode_array_header n = push_uint 4 n

unfoldable pub encode_map_header : ℕ → Bytes
encode_map_header n = push_uint 5 n

-- The stable sort by key.
abbrev pub Pairs : Type 0
Pairs = List (Bytes × Bytes)

abbrev pub insert_pair : Bytes → Bytes → Pairs → Pairs
insert_pair k v [] = (k, v) ∷ []
insert_pair k v ((j, w) ∷ ps) =
    let rest = insert_pair k v ps in
    elim (cmp k j) [ gt ↦ (j, w) ∷ rest | _ ↦ (k, v) ∷ (j, w) ∷ ps ]

abbrev pub sort_pairs : Pairs → Pairs
sort_pairs [] = []
sort_pairs ((k, v) ∷ ps) = insert_pair k v (sort_pairs ps)

abbrev pub concat_pairs : Pairs → Bytes
concat_pairs [] = []
concat_pairs ((k, v) ∷ ps) = k ++ (v ++ concat_pairs ps)

unfoldable pub encode_map_sorted : Pairs → Bytes
encode_map_sorted pairs = encode_map_header (length pairs) ++ concat_pairs (sort_pairs pairs)

unfoldable pub text_key : Str → Bytes
text_key s = encode_text s

-- The bytes that a loop over a list writes.
abbrev pub concat_map {ℓ} : {A : Type ℓ} → (A → Bytes) → List A → Bytes
concat_map enc [] = []
concat_map enc (a ∷ xs) = enc a ++ concat_map enc xs
