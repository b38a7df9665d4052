-- ===== src/Core/Cbor/Fields/Sizes.antt =====
-- How long what a writer wrote is.
use forgefs.Base.{
  ℕ, ◌+◌, ◌*◌, ◌≤◌, ◌≡◌, refl, Bool, List, [], ◌∷◌, ◌++◌, arith, length, All, Bytes, Str,
  length-append,
}
use forgefs.Core.Cbor.{
  encode_u64, encode_bool, encode_bytes, concat_map, encode_text, encode_array_header,
  encode_map_header, push_uint,
}
use forgefs.Core.Cbor.Uint.{length-push_uint}
use forgefs.Core.Cbor.Fields.{concat_fields}

-- A value that is not empty, as every encoded value is.
abbrev pub IsFilled : Bytes → Type 0
IsFilled v = 1 ≤ length v

pub push_uint-IsFilled : (major n : ℕ) → IsFilled (push_uint major n)
unfolding push_uint
push_uint-IsFilled major n = omega arith

module _ (n : ℕ) (v : Bytes) where
  pub u64-IsFilled : IsFilled (encode_u64 n)
  unfolding encode_u64
  u64-IsFilled = push_uint-IsFilled 0 n

  pub bool-IsFilled : (b : Bool) → IsFilled (encode_bool b)
  unfolding encode_bool
  bool-IsFilled b = omega arith

  pub bytes-IsFilled : IsFilled (encode_bytes v)
  unfolding encode_bytes
  bytes-IsFilled =
      omega (arith, push_uint-IsFilled 2 (length v), length-append (push_uint 2 (length v)) v)

  pub text-IsFilled : IsFilled (encode_text v)
  unfolding encode_text
  text-IsFilled =
      omega (arith, push_uint-IsFilled 3 (length v), length-append (push_uint 3 (length v)) v)

  pub array-IsFilled : IsFilled (encode_array_header n ++ v)
  unfolding encode_array_header
  array-IsFilled = omega (arith, push_uint-IsFilled 4 n, length-append (push_uint 4 n) v)

  pub map-IsFilled : IsFilled (encode_map_header n ++ v)
  unfolding encode_map_header
  map-IsFilled = omega (arith, push_uint-IsFilled 5 n, length-append (push_uint 5 n) v)

module _ (v : Bytes) where
  pub length-encode_text : length (encode_text v) ≤ 9 + length v
  unfolding encode_text
  length-encode_text =
      omega (arith, length-push_uint 3 (length v), length-append (push_uint 3 (length v)) v)

  pub length-encode_bytes : length (encode_bytes v) ≤ 9 + length v
  unfolding encode_bytes
  length-encode_bytes =
      omega (arith, length-push_uint 2 (length v), length-append (push_uint 2 (length v)) v)

pub length-encode_bool : (b : Bool) → length (encode_bool b) ≡ 1
unfolding encode_bool
length-encode_bool b = refl

pub length-encode_header :
    (n : ℕ) → (length (encode_array_header n) ≤ 9) × (length (encode_map_header n) ≤ 9)
unfolding encode_array_header encode_map_header
length-encode_header n = (length-push_uint 4 n, length-push_uint 5 n)

-- The sum of what keys and values take.
abbrev pub size_of : List (Str × Bytes) → ℕ
size_of [] = 0
size_of ((k, v) ∷ kvs) = 9 + length k + length v + size_of kvs

pub length-concat_fields_le : (kvs : List (Str × Bytes)) → length (concat_fields kvs) ≤ size_of kvs
length-concat_fields_le [] = omega arith
length-concat_fields_le ((k, v) ∷ kvs) = omega (
  arith,
  length-encode_text k,
  length-append (encode_text k) (v ++ concat_fields kvs),
  length-append v (concat_fields kvs),
  length-concat_fields_le kvs,
)

pub length-concat_fields :
    (kvs : List (Str × Bytes))
    → All (λ (kv : Str × Bytes). IsFilled kv.1) kvs
    → 2 * length kvs ≤ length (concat_fields kvs)
length-concat_fields [] filled = omega arith
length-concat_fields ((k, v) ∷ kvs) (one, more) = omega (
  arith,
  text-IsFilled 0 k,
  length-append (encode_text k) (v ++ concat_fields kvs),
  length-append v (concat_fields kvs),
  length-concat_fields kvs more,
)

pub length-concat_map {ℓ} :
    {A : Type ℓ} (enc : A → Bytes)
    → ((a : A) → IsFilled (enc a))
    → (xs : List A) → length xs ≤ length (concat_map enc xs)
length-concat_map enc filled [] = omega arith
length-concat_map enc filled (a ∷ xs) =
    omega
      (arith, filled a, length-append (enc a) (concat_map enc xs), length-concat_map enc filled xs)
