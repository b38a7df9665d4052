-- ===== src/Core/Cbor/Fields.antt =====
-- The loop of every decoder over the keys of a map, and the loop over an array.
pub mod Sizes
pub mod Loops
use forgefs.Base.{
  ℕ, zero, suc, ◌+◌, ◌-◌, ◌*◌, ◌/◌, ◌^◌, ◌≤◌, ◌<◌, ◌≡◌, refl, ap, ◌∙◌, sym, subst, Bool, true,
  false, Option, none, some, List, [], ◌∷◌, ◌++◌, arith, leb, length, take, drop, take-append, All,
  Bytes, Str, is_utf8, length-append, append-nil, append_assoc,
}
use forgefs.Types.{Error, Result, ok, err}
use forgefs.Core.Cbor.{
  encode_u64, encode_bool, encode_bytes, Pairs, concat_map, concat_pairs, encode_text,
  encode_array_header, encode_map_header, push_uint,
}
use forgefs.Core.Cbor.Reader.{
  Reader, Read, ◌>>=◌, ◌>>◌, pure, check, above, text_bounded, text, bstr32, text_map_key,
  text_map_key_bounded, array, map_header, typed, remaining, usize_max,
}
use forgefs.Core.Cbor.Reader.Reads.{
  IsReader, advance, advance_zero, Reads, Reads-pure, Reads-bind, Reads-then, Reads-last,
  Reads-guard, drop-advance,
}
use forgefs.Core.Cbor.Uint.{IsU64, length-push_uint, Reads-typed, Reads-text_bounded, Reads-bstr32}

-- `for _ in 0..n { let k = r.text_map_key(&mut last)?; match k.as_str() { … } }`
unfoldable pub fields {ℓ} : {S : Type ℓ} → (S → Str → Read S) → ℕ → Option Bytes → S → Read S
fields step zero last s = pure s
fields step (suc n) last s = do
  (k, encoded) ← text_map_key last
  s' ← step s k
  fields step n (some encoded) s'

-- `for _ in 0..n { v.push(…) }`
unfoldable pub repeat {ℓ} : {A : Type ℓ} → ℕ → Read A → Read (List A)
repeat zero m = pure []
repeat (suc n) m = do a ← m; xs ← repeat n m; pure (a ∷ xs)

-- `let n = r.map()?;` and the loop.
abbrev pub read_map {ℓ} : {S : Type ℓ} → (S → Str → Read S) → S → Read S
read_map step s = map_header >>= λ n. fields step n none s

-- `let m = r.array()?;`, the test against a limit, and the loop.
abbrev pub read_array {ℓ} : {A : Type ℓ} → ℕ → Error → Read A → Read (List A)
read_array limit e m = array >>= λ n. check (leb n limit) e >> repeat n m

abbrev pub IsText : Str → Type 0
IsText s = IsU64 (length s) × (is_utf8 s ≡ true)

-- The keys and the encoded values of a map, xs they are written.
abbrev pub concat_fields : List (Str × Bytes) → Bytes
concat_fields [] = []
concat_fields ((k, v) ∷ kvs) = encode_text k ++ (v ++ concat_fields kvs)
