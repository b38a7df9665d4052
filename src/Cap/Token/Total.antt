-- ===== src/Cap/Token/Total.antt =====
-- The loop of `decode_cap` ends within its fuel.
use forgefs.Base.{
  ℕ, zero, suc, ◌-◌, ◌≤◌, ◌<◌, ◌≢◌, List, [], ◌∷◌, ◌++◌, arith, ltb, Bool-cases, inl, inr, length,
  take, drop, length-drop, Bytes, Str, from_be_bytes, String,
}
use forgefs.Types.{internal, Result, ok, err, ◌>>=◌}
use forgefs.Cap.Token.{field, caveat_loop}

-- A field takes its two length bytes at least, and its errors are credential errors.
abbrev Fine : Bytes → Result (Str × Bytes) → Type 0
Fine raw (ok (s, rest)) = length rest ≤ length raw - 2
Fine raw (err e) = (m : String) → e ≢ internal m

field-Fine : (after : ℕ) (raw : Bytes) → Fine raw (field after raw)
unfolding field
field-Fine after raw =
    ground (arith, length-drop 2 raw, length-drop (from_be_bytes (take 2 raw)) (drop 2 raw))

module _ (fuel : ℕ) (caveats : List Str) (raw : Bytes) (long : 32 < length raw)
    (enough : length raw ≤ suc fuel) where
  round_ends :
      (r : Result (Str × Bytes)) (m : String)
      → Fine raw r
      → ((c : Str) (rest : Bytes)
          → length rest ≤ fuel
          → caveat_loop fuel (caveats ++ c ∷ []) rest ≢ err (internal m))
      → ◌>>=◌ {U = List Str × Bytes} r (λ (c, rest). caveat_loop fuel (caveats ++ c ∷ []) rest)
        ≢ err (internal m)
  round_ends (ok (c, rest)) m fine more = more c rest (omega arith)
  round_ends (err e) m fine more = λ h. fine m (ground arith)

-- With the number of the bytes as fuel, or more, the loop over the caveats does not run out of fuel.
pub caveat_loop-ends :
    (fuel : ℕ) (caveats : List Str) (raw : Bytes) (m : String)
    → length raw ≤ fuel
    → caveat_loop fuel caveats raw ≢ err (internal m)
unfolding caveat_loop
caveat_loop-ends zero caveats raw m enough = ground arith
caveat_loop-ends (suc fuel) caveats raw m enough = elim (Bool-cases (ltb 32 (length raw))) [
  | inl long ↦ rw long (
      ground (
        arith,
        round_ends fuel caveats raw (ground arith) enough (field 32 raw) m (field-Fine 32 raw)
            (λ c rest small. caveat_loop-ends fuel (caveats ++ c ∷ []) rest m small),
      ))
  | inr short ↦ rw short (ground arith)
]
