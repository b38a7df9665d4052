-- ===== src/Namespace/Paths.antt =====
-- `normalize_abs` is idempotent, and `rel_of` splits a path at its mount.
use forgefs.Base.{
  ℕ, subst, Bool-cases, ◌≡◌, refl, ap, ◌∙◌, sym, some, [], ◌∷◌, ◌++◌, arith, eqb, if◌then◌else◌,
  ◌==◌, list_eq, nat_eq, eq_list_iff, Str, bytes, starts_with, strip_prefix, ◌⊎◌, inl, inr, ◌≢◌,
}
use forgefs.Types.{Result, ok, ◌>>=◌, ok-injective}
use forgefs.Core.Tree.{split_path}
use forgefs.Namespace.{trim_end, pop_slashes, rooted, normalize_abs, under, rel_of}

trim_end_twice : (s : Str) → trim_end (trim_end s) ≡ trim_end s
trim_end_twice [] = refl
trim_end_twice (c ∷ s) = ground (arith, trim_end_twice s)

abbrev checked : Str → Result Str
checked p = if p == bytes "/" then ok p else (split_path p >>= λ _. ok p)

checked_lem : (p q : Str) → checked p ≡ ok q → p ≡ q
checked_lem p q h = ground arith

rooted_form : (c : ℕ) (s : Str) → (t : Str) × (rooted (c ∷ s) ≡ b'/' ∷ t)
unfolding starts_with
rooted_form c s = elim (Bool-cases (eqb c b'/')) [
  | inl slash ↦ (s, rw slash (ground arith))
  | inr other ↦ (c ∷ s, rw other refl)
]

-- What `normalize_abs` returns begins with a slash, has no other slash at its end, and is checked.
normal_form :
    (p q : Str) → normalize_abs p ≡ ok q → (s : Str) × (q ≡ b'/' ∷ trim_end s) × (checked q ≡ ok q)
unfolding normalize_abs
normal_form [] q h = ([], sym (ok-injective h), rw (sym (ok-injective h)) refl)
normal_form (c ∷ s) q h =
    let (t, e) = rooted_form c s in
    let same : pop_slashes (rooted (c ∷ s)) ≡ q = checked_lem (pop_slashes (rooted (c ∷ s))) q h in
    (t, sym same ∙ ap pop_slashes e, subst (λ x. checked x ≡ ok q) same h)

slash_form : (t : Str) → normalize_abs (b'/' ∷ trim_end t) ≡ checked (b'/' ∷ trim_end t)
unfolding normalize_abs starts_with
slash_form t = ap (λ x. checked (b'/' ∷ x)) (trim_end_twice t)

-- Normalizing a path again changes nothing.
pub normalize_abs_twice : (p q : Str) → normalize_abs p ≡ ok q → normalize_abs q ≡ ok q
normalize_abs_twice p q h =
    let (t, e, c) = normal_form p q h in ap normalize_abs e ∙ slash_form t ∙ ap checked (sym e) ∙ c

strip_prefix_lem : (s p r : Str) → strip_prefix s p ≡ some r → s ≡ p ++ r
unfolding strip_prefix
strip_prefix_lem s [] r h = ground arith
strip_prefix_lem [] (c ∷ p) r h = cc
strip_prefix_lem (d ∷ s) (c ∷ p) r h = ground (arith, strip_prefix_lem s p r)

-- Where `rel_of` answers a path within a mount other than the root, the normalized path is the
-- normalized mount, or that mount, a slash and the answer.
pub rel_of_lem :
    (mount_path abs mp abs' rest : Str)
    → normalize_abs mount_path ≡ ok mp
    → normalize_abs abs ≡ ok abs'
    → mp ≢ bytes "/"
    → rel_of mount_path abs ≡ ok rest
    → ((abs' ≡ mp) × (rest ≡ [])) ⊎ (abs' ≡ (mp ++ bytes "/") ++ rest)
unfolding rel_of under
rel_of_lem mount_path abs mp abs' rest hm ha root h = ground (
  arith,
  hm,
  ha,
  eq_list_iff mp (bytes "/"),
  eq_list_iff abs' mp,
  strip_prefix_lem abs' (mp ++ bytes "/") rest,
)
