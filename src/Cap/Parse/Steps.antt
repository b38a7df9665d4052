-- ===== src/Cap/Parse/Steps.antt =====
-- One round of the loop in `parse_caveats` narrows, and so does the whole loop.
use mathlib.Core.Path.{fun_ext}
use forgefs.Base.{
  ◌∙◌, if◌then◌else◌, ◌==◌, list_eq, nat_eq, Bool-cases, ◌≡◌, refl, ap, true, not, Option, none,
  some, List, [], ◌∷◌, ◌++◌, arith, Str, subst, split, split_once, trim, parse_u64, Option-cases,
  inl, inr,
}
use forgefs.Types.{Result, ok, err, guard, cap_error, ◌>>=◌, ok-injective}
use forgefs.Cap.{op_eq, parse, is_empty}
use forgefs.Cap.Parse.{
  Scan, parse_ops, parse_ref_set, scan_ops, scan_allow, scan_ref_not, scan_ref, scan_time,
  scan_agent, scan_caveat, scan_caveats,
}
use forgefs.Cap.Parse.Narrow.{
  Narrower, Narrower-refl, Narrower-trans, narrow_ops, narrow_allow, narrow_ref_not, narrow_ref,
  narrow_time, narrow_agent, narrow_conflict,
}

module _ (s t : Scan) where
  -- A step that computed to a record narrows as that record does.
  settled : (r : Scan) → Narrower r s → ok r ≡ ok t → Narrower t s
  settled r n h = subst (λ x. Narrower x s) (ok-injective h) n

  bound :
      {A : Type 0} (m : Result A) (f : A → Result Scan)
      → ((a : A) → f a ≡ ok t → Narrower t s)
      → (m >>= f) ≡ ok t
      → Narrower t s
  bound (ok a) f n h = n a h
  bound (err e) f n h = cc

  scan_ops-Narrower : (rest : Str) → scan_ops s rest ≡ ok t → Narrower t s
  unfolding scan_ops
  scan_ops-Narrower rest =
      bound (parse_ops [] (split rest b',')) _ (λ set. settled _ (narrow_ops s set))

  scan_allow-Narrower : (rest : Str) → scan_allow s rest ≡ ok t → Narrower t s
  unfolding scan_allow
  scan_allow-Narrower rest h = elim (Option-cases (split_once rest b':')) [
    | inl e ↦ cc (rw (e, scan_allow) at h)
    | inr ((op_s, refs), e) ↦
        bound (parse (trim op_s)) _
          (λ op. bound (parse_ref_set refs) _ (λ set. settled _ (narrow_allow s op set)))
          (rw (e, scan_allow) at h)
  ]

  scan_ref_not-Narrower : (rest : Str) → scan_ref_not s rest ≡ ok t → Narrower t s
  unfolding scan_ref_not
  scan_ref_not-Narrower rest =
      bound (parse_ref_set rest) _ (λ set. settled _ (narrow_ref_not s set))

  scan_ref-Narrower : (rest : Str) → scan_ref s rest ≡ ok t → Narrower t s
  unfolding scan_ref
  scan_ref-Narrower rest = bound (parse_ref_set rest) _ (λ set. settled _ (narrow_ref s set))

  scan_time-Narrower : (rest : Str) → scan_time s rest ≡ ok t → Narrower t s
  unfolding scan_time
  scan_time-Narrower rest h = elim (Option-cases (parse_u64 rest)) [
    | inl e ↦ cc (rw (e, scan_time) at h)
    | inr (n, e) ↦ settled _ (narrow_time s n) (rw (e, scan_time) at h)
  ]

  named :
      (rest : Str) (a : Option Str)
      → s.agent ≡ a
      → elim a [
        | none ↦ ok (record s { agent = some rest })
        | some prev ↦ if prev == rest then ok s else ok (record s { agent_conflict = true })
      ]
        ≡ ok t
      → Narrower t s
  named rest none e h = settled _ (narrow_agent s rest e) h
  named rest (some prev) e h = elim (Bool-cases (prev == rest)) [
    | inl same ↦ settled _ (Narrower-refl s) (rw same at h)
    | inr other ↦ settled _ (narrow_conflict s) (rw other at h)
  ]

  scan_agent-Narrower : (rest : Str) → scan_agent s rest ≡ ok t → Narrower t s
  unfolding scan_agent
  scan_agent-Narrower rest =
      bound (guard (not (is_empty rest)) (cap_error "empty agent caveat")) _
        (λ _. named rest s.agent refl)

  pub scan_caveat-Narrower : (c : Str) → scan_caveat s c ≡ ok t → Narrower t s
  unfolding scan_caveat
  scan_caveat-Narrower c h = grind (
    arith, scan_ops-Narrower, scan_allow-Narrower, scan_ref_not-Narrower, scan_ref-Narrower,
    scan_time-Narrower, scan_agent-Narrower,
  )

next_step :
    (s t : Scan) (f : Scan → Result Scan) (r : Result Scan)
    → ((s' : Scan) → r ≡ ok s' → Narrower s' s)
    → ((s' : Scan) → f s' ≡ ok t → Narrower t s')
    → (r >>= f) ≡ ok t
    → Narrower t s
next_step s t f (ok s') one more h = Narrower-trans (more s' h) (one s' refl)
next_step s t f (err x) one more h = cc

pub scan_caveats-Narrower : (s t : Scan) (cs : List Str) → scan_caveats s cs ≡ ok t → Narrower t s
unfolding scan_caveats
scan_caveats-Narrower s t [] h = settled s t s (Narrower-refl s) h
scan_caveats-Narrower s t (c ∷ cs) h =
    next_step s t (λ s'. scan_caveats s' cs) (scan_caveat s c) (λ s'. scan_caveat-Narrower s s' c)
      (λ s'. scan_caveats-Narrower s' t cs) h

bind_assoc : (r : Result Scan) (f g : Scan → Result Scan) → (r >>= λ s. f s >>= g) ≡ (r >>= f >>= g)
bind_assoc (ok s) f g = refl
bind_assoc (err e) f g = refl

-- The loop over a list that was extended goes on from where the loop over the list ended.
pub scan_caveats-append :
    (s : Scan) (xs ys : List Str)
    → scan_caveats s (xs ++ ys) ≡ (scan_caveats s xs >>= λ t. scan_caveats t ys)
unfolding scan_caveats
scan_caveats-append s [] ys = refl
scan_caveats-append s (x ∷ xs) ys =
    ap (λ f. scan_caveat s x >>= f) (fun_ext (λ t. scan_caveats-append t xs ys))
    ∙ bind_assoc (scan_caveat s x) (λ t. scan_caveats t xs) (λ t. scan_caveats t ys)
