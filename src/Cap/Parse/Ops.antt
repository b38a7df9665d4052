-- ===== src/Cap/Parse/Ops.antt =====
-- Once an `ops=` caveat is read, the operations are given explicitly.
use forgefs.Base.{
  ◌≡◌, refl, Bool, true, false, Option, none, some, List, [], ◌∷◌, arith, any, Str, bytes,
  strip_prefix, split, trim, Option-cases, inl, inr,
}
use forgefs.Types.{Result, ok, err, ◌>>=◌}
use forgefs.Cap.{read}
use forgefs.Cap.Parse.{
  Scan, scan_ops, scan_allow, scan_ref_not, scan_ref, scan_time, scan_agent, scan_caveat,
  scan_caveats, parse_caveats,
}
use forgefs.Cap.Parse.Narrow.{Narrower}
use forgefs.Cap.Parse.Steps.{scan_caveats-Narrower}

-- An `ops=` caveat among the caveats, as the parser's own prefix test finds it.
abbrev pub is_ops : Str → Bool
is_ops c = elim (strip_prefix c (bytes "ops=")) [ some rest ↦ true | none ↦ false ]

abbrev pub is_set {ℓ} : {A : Type ℓ} → Option A → Bool
is_set none = false
is_set (some a) = true

scan_ops-is_set : (s t : Scan) (rest : Str) → scan_ops s rest ≡ ok t → is_set t.ops ≡ true
unfolding scan_ops
scan_ops-is_set s t rest h = ground arith

scan_caveat-is_set :
    (s t : Scan) (c : Str) → scan_caveat s c ≡ ok t → is_ops c ≡ true → is_set t.ops ≡ true
unfolding scan_caveat
scan_caveat-is_set s t c h k = grind (arith, scan_ops-is_set)

is_set-Narrower : (s t : Scan) → Narrower t s → is_set s.ops ≡ true → is_set t.ops ≡ true
is_set-Narrower s t n h = elim (Option-cases s.ops) [
  | inl e ↦ cc (rw e at h)
  | inr (set, e) ↦ rw ((n.ops_kept set e).1)
]

is_set-step :
    (t : Scan) (f : Scan → Result Scan) (r : Result Scan)
    → ((s' : Scan) → r ≡ ok s' → f s' ≡ ok t → is_set t.ops ≡ true)
    → (r >>= f) ≡ ok t
    → is_set t.ops ≡ true
is_set-step t f (ok s') k h = k s' refl h
is_set-step t f (err e) k h = cc

pub scan_caveats-is_set :
    (s t : Scan) (cs : List Str)
    → scan_caveats s cs ≡ ok t
    → any is_ops cs ≡ true
    → is_set t.ops ≡ true
unfolding scan_caveats
scan_caveats-is_set s t [] h k = cc
scan_caveats-is_set s t (c ∷ cs) h k =
    is_set-step t (λ s'. scan_caveats s' cs) (scan_caveat s c)
      (λ s' e more. ground (
        arith,
        scan_caveat-is_set s s' c e,
        is_set-Narrower s' t (scan_caveats-Narrower s' t cs more),
        scan_caveats-is_set s' t cs more,
      ))
      h

-- Every other caveat leaves the operations as they are.
module _ (s t : Scan) (rest : Str) where
  ops-scan_allow : scan_allow s rest ≡ ok t → t.ops ≡ s.ops
  unfolding scan_allow
  ops-scan_allow h = ground arith

  ops-scan_ref_not : scan_ref_not s rest ≡ ok t → t.ops ≡ s.ops
  unfolding scan_ref_not
  ops-scan_ref_not h = ground arith

  ops-scan_ref : scan_ref s rest ≡ ok t → t.ops ≡ s.ops
  unfolding scan_ref
  ops-scan_ref h = ground arith

  ops-scan_time : scan_time s rest ≡ ok t → t.ops ≡ s.ops
  unfolding scan_time
  ops-scan_time h = ground arith

  ops-scan_agent : scan_agent s rest ≡ ok t → t.ops ≡ s.ops
  unfolding scan_agent
  ops-scan_agent h = ground arith

ops-scan_caveat : (s t : Scan) (c : Str) → scan_caveat s c ≡ ok t → is_ops c ≡ false → t.ops ≡ s.ops
unfolding scan_caveat
ops-scan_caveat s t c h k =
    grind (arith, ops-scan_allow, ops-scan_ref_not, ops-scan_ref, ops-scan_time, ops-scan_agent)

ops-step :
    (s t : Scan) (f : Scan → Result Scan) (r : Result Scan)
    → ((s' : Scan) → r ≡ ok s' → f s' ≡ ok t → t.ops ≡ s.ops)
    → (r >>= f) ≡ ok t
    → t.ops ≡ s.ops
ops-step s t f (ok s') k h = k s' refl h
ops-step s t f (err e) k h = cc

pub ops-scan_caveats :
    (s t : Scan) (cs : List Str) → scan_caveats s cs ≡ ok t → any is_ops cs ≡ false → t.ops ≡ s.ops
unfolding scan_caveats
ops-scan_caveats s t [] h k = ground arith
ops-scan_caveats s t (c ∷ cs) h k =
    ops-step s t (λ s'. scan_caveats s' cs) (scan_caveat s c)
      (λ s' e more. ground (arith, ops-scan_caveat s s' c e, ops-scan_caveats s' t cs more)) h

-- What the caveat `ops=read` does to a scan that has seen no `ops=` caveat.
pub scan_caveats-ops_read :
    (s : Scan)
    → s.ops ≡ none
    → scan_caveats s (bytes "ops=read" ∷ []) ≡ ok (record s { ops = some (read ∷ []) })
unfolding parse_caveats strip_prefix split trim
scan_caveats-ops_read s e = rw e
