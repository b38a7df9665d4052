-- ===== src/Catalog/Audit/Clean.antt =====
-- The audit has nothing to report on consistent tables.
use forgefs.Base.{
  true, false, not, ◌&&◌, ◌≡◌, refl, sym, ◌∙◌, subst, Option, none, some, List, [], ◌∷◌, ◌++◌,
  arith, Bool-cases, inl, inr, All, ◌==◌, nat_eq, list_eq, same_refl, Str,
}
use forgefs.Catalog.{Catalog, RefRow, ReflogRow, find_ref, last_row, ref_exists, retired_by}
use forgefs.Catalog.Audit.{
  FindingCode, chain_findings, terminal_finding, terminal_findings, orphan_findings, audit_reflog,
}
use forgefs.Catalog.Audit.Consistent.{Agree, IsChained, IsConsistent}
use forgefs.Catalog.Audit.Rows.{same_name, IsUnique, find_behind, find_first, none-some}

All-mono {ℓ κ} :
    {A : Type ℓ} (P Q : A → Type κ) (xs : List A) → ((x : A) → P x → Q x) → All P xs → All Q xs
All-mono P Q [] f h = tt
All-mono P Q (x ∷ xs) f h = (f x h.0, All-mono P Q xs f h.1)

no_findings : {xs ys : List FindingCode} → xs ≡ [] → ys ≡ [] → xs ++ ys ≡ []
no_findings {xs} {ys} p q = subst (λ l. l ++ ys ≡ []) (sym p) q

chain_findings-none : (l : List ReflogRow) → IsChained l → chain_findings l ≡ []
unfolding chain_findings
chain_findings-none [] h = refl
chain_findings-none (r ∷ older) (h, hs) = no_findings (chain_findings-none older hs) h

found_behind :
    (x r : RefRow) (rows : List RefRow)
    → find_ref rows x.name ≡ none
    → find_ref rows r.name ≡ some r
    → find_ref (x ∷ rows) r.name ≡ some r
found_behind x r rows f h = elim (Bool-cases (x.name == r.name)) [
  | inl b ↦
      absurd
        (none-some (sym (subst (λ n. find_ref rows n ≡ none) (same_name x.name r.name b) f) ∙ h))
  | inr b ↦ find_behind x rows r.name b ∙ h
]

own_entry : (x : ReflogRow) (l : List ReflogRow) → last_row (x ∷ l) x.name ≡ none → ⊥
own_entry x l e = ground (arith, same_refl x.name)

older_entry :
    (x : ReflogRow) (l : List ReflogRow) (n : Str) → last_row (x ∷ l) n ≡ none → last_row l n ≡ none
older_entry x l n e = ground arith

-- Each row is the one that its name finds.
found_rows : (rows : List RefRow) → IsUnique rows → All (λ r. find_ref rows r.name ≡ some r) rows
found_rows [] u = tt
found_rows (x ∷ rows) (f, u) = (
  find_first x rows,
  All-mono (λ r. find_ref rows r.name ≡ some r) (λ r. find_ref (x ∷ rows) r.name ≡ some r) rows
      (λ r h. found_behind x r rows f h) (found_rows rows u),
)

-- Each entry's name has a last entry.
logged : (l : List ReflogRow) → All (λ r. last_row l r.name ≡ none → ⊥) l
logged [] = tt
logged (x ∷ l) = (
  (λ e. own_entry x l e),
  All-mono (λ r. last_row l r.name ≡ none → ⊥) (λ r. last_row (x ∷ l) r.name ≡ none → ⊥) l
      (λ r h e. h (older_entry x l r.name e)) (logged l),
)

module _ (c : Catalog)
    (agree : (name : Str) → Agree (find_ref c.refs name) (last_row c.reflog name)) where
  terminal_ok :
      (row : RefRow) (l : Option ReflogRow) → Agree (some row) l → terminal_finding l row ≡ []
  unfolding terminal_finding
  terminal_ok row none a = absurd a
  terminal_ok row (some r) a = ground (arith, a.0, same_refl row.oid)

  terminal_findings-none :
      (rows : List RefRow)
      → All (λ r. find_ref c.refs r.name ≡ some r) rows
      → terminal_findings c.reflog rows ≡ []
  unfolding terminal_findings
  terminal_findings-none [] h = refl
  terminal_findings-none (row ∷ rows) (h, hs) =
      no_findings
        (terminal_ok row (last_row c.reflog row.name)
          (subst (λ o. Agree o (last_row c.reflog row.name)) h (agree row.name)))
        (terminal_findings-none rows hs)

  kept :
      (r : ReflogRow)
      → (last_row c.reflog r.name ≡ none → ⊥)
      → (not (ref_exists c r.name) && not (retired_by (last_row c.reflog r.name))) ≡ false
  unfolding ref_exists
  kept r h = go (find_ref c.refs r.name) (last_row c.reflog r.name) (agree r.name) h
    where
      go :
          (o : Option RefRow) (l : Option ReflogRow)
          → Agree o l
          → (l ≡ none → ⊥)
          → (not (elim o [ none ↦ false | some _ ↦ true ]) && not (retired_by l)) ≡ false
      go none none a n = absurd (n refl)
      go none (some e) a n = ground (arith, a)
      go (some row) l a n = refl

  orphan_findings-none :
      (l : List ReflogRow)
      → All (λ r. last_row c.reflog r.name ≡ none → ⊥) l
      → orphan_findings c l ≡ []
  unfolding orphan_findings ref_exists
  orphan_findings-none [] h = refl
  orphan_findings-none (r ∷ l) (h, hs) =
      no_findings (ground (arith, kept r h)) (orphan_findings-none l hs)

pub audit_reflog-none : (c : Catalog) → IsConsistent c → audit_reflog c ≡ []
unfolding audit_reflog
audit_reflog-none c (chained, unique, agree) =
    no_findings
      (no_findings (chain_findings-none c.reflog chained)
        (terminal_findings-none c agree c.refs (found_rows c.refs unique)))
      (orphan_findings-none c agree c.reflog (logged c.reflog))
