-- ===== src/Core/Tree/Edits.antt =====
-- forge-core/tree.rs: `merge_sorted_entries`, the fold of sparse edits into a sorted directory.
pub mod Overlaid
use Prim.Native.Nat.Ordering.{lt, eq, gt}
use forgefs.Base.{
  subst, ◌≡◌, refl, ap, ◌∙◌, sym, Bool, true, false, Option, none, some, List, [], ◌∷◌, ◌++◌, arith,
  All, cmp, ◌≺◌, eq_of_cmp, lt_of_gt, gt_of_lt, lt_trans, cmp_refl, Str, Ordering,
}
use forgefs.Core.Tree.{TreeEntry}
use forgefs.Core.Tree.Sorted.{Above, IsSorted, Above-trans}
use forgefs.Core.Tree.Lookup.{lookup}

-- `BTreeMap<String, Option<TreeEntry>>` in the order of its keys; `none` removes the name.
abbrev pub Edits : Type 0
Edits = List (Str × Option TreeEntry)

-- `if let Some(entry) = edit { out.push(entry) }`
abbrev pub push_edit : Option TreeEntry → List TreeEntry → List TreeEntry
push_edit none out = out
push_edit (some e) out = e ∷ out

abbrev pub push_edits : Edits → List TreeEntry
push_edits [] = []
push_edits ((n, edit) ∷ edits) = push_edit edit (push_edits edits)

unfoldable pub merge_sorted_entries : List TreeEntry → Edits → List TreeEntry
merge_sorted_entries [] edits = push_edits edits
merge_sorted_entries (b ∷ base) [] = b ∷ base
merge_sorted_entries (b ∷ base) ((n, edit) ∷ edits) = elim (cmp b.name n) [
  | lt ↦ b ∷ merge_sorted_entries base ((n, edit) ∷ edits)
  | eq ↦ push_edit edit (merge_sorted_entries base edits)
  | gt ↦ push_edit edit (merge_sorted_entries (b ∷ base) edits)
]

abbrev pub AboveEdits : Str → Edits → Type 0
AboveEdits n edits = All (λ (p : Str × Option TreeEntry). n ≺ p.0) edits

-- An entry that an edit sets has the edit's name.
abbrev pub IsNamed : Str × Option TreeEntry → Type 0
IsNamed (n, none) = Unit
IsNamed (n, some e) = e.name ≡ n

abbrev pub IsSortedEdits : Edits → Type 0
IsSortedEdits [] = Unit
IsSortedEdits ((n, edit) ∷ edits) = AboveEdits n edits × IsNamed (n, edit) × IsSortedEdits edits

pub AboveEdits-trans : (n m : Str) (es : Edits) → n ≺ m → AboveEdits m es → AboveEdits n es
AboveEdits-trans n m [] h a = tt
AboveEdits-trans n m ((k, e) ∷ es) h a = (lt_trans n m k h a.0, AboveEdits-trans n m es h a.1)

Above-push_edit :
    (m n : Str) (edit : Option TreeEntry) (out : List TreeEntry)
    → m ≺ n
    → IsNamed (n, edit)
    → Above m out
    → Above m (push_edit edit out)
Above-push_edit m n none out h w a = a
Above-push_edit m n (some e) out h w a = (subst (λ x. m ≺ x) (sym w) h, a)

pub Above-push_edits :
    (m : Str) (edits : Edits)
    → AboveEdits m edits
    → IsSortedEdits edits
    → Above m (push_edits edits)
Above-push_edits m [] a s = tt
Above-push_edits m ((n, edit) ∷ edits) a (_, named, s) =
    Above-push_edit m n edit (push_edits edits) a.0 named (Above-push_edits m edits a.1 s)

pub Above-merge_sorted_entries :
    (m : Str) (base : List TreeEntry) (edits : Edits)
    → Above m base
    → AboveEdits m edits
    → IsSortedEdits edits
    → Above m (merge_sorted_entries base edits)
unfolding merge_sorted_entries
Above-merge_sorted_entries m [] edits a ae s = Above-push_edits m edits ae s
Above-merge_sorted_entries m (b ∷ base) [] a ae s = a
Above-merge_sorted_entries m (b ∷ base) ((n, edit) ∷ edits) a ae s = ground (
  arith,
  Above-merge_sorted_entries m base ((n, edit) ∷ edits) a.1 ae s,
  Above-push_edit m n edit (merge_sorted_entries base edits) ae.0 s.1
      (Above-merge_sorted_entries m base edits a.1 ae.1 s.2),
  Above-push_edit m n edit (merge_sorted_entries (b ∷ base) edits) ae.0 s.1
      (Above-merge_sorted_entries m (b ∷ base) edits a ae.1 s.2),
)

IsSorted-push_edit :
    (n : Str) (edit : Option TreeEntry) (out : List TreeEntry)
    → IsNamed (n, edit)
    → Above n out
    → IsSorted out
    → IsSorted (push_edit edit out)
IsSorted-push_edit n none out w a s = s
IsSorted-push_edit n (some e) out w a s = (subst (λ x. Above x out) (sym w) a, s)

IsSorted-push_edits : (edits : Edits) → IsSortedEdits edits → IsSorted (push_edits edits)
IsSorted-push_edits [] s = tt
IsSorted-push_edits ((n, edit) ∷ edits) (above, named, s) =
    IsSorted-push_edit n edit (push_edits edits) named (Above-push_edits n edits above s)
      (IsSorted-push_edits edits s)

module _ (b : TreeEntry) (base : List TreeEntry) (n : Str) (edit : Option TreeEntry) (edits : Edits)
    (sb : IsSorted (b ∷ base)) (s : IsSortedEdits ((n, edit) ∷ edits)) where
  IsSorted-case :
      (o : Ordering)
      → cmp b.name n ≡ o
      → IsSorted (merge_sorted_entries base ((n, edit) ∷ edits))
      → IsSorted (merge_sorted_entries base edits)
      → IsSorted (merge_sorted_entries (b ∷ base) edits)
      → IsSorted (elim o [
        | lt ↦ b ∷ merge_sorted_entries base ((n, edit) ∷ edits)
        | eq ↦ push_edit edit (merge_sorted_entries base edits)
        | gt ↦ push_edit edit (merge_sorted_entries (b ∷ base) edits)
      ])
  IsSorted-case lt c one two three = (
    Above-merge_sorted_entries b.name base ((n, edit) ∷ edits) sb.0
        (c, AboveEdits-trans b.name n edits c s.0) s,
    one,
  )
  IsSorted-case eq c one two three =
      IsSorted-push_edit n edit (merge_sorted_entries base edits) s.1
        (Above-merge_sorted_entries n base edits
          (subst (λ x. Above x base) (eq_of_cmp b.name n c) sb.0) s.0 s.2)
        two
  IsSorted-case gt c one two three =
      let less : n ≺ b.name = lt_of_gt b.name n c in
      IsSorted-push_edit n edit (merge_sorted_entries (b ∷ base) edits) s.1
        (Above-merge_sorted_entries n (b ∷ base) edits (less, Above-trans n b.name base less sb.0)
          s.0 s.2)
        three

-- Folding sorted edits into a strictly sorted directory leaves it strictly sorted.
pub IsSorted-merge_sorted_entries :
    (base : List TreeEntry) (edits : Edits)
    → IsSorted base
    → IsSortedEdits edits
    → IsSorted (merge_sorted_entries base edits)
unfolding merge_sorted_entries
IsSorted-merge_sorted_entries [] edits sb s = IsSorted-push_edits edits s
IsSorted-merge_sorted_entries (b ∷ base) [] sb s = sb
IsSorted-merge_sorted_entries (b ∷ base) ((n, edit) ∷ edits) sb s =
    IsSorted-case b base n edit edits sb s (cmp b.name n) refl
      (IsSorted-merge_sorted_entries base ((n, edit) ∷ edits) sb.1 s)
      (IsSorted-merge_sorted_entries base edits sb.1 s.2)
      (IsSorted-merge_sorted_entries (b ∷ base) edits sb s.2)
