-- ===== src/Core/Tree/Edits/Overlaid.antt =====
-- What stands at a name after `merge_sorted_entries`.
use Prim.Native.Nat.Ordering.{lt, eq, gt}
use forgefs.Base.{
  subst, ◌≡◌, refl, ap, ◌∙◌, sym, Option, none, some, List, [], ◌∷◌, arith, cmp, ◌≺◌, eq_of_cmp,
  lt_of_gt, cmp_refl, Str, Ordering,
}
use forgefs.Core.Tree.{TreeEntry}
use forgefs.Core.Tree.Sorted.{Above, IsSorted, Above-trans}
use forgefs.Core.Tree.Lookup.{lookup}
use forgefs.Core.Tree.Edits.{
  Edits, push_edit, push_edits, merge_sorted_entries, AboveEdits, IsNamed, IsSortedEdits,
  AboveEdits-trans, Above-push_edits, Above-merge_sorted_entries,
}

abbrev pub find : Edits → Str → Option (Option TreeEntry)
find [] q = none
find ((n, edit) ∷ edits) q = let rest = find edits q in elim (cmp n q) [ eq ↦ some edit | _ ↦ rest ]

-- The edit of a name, and else the entry.
abbrev pub overlaid : Option (Option TreeEntry) → Option TreeEntry → Option TreeEntry
overlaid none entry = entry
overlaid (some edit) entry = edit

lookup-none : (m q : Str) (out : List TreeEntry) → Above m out → cmp m q ≡ eq → lookup out q ≡ none
lookup-none m q [] a c = refl
lookup-none m q (x ∷ out) a c =
    ground (arith, lookup-none m q out a.1, eq_of_cmp m q c, eq_of_cmp x.name q, cmp_refl m)

find-none : (m q : Str) (edits : Edits) → AboveEdits m edits → cmp m q ≡ eq → find edits q ≡ none
find-none m q [] a c = refl
find-none m q ((n, edit) ∷ edits) a c =
    ground (arith, find-none m q edits a.1, eq_of_cmp m q c, eq_of_cmp n q, cmp_refl m)

-- What stands at a name when an edit of a name that compares so is put before the rest.
abbrev place : Ordering → Option TreeEntry → Option TreeEntry → Option TreeEntry
place o none rest = rest
place o (some e) rest = elim o [ eq ↦ some e | _ ↦ rest ]

lookup-push_edit :
    (n q : Str) (edit : Option TreeEntry) (out : List TreeEntry)
    → IsNamed (n, edit)
    → lookup (push_edit edit out) q ≡ place (cmp n q) edit (lookup out q)
lookup-push_edit n q none out w = refl
lookup-push_edit n q (some e) out w = ap (λ m. elim (cmp m q) [ eq ↦ some e | _ ↦ lookup out q ]) w

place-eq : (edit : Option TreeEntry) → place eq edit none ≡ edit
place-eq none = refl
place-eq (some e) = refl

place-lt : (edit rest : Option TreeEntry) → place lt edit rest ≡ rest
place-lt none rest = refl
place-lt (some e) rest = refl

place-gt : (edit rest : Option TreeEntry) → place gt edit rest ≡ rest
place-gt none rest = refl
place-gt (some e) rest = refl

module _ (n q : Str) (edit : Option TreeEntry) (edits : Edits) where
  -- An edit put before a rest that has no entry of its name.
  place-overlaid :
      (o : Ordering) (out : List TreeEntry) (entry : Option TreeEntry)
      → cmp n q ≡ o
      → (o ≡ eq → lookup out q ≡ none)
      → lookup out q ≡ overlaid (find edits q) entry
      → place o edit (lookup out q) ≡ overlaid (elim o [ eq ↦ some edit | _ ↦ find edits q ]) entry
  place-overlaid lt out entry c gone h = place-lt edit (lookup out q) ∙ h
  place-overlaid eq out entry c gone h = ap (place eq edit) (gone refl) ∙ place-eq edit
  place-overlaid gt out entry c gone h = place-gt edit (lookup out q) ∙ h

lookup-push_edits :
    (edits : Edits) (q : Str)
    → IsSortedEdits edits
    → lookup (push_edits edits) q ≡ overlaid (find edits q) none
lookup-push_edits [] q s = refl
lookup-push_edits ((n, edit) ∷ edits) q (above, named, s) =
    lookup-push_edit n q edit (push_edits edits) named
    ∙ place-overlaid n q edit edits (cmp n q) (push_edits edits) none refl
        (lookup-none n q (push_edits edits) (Above-push_edits n edits above s))
        (lookup-push_edits edits q s)

module _ (b : TreeEntry) (base : List TreeEntry) (n q : Str) (edit : Option TreeEntry)
    (edits : Edits) (sb : IsSorted (b ∷ base)) (s : IsSortedEdits ((n, edit) ∷ edits)) where
  abbrev all : Edits
  all = (n, edit) ∷ edits

  one_more :
      (o : Ordering)
      → cmp b.name q ≡ o
      → b.name ≺ n
      → lookup (merge_sorted_entries base all) q ≡ overlaid (find all q) (lookup base q)
      → elim o [ eq ↦ some b | _ ↦ lookup (merge_sorted_entries base all) q ]
        ≡ overlaid (find all q) (elim o [ eq ↦ some b | _ ↦ lookup base q ])
  one_more lt c less h = h
  one_more eq c less h =
      rw (find-none b.name q all (less, AboveEdits-trans b.name n edits less s.0) c) refl
  one_more gt c less h = h

  same_name :
      (o : Ordering)
      → cmp n q ≡ o
      → Above n (merge_sorted_entries base edits)
      → lookup (merge_sorted_entries base edits) q ≡ overlaid (find edits q) (lookup base q)
      → place o edit (lookup (merge_sorted_entries base edits) q)
        ≡ overlaid
            (elim o [ eq ↦ some edit | _ ↦ find edits q ])
            (elim o [ eq ↦ some b | _ ↦ lookup base q ])
  same_name lt c a h = place-lt edit _ ∙ h
  same_name eq c a h =
      ap (place eq edit) (lookup-none n q (merge_sorted_entries base edits) a c) ∙ place-eq edit
  same_name gt c a h = place-gt edit _ ∙ h

  lookup_case :
      (o : Ordering)
      → cmp b.name n ≡ o
      → lookup (merge_sorted_entries base all) q ≡ overlaid (find all q) (lookup base q)
      → lookup (merge_sorted_entries base edits) q ≡ overlaid (find edits q) (lookup base q)
      → lookup (merge_sorted_entries (b ∷ base) edits) q
        ≡ overlaid (find edits q) (lookup (b ∷ base) q)
      → lookup
          (elim o [
            | lt ↦ b ∷ merge_sorted_entries base all
            | eq ↦ push_edit edit (merge_sorted_entries base edits)
            | gt ↦ push_edit edit (merge_sorted_entries (b ∷ base) edits)
          ])
          q
        ≡ overlaid (find all q) (lookup (b ∷ base) q)
  lookup_case lt c one two three = one_more (cmp b.name q) refl c one
  lookup_case eq c one two three =
      let name : b.name ≡ n = eq_of_cmp b.name n c in
      lookup-push_edit n q edit (merge_sorted_entries base edits) s.1
      ∙ (same_name (cmp n q) refl
            (Above-merge_sorted_entries n base edits (subst (λ x. Above x base) name sb.0) s.0 s.2)
            two
          ∙ ap (λ x. overlaid (find all q) (elim (cmp x q) [ eq ↦ some b | _ ↦ lookup base q ]))
              (sym name))
  lookup_case gt c one two three =
      let less : n ≺ b.name = lt_of_gt b.name n c in
      lookup-push_edit n q edit (merge_sorted_entries (b ∷ base) edits) s.1
      ∙ place-overlaid n q edit edits (cmp n q) (merge_sorted_entries (b ∷ base) edits)
          (lookup (b ∷ base) q) refl
          (lookup-none n q (merge_sorted_entries (b ∷ base) edits) (
            Above-merge_sorted_entries n (b ∷ base) edits
              (less, Above-trans n b.name base less sb.0) s.0 s.2))
          three

-- The folded directory has at each name what the edit of that name says, and where no edit names it
-- what the directory had.
pub lookup-merge_sorted_entries :
    (base : List TreeEntry) (edits : Edits) (q : Str)
    → IsSorted base
    → IsSortedEdits edits
    → lookup (merge_sorted_entries base edits) q ≡ overlaid (find edits q) (lookup base q)
unfolding merge_sorted_entries
lookup-merge_sorted_entries [] edits q sb s = lookup-push_edits edits q s
lookup-merge_sorted_entries (b ∷ base) [] q sb s = refl
lookup-merge_sorted_entries (b ∷ base) ((n, edit) ∷ edits) q sb s =
    lookup_case b base n q edit edits sb s (cmp b.name n) refl
      (lookup-merge_sorted_entries base ((n, edit) ∷ edits) q sb.1 s)
      (lookup-merge_sorted_entries base edits q sb.1 s.2)
      (lookup-merge_sorted_entries (b ∷ base) edits q sb s.2)
