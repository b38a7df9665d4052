-- ===== src/Core/Tree/Sorted.antt =====
-- Strictly sorted entries with valid names: what both constructors of a tree promise.
use Prim.Native.Nat.Ordering.{gt}
use forgefs.Base.{
  ◌≡◌, refl, sym, subst, ◌↔◌, List, [], ◌∷◌, arith, All, cmp, ◌≺◌, eq_of_cmp, lt_of_gt, lt_trans,
  list_eq, nat_eq, eq_list_iff, Str, ◌≢◌,
}
use forgefs.Types.{ok}
use forgefs.Core.Tree.{
  TreeEntry, Tree, validate_name, validate_names, insert_entry, sort_entries, no_duplicates,
  strictly_sorted, new, from_canonical,
}
use mathlib.Core.List.{Perm}
use mathlib.Core.List.Perm

abbrev pub Above : Str → List TreeEntry → Type 0
Above n es = All (λ (e : TreeEntry). n ≺ e.name) es

abbrev pub IsSorted : List TreeEntry → Type 0
IsSorted [] = Unit
IsSorted (e ∷ es) = Above e.name es × IsSorted es

abbrev pub IsValidName : Str → Type 0
IsValidName n = validate_name n ≡ ok tt

pub record IsCanonical (es : List TreeEntry) : Type 0 where
  pub names : All (λ (e : TreeEntry). IsValidName e.name) es
  pub sorted : IsSorted es

pub Above-trans : (n m : Str) (es : List TreeEntry) → n ≺ m → Above m es → Above n es
Above-trans n m [] h a = tt
Above-trans n m (e ∷ es) h a = (lt_trans n m e.name h a.0, Above-trans n m es h a.1)

validate_names_iff :
    (es : List TreeEntry)
    → (validate_names es ≡ ok tt) ↔ All (λ (e : TreeEntry). IsValidName e.name) es
unfolding validate_names
validate_names_iff [] = (λ h. tt, λ h. refl)
validate_names_iff (e ∷ es) = ground (arith, validate_names_iff es)

strictly_sorted_iff : (es : List TreeEntry) → (strictly_sorted es ≡ ok tt) ↔ IsSorted es
unfolding strictly_sorted
strictly_sorted_iff [] = (λ h. tt, λ h. refl)
strictly_sorted_iff (e ∷ []) = (λ h. (tt, tt), λ h. refl)
strictly_sorted_iff (e ∷ f ∷ es) =
    ground (arith, strictly_sorted_iff (f ∷ es), Above-trans e.name f.name es)

-- `Tree::from_canonical` accepts exactly the strictly sorted entries with valid names.
pub from_canonical_iff :
    (es : List TreeEntry) → (from_canonical es ≡ ok (record { entries = es })) ↔ IsCanonical es
unfolding from_canonical
from_canonical_iff es = ground (arith, validate_names_iff es, strictly_sorted_iff es)

pub from_canonical_lem :
    (es : List TreeEntry) (t : Tree) → from_canonical es ≡ ok t → (t.entries ≡ es) × IsCanonical es
unfolding from_canonical
from_canonical_lem es t h = ground (arith, validate_names_iff es, strictly_sorted_iff es)

-- No entry before a smaller name, as the sort leaves them.
abbrev Rising : List TreeEntry → Type 0
Rising [] = Unit
Rising (e ∷ []) = Unit
Rising (e ∷ f ∷ es) = (cmp e.name f.name ≢ gt) × Rising (f ∷ es)

Rising-insert_entry : (e : TreeEntry) (xs : List TreeEntry) → Rising xs → Rising (insert_entry e xs)
Rising-insert_entry e [] h = tt
Rising-insert_entry e (x ∷ []) h = ground (arith, lt_of_gt e.name x.name)
Rising-insert_entry e (x ∷ y ∷ xs) h =
    ground (arith, lt_of_gt e.name x.name, lt_of_gt e.name y.name, Rising-insert_entry e (y ∷ xs))

Rising-sort_entries : (es : List TreeEntry) → Rising (sort_entries es)
unfolding sort_entries
Rising-sort_entries [] = tt
Rising-sort_entries (e ∷ es) = Rising-insert_entry e (sort_entries es) (Rising-sort_entries es)

insert_entry-perm : (e : TreeEntry) (xs : List TreeEntry) → Perm (insert_entry e xs) (e ∷ xs)
insert_entry-perm e [] = Perm.refl (e ∷ [])
insert_entry-perm e (x ∷ xs) =
    elim (cmp e.name x.name)
      as (λ o. Perm (elim o [ gt ↦ x ∷ insert_entry e xs | _ ↦ e ∷ x ∷ xs ]) (e ∷ x ∷ xs)) [
        | gt ↦ Perm.trans (Perm.cons x (insert_entry-perm e xs)) (Perm.swap e x xs)
        | _ ↦ Perm.refl (e ∷ x ∷ xs)
      ]

sort_entries-perm : (es : List TreeEntry) → Perm (sort_entries es) es
unfolding sort_entries
sort_entries-perm [] = Perm.refl []
sort_entries-perm (e ∷ es) =
    Perm.trans (insert_entry-perm e (sort_entries es)) (Perm.cons e (sort_entries-perm es))

Rising-distinct :
    (es : List TreeEntry) → Rising es → no_duplicates es ≡ ok tt → strictly_sorted es ≡ ok tt
unfolding no_duplicates strictly_sorted
Rising-distinct [] h d = refl
Rising-distinct (e ∷ []) h d = refl
Rising-distinct (e ∷ f ∷ es) h d =
    ground (arith, Rising-distinct (f ∷ es), eq_of_cmp e.name f.name, eq_list_iff e.name f.name)

All-insert_entry :
    (P : TreeEntry → Type 0) (e : TreeEntry) (xs : List TreeEntry)
    → P e
    → All P xs
    → All P (insert_entry e xs)
All-insert_entry P e [] h a = (h, tt)
All-insert_entry P e (x ∷ xs) h a = ground (arith, All-insert_entry P e xs h)

All-sort_entries :
    (P : TreeEntry → Type 0) (es : List TreeEntry) → All P es → All P (sort_entries es)
unfolding sort_entries
All-sort_entries P [] a = tt
All-sort_entries P (e ∷ es) a =
    All-insert_entry P e (sort_entries es) a.0 (All-sort_entries P es a.1)

new-cases :
    (es : List TreeEntry) (t : Tree)
    → new es ≡ ok t
    → (t.entries ≡ sort_entries es)
      × (validate_names es ≡ ok tt)
      × (no_duplicates (sort_entries es) ≡ ok tt)
unfolding new
new-cases es t h = ground arith

-- `Tree::new` returns the given entries, strictly sorted and with valid names; so `from_canonical`
-- accepts what `new` made.
pub new-IsCanonical :
    (es : List TreeEntry) (t : Tree)
    → new es ≡ ok t
    → IsCanonical t.entries × Perm t.entries es × (from_canonical t.entries ≡ ok t)
new-IsCanonical es t h =
    let (e, valid, distinct) = new-cases es t h in
    let canonical : IsCanonical t.entries = subst IsCanonical (sym e) (record {
      names = All-sort_entries (λ x. IsValidName x.name) es ((validate_names_iff es).0 valid);
      sorted =
          (strictly_sorted_iff (sort_entries es)).0
            (Rising-distinct (sort_entries es) (Rising-sort_entries es) distinct);
    }) in
    (
      canonical,
      subst (λ l. Perm l es) (sym e) (sort_entries-perm es),
      (from_canonical_iff t.entries).1 canonical,
    )
