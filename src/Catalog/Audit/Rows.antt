-- ===== src/Catalog/Audit/Rows.antt =====
-- What a lookup by name finds after each statement on the rows of `refs`.
use forgefs.Base.{
  true, false, ◌≡◌, refl, sym, subst, none, some, List, [], ◌∷◌, arith, ◌==◌, nat_eq, list_eq,
  eq_list_iff, same_refl, Str,
}
use forgefs.Types.{ObjectId}
use forgefs.Catalog.{RefRow, find_ref, set_oid, drop_row}

abbrev pub IsUnique : List RefRow → Type 0
IsUnique [] = Unit
IsUnique (r ∷ rows) = (find_ref rows r.name ≡ none) × IsUnique rows

pub same_name : (a b : Str) → (a == b) ≡ true → a ≡ b
same_name a b h = (eq_list_iff a b).0 h

-- A name that equals one that differs from a third differs from it too.
pub differs : (a b n : Str) → (a == b) ≡ true → (b == n) ≡ false → (a == n) ≡ false
differs a b n h d = subst (λ x. (x == n) ≡ false) (sym (same_name a b h)) d

pub find_ref-set_oid :
    (rows : List RefRow) (name : Str) (new : ObjectId) (r : RefRow)
    → find_ref rows name ≡ some r
    → find_ref (set_oid rows name new) name ≡ some (record r { oid = new })
find_ref-set_oid [] name new r h = cc
find_ref-set_oid (x ∷ rows) name new r h = ground (arith, find_ref-set_oid rows name new r)

pub find_ref-set_oid_other :
    (rows : List RefRow) (name n : Str) (new : ObjectId)
    → (name == n) ≡ false
    → find_ref (set_oid rows name new) n ≡ find_ref rows n
find_ref-set_oid_other [] name n new d = refl
find_ref-set_oid_other (x ∷ rows) name n new d =
    ground (arith, find_ref-set_oid_other rows name n new d, differs x.name name n)

pub find_ref-drop_row :
    (rows : List RefRow) (name : Str) → find_ref (drop_row rows name) name ≡ none
find_ref-drop_row [] name = refl
find_ref-drop_row (x ∷ rows) name = ground (arith, find_ref-drop_row rows name)

pub find_ref-drop_row_other :
    (rows : List RefRow) (name n : Str)
    → (name == n) ≡ false
    → find_ref (drop_row rows name) n ≡ find_ref rows n
find_ref-drop_row_other [] name n d = refl
find_ref-drop_row_other (x ∷ rows) name n d =
    ground (arith, find_ref-drop_row_other rows name n d, differs x.name name n)

pub find_ref-set_oid-none :
    (rows : List RefRow) (name n : Str) (new : ObjectId)
    → find_ref rows n ≡ none
    → find_ref (set_oid rows name new) n ≡ none
find_ref-set_oid-none [] name n new h = refl
find_ref-set_oid-none (x ∷ rows) name n new h =
    ground (arith, find_ref-set_oid-none rows name n new)

pub find_ref-drop_row-none :
    (rows : List RefRow) (name n : Str)
    → find_ref rows n ≡ none
    → find_ref (drop_row rows name) n ≡ none
find_ref-drop_row-none [] name n h = refl
find_ref-drop_row-none (x ∷ rows) name n h = ground (arith, find_ref-drop_row-none rows name n)

pub set_oid-IsUnique :
    (rows : List RefRow) (name : Str) (new : ObjectId)
    → IsUnique rows
    → IsUnique (set_oid rows name new)
set_oid-IsUnique [] name new u = tt
set_oid-IsUnique (x ∷ rows) name new (f, u) =
    ground (arith, set_oid-IsUnique rows name new u, find_ref-set_oid-none rows name x.name new f)

pub drop_row-IsUnique :
    (rows : List RefRow) (name : Str) → IsUnique rows → IsUnique (drop_row rows name)
drop_row-IsUnique [] name u = tt
drop_row-IsUnique (x ∷ rows) name (f, u) =
    ground (arith, drop_row-IsUnique rows name u, find_ref-drop_row-none rows name x.name f)

pub none-some : {r : RefRow} → none ≡ some r → ⊥
none-some h = cc

pub find_first : (row : RefRow) (rows : List RefRow) → find_ref (row ∷ rows) row.name ≡ some row
find_first row rows = ground (arith, same_refl row.name)

pub find_behind :
    (row : RefRow) (rows : List RefRow) (n : Str)
    → (row.name == n) ≡ false
    → find_ref (row ∷ rows) n ≡ find_ref rows n
find_behind row rows n d = ground arith
