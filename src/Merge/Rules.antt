-- ===== src/Merge/Rules.antt =====
-- The three-way rules: which side wins, when the sides conflict, and the symmetry of the two.
use forgefs.Base.{
  ◌≡◌, refl, ap, ◌∙◌, sym, Bool, true, false, ◌||◌, Option, none, some, arith, list_eq, nat_eq,
  eq_list_iff, Str,
}
use forgefs.Types.{kind_eq, eq_kind_iff}
use forgefs.Core.Tree.{TreeEntry}
use forgefs.Merge.{Decision, drop, push, conflict, descend, same_entry, decide, decide_one}

entry_ext :
    (x y : TreeEntry) → x.name ≡ y.name → x.kind ≡ y.kind → x.id ≡ y.id → x.exec ≡ y.exec → x ≡ y
entry_ext x y n k d e = λ i. record { name = n i; kind = k i; id = d i; exec = e i }

-- The entry's name, id, kind and mode are all there is to it.
same_entry-eq : (x y : TreeEntry) → x.name ≡ y.name → same_entry x y ≡ true → x ≡ y
unfolding same_entry
same_entry-eq x y n h =
    ground (arith, n, eq_list_iff x.id y.id, eq_kind_iff x.kind y.kind, entry_ext x y)

same_entry_sym : (x y : TreeEntry) → same_entry x y ≡ same_entry y x
unfolding same_entry
same_entry_sym x y = ground (
  arith,
  eq_list_iff x.id y.id,
  eq_list_iff y.id x.id,
  eq_kind_iff x.kind y.kind,
  eq_kind_iff y.kind x.kind,
)

same_entry_trans :
    (g x y : TreeEntry) → same_entry g x ≡ true → same_entry g y ≡ true → same_entry x y ≡ true
unfolding same_entry
same_entry_trans g x y h k = ground (
  arith,
  eq_list_iff g.id x.id,
  eq_list_iff g.id y.id,
  eq_list_iff x.id y.id,
  eq_kind_iff g.kind x.kind,
  eq_kind_iff g.kind y.kind,
  eq_kind_iff x.kind y.kind,
)

-- Both absent, or the same entry.
abbrev pub same_side : Option TreeEntry → Option TreeEntry → Bool
same_side none none = true
same_side none (some y) = false
same_side (some x) none = false
same_side (some x) (some y) = same_entry x y

-- Takes what a side has.
abbrev pub taken : Option TreeEntry → Decision
taken none = drop
taken (some x) = push x

-- An entry found under the name.
abbrev pub IsUnder : Str → Option TreeEntry → Type 0
IsUnder n none = Unit
IsUnder n (some x) = x.name ≡ n

-- The decision with the two sides exchanged.
abbrev pub mirror : Decision → Decision
mirror drop = drop
mirror (push x) = push x
mirror (conflict a b g) = conflict b a g
mirror (descend x y base) = descend y x base

abbrev pub settled : Decision → Bool
settled drop = true
settled (push x) = true
settled (conflict a b g) = false
settled (descend x y base) = false

mirror-taken : (a : Option TreeEntry) → mirror (taken a) ≡ taken a
mirror-taken none = refl
mirror-taken (some x) = refl

-- For entries under one name: where ours is what the base has, the merge takes theirs, a removal
-- included.
pub decide-theirs :
    (n : Str) (a b g : Option TreeEntry)
    → IsUnder n a
    → IsUnder n b
    → same_side a g ≡ true
    → decide a b g ≡ taken b
unfolding decide decide_one
decide-theirs n none none none na nb h = refl
decide-theirs n none none (some g) na nb h = cc
decide-theirs n none (some y) none na nb h = refl
decide-theirs n none (some y) (some g) na nb h = cc
decide-theirs n (some x) b none na nb h = cc
decide-theirs n (some x) none (some g) na nb h = ground (arith, same_entry_sym x g)
decide-theirs n (some x) (some y) (some g) na nb h =
    ground (arith, same_entry_sym x g, same_entry-eq x y (na ∙ sym nb))

-- For entries under one name, the two sides are treated alike: exchanging them exchanges them in
-- the decision.
pub decide-mirror :
    (n : Str) (a b g : Option TreeEntry)
    → IsUnder n a
    → IsUnder n b
    → decide b a g ≡ mirror (decide a b g)
unfolding decide decide_one
decide-mirror n none none g na nb = refl
decide-mirror n none (some y) none na nb = refl
decide-mirror n none (some y) (some g) na nb = ground arith
decide-mirror n (some x) none none na nb = refl
decide-mirror n (some x) none (some g) na nb = ground arith
decide-mirror n (some x) (some y) none na nb =
    ground (arith, same_entry_sym x y, same_entry-eq x y (na ∙ sym nb))
decide-mirror n (some x) (some y) (some g) na nb =
    ground (arith, same_entry_sym x y, same_entry-eq x y (na ∙ sym nb), same_entry_trans g x y)

-- For entries under one name: where theirs is what the base has, the merge takes ours, a removal
-- included.
pub decide-ours :
    (n : Str) (a b g : Option TreeEntry)
    → IsUnder n a
    → IsUnder n b
    → same_side b g ≡ true
    → decide a b g ≡ taken a
decide-ours n a b g na nb h =
    decide-mirror n b a g nb na ∙ ap mirror (decide-theirs n b a g nb na h) ∙ mirror-taken a

-- The decision is a conflict, or a merge of subtrees, exactly when the two sides differ and each of
-- them differs from the base.
pub settled-decide :
    (a b g : Option TreeEntry)
    → settled (decide a b g) ≡ (same_side a b || (same_side a g || same_side b g))
unfolding decide decide_one
settled-decide none none g = refl
settled-decide none (some y) none = refl
settled-decide none (some y) (some g) = ground (arith, same_entry_sym y g)
settled-decide (some x) none none = refl
settled-decide (some x) none (some g) = ground (arith, same_entry_sym x g)
settled-decide (some x) (some y) none = ground arith
settled-decide (some x) (some y) (some g) = ground (arith, same_entry_sym x g, same_entry_sym y g)
