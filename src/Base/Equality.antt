-- ===== src/Base/Equality.antt =====
-- `PartialEq` as an interface, with the types whose values the code compares by `==`.
use Prim.Native.Nat.{ℕ}
use mathlib.Core.Path.{◌≡◌, refl}
use mathlib.Core.Logic.{◌↔◌}
use mathlib.Core.Bool.{Bool, true, false, ◌&&◌}
use mathlib.Core.List.{List, [], ◌∷◌}
use native.Mathlib.Omega.{arith}
use forgefs.Base.Tests.{eqb}

pub eqb_iff : (a b : ℕ) → (eqb a b ≡ true) ↔ (a ≡ b)
eqb_iff a b = ground arith

-- A Boolean test that decides equality.
pub record Eq {ℓ} (T : Type ℓ) : Type ℓ where
  pub same : T → T → Bool
  pub same_iff : (x y : T) → (same x y ≡ true) ↔ (x ≡ y)

instance abbrev pub nat_eq : Eq ℕ
nat_eq = record { same = eqb; same_iff = eqb_iff }

infix 50 ◌==◌
abbrev pub ◌==◌ {ℓ} : {T : Type ℓ} ⦃eq : Eq T⦄ → T → T → Bool
◌==◌ ⦃eq⦄ x y = eq.same x y

module _ {ℓ} {A : Type ℓ} ⦃e : Eq A⦄ where
  pub same_refl : (a : A) → (a == a) ≡ true
  same_refl a = (e.same_iff a a).1 refl

  abbrev pub eq_list : List A → List A → Bool
  eq_list [] [] = true
  eq_list [] (y ∷ ys) = false
  eq_list (x ∷ xs) [] = false
  eq_list (x ∷ xs) (y ∷ ys) = x == y && eq_list xs ys

  pub eq_list_iff : (xs ys : List A) → (eq_list xs ys ≡ true) ↔ (xs ≡ ys)
  eq_list_iff [] [] = ground arith
  eq_list_iff [] (y ∷ ys) = ground arith
  eq_list_iff (x ∷ xs) [] = ground arith
  eq_list_iff (x ∷ xs) (y ∷ ys) = ground (arith, e.same_iff x y, eq_list_iff xs ys)

  instance abbrev pub list_eq : Eq (List A)
  list_eq = record { same = eq_list; same_iff = eq_list_iff }

  -- `contains` of a slice
  abbrev pub contains : List A → A → Bool
  contains [] a = false
  contains (x ∷ xs) a = elim (a == x) [ true ↦ true | false ↦ contains xs a ]
