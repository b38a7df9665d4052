-- ===== src/Graph/Sorted.antt =====
-- Sorting the objects of a walk keeps what an id finds.
use forgefs.Base.{
  false, ◌&&◌, ◌≡◌, refl, ◌∙◌, subst, inl, inr, none, List, [], ◌∷◌, arith, Bool-cases, All, ◌==◌,
  nat_eq, list_eq, eq_list_iff, cmp,
}
use Prim.Native.Nat.Ordering.{lt, eq, gt}
use forgefs.Types.{ObjectId}
use forgefs.Graph.{VerifiedGraphObject, find_type, sort_objects, insert_object}

abbrev pub IsUniqueIds : List VerifiedGraphObject → Type 0
IsUniqueIds [] = Unit
IsUniqueIds (v ∷ vs) = (find_type vs v.id ≡ none) × IsUniqueIds vs

ids_apart : (a b id : ObjectId) → (b == a) ≡ false → (a == id) && (b == id) ≡ false
ids_apart a b id h = elim (Bool-cases (a == id)) [
  | inr p ↦ ground arith
  | inl p ↦
      let same : (b == id) ≡ false = subst (λ x. (b == x) ≡ false) ((eq_list_iff a id).0 p) h in
      ground arith
]

-- Sorting keeps what an id finds.
find_type-insert_object :
    (v : VerifiedGraphObject) (vs : List VerifiedGraphObject) (id : ObjectId)
    → find_type vs v.id ≡ none
    → find_type (insert_object v vs) id ≡ find_type (v ∷ vs) id
find_type-insert_object v [] id new = refl
find_type-insert_object v (x ∷ vs) id new = elim (Bool-cases (x.id == v.id)) [
  | inl b ↦ ground arith
  | inr b ↦
      let later : find_type (insert_object v vs) id ≡ find_type (v ∷ vs) id =
        find_type-insert_object v vs id (ground arith) in
      let apart : (v.id == id) && (x.id == id) ≡ false = ids_apart v.id x.id id b in ground arith
]

pub find_type-sort_objects :
    (vs : List VerifiedGraphObject) (id : ObjectId)
    → IsUniqueIds vs
    → find_type (sort_objects vs) id ≡ find_type vs id
unfolding sort_objects
find_type-sort_objects [] id u = refl
find_type-sort_objects (v ∷ vs) id (new, u) =
    find_type-insert_object v (sort_objects vs) id (find_type-sort_objects vs v.id u ∙ new)
    ∙ ground (arith, find_type-sort_objects vs id u)

All-insert_object :
    (P : VerifiedGraphObject → Type 0) (v : VerifiedGraphObject) (vs : List VerifiedGraphObject)
    → P v
    → All P vs
    → All P (insert_object v vs)
All-insert_object P v [] h hs = (h, tt)
All-insert_object P v (x ∷ vs) h (p, hs) =
    let rest : All P (insert_object v vs) = All-insert_object P v vs h hs in
    elim (cmp v.id x.id) as (λ c. All P (elim c [ gt ↦ x ∷ insert_object v vs | _ ↦ v ∷ x ∷ vs ])) [
      | gt ↦ (p, rest)
      | lt ↦ (h, (p, hs))
      | eq ↦ (h, (p, hs))
    ]

pub All-sort_objects :
    (P : VerifiedGraphObject → Type 0) (vs : List VerifiedGraphObject)
    → All P vs
    → All P (sort_objects vs)
unfolding sort_objects
All-sort_objects P [] h = tt
All-sort_objects P (v ∷ vs) (h, hs) =
    All-insert_object P v (sort_objects vs) h (All-sort_objects P vs hs)
