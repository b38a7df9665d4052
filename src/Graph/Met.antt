-- ===== src/Graph/Met.antt =====
-- When what is scheduled for an object is met.
use forgefs.Base.{
  ℕ, Bool, true, ◌&&◌, ◌||◌, ◌≡◌, refl, sym, ◌∙◌, subst, ◌⊎◌, inl, inr, none, some, List, ◌∷◌,
  arith, Bool-cases, eqb, ◌==◌, nat_eq, list_eq, eq_list_iff,
}
use forgefs.Types.{ObjectId, ObjectType, to_u8, eq_type}
use forgefs.Graph.{
  GraphExpectation, exact, tree_entry, accepts, GraphEdge, VerifiedGraphObject, expectation_key,
  Constraint, constraint, same_constraint, has_constraint, find_type,
}
use forgefs.Graph.Schedule.{same_constraint-eq}

-- What a key of an expectation accepts.
abbrev pub key_accepts : ℕ → ObjectType → Bool
key_accepts key ty =
    eqb key 0
    || ((eqb key 255 && (eq_type ty ObjectType.blob || eq_type ty ObjectType.tree))
        || eqb key (to_u8 ty))

pub key_accepts-expectation_key :
    (expected : GraphExpectation) (ty : ObjectType)
    → key_accepts (expectation_key expected) ty ≡ accepts expected ty
unfolding accepts expectation_key
key_accepts-expectation_key GraphExpectation.any ty = refl
key_accepts-expectation_key (exact expected) ty = ground arith
key_accepts-expectation_key tree_entry ObjectType.blob = refl
key_accepts-expectation_key tree_entry ObjectType.tree = refl
key_accepts-expectation_key tree_entry ObjectType.commit = refl
key_accepts-expectation_key tree_entry ObjectType.conflict = refl
key_accepts-expectation_key tree_entry ObjectType.snapshot = refl
key_accepts-expectation_key tree_entry ObjectType.contribution = refl

-- The object of a constraint is there, with a type that the constraint accepts.
abbrev pub IsMet : List VerifiedGraphObject → Constraint → Type 0
IsMet vs k = (ty : ObjectType) × (find_type vs k.id ≡ some ty) × (key_accepts k.key ty ≡ true)

pub find_later :
    (v : VerifiedGraphObject) (vs : List VerifiedGraphObject) (id : ObjectId) (ty : ObjectType)
    → find_type vs v.id ≡ none
    → find_type vs id ≡ some ty
    → find_type (v ∷ vs) id ≡ some ty
find_later v vs id ty new f = elim (Bool-cases (v.id == id)) [
  | inl b ↦
      let clash : none ≡ some ty =
        sym (subst (λ x. find_type vs x ≡ none) ((eq_list_iff v.id id).0 b) new) ∙ f in
      absurd (unequal clash)
  | inr b ↦ ground arith
]
  where
    unequal : none ≡ some ty → ⊥
    unequal h = cc

pub front_or_later :
    (e : GraphEdge) (ks : List Constraint) (k : Constraint)
    → has_constraint (constraint e ∷ ks) k ≡ true
    → (k ≡ constraint e) ⊎ (has_constraint ks k ≡ true)
front_or_later e ks k h = elim (Bool-cases (same_constraint k (constraint e))) [
  | inl b ↦ inl (same_constraint-eq k (constraint e) b)
  | inr b ↦ inr (ground arith)
]

-- The object of an edge is there, with a type that the edge accepts.
abbrev pub IsResolved : List VerifiedGraphObject → GraphEdge → Type 0
IsResolved vs e = (ty : ObjectType) × (find_type vs e.id ≡ some ty) × (accepts e.expected ty ≡ true)
