-- ===== src/Graph/Closed.antt =====
-- The objects of a walk that ends well are closed under their edges, each of the type it is asked for.
use forgefs.Base.{
  ℕ, zero, suc, true, false, ◌≡◌, refl, sym, ap, ◌∙◌, subst, ◌⊎◌, inl, inr, none, some, List, [],
  ◌∷◌, map, arith, Option-cases, All, nat_eq, list_eq, same_refl, Bytes,
}
use forgefs.Types.{ObjectId, Result, ok, Result-cases, ObjectType}
use forgefs.Graph.{
  accepts, verify, GraphEdge, VerifiedGraphObject, Constraint, constraint, has_constraint,
  GraphWorkQueue, pop_front, DecodedGraphObject, decode_graph_object, schedule_all, find_type,
  visit, walk,
}
use forgefs.Graph.Schedule.{queued, schedule_all-Grows}
use forgefs.Graph.Sorted.{IsUniqueIds}
use forgefs.Graph.Met.{key_accepts-expectation_key, IsMet, IsResolved, find_later, front_or_later}

module _ (get_raw_verified : ObjectId → Result Bytes) where
  -- The bytes of an object decode to its type, and all of its edges satisfy a predicate.
  abbrev pub IsDecoded : (GraphEdge → Type 0) → VerifiedGraphObject → Type 0
  IsDecoded P v =
      (bs : Bytes) × (edges : List GraphEdge) × (get_raw_verified v.id ≡ ok bs)
      × (decode_graph_object v.id bs ≡ ok (record { object_type = v.object_type; edges = edges }))
      × All P edges

  abbrev IsScheduled : List Constraint → GraphEdge → Type 0
  IsScheduled ks e = has_constraint ks (constraint e) ≡ true

  -- A constraint is in the queue, or met.
  abbrev IsServed : GraphWorkQueue → List VerifiedGraphObject → Constraint → Type 0
  IsServed q vs k = (has_constraint (queued q) k ≡ true) ⊎ IsMet vs k

  abbrev IsWalk : GraphWorkQueue → List VerifiedGraphObject → Type 0
  IsWalk q vs =
      ((k : Constraint) → has_constraint q.scheduled k ≡ true → IsServed q vs k)
      × All (IsDecoded (IsScheduled q.scheduled)) vs
      × IsUniqueIds vs

  All-weaken :
      {A : Type 0} (P Q : A → Type 0) (xs : List A) → ((x : A) → P x → Q x) → All P xs → All Q xs
  All-weaken P Q [] f h = tt
  All-weaken P Q (x ∷ xs) f (h, hs) = (f x h, All-weaken P Q xs f hs)

  pub IsDecoded-mono :
      (P Q : GraphEdge → Type 0) (vs : List VerifiedGraphObject)
      → ((e : GraphEdge) → P e → Q e)
      → All (IsDecoded P) vs
      → All (IsDecoded Q) vs
  IsDecoded-mono P Q vs f h =
      All-weaken (IsDecoded P) (IsDecoded Q) vs
        (λ v (bs, edges, r, d, es). (bs, edges, r, d, All-weaken P Q edges f es)) h

  -- An object that was not there leaves what was met as it was.
  IsMet-more :
      (v : VerifiedGraphObject) (vs : List VerifiedGraphObject) (k : Constraint)
      → find_type vs v.id ≡ none
      → IsMet vs k
      → IsMet (v ∷ vs) k
  IsMet-more v vs k new (ty, f, a) = (ty, find_later v vs k.id ty new f, a)

  module _ (q : GraphWorkQueue) (e : GraphEdge) (rest : List GraphEdge)
      (vs : List VerifiedGraphObject) where
    abbrev before : GraphWorkQueue
    before = record q { queue = e ∷ rest }

    abbrev after : GraphWorkQueue
    after = record q { queue = rest }

    -- What was in the queue or met is so still, once the edge in front is met.
    serve_front :
        (ws : List VerifiedGraphObject) (ty : ObjectType)
        → find_type ws e.id ≡ some ty
        → accepts e.expected ty ≡ true
        → ((k : Constraint) → IsMet vs k → IsMet ws k)
        → (k : Constraint) → IsServed before vs k
        → IsServed after ws k
    serve_front ws ty f a keep k (inr met) = inr (keep k met)
    serve_front ws ty f a keep k (inl h) = elim (front_or_later e (map constraint rest) k h) [
      | inl same ↦
          inr (subst (IsMet ws) (sym same) (ty, f, key_accepts-expectation_key e.expected ty ∙ a))
      | inr later ↦ inl later
    ]

    -- The edge leads to an object that is verified.
    visit_again :
        (q' : GraphWorkQueue) (vs' : List VerifiedGraphObject) (ty : ObjectType)
        → find_type vs e.id ≡ some ty
        → visit get_raw_verified after e vs ≡ ok (q', vs')
        → (accepts e.expected ty ≡ true) × (after ≡ q') × (vs ≡ vs')
    unfolding visit verify
    visit_again q' vs' ty f h = ground arith

    -- The edge leads to a new object.
    visit_new :
        (q' : GraphWorkQueue) (vs' : List VerifiedGraphObject)
        → find_type vs e.id ≡ none
        → visit get_raw_verified after e vs ≡ ok (q', vs')
        → (bs : Bytes) × (d : DecodedGraphObject) × (get_raw_verified e.id ≡ ok bs)
          × (decode_graph_object e.id bs ≡ ok d)
          × (accepts e.expected d.object_type ≡ true)
          × (schedule_all after d.edges ≡ ok q')
          × (record { id = e.id; object_type = d.object_type } ∷ vs ≡ vs')
    unfolding visit verify
    visit_new q' vs' f h = elim (Result-cases (get_raw_verified e.id)) [
      | inr (x, r) ↦ ground arith
      | inl (bs, r) ↦ elim (Result-cases (decode_graph_object e.id bs)) [
        | inr (x, w) ↦ ground arith
        | inl (d, w) ↦ elim (Result-cases (schedule_all after d.edges)) [
          | inr (x, g) ↦ ground arith
          | inl (q1, g) ↦
              let (a, same, grown) : (accepts e.expected d.object_type ≡ true)
                  × (q1 ≡ q')
                  × (record { id = e.id; object_type = d.object_type } ∷ vs ≡ vs') =
                ground arith in
              (bs, d, r, w, a, g ∙ ap ok same, grown)
        ]
      ]
    ]

    visit-IsWalk :
        (q' : GraphWorkQueue) (vs' : List VerifiedGraphObject)
        → IsWalk before vs
        → visit get_raw_verified after e vs ≡ ok (q', vs')
        → IsWalk q' vs'
          × ((k : Constraint)
              → has_constraint q.scheduled k ≡ true
              → has_constraint q'.scheduled k ≡ true)
    visit-IsWalk q' vs' (served, closed, unique) h = elim (Option-cases (find_type vs e.id)) [
      | inr (ty, f) ↦
          let (a, same, kept) = visit_again q' vs' ty f h in
          subst
            (λ x.
              IsWalk x vs'
              × ((k : Constraint)
                  → has_constraint q.scheduled k ≡ true
                  → has_constraint x.scheduled k ≡ true))
            same
            (
              subst (IsWalk after) kept
                  ((λ k p. serve_front vs ty f a (λ j m. m) k (served k p)), closed, unique),
              λ k p. p,
            )
      | inl f ↦
          let (bs, d, r, w, a, g, grown) = visit_new q' vs' f h in
          let new : VerifiedGraphObject = record { id = e.id; object_type = d.object_type } in
          let (grows, edges) = schedule_all-Grows after q' d.edges g in
          let own : find_type (new ∷ vs) e.id ≡ some d.object_type =
            ground (arith, same_refl e.id) in
          (
            subst (IsWalk q') grown (
              (λ k p. elim (grows.1 k p) [
                | inr line ↦ inl line
                | inl old ↦
                    elim (serve_front (new ∷ vs) d.object_type own a
                      (λ j m. IsMet-more new vs j f m) k (served k old)) [
                        | inl line ↦ inl (grows.2 k line)
                        | inr met ↦ inr met
                      ]
              ]),
              (
                (bs, d.edges, r, w, edges),
                IsDecoded-mono (IsScheduled q.scheduled) (IsScheduled q'.scheduled) vs
                    (λ x p. grows.0 (constraint x) p) closed,
              ),
              (f, unique),
            ),
            grows.0,
          )
    ]

  false-true : false ≡ true → ⊥
  false-true h = cc

  pub met-IsResolved :
      (vs : List VerifiedGraphObject) (e : GraphEdge) → IsMet vs (constraint e) → IsResolved vs e
  met-IsResolved vs e (ty, f, a) = (ty, f, sym (key_accepts-expectation_key e.expected ty) ∙ a)

  -- All that a walk that ends well has scheduled is met.
  abbrev pub IsDone : List Constraint → List VerifiedGraphObject → Type 0
  IsDone ks ws =
      All (IsDecoded (IsResolved ws)) ws
      × IsUniqueIds ws
      × ((k : Constraint) → has_constraint ks k ≡ true → IsMet ws k)

  done :
      (q : GraphWorkQueue) (vs : List VerifiedGraphObject)
      → q.queue ≡ []
      → IsWalk q vs
      → IsDone q.scheduled vs
  done q vs drained (served, closed, unique) = (
    IsDecoded-mono (IsScheduled q.scheduled) (IsResolved vs) vs
        (λ e p. met-IsResolved vs e (met (constraint e) p)) closed,
    unique,
    met,
  )
    where
      met : (k : Constraint) → has_constraint q.scheduled k ≡ true → IsMet vs k
      met k p = elim (served k p) [
        | inl line ↦
            absurd
              (false-true (subst (λ l. has_constraint (map constraint l) k ≡ true) drained line))
        | inr m ↦ m
      ]

  walk_round :
      (fuel : ℕ) (q : GraphWorkQueue) (vs ws : List VerifiedGraphObject)
      → IsWalk q vs
      → walk get_raw_verified (suc fuel) q vs ≡ some (ok ws)
      → ((q' : GraphWorkQueue) (vs' : List VerifiedGraphObject)
          → IsWalk q' vs'
          → walk get_raw_verified fuel q' vs' ≡ some (ok ws)
          → IsDone q'.scheduled ws)
      → (l : List GraphEdge) → q.queue ≡ l
      → IsDone q.scheduled ws
  unfolding walk pop_front
  walk_round fuel q vs ws inv h next [] p =
      let same : vs ≡ ws = ground arith in subst (IsDone q.scheduled) same (done q vs p inv)
  walk_round fuel q vs ws inv h next (e ∷ rest) p =
      elim (Result-cases (visit get_raw_verified (record q { queue = rest }) e vs)) [
        | inr (x, v) ↦ ground arith
        | inl ((q', vs'), v) ↦
            let inv0 : IsWalk (record q { queue = e ∷ rest }) vs =
              subst (λ l. IsWalk (record q { queue = l }) vs) p inv in
            let (inv', grows) = visit-IsWalk q e rest vs q' vs' inv0 v in
            let (closed, unique, met) = next q' vs' inv' (ground arith) in
            (closed, unique, λ k s. met k (grows k s))
      ]

  pub walk-IsDone :
      (fuel : ℕ) (q : GraphWorkQueue) (vs ws : List VerifiedGraphObject)
      → IsWalk q vs
      → walk get_raw_verified fuel q vs ≡ some (ok ws)
      → IsDone q.scheduled ws
  unfolding walk pop_front
  walk-IsDone zero q vs ws inv h = cc
  walk-IsDone (suc fuel) q vs ws inv h =
      walk_round fuel q vs ws inv h (λ q' vs'. walk-IsDone fuel q' vs' ws) q.queue refl
