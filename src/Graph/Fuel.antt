-- ===== src/Graph/Fuel.antt =====
-- How many rounds a walk takes: each round takes an edge from the queue, and an object enters the queue
-- once for each key of an expectation.
use forgefs.Base.{
  ℕ, zero, suc, ◌+◌, ◌-◌, ◌*◌, ◌≤◌, ◌<◌, Bool, true, false, ◌≡◌, refl, ap, subst, inl, inr, some,
  List, [], ◌∷◌, ◌++◌, arith, Bool-cases, Option-cases, eqb, eqb_iff, length, length-append,
  contains, ◌==◌, nat_eq, list_eq, eq_list_iff, same_refl, bytes, Bytes,
}
use forgefs.Types.{ObjectId, Result, ok, err, Result-cases, ok-injective, ObjectType}
use forgefs.Types.Hex.{hex_encode}
use forgefs.Graph.{
  GraphExpectation, exact, tree_entry, GraphEdge, VerifiedGraphObject, expectation_key, Constraint,
  constraint, has_constraint, GraphWorkQueue, with_limit, schedule, schedule_all, pop_front,
  decode_graph_object, verify, find_type, visit, walk, reachable_graph_verified, sort_objects,
  edge_to,
}

abbrev all_keys : List ℕ
all_keys = 0 ∷ 1 ∷ 2 ∷ 3 ∷ 4 ∷ 5 ∷ 6 ∷ 255 ∷ []

expectation_key-all_keys : (e : GraphExpectation) → contains all_keys (expectation_key e) ≡ true
unfolding expectation_key
expectation_key-all_keys GraphExpectation.any = refl
expectation_key-all_keys (exact ObjectType.blob) = refl
expectation_key-all_keys (exact ObjectType.tree) = refl
expectation_key-all_keys (exact ObjectType.commit) = refl
expectation_key-all_keys (exact ObjectType.conflict) = refl
expectation_key-all_keys (exact ObjectType.snapshot) = refl
expectation_key-all_keys (exact ObjectType.contribution) = refl
expectation_key-all_keys tree_entry = refl

abbrev with_key : ObjectId → ℕ → Constraint
with_key id key = record { id = id; key = key }

-- How many keys an object is not scheduled for.
abbrev free_keys : ObjectId → List ℕ → List Constraint → ℕ
free_keys id [] ks = 0
free_keys id (key ∷ keys) ks =
    let rest = free_keys id keys ks in
    elim (has_constraint ks (with_key id key)) [ true ↦ rest | false ↦ suc rest ]

abbrev free : List ObjectId → List Constraint → ℕ
free [] ks = 0
free (id ∷ ids) ks = free_keys id all_keys ks + free ids ks

free_keys-more :
    (id : ObjectId) (keys : List ℕ) (ks : List Constraint) (k : Constraint)
    → free_keys id keys (k ∷ ks) ≤ free_keys id keys ks
free_keys-more id [] ks k = ground arith
free_keys-more id (key ∷ keys) ks k = ground (arith, free_keys-more id keys ks k)

free_keys-length :
    (id : ObjectId) (keys : List ℕ) (ks : List Constraint) → free_keys id keys ks ≤ length keys
free_keys-length id [] ks = ground arith
free_keys-length id (key ∷ keys) ks = ground (arith, free_keys-length id keys ks)

free_keys-take :
    (id : ObjectId) (keys : List ℕ) (ks : List Constraint) (key : ℕ)
    → contains keys key ≡ true
    → has_constraint ks (with_key id key) ≡ false
    → suc (free_keys id keys (with_key id key ∷ ks)) ≤ free_keys id keys ks
free_keys-take id [] ks key c h = ground arith
free_keys-take id (x ∷ keys) ks key c h = elim (Bool-cases (eqb key x)) [
  | inl b ↦
      let same : key ≡ x = (eqb_iff key x).0 b in
      let taken : has_constraint (with_key id key ∷ ks) (with_key id x) ≡ true =
        subst (λ y. has_constraint (with_key id key ∷ ks) (with_key id y) ≡ true) same
          (ground (arith, same_refl id, same_refl key)) in
      let open_before : has_constraint ks (with_key id x) ≡ false =
        subst (λ y. has_constraint ks (with_key id y) ≡ false) same h in
      ground (arith, free_keys-more id keys ks (with_key id key))
  | inr b ↦
      let c' : contains keys key ≡ true = ground arith in
      let rest : suc (free_keys id keys (with_key id key ∷ ks)) ≤ free_keys id keys ks =
        free_keys-take id keys ks key c' h in
      ground arith
]

free-more :
    (ids : List ObjectId) (ks : List Constraint) (k : Constraint) → free ids (k ∷ ks) ≤ free ids ks
free-more [] ks k = ground arith
free-more (id ∷ ids) ks k =
    let a : free_keys id all_keys (k ∷ ks) ≤ free_keys id all_keys ks =
      free_keys-more id all_keys ks k in
    let b : free ids (k ∷ ks) ≤ free ids ks = free-more ids ks k in omega arith

free-take :
    (ids : List ObjectId) (ks : List Constraint) (id : ObjectId) (key : ℕ)
    → contains ids id ≡ true
    → contains all_keys key ≡ true
    → has_constraint ks (with_key id key) ≡ false
    → suc (free ids (with_key id key ∷ ks)) ≤ free ids ks
free-take [] ks id key c t h = ground arith
free-take (x ∷ ids) ks id key c t h = elim (Bool-cases (id == x)) [
  | inl b ↦
      let rest : free ids (with_key id key ∷ ks) ≤ free ids ks =
        free-more ids ks (with_key id key) in
      let own : suc (free_keys x all_keys (with_key id key ∷ ks)) ≤ free_keys x all_keys ks =
        subst (λ y. suc (free_keys y all_keys (with_key id key ∷ ks)) ≤ free_keys y all_keys ks)
          ((eq_list_iff id x).0 b) (free_keys-take id all_keys ks key t h) in
      omega arith
  | inr b ↦
      let c' : contains ids id ≡ true = ground arith in
      let rest : suc (free ids (with_key id key ∷ ks)) ≤ free ids ks =
        free-take ids ks id key c' t h in
      let own : free_keys x all_keys (with_key id key ∷ ks) ≤ free_keys x all_keys ks =
        free_keys-more x all_keys ks (with_key id key) in
      omega arith
]

-- What the queue can still take, and what is in it.
abbrev potential : GraphWorkQueue → ℕ
potential q =
    8 * (q.limit - length q.scheduled_ids) + free q.scheduled_ids q.scheduled + length q.queue

schedule-potential :
    (q q' : GraphWorkQueue) (e : GraphEdge) (fresh : Bool)
    → schedule q e ≡ ok (fresh, q')
    → potential q' ≤ potential q
unfolding schedule
schedule-potential q q' e fresh h = elim (Bool-cases (has_constraint q.scheduled (constraint e))) [
  | inl b ↦
      let same : q ≡ q' = ground arith in subst (λ x. potential x ≤ potential q) same (ground arith)
  | inr b ↦ elim (Bool-cases (contains q.scheduled_ids e.id)) [
    | inl c ↦
        let same : record q { queue = q.queue ++ e ∷ []; scheduled = constraint e ∷ q.scheduled }
            ≡ q' =
          ground arith in
        let less : suc (free q.scheduled_ids (constraint e ∷ q.scheduled))
            ≤ free q.scheduled_ids q.scheduled =
          free-take q.scheduled_ids q.scheduled e.id (expectation_key e.expected) c
            (expectation_key-all_keys e.expected) b in
        let line : length (q.queue ++ e ∷ []) ≡ length q.queue + 1 =
          length-append q.queue (e ∷ []) in
        subst (λ x. potential x ≤ potential q) same (omega arith)
    | inr c ↦
        let room : length q.scheduled_ids < q.limit = ground arith in
        let same : record q {
          queue = q.queue ++ e ∷ [];
          scheduled = constraint e ∷ q.scheduled;
          scheduled_ids = e.id ∷ q.scheduled_ids;
        }
            ≡ q' =
          ground arith in
        let own : suc (free_keys e.id all_keys (constraint e ∷ q.scheduled)) ≤ 8 =
          let least : suc (free_keys e.id all_keys (constraint e ∷ q.scheduled))
              ≤ free_keys e.id all_keys q.scheduled =
            free_keys-take e.id all_keys q.scheduled (expectation_key e.expected)
              (expectation_key-all_keys e.expected) b in
          let most : free_keys e.id all_keys q.scheduled ≤ 8 =
            free_keys-length e.id all_keys q.scheduled in
          omega arith in
        let less : free q.scheduled_ids (constraint e ∷ q.scheduled)
            ≤ free q.scheduled_ids q.scheduled =
          free-more q.scheduled_ids q.scheduled (constraint e) in
        let line : length (q.queue ++ e ∷ []) ≡ length q.queue + 1 =
          length-append q.queue (e ∷ []) in
        subst (λ x. potential x ≤ potential q) same (omega arith)
  ]
]

schedule_all-potential :
    (q q' : GraphWorkQueue) (es : List GraphEdge)
    → schedule_all q es ≡ ok q'
    → potential q' ≤ potential q
unfolding schedule_all
schedule_all-potential q q' [] h =
    subst (λ x. potential x ≤ potential q) (ok-injective h) (omega arith)
schedule_all-potential q q' (e ∷ es) h = elim (Result-cases (schedule q e)) [
  | inr (x, p) ↦ ground arith
  | inl ((fresh, q1), p) ↦
      let first : potential q1 ≤ potential q = schedule-potential q q1 e fresh p in
      let rest : potential q' ≤ potential q1 = schedule_all-potential q1 q' es (ground arith) in
      omega arith
]

module _ (get_raw_verified : ObjectId → Result Bytes) where
  visit-potential :
      (q q' : GraphWorkQueue) (e : GraphEdge) (vs vs' : List VerifiedGraphObject)
      → visit get_raw_verified q e vs ≡ ok (q', vs')
      → potential q' ≤ potential q
  unfolding visit verify
  visit-potential q q' e vs vs' h = elim (Option-cases (find_type vs e.id)) [
    | inr (ty, f) ↦
        let same : q ≡ q' = ground arith in
        subst (λ x. potential x ≤ potential q) same (omega arith)
    | inl f ↦ elim (Result-cases (get_raw_verified e.id)) [
      | inr (x, r) ↦ ground arith
      | inl (bs, r) ↦ elim (Result-cases (decode_graph_object e.id bs)) [
        | inr (x, w) ↦ ground arith
        | inl (d, w) ↦ elim (Result-cases (schedule_all q d.edges)) [
          | inr (x, g) ↦ ground arith
          | inl (q1, g) ↦
              let same : q1 ≡ q' = ground arith in
              subst (λ x. potential x ≤ potential q) same (schedule_all-potential q q1 d.edges g)
        ]
      ]
    ]
  ]

  -- A walk with more rounds than its potential ends.
  walk_round_ends :
      (fuel : ℕ) (q : GraphWorkQueue) (vs : List VerifiedGraphObject)
      → potential q < suc fuel
      → ((q' : GraphWorkQueue) (vs' : List VerifiedGraphObject)
          → potential q' < fuel
          → (r : Result (List VerifiedGraphObject)) × (walk get_raw_verified fuel q' vs' ≡ some r))
      → (l : List GraphEdge) → q.queue ≡ l
      → (r : Result (List VerifiedGraphObject)) × (walk get_raw_verified (suc fuel) q vs ≡ some r)
  unfolding walk pop_front
  walk_round_ends fuel q vs less next [] p = (ok vs, ground arith)
  walk_round_ends fuel q vs less next (e ∷ rest) p =
      elim (Result-cases (visit get_raw_verified (record q { queue = rest }) e vs)) [
        | inr (x, v) ↦ (err x, ground arith)
        | inl ((q', vs'), v) ↦
            let after : potential q' ≤ potential (record q { queue = rest }) =
              visit-potential (record q { queue = rest }) q' e vs vs' v in
            let shorter : length q.queue ≡ suc (length rest) = ap length p in
            let (r, w) = next q' vs' (omega arith) in (r, ground arith)
      ]

  walk_ends :
      (fuel : ℕ) (q : GraphWorkQueue) (vs : List VerifiedGraphObject)
      → potential q < fuel
      → (r : Result (List VerifiedGraphObject)) × (walk get_raw_verified fuel q vs ≡ some r)
  walk_ends zero q vs less = ground arith
  walk_ends (suc fuel) q vs less =
      walk_round_ends fuel q vs less (λ q' vs' l. walk_ends fuel q' vs' l) q.queue refl

-- With more rounds than 8 for each object of the limit, the walk ends, with the graph or an error,
-- whatever the objects are.
pub reachable_graph_verified_ends :
    (get_raw_verified : ObjectId → Result Bytes) (fuel limit : ℕ) (root : ObjectId)
    (expected : ObjectType)
    → 8 * limit < fuel
    → (r : Result (List VerifiedGraphObject)) × (reachable_graph_verified get_raw_verified fuel
          limit root expected
        ≡ some r)
unfolding reachable_graph_verified with_limit
reachable_graph_verified_ends get_raw_verified fuel limit root expected enough =
    elim (Result-cases (schedule (with_limit limit) start)) [
      | inr (x, p) ↦ (err x, ground arith)
      | inl ((fresh, q), p) ↦
          let least : potential q ≤ potential (with_limit limit) =
            schedule-potential (with_limit limit) q start fresh p in
          let (r, w) = walk_ends get_raw_verified fuel q [] (omega arith) in
          elim (Result-cases r) [
            | inl (vs, same) ↦ (ok (sort_objects vs), ground arith)
            | inr (x, same) ↦ (err x, ground arith)
          ]
    ]
  where
    start : GraphEdge
    start = edge_to root (exact expected) (bytes "root:" ++ hex_encode root)
