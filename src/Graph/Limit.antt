-- ===== src/Graph/Limit.antt =====
-- How many objects a walk finds at most.
use forgefs.Base.{
  ℕ, zero, suc, ◌≤◌, Bool, ◌≡◌, refl, sym, ap, ◌∙◌, inl, inr, some, List, [], ◌∷◌, arith,
  Option-cases, length, bytes, ◌++◌, Bytes,
}
use forgefs.Types.{ObjectId, Result, ok, err, Result-cases, ObjectType}
use forgefs.Types.Hex.{hex_encode}
use forgefs.Graph.{
  exact, GraphEdge, VerifiedGraphObject, GraphWorkQueue, with_limit, schedule, schedule_all,
  pop_front, decode_graph_object, verify, find_type, visit, walk, reachable_graph_verified,
  insert_object, sort_objects, edge_to,
}

schedule-limit :
    (q q' : GraphWorkQueue) (e : GraphEdge) (fresh : Bool)
    → schedule q e ≡ ok (fresh, q')
    → q'.limit ≡ q.limit
unfolding schedule
schedule-limit q q' e fresh h = ground arith

schedule_all-limit :
    (q q' : GraphWorkQueue) (es : List GraphEdge) → schedule_all q es ≡ ok q' → q'.limit ≡ q.limit
unfolding schedule_all
schedule_all-limit q q' [] h = ground arith
schedule_all-limit q q' (e ∷ es) h = elim (Result-cases (schedule q e)) [
  | inr (x, p) ↦ ground arith
  | inl ((fresh, q1), p) ↦
      schedule_all-limit q1 q' es (ground arith) ∙ schedule-limit q q1 e fresh p
]

module _ (get_raw_verified : ObjectId → Result Bytes) where
  visit-limit :
      (q q' : GraphWorkQueue) (e : GraphEdge) (vs vs' : List VerifiedGraphObject)
      → length vs ≤ q.limit
      → visit get_raw_verified q e vs ≡ ok (q', vs')
      → (q'.limit ≡ q.limit) × (length vs' ≤ q.limit)
  unfolding visit verify
  visit-limit q q' e vs vs' small h = elim (Option-cases (find_type vs e.id)) [
    | inr (ty, f) ↦ ground arith
    | inl f ↦ elim (Result-cases (get_raw_verified e.id)) [
      | inr (x, r) ↦ ground arith
      | inl (bs, r) ↦ elim (Result-cases (decode_graph_object e.id bs)) [
        | inr (x, w) ↦ ground arith
        | inl (d, w) ↦ elim (Result-cases (schedule_all q d.edges)) [
          | inr (x, g) ↦ ground arith
          | inl (q1, g) ↦ ground (arith, schedule_all-limit q q1 d.edges g)
        ]
      ]
    ]
  ]

  walk-limit :
      (fuel : ℕ) (q : GraphWorkQueue) (vs ws : List VerifiedGraphObject)
      → length vs ≤ q.limit
      → walk get_raw_verified fuel q vs ≡ some (ok ws)
      → length ws ≤ q.limit
  unfolding walk pop_front
  walk-limit zero q vs ws small h = cc
  walk-limit (suc fuel) q vs ws small h = elim (Option-cases (pop_front q)) [
    | inl p ↦ ground arith
    | inr ((e, rest), p) ↦
        let kept : rest.limit ≡ q.limit = ground arith in
        elim (Result-cases (visit get_raw_verified rest e vs)) [
          | inr (x, v) ↦ ground arith
          | inl ((q', vs'), v) ↦
              let (same, small') = visit-limit rest q' e vs vs' (ground arith) v in
              let rest_small : length ws ≤ q'.limit =
                walk-limit fuel q' vs' ws (ground arith) (ground arith) in
              ground arith
        ]
  ]

length-insert_object :
    (v : VerifiedGraphObject) (vs : List VerifiedGraphObject)
    → length (insert_object v vs) ≡ suc (length vs)
length-insert_object v [] = refl
length-insert_object v (x ∷ vs) = ground (arith, length-insert_object v vs)

length-sort_objects : (vs : List VerifiedGraphObject) → length (sort_objects vs) ≡ length vs
unfolding sort_objects
length-sort_objects [] = refl
length-sort_objects (v ∷ vs) =
    length-insert_object v (sort_objects vs) ∙ ap suc (length-sort_objects vs)

-- A walk that ends well has found no more objects than the limit.
pub reachable_graph_verified_limit :
    (get_raw_verified : ObjectId → Result Bytes) (fuel limit : ℕ) (root : ObjectId)
    (expected : ObjectType) (objects : List VerifiedGraphObject)
    → reachable_graph_verified get_raw_verified fuel limit root expected ≡ some (ok objects)
    → length objects ≤ limit
unfolding reachable_graph_verified with_limit
reachable_graph_verified_limit get_raw_verified fuel limit root expected objects h =
    elim (Result-cases (schedule (with_limit limit) start)) [
      | inr (x, p) ↦ ground arith
      | inl ((fresh, q), p) ↦
          let same : q.limit ≡ limit = schedule-limit (with_limit limit) q start fresh p in
          elim (Option-cases (walk get_raw_verified fuel q [])) [
            | inl w ↦ ground arith
            | inr (err x, w) ↦ ground arith
            | inr (ok vs, w) ↦
                let sorted : sort_objects vs ≡ objects = ground arith in
                let small : length vs ≤ q.limit =
                  walk-limit get_raw_verified fuel q [] vs (ground arith) w in
                let count : length objects ≡ length vs =
                  ap length (sym sorted) ∙ length-sort_objects vs in
                ground arith
          ]
    ]
  where
    start : GraphEdge
    start = edge_to root (exact expected) (bytes "root:" ++ hex_encode root)
