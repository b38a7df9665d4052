-- ===== src/Graph/Reach.antt =====
-- A walk that ends well has found the whole graph of its root.
use forgefs.Base.{
  ℕ, Bool, true, false, ◌≡◌, ap, ◌∙◌, subst, inl, inr, some, List, [], arith, Option-cases, All,
  bytes, ◌++◌, Bytes,
}
use forgefs.Types.{ObjectId, Result, ok, err, Result-cases, ObjectType, eq_type}
use forgefs.Types.Hex.{hex_encode}
use forgefs.Graph.{
  exact, accepts, GraphEdge, VerifiedGraphObject, Constraint, constraint, has_constraint,
  GraphWorkQueue, with_limit, schedule, find_type, walk, reachable_graph_verified, sort_objects,
  edge_to,
}
use forgefs.Graph.Schedule.{queued, schedule-Grows}
use forgefs.Graph.Sorted.{find_type-sort_objects, All-sort_objects}
use forgefs.Graph.Met.{IsResolved}
use forgefs.Graph.Closed.{IsDecoded, met-IsResolved, IsDecoded-mono, walk-IsDone}

same_type : (a b : ObjectType) → eq_type a b ≡ true → a ≡ b
same_type a b h = ground arith

-- What the first edge has scheduled is in the queue.
first_served :
    (limit : ℕ) (q : GraphWorkQueue) (e : GraphEdge) (fresh : Bool)
    → schedule (with_limit limit) e ≡ ok (fresh, q)
    → (k : Constraint) → has_constraint q.scheduled k ≡ true
    → has_constraint (queued q) k ≡ true
unfolding with_limit
first_served limit q e fresh p k s =
    elim ((schedule-Grows (with_limit limit) q e fresh p).0.1 k s) [
      | inl old ↦ absurd (false-true old)
      | inr line ↦ line
    ]
  where
    false-true : false ≡ true → ⊥
    false-true h = cc

-- A walk that ends well has found the whole graph of its root: the root is there with the type that is
-- asked for, and every object that is there has bytes that decode to its type, and each edge of it leads
-- to an object that is there, with a type that the edge accepts.
pub reachable_graph_verified_closed :
    (get_raw_verified : ObjectId → Result Bytes) (fuel limit : ℕ) (root : ObjectId)
    (expected : ObjectType) (objects : List VerifiedGraphObject)
    → reachable_graph_verified get_raw_verified fuel limit root expected ≡ some (ok objects)
    → (find_type objects root ≡ some expected)
      × All (IsDecoded get_raw_verified (IsResolved objects)) objects
unfolding reachable_graph_verified accepts
reachable_graph_verified_closed get_raw_verified fuel limit root expected objects h =
    elim (Result-cases (schedule (with_limit limit) start)) [
      | inr (x, p) ↦ ground arith
      | inl ((fresh, q), p) ↦ elim (Option-cases (walk get_raw_verified fuel q [])) [
        | inl w ↦ ground arith
        | inr (err x, w) ↦ ground arith
        | inr (ok vs, w) ↦
            let sorted : sort_objects vs ≡ objects = ground arith in
            let (grows, own) = schedule-Grows (with_limit limit) q start fresh p in
            let (closed, unique, met) =
              walk-IsDone get_raw_verified fuel q [] vs
                ((λ k s. inl (first_served limit q start fresh p k s)), tt, tt) w in
            let (ty, f, a) =
              met-IsResolved get_raw_verified vs start (met (constraint start) own) in
            subst
              (λ l.
                (find_type l root ≡ some expected)
                × All (IsDecoded get_raw_verified (IsResolved l)) l)
              sorted
              (
                find_type-sort_objects vs root unique ∙ f ∙ ap some (same_type ty expected a),
                All-sort_objects (IsDecoded get_raw_verified (IsResolved (sort_objects vs))) vs (
                    IsDecoded-mono get_raw_verified (IsResolved vs) (IsResolved (sort_objects vs))
                      vs
                      (λ e (t, found, fits).
                        (t, find_type-sort_objects vs e.id unique ∙ found, fits))
                      closed),
              )
      ]
    ]
  where
    start : GraphEdge
    start = edge_to root (exact expected) (bytes "root:" ++ hex_encode root)
