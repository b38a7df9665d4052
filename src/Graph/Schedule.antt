-- ===== src/Graph/Schedule.antt =====
-- What scheduling adds to the queue and to the set of constraints.
use forgefs.Base.{
  Bool, true, ◌||◌, ◌≡◌, refl, sym, ap, ◌∙◌, subst, ◌⊎◌, inl, inr, List, [], ◌∷◌, ◌++◌, map, arith,
  Bool-cases, All, eqb, eqb_iff, ◌==◌, nat_eq, list_eq, eq_list_iff, same_refl,
}
use forgefs.Types.{ok, ok-injective, Result-cases}
use forgefs.Graph.{
  GraphEdge, GraphWorkQueue, Constraint, constraint, same_constraint, has_constraint, schedule,
  schedule_all,
}

pub same_constraint_refl : (k : Constraint) → same_constraint k k ≡ true
same_constraint_refl k = ground (arith, same_refl k.id, same_refl k.key)

pub same_constraint-eq : (k x : Constraint) → same_constraint k x ≡ true → k ≡ x
same_constraint-eq k x h =
    let ids : (k.id == x.id) ≡ true = ground arith in
    let keys : eqb k.key x.key ≡ true = ground arith in
    let p : k.id ≡ x.id = (eq_list_iff k.id x.id).0 ids in
    let q : k.key ≡ x.key = (eqb_iff k.key x.key).0 keys in cc

has_constraint-append :
    (xs ys : List Constraint) (k : Constraint)
    → has_constraint (xs ++ ys) k ≡ (has_constraint xs k || has_constraint ys k)
has_constraint-append [] ys k = refl
has_constraint-append (x ∷ xs) ys k = ground (arith, has_constraint-append xs ys k)

map-append :
    (xs ys : List GraphEdge) → map constraint (xs ++ ys) ≡ map constraint xs ++ map constraint ys
map-append [] ys = refl
map-append (x ∷ xs) ys = ap (λ l. constraint x ∷ l) (map-append xs ys)

abbrev pub queued : GraphWorkQueue → List Constraint
queued q = map constraint q.queue

-- From one queue to the next: nothing leaves, and what is new is in the queue.
abbrev pub Grows : GraphWorkQueue → GraphWorkQueue → Type 0
Grows q q' =
    ((k : Constraint) → has_constraint q.scheduled k ≡ true → has_constraint q'.scheduled k ≡ true)
    × ((k : Constraint)
        → has_constraint q'.scheduled k ≡ true
        → (has_constraint q.scheduled k ≡ true) ⊎ (has_constraint (queued q') k ≡ true))
    × ((k : Constraint) → has_constraint (queued q) k ≡ true → has_constraint (queued q') k ≡ true)

Grows-trans : (a b c : GraphWorkQueue) → Grows a b → Grows b c → Grows a c
Grows-trans a b c (f, g, h) (f', g', h') = (
  (λ k p. f' k (f k p)),
  (λ k p. elim (g' k p) [
    | inl x ↦ elim (g k x) [ inl y ↦ inl y | inr y ↦ inr (h' k y) ]
    | inr x ↦ inr x
  ]),
  λ k p. h' k (h k p),
)

pub schedule-Grows :
    (q q' : GraphWorkQueue) (e : GraphEdge) (fresh : Bool)
    → schedule q e ≡ ok (fresh, q')
    → Grows q q' × (has_constraint q'.scheduled (constraint e) ≡ true)
unfolding schedule
schedule-Grows q q' e fresh h = elim (Bool-cases (has_constraint q.scheduled (constraint e))) [
  | inl b ↦
      let same : q ≡ q' = ground arith in
      (
        subst (Grows q) same ((λ k p. p), (λ k p. inl p), λ k p. p),
        subst (λ x. has_constraint x.scheduled (constraint e) ≡ true) same b,
      )
  | inr b ↦
      let (rows, line) : (q'.scheduled ≡ constraint e ∷ q.scheduled)
          × (q'.queue ≡ q.queue ++ e ∷ []) =
        ground arith in
      let line' : queued q' ≡ queued q ++ constraint e ∷ [] =
        ap (map constraint) line ∙ map-append q.queue (e ∷ []) in
      (
        (
          (λ k p. subst (λ l. has_constraint l k ≡ true) (sym rows) (ground arith)),
          (λ k p. later k rows line' p),
          λ k p.
              subst (λ l. has_constraint l k ≡ true) (sym line')
                (ground (arith, has_constraint-append (queued q) (constraint e ∷ []) k)),
        ),
        subst (λ l. has_constraint l (constraint e) ≡ true) (sym rows)
            (ground (arith, same_constraint_refl (constraint e))),
      )
]
  where
    later :
        (k : Constraint)
        → q'.scheduled ≡ constraint e ∷ q.scheduled
        → queued q' ≡ queued q ++ constraint e ∷ []
        → has_constraint q'.scheduled k ≡ true
        → (has_constraint q.scheduled k ≡ true) ⊎ (has_constraint (queued q') k ≡ true)
    later k rows line p = elim (Bool-cases (same_constraint k (constraint e))) [
      | inl b ↦ inr (
          subst (λ l. has_constraint l k ≡ true) (sym line)
            (ground (arith, has_constraint-append (queued q) (constraint e ∷ []) k)))
      | inr b ↦
          let p' : has_constraint (constraint e ∷ q.scheduled) k ≡ true =
            subst (λ l. has_constraint l k ≡ true) rows p in
          inl (ground arith)
    ]

pub schedule_all-Grows :
    (q q' : GraphWorkQueue) (es : List GraphEdge)
    → schedule_all q es ≡ ok q'
    → Grows q q' × All (λ e. has_constraint q'.scheduled (constraint e) ≡ true) es
unfolding schedule_all
schedule_all-Grows q q' [] h =
    (subst (Grows q) (ok-injective h) ((λ k p. p), (λ k p. inl p), λ k p. p), tt)
schedule_all-Grows q q' (e ∷ es) h = elim (Result-cases (schedule q e)) [
  | inr (x, p) ↦ ground arith
  | inl ((fresh, q1), p) ↦
      let (grows, own) = schedule-Grows q q1 e fresh p in
      let (more, rest) = schedule_all-Grows q1 q' es (ground arith) in
      (Grows-trans q q1 q' grows more, (more.0 (constraint e) own, rest))
]
