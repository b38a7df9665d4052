-- ===== src/Catalog/Audit/Retirements.antt =====
-- Retiring a fork or a conflict and publishing a tag keep `refs` and `reflog` consistent.
use forgefs.Base.{
  ℕ, Bool, true, false, ◌≡◌, refl, sym, subst, none, some, List, arith, inl, inr, ◌==◌, nat_eq,
  list_eq, Str, bytes, Option-cases,
}
use forgefs.Types.{internal, ObjectId, Error, ok, Result-cases}
use forgefs.Catalog.{
  Catalog, RefRow, find_ref, ref_retired, ref_exists, set_oid, drop_row, update_row, delete_row,
  insert_intros, reflog_abandon, deny_retired,
}
use forgefs.Catalog.Refs.{create, move_entry, plain_row}
use forgefs.Catalog.Retire.{
  RetiredRef, retire, present, check_unused, abandon_ref, PublishedResolution, publish_resolution,
  check_into, check_conflict, move_head, stale_error,
}
use forgefs.Catalog.Sessions.{found}
use forgefs.Catalog.Audit.Consistent.{IsConsistent, Evolves}
use forgefs.Catalog.Audit.Statements.{retire-Evolves, pushed}

pub retire_lem :
    (c c' : Catalog) (name : Str) (oid : ObjectId) (agent_id : Str) (failed : Error)
    → retire c name oid agent_id failed ≡ ok c'
    → c' ≡ pushed c (drop_row c.refs name) (move_entry name oid oid agent_id reflog_abandon)
unfolding retire delete_row ref_exists
retire_lem c c' name oid agent_id failed h = ground arith

pub abandon_ref_lem :
    (c c' : Catalog) (name agent_id : Str) (ts : ℕ) (result : RetiredRef)
    → abandon_ref c name agent_id ts ≡ ok (result, c')
    → (r : RefRow) × (find_ref c.refs name ≡ some r)
      × (r.sealed ≡ false)
      × (r.protected ≡ false)
      × (check_unused c name ≡ ok tt)
      × (c' ≡ pushed c (drop_row c.refs name) (move_entry name r.oid r.oid agent_id reflog_abandon))
unfolding abandon_ref present
abandon_ref_lem c c' name agent_id ts result h = elim (Option-cases (find_ref c.refs name)) [
  | inl f ↦ ground arith
  | inr (r, f) ↦ (
    r,
    f,
    ground arith,
    ground arith,
    ground arith,
    retire_lem c c' name r.oid agent_id (internal "abandon removed {removed} rows for ref {name}")
        (ground arith),
  )
]

pub abandon_ref-Evolves :
    (c c' : Catalog) (name agent_id : Str) (ts : ℕ) (result : RetiredRef)
    → IsConsistent c
    → abandon_ref c name agent_id ts ≡ ok (result, c')
    → Evolves c c'
abandon_ref-Evolves c c' name agent_id ts result inv h =
    let (r, f, unsealed, free, _, e) = abandon_ref_lem c c' name agent_id ts result h in
    subst (Evolves c) (sym e) (retire-Evolves c r name agent_id r.oid inv f refl unsealed free)

pub move_head_lem :
    (c c1 : Catalog) (r : RefRow) (into : Str) (expected commit : ObjectId) (agent_id : Str)
    → find_ref c.refs into ≡ some r
    → r.oid ≡ expected
    → r.sealed ≡ false
    → move_head c into expected commit agent_id ≡ ok c1
    → c1
      ≡ pushed c
          (set_oid c.refs into commit)
          (move_entry into expected commit agent_id (bytes "resolve"))
unfolding move_head update_row stale_error found
move_head_lem c c1 r into expected commit agent_id f held unsealed h = ground arith

-- A resolution: what the checks have found, and the three statements with the catalogs between them.
pub record Resolved (c c' : Catalog) (into : Str) (expected commit : ObjectId) (conflict_ref : Str)
    (conflict_oid : ObjectId) (resolution_ref agent_id : Str) : Type 0 where
  pub head : RefRow
  pub clash : RefRow
  pub c1 : Catalog
  pub c2 : Catalog
  pub c3 : Catalog
  pub head_found : find_ref c.refs into ≡ some head
  pub head_kind : (head.kind == bytes "commit") ≡ true
  pub head_unsealed : head.sealed ≡ false
  pub head_held : (head.oid == expected) ≡ true
  pub clash_found : find_ref c.refs conflict_ref ≡ some clash
  pub clash_kind : (clash.kind == bytes "conflict") ≡ true
  pub clash_unsealed : clash.sealed ≡ false
  pub clash_free : clash.protected ≡ false
  pub clash_held : (clash.oid == conflict_oid) ≡ true
  pub absent : find_ref c.refs resolution_ref ≡ none
  pub current : ref_retired c resolution_ref ≡ false
  pub moved : move_head c into expected commit agent_id ≡ ok c1
  pub born :
      create c1 (plain_row resolution_ref commit (bytes "commit")) none agent_id (bytes "resolve")
      ≡ ok c2
  pub died :
      c3
      ≡ pushed c2
          (drop_row c2.refs conflict_ref)
          (move_entry conflict_ref conflict_oid conflict_oid agent_id reflog_abandon)
  pub oids : List ObjectId
  pub introduced : c' ≡ insert_intros c3 oids commit agent_id

pub publish_resolution_lem :
    (c c' : Catalog) (into : Str) (expected commit : ObjectId) (conflict_ref : Str)
    (conflict_oid : ObjectId) (resolution_ref agent_id : Str) (allow_protected : Bool)
    (intro_oids : List ObjectId) (result : PublishedResolution)
    → publish_resolution c into expected commit conflict_ref conflict_oid resolution_ref agent_id
        allow_protected intro_oids
      ≡ ok (result, c')
    → Resolved c c' into expected commit conflict_ref conflict_oid resolution_ref agent_id
unfolding publish_resolution check_into check_conflict ref_exists deny_retired found present
publish_resolution_lem c c' into expected commit conflict_ref conflict_oid resolution_ref agent_id
      allow_protected intro_oids result h =
    elim (Option-cases (find_ref c.refs into)) [
      | inl f ↦ ground arith
      | inr (r, f) ↦ elim (Option-cases (find_ref c.refs conflict_ref)) [
        | inl g ↦ ground arith
        | inr (s, g) ↦ elim (Result-cases (move_head c into expected commit agent_id)) [
          | inr (e, q) ↦ ground arith
          | inl (d1, q) ↦
              elim (Result-cases (
                create d1 (plain_row resolution_ref commit (bytes "commit")) none agent_id
                  (bytes "resolve"))) [
                    | inr (e, w) ↦ ground arith
                    | inl (d2, w) ↦
                        elim (Result-cases (
                          retire d2 conflict_ref conflict_oid agent_id (
                            internal
                              "resolve removed {removed} rows for conflict ref {conflict_ref}"))) [
                                | inr (e, x) ↦ ground arith
                                | inl (d3, x) ↦ record {
                                  head = r;
                                  clash = s;
                                  c1 = d1;
                                  c2 = d2;
                                  c3 = d3;
                                  head_found = f;
                                  head_kind = ground arith;
                                  head_unsealed = ground arith;
                                  head_held = ground arith;
                                  clash_found = g;
                                  clash_kind = ground arith;
                                  clash_unsealed = ground arith;
                                  clash_free = ground arith;
                                  clash_held = ground arith;
                                  absent = ground arith;
                                  current = ground arith;
                                  moved = q;
                                  born = w;
                                  died =
                                      retire_lem d2 d3 conflict_ref conflict_oid agent_id
                                        (internal
                                          "resolve removed {removed} rows for conflict ref {conflict_ref}")
                                        x;
                                  oids = intro_oids;
                                  introduced = ground arith;
                                }
                              ]
                  ]
        ]
      ]
    ]
