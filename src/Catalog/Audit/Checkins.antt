-- ===== src/Catalog/Audit/Checkins.antt =====
-- Opening a session and a checkin keep `refs` and `reflog` consistent.
use forgefs.Base.{
  Bool, false, ◌≡◌, refl, sym, ap, ◌∙◌, subst, none, some, List, ◌++◌, arith, Bool-cases, inl, inr,
  ◌==◌, nat_eq, list_eq, Str, bytes, Option-cases,
}
use forgefs.Types.{ObjectId, ok, Result-cases}
use forgefs.Catalog.{
  Catalog, RefRow, MountRow, find_ref, last_row, retired_by, ref_retired, set_oid, update_row,
  insert_intros,
}
use forgefs.Catalog.Names.{session_fork_name}
use forgefs.Catalog.Refs.{create, move_entry, CasResult, create_fork, plain_row, updated}
use forgefs.Catalog.Sessions.{
  insert_namespace, insert_mount_row, mount_main_row, create_session, repin_mount, pin_root,
  complete_noop_session, overlay_clear, forget_mount, session_move, session_fork, session_swap,
  cas_ref_session, found, update_mounts,
}
use forgefs.Catalog.Audit.Consistent.{IsConsistent, Evolves, Evolves_trans, Later-refl, state}
use forgefs.Catalog.Audit.Rows.{same_name}
use forgefs.Catalog.Audit.Statements.{create-Evolves, move-Evolves, pushed}
use forgefs.Catalog.Audit.Operations.{framed, fork-Evolves, intros-Evolves}

-- The two tables of references are the same.
abbrev pub IsFramed : Catalog → Catalog → Type 0
IsFramed c d = (d.refs ≡ c.refs) × (d.reflog ≡ c.reflog)

pub insert_namespace-IsFramed :
    (c d : Catalog) (id agent_id : Str) (pinned : ObjectId) (live_ref : Str)
    → insert_namespace c id agent_id pinned live_ref ≡ ok d
    → IsFramed c d
unfolding insert_namespace
insert_namespace-IsFramed c d id agent_id pinned live_ref h = ground arith

pub insert_mount_row-IsFramed :
    (c d : Catalog) (m : MountRow) → insert_mount_row c m ≡ ok d → IsFramed c d
unfolding insert_mount_row
insert_mount_row-IsFramed c d m h = ground arith

mount_main_row-IsFramed :
    (c d : Catalog) (id : Str) (mount_main : Bool)
    → mount_main_row c id mount_main ≡ ok d
    → IsFramed c d
unfolding mount_main_row insert_mount_row
mount_main_row-IsFramed c d id mount_main h = ground arith

pub complete_noop_session-IsFramed :
    (c d : Catalog) (ns_id mount_path : Str) (pinned : ObjectId)
    → complete_noop_session c ns_id mount_path pinned ≡ ok d
    → IsFramed c d
unfolding complete_noop_session repin_mount pin_root overlay_clear forget_mount
complete_noop_session-IsFramed c d ns_id mount_path pinned h = ground arith

-- A session is a namespace and a new reference, and then rows of `mounts`.
pub create_session_lem :
    (c c' : Catalog) (id agent_id : Str) (pinned : ObjectId) (live_ref : Str) (mount_main : Bool)
    → create_session c id agent_id pinned live_ref mount_main ≡ ok c'
    → (c1 : Catalog) × (c2 : Catalog) × (insert_namespace c id agent_id pinned live_ref ≡ ok c1)
      × (create c1 (plain_row live_ref pinned (bytes "commit")) none agent_id (bytes "session")
          ≡ ok c2)
      × IsFramed c2 c'
unfolding create_session mount_main_row insert_mount_row
create_session_lem c c' id agent_id pinned live_ref mount_main h =
    elim (Result-cases (insert_namespace c id agent_id pinned live_ref)) [
      | inr (e, q) ↦ ground arith
      | inl (c1, p) ↦
          elim (Result-cases (
            create c1 (plain_row live_ref pinned (bytes "commit")) none agent_id
              (bytes "session"))) [
                | inr (e, q) ↦ ground arith
                | inl (c2, q) ↦ (c1, c2, p, q, ground arith)
              ]
    ]

pub create_session-Evolves :
    (c c' : Catalog) (id agent_id : Str) (pinned : ObjectId) (live_ref : Str) (mount_main : Bool)
    → IsConsistent c
    → ref_retired c live_ref ≡ false
    → create_session c id agent_id pinned live_ref mount_main ≡ ok c'
    → Evolves c c'
unfolding ref_retired
create_session-Evolves c c' id agent_id pinned live_ref mount_main inv fresh h =
    let (c1, c2, p, q, same) = create_session_lem c c' id agent_id pinned live_ref mount_main h in
    let (rows, entries) = insert_namespace-IsFramed c c1 id agent_id pinned live_ref p in
    let opened : Evolves c c1 = framed c c c1 rows entries (inv, λ n. Later-refl (state c n)) in
    let fresh1 : ref_retired c1 live_ref ≡ false =
      subst (λ l. retired_by (last_row l live_ref) ≡ false) (sym entries) fresh in
    let born : Evolves c1 c2 =
      create-Evolves c1 c2 (plain_row live_ref pinned (bytes "commit")) none agent_id
        (bytes "session") opened.0 fresh1 refl refl q in
    framed c c2 c' same.0 same.1 (Evolves_trans c c1 c2 opened born)

-- A checkin moves the reference or creates a fork, and the rest leaves the two tables as they are.
pub cas_ref_session_lem :
    (c c' : Catalog) (name : Str) (expected new : ObjectId)
    (agent_id fork_agent ulid ns_id mount_path : Str) (intro_oids : List ObjectId)
    (result : CasResult)
    → cas_ref_session c name expected new agent_id fork_agent ulid ns_id mount_path intro_oids
      ≡ ok (result, c')
    → (r : RefRow) × (c1 : Catalog) × (c2 : Catalog) × (find_ref c.refs name ≡ some r)
      × (r.sealed ≡ false)
      × (session_swap c r.oid name expected new agent_id
            (session_fork_name name fork_agent ulid)
            ns_id
            mount_path
          ≡ ok (result, c1))
      × (complete_noop_session c1 ns_id mount_path new ≡ ok c2)
      × (c' ≡ insert_intros c2 intro_oids new agent_id)
unfolding cas_ref_session found
cas_ref_session_lem c c' name expected new agent_id fork_agent ulid ns_id mount_path intro_oids
      result h =
    elim (Option-cases (find_ref c.refs name)) [
      | inl f ↦ ground arith
      | inr (r, f) ↦
          elim (Result-cases (
            session_swap c r.oid name expected new agent_id (session_fork_name name fork_agent ulid)
              ns_id mount_path)) [
                | inr (e, q) ↦ ground arith
                | inl ((x, c1), q) ↦
                    elim (Result-cases (complete_noop_session c1 ns_id mount_path new)) [
                      | inr (e, w) ↦ ground arith
                      | inl (c2, w) ↦
                          let (unsealed, e, i) : (r.sealed ≡ false)
                              × (x ≡ result)
                              × (c' ≡ insert_intros c2 intro_oids new agent_id) =
                            ground arith in
                          (r, c1, c2, f, unsealed, q ∙ ap (λ y. ok (y, c1)) e, w, i)
                    ]
              ]
    ]

pub session_move_lem :
    (c c1 : Catalog) (r : RefRow) (name : Str) (expected new : ObjectId) (agent_id : Str)
    (result : CasResult)
    → find_ref c.refs name ≡ some r
    → session_move c name expected new agent_id ≡ ok (result, c1)
    → (r.oid ≡ expected)
      × (c1
          ≡ pushed c
              (set_oid c.refs name new)
              (move_entry name expected new agent_id (bytes "cas")))
      × (result ≡ updated name new)
unfolding session_move update_row
session_move_lem c c1 r name expected new agent_id result f h =
    ground (arith, same_name r.oid expected)

pub session_fork_lem :
    (c c1 : Catalog) (name fork : Str) (current new : ObjectId) (agent_id ns_id mount_path : Str)
    (result : CasResult)
    → session_fork c name fork current new agent_id ns_id mount_path ≡ ok (result, c1)
    → (d : Catalog) × (create_fork c name fork current new (bytes "commit") agent_id
        ≡ ok (result, d))
      × (c1 ≡ (update_mounts d ns_id mount_path (λ m. record m { spec = bytes "ref:" ++ fork })).1)
unfolding session_fork
session_fork_lem c c1 name fork current new agent_id ns_id mount_path result h =
    elim (Result-cases (create_fork c name fork current new (bytes "commit") agent_id)) [
      | inr (e, q) ↦ ground arith
      | inl ((x, d), q) ↦
          let (e, i) : (x ≡ result)
              × (c1
                  ≡ (update_mounts d ns_id mount_path
                      (λ m. record m { spec = bytes "ref:" ++ fork })).1) =
            ground arith in
          (d, q ∙ ap (λ y. ok (y, d)) e, i)
    ]

swap-Evolves :
    (c c1 : Catalog) (r : RefRow) (name : Str) (expected new : ObjectId)
    (agent_id fork ns_id mount_path : Str) (result : CasResult)
    → IsConsistent c
    → ref_retired c fork ≡ false
    → find_ref c.refs name ≡ some r
    → r.sealed ≡ false
    → session_swap c r.oid name expected new agent_id fork ns_id mount_path ≡ ok (result, c1)
    → Evolves c c1
unfolding session_swap
swap-Evolves c c1 r name expected new agent_id fork ns_id mount_path result inv fresh f unsealed h =
    elim (Bool-cases (r.oid == expected)) [
      | inl b ↦
          let (held, e, _) =
            session_move_lem c c1 r name expected new agent_id result f (ground arith) in
          subst (Evolves c) (sym e)
            (move-Evolves c r name expected new agent_id (bytes "cas") inv f held unsealed refl)
      | inr b ↦
          let (d, p, e) =
            session_fork_lem c c1 name fork r.oid new agent_id ns_id mount_path result
              (ground arith) in
          subst (Evolves c) (sym e)
            (fork-Evolves c d name fork r.oid new (bytes "commit") agent_id result inv fresh p)
    ]

pub cas_ref_session-Evolves :
    (c c' : Catalog) (name : Str) (expected new : ObjectId)
    (agent_id fork_agent ulid ns_id mount_path : Str) (intro_oids : List ObjectId)
    (result : CasResult)
    → IsConsistent c
    → ref_retired c (session_fork_name name fork_agent ulid) ≡ false
    → cas_ref_session c name expected new agent_id fork_agent ulid ns_id mount_path intro_oids
      ≡ ok (result, c')
    → Evolves c c'
cas_ref_session-Evolves c c' name expected new agent_id fork_agent ulid ns_id mount_path intro_oids
      result inv fresh h =
    let (r, c1, c2, f, unsealed, q, w, e) =
      cas_ref_session_lem c c' name expected new agent_id fork_agent ulid ns_id mount_path
        intro_oids result h in
    let (rows, entries) = complete_noop_session-IsFramed c1 c2 ns_id mount_path new w in
    subst (Evolves c) (sym e) (
      intros-Evolves c c2 intro_oids new agent_id (
        framed c c1 c2 rows entries (
          swap-Evolves c c1 r name expected new agent_id (session_fork_name name fork_agent ulid)
            ns_id mount_path result inv fresh f unsealed q)))
