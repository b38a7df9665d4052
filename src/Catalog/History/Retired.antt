-- ===== src/Catalog/History/Retired.antt =====
-- A retired name stays retired, unless an operation that does not ask creates it.
use forgefs.Base.{
  ℕ, Bool, true, false, ◌≡◌, sym, subst, Option, none, some, List, arith, Bool-cases, inl, inr,
  ◌==◌, nat_eq, list_eq, Str, bytes,
}
use forgefs.Types.{ObjectId, ok}
use forgefs.Catalog.{Catalog, RefRow, find_ref, get_ref, ref_retired, reflog_abandon, drop_row}
use forgefs.Catalog.Names.{session_fork_name}
use forgefs.Catalog.Refs.{plain_row, move_entry, CasResult}
use forgefs.Catalog.Sessions.{create_session, session_swap, cas_ref_session}
use forgefs.Catalog.Retire.{
  abandon_ref, RetiredRef, publish_resolution, PublishedResolution, abandon_session,
}
use forgefs.Catalog.Seals.{commit_seal, tag_ref}
use forgefs.Catalog.Audit.Rows.{same_name, find_ref-drop_row-none}
use forgefs.Catalog.Audit.Checkins.{
  IsFramed, insert_namespace-IsFramed, create_session_lem, complete_noop_session-IsFramed,
  cas_ref_session_lem, session_move_lem, session_fork_lem,
}
use forgefs.Catalog.Audit.Retirements.{abandon_ref_lem, publish_resolution_lem, move_head_lem}
use forgefs.Catalog.Audit.Resolutions.{commit_seal_lem}
use forgefs.Catalog.Steps.{
  StepIf, inserts, inserts_with_intros, swaps, swaps_with_intros, opens, checks_in, completes,
  abandons, resolves, closes, seals, aside, ReachIf, here, next,
}
use forgefs.Catalog.History.Gone.{
  IsGone, IsOtherName, current_differs, held_differs, pushed-IsGone, framed-IsGone, create-IsGone,
  move-IsGone, retire-IsGone, intros-IsGone, insert_ref-IsGone, insert_ref_with_intros-IsGone,
  fork-IsGone, cas_ref-IsGone, cas_ref_with_intros-IsGone,
}

module _ (n : Str) where
  create_session-IsGone :
      (c c' : Catalog) (id agent_id : Str) (pinned : ObjectId) (live_ref : Str) (mount_main : Bool)
      → (live_ref == n) ≡ false
      → create_session c id agent_id pinned live_ref mount_main ≡ ok c'
      → IsGone n c
      → IsGone n c'
  create_session-IsGone c c' id agent_id pinned live_ref mount_main other h gone =
      let (c1, c2, p, q, same) = create_session_lem c c' id agent_id pinned live_ref mount_main h in
      let opened =
        framed-IsGone n c c1 (insert_namespace-IsFramed c c1 id agent_id pinned live_ref p) gone in
      framed-IsGone n c2 c' same (
        create-IsGone n c1 c2 (plain_row live_ref pinned (bytes "commit")) none agent_id
          (bytes "session") other q opened)

  swap-IsGone :
      (c c1 : Catalog) (r : RefRow) (name : Str) (expected new : ObjectId)
      (agent_id fork ns_id mount_path : Str) (result : CasResult)
      → (fork == n) ≡ false
      → find_ref c.refs name ≡ some r
      → session_swap c r.oid name expected new agent_id fork ns_id mount_path ≡ ok (result, c1)
      → IsGone n c
      → IsGone n c1
  unfolding session_swap
  swap-IsGone c c1 r name expected new agent_id fork ns_id mount_path result other f h gone =
      elim (Bool-cases (r.oid == expected)) [
        | inl b ↦
            let (_, e, _) =
              session_move_lem c c1 r name expected new agent_id result f (ground arith) in
            subst (IsGone n) (sym e)
              (move-IsGone n c r name expected new agent_id (bytes "cas") f gone)
        | inr b ↦
            let (d, p, e) =
              session_fork_lem c c1 name fork r.oid new agent_id ns_id mount_path result
                (ground arith) in
            subst (IsGone n) (sym e)
              (fork-IsGone n c d name fork r.oid new (bytes "commit") agent_id result other p gone)
      ]

  cas_ref_session-IsGone :
      (c c' : Catalog) (name : Str) (expected new : ObjectId)
      (agent_id fork_agent ulid ns_id mount_path : Str) (intro_oids : List ObjectId)
      (result : CasResult)
      → (session_fork_name name fork_agent ulid == n) ≡ false
      → cas_ref_session c name expected new agent_id fork_agent ulid ns_id mount_path intro_oids
        ≡ ok (result, c')
      → IsGone n c
      → IsGone n c'
  cas_ref_session-IsGone c c' name expected new agent_id fork_agent ulid ns_id mount_path intro_oids
        result other h gone =
      let (r, c1, c2, f, _, q, w, e) =
        cas_ref_session_lem c c' name expected new agent_id fork_agent ulid ns_id mount_path
          intro_oids result h in
      let swapped =
        swap-IsGone c c1 r name expected new agent_id (session_fork_name name fork_agent ulid) ns_id
          mount_path result other f q gone in
      subst (IsGone n) (sym e) (
        intros-IsGone n c2 intro_oids new agent_id (
          framed-IsGone n c1 c2 (complete_noop_session-IsFramed c1 c2 ns_id mount_path new w)
            swapped))

  abandon_ref-IsGone :
      (c c' : Catalog) (name agent_id : Str) (ts : ℕ) (result : RetiredRef)
      → abandon_ref c name agent_id ts ≡ ok (result, c')
      → IsGone n c
      → IsGone n c'
  abandon_ref-IsGone c c' name agent_id ts result h gone =
      let (r, f, _, _, _, e) = abandon_ref_lem c c' name agent_id ts result h in
      subst (IsGone n) (sym e)
        (retire-IsGone n c r name r.oid r.oid agent_id (bytes "abandon") f gone)

  publish_resolution-IsGone :
      (c c' : Catalog) (into : Str) (expected commit : ObjectId) (conflict_ref : Str)
      (conflict_oid : ObjectId) (resolution_ref agent_id : Str) (allow_protected : Bool)
      (intro_oids : List ObjectId) (result : PublishedResolution)
      → publish_resolution c into expected commit conflict_ref conflict_oid resolution_ref agent_id
          allow_protected intro_oids
        ≡ ok (result, c')
      → IsGone n c
      → IsGone n c'
  publish_resolution-IsGone c c' into expected commit conflict_ref conflict_oid resolution_ref
        agent_id allow_protected intro_oids result h gone =
      let w =
        publish_resolution_lem c c' into expected commit conflict_ref conflict_oid resolution_ref
          agent_id allow_protected intro_oids result h in
      let held : w.head.oid ≡ expected = same_name w.head.oid expected w.head_held in
      let e1 =
        move_head_lem c w.c1 w.head into expected commit agent_id w.head_found held w.head_unsealed
          w.moved in
      let moved : IsGone n w.c1 = subst (IsGone n) (sym e1) (
        move-IsGone n c w.head into expected commit agent_id (bytes "resolve") w.head_found gone) in
      let born : IsGone n w.c2 =
        create-IsGone n w.c1 w.c2 (plain_row resolution_ref commit (bytes "commit")) none agent_id
          (bytes "resolve") (current_differs n c resolution_ref gone w.current) w.born moved in
      let died : IsGone n w.c3 = subst (IsGone n) (sym w.died) (
        pushed-IsGone n w.c2 (drop_row w.c2.refs conflict_ref)
          (move_entry conflict_ref conflict_oid conflict_oid agent_id reflog_abandon)
          (held_differs n c conflict_ref w.clash gone w.clash_found)
          (find_ref-drop_row-none w.c2.refs conflict_ref n) born) in
      subst (IsGone n) (sym w.introduced) (intros-IsGone n w.c3 w.oids commit agent_id died)

  commit_seal-IsGone :
      (c c' : Catalog) (tag : Str) (snap commit tree : ObjectId) (agent_id : Str)
      (expect_ref : Option (Str × ObjectId))
      → (tag_ref tag == n) ≡ false
      → commit_seal c tag snap commit tree agent_id expect_ref ≡ ok c'
      → IsGone n c
      → IsGone n c'
  commit_seal-IsGone c c' tag snap commit tree agent_id expect_ref other h gone =
      let (c1, q, _, same) = commit_seal_lem c c' tag snap commit tree agent_id expect_ref h in
      framed-IsGone n c1 c' same (
        create-IsGone n c c1
          (record {
            name = tag_ref tag;
            oid = snap;
            kind = bytes "snapshot";
            protected = true;
            sealed = true;
          })
          none agent_id (bytes "seal") other q gone)

  -- An operation, where one that does not ask creates another name.
  Step-IsGone :
      {Plain : Str → Type 0} (c d : Catalog)
      → StepIf (IsOtherName n) Plain c d
      → IsGone n c
      → IsGone n d
  unfolding abandon_session
  Step-IsGone c d (inserts name oid kind protected is_sealed agent_id reason p h) =
      insert_ref-IsGone n c d name oid kind protected is_sealed agent_id reason h
  Step-IsGone c d (inserts_with_intros name oid kind protected is_sealed agent_id reason oids p h) =
      insert_ref_with_intros-IsGone n c d name oid kind protected is_sealed agent_id reason oids h
  Step-IsGone c d (swaps name expected new kind agent_id fork_agent ulid allow result p h) =
      cas_ref-IsGone n c d name expected new kind agent_id fork_agent ulid allow result p h
  Step-IsGone c d
        (swaps_with_intros name expected new kind agent_id fork_agent ulid allow oids result p h) =
      cas_ref_with_intros-IsGone n c d name expected new kind agent_id fork_agent ulid allow oids
        result p h
  Step-IsGone c d (opens id agent_id pinned live_ref mount_main p h) =
      create_session-IsGone c d id agent_id pinned live_ref mount_main p h
  Step-IsGone c d
        (checks_in name expected new agent_id fork_agent ulid ns_id mount_path oids result p h) =
      cas_ref_session-IsGone c d name expected new agent_id fork_agent ulid ns_id mount_path oids
        result p h
  Step-IsGone c d (completes ns_id mount_path pinned h) =
      framed-IsGone n c d (complete_noop_session-IsFramed c d ns_id mount_path pinned h)
  Step-IsGone c d (abandons name agent_id ts result h) =
      abandon_ref-IsGone c d name agent_id ts result h
  Step-IsGone c d
        (resolves into expected commit conflict_ref conflict_oid resolution_ref agent_id allow oids
          result h) =
      publish_resolution-IsGone c d into expected commit conflict_ref conflict_oid resolution_ref
        agent_id allow oids result h
  Step-IsGone c d (closes ns_id discard_staged result h) =
      let same : IsFramed c d = ground arith in framed-IsGone n c d same
  Step-IsGone c d (seals tag snap commit tree agent_id expect_ref p h) =
      commit_seal-IsGone c d tag snap commit tree agent_id expect_ref p h
  Step-IsGone c d (aside p q) = framed-IsGone n c d (p, q)

  Reach-IsGone :
      {Plain : Str → Type 0} {c d : Catalog}
      → ReachIf (IsOtherName n) Plain c d
      → IsGone n c
      → IsGone n d
  Reach-IsGone here gone = gone
  Reach-IsGone (next {d} {e} r s) gone = Step-IsGone d e s (Reach-IsGone r gone)

-- No history brings back a retired name that has no reference, and the name stays retired, where no
-- session's reference, fork or tag is given this name: every other operation that creates a reference
-- refuses the name.
pub get_ref_retired :
    (c d : Catalog) (name : Str)
    → get_ref c name ≡ none
    → ref_retired c name ≡ true
    → ReachIf (IsOtherName name) (λ reason. Unit) c d
    → (get_ref d name ≡ none) × (ref_retired d name ≡ true)
unfolding get_ref ref_retired
get_ref_retired c d name bare gone r = Reach-IsGone name r (bare, gone)
