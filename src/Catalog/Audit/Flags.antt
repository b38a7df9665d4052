-- ===== src/Catalog/Audit/Flags.antt =====
-- Sessions, retirements, resolutions and seals keep the kinds of the references and the flags of the tags.
use forgefs.Base.{
  ℕ, Bool, true, false, ◌≡◌, refl, sym, ap, ◌∙◌, subst, Option, none, some, List, arith, Bool-cases,
  inl, inr, ◌==◌, nat_eq, list_eq, Str, bytes, starts_with,
}
use forgefs.Types.{ObjectId, ok, Result-cases}
use forgefs.Catalog.{Catalog, RefRow, find_ref, insert_intros}
use forgefs.Catalog.Names.{validate_ref_kind, session_fork_name}
use forgefs.Catalog.Refs.{CasResult, cas_ref, cas_ref_with_intros}
use forgefs.Catalog.Sessions.{create_session, session_swap, cas_ref_session}
use forgefs.Catalog.Retire.{
  abandon_ref, RetiredRef, publish_resolution, PublishedResolution, check_resolution_names,
}
use forgefs.Catalog.Seals.{commit_seal, tag_ref}
use forgefs.Catalog.Audit.{tag_findings}
use forgefs.Catalog.Audit.Kinds.{
  AreLawful, Keeps, create-Keeps, commit-Keeps, framed-Keeps, intros-refs, fork-Keeps,
  cas_ref-Keeps, set_oid-AreLawful, drop_row-AreLawful,
}
use forgefs.Catalog.Audit.Rows.{same_name}
use forgefs.Catalog.Audit.Checkins.{
  insert_namespace-IsFramed, create_session_lem, complete_noop_session-IsFramed,
  cas_ref_session_lem, session_move_lem, session_fork_lem,
}
use forgefs.Catalog.Audit.Retirements.{abandon_ref_lem, publish_resolution_lem, move_head_lem}
use forgefs.Catalog.Audit.Resolutions.{commit_seal_lem}

pub cas_ref_with_intros-Keeps :
    (c c' : Catalog) (name : Str) (expected new : ObjectId) (kind agent_id fork_agent ulid : Str)
    (allow_protected : Bool) (intro_oids : List ObjectId) (result : CasResult)
    → cas_ref_with_intros c name expected new kind agent_id fork_agent ulid allow_protected
        intro_oids
      ≡ ok (result, c')
    → Keeps c c'
unfolding cas_ref_with_intros
cas_ref_with_intros-Keeps c c' name expected new kind agent_id fork_agent ulid allow intro_oids
      result h =
    elim (Result-cases (cas_ref c name expected new kind agent_id fork_agent ulid allow)) [
      | inr (e, q) ↦ ground arith
      | inl ((x, d), q) ↦
          let same : insert_intros d intro_oids new agent_id ≡ c' = ground arith in
          framed-Keeps c d c' (ap (λ y. y.refs) (sym same) ∙ intros-refs d intro_oids new agent_id)
            (cas_ref-Keeps c d name expected new kind agent_id fork_agent ulid allow x q)
    ]

create_session_checks :
    (c c' : Catalog) (id agent_id : Str) (pinned : ObjectId) (live_ref : Str) (mount_main : Bool)
    → create_session c id agent_id pinned live_ref mount_main ≡ ok c'
    → validate_ref_kind live_ref (bytes "commit") ≡ ok tt
unfolding create_session
create_session_checks c c' id agent_id pinned live_ref mount_main h = ground arith

pub create_session-Keeps :
    (c c' : Catalog) (id agent_id : Str) (pinned : ObjectId) (live_ref : Str) (mount_main : Bool)
    → create_session c id agent_id pinned live_ref mount_main ≡ ok c'
    → Keeps c c'
create_session-Keeps c c' id agent_id pinned live_ref mount_main h lawful =
    let (c1, c2, p, q, (rows, _)) =
      create_session_lem c c' id agent_id pinned live_ref mount_main h in
    let (rows1, _) = insert_namespace-IsFramed c c1 id agent_id pinned live_ref p in
    subst AreLawful (sym rows) (
      commit-Keeps c1 c2 live_ref pinned none agent_id (bytes "session")
        (create_session_checks c c' id agent_id pinned live_ref mount_main h) q
        (subst AreLawful (sym rows1) lawful))

session_fork_name-untagged :
    (name agent ulid : Str)
    → starts_with (session_fork_name name agent ulid) (bytes "tags/") ≡ false
unfolding session_fork_name starts_with
session_fork_name-untagged name agent ulid = refl

swap-Keeps :
    (c c1 : Catalog) (r : RefRow) (name : Str) (expected new : ObjectId)
    (agent_id fork ns_id mount_path : Str) (result : CasResult)
    → starts_with fork (bytes "tags/") ≡ false
    → find_ref c.refs name ≡ some r
    → session_swap c r.oid name expected new agent_id fork ns_id mount_path ≡ ok (result, c1)
    → Keeps c c1
unfolding session_swap
swap-Keeps c c1 r name expected new agent_id fork ns_id mount_path result t f h lawful =
    elim (Bool-cases (r.oid == expected)) [
      | inl b ↦
          let (_, e, _) =
            session_move_lem c c1 r name expected new agent_id result f (ground arith) in
          subst (λ d. AreLawful d.refs) (sym e) (set_oid-AreLawful c.refs name new lawful)
      | inr b ↦
          let (d, p, e) =
            session_fork_lem c c1 name fork r.oid new agent_id ns_id mount_path result
              (ground arith) in
          subst (λ d. AreLawful d.refs) (sym e)
            (fork-Keeps c d name fork r.oid new (bytes "commit") agent_id result t p lawful)
    ]

pub cas_ref_session-Keeps :
    (c c' : Catalog) (name : Str) (expected new : ObjectId)
    (agent_id fork_agent ulid ns_id mount_path : Str) (intro_oids : List ObjectId)
    (result : CasResult)
    → cas_ref_session c name expected new agent_id fork_agent ulid ns_id mount_path intro_oids
      ≡ ok (result, c')
    → Keeps c c'
cas_ref_session-Keeps c c' name expected new agent_id fork_agent ulid ns_id mount_path intro_oids
      result h lawful =
    let (r, c1, c2, f, _, q, w, e) =
      cas_ref_session_lem c c' name expected new agent_id fork_agent ulid ns_id mount_path
        intro_oids result h in
    let (rows, _) = complete_noop_session-IsFramed c1 c2 ns_id mount_path new w in
    subst AreLawful (sym (ap (λ d. d.refs) e ∙ intros-refs c2 intro_oids new agent_id ∙ rows)) (
      swap-Keeps c c1 r name expected new agent_id (session_fork_name name fork_agent ulid) ns_id
        mount_path result (session_fork_name-untagged name fork_agent ulid) f q lawful)

pub abandon_ref-Keeps :
    (c c' : Catalog) (name agent_id : Str) (ts : ℕ) (result : RetiredRef)
    → abandon_ref c name agent_id ts ≡ ok (result, c')
    → Keeps c c'
abandon_ref-Keeps c c' name agent_id ts result h lawful =
    let (r, f, _, _, _, e) = abandon_ref_lem c c' name agent_id ts result h in
    subst (λ d. AreLawful d.refs) (sym e) (drop_row-AreLawful c.refs name lawful)

resolution_checks :
    (c c' : Catalog) (into : Str) (expected commit : ObjectId) (conflict_ref : Str)
    (conflict_oid : ObjectId) (resolution_ref agent_id : Str) (allow_protected : Bool)
    (intro_oids : List ObjectId) (result : PublishedResolution)
    → publish_resolution c into expected commit conflict_ref conflict_oid resolution_ref agent_id
        allow_protected intro_oids
      ≡ ok (result, c')
    → validate_ref_kind resolution_ref (bytes "commit") ≡ ok tt
unfolding publish_resolution check_resolution_names
resolution_checks c c' into expected commit conflict_ref conflict_oid resolution_ref agent_id
      allow_protected intro_oids result h =
    ground arith

pub publish_resolution-Keeps :
    (c c' : Catalog) (into : Str) (expected commit : ObjectId) (conflict_ref : Str)
    (conflict_oid : ObjectId) (resolution_ref agent_id : Str) (allow_protected : Bool)
    (intro_oids : List ObjectId) (result : PublishedResolution)
    → publish_resolution c into expected commit conflict_ref conflict_oid resolution_ref agent_id
        allow_protected intro_oids
      ≡ ok (result, c')
    → Keeps c c'
publish_resolution-Keeps c c' into expected commit conflict_ref conflict_oid resolution_ref agent_id
      allow_protected intro_oids result h lawful =
    let w =
      publish_resolution_lem c c' into expected commit conflict_ref conflict_oid resolution_ref
        agent_id allow_protected intro_oids result h in
    let v =
      resolution_checks c c' into expected commit conflict_ref conflict_oid resolution_ref agent_id
        allow_protected intro_oids result h in
    let held : w.head.oid ≡ expected = same_name w.head.oid expected w.head_held in
    let e1 =
      move_head_lem c w.c1 w.head into expected commit agent_id w.head_found held w.head_unsealed
        w.moved in
    let moved : AreLawful w.c1.refs =
      subst (λ d. AreLawful d.refs) (sym e1) (set_oid-AreLawful c.refs into commit lawful) in
    let born : AreLawful w.c2.refs =
      commit-Keeps w.c1 w.c2 resolution_ref commit none agent_id (bytes "resolve") v w.born moved in
    let died : AreLawful w.c3.refs =
      subst (λ d. AreLawful d.refs) (sym w.died) (drop_row-AreLawful w.c2.refs conflict_ref born) in
    subst AreLawful (sym (ap (λ d. d.refs) w.introduced ∙ intros-refs w.c3 w.oids commit agent_id))
      died

seal_checks :
    (c c' : Catalog) (tag : Str) (snap commit tree : ObjectId) (agent_id : Str)
    (expect_ref : Option (Str × ObjectId))
    → commit_seal c tag snap commit tree agent_id expect_ref ≡ ok c'
    → validate_ref_kind (tag_ref tag) (bytes "snapshot") ≡ ok tt
unfolding commit_seal
seal_checks c c' tag snap commit tree agent_id expect_ref h = ground arith

pub commit_seal-Keeps :
    (c c' : Catalog) (tag : Str) (snap commit tree : ObjectId) (agent_id : Str)
    (expect_ref : Option (Str × ObjectId))
    → commit_seal c tag snap commit tree agent_id expect_ref ≡ ok c'
    → Keeps c c'
unfolding tag_findings
commit_seal-Keeps c c' tag snap commit tree agent_id expect_ref h lawful =
    let (c1, q, _, (rows, _)) = commit_seal_lem c c' tag snap commit tree agent_id expect_ref h in
    subst AreLawful (sym rows) (
      create-Keeps c c1 tag_row none agent_id (bytes "seal")
        (seal_checks c c' tag snap commit tree agent_id expect_ref h) (ground arith) q lawful)
  where
    tag_row : RefRow
    tag_row = record {
      name = tag_ref tag;
      oid = snap;
      kind = bytes "snapshot";
      protected = true;
      sealed = true;
    }
