-- ===== src/Catalog/Steps.antt =====
-- forge-store: the histories of a catalog, as sequences of its operations.
use forgefs.Base.{ℕ, Bool, false, ◌≡◌, Option, List, ◌==◌, nat_eq, list_eq, Str}
use forgefs.Types.{ObjectId, ok}
use forgefs.Catalog.{Catalog, ref_retired, reflog_abandon}
use forgefs.Catalog.Names.{fork_name, session_fork_name}
use forgefs.Catalog.Refs.{
  insert_ref, insert_ref_with_intros, cas_ref, cas_ref_with_intros, CasResult,
}
use forgefs.Catalog.Sessions.{create_session, cas_ref_session, complete_noop_session}
use forgefs.Catalog.Retire.{
  abandon_ref, RetiredRef, publish_resolution, PublishedResolution, abandon_session,
  AbandonedSession,
}
use forgefs.Catalog.Seals.{commit_seal, tag_ref}

-- An operation that succeeds. `Unasked` is what is assumed of a name that an operation creates without
-- asking whether it is retired: a fork's, a session's reference, a tag's. `Plain` is what is assumed of
-- the reason that a caller gives to an insertion.
pub data StepIf (Unasked : Catalog → Str → Type 0) (Plain : Str → Type 0) (c d : Catalog)
    : Type 0 where
  inserts :
      (name : Str) (oid : ObjectId) (kind : Str) (protected is_sealed : Bool)
      (agent_id reason : Str)
      → Plain reason
      → insert_ref c name oid kind protected is_sealed agent_id reason ≡ ok d
      → StepIf Unasked Plain c d
  inserts_with_intros :
      (name : Str) (oid : ObjectId) (kind : Str) (protected is_sealed : Bool)
      (agent_id reason : Str) (intro_oids : List ObjectId)
      → Plain reason
      → insert_ref_with_intros c name oid kind protected is_sealed agent_id reason intro_oids ≡ ok d
      → StepIf Unasked Plain c d
  swaps :
      (name : Str) (expected new : ObjectId) (kind agent_id fork_agent ulid : Str)
      (allow_protected : Bool) (result : CasResult)
      → Unasked c (fork_name name fork_agent ulid)
      → cas_ref c name expected new kind agent_id fork_agent ulid allow_protected ≡ ok (result, d)
      → StepIf Unasked Plain c d
  swaps_with_intros :
      (name : Str) (expected new : ObjectId) (kind agent_id fork_agent ulid : Str)
      (allow_protected : Bool) (intro_oids : List ObjectId) (result : CasResult)
      → Unasked c (fork_name name fork_agent ulid)
      → cas_ref_with_intros c name expected new kind agent_id fork_agent ulid allow_protected
          intro_oids
        ≡ ok (result, d)
      → StepIf Unasked Plain c d
  opens :
      (id agent_id : Str) (pinned : ObjectId) (live_ref : Str) (mount_main : Bool)
      → Unasked c live_ref
      → create_session c id agent_id pinned live_ref mount_main ≡ ok d
      → StepIf Unasked Plain c d
  checks_in :
      (name : Str) (expected new : ObjectId) (agent_id fork_agent ulid ns_id mount_path : Str)
      (intro_oids : List ObjectId) (result : CasResult)
      → Unasked c (session_fork_name name fork_agent ulid)
      → cas_ref_session c name expected new agent_id fork_agent ulid ns_id mount_path intro_oids
        ≡ ok (result, d)
      → StepIf Unasked Plain c d
  completes :
      (ns_id mount_path : Str) (pinned : ObjectId)
      → complete_noop_session c ns_id mount_path pinned ≡ ok d
      → StepIf Unasked Plain c d
  abandons :
      (name agent_id : Str) (ts : ℕ) (result : RetiredRef)
      → abandon_ref c name agent_id ts ≡ ok (result, d)
      → StepIf Unasked Plain c d
  resolves :
      (into : Str) (expected commit : ObjectId) (conflict_ref : Str) (conflict_oid : ObjectId)
      (resolution_ref agent_id : Str) (allow_protected : Bool) (intro_oids : List ObjectId)
      (result : PublishedResolution)
      → publish_resolution c into expected commit conflict_ref conflict_oid resolution_ref agent_id
          allow_protected intro_oids
        ≡ ok (result, d)
      → StepIf Unasked Plain c d
  closes :
      (ns_id : Str) (discard_staged : Bool) (result : AbandonedSession)
      → abandon_session c ns_id discard_staged ≡ ok (result, d)
      → StepIf Unasked Plain c d
  seals :
      (tag : Str) (snap commit tree : ObjectId) (agent_id : Str)
      (expect_ref : Option (Str × ObjectId))
      → Unasked c (tag_ref tag)
      → commit_seal c tag snap commit tree agent_id expect_ref ≡ ok d
      → StepIf Unasked Plain c d
  -- An operation on the other tables.
  aside : d.refs ≡ c.refs → d.reflog ≡ c.reflog → StepIf Unasked Plain c d

pub data ReachIf (Unasked : Catalog → Str → Type 0) (Plain : Str → Type 0) (c : Catalog)
    : Catalog → Type 0 where
  here : ReachIf Unasked Plain c c
  next :
      {d e : Catalog}
      → ReachIf Unasked Plain c d
      → StepIf Unasked Plain d e
      → ReachIf Unasked Plain c e

abbrev pub IsFresh : Catalog → Str → Type 0
IsFresh c name = ref_retired c name ≡ false

abbrev pub IsPlain : Str → Type 0
IsPlain reason = (reason == reflog_abandon) ≡ false

-- The names that are created unasked are not retired, and no caller gives the reason that retires a
-- name.
abbrev pub Step : Catalog → Catalog → Type 0
Step c d = StepIf IsFresh IsPlain c d

abbrev pub Reach : Catalog → Catalog → Type 0
Reach c d = ReachIf IsFresh IsPlain c d
