-- ===== src/Catalog/History.antt =====
-- forge-store: what every history of a catalog keeps.
pub mod Gone
pub mod Retired
pub mod Reborn
use forgefs.Base.{
  ℕ, Bool, true, false, ◌≡◌, refl, ap, ◌∙◌, subst, Option, none, some, List, [], arith, inl, inr,
  ◌==◌, nat_eq, list_eq, Str, bytes, Option-cases,
}
use forgefs.Types.{ObjectId, ok}
use forgefs.Catalog.{
  Catalog, RefRow, ReflogRow, empty, get_ref, find_ref, last_row, ref_retired, retired_by,
  reflog_abandon,
}
use forgefs.Catalog.Names.{fork_name, session_fork_name}
use forgefs.Catalog.Refs.{
  insert_ref, insert_ref_with_intros, cas_ref, cas_ref_with_intros, CasResult,
}
use forgefs.Catalog.Sessions.{create_session, cas_ref_session, complete_noop_session, found}
use forgefs.Catalog.Retire.{
  abandon_ref, RetiredRef, publish_resolution, PublishedResolution, abandon_session,
  AbandonedSession,
}
use forgefs.Catalog.Seals.{commit_seal, tag_ref, check_head}
use forgefs.Catalog.Audit.{audit_references}
use forgefs.Catalog.Audit.Consistent.{
  IsConsistent, Evolves, Evolves_trans, Later, Later-refl, state, state_of, live, Agree,
}
use forgefs.Catalog.Audit.Operations.{
  framed, insert_ref-Evolves, insert_ref_with_intros-Evolves, cas_ref-Evolves,
  cas_ref_with_intros-Evolves,
}
use forgefs.Catalog.Audit.Checkins.{
  complete_noop_session-IsFramed, create_session-Evolves, cas_ref_session-Evolves,
}
use forgefs.Catalog.Audit.Retirements.{abandon_ref-Evolves}
use forgefs.Catalog.Audit.Resolutions.{
  publish_resolution-Evolves, commit_seal-Evolves, commit_seal_lem,
}
use forgefs.Catalog.Audit.Statements.{create_lem}
use forgefs.Catalog.Audit.Rows.{find_first, same_name}
use forgefs.Catalog.Audit.Clean.{audit_reflog-none}
use forgefs.Catalog.Audit.Kinds.{
  Keeps, audit_refs-none, framed-Keeps, insert_ref-Keeps, insert_ref_with_intros-Keeps,
  cas_ref-Keeps,
}
use forgefs.Catalog.Audit.Flags.{
  cas_ref_with_intros-Keeps, create_session-Keeps, cas_ref_session-Keeps, abandon_ref-Keeps,
  publish_resolution-Keeps, commit_seal-Keeps,
}
use forgefs.Catalog.Steps.{
  StepIf, inserts, inserts_with_intros, swaps, swaps_with_intros, opens, checks_in, completes,
  abandons, resolves, closes, seals, aside, ReachIf, here, next, IsFresh, IsPlain, Step, Reach,
}

same_tables : (c d : Catalog) → d.refs ≡ c.refs → d.reflog ≡ c.reflog → IsConsistent c → Evolves c d
same_tables c d p q inv = framed c c d p q (inv, λ n. Later-refl (state c n))

pub Step-Evolves : (c d : Catalog) → Step c d → IsConsistent c → Evolves c d
unfolding abandon_session
Step-Evolves c d (inserts name oid kind protected is_sealed agent_id reason p h) inv =
    insert_ref-Evolves c d name oid kind protected is_sealed agent_id reason inv p h
Step-Evolves c d (inserts_with_intros name oid kind protected is_sealed agent_id reason oids p h)
      inv =
    insert_ref_with_intros-Evolves c d name oid kind protected is_sealed agent_id reason oids inv p
      h
Step-Evolves c d (swaps name expected new kind agent_id fork_agent ulid allow result p h) inv =
    cas_ref-Evolves c d name expected new kind agent_id fork_agent ulid allow result inv p h
Step-Evolves c d
      (swaps_with_intros name expected new kind agent_id fork_agent ulid allow oids result p h)
      inv =
    cas_ref_with_intros-Evolves c d name expected new kind agent_id fork_agent ulid allow oids
      result inv p h
Step-Evolves c d (opens id agent_id pinned live_ref mount_main p h) inv =
    create_session-Evolves c d id agent_id pinned live_ref mount_main inv p h
Step-Evolves c d
      (checks_in name expected new agent_id fork_agent ulid ns_id mount_path oids result p h) inv =
    cas_ref_session-Evolves c d name expected new agent_id fork_agent ulid ns_id mount_path oids
      result inv p h
Step-Evolves c d (completes ns_id mount_path pinned h) inv =
    let (p, q) = complete_noop_session-IsFramed c d ns_id mount_path pinned h in
    same_tables c d p q inv
Step-Evolves c d (abandons name agent_id ts result h) inv =
    abandon_ref-Evolves c d name agent_id ts result inv h
Step-Evolves c d
      (resolves into expected commit conflict_ref conflict_oid resolution_ref agent_id allow oids
        result h)
      inv =
    publish_resolution-Evolves c d into expected commit conflict_ref conflict_oid resolution_ref
      agent_id allow oids result inv h
Step-Evolves c d (closes ns_id discard_staged result h) inv =
    let (p, q) : (d.refs ≡ c.refs) × (d.reflog ≡ c.reflog) = ground arith in same_tables c d p q inv
Step-Evolves c d (seals tag snap commit tree agent_id expect_ref p h) inv =
    commit_seal-Evolves c d tag snap commit tree agent_id expect_ref inv p h
Step-Evolves c d (aside p q) inv = same_tables c d p q inv

pub Reach-Evolves : {c d : Catalog} → Reach c d → IsConsistent c → Evolves c d
Reach-Evolves {c} here inv = (inv, λ n. Later-refl (state c n))
Reach-Evolves {c} (next {d} {e} r s) inv =
    let before = Reach-Evolves r inv in Evolves_trans c d e before (Step-Evolves d e s before.0)

pub empty-IsConsistent : IsConsistent empty
empty-IsConsistent = (tt, tt, λ n. tt)

Step-Keeps :
    {Unasked : Catalog → Str → Type 0} {Plain : Str → Type 0} (c d : Catalog)
    → StepIf Unasked Plain c d
    → Keeps c d
unfolding abandon_session
Step-Keeps c d (inserts name oid kind protected is_sealed agent_id reason p h) =
    insert_ref-Keeps c d name oid kind protected is_sealed agent_id reason h
Step-Keeps c d (inserts_with_intros name oid kind protected is_sealed agent_id reason oids p h) =
    insert_ref_with_intros-Keeps c d name oid kind protected is_sealed agent_id reason oids h
Step-Keeps c d (swaps name expected new kind agent_id fork_agent ulid allow result p h) =
    cas_ref-Keeps c d name expected new kind agent_id fork_agent ulid allow result h
Step-Keeps c d
      (swaps_with_intros name expected new kind agent_id fork_agent ulid allow oids result p h) =
    cas_ref_with_intros-Keeps c d name expected new kind agent_id fork_agent ulid allow oids result
      h
Step-Keeps c d (opens id agent_id pinned live_ref mount_main p h) =
    create_session-Keeps c d id agent_id pinned live_ref mount_main h
Step-Keeps c d
      (checks_in name expected new agent_id fork_agent ulid ns_id mount_path oids result p h) =
    cas_ref_session-Keeps c d name expected new agent_id fork_agent ulid ns_id mount_path oids
      result h
Step-Keeps c d (completes ns_id mount_path pinned h) =
    framed-Keeps c c d (complete_noop_session-IsFramed c d ns_id mount_path pinned h).0 (λ l. l)
Step-Keeps c d (abandons name agent_id ts result h) =
    abandon_ref-Keeps c d name agent_id ts result h
Step-Keeps c d
      (resolves into expected commit conflict_ref conflict_oid resolution_ref agent_id allow oids
        result h) =
    publish_resolution-Keeps c d into expected commit conflict_ref conflict_oid resolution_ref
      agent_id allow oids result h
Step-Keeps c d (closes ns_id discard_staged result h) =
    let p : d.refs ≡ c.refs = ground arith in framed-Keeps c c d p (λ l. l)
Step-Keeps c d (seals tag snap commit tree agent_id expect_ref p h) =
    commit_seal-Keeps c d tag snap commit tree agent_id expect_ref h
Step-Keeps c d (aside p q) = framed-Keeps c c d p (λ l. l)

Reach-Keeps :
    {Unasked : Catalog → Str → Type 0} {Plain : Str → Type 0} {c d : Catalog}
    → ReachIf Unasked Plain c d
    → Keeps c d
Reach-Keeps here lawful = lawful
Reach-Keeps (next {d} {e} r s) lawful = Step-Keeps d e s (Reach-Keeps r lawful)

-- After any history from a new catalog, the audit of the references (their kinds and the flags of the
-- tags) and of their log finds nothing, where no session's reference, fork or tag is given a name that is
-- retired, and no insertion gives the reason `abandon`.
pub audit_references_lem : (c : Catalog) → Reach empty c → audit_references c ≡ []
unfolding audit_references
audit_references_lem c r =
    rw (audit_refs-none c.refs (Reach-Keeps r tt))
      (audit_reflog-none c (Reach-Evolves r empty-IsConsistent).0)

-- From consistent tables, every history moves each name forward only along its life: it is born,
-- it moves while it is not sealed, keeping its kind and its flags, and it is retired once.
pub Reach-Later :
    (c d : Catalog) (name : Str) → IsConsistent c → Reach c d → Later (state c name) (state d name)
Reach-Later c d name inv r = (Reach-Evolves r inv).1 name

kept :
    (o : Option RefRow) (l : Option ReflogRow) (row : RefRow)
    → row.sealed ≡ true
    → Later (live row) (state_of o l)
    → o ≡ some row
kept none none row s h = absurd h
kept none (some r) row s h = cc
kept (some x) l row s (inl e) = ap (λ y. some y) e
kept (some x) l row s (inr (open_row, e)) = cc

-- From consistent tables, no history changes a sealed reference or removes it.
pub get_ref_sealed :
    (c d : Catalog) (name : Str) (row : RefRow)
    → IsConsistent c
    → Reach c d
    → get_ref c name ≡ some row
    → row.sealed ≡ true
    → get_ref d name ≡ some row
unfolding get_ref
get_ref_sealed c d name row inv r f s = kept (find_ref d.refs name) (last_row d.reflog name) row s (
    subst (λ o. Later (state_of o (last_row c.reflog name)) (state d name)) f
      (Reach-Later c d name inv r))

check_head_lem :
    (c : Catalog) (name : Str) (expected : ObjectId)
    → check_head c (some (name, expected)) ≡ ok tt
    → (r : RefRow) × (find_ref c.refs name ≡ some r) × (r.oid ≡ expected)
unfolding check_head found
check_head_lem c name expected h = elim (Option-cases (find_ref c.refs name)) [
  | inl f ↦ ground arith
  | inr (r, f) ↦ (r, f, same_name r.oid expected (ground arith))
]

-- A tag that is sealed for a reference, from consistent tables and under a name that is not retired,
-- is sealed while that reference holds the commit that is expected; and from then on, after any
-- history, the tag is the same protected and sealed reference to the snapshot.
pub commit_seal_stays :
    (c c' d : Catalog) (tag : Str) (snap commit tree : ObjectId) (agent_id name : Str)
    (expected : ObjectId)
    → IsConsistent c
    → ref_retired c (tag_ref tag) ≡ false
    → commit_seal c tag snap commit tree agent_id (some (name, expected)) ≡ ok c'
    → Reach c' d
    → ((r : RefRow) × (get_ref c name ≡ some r) × (r.oid ≡ expected))
      × (get_ref d (tag_ref tag)
          ≡ some (record {
            name = tag_ref tag;
            oid = snap;
            kind = bytes "snapshot";
            protected = true;
            sealed = true;
          }))
unfolding get_ref
commit_seal_stays c c' d tag snap commit tree agent_id name expected inv fresh h r =
    let (c1, born, head, (rows, entries)) =
      commit_seal_lem c c' tag snap commit tree agent_id (some (name, expected)) h in
    let ev =
      commit_seal-Evolves c c' tag snap commit tree agent_id (some (name, expected)) inv fresh h in
    let (_, e) = create_lem c c1 row none agent_id (bytes "seal") born in
    let own : find_ref c'.refs (tag_ref tag) ≡ some row =
      ap (λ l. find_ref l (tag_ref tag)) (rows ∙ ap (λ x. x.refs) e) ∙ find_first row c.refs in
    (check_head_lem c name expected head, get_ref_sealed c' d (tag_ref tag) row ev.0 r own refl)
  where
    row : RefRow
    row = record {
      name = tag_ref tag;
      oid = snap;
      kind = bytes "snapshot";
      protected = true;
      sealed = true;
    }
