-- ===== src/Catalog/Refs.antt =====
-- forge-store: creating a reference and the compare-and-swap. An operation takes the catalog and
-- returns what the code returns with the catalog that is committed; an error rolls back. The identifier
-- that `Ulid::new` returns is an argument.
pub mod Swaps
use forgefs.Base.{
  ℕ, Bool, true, false, not, ◌&&◌, ◌||◌, Option, none, some, List, eqb, if◌then◌else◌, ◌==◌, nat_eq,
  list_eq, Str, bytes, starts_with,
}
use forgefs.Types.{ObjectId, Result, ok, err, ◌>>=◌, ◌>>◌, guard, denied, sealed, invalid, Checked}
use forgefs.Catalog.{
  Catalog, RefRow, ReflogRow, find_ref, ref_exists, deny_retired, insert_row, log, update_row,
  insert_intros,
}
use forgefs.Catalog.Names.{validate_ref_kind, fork_name}

-- The row of a new reference, and its first entry in the log.
unfoldable pub create : Catalog → RefRow → Option ObjectId → Str → Str → Result Catalog
create c row old agent_id reason = do
  c' ← insert_row c row
  ok (
      log c' (record {
        name = row.name;
        old_oid = old;
        new_oid = row.oid;
        agent_id = agent_id;
        reason = reason;
      }))

unfoldable pub insert_ref :
    Catalog → Str → ObjectId → Str → Bool → Bool → Str → Str → Result Catalog
insert_ref c name oid kind protected is_sealed agent_id reason = do
  validate_ref_kind name kind
  guard (not (starts_with name (bytes "tags/"))) (denied "tags may only be created by seal")
  guard (not (ref_exists c name)) (invalid "ref {name} already exists")
  deny_retired c name
  create c
      (record { name = name; oid = oid; kind = kind; protected = protected; sealed = is_sealed })
      none agent_id reason

unfoldable pub insert_ref_with_intros :
    Catalog → Str → ObjectId → Str → Bool → Bool → Str → Str → List ObjectId → Result Catalog
insert_ref_with_intros c name oid kind protected is_sealed agent_id reason intro_oids = do
  validate_ref_kind name kind
  guard (not (starts_with name (bytes "tags/"))) (denied "tags may only be created by seal")
  deny_retired c name
  c' ←
      create c
        (record { name = name; oid = oid; kind = kind; protected = protected; sealed = is_sealed })
        none agent_id reason
  ok (insert_intros c' intro_oids oid agent_id)

pub data CasResult : Type 0 where
  updated : Str → ObjectId → CasResult
  forked : Str → Str → ObjectId → ObjectId → CasResult
  noop : Str → ObjectId → CasResult

-- The row that creates a reference which a compare-and-swap names, or a fork: unprotected, unsealed.
abbrev pub plain_row : Str → ObjectId → Str → RefRow
plain_row name oid kind = record {
  name = name;
  oid = oid;
  kind = kind;
  protected = false;
  sealed = false;
}

-- The entry of a move in the log.
abbrev pub move_entry : Str → ObjectId → ObjectId → Str → Str → ReflogRow
move_entry name old new agent_id reason = record {
  name = name;
  old_oid = some old;
  new_oid = new;
  agent_id = agent_id;
  reason = reason;
}

-- A lost compare-and-swap: the new commit is kept under the name of a fork.
unfoldable pub create_fork :
    Catalog → Str → Str → ObjectId → ObjectId → Str → Str → Result (CasResult × Catalog)
create_fork c name fork current new kind agent_id = do
  validate_ref_kind fork kind
  c' ← create c (plain_row fork new kind) (some current) agent_id (bytes "fork")
  ok (forked name fork new current, c')

-- The swap on a row that is there.
unfoldable pub cas_row :
    Catalog
    → RefRow
    → Str
    → ObjectId
    → ObjectId
    → Str
    → Str
    → Str
    → Str
    → Bool
    → Result (CasResult × Catalog)
cas_row c r name expected new kind agent_id fork_agent ulid allow_protected = do
  guard (r.kind == kind) (invalid "ref {name} kind is immutable: {current_kind} != {kind}")
  guard (not r.sealed) (sealed "{name}")
  guard (not r.protected || allow_protected)
      (denied "ref {name} is protected; only merge/seal may advance it")
  let (n, c') = update_row c name expected new
  if eqb n 1
      then ok (updated name new, log c' (move_entry name expected new agent_id (bytes "cas")))
      else create_fork c' name (fork_name name fork_agent ulid) r.oid new kind agent_id

unfoldable pub cas_ref :
    Catalog
    → Str
    → ObjectId
    → ObjectId
    → Str
    → Str
    → Str
    → Str
    → Bool
    → Result (CasResult × Catalog)
cas_ref c name expected new kind agent_id fork_agent ulid allow_protected = do
  validate_ref_kind name kind
  guard (not (starts_with name (bytes "tags/")))
      (denied "sealed tags cannot be updated through CAS")
  elim (find_ref c.refs name) [
    | none ↦
        deny_retired c name
        >> (create c (plain_row name new kind) none agent_id (bytes "cas") >>= λ c'.
            ok (updated name new, c'))
    | some r ↦ cas_row c r name expected new kind agent_id fork_agent ulid allow_protected
  ]

-- The same swap, and the objects that the commit introduces, in one transaction.
unfoldable pub cas_ref_with_intros :
    Catalog
    → Str
    → ObjectId
    → ObjectId
    → Str
    → Str
    → Str
    → Str
    → Bool
    → List ObjectId
    → Result (CasResult × Catalog)
cas_ref_with_intros c name expected new kind agent_id fork_agent ulid allow_protected intro_oids =
    do
      (result, c') ← cas_ref c name expected new kind agent_id fork_agent ulid allow_protected
      ok (result, insert_intros c' intro_oids new agent_id)
