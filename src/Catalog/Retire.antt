-- ===== src/Catalog/Retire.antt =====
-- forge-store: retiring a fork, a conflict that is resolved, and a session.
use forgefs.Base.{
  ℕ, Bool, false, not, ◌||◌, none, some, ◌++◌, List, any, count, retain, eqb, if◌then◌else◌, ◌==◌,
  nat_eq, list_eq, Str, bytes, starts_with,
}
use forgefs.Types.{
  ObjectId, Result, Error, ok, err, ◌>>=◌, ◌>>◌, guard, Checked, denied, sealed, invalid, not_found,
  stale_observation, internal,
}
use forgefs.Types.Hex.{hex_encode}
use forgefs.Catalog.{
  Catalog, RefRow, NsRow, MountRow, OverlayRow, ObservationRow, find_ref, ref_exists, ref_retired,
  deny_retired, log, update_row, delete_row, insert_intros, reflog_abandon,
}
use forgefs.Catalog.Names.{validate_ref_name, validate_ref_kind, is_fork_ref}
use forgefs.Catalog.Refs.{create, plain_row, move_entry}
use forgefs.Catalog.Sessions.{found}

pub record RetiredRef : Type 0 where
  pub name : Str
  pub oid : ObjectId
  pub kind : Str
  pub agent_id : Str
  pub ts_ms : ℕ

-- `SELECT COUNT(*) FROM namespaces WHERE live_ref=?1` is not 0.
abbrev pub is_live : Catalog → Str → Bool
is_live c name =
    any (λ (n : NsRow). elim n.live_ref [ none ↦ false | some r ↦ r == name ]) c.namespaces

-- `SELECT COUNT(*) FROM mounts WHERE spec=?1 OR spec=?2` is not 0.
abbrev pub is_mounted : Catalog → Str → Bool
is_mounted c name =
    any (λ (m : MountRow). m.spec == name || m.spec == bytes "ref:" ++ name) c.mounts

unfoldable pub check_unused : Catalog → Str → Checked
check_unused c name = do
  guard (not (is_live c name)) (invalid "ref {name} is the live head of an open session")
  guard (not (is_mounted c name)) (invalid "ref {name} is still mounted by an open session")

-- The last entry of a name that is retired, and the deletion of its row.
unfoldable pub retire : Catalog → Str → ObjectId → Str → Error → Result Catalog
retire c name oid agent_id failed = do
  let (removed, c') = delete_row (log c (move_entry name oid oid agent_id reflog_abandon)) name
  guard (eqb removed 1) failed
  ok c'

-- The row to retire, with the two errors for a name that has none.
unfoldable pub present : Catalog → Str → Error → Result RefRow
present c name retired = elim (find_ref c.refs name) [
  | some r ↦ ok r
  | none ↦ if ref_retired c name then err retired else err (not_found "ref {name}")
]

unfoldable pub abandon_ref : Catalog → Str → Str → ℕ → Result (RetiredRef × Catalog)
abandon_ref c name agent_id ts = do
  validate_ref_name name
  guard (is_fork_ref name) (
      invalid
        "only fork refs may be abandoned ({ABANDONABLE_PREFIX}* or heads/agents/<agent>/{SESSION_FORK_SEGMENT}*), not {name}")
  r ← present c name (invalid "ref {name} is already abandoned")
  guard (not r.sealed) (sealed "{name}")
  guard (not r.protected) (denied "ref {name} is protected")
  check_unused c name
  c' ← retire c name r.oid agent_id (internal "abandon removed {removed} rows for ref {name}")
  ok (record { name = name; oid = r.oid; kind = r.kind; agent_id = agent_id; ts_ms = ts }, c')

pub record PublishedResolution : Type 0 where
  pub into : Str
  pub commit : ObjectId
  pub resolution_ref : Str
  pub retired_conflict : Str
  pub retired_conflict_oid : ObjectId

-- The checks of the names, before the transaction.
unfoldable pub check_resolution_names : Str → Str → Str → Checked
check_resolution_names into conflict_ref resolution_ref = do
  validate_ref_kind into (bytes "commit")
  validate_ref_kind resolution_ref (bytes "commit")
  validate_ref_kind conflict_ref (bytes "conflict")
  guard (starts_with conflict_ref (bytes "conflicts/"))
      (invalid "only conflict refs may be retired by resolve, not {conflict_ref}")
  guard (starts_with resolution_ref (bytes "resolutions/"))
      (invalid "resolution binding must live under resolutions/, not {resolution_ref}")
  guard (not (starts_with into (bytes "tags/") || starts_with resolution_ref (bytes "tags/")))
      (denied "sealed tags cannot be updated through resolve")

-- The head that the resolution moves.
unfoldable pub check_into : RefRow → Str → ObjectId → Bool → Checked
check_into r into expected allow_protected = do
  guard (r.kind == bytes "commit") (invalid "ref {into} kind is immutable: {into_kind} != commit")
  guard (not r.sealed) (sealed "{into}")
  guard (not r.protected || allow_protected)
      (denied "ref {into} is protected; only merge/seal/resolve may advance it")
  guard (r.oid == expected) (stale_observation into (hex_encode expected) (hex_encode r.oid))

-- The conflict that it retires.
unfoldable pub check_conflict : Catalog → RefRow → Str → ObjectId → Checked
check_conflict c r conflict_ref conflict_oid = do
  guard (r.kind == bytes "conflict") (invalid "ref {conflict_ref} is {conflict_kind}, not conflict")
  guard (not r.sealed) (sealed "{conflict_ref}")
  guard (not r.protected) (denied "ref {conflict_ref} is protected")
  guard (r.oid == conflict_oid)
      (invalid "conflict ref {conflict_ref} no longer names {conflict_oid}")
  check_unused c conflict_ref

-- `found` again, for an update that has changed no row.
unfoldable pub stale_error : Catalog → Str → ObjectId → Result Catalog
stale_error c into expected = do
  r ← found (find_ref c.refs into)
  err (stale_observation into (hex_encode expected) (hex_encode r.oid))

unfoldable pub move_head : Catalog → Str → ObjectId → ObjectId → Str → Result Catalog
move_head c into expected commit agent_id = do
  let (n, c') = update_row c into expected commit
  if eqb n 1
      then ok (log c' (move_entry into expected commit agent_id (bytes "resolve")))
      else stale_error c' into expected

unfoldable pub publish_resolution :
    Catalog
    → Str
    → ObjectId
    → ObjectId
    → Str
    → ObjectId
    → Str
    → Str
    → Bool
    → List ObjectId
    → Result (PublishedResolution × Catalog)
publish_resolution c into expected commit conflict_ref conflict_oid resolution_ref agent_id
      allow_protected intro_oids =
    do
      check_resolution_names into conflict_ref resolution_ref
      r ← found (find_ref c.refs into)
      check_into r into expected allow_protected
      s ← present c conflict_ref (invalid "conflict ref {conflict_ref} is already retired")
      check_conflict c s conflict_ref conflict_oid
      guard (not (ref_exists c resolution_ref)) (invalid "ref {resolution_ref} already exists")
      deny_retired c resolution_ref
      c1 ← move_head c into expected commit agent_id
      c2 ←
          create c1 (plain_row resolution_ref commit (bytes "commit")) none agent_id
            (bytes "resolve")
      c3 ←
          retire c2 conflict_ref conflict_oid agent_id
            (internal "resolve removed {removed} rows for conflict ref {conflict_ref}")
      ok (
        record {
          into = into;
          commit = commit;
          resolution_ref = resolution_ref;
          retired_conflict = conflict_ref;
          retired_conflict_oid = conflict_oid;
        },
        insert_intros c3 intro_oids commit agent_id,
      )

pub record AbandonedSession : Type 0 where
  pub ns_id : Str
  pub discarded_overlay : ℕ
  pub removed_mounts : ℕ
  pub removed_observations : ℕ

abbrev pub staged_rows : Catalog → Str → ℕ
staged_rows c ns_id = count (λ (r : OverlayRow). r.ns_id == ns_id) c.overlay

unfoldable pub abandon_session : Catalog → Str → Bool → Result (AbandonedSession × Catalog)
abandon_session c ns_id discard_staged = do
  guard (any (λ (n : NsRow). n.id == ns_id) c.namespaces) (not_found "namespace {ns_id}")
  guard (eqb (staged_rows c ns_id) 0 || discard_staged) (
      invalid
        "session {ns_id} has {staged} staged overlay entries; check in first or abandon with the explicit discard flag")
  ok (
    record {
      ns_id = ns_id;
      discarded_overlay = staged_rows c ns_id;
      removed_mounts = count (λ (m : MountRow). m.ns_id == ns_id) c.mounts;
      removed_observations = count (λ (o : ObservationRow). o.ns_id == ns_id) c.observations;
    },
    record c {
      mounts = retain (λ (m : MountRow). not (m.ns_id == ns_id)) c.mounts;
      observations = retain (λ (o : ObservationRow). not (o.ns_id == ns_id)) c.observations;
      overlay = retain (λ (r : OverlayRow). not (r.ns_id == ns_id)) c.overlay;
      namespaces = retain (λ (n : NsRow). not (n.id == ns_id)) c.namespaces;
    },
  )
