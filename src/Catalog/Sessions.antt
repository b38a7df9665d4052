-- ===== src/Catalog/Sessions.antt =====
-- forge-store: opening a session, and a checkin of one of its mounts.
pub mod Isolation
use forgefs.Base.{
  ℕ, Bool, true, false, not, ◌&&◌, Option, none, some, List, ◌∷◌, ◌++◌, any, map, count, retain,
  eqb, if◌then◌else◌, ◌==◌, nat_eq, list_eq, Str, bytes,
}
use forgefs.Types.{
  ObjectId, Result, ok, err, ◌>>=◌, ◌>>◌, guard, denied, sealed, invalid, not_found, busy, corrupt,
}
use forgefs.Catalog.{
  Catalog, RefRow, NsRow, MountRow, OverlayRow, ObservationRow, find_ref, log, update_row,
  insert_intros,
}
use forgefs.Catalog.Names.{validate_ref_kind, session_fork_name}
use forgefs.Catalog.Refs.{CasResult, updated, forked, create, plain_row, move_entry, create_fork}

abbrev pub is_mount : Str → Str → MountRow → Bool
is_mount ns_id path m = m.ns_id == ns_id && m.path == path

-- `INSERT INTO mounts`
unfoldable pub insert_mount_row : Catalog → MountRow → Result Catalog
insert_mount_row c m =
    if any (is_mount m.ns_id m.path) c.mounts
    then err (invalid "UNIQUE constraint failed: mounts.ns_id, mounts.path")
    else ok (record c { mounts = m ∷ c.mounts })

-- `INSERT INTO namespaces`
unfoldable pub insert_namespace : Catalog → Str → Str → ObjectId → Str → Result Catalog
insert_namespace c id agent_id pinned live_ref =
    if any (λ (n : NsRow). n.id == id) c.namespaces
    then err (invalid "UNIQUE constraint failed: namespaces.id")
    else ok (record c {
      namespaces =
          record {
            id = id;
            agent_id = agent_id;
            pinned_oid = some pinned;
            live_ref = some live_ref;
          }
          ∷ c.namespaces;
    })

unfoldable pub mount_main_row : Catalog → Str → Bool → Result Catalog
mount_main_row c id mount_main =
    if mount_main
    then insert_mount_row c (record {
      ns_id = id;
      path = bytes "/main";
      spec = bytes "ref:main";
      mode = bytes "ro";
      base_oid = none;
    })
    else ok c

unfoldable pub create_session : Catalog → Str → Str → ObjectId → Str → Bool → Result Catalog
create_session c id agent_id pinned live_ref mount_main = do
  validate_ref_kind live_ref (bytes "commit")
  c1 ← insert_namespace c id agent_id pinned live_ref
  c2 ← create c1 (plain_row live_ref pinned (bytes "commit")) none agent_id (bytes "session")
  c3 ← insert_mount_row c2 (record {
    ns_id = id;
    path = bytes "/";
    spec = bytes "ref:" ++ live_ref;
    mode = bytes "rw";
    base_oid = some pinned;
  })
  mount_main_row c3 id mount_main

-- `UPDATE mounts SET … WHERE ns_id=? AND path=?`: how many rows, and the table.
abbrev pub update_mounts : Catalog → Str → Str → (MountRow → MountRow) → ℕ × Catalog
update_mounts c ns_id path change = (
  count (is_mount ns_id path) c.mounts,
  record c {
    mounts = map (λ (m : MountRow). if is_mount ns_id path m then change m else m) c.mounts;
  },
)

unfoldable pub update_mount_spec : Catalog → Str → Str → Str → Catalog
update_mount_spec c ns_id path spec = (update_mounts c ns_id path (λ m. record m { spec = spec })).1

unfoldable pub repin_mount : Catalog → Str → Str → ObjectId → Result Catalog
repin_mount c ns_id mount_path base = do
  let (n, c') = update_mounts c ns_id mount_path (λ m. record m { base_oid = some base })
  guard (eqb n 1) (corrupt "missing checkin mount {ns_id}:{mount_path}")
  ok c'

-- `UPDATE namespaces SET pinned_oid=?1 WHERE id=?2`: how many rows, and the table.
abbrev pub update_pin : Catalog → Str → ObjectId → ℕ × Catalog
update_pin c ns_id oid = (
  count (λ (n : NsRow). n.id == ns_id) c.namespaces,
  record c {
    namespaces =
        map (λ (n : NsRow). if n.id == ns_id then record n { pinned_oid = some oid } else n)
          c.namespaces;
  },
)

unfoldable pub set_pin : Catalog → Str → ObjectId → Catalog
set_pin c ns_id oid = (update_pin c ns_id oid).1

unfoldable pub overlay_clear : Catalog → Str → Str → Catalog
overlay_clear c ns_id mount = record c {
  overlay = retain (λ (r : OverlayRow). not (r.ns_id == ns_id && r.mount == mount)) c.overlay;
}

-- `DELETE FROM observations WHERE ns_id=?1 AND mount=?2`
unfoldable pub forget_mount : Catalog → Str → Str → Catalog
forget_mount c ns_id mount = record c {
  observations =
      retain (λ (r : ObservationRow). not (r.ns_id == ns_id && r.mount == mount)) c.observations;
}

-- The namespace's pin follows the root mount only.
unfoldable pub pin_root : Catalog → Str → Str → ObjectId → Result Catalog
pin_root c ns_id mount_path new = do
  let (n, c') = update_pin c ns_id new
  if mount_path == bytes "/"
      then guard (eqb n 1) (corrupt "missing namespace {ns_id}") >> ok c'
      else ok c

-- The end of a checkin, which the two forms of it share: the mount's overlay and observations are
-- cleared, and its base moves.
unfoldable pub complete_noop_session : Catalog → Str → Str → ObjectId → Result Catalog
complete_noop_session c ns_id mount_path pinned = do
  c1 ← repin_mount (overlay_clear c ns_id mount_path) ns_id mount_path pinned
  c2 ← pin_root c1 ns_id mount_path pinned
  ok (forget_mount c2 ns_id mount_path)

unfoldable pub session_move :
    Catalog → Str → ObjectId → ObjectId → Str → Result (CasResult × Catalog)
session_move c name expected new agent_id = do
  let (n, c') = update_row c name expected new
  guard (eqb n 1) (busy "ref {name} changed during checkin")
  ok (updated name new, log c' (move_entry name expected new agent_id (bytes "cas")))

unfoldable pub session_fork :
    Catalog → Str → Str → ObjectId → ObjectId → Str → Str → Str → Result (CasResult × Catalog)
session_fork c name fork current new agent_id ns_id mount_path = do
  (result, c1) ← create_fork c name fork current new (bytes "commit") agent_id
  let (n, c2) = update_mounts c1 ns_id mount_path (λ m. record m { spec = bytes "ref:" ++ fork })
  guard (eqb n 1) (corrupt "missing checkin mount {ns_id}:{mount_path}")
  ok (result, c2)

unfoldable pub session_swap :
    Catalog
    → ObjectId
    → Str
    → ObjectId
    → ObjectId
    → Str
    → Str
    → Str
    → Str
    → Result (CasResult × Catalog)
session_swap c current name expected new agent_id fork ns_id mount_path =
    if current == expected
    then session_move c name expected new agent_id
    else session_fork c name fork current new agent_id ns_id mount_path

unfoldable pub found : Option RefRow → Result RefRow
found none = err (not_found "ref {name}")
found (some r) = ok r

unfoldable pub cas_ref_session :
    Catalog
    → Str
    → ObjectId
    → ObjectId
    → Str
    → Str
    → Str
    → Str
    → Str
    → List ObjectId
    → Result (CasResult × Catalog)
cas_ref_session c name expected new agent_id fork_agent ulid ns_id mount_path intro_oids = do
  validate_ref_kind name (bytes "commit")
  r ← found (find_ref c.refs name)
  guard (r.kind == bytes "commit") (invalid "ref {name} is {kind}, not commit")
  guard (not r.sealed) (sealed "{name}")
  guard (not r.protected) (denied "ref {name} is protected; session checkin cannot advance it")
  (result, c1) ←
      session_swap c r.oid name expected new agent_id (session_fork_name name fork_agent ulid) ns_id
        mount_path
  c2 ← complete_noop_session c1 ns_id mount_path new
  ok (result, insert_intros c2 intro_oids new agent_id)
