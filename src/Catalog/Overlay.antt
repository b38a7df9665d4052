-- ===== src/Catalog/Overlay.antt =====
-- forge-store: the staged entries of a mount.
pub mod PrefixFree
pub mod Rename
use forgefs.Base.{
  ℕ, suc, Bool, true, false, not, ◌&&◌, ◌||◌, Option, none, some, List, [], ◌∷◌, ◌++◌, any, retain,
  if◌then◌else◌, ◌==◌, nat_eq, list_eq, Str, bytes, starts_with,
}
use forgefs.Types.{ObjectId, Result, ok, err, invalid, Checked, guard, ◌>>=◌, ◌>>◌}
use forgefs.Catalog.{Catalog, OverlayRow}

-- A path is a proper ancestor of another: it is shorter, the other starts with it, and a slash follows.
abbrev pub is_ancestor : Str → Str → Bool
is_ancestor a b = starts_with b (a ++ bytes "/")

abbrev pub is_staged : Str → Str → OverlayRow → Bool
is_staged ns_id mount r = r.ns_id == ns_id && r.mount == mount

-- Two paths that no tree has.
abbrev pub clash : Str → Str → Bool
clash a b = is_ancestor a b || is_ancestor b a

-- `INSERT OR REPLACE INTO overlay`
abbrev pub stage : List OverlayRow → OverlayRow → List OverlayRow
stage rows row =
    row
    ∷ retain (λ (r : OverlayRow). not (is_staged row.ns_id row.mount r && r.path == row.path)) rows

unfoldable pub overlay_upsert : Catalog → Str → Str → Str → Option ObjectId → Bool → Result Catalog
overlay_upsert c ns_id mount path blob_oid exec = do
  guard
      (not (
        any
          (λ (r : OverlayRow).
            is_staged ns_id mount r && (not (r.path == path) && clash r.path path))
          c.overlay))
      (invalid "overlay path conflict: {path} and {existing} cannot coexist")
  ok (record c {
    overlay =
        stage c.overlay
          (record { ns_id = ns_id; mount = mount; path = path; blob_oid = blob_oid; exec = exec });
  })

-- The entries at or under a path are deleted.
abbrev pub supersede : Str → Str → Str → List OverlayRow → List OverlayRow
supersede ns_id mount path rows =
    retain
      (λ (r : OverlayRow).
        not (is_staged ns_id mount r && (r.path == path || is_ancestor path r.path)))
      rows

abbrev pub has_ancestor : Str → Str → Str → List OverlayRow → Bool
has_ancestor ns_id mount path rows =
    any (λ (r : OverlayRow). is_staged ns_id mount r && is_ancestor r.path path) rows

-- The entries of the destination, in order.
abbrev pub stage_all : Str → Str → List OverlayRow → List (Str × ObjectId × Bool) → List OverlayRow
stage_all ns_id mount rows [] = rows
stage_all ns_id mount rows ((path, oid, exec) ∷ dest) =
    stage_all ns_id mount
      (stage rows
        (record { ns_id = ns_id; mount = mount; path = path; blob_oid = some oid; exec = exec }))
      dest

-- `overlay_rename`, without the debug build's crash test.
unfoldable pub overlay_rename :
    Catalog → Str → Str → Str → Str → List (Str × ObjectId × Bool) → Result Catalog
overlay_rename c ns_id mount from to dest = do
  let rows = supersede ns_id mount to (supersede ns_id mount from c.overlay)
  guard (not (has_ancestor ns_id mount from rows))
      (invalid "overlay path conflict: {endpoint} and {existing} cannot coexist")
  guard (not (has_ancestor ns_id mount to rows))
      (invalid "overlay path conflict: {endpoint} and {existing} cannot coexist")
  ok (record c {
    overlay =
        stage (stage_all ns_id mount rows dest)
          (record { ns_id = ns_id; mount = mount; path = from; blob_oid = none; exec = false });
  })

unfoldable pub overlay_list : Catalog → Str → Str → List OverlayRow
overlay_list c ns_id mount = retain (is_staged ns_id mount) c.overlay
