-- ===== src/Catalog/Mounts.antt =====
-- forge-store: recording and reading the mounts of a namespace.
use forgefs.Base.{
  true, false, not, Option, none, some, List, [], ◌∷◌, retain, if◌then◌else◌, ◌==◌, nat_eq, list_eq,
  contains, Str, bytes,
}
use forgefs.Types.{ObjectId, Result, ok, err, invalid, not_found}
use forgefs.Catalog.{Catalog, MountRow, NsRow}
use forgefs.Catalog.Sessions.{is_mount}

-- `INSERT OR REPLACE INTO mounts`: the `CHECK` on the mode may refuse the row.
unfoldable pub insert_mount : Catalog → Str → Str → Str → Str → Option ObjectId → Result Catalog
insert_mount c ns_id path spec mode base_oid =
    if contains (bytes "ro" ∷ bytes "rw" ∷ []) mode
    then ok (record c {
      mounts =
          record { ns_id = ns_id; path = path; spec = spec; mode = mode; base_oid = base_oid }
          ∷ retain (λ (m : MountRow). not (is_mount ns_id path m)) c.mounts;
    })
    else err (invalid "CHECK constraint failed")

unfoldable pub list_mounts : Catalog → Str → List MountRow
list_mounts c ns_id = retain (λ (m : MountRow). m.ns_id == ns_id) c.mounts

abbrev pub find_mount : List MountRow → Str → Str → Option MountRow
find_mount [] ns_id path = none
find_mount (m ∷ mounts) ns_id path = elim (is_mount ns_id path m) [
  | true ↦ some m
  | false ↦ find_mount mounts ns_id path
]

unfoldable pub get_mount : Catalog → Str → Str → Option MountRow
get_mount c ns_id path = find_mount c.mounts ns_id path

-- The row of an identifier, or an error.
unfoldable pub get_namespace : Catalog → Str → Result NsRow
get_namespace c id = elim (retain (λ (n : NsRow). n.id == id) c.namespaces) [
  | [] ↦ err (not_found "namespace {id}")
  | n ∷ ns ↦ ok n
]
