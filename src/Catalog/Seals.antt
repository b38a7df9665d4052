-- ===== src/Catalog/Seals.antt =====
-- forge-store: publishing a sealed tag.
use forgefs.Base.{
  true, not, ◌||◌, Option, none, some, ◌∷◌, ◌++◌, any, if◌then◌else◌, ◌==◌, nat_eq, list_eq, Str,
  bytes,
}
use forgefs.Types.{
  ObjectId, Result, ok, err, ◌>>=◌, ◌>>◌, guard, Checked, sealed, invalid, stale_observation,
}
use forgefs.Types.Hex.{hex_encode}
use forgefs.Catalog.{Catalog, SealRow, LandmarkRow, find_ref, ref_exists}
use forgefs.Catalog.Names.{validate_ref_kind}
use forgefs.Catalog.Refs.{create}
use forgefs.Catalog.Sessions.{found}

-- `INSERT INTO seals`: the tag is the key, and a snapshot is sealed once.
unfoldable pub insert_seal_row : Catalog → SealRow → Result Catalog
insert_seal_row c row =
    if any (λ (s : SealRow). s.tag == row.tag || s.snap_oid == row.snap_oid) c.seals
    then err (invalid "UNIQUE constraint failed: seals")
    else ok (record c { seals = row ∷ c.seals })

-- `INSERT OR IGNORE INTO landmarks`
unfoldable pub landmark : Catalog → ObjectId → Str → Str → Catalog
landmark c oid kind reason =
    if any (λ (l : LandmarkRow). l.oid == oid) c.landmarks
    then c
    else record c { landmarks = record { oid = oid; kind = kind; reason = reason } ∷ c.landmarks }

-- The seal's own compare-and-swap: the reference that the tag claims to name still holds this commit.
unfoldable pub check_head : Catalog → Option (Str × ObjectId) → Checked
check_head c none = ok tt
check_head c (some (name, expected)) = do
  r ← found (find_ref c.refs name)
  guard (r.oid == expected) (stale_observation name (hex_encode expected) (hex_encode r.oid))

abbrev pub tag_ref : Str → Str
tag_ref tag = bytes "tags/" ++ tag

unfoldable pub commit_seal :
    Catalog → Str → ObjectId → ObjectId → ObjectId → Str → Option (Str × ObjectId) → Result Catalog
commit_seal c tag snap commit tree agent_id expect_ref = do
  validate_ref_kind (tag_ref tag) (bytes "snapshot")
  guard (not (ref_exists c (tag_ref tag))) (sealed "{tag_ref}")
  check_head c expect_ref
  c1 ←
      create c
        (record {
          name = tag_ref tag;
          oid = snap;
          kind = bytes "snapshot";
          protected = true;
          sealed = true;
        })
        none agent_id (bytes "seal")
  c2 ←
      insert_seal_row c1
        (record { tag = tag; snap_oid = snap; commit_oid = commit; tree_oid = tree })
  ok (
      landmark (landmark c2 snap (bytes "snapshot") (bytes "seal")) commit (bytes "commit")
        (bytes "seal"))

unfoldable pub insert_seal : Catalog → Str → ObjectId → ObjectId → ObjectId → Result Catalog
insert_seal c tag snap commit tree = commit_seal c tag snap commit tree (bytes "seal") none
