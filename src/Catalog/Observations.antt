-- ===== src/Catalog/Observations.antt =====
-- forge-store: what a session has read (I9).
use forgefs.Base.{
  Bool, true, false, not, ◌&&◌, Option, none, some, List, [], ◌∷◌, ◌++◌, retain, if◌then◌else◌,
  ◌==◌, nat_eq, list_eq, Str, bytes,
}
use forgefs.Types.{ObjectId}
use forgefs.Types.Hex.{hex_encode}
use forgefs.Catalog.{Catalog, Observed, blob, tree, absent, ObservationRow}

-- `Observed::kind`
unfoldable pub kind : Observed → Str
kind (blob id) = bytes "blob"
kind (tree id) = bytes "tree"
kind absent = bytes "absent"

-- `Observed::oid`
unfoldable pub oid : Observed → Option ObjectId
oid (blob id) = some id
oid (tree id) = some id
oid absent = none

-- `Observed::describe`
unfoldable pub describe : Observed → Str
describe (blob id) = hex_encode id
describe (tree id) = bytes "tree " ++ hex_encode id
describe absent = bytes "absent"

abbrev pub same_oid : Option ObjectId → Option ObjectId → Bool
same_oid none none = true
same_oid none (some b) = false
same_oid (some a) none = false
same_oid (some a) (some b) = a == b

abbrev pub is_observation : Str → Str → Str → ObservationRow → Bool
is_observation ns_id mount path r = r.ns_id == ns_id && (r.mount == mount && r.path == path)

abbrev pub find_observation : List ObservationRow → Str → Str → Str → Option ObservationRow
find_observation [] ns_id mount path = none
find_observation (r ∷ rows) ns_id mount path = elim (is_observation ns_id mount path r) [
  | true ↦ some r
  | false ↦ find_observation rows ns_id mount path
]

unfoldable pub observation_is_current : Catalog → Str → Str → Str → Observed → Bool
unfolding kind oid
observation_is_current c ns_id mount path seen =
    elim (find_observation c.observations ns_id mount path) [
      | none ↦ false
      | some r ↦ kind r.seen == kind seen && same_oid (oid r.seen) (oid seen)
    ]

-- `observe`, on a catalog that is open for writing.
unfoldable pub observe : Catalog → Str → Str → Str → Observed → Catalog
observe c ns_id mount path seen =
    if observation_is_current c ns_id mount path seen then c else record c {
      observations =
          record { ns_id = ns_id; mount = mount; path = path; seen = seen }
          ∷ retain (λ (r : ObservationRow). not (is_observation ns_id mount path r)) c.observations;
    }

unfoldable pub observations : Catalog → Str → List ObservationRow
observations c ns_id = retain (λ (r : ObservationRow). r.ns_id == ns_id) c.observations

unfoldable pub observations_clear : Catalog → Str → Catalog
observations_clear c ns_id = record c {
  observations = retain (λ (r : ObservationRow). not (r.ns_id == ns_id)) c.observations;
}
