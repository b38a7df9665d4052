-- ===== src/Catalog.antt =====
-- forge-store: the tables of the catalog (crates/forge-store/src/meta.rs), without their time stamps,
-- and the statements on `refs` and `reflog` that the operations on references are made of.
pub mod Names
pub mod Refs
pub mod Sessions
pub mod Retire
pub mod Seals
pub mod Mounts
pub mod Observations
pub mod Overlay
pub mod Audit
pub mod Steps
pub mod History
use forgefs.Base.{
  ℕ, zero, suc, ◌+◌, Bool, true, false, not, ◌&&◌, ◌||◌, Option, none, some, List, [], ◌∷◌, any,
  if◌then◌else◌, ◌==◌, nat_eq, list_eq, contains, Str, bytes,
}
use forgefs.Types.{ObjectId, Result, ok, err, Checked, guard, invalid}

pub record RefRow : Type 0 where
  pub name : Str
  pub oid : ObjectId
  pub kind : Str
  pub protected : Bool
  pub sealed : Bool

pub record ReflogRow : Type 0 where
  pub name : Str
  pub old_oid : Option ObjectId
  pub new_oid : ObjectId
  pub agent_id : Str
  pub reason : Str

pub record NsRow : Type 0 where
  pub id : Str
  pub agent_id : Str
  pub pinned_oid : Option ObjectId
  pub live_ref : Option Str

pub record MountRow : Type 0 where
  pub ns_id : Str
  pub path : Str
  pub spec : Str
  pub mode : Str
  pub base_oid : Option ObjectId

pub record OverlayRow : Type 0 where
  pub ns_id : Str
  pub mount : Str
  pub path : Str
  pub blob_oid : Option ObjectId
  pub exec : Bool

pub data Observed : Type 0 where
  blob tree : ObjectId → Observed
  absent : Observed

pub record ObservationRow : Type 0 where
  pub ns_id : Str
  pub mount : Str
  pub path : Str
  pub seen : Observed

pub record SealRow : Type 0 where
  pub tag : Str
  pub snap_oid : ObjectId
  pub commit_oid : ObjectId
  pub tree_oid : ObjectId

pub record LandmarkRow : Type 0 where
  pub oid : ObjectId
  pub kind : Str
  pub reason : Str

pub record IntroRow : Type 0 where
  pub oid : ObjectId
  pub commit_oid : ObjectId
  pub agent_id : Str

-- The rows of `reflog` are listed from the newest to the oldest.
pub record Catalog : Type 0 where
  pub refs : List RefRow
  pub reflog : List ReflogRow
  pub namespaces : List NsRow
  pub mounts : List MountRow
  pub overlay : List OverlayRow
  pub observations : List ObservationRow
  pub seals : List SealRow
  pub landmarks : List LandmarkRow
  pub intros : List IntroRow

-- A new catalog: all its tables are empty.
abbrev pub empty : Catalog
empty = record {
  refs = [];
  reflog = [];
  namespaces = [];
  mounts = [];
  overlay = [];
  observations = [];
  seals = [];
  landmarks = [];
  intros = [];
}

-- `SELECT … FROM refs WHERE name=?1`
abbrev pub find_ref : List RefRow → Str → Option RefRow
find_ref [] name = none
find_ref (r ∷ rows) name = elim (r.name == name) [ true ↦ some r | false ↦ find_ref rows name ]

unfoldable pub get_ref : Catalog → Str → Option RefRow
get_ref c name = find_ref c.refs name

unfoldable pub ref_exists : Catalog → Str → Bool
ref_exists c name = elim (find_ref c.refs name) [ none ↦ false | some _ ↦ true ]

-- `SELECT … FROM reflog WHERE name=?1 ORDER BY id DESC LIMIT 1`
abbrev pub last_row : List ReflogRow → Str → Option ReflogRow
last_row [] name = none
last_row (r ∷ rows) name = elim (r.name == name) [ true ↦ some r | false ↦ last_row rows name ]

abbrev pub reflog_abandon : Str
reflog_abandon = bytes "abandon"

abbrev pub retired_by : Option ReflogRow → Bool
retired_by none = false
retired_by (some r) = r.reason == reflog_abandon

unfoldable pub ref_retired : Catalog → Str → Bool
ref_retired c name = retired_by (last_row c.reflog name)

unfoldable pub deny_retired : Catalog → Str → Checked
deny_retired c name =
    guard (not (ref_retired c name))
      (invalid "ref {name} was abandoned; the name is retired and cannot be recreated")

-- The `CHECK` on the kind of a reference.
abbrev pub ref_kinds : List Str
ref_kinds = bytes "commit" ∷ bytes "tree" ∷ bytes "conflict" ∷ bytes "snapshot" ∷ []

-- `INSERT INTO refs`, which the `CHECK` or the primary key may refuse: `map_sql` makes a constraint
-- violation an invalid request.
unfoldable pub insert_row : Catalog → RefRow → Result Catalog
unfolding ref_exists
insert_row c row =
    if not (contains ref_kinds row.kind)
    then err (invalid "CHECK constraint failed")
    else if ref_exists c row.name
    then err (invalid "UNIQUE constraint failed: refs.name")
    else ok (record c { refs = row ∷ c.refs })

-- `INSERT INTO reflog`
abbrev pub log : Catalog → ReflogRow → Catalog
log c row = record c { reflog = row ∷ c.reflog }

abbrev pub set_oid : List RefRow → Str → ObjectId → List RefRow
set_oid [] name new = []
set_oid (r ∷ rows) name new = elim (r.name == name) [
  | true ↦ record r { oid = new } ∷ rows
  | false ↦ r ∷ set_oid rows name new
]

-- `UPDATE refs SET oid=new WHERE name=?  AND oid=expected AND sealed=0`: how many rows have changed,
-- none or the one that the primary key allows, and the table.
unfoldable pub update_row : Catalog → Str → ObjectId → ObjectId → ℕ × Catalog
update_row c name expected new = elim (find_ref c.refs name) [
  | none ↦ (0, c)
  | some r ↦
      if r.oid == expected && not r.sealed
      then (1, record c { refs = set_oid c.refs name new })
      else (0, c)
]

abbrev pub drop_row : List RefRow → Str → List RefRow
drop_row [] name = []
drop_row (r ∷ rows) name = elim (r.name == name) [
  | true ↦ drop_row rows name
  | false ↦ r ∷ drop_row rows name
]

-- `DELETE FROM refs WHERE name=?1`: how many rows are gone, and the table.
unfoldable pub delete_row : Catalog → Str → ℕ × Catalog
unfolding ref_exists
delete_row c name = (if ref_exists c name then 1 else 0, record c { refs = drop_row c.refs name })

-- `INSERT OR IGNORE INTO object_intro`, which keeps the row of an object that has one.
abbrev pub introduce : List IntroRow → IntroRow → List IntroRow
introduce intros row =
    if any (λ (i : IntroRow). i.oid == row.oid) intros then intros else row ∷ intros

unfoldable pub insert_intros : Catalog → List ObjectId → ObjectId → Str → Catalog
insert_intros c [] commit agent_id = c
insert_intros c (oid ∷ oids) commit agent_id =
    insert_intros
      (record c {
        intros =
            introduce c.intros (record { oid = oid; commit_oid = commit; agent_id = agent_id });
      })
      oids commit agent_id
