-- ===== src/Catalog/Audit.antt =====
-- forge-store: what the audit of the catalog reports about `refs` and `reflog`, where each id has the
-- shape of one.
pub mod Rows
pub mod Clean
pub mod Resolutions
pub mod Retirements
pub mod Checkins
pub mod Operations
pub mod Statements
pub mod Consistent
pub mod Kinds
pub mod Flags
use forgefs.Base.{
  Bool, true, false, not, ◌&&◌, ◌||◌, Option, none, some, List, [], ◌∷◌, ◌++◌, if◌then◌else◌, ◌==◌,
  nat_eq, list_eq, Str, bytes, starts_with,
}
use forgefs.Types.{ObjectId, ObjectType, ok, err}
use forgefs.Catalog.Names.{validate_ref_kind}
use forgefs.Catalog.{Catalog, RefRow, ReflogRow, last_row, ref_exists, retired_by}

-- `code` of a finding.
pub data FindingCode : Type 0 where
  ref_kind tag_flags reflog_chain reflog_missing reflog_terminal reflog_orphan : FindingCode

unfoldable pub catalog_ref_type : Str → Option ObjectType
catalog_ref_type kind =
    if kind == bytes "tree"
    then some ObjectType.tree
    else if kind == bytes "commit"
    then some ObjectType.commit
    else if kind == bytes "conflict"
    then some ObjectType.conflict
    else if kind == bytes "snapshot"
    then some ObjectType.snapshot
    else none

-- `validate_ref_kind` refuses the row's name and kind, or the kind is unknown.
unfoldable pub kind_findings : RefRow → List FindingCode
kind_findings row =
    elim (validate_ref_kind row.name row.kind) [ ok _ ↦ [] | err e ↦ ref_kind ∷ [] ]
    ++ elim (catalog_ref_type row.kind) [ some t ↦ [] | none ↦ ref_kind ∷ [] ]

-- A tag is a protected and sealed snapshot.
unfoldable pub tag_findings : RefRow → List FindingCode
tag_findings row =
    if starts_with row.name (bytes "tags/")
      && (not row.protected || (not row.sealed || not (row.kind == bytes "snapshot")))
    then tag_flags ∷ []
    else []

-- The loop over `refs`. The code reports them by name.
unfoldable pub audit_refs : List RefRow → List FindingCode
audit_refs [] = []
audit_refs (row ∷ rows) = kind_findings row ++ tag_findings row ++ audit_refs rows

abbrev pub has_oid : Option ObjectId → Bool
has_oid none = false
has_oid (some old) = true

-- `old == Some(oid)`
abbrev pub holds_oid : Option ObjectId → ObjectId → Bool
holds_oid none oid = false
holds_oid (some old) oid = old == oid

-- An entry against the last one of its name among the older entries.
unfoldable pub chain_finding : Option ReflogRow → ReflogRow → List FindingCode
chain_finding (some previous) r =
    if holds_oid r.old_oid previous.new_oid then [] else reflog_chain ∷ []
chain_finding none r =
    if has_oid r.old_oid && not (r.reason == bytes "fork") then reflog_chain ∷ [] else []

-- The loop over the log. The table of the previous entries is the part of the log that is older.
unfoldable pub chain_findings : List ReflogRow → List FindingCode
chain_findings [] = []
chain_findings (r ∷ older) = chain_findings older ++ chain_finding (last_row older r.name) r

-- A reference against the last entry of its name.
unfoldable pub terminal_finding : Option ReflogRow → RefRow → List FindingCode
terminal_finding none row = reflog_missing ∷ []
terminal_finding (some r) row = if r.new_oid == row.oid then [] else reflog_terminal ∷ []

unfoldable pub terminal_findings : List ReflogRow → List RefRow → List FindingCode
terminal_findings entries [] = []
terminal_findings entries (row ∷ rows) =
    terminal_finding (last_row entries row.name) row ++ terminal_findings entries rows

-- A name of the log outlives its reference only where its last entry retires it.
unfoldable pub orphan_findings : Catalog → List ReflogRow → List FindingCode
orphan_findings c [] = []
orphan_findings c (r ∷ rows) =
    (if not (ref_exists c r.name) && not (retired_by (last_row c.reflog r.name))
      then reflog_orphan ∷ []
      else [])
    ++ orphan_findings c rows

-- The findings on the log, and on the log against the references. The code reports them by name, and an
-- orphan once for its name.
unfoldable pub audit_reflog : Catalog → List FindingCode
audit_reflog c =
    chain_findings c.reflog ++ terminal_findings c.reflog c.refs ++ orphan_findings c c.reflog

-- The findings on the references, and then those on their log.
unfoldable pub audit_references : Catalog → List FindingCode
audit_references c = audit_refs c.refs ++ audit_reflog c
