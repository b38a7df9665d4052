-- ===== src/Catalog/Audit/Kinds.antt =====
-- Each operation keeps the kinds of the references and the flags of the tags.
use forgefs.Base.{
  Bool, true, false, ◌≡◌, refl, sym, ap, ◌∙◌, subst, Option, none, some, List, [], ◌∷◌, arith,
  Bool-cases, Option-cases, inl, inr, All, contains, eqb, eqb_iff, ◌==◌, nat_eq, list_eq, Str,
  bytes, starts_with,
}
use forgefs.Types.{ObjectId, ObjectType, ok, Result-cases}
use forgefs.Catalog.{
  Catalog, RefRow, find_ref, ref_kinds, insert_row, set_oid, drop_row, insert_intros,
}
use forgefs.Catalog.Names.{validate_ref_kind, expected_kind, fork_name}
use forgefs.Catalog.Refs.{
  create, plain_row, insert_ref, insert_ref_with_intros, CasResult, cas_ref, create_fork,
}
use forgefs.Catalog.Audit.Operations.{
  insert_intros_lem, cas_row_moves, cas_row_forks, create_fork_lem, cas_ref_new, cas_ref_row,
}
use forgefs.Catalog.Audit.{catalog_ref_type, kind_findings, tag_findings, audit_refs}
use forgefs.Catalog.Audit.Statements.{create_lem}

-- The audit reports nothing on a row.
abbrev pub IsLawful : RefRow → Type 0
IsLawful row = (kind_findings row ≡ []) × (tag_findings row ≡ [])

abbrev pub AreLawful : List RefRow → Type 0
AreLawful rows = All IsLawful rows

-- From lawful rows to lawful rows.
abbrev pub Keeps : Catalog → Catalog → Type 0
Keeps c d = AreLawful c.refs → AreLawful d.refs

pub audit_refs-none : (rows : List RefRow) → AreLawful rows → audit_refs rows ≡ []
unfolding audit_refs
audit_refs-none [] h = refl
audit_refs-none (row ∷ rows) ((k, t), hs) = rw (k, t) (audit_refs-none rows hs)

-- The `CHECK` on a kind allows those that the audit knows.
known_kind :
    (kind : Str)
    → contains ref_kinds kind ≡ true
    → (t : ObjectType) × (catalog_ref_type kind ≡ some t)
unfolding catalog_ref_type
known_kind kind h = elim (Option-cases (catalog_ref_type kind)) [
  | inr found ↦ found
  | inl absent ↦ ground arith
]

commit-untagged_t :
    (name : Str)
    → validate_ref_kind (b't' ∷ name) (bytes "commit") ≡ ok tt
    → starts_with (b't' ∷ name) (bytes "tags/") ≡ false
unfolding validate_ref_kind expected_kind starts_with
commit-untagged_t name h = ground arith

-- A name that may have the kind of a commit is not a tag's.
commit-untagged :
    (name : Str)
    → validate_ref_kind name (bytes "commit") ≡ ok tt
    → starts_with name (bytes "tags/") ≡ false
unfolding validate_ref_kind expected_kind starts_with
commit-untagged [] h = refl
commit-untagged (a ∷ name) h = elim (Bool-cases (eqb a b't')) [
  | inr b ↦ ground arith
  | inl b ↦
      let same : a ≡ b't' = (eqb_iff a b't').0 b in
      subst (λ x. starts_with (x ∷ name) (bytes "tags/") ≡ false) (sym same)
        (commit-untagged_t name
          (subst (λ x. validate_ref_kind (x ∷ name) (bytes "commit") ≡ ok tt) same h))
]

IsLawful-row :
    (row : RefRow)
    → validate_ref_kind row.name row.kind ≡ ok tt
    → contains ref_kinds row.kind ≡ true
    → tag_findings row ≡ []
    → IsLawful row
unfolding kind_findings
IsLawful-row row v k t = let (ty, known) = known_kind row.kind k in (ground arith, t)

pub set_oid-AreLawful :
    (rows : List RefRow) (name : Str) (new : ObjectId)
    → AreLawful rows
    → AreLawful (set_oid rows name new)
unfolding kind_findings tag_findings
set_oid-AreLawful [] name new h = tt
set_oid-AreLawful (r ∷ rows) name new ((k, t), hs) =
    ground (arith, set_oid-AreLawful rows name new hs)

pub drop_row-AreLawful :
    (rows : List RefRow) (name : Str) → AreLawful rows → AreLawful (drop_row rows name)
drop_row-AreLawful [] name h = tt
drop_row-AreLawful (r ∷ rows) name (h, hs) = ground (arith, drop_row-AreLawful rows name hs)

create_kind :
    (c c' : Catalog) (row : RefRow) (old : Option ObjectId) (agent_id reason : Str)
    → create c row old agent_id reason ≡ ok c'
    → contains ref_kinds row.kind ≡ true
unfolding create insert_row
create_kind c c' row old agent_id reason h = ground arith

pub create-Keeps :
    (c c' : Catalog) (row : RefRow) (old : Option ObjectId) (agent_id reason : Str)
    → validate_ref_kind row.name row.kind ≡ ok tt
    → tag_findings row ≡ []
    → create c row old agent_id reason ≡ ok c'
    → Keeps c c'
create-Keeps c c' row old agent_id reason v t h lawful =
    let (_, e) = create_lem c c' row old agent_id reason h in
    let own = IsLawful-row row v (create_kind c c' row old agent_id reason h) t in
    subst (λ d. AreLawful d.refs) (sym e) (own, lawful)

-- A plain row is lawful where its name is not a tag's.
plain_row-Keeps :
    (c c' : Catalog) (name : Str) (oid : ObjectId) (kind : Str) (old : Option ObjectId)
    (agent_id reason : Str)
    → validate_ref_kind name kind ≡ ok tt
    → starts_with name (bytes "tags/") ≡ false
    → create c (plain_row name oid kind) old agent_id reason ≡ ok c'
    → Keeps c c'
unfolding tag_findings
plain_row-Keeps c c' name oid kind old agent_id reason v t h =
    create-Keeps c c' (plain_row name oid kind) old agent_id reason v (ground arith) h

-- The new reference of a commit.
pub commit-Keeps :
    (c c' : Catalog) (name : Str) (oid : ObjectId) (old : Option ObjectId) (agent_id reason : Str)
    → validate_ref_kind name (bytes "commit") ≡ ok tt
    → create c (plain_row name oid (bytes "commit")) old agent_id reason ≡ ok c'
    → Keeps c c'
commit-Keeps c c' name oid old agent_id reason v h =
    plain_row-Keeps c c' name oid (bytes "commit") old agent_id reason v (commit-untagged name v) h

pub framed-Keeps : (c d d' : Catalog) → d'.refs ≡ d.refs → Keeps c d → Keeps c d'
framed-Keeps c d d' p keeps h = subst AreLawful (sym p) (keeps h)

pub intros-refs :
    (c : Catalog) (oids : List ObjectId) (commit : ObjectId) (agent_id : Str)
    → (insert_intros c oids commit agent_id).refs ≡ c.refs
intros-refs c oids commit agent_id = ap (λ x. x.refs) (insert_intros_lem c oids commit agent_id)

pub insert_ref-Keeps :
    (c c' : Catalog) (name : Str) (oid : ObjectId) (kind : Str) (protected is_sealed : Bool)
    (agent_id reason : Str)
    → insert_ref c name oid kind protected is_sealed agent_id reason ≡ ok c'
    → Keeps c c'
unfolding insert_ref tag_findings
insert_ref-Keeps c c' name oid kind protected is_sealed agent_id reason h =
    create-Keeps c c'
      (record { name = name; oid = oid; kind = kind; protected = protected; sealed = is_sealed })
      none agent_id reason (ground arith) (ground arith) (ground arith)

pub insert_ref_with_intros-Keeps :
    (c c' : Catalog) (name : Str) (oid : ObjectId) (kind : Str) (protected is_sealed : Bool)
    (agent_id reason : Str) (intro_oids : List ObjectId)
    → insert_ref_with_intros c name oid kind protected is_sealed agent_id reason intro_oids ≡ ok c'
    → Keeps c c'
unfolding insert_ref_with_intros tag_findings
insert_ref_with_intros-Keeps c c' name oid kind protected is_sealed agent_id reason intro_oids h =
    elim (Result-cases (create c row none agent_id reason)) [
      | inr (e, q) ↦ ground arith
      | inl (d, q) ↦
          let same : insert_intros d intro_oids oid agent_id ≡ c' = ground arith in
          framed-Keeps c d c' (ap (λ x. x.refs) (sym same) ∙ intros-refs d intro_oids oid agent_id)
            (create-Keeps c d row none agent_id reason (ground arith) (ground arith) q)
    ]
  where
    row : RefRow
    row = record { name = name; oid = oid; kind = kind; protected = protected; sealed = is_sealed }

fork_name-untagged :
    (name agent ulid : Str) → starts_with (fork_name name agent ulid) (bytes "tags/") ≡ false
unfolding fork_name starts_with
fork_name-untagged name agent ulid = refl

cas_ref_checks :
    (c c' : Catalog) (name : Str) (expected new : ObjectId) (kind agent_id fork_agent ulid : Str)
    (allow_protected : Bool) (result : CasResult)
    → cas_ref c name expected new kind agent_id fork_agent ulid allow_protected ≡ ok (result, c')
    → (validate_ref_kind name kind ≡ ok tt) × (starts_with name (bytes "tags/") ≡ false)
unfolding cas_ref
cas_ref_checks c c' name expected new kind agent_id fork_agent ulid allow result h = ground arith

pub fork-Keeps :
    (c c' : Catalog) (name fork : Str) (current new : ObjectId) (kind agent_id : Str)
    (result : CasResult)
    → starts_with fork (bytes "tags/") ≡ false
    → create_fork c name fork current new kind agent_id ≡ ok (result, c')
    → Keeps c c'
unfolding create_fork
fork-Keeps c c' name fork current new kind agent_id result t h =
    plain_row-Keeps c c' fork new kind (some current) agent_id (bytes "fork") (ground arith) t
      (create_fork_lem c c' name fork current new kind agent_id result h).0

pub cas_ref-Keeps :
    (c c' : Catalog) (name : Str) (expected new : ObjectId) (kind agent_id fork_agent ulid : Str)
    (allow_protected : Bool) (result : CasResult)
    → cas_ref c name expected new kind agent_id fork_agent ulid allow_protected ≡ ok (result, c')
    → Keeps c c'
cas_ref-Keeps c c' name expected new kind agent_id fork_agent ulid allow result h lawful =
    elim (Option-cases (find_ref c.refs name)) [
      | inl f ↦
          let (_, e, _) =
            cas_ref_new c c' name expected new kind agent_id fork_agent ulid allow result f h in
          let (v, t) =
            cas_ref_checks c c' name expected new kind agent_id fork_agent ulid allow result h in
          plain_row-Keeps c c' name new kind none agent_id (bytes "cas") v t e lawful
      | inr (r, f) ↦
          let row =
            cas_ref_row c c' r name expected new kind agent_id fork_agent ulid allow result f h in
          elim (Bool-cases (r.oid == expected)) [
            | inl b ↦
                let (_, e, _) =
                  cas_row_moves c c' r name expected new kind agent_id fork_agent ulid allow result
                    f b row in
                subst (λ d. AreLawful d.refs) (sym e) (set_oid-AreLawful c.refs name new lawful)
            | inr b ↦
                fork-Keeps c c' name (fork_name name fork_agent ulid) r.oid new kind agent_id result
                  (fork_name-untagged name fork_agent ulid)
                  (cas_row_forks c c' r name expected new kind agent_id fork_agent ulid allow result
                    f b row)
                  lawful
          ]
    ]
