-- ===== src/Catalog/Audit/Resolutions.antt =====
-- Publishing a resolution and a sealed tag keep `refs` and `reflog` consistent.
use forgefs.Base.{
  Bool, true, false, ◌≡◌, refl, sym, ap, ◌∙◌, subst, Option, none, some, List, arith, Bool-cases,
  inl, inr, ◌==◌, nat_eq, list_eq, Str, bytes,
}
use forgefs.Types.{ObjectId, ok, Result-cases}
use forgefs.Catalog.{Catalog, RefRow, find_ref, last_row, retired_by, ref_retired, set_oid}
use forgefs.Catalog.Refs.{create, move_entry, plain_row}
use forgefs.Catalog.Retire.{PublishedResolution, publish_resolution}
use forgefs.Catalog.Seals.{commit_seal, tag_ref, insert_seal_row, landmark, check_head}
use forgefs.Catalog.Audit.Consistent.{IsConsistent, Evolves, Evolves_trans}
use forgefs.Catalog.Audit.Rows.{same_name, find_ref-set_oid_other, find_behind, none-some}
use forgefs.Catalog.Audit.Statements.{
  create-Evolves, move-Evolves, retire-Evolves, pushed, create_lem, last_other,
}
use forgefs.Catalog.Audit.Operations.{framed, intros-Evolves}
use forgefs.Catalog.Audit.Checkins.{IsFramed}
use forgefs.Catalog.Audit.Retirements.{Resolved, publish_resolution_lem, move_head_lem}

-- Two names with different rows differ.
pub names_differ :
    (c : Catalog) (a b : Str) (o : Option RefRow) (r : RefRow)
    → find_ref c.refs a ≡ some r
    → find_ref c.refs b ≡ o
    → (o ≡ some r → ⊥)
    → (a == b) ≡ false
names_differ c a b o r f g d = elim (Bool-cases (a == b)) [
  | inl h ↦ absurd (d (sym g ∙ subst (λ x. find_ref c.refs x ≡ some r) (same_name a b h) f))
  | inr h ↦ h
]

-- The commit and the conflict have different kinds.
kinds_differ :
    (r s : RefRow)
    → (r.kind == bytes "commit") ≡ true
    → (s.kind == bytes "conflict") ≡ true
    → some s ≡ some r
    → ⊥
kinds_differ r s p q e =
    let a : r.kind ≡ bytes "commit" = same_name r.kind (bytes "commit") p in
    let b : s.kind ≡ bytes "conflict" = same_name s.kind (bytes "conflict") q in cc

resolved-Evolves :
    (c c' : Catalog) (into : Str) (expected commit : ObjectId) (conflict_ref : Str)
    (conflict_oid : ObjectId) (resolution_ref agent_id : Str)
    → IsConsistent c
    → Resolved c c' into expected commit conflict_ref conflict_oid resolution_ref agent_id
    → Evolves c c'
unfolding ref_retired
resolved-Evolves c c' into expected commit conflict_ref conflict_oid resolution_ref agent_id inv w =
    subst (Evolves c) (sym w.introduced) (
      intros-Evolves c w.c3 w.oids commit agent_id
        (Evolves_trans c w.c1 w.c3 moves (Evolves_trans w.c1 w.c2 w.c3 births deaths)))
  where
    held : w.head.oid ≡ expected
    held = same_name w.head.oid expected w.head_held

    e1 :
        w.c1
        ≡ pushed c
            (set_oid c.refs into commit)
            (move_entry into expected commit agent_id (bytes "resolve"))
    e1 =
        move_head_lem c w.c1 w.head into expected commit agent_id w.head_found held w.head_unsealed
          w.moved

    moves : Evolves c w.c1
    moves = subst (Evolves c) (sym e1) (
        move-Evolves c w.head into expected commit agent_id (bytes "resolve") inv w.head_found held
          w.head_unsealed refl)

    apart : (into == resolution_ref) ≡ false
    apart = names_differ c into resolution_ref none w.head w.head_found w.absent none-some

    current1 : ref_retired w.c1 resolution_ref ≡ false
    current1 =
        subst (λ d. retired_by (last_row d.reflog resolution_ref) ≡ false) (sym e1)
          (ap retired_by (
              last_other c (set_oid c.refs into commit)
                (move_entry into expected commit agent_id (bytes "resolve")) resolution_ref apart)
            ∙ w.current)

    births : Evolves w.c1 w.c2
    births =
        create-Evolves w.c1 w.c2 (plain_row resolution_ref commit (bytes "commit")) none agent_id
          (bytes "resolve") moves.0 current1 refl refl w.born

    away : (into == conflict_ref) ≡ false
    away =
        names_differ c into conflict_ref (some w.clash) w.head w.head_found w.clash_found
          (kinds_differ w.head w.clash w.head_kind w.clash_kind)

    unlike : (resolution_ref == conflict_ref) ≡ false
    unlike = elim (Bool-cases (resolution_ref == conflict_ref)) [
      | inl h ↦
          let same : resolution_ref ≡ conflict_ref = same_name resolution_ref conflict_ref h in
          let both : find_ref c.refs conflict_ref ≡ none =
            subst (λ x. find_ref c.refs x ≡ none) same w.absent in
          absurd (none-some (sym both ∙ w.clash_found))
      | inr h ↦ h
    ]

    found1 : find_ref w.c1.refs conflict_ref ≡ some w.clash
    found1 =
        subst (λ d. find_ref d.refs conflict_ref ≡ some w.clash) (sym e1)
          (find_ref-set_oid_other c.refs into conflict_ref commit away ∙ w.clash_found)

    found2 : find_ref w.c2.refs conflict_ref ≡ some w.clash
    found2 =
        let (_, e2) =
          create_lem w.c1 w.c2 (plain_row resolution_ref commit (bytes "commit")) none agent_id
            (bytes "resolve") w.born in
        subst (λ d. find_ref d.refs conflict_ref ≡ some w.clash) (sym e2)
          (find_behind (plain_row resolution_ref commit (bytes "commit")) w.c1.refs conflict_ref
              unlike
            ∙ found1)

    deaths : Evolves w.c2 w.c3
    deaths = subst (Evolves w.c2) (sym w.died) (
        retire-Evolves w.c2 w.clash conflict_ref agent_id conflict_oid births.0 found2
          (same_name w.clash.oid conflict_oid w.clash_held) w.clash_unsealed w.clash_free)

pub publish_resolution-Evolves :
    (c c' : Catalog) (into : Str) (expected commit : ObjectId) (conflict_ref : Str)
    (conflict_oid : ObjectId) (resolution_ref agent_id : Str) (allow_protected : Bool)
    (intro_oids : List ObjectId) (result : PublishedResolution)
    → IsConsistent c
    → publish_resolution c into expected commit conflict_ref conflict_oid resolution_ref agent_id
        allow_protected intro_oids
      ≡ ok (result, c')
    → Evolves c c'
publish_resolution-Evolves c c' into expected commit conflict_ref conflict_oid resolution_ref
      agent_id allow_protected intro_oids result inv h =
    resolved-Evolves c c' into expected commit conflict_ref conflict_oid resolution_ref agent_id inv
      (publish_resolution_lem c c' into expected commit conflict_ref conflict_oid resolution_ref
        agent_id allow_protected intro_oids result h)

pub commit_seal_lem :
    (c c' : Catalog) (tag : Str) (snap commit tree : ObjectId) (agent_id : Str)
    (expect_ref : Option (Str × ObjectId))
    → commit_seal c tag snap commit tree agent_id expect_ref ≡ ok c'
    → (c1 : Catalog) × (create c
          (record {
            name = tag_ref tag;
            oid = snap;
            kind = bytes "snapshot";
            protected = true;
            sealed = true;
          })
          none
          agent_id
          (bytes "seal")
        ≡ ok c1)
      × (check_head c expect_ref ≡ ok tt)
      × IsFramed c1 c'
unfolding commit_seal insert_seal_row landmark
commit_seal_lem c c' tag snap commit tree agent_id expect_ref h =
    elim (Result-cases (
      create c
        (record {
          name = tag_ref tag;
          oid = snap;
          kind = bytes "snapshot";
          protected = true;
          sealed = true;
        })
        none agent_id (bytes "seal"))) [
          | inr (e, q) ↦ ground arith
          | inl (c1, q) ↦ (c1, q, ground arith, ground arith)
        ]

pub commit_seal-Evolves :
    (c c' : Catalog) (tag : Str) (snap commit tree : ObjectId) (agent_id : Str)
    (expect_ref : Option (Str × ObjectId))
    → IsConsistent c
    → ref_retired c (tag_ref tag) ≡ false
    → commit_seal c tag snap commit tree agent_id expect_ref ≡ ok c'
    → Evolves c c'
commit_seal-Evolves c c' tag snap commit tree agent_id expect_ref inv fresh h =
    let (c1, q, _, (rows, entries)) =
      commit_seal_lem c c' tag snap commit tree agent_id expect_ref h in
    framed c c1 c' rows entries
      (create-Evolves c c1 _ none agent_id (bytes "seal") inv fresh refl refl q)
