-- ===== src/Catalog/Audit/Operations.antt =====
-- Each operation keeps `refs` and `reflog` consistent, and moves each name forward only.
use forgefs.Base.{
  Bool, true, false, ◌≡◌, refl, sym, ap, subst, none, some, List, [], ◌∷◌, arith, Bool-cases, inl,
  inr, ◌==◌, nat_eq, list_eq, Str, bytes, Option-cases,
}
use forgefs.Types.{ObjectId, Result, ok, err, ◌>>=◌, ok-injective}
use forgefs.Catalog.{
  Catalog, RefRow, find_ref, ref_retired, reflog_abandon, set_oid, deny_retired, update_row,
  insert_intros, introduce,
}
use forgefs.Catalog.Names.{fork_name}
use forgefs.Catalog.Refs.{
  create, move_entry, insert_ref, insert_ref_with_intros, CasResult, cas_ref, cas_row, create_fork,
  updated, forked, plain_row, cas_ref_with_intros,
}
use forgefs.Catalog.Audit.Consistent.{IsConsistent, Evolves}
use forgefs.Catalog.Audit.Rows.{same_name}
use forgefs.Catalog.Audit.Statements.{create-Evolves, move-Evolves, pushed}

pub insert_ref-Evolves :
    (c c' : Catalog) (name : Str) (oid : ObjectId) (kind : Str) (protected is_sealed : Bool)
    (agent_id reason : Str)
    → IsConsistent c
    → (reason == reflog_abandon) ≡ false
    → insert_ref c name oid kind protected is_sealed agent_id reason ≡ ok c'
    → Evolves c c'
unfolding insert_ref deny_retired
insert_ref-Evolves c c' name oid kind protected is_sealed agent_id reason inv plain h =
    create-Evolves c c'
      (record { name = name; oid = oid; kind = kind; protected = protected; sealed = is_sealed })
      none agent_id reason inv (ground arith) plain refl (ground arith)

pub insert_intros_lem :
    (c : Catalog) (oids : List ObjectId) (commit : ObjectId) (agent_id : Str)
    → insert_intros c oids commit agent_id
      ≡ record c { intros = (insert_intros c oids commit agent_id).intros }
unfolding insert_intros
insert_intros_lem c [] commit agent_id = refl
insert_intros_lem c (oid ∷ oids) commit agent_id =
    insert_intros_lem
      (record c {
        intros =
            introduce c.intros (record { oid = oid; commit_oid = commit; agent_id = agent_id });
      })
      oids commit agent_id

-- A swap on a row: the reference held what was expected and moves, or the new commit is a fork's.
pub cas_row_moves :
    (c c' : Catalog) (r : RefRow) (name : Str) (expected new : ObjectId)
    (kind agent_id fork_agent ulid : Str) (allow_protected : Bool) (result : CasResult)
    → find_ref c.refs name ≡ some r
    → (r.oid == expected) ≡ true
    → cas_row c r name expected new kind agent_id fork_agent ulid allow_protected ≡ ok (result, c')
    → (r.sealed ≡ false)
      × (c'
          ≡ pushed c
              (set_oid c.refs name new)
              (move_entry name expected new agent_id (bytes "cas")))
      × (result ≡ updated name new)
unfolding cas_row update_row
cas_row_moves c c' r name expected new kind agent_id fork_agent ulid allow_protected result f b h =
    ground arith

pub cas_row_forks :
    (c c' : Catalog) (r : RefRow) (name : Str) (expected new : ObjectId)
    (kind agent_id fork_agent ulid : Str) (allow_protected : Bool) (result : CasResult)
    → find_ref c.refs name ≡ some r
    → (r.oid == expected) ≡ false
    → cas_row c r name expected new kind agent_id fork_agent ulid allow_protected ≡ ok (result, c')
    → create_fork c name (fork_name name fork_agent ulid) r.oid new kind agent_id ≡ ok (result, c')
unfolding cas_row update_row
cas_row_forks c c' r name expected new kind agent_id fork_agent ulid allow_protected result f b h =
    ground arith

pub create_fork_lem :
    (c c' : Catalog) (name fork : Str) (current new : ObjectId) (kind agent_id : Str)
    (result : CasResult)
    → create_fork c name fork current new kind agent_id ≡ ok (result, c')
    → (create c (plain_row fork new kind) (some current) agent_id (bytes "fork") ≡ ok c')
      × (result ≡ forked name fork new current)
unfolding create_fork
create_fork_lem c c' name fork current new kind agent_id result h = ground arith

-- A catalog with the same two tables.
pub framed :
    (c d d' : Catalog) → d'.refs ≡ d.refs → d'.reflog ≡ d.reflog → Evolves c d → Evolves c d'
framed c d d' p q ev =
    let rows : Evolves c (record d { refs = d'.refs }) =
      subst (λ x. Evolves c (record d { refs = x })) (sym p) ev in
    subst (λ x. Evolves c (record d { refs = d'.refs; reflog = x })) (sym q) rows

pub intros-Evolves :
    (c d : Catalog) (oids : List ObjectId) (commit : ObjectId) (agent_id : Str)
    → Evolves c d
    → Evolves c (insert_intros d oids commit agent_id)
intros-Evolves c d oids commit agent_id ev =
    subst (Evolves c) (sym (insert_intros_lem d oids commit agent_id)) ev

pub insert_ref_with_intros-Evolves :
    (c c' : Catalog) (name : Str) (oid : ObjectId) (kind : Str) (protected is_sealed : Bool)
    (agent_id reason : Str) (intro_oids : List ObjectId)
    → IsConsistent c
    → (reason == reflog_abandon) ≡ false
    → insert_ref_with_intros c name oid kind protected is_sealed agent_id reason intro_oids ≡ ok c'
    → Evolves c c'
unfolding insert_ref_with_intros deny_retired
insert_ref_with_intros-Evolves c c' name oid kind protected is_sealed agent_id reason intro_oids inv
      plain h =
    go (create c row none agent_id reason) refl (ground arith)
  where
    row : RefRow
    row = record { name = name; oid = oid; kind = kind; protected = protected; sealed = is_sealed }

    go :
        (x : Result Catalog)
        → create c row none agent_id reason ≡ x
        → x >>= (λ d. ok (insert_intros d intro_oids oid agent_id)) ≡ ok c'
        → Evolves c c'
    go (err e) q i = cc
    go (ok d) q i = subst (Evolves c) (ok-injective i) (
        intros-Evolves c d intro_oids oid agent_id
          (create-Evolves c d row none agent_id reason inv (ground arith) plain refl q))

pub fork-Evolves :
    (c c' : Catalog) (name fork : Str) (current new : ObjectId) (kind agent_id : Str)
    (result : CasResult)
    → IsConsistent c
    → ref_retired c fork ≡ false
    → create_fork c name fork current new kind agent_id ≡ ok (result, c')
    → Evolves c c'
fork-Evolves c c' name fork current new kind agent_id result inv fresh h =
    create-Evolves c c' (plain_row fork new kind) (some current) agent_id (bytes "fork") inv fresh
      refl refl (create_fork_lem c c' name fork current new kind agent_id result h).0

cas_row-Evolves :
    (c c' : Catalog) (r : RefRow) (name : Str) (expected new : ObjectId)
    (kind agent_id fork_agent ulid : Str) (allow_protected : Bool) (result : CasResult)
    → IsConsistent c
    → find_ref c.refs name ≡ some r
    → ref_retired c (fork_name name fork_agent ulid) ≡ false
    → cas_row c r name expected new kind agent_id fork_agent ulid allow_protected ≡ ok (result, c')
    → Evolves c c'
cas_row-Evolves c c' r name expected new kind agent_id fork_agent ulid allow_protected result inv f
      fresh h =
    elim (Bool-cases (r.oid == expected)) [
      | inl b ↦
          let (unsealed, e, _) =
            cas_row_moves c c' r name expected new kind agent_id fork_agent ulid allow_protected
              result f b h in
          subst (Evolves c) (sym e) (
            move-Evolves c r name expected new agent_id (bytes "cas") inv f
              (same_name r.oid expected b) unsealed refl)
      | inr b ↦
          fork-Evolves c c' name (fork_name name fork_agent ulid) r.oid new kind agent_id result inv
            fresh
            (cas_row_forks c c' r name expected new kind agent_id fork_agent ulid allow_protected
              result f b h)
    ]

-- The name is not one that `cas_ref` takes, or it has no row, or the swap is on its row.
pub cas_ref_new :
    (c c' : Catalog) (name : Str) (expected new : ObjectId) (kind agent_id fork_agent ulid : Str)
    (allow_protected : Bool) (result : CasResult)
    → find_ref c.refs name ≡ none
    → cas_ref c name expected new kind agent_id fork_agent ulid allow_protected ≡ ok (result, c')
    → (ref_retired c name ≡ false)
      × (create c (plain_row name new kind) none agent_id (bytes "cas") ≡ ok c')
      × (result ≡ updated name new)
unfolding cas_ref deny_retired
cas_ref_new c c' name expected new kind agent_id fork_agent ulid allow_protected result f h =
    ground arith

pub cas_ref_row :
    (c c' : Catalog) (r : RefRow) (name : Str) (expected new : ObjectId)
    (kind agent_id fork_agent ulid : Str) (allow_protected : Bool) (result : CasResult)
    → find_ref c.refs name ≡ some r
    → cas_ref c name expected new kind agent_id fork_agent ulid allow_protected ≡ ok (result, c')
    → cas_row c r name expected new kind agent_id fork_agent ulid allow_protected ≡ ok (result, c')
unfolding cas_ref
cas_ref_row c c' r name expected new kind agent_id fork_agent ulid allow_protected result f h =
    ground arith

pub cas_ref-Evolves :
    (c c' : Catalog) (name : Str) (expected new : ObjectId) (kind agent_id fork_agent ulid : Str)
    (allow_protected : Bool) (result : CasResult)
    → IsConsistent c
    → ref_retired c (fork_name name fork_agent ulid) ≡ false
    → cas_ref c name expected new kind agent_id fork_agent ulid allow_protected ≡ ok (result, c')
    → Evolves c c'
cas_ref-Evolves c c' name expected new kind agent_id fork_agent ulid allow_protected result inv
      fresh h =
    elim (Option-cases (find_ref c.refs name)) [
      | inl f ↦
          let (current, e, _) =
            cas_ref_new c c' name expected new kind agent_id fork_agent ulid allow_protected result
              f h in
          create-Evolves c c' (plain_row name new kind) none agent_id (bytes "cas") inv current refl
            refl e
      | inr (r, f) ↦
          cas_row-Evolves c c' r name expected new kind agent_id fork_agent ulid allow_protected
            result inv f fresh
            (cas_ref_row c c' r name expected new kind agent_id fork_agent ulid allow_protected
              result f h)
    ]

pub cas_ref_with_intros-Evolves :
    (c c' : Catalog) (name : Str) (expected new : ObjectId) (kind agent_id fork_agent ulid : Str)
    (allow_protected : Bool) (intro_oids : List ObjectId) (result : CasResult)
    → IsConsistent c
    → ref_retired c (fork_name name fork_agent ulid) ≡ false
    → cas_ref_with_intros c name expected new kind agent_id fork_agent ulid allow_protected
        intro_oids
      ≡ ok (result, c')
    → Evolves c c'
unfolding cas_ref_with_intros
cas_ref_with_intros-Evolves c c' name expected new kind agent_id fork_agent ulid allow_protected
      intro_oids result inv fresh h =
    go (cas_ref c name expected new kind agent_id fork_agent ulid allow_protected) refl h
  where
    go :
        (x : Result (CasResult × Catalog))
        → cas_ref c name expected new kind agent_id fork_agent ulid allow_protected ≡ x
        → ◌>>=◌ {U = CasResult × Catalog} x
            (λ p. ok (p.0, insert_intros p.1 intro_oids new agent_id))
          ≡ ok (result, c')
        → Evolves c c'
    go (err e) q i = cc
    go (ok (r, d)) q i = subst (Evolves c) (ap (λ p. p.1) (ok-injective i)) (
        intros-Evolves c d intro_oids new agent_id (
          cas_ref-Evolves c d name expected new kind agent_id fork_agent ulid allow_protected r inv
            fresh q))
