-- ===== src/Catalog/History/Gone.antt =====
-- Statements that leave a retired name without a reference.
use forgefs.Base.{
  Bool, true, false, ◌≡◌, sym, ap, ◌∙◌, subst, Option, none, some, List, ◌∷◌, arith, Bool-cases,
  Option-cases, inl, inr, ◌==◌, nat_eq, list_eq, Str, bytes,
}
use forgefs.Types.{ObjectId, ok, Result-cases}
use forgefs.Catalog.{
  Catalog, RefRow, ReflogRow, find_ref, last_row, ref_retired, retired_by, deny_retired, set_oid,
  drop_row, insert_intros,
}
use forgefs.Catalog.Names.{fork_name}
use forgefs.Catalog.Refs.{
  create, plain_row, move_entry, insert_ref, insert_ref_with_intros, CasResult, cas_ref,
  cas_ref_with_intros, create_fork,
}
use forgefs.Catalog.Audit.Rows.{
  same_name, none-some, find_behind, find_ref-set_oid-none, find_ref-drop_row-none,
}
use forgefs.Catalog.Audit.Statements.{pushed, create_lem, last_other}
use forgefs.Catalog.Audit.Operations.{
  insert_intros_lem, cas_row_moves, cas_row_forks, create_fork_lem, cas_ref_new, cas_ref_row,
}
use forgefs.Catalog.Audit.Checkins.{IsFramed}
use forgefs.Catalog.Audit.Resolutions.{names_differ}

module _ (n : Str) where
  -- The name has no reference, and its last entry retires it.
  abbrev pub IsGone : Catalog → Type 0
  IsGone c = (find_ref c.refs n ≡ none) × (retired_by (last_row c.reflog n) ≡ true)

  -- A name that is created without asking is another one.
  abbrev pub IsOtherName : Catalog → Str → Type 0
  IsOtherName c name = (name == n) ≡ false

  pub current_differs :
      (c : Catalog) (a : Str) → IsGone c → ref_retired c a ≡ false → (a == n) ≡ false
  unfolding ref_retired
  current_differs c a (_, gone) h = elim (Bool-cases (a == n)) [
    | inr b ↦ b
    | inl b ↦
        let h' : retired_by (last_row c.reflog n) ≡ false =
          subst (λ x. retired_by (last_row c.reflog x) ≡ false) (same_name a n b) h in
        ground arith
  ]

  pub held_differs :
      (c : Catalog) (a : Str) (r : RefRow)
      → IsGone c
      → find_ref c.refs a ≡ some r
      → (a == n) ≡ false
  held_differs c a r (bare, _) f = names_differ c a n none r f bare none-some

  pub framed-IsGone : (c d : Catalog) → IsFramed c d → IsGone c → IsGone d
  framed-IsGone c d (p, q) (bare, gone) = (
    subst (λ l. find_ref l n ≡ none) (sym p) bare,
    subst (λ l. retired_by (last_row l n) ≡ true) (sym q) gone,
  )

  -- An entry for another name is pushed.
  pub pushed-IsGone :
      (c : Catalog) (rows : List RefRow) (e : ReflogRow)
      → (e.name == n) ≡ false
      → (find_ref c.refs n ≡ none → find_ref rows n ≡ none)
      → IsGone c
      → IsGone (pushed c rows e)
  pushed-IsGone c rows e d keep (bare, gone) =
      (keep bare, ap retired_by (last_other c rows e n d) ∙ gone)

  pub create-IsGone :
      (c c' : Catalog) (row : RefRow) (old : Option ObjectId) (agent_id reason : Str)
      → (row.name == n) ≡ false
      → create c row old agent_id reason ≡ ok c'
      → IsGone c
      → IsGone c'
  create-IsGone c c' row old agent_id reason d h gone =
      let (_, e) = create_lem c c' row old agent_id reason h in
      subst IsGone (sym e) (
        pushed-IsGone c (row ∷ c.refs)
          (record {
            name = row.name;
            old_oid = old;
            new_oid = row.oid;
            agent_id = agent_id;
            reason = reason;
          })
          d (λ bare. find_behind row c.refs n d ∙ bare) gone)

  pub move-IsGone :
      (c : Catalog) (r : RefRow) (name : Str) (old new : ObjectId) (agent_id reason : Str)
      → find_ref c.refs name ≡ some r
      → IsGone c
      → IsGone (pushed c (set_oid c.refs name new) (move_entry name old new agent_id reason))
  move-IsGone c r name old new agent_id reason f gone =
      pushed-IsGone c _ _ (held_differs c name r gone f) (find_ref-set_oid-none c.refs name n new)
        gone

  pub retire-IsGone :
      (c : Catalog) (r : RefRow) (name : Str) (old new : ObjectId) (agent_id reason : Str)
      → find_ref c.refs name ≡ some r
      → IsGone c
      → IsGone (pushed c (drop_row c.refs name) (move_entry name old new agent_id reason))
  retire-IsGone c r name old new agent_id reason f gone =
      pushed-IsGone c _ _ (held_differs c name r gone f) (find_ref-drop_row-none c.refs name n) gone

  pub intros-IsGone :
      (c : Catalog) (oids : List ObjectId) (commit : ObjectId) (agent_id : Str)
      → IsGone c
      → IsGone (insert_intros c oids commit agent_id)
  intros-IsGone c oids commit agent_id gone =
      subst IsGone (sym (insert_intros_lem c oids commit agent_id)) gone

  pub insert_ref-IsGone :
      (c c' : Catalog) (name : Str) (oid : ObjectId) (kind : Str) (protected is_sealed : Bool)
      (agent_id reason : Str)
      → insert_ref c name oid kind protected is_sealed agent_id reason ≡ ok c'
      → IsGone c
      → IsGone c'
  unfolding insert_ref deny_retired
  insert_ref-IsGone c c' name oid kind protected is_sealed agent_id reason h gone =
      create-IsGone c c'
        (record { name = name; oid = oid; kind = kind; protected = protected; sealed = is_sealed })
        none agent_id reason (current_differs c name gone (ground arith)) (ground arith) gone

  pub insert_ref_with_intros-IsGone :
      (c c' : Catalog) (name : Str) (oid : ObjectId) (kind : Str) (protected is_sealed : Bool)
      (agent_id reason : Str) (intro_oids : List ObjectId)
      → insert_ref_with_intros c name oid kind protected is_sealed agent_id reason intro_oids
        ≡ ok c'
      → IsGone c
      → IsGone c'
  unfolding insert_ref_with_intros deny_retired
  insert_ref_with_intros-IsGone c c' name oid kind protected is_sealed agent_id reason intro_oids h
        gone =
      elim (Result-cases (create c row none agent_id reason)) [
        | inr (e, q) ↦ ground arith
        | inl (d, q) ↦
            let same : insert_intros d intro_oids oid agent_id ≡ c' = ground arith in
            subst IsGone same (
              intros-IsGone d intro_oids oid agent_id (
                create-IsGone c d row none agent_id reason
                  (current_differs c name gone (ground arith)) q gone))
      ]
    where
      row : RefRow
      row = record {
        name = name;
        oid = oid;
        kind = kind;
        protected = protected;
        sealed = is_sealed;
      }

  pub fork-IsGone :
      (c c' : Catalog) (name fork : Str) (current new : ObjectId) (kind agent_id : Str)
      (result : CasResult)
      → (fork == n) ≡ false
      → create_fork c name fork current new kind agent_id ≡ ok (result, c')
      → IsGone c
      → IsGone c'
  fork-IsGone c c' name fork current new kind agent_id result d h gone =
      create-IsGone c c' (plain_row fork new kind) (some current) agent_id (bytes "fork") d
        (create_fork_lem c c' name fork current new kind agent_id result h).0 gone

  pub cas_ref-IsGone :
      (c c' : Catalog) (name : Str) (expected new : ObjectId) (kind agent_id fork_agent ulid : Str)
      (allow_protected : Bool) (result : CasResult)
      → (fork_name name fork_agent ulid == n) ≡ false
      → cas_ref c name expected new kind agent_id fork_agent ulid allow_protected ≡ ok (result, c')
      → IsGone c
      → IsGone c'
  cas_ref-IsGone c c' name expected new kind agent_id fork_agent ulid allow result other h gone =
      elim (Option-cases (find_ref c.refs name)) [
        | inl f ↦
            let (current, e, _) =
              cas_ref_new c c' name expected new kind agent_id fork_agent ulid allow result f h in
            create-IsGone c c' (plain_row name new kind) none agent_id (bytes "cas")
              (current_differs c name gone current) e gone
        | inr (r, f) ↦
            let row =
              cas_ref_row c c' r name expected new kind agent_id fork_agent ulid allow result f h in
            elim (Bool-cases (r.oid == expected)) [
              | inl b ↦
                  let (_, e, _) =
                    cas_row_moves c c' r name expected new kind agent_id fork_agent ulid allow
                      result f b row in
                  subst IsGone (sym e)
                    (move-IsGone c r name expected new agent_id (bytes "cas") f gone)
              | inr b ↦
                  fork-IsGone c c' name (fork_name name fork_agent ulid) r.oid new kind agent_id
                    result other
                    (cas_row_forks c c' r name expected new kind agent_id fork_agent ulid allow
                      result f b row)
                    gone
            ]
      ]

  pub cas_ref_with_intros-IsGone :
      (c c' : Catalog) (name : Str) (expected new : ObjectId) (kind agent_id fork_agent ulid : Str)
      (allow_protected : Bool) (intro_oids : List ObjectId) (result : CasResult)
      → (fork_name name fork_agent ulid == n) ≡ false
      → cas_ref_with_intros c name expected new kind agent_id fork_agent ulid allow_protected
          intro_oids
        ≡ ok (result, c')
      → IsGone c
      → IsGone c'
  unfolding cas_ref_with_intros
  cas_ref_with_intros-IsGone c c' name expected new kind agent_id fork_agent ulid allow intro_oids
        result other h gone =
      elim (Result-cases (cas_ref c name expected new kind agent_id fork_agent ulid allow)) [
        | inr (e, q) ↦ ground arith
        | inl ((x, d), q) ↦
            let same : insert_intros d intro_oids new agent_id ≡ c' = ground arith in
            subst IsGone same (
              intros-IsGone d intro_oids new agent_id (
                cas_ref-IsGone c d name expected new kind agent_id fork_agent ulid allow x other q
                  gone))
      ]
