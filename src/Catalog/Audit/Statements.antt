-- ===== src/Catalog/Audit/Statements.antt =====
-- Each pair of a statement on `refs` and an entry of the log keeps the two tables consistent.
use forgefs.Base.{
  true, false, not, ◌&&◌, ◌≡◌, refl, sym, subst, Option, none, some, List, [], ◌∷◌, arith,
  Bool-cases, inl, inr, ◌==◌, nat_eq, list_eq, same_refl, Str, bytes,
}
use forgefs.Types.{ObjectId, ok}
use forgefs.Catalog.{
  Catalog, RefRow, ReflogRow, find_ref, last_row, ref_exists, ref_retired, retired_by,
  reflog_abandon, insert_row, set_oid, drop_row,
}
use forgefs.Catalog.Refs.{create, move_entry}
use forgefs.Catalog.Audit.{has_oid, chain_finding}
use forgefs.Catalog.Audit.Rows.{
  same_name, IsUnique, find_ref-set_oid, find_ref-set_oid_other, find_ref-drop_row,
  find_ref-drop_row_other, set_oid-IsUnique, drop_row-IsUnique, find_first,
}
use forgefs.Catalog.Audit.Consistent.{
  Agree, IsConsistent, Evolves, Later, Later-refl, state, state_of, live, retired,
}

module _ (c : Catalog) (rows : List RefRow) (e : ReflogRow) where
  abbrev pub pushed : Catalog
  pushed = record c { refs = rows; reflog = e ∷ c.reflog }

  abbrev At : Str → Type 0
  At n =
      Agree (find_ref rows n) (last_row (e ∷ c.reflog) n)
      × Later (state c n) (state_of (find_ref rows n) (last_row (e ∷ c.reflog) n))

  last_own : (n : Str) → (e.name == n) ≡ true → last_row (e ∷ c.reflog) n ≡ some e
  last_own n b = ground arith

  pub last_other :
      (n : Str) → (e.name == n) ≡ false → last_row (e ∷ c.reflog) n ≡ last_row c.reflog n
  last_other n b = ground arith

  -- An entry is pushed and only its own name's row changes.
  pub pushed-Evolves :
      IsConsistent c
      → IsUnique rows
      → chain_finding (last_row c.reflog e.name) e ≡ []
      → Agree (find_ref rows e.name) (some e)
        × Later (state c e.name) (state_of (find_ref rows e.name) (some e))
      → ((n : Str) → (e.name == n) ≡ false → find_ref rows n ≡ find_ref c.refs n)
      → Evolves c pushed
  pushed-Evolves (chained, _, agree) unique chain here others =
      (((chain, chained), unique, λ n. (at n).0), λ n. (at n).1)
    where
      Here : Option ReflogRow → Type 0
      Here l =
          Agree (find_ref rows e.name) l
          × Later (state c e.name) (state_of (find_ref rows e.name) l)

      own : (n : Str) → (e.name == n) ≡ true → At n
      own n b =
          subst At (same_name e.name n b)
            (subst Here (sym (last_own e.name (same_refl e.name))) here)

      other : (n : Str) → (e.name == n) ≡ false → At n
      other n b = subst Here' (sym (last_other n b)) (
          subst (λ o. Same o (last_row c.reflog n)) (sym (others n b))
            (agree n, Later-refl (state c n)))
        where
          Same : Option RefRow → Option ReflogRow → Type 0
          Same o l = Agree o l × Later (state c n) (state_of o l)

          Here' : Option ReflogRow → Type 0
          Here' l = Same (find_ref rows n) l

      at : (n : Str) → At n
      at n = elim (Bool-cases (e.name == n)) [ inl b ↦ own n b | inr b ↦ other n b ]

first_chain :
    (l : Option ReflogRow) (e : ReflogRow)
    → l ≡ none
    → (has_oid e.old_oid && not (e.reason == bytes "fork")) ≡ false
    → chain_finding l e ≡ []
unfolding chain_finding
first_chain none e h f = ground arith
first_chain (some p) e h f = cc

next_chain :
    (o : Option RefRow) (l : Option ReflogRow) (row : RefRow) (name old new agent_id reason : Str)
    → Agree o l
    → o ≡ some row
    → row.oid ≡ old
    → chain_finding l (move_entry name old new agent_id reason) ≡ []
unfolding chain_finding
next_chain none l row name old new agent_id reason a h e = cc
next_chain (some row') none row name old new agent_id reason a h e = absurd a
next_chain (some row') (some p) row name old new agent_id reason a h e =
    ground (arith, same, same_refl old)
  where
    same : p.new_oid ≡ old
    same = cc

-- A name without a row that is not retired has no entry.
no_entry :
    (o : Option RefRow) (l : Option ReflogRow)
    → Agree o l
    → o ≡ none
    → retired_by l ≡ false
    → l ≡ none
no_entry none none a h f = refl
no_entry none (some r) a h f = cc
no_entry (some row) l a h f = cc

pub create_lem :
    (c c' : Catalog) (row : RefRow) (old : Option ObjectId) (agent_id reason : Str)
    → create c row old agent_id reason ≡ ok c'
    → (find_ref c.refs row.name ≡ none)
      × (c'
          ≡ pushed c (row ∷ c.refs) (record {
            name = row.name;
            old_oid = old;
            new_oid = row.oid;
            agent_id = agent_id;
            reason = reason;
          }))
unfolding create insert_row ref_exists
create_lem c c' row old agent_id reason h = ground arith

-- A new reference: its name has no row and is not retired, and only a fork has an old commit.
pub create-Evolves :
    (c c' : Catalog) (row : RefRow) (old : Option ObjectId) (agent_id reason : Str)
    → IsConsistent c
    → ref_retired c row.name ≡ false
    → (reason == reflog_abandon) ≡ false
    → (has_oid old && not (reason == bytes "fork")) ≡ false
    → create c row old agent_id reason ≡ ok c'
    → Evolves c c'
unfolding ref_retired
create-Evolves c c' row old agent_id reason (chained, unique, agree) current plain first h =
    let (new, e) = create_lem c c' row old agent_id reason h in
    let bare : last_row c.reflog row.name ≡ none =
      no_entry (find_ref c.refs row.name) (last_row c.reflog row.name) (agree row.name) new
        current in
    subst (Evolves c) (sym e) (
      pushed-Evolves c (row ∷ c.refs) entry (chained, unique, agree) (new, unique)
        (first_chain (last_row c.reflog row.name) entry bare first)
        (subst (λ o. Agree o (some entry) × Later (state c row.name) (state_of o (some entry)))
          (sym (find_first row c.refs))
          (
            (refl, plain),
            subst (λ o. Later (state_of o (last_row c.reflog row.name)) (live row)) (sym new)
                (subst (λ l. Later (state_of none l) (live row)) (sym bare) tt),
          ))
        (λ n d. ground arith))
  where
    entry : ReflogRow
    entry = record {
      name = row.name;
      old_oid = old;
      new_oid = row.oid;
      agent_id = agent_id;
      reason = reason;
    }

-- A reference that moves, from what it holds.
pub move-Evolves :
    (c : Catalog) (r : RefRow) (name : Str) (old new : ObjectId) (agent_id reason : Str)
    → IsConsistent c
    → find_ref c.refs name ≡ some r
    → r.oid ≡ old
    → r.sealed ≡ false
    → (reason == reflog_abandon) ≡ false
    → Evolves c (pushed c (set_oid c.refs name new) (move_entry name old new agent_id reason))
move-Evolves c r name old new agent_id reason (chained, unique, agree) f held unsealed plain =
    pushed-Evolves c (set_oid c.refs name new) (move_entry name old new agent_id reason)
      (chained, unique, agree) (set_oid-IsUnique c.refs name new unique)
      (next_chain (find_ref c.refs name) (last_row c.reflog name) r name old new agent_id reason
        (agree name) f held)
      (subst
        (λ o.
          Agree o (some (move_entry name old new agent_id reason))
          × Later (state c name) (state_of o (some (move_entry name old new agent_id reason))))
        (sym (find_ref-set_oid c.refs name new r f))
        (
          (refl, plain),
          subst (λ o. Later (state_of o (last_row c.reflog name)) (live (record r { oid = new })))
              (sym f) (inr (unsealed, refl)),
        ))
      (λ n d. find_ref-set_oid_other c.refs name n new d)

-- A reference that is retired.
pub retire-Evolves :
    (c : Catalog) (r : RefRow) (name agent_id : Str) (oid : ObjectId)
    → IsConsistent c
    → find_ref c.refs name ≡ some r
    → r.oid ≡ oid
    → r.sealed ≡ false
    → r.protected ≡ false
    → Evolves c (pushed c (drop_row c.refs name) (move_entry name oid oid agent_id reflog_abandon))
retire-Evolves c r name agent_id oid (chained, unique, agree) f held unsealed free =
    pushed-Evolves c (drop_row c.refs name) (move_entry name oid oid agent_id reflog_abandon)
      (chained, unique, agree) (drop_row-IsUnique c.refs name unique)
      (next_chain (find_ref c.refs name) (last_row c.reflog name) r name oid oid agent_id
        reflog_abandon (agree name) f held)
      (subst
        (λ o.
          Agree o (some (move_entry name oid oid agent_id reflog_abandon))
          × Later (state c name)
              (state_of o (some (move_entry name oid oid agent_id reflog_abandon))))
        (sym (find_ref-drop_row c.refs name))
        (
          same_refl reflog_abandon,
          subst (λ o. Later (state_of o (last_row c.reflog name)) (retired oid)) (sym f)
              (unsealed, free),
        ))
      (λ n d. find_ref-drop_row_other c.refs name n d)
