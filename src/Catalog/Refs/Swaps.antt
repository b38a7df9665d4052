-- ===== src/Catalog/Refs/Swaps.antt =====
-- What a compare-and-swap leaves in `refs`, and when it ends well.
use forgefs.Base.{
  Bool, true, false, not, ◌||◌, ◌≡◌, sym, ◌∙◌, subst, ◌⊎◌, inl, inr, Option, none, some, ◌∷◌, arith,
  Bool-cases, Option-cases, ◌==◌, nat_eq, list_eq, contains, Str, bytes, starts_with,
}
use forgefs.Types.{ObjectId, ok}
use forgefs.Catalog.{
  Catalog, RefRow, find_ref, get_ref, ref_exists, ref_kinds, insert_row, set_oid, update_row,
}
use forgefs.Catalog.Names.{validate_ref_kind, fork_name}
use forgefs.Catalog.Refs.{
  CasResult, updated, forked, create, plain_row, move_entry, cas_ref, cas_row, create_fork,
}
use forgefs.Catalog.Audit.Rows.{same_name, find_ref-set_oid, find_first, find_behind, none-some}
use forgefs.Catalog.Audit.Statements.{create_lem, pushed}
use forgefs.Catalog.Audit.Operations.{
  cas_row_moves, cas_row_forks, cas_ref_new, cas_ref_row, create_fork_lem,
}

create-get :
    (c c' : Catalog) (row : RefRow) (old : Option ObjectId) (agent_id reason : Str)
    → create c row old agent_id reason ≡ ok c'
    → (find_ref c.refs row.name ≡ none)
      × (find_ref c'.refs row.name ≡ some row)
      × ((n : Str) (r : RefRow) → find_ref c.refs n ≡ some r → find_ref c'.refs n ≡ some r)
create-get c c' row old agent_id reason h =
    let (new, e) = create_lem c c' row old agent_id reason h in
    (
      new,
      subst (λ d. find_ref d.refs row.name ≡ some row) (sym e) (find_first row c.refs),
      λ n r f. subst (λ d. find_ref d.refs n ≡ some r) (sym e) (others n r new f),
    )
  where
    others :
        (n : Str) (r : RefRow)
        → find_ref c.refs row.name ≡ none
        → find_ref c.refs n ≡ some r
        → find_ref (row ∷ c.refs) n ≡ some r
    others n r new f = elim (Bool-cases (row.name == n)) [
      | inl b ↦
          absurd (
            none-some
              (sym (subst (λ x. find_ref c.refs x ≡ none) (same_name row.name n b) new) ∙ f))
      | inr b ↦ find_behind row c.refs n b ∙ f
    ]

-- What a swap that ends well says and leaves: the name is new and holds the commit; or it held what
-- was expected and holds the commit; or it held something else and holds it still, and a fork, whose
-- name was free, holds the commit.
abbrev pub Outcome : Catalog → Catalog → Str → Str → ObjectId → ObjectId → Str → CasResult → Type 0
Outcome c c' name fork expected new kind result =
    ((get_ref c name ≡ none)
      × (get_ref c' name ≡ some (plain_row name new kind))
      × (result ≡ updated name new))
    ⊎ ((r : RefRow) × (get_ref c name ≡ some r)
        × (((r.oid ≡ expected)
              × (get_ref c' name ≡ some (record r { oid = new }))
              × (result ≡ updated name new))
            ⊎ (((r.oid == expected) ≡ false)
                × (get_ref c' name ≡ some r)
                × (get_ref c fork ≡ none)
                × (get_ref c' fork ≡ some (plain_row fork new kind))
                × (result ≡ forked name fork new r.oid))))

-- A compare-and-swap that ends well loses no commit: where the name has no reference it creates one;
-- where the reference holds what is expected, it moves to the new commit and keeps its kind and flags;
-- and where it holds anything else, it stays as it is and the new commit is under the fork's name,
-- which was free. The result says which of the three it was.
pub cas_ref_lem :
    (c c' : Catalog) (name : Str) (expected new : ObjectId) (kind agent_id fork_agent ulid : Str)
    (allow_protected : Bool) (result : CasResult)
    → cas_ref c name expected new kind agent_id fork_agent ulid allow_protected ≡ ok (result, c')
    → Outcome c c' name (fork_name name fork_agent ulid) expected new kind result
unfolding get_ref
cas_ref_lem c c' name expected new kind agent_id fork_agent ulid allow_protected result h =
    elim (Option-cases (find_ref c.refs name)) [
      | inl f ↦
          let (_, e, i) =
            cas_ref_new c c' name expected new kind agent_id fork_agent ulid allow_protected result
              f h in
          let (_, own, _) =
            create-get c c' (plain_row name new kind) none agent_id (bytes "cas") e in
          inl (f, own, i)
      | inr (r, f) ↦ inr (
        r,
        f,
        elim (Bool-cases (r.oid == expected)) [
          | inl b ↦
              let (_, e, i) =
                cas_row_moves c c' r name expected new kind agent_id fork_agent ulid allow_protected
                  result f b (row r f) in
              inl (
                same_name r.oid expected b,
                subst (λ d. find_ref d.refs name ≡ some (record r { oid = new })) (sym e)
                    (find_ref-set_oid c.refs name new r f),
                i,
              )
          | inr b ↦
              let (e, i) =
                create_fork_lem c c' name (fork_name name fork_agent ulid) r.oid new kind agent_id
                  result
                  (cas_row_forks c c' r name expected new kind agent_id fork_agent ulid
                    allow_protected result f b (row r f)) in
              let (free, own, others) =
                create-get c c' (plain_row (fork_name name fork_agent ulid) new kind) (some r.oid)
                  agent_id (bytes "fork") e in
              inr (b, others name r f, free, own, i)
        ],
      )
    ]
  where
    row :
        (r : RefRow)
        → find_ref c.refs name ≡ some r
        → cas_row c r name expected new kind agent_id fork_agent ulid allow_protected
          ≡ ok (result, c')
    row r f =
        cas_ref_row c c' r name expected new kind agent_id fork_agent ulid allow_protected result f
          h

-- A compare-and-swap always ends well, in a move or in a fork, where the reference has the kind that
-- is asked for, one that the name and the fork's name allow, is not sealed, and is not protected or the
-- caller may move it, the name is not a tag's, and no reference has the fork's name.
pub cas_ref_progress :
    (c : Catalog) (r : RefRow) (name : Str) (expected new : ObjectId)
    (kind agent_id fork_agent ulid : Str) (allow_protected : Bool)
    → get_ref c name ≡ some r
    → validate_ref_kind name kind ≡ ok tt
    → starts_with name (bytes "tags/") ≡ false
    → (r.kind == kind) ≡ true
    → r.sealed ≡ false
    → (not r.protected || allow_protected) ≡ true
    → contains ref_kinds kind ≡ true
    → validate_ref_kind (fork_name name fork_agent ulid) kind ≡ ok tt
    → get_ref c (fork_name name fork_agent ulid) ≡ none
    → (result : CasResult) × (c' : Catalog) × (cas_ref c name expected new kind agent_id fork_agent
          ulid allow_protected
        ≡ ok (result, c'))
unfolding cas_ref cas_row update_row create_fork create insert_row ref_exists get_ref
cas_ref_progress c r name expected new kind agent_id fork_agent ulid allow_protected f valid tag k s
      p listed fork_valid free =
    elim (Bool-cases (r.oid == expected)) [
      | inl b ↦ (
        updated name new,
        pushed c (set_oid c.refs name new) (move_entry name expected new agent_id (bytes "cas")),
        ground arith,
      )
      | inr b ↦ (
        forked name (fork_name name fork_agent ulid) new r.oid,
        pushed c (plain_row (fork_name name fork_agent ulid) new kind ∷ c.refs)
            (move_entry (fork_name name fork_agent ulid) r.oid new agent_id (bytes "fork")),
        ground arith,
      )
    ]
