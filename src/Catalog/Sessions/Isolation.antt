-- ===== src/Catalog/Sessions/Isolation.antt =====
-- A checkin of one mount, and what it leaves of the others.
use forgefs.Base.{
  Bool, true, false, not, ◌&&◌, ◌≡◌, refl, sym, ap, ◌∙◌, subst, ◌⊎◌, inl, inr, some, List, [], ◌∷◌,
  ◌++◌, arith, Bool-cases, map, count, retain, retain_none, retain_all, ◌==◌, if◌then◌else◌, nat_eq,
  list_eq, Str, bytes,
}
use forgefs.Types.{ObjectId, ok}
use forgefs.Catalog.{
  Catalog, MountRow, OverlayRow, ObservationRow, insert_intros, insert_row, update_row,
}
use forgefs.Catalog.Names.{session_fork_name}
use forgefs.Catalog.Refs.{CasResult, create, create_fork}
use forgefs.Catalog.Sessions.{
  is_mount, update_mounts, overlay_clear, forget_mount, complete_noop_session, repin_mount,
  pin_root, session_swap, session_move, session_fork, cas_ref_session,
}
use forgefs.Catalog.Mounts.{get_mount, find_mount}
use forgefs.Catalog.Overlay.{is_staged, overlay_list}
use forgefs.Catalog.Audit.Rows.{same_name}
use forgefs.Catalog.Audit.Checkins.{cas_ref_session_lem}
use forgefs.Catalog.Audit.Operations.{insert_intros_lem}

-- The observations of one mount.
abbrev pub observed_on : Catalog → Str → Str → List ObservationRow
observed_on c ns_id mount =
    retain (λ (r : ObservationRow). r.ns_id == ns_id && r.mount == mount) c.observations

complete_lem :
    (c d : Catalog) (ns_id mount_path : Str) (pinned : ObjectId)
    → complete_noop_session c ns_id mount_path pinned ≡ ok d
    → (count (is_mount ns_id mount_path) c.mounts ≡ 1)
      × (d.overlay ≡ (overlay_clear c ns_id mount_path).overlay)
      × (d.observations ≡ (forget_mount c ns_id mount_path).observations)
      × (d.mounts
          ≡ (update_mounts c ns_id mount_path (λ m. record m { base_oid = some pinned })).1.mounts)
unfolding complete_noop_session repin_mount pin_root overlay_clear forget_mount
complete_lem c d ns_id mount_path pinned h = ground arith

swap_lem :
    (c c1 : Catalog) (current : ObjectId) (name : Str) (expected new : ObjectId)
    (agent_id fork ns_id mount_path : Str) (result : CasResult)
    → session_swap c current name expected new agent_id fork ns_id mount_path ≡ ok (result, c1)
    → (c1.overlay ≡ c.overlay)
      × (c1.observations ≡ c.observations)
      × ((c1.mounts ≡ c.mounts)
          ⊎ (c1.mounts
              ≡ (update_mounts c ns_id mount_path
                  (λ m. record m { spec = bytes "ref:" ++ fork })).1.mounts))
unfolding session_swap session_move session_fork update_row create_fork create insert_row
swap_lem c c1 current name expected new agent_id fork ns_id mount_path result h =
    elim (Bool-cases (current == expected)) [
      | inl b ↦ (ground arith, ground arith, inl (ground arith))
      | inr b ↦ (ground arith, ground arith, inr (ground arith))
    ]

-- Two keys of a mount that differ.
abbrev pub IsOther : Str → Str → Str → Str → Type 0
IsOther ns mount ns' mount' = (ns' == ns && mount' == mount) ≡ false

other_key :
    (a b ns mount ns' mount' : Str)
    → IsOther ns mount ns' mount'
    → (a == ns' && b == mount') ≡ true
    → (a == ns && b == mount) ≡ false
other_key a b ns mount ns' mount' other h =
    let left : (a == ns') ≡ true = ground arith in
    let right : (b == mount') ≡ true = ground arith in
    subst (λ x. (x == ns && b == mount) ≡ false) (sym (same_name a ns' left))
      (subst (λ y. (ns' == ns && y == mount) ≡ false) (sym (same_name b mount' right)) other)

module _ (change : MountRow → MountRow) (ns mount : Str)
    (keeps : (n p : Str) (m : MountRow) → is_mount n p (change m) ≡ is_mount n p m) where
  abbrev changed : List MountRow → List MountRow
  changed = map (λ (m : MountRow). if is_mount ns mount m then change m else m)

  find_mount-changed_other :
      (mounts : List MountRow) (ns' mount' : Str)
      → IsOther ns mount ns' mount'
      → find_mount (changed mounts) ns' mount' ≡ find_mount mounts ns' mount'
  find_mount-changed_other [] ns' mount' other = refl
  find_mount-changed_other (m ∷ mounts) ns' mount' other = ground (
    arith,
    find_mount-changed_other mounts ns' mount' other,
    keeps ns' mount' m,
    other_key m.ns_id m.path ns mount ns' mount' other,
  )

  find_mount-changed :
      (mounts : List MountRow)
      → count (is_mount ns mount) mounts ≡ 1
      → (m : MountRow) × (find_mount (changed mounts) ns mount ≡ some (change m))
  find_mount-changed [] h = cc
  find_mount-changed (m ∷ mounts) h = elim (Bool-cases (is_mount ns mount m)) [
    | inl b ↦ (m, ground (arith, keeps ns mount m))
    | inr b ↦
        let (x, e) = find_mount-changed mounts (ground arith) in
        (x, ground (arith, keeps ns mount m))
  ]

-- The tables after a checkin, by those before.
session_tables :
    (c c' : Catalog) (name : Str) (expected new : ObjectId)
    (agent_id fork_agent ulid ns_id mount_path : Str) (intro_oids : List ObjectId)
    (result : CasResult)
    → cas_ref_session c name expected new agent_id fork_agent ulid ns_id mount_path intro_oids
      ≡ ok (result, c')
    → (c'.overlay ≡ (overlay_clear c ns_id mount_path).overlay)
      × (c'.observations ≡ (forget_mount c ns_id mount_path).observations)
      × ((mounts : List MountRow) × (count (is_mount ns_id mount_path) mounts ≡ 1)
          × (c'.mounts
              ≡ map
                  (λ (m : MountRow).
                    if is_mount ns_id mount_path m then record m { base_oid = some new } else m)
                  mounts)
          × ((mounts ≡ c.mounts)
              ⊎ (mounts
                  ≡ map
                      (λ (m : MountRow).
                        if is_mount ns_id mount_path m
                        then record m {
                          spec = bytes "ref:" ++ session_fork_name name fork_agent ulid;
                        }
                        else m)
                      c.mounts)))
unfolding overlay_clear forget_mount
session_tables c c' name expected new agent_id fork_agent ulid ns_id mount_path intro_oids result
      h =
    let (r, c1, c2, _, _, q, w, e) =
      cas_ref_session_lem c c' name expected new agent_id fork_agent ulid ns_id mount_path
        intro_oids result h in
    let (ov1, ob1, mo1) =
      swap_lem c c1 r.oid name expected new agent_id (session_fork_name name fork_agent ulid) ns_id
        mount_path result q in
    let (n, ov2, ob2, mo2) = complete_lem c1 c2 ns_id mount_path new w in
    let last : c' ≡ record c2 { intros = (insert_intros c2 intro_oids new agent_id).intros } =
      e ∙ insert_intros_lem c2 intro_oids new agent_id in
    (
      ap (λ d. d.overlay) last
          ∙ ov2
          ∙ ap
              (λ (l : List OverlayRow).
                retain (λ r. not (r.ns_id == ns_id && r.mount == mount_path)) l)
              ov1,
      ap (λ d. d.observations) last
          ∙ ob2
          ∙ ap
              (λ (l : List ObservationRow).
                retain (λ r. not (r.ns_id == ns_id && r.mount == mount_path)) l)
              ob1,
      (c1.mounts, n, ap (λ d. d.mounts) last ∙ mo2, mo1),
    )

-- A checkin that ends well, whether it moved its reference or made a fork, empties the overlay and
-- forgets the observations of its own mount, and pins it at the new commit; every other mount, of this
-- session or of another one, keeps its staged entries, its observations and its row.
pub cas_ref_session_isolated :
    (c c' : Catalog) (name : Str) (expected new : ObjectId)
    (agent_id fork_agent ulid ns_id mount_path : Str) (intro_oids : List ObjectId)
    (result : CasResult)
    → cas_ref_session c name expected new agent_id fork_agent ulid ns_id mount_path intro_oids
      ≡ ok (result, c')
    → (overlay_list c' ns_id mount_path ≡ [])
      × (observed_on c' ns_id mount_path ≡ [])
      × ((m : MountRow) × (get_mount c' ns_id mount_path ≡ some m) × (m.base_oid ≡ some new))
      × ((ns : Str) (mount : Str)
          → IsOther ns_id mount_path ns mount
          → (overlay_list c' ns mount ≡ overlay_list c ns mount)
            × (observed_on c' ns mount ≡ observed_on c ns mount)
            × (get_mount c' ns mount ≡ get_mount c ns mount))
unfolding overlay_list get_mount overlay_clear forget_mount
cas_ref_session_isolated c c' name expected new agent_id fork_agent ulid ns_id mount_path intro_oids
      result h =
    let (ov, ob, (mounts, one, mo, before)) =
      session_tables c c' name expected new agent_id fork_agent ulid ns_id mount_path intro_oids
        result h in
    (
      ap (retain (is_staged ns_id mount_path)) ov
          ∙ retain_none (is_staged ns_id mount_path) _ c.overlay (λ r p. ground arith),
      ap (retain (on_mount ns_id mount_path)) ob
          ∙ retain_none (on_mount ns_id mount_path) _ c.observations (λ r p. ground arith),
      pinned mounts one mo,
      λ ns mount other. (
        ap (retain (is_staged ns mount)) ov
            ∙ retain_all (is_staged ns mount) _ c.overlay
                (λ r p. ground (arith, other_key r.ns_id r.mount ns_id mount_path ns mount other)),
        ap (retain (on_mount ns mount)) ob
            ∙ retain_all (on_mount ns mount) _ c.observations
                (λ r p. ground (arith, other_key r.ns_id r.mount ns_id mount_path ns mount other)),
        kept ns mount other mounts mo before,
      ),
    )
  where
    on_mount : Str → Str → ObservationRow → Bool
    on_mount ns mount r = r.ns_id == ns && r.mount == mount

    pin : MountRow → MountRow
    pin m = record m { base_oid = some new }

    pinned :
        (mounts : List MountRow)
        → count (is_mount ns_id mount_path) mounts ≡ 1
        → c'.mounts
          ≡ map
              (λ (m : MountRow).
                if is_mount ns_id mount_path m then record m { base_oid = some new } else m)
              mounts
        → (m : MountRow) × (find_mount c'.mounts ns_id mount_path ≡ some m)
          × (m.base_oid ≡ some new)
    pinned mounts one mo =
        let (m, e) = find_mount-changed pin ns_id mount_path (λ n p m. refl) mounts one in
        (pin m, ap (λ l. find_mount l ns_id mount_path) mo ∙ e, refl)

    kept :
        (ns mount : Str)
        → IsOther ns_id mount_path ns mount
        → (mounts : List MountRow)
        → c'.mounts
          ≡ map
              (λ (m : MountRow).
                if is_mount ns_id mount_path m then record m { base_oid = some new } else m)
              mounts
        → ((mounts ≡ c.mounts)
            ⊎ (mounts
                ≡ map
                    (λ (m : MountRow).
                      if is_mount ns_id mount_path m
                      then record m {
                        spec = bytes "ref:" ++ session_fork_name name fork_agent ulid;
                      }
                      else m)
                    c.mounts))
        → find_mount c'.mounts ns mount ≡ find_mount c.mounts ns mount
    kept ns mount other mounts mo before =
        ap (λ l. find_mount l ns mount) mo
        ∙ find_mount-changed_other pin ns_id mount_path (λ n p m. refl) mounts ns mount other
        ∙ elim before [
          | inl e ↦ ap (λ l. find_mount l ns mount) e
          | inr e ↦
              ap (λ l. find_mount l ns mount) e
              ∙ find_mount-changed_other
                  (λ m. record m { spec = bytes "ref:" ++ session_fork_name name fork_agent ulid })
                  ns_id mount_path (λ n p m. refl) c.mounts ns mount other
        ]
