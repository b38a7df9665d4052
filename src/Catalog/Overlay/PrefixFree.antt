-- ===== src/Catalog/Overlay/PrefixFree.antt =====
-- The staged entries of a mount describe one tree: no entry stands at an ancestor of another.
use forgefs.Base.{
  ℕ, Bool, true, false, not, ◌&&◌, ◌≡◌, refl, sym, subst, inl, inr, Option, List, [], ◌∷◌, ◌++◌,
  arith, Bool-cases, All, any, retain, ◌==◌, nat_eq, list_eq, Str, starts_with,
}
use forgefs.Types.{ObjectId, ok}
use forgefs.Catalog.{Catalog, OverlayRow}
use forgefs.Catalog.Overlay.{is_staged, clash, stage, overlay_upsert}
use forgefs.Catalog.Audit.Rows.{same_name}

abbrev pub same_mount : OverlayRow → OverlayRow → Bool
same_mount r s = is_staged r.ns_id r.mount s

-- Two entries that can stand together.
abbrev pub IsApart : OverlayRow → OverlayRow → Type 0
IsApart r s = same_mount r s ≡ true → clash r.path s.path ≡ false

abbrev pub IsPrefixFree : List OverlayRow → Type 0
IsPrefixFree [] = Unit
IsPrefixFree (r ∷ rows) = All (IsApart r) rows × IsPrefixFree rows

-- What holds of all entries holds of those that are kept.
pub retain-All :
    (P : OverlayRow → Type 0) (p : OverlayRow → Bool) (rows : List OverlayRow)
    → All P rows
    → All P (retain p rows)
retain-All P p [] h = tt
retain-All P p (r ∷ rows) (h, hs) = ground (arith, retain-All P p rows hs)

pub retain-IsPrefixFree :
    (p : OverlayRow → Bool) (rows : List OverlayRow)
    → IsPrefixFree rows
    → IsPrefixFree (retain p rows)
retain-IsPrefixFree p [] h = tt
retain-IsPrefixFree p (r ∷ rows) (h, hs) =
    ground (arith, retain-IsPrefixFree p rows hs, retain-All (IsApart r) p rows h)

-- An entry that stands apart from all others is staged.
pub stage-IsPrefixFree :
    (rows : List OverlayRow) (row : OverlayRow)
    → IsPrefixFree rows
    → All (IsApart row) rows
    → IsPrefixFree (stage rows row)
stage-IsPrefixFree rows row free apart =
    (retain-All (IsApart row) (dropped row) rows apart, retain-IsPrefixFree (dropped row) rows free)
  where
    dropped : OverlayRow → OverlayRow → Bool
    dropped row r = not (is_staged row.ns_id row.mount r && r.path == row.path)

longer : (a t : Str) (c : ℕ) → starts_with a (a ++ c ∷ t) ≡ false
unfolding starts_with
longer [] t c = refl
longer (x ∷ a) t c = ground (arith, longer a t c)

pub clash_self : (a : Str) → clash a a ≡ false
clash_self a = ground (arith, longer a [] b'/')

pub any_none :
    (p : OverlayRow → Bool) (rows : List OverlayRow)
    → any p rows ≡ false
    → All (λ r. p r ≡ false) rows
any_none p [] h = tt
any_none p (r ∷ rows) h = ground (arith, any_none p rows)

pub All-mono :
    (P Q : OverlayRow → Type 0) (rows : List OverlayRow)
    → ((r : OverlayRow) → P r → Q r)
    → All P rows
    → All Q rows
All-mono P Q [] f h = tt
All-mono P Q (r ∷ rows) f h = (f r h.0, All-mono P Q rows f h.1)

IsApart-unless :
    (ns_id mount path : Str) (blob_oid : Option ObjectId) (exec : Bool) (r : OverlayRow)
    → (is_staged ns_id mount r && (not (r.path == path) && clash r.path path)) ≡ false
    → IsApart
        (record { ns_id = ns_id; mount = mount; path = path; blob_oid = blob_oid; exec = exec })
        r
IsApart-unless ns_id mount path blob_oid exec r h same = elim (Bool-cases (r.path == path)) [
  | inl b ↦ subst (λ x. clash path x ≡ false) (sym (same_name r.path path b)) (clash_self path)
  | inr b ↦ ground arith
]

-- A staged entry leaves the overlay without an entry at an ancestor of another one's path, on every
-- mount, where it was without one before.
pub overlay_upsert-IsPrefixFree :
    (c c' : Catalog) (ns_id mount path : Str) (blob_oid : Option ObjectId) (exec : Bool)
    → IsPrefixFree c.overlay
    → overlay_upsert c ns_id mount path blob_oid exec ≡ ok c'
    → IsPrefixFree c'.overlay
unfolding overlay_upsert
overlay_upsert-IsPrefixFree c c' ns_id mount path blob_oid exec free h =
    let (none_clash, e) : (any
            (λ (r : OverlayRow).
              is_staged ns_id mount r && (not (r.path == path) && clash r.path path))
            c.overlay
          ≡ false)
        × (c'.overlay ≡ stage c.overlay row) =
      ground arith in
    subst IsPrefixFree (sym e) (
      stage-IsPrefixFree c.overlay row free (
        All-mono _ (IsApart row) c.overlay (IsApart-unless ns_id mount path blob_oid exec)
          (any_none _ c.overlay none_clash)))
  where
    row : OverlayRow
    row = record { ns_id = ns_id; mount = mount; path = path; blob_oid = blob_oid; exec = exec }
