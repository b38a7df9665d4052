-- ===== src/Catalog/Overlay/Rename.antt =====
-- A staged move keeps the entries apart.
use forgefs.Base.{
  Bool, true, false, not, ◌&&◌, ◌||◌, ◌≡◌, refl, sym, subst, inl, inr, none, some, List, [], ◌∷◌,
  ◌++◌, arith, Bool-cases, All, ◌==◌, nat_eq, list_eq, Str, bytes, starts_with,
}
use forgefs.Types.{ObjectId, ok}
use forgefs.Catalog.{Catalog, OverlayRow}
use forgefs.Catalog.Overlay.{
  is_ancestor, is_staged, clash, stage, supersede, has_ancestor, stage_all, overlay_rename,
}
use forgefs.Catalog.Overlay.PrefixFree.{
  IsApart, IsPrefixFree, retain-All, retain-IsPrefixFree, stage-IsPrefixFree, All-mono,
}
use forgefs.Catalog.Audit.Rows.{same_name}

-- A prefix of a prefix is one.
starts_with_trans :
    (c b p t : Str)
    → starts_with b p ≡ true
    → starts_with c (b ++ t) ≡ true
    → starts_with c p ≡ true
unfolding starts_with
starts_with_trans c b [] t h g = refl
starts_with_trans c [] (x ∷ p) t h g = cc
starts_with_trans [] (y ∷ b) (x ∷ p) t h g = cc
starts_with_trans (z ∷ c) (y ∷ b) (x ∷ p) t h g = ground (arith, starts_with_trans c b p t)

is_ancestor_trans :
    (a b c : Str) → is_ancestor a b ≡ true → is_ancestor b c ≡ true → is_ancestor a c ≡ true
is_ancestor_trans a b c h g = starts_with_trans c b (a ++ bytes "/") (bytes "/") h g

-- Two ancestors of one path are equal or one is the other's.
ancestors_chain :
    (s q d : Str)
    → is_ancestor s d ≡ true
    → is_ancestor q d ≡ true
    → (s == q || (is_ancestor s q || is_ancestor q s)) ≡ true
unfolding starts_with
ancestors_chain [] [] d h g = refl
ancestors_chain [] (c ∷ q) [] h g = cc
ancestors_chain [] (c ∷ q) (x ∷ d) h g = ground arith
ancestors_chain (c ∷ s) [] [] h g = cc
ancestors_chain (c ∷ s) [] (x ∷ d) h g = ground arith
ancestors_chain (c ∷ s) (c' ∷ q) [] h g = cc
ancestors_chain (c ∷ s) (c' ∷ q) (x ∷ d) h g = ground (arith, ancestors_chain s q d)

clash_sym : (a b : Str) → clash a b ≡ false → clash b a ≡ false
clash_sym a b h = ground arith

-- What stands apart from a path, and is not it, stands apart from all that is under it.
clash_below :
    (q d s : Str)
    → (s == q) ≡ false
    → clash q s ≡ false
    → (d == q || is_ancestor q d) ≡ true
    → clash d s ≡ false
clash_below q d s other apart below = elim (Bool-cases (d == q)) [
  | inl b ↦ subst (λ x. clash x s ≡ false) (sym (same_name d q b)) apart
  | inr b ↦ ground (arith, is_ancestor_trans q d s, ancestors_chain s q d)
]

module _ (ns_id mount : Str) where
  -- An entry of another mount, or one that stands apart from a path and is not at it.
  abbrev IsClear : Str → OverlayRow → Type 0
  IsClear q r = is_staged ns_id mount r ≡ true → ((r.path == q) ≡ false) × (clash q r.path ≡ false)

  abbrev entry : Str × ObjectId × Bool → OverlayRow
  entry d = record { ns_id = ns_id; mount = mount; path = d.0; blob_oid = some d.1; exec = d.2 }

  abbrev pub tombstone : Str → OverlayRow
  tombstone from = record {
    ns_id = ns_id;
    mount = mount;
    path = from;
    blob_oid = none;
    exec = false;
  }

  -- After `supersede`, an entry without the path's ancestors is clear of the path.
  superseded :
      (q : Str) (rows : List OverlayRow)
      → All
          (λ (r : OverlayRow).
            is_staged ns_id mount r ≡ true → (r.path == q || is_ancestor q r.path) ≡ false)
          (supersede ns_id mount q rows)
  superseded q [] = tt
  superseded q (r ∷ rows) = ground (arith, superseded q rows)

  cleared :
      (q : Str) (rows : List OverlayRow)
      → All
          (λ (r : OverlayRow).
            is_staged ns_id mount r ≡ true → (r.path == q || is_ancestor q r.path) ≡ false)
          rows
      → has_ancestor ns_id mount q rows ≡ false
      → All (IsClear q) rows
  cleared q [] h none_above = tt
  cleared q (r ∷ rows) (h, hs) none_above =
      ((λ same. ground (arith, h)), cleared q rows hs (ground arith))

  -- The destination's entries are at or under `to`, and stand apart from each other.
  abbrev pub IsDestination : Str → List (Str × ObjectId × Bool) → Type 0
  IsDestination to [] = Unit
  IsDestination to (d ∷ dest) =
      ((d.0 == to || is_ancestor to d.0) ≡ true)
      × All (λ e. clash d.0 e.0 ≡ false) dest
      × IsDestination to dest

  -- What is left of the overlay, and what is staged, is clear of the source.
  module _ (from to : Str) (other : (from == to) ≡ false) (apart : clash from to ≡ false) where
    dest-IsApart :
        (d : Str × ObjectId × Bool) (r : OverlayRow)
        → (d.0 == to || is_ancestor to d.0) ≡ true
        → IsClear to r
        → IsApart (entry d) r
    dest-IsApart d r below clear same =
        clash_below to d.0 r.path (clear same).0 (clear same).1 below

    -- Each of the entries to stage stands apart from those that are there.
    abbrev Fits : List (Str × ObjectId × Bool) → List OverlayRow → Type 0
    Fits [] rows = Unit
    Fits (d ∷ dest) rows = All (IsApart (entry d)) rows × Fits dest rows

    Fits-cleared :
        (dest : List (Str × ObjectId × Bool)) (rows : List OverlayRow)
        → IsDestination to dest
        → All (IsClear to) rows
        → Fits dest rows
    Fits-cleared [] rows h clear = tt
    Fits-cleared (d ∷ dest) rows (below, _, h) clear = (
      All-mono (IsClear to) (IsApart (entry d)) rows (λ r. dest-IsApart d r below) clear,
      Fits-cleared dest rows h clear,
    )

    abbrev dropped : Str × ObjectId × Bool → OverlayRow → Bool
    dropped d r = not (is_staged ns_id mount r && r.path == d.0)

    Fits-stage :
        (d : Str × ObjectId × Bool) (dest : List (Str × ObjectId × Bool)) (rows : List OverlayRow)
        → All (λ e. clash d.0 e.0 ≡ false) dest
        → Fits dest rows
        → Fits dest (stage rows (entry d))
    Fits-stage d [] rows h fits = tt
    Fits-stage d (e ∷ dest) rows (h, hs) (fit, fits) = (
      ((λ same. ground arith), retain-All (IsApart (entry e)) (dropped d) rows fit),
      Fits-stage d dest rows hs fits,
    )

    stage_all-IsPrefixFree :
        (dest : List (Str × ObjectId × Bool)) (rows : List OverlayRow)
        → IsPrefixFree rows
        → Fits dest rows
        → All (IsApart (tombstone from)) rows
        → IsDestination to dest
        → IsPrefixFree (stage_all ns_id mount rows dest)
          × All (IsApart (tombstone from)) (stage_all ns_id mount rows dest)
    stage_all-IsPrefixFree [] rows free fits source h = (free, source)
    stage_all-IsPrefixFree (d ∷ dest) rows free (fit, fits) source (below, apart_rest, h) =
        stage_all-IsPrefixFree dest (stage rows (entry d))
          (stage-IsPrefixFree rows (entry d) free fit) (Fits-stage d dest rows apart_rest fits)
          ((λ same. source_apart), retain-All (IsApart (tombstone from)) (dropped d) rows source) h
      where
        source_apart : clash from d.0 ≡ false
        source_apart = ground (arith, clash_below to d.0 from other (clash_sym from to apart) below)

    renamed-IsPrefixFree :
        (dest : List (Str × ObjectId × Bool)) (rows : List OverlayRow)
        → IsPrefixFree rows
        → All (IsClear from) rows
        → All (IsClear to) rows
        → IsDestination to dest
        → IsPrefixFree (stage (stage_all ns_id mount rows dest) (tombstone from))
    renamed-IsPrefixFree dest rows free clear_from clear_to h =
        let (staged, source) =
          stage_all-IsPrefixFree dest rows free (Fits-cleared dest rows h clear_to)
            (All-mono (IsClear from) (IsApart (tombstone from)) rows
              (λ r clear same. (clear same).1) clear_from)
            h in
        stage-IsPrefixFree (stage_all ns_id mount rows dest) (tombstone from) staged source

overlay_rename_rows :
    (c c' : Catalog) (ns_id mount from to : Str) (dest : List (Str × ObjectId × Bool))
    → overlay_rename c ns_id mount from to dest ≡ ok c'
    → (has_ancestor ns_id mount from
          (supersede ns_id mount to (supersede ns_id mount from c.overlay))
        ≡ false)
      × (has_ancestor ns_id mount to
            (supersede ns_id mount to (supersede ns_id mount from c.overlay))
          ≡ false)
      × (c'.overlay
          ≡ stage
              (stage_all ns_id mount
                (supersede ns_id mount to (supersede ns_id mount from c.overlay))
                dest)
              (tombstone ns_id mount from))
unfolding overlay_rename
overlay_rename_rows c c' ns_id mount from to dest e = ground arith

-- A staged move leaves the overlay without an entry at an ancestor of another one's path where it was
-- without one before, the two ends are different and neither is under the other, and the destination's
-- entries are at or under its end and clash with none of each other.
pub overlay_rename-IsPrefixFree :
    (c c' : Catalog) (ns_id mount from to : Str) (dest : List (Str × ObjectId × Bool))
    → IsPrefixFree c.overlay
    → (from == to) ≡ false
    → clash from to ≡ false
    → IsDestination ns_id mount to dest
    → overlay_rename c ns_id mount from to dest ≡ ok c'
    → IsPrefixFree c'.overlay
overlay_rename-IsPrefixFree c c' ns_id mount from to dest free other apart h e =
    subst IsPrefixFree (sym overlay') (
      renamed-IsPrefixFree ns_id mount from to other apart dest (supersede ns_id mount to rows1)
        (retain-IsPrefixFree (keeps to) rows1 (retain-IsPrefixFree (keeps from) c.overlay free))
        (cleared ns_id mount from (supersede ns_id mount to rows1)
          (retain-All (IsOutside from) (keeps to) rows1 (superseded ns_id mount from c.overlay))
          from_free)
        (cleared ns_id mount to (supersede ns_id mount to rows1) (superseded ns_id mount to rows1)
          to_free)
        h)
  where
    rows1 : List OverlayRow
    rows1 = supersede ns_id mount from c.overlay

    keeps : Str → OverlayRow → Bool
    keeps q r = not (is_staged ns_id mount r && (r.path == q || is_ancestor q r.path))

    IsOutside : Str → OverlayRow → Type 0
    IsOutside q r = is_staged ns_id mount r ≡ true → (r.path == q || is_ancestor q r.path) ≡ false

    outcome :
        (has_ancestor ns_id mount from (supersede ns_id mount to rows1) ≡ false)
        × (has_ancestor ns_id mount to (supersede ns_id mount to rows1) ≡ false)
        × (c'.overlay
            ≡ stage
                (stage_all ns_id mount (supersede ns_id mount to rows1) dest)
                (tombstone ns_id mount from))
    outcome = overlay_rename_rows c c' ns_id mount from to dest e

    from_free : has_ancestor ns_id mount from (supersede ns_id mount to rows1) ≡ false
    from_free = outcome.0

    to_free : has_ancestor ns_id mount to (supersede ns_id mount to rows1) ≡ false
    to_free = outcome.1

    overlay' :
        c'.overlay
        ≡ stage
            (stage_all ns_id mount (supersede ns_id mount to rows1) dest)
            (tombstone ns_id mount from)
    overlay' = outcome.2
