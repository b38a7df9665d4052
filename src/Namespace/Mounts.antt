-- ===== src/Namespace/Mounts.antt =====
-- `longest_mount` returns a mount that covers the path, and none that covers it is longer.
use forgefs.Base.{
  ℕ, ◌≤◌, ◌≡◌, refl, ap, ◌∙◌, sym, Bool, true, false, ◌&&◌, Option, none, some, List, [], ◌∷◌,
  arith, leb, Bool-cases, inl, inr, if◌then◌else◌, length, All, Str, subst,
}
use forgefs.Types.{Result, ok, err, ◌>>=◌, ok-injective, not_found}
use forgefs.Namespace.{Mount, normalize_abs, covers, mount_loop, longest_mount}

module _ (P : Mount → Type 0) (abs : Str) where
  -- A mount that is covered, of one length; nothing has length 0.
  abbrev pub IsFound : Option Mount → ℕ → Type 0
  IsFound none len = len ≡ 0
  IsFound (some m) len =
      P m × (mp : Str) × (normalize_abs m.path ≡ ok mp) × (covers abs mp ≡ true) × (len ≡ length mp)

  -- No longer than `len`, if it covers the path.
  abbrev pub IsWithin : ℕ → Mount → Type 0
  IsWithin len m =
      (mp : Str) → normalize_abs m.path ≡ ok mp → covers abs mp ≡ true → length mp ≤ len

  abbrev Best : ℕ → Option Mount → List Mount → Type 0
  Best len r mounts = (len' : ℕ) × IsFound r len' × (len ≤ len') × All (IsWithin len') mounts

  abbrev better : ℕ → Str → Bool
  better len mp = covers abs mp && leb len (length mp)

  module _ (best : Option Mount) (len : ℕ) (m : Mount) (mounts : List Mount) (r : Option Mount)
      (p : P m) where
    Best-taken :
        (mp : Str)
        → normalize_abs m.path ≡ ok mp
        → better len mp ≡ true
        → Best (length mp) r mounts
        → Best len r (m ∷ mounts)
    Best-taken mp e b (len', found, le, within) = (
      len',
      found,
      ground arith,
      (λ mp' e' c. omega (arith, ap length (ok-injective (sym e ∙ e')), le), within),
    )

    Best-kept :
        (mp : Str)
        → normalize_abs m.path ≡ ok mp
        → better len mp ≡ false
        → Best len r mounts
        → Best len r (m ∷ mounts)
    Best-kept mp e b (len', found, le, within) = (
      len',
      found,
      le,
      (
        λ mp' e' c.
            let same : mp ≡ mp' = ok-injective (sym e ∙ e') in
            subst (λ x. length x ≤ len') same
              (ground (arith, subst (λ x. covers abs x ≡ true) (sym same) c)),
        within,
      ),
    )

    Best-step :
        IsFound best len
        → ((best' : Option Mount) (len' : ℕ)
            → IsFound best' len'
            → mount_loop abs best' len' mounts ≡ ok r
            → Best len' r mounts)
        → (x : Result Str) → normalize_abs m.path ≡ x
        → ◌>>=◌ {U = Option Mount} x (λ mp.
          mount_loop abs
            (if better len mp then some m else best)
            (if better len mp then length mp else len)
            mounts)
          ≡ ok r
        → Best len r (m ∷ mounts)
    Best-step found more (err x) e h = cc
    Best-step found more (ok mp) e h = elim (Bool-cases (better len mp)) [
      | inl b ↦
          Best-taken mp e b (more (some m) (length mp) (p, mp, e, ground arith, refl) (rw b at h))
      | inr b ↦ Best-kept mp e b (more best len found (rw b at h))
    ]

  Best-mount_loop :
      (best : Option Mount) (len : ℕ) (mounts : List Mount) (r : Option Mount)
      → All P mounts
      → IsFound best len
      → mount_loop abs best len mounts ≡ ok r
      → Best len r mounts
  unfolding mount_loop
  Best-mount_loop best len [] r ps found h =
      (len, subst (λ x. IsFound x len) (ok-injective h) found, omega arith, tt)
  Best-mount_loop best len (m ∷ mounts) r (p, ps) found h =
      Best-step best len m mounts r p found
        (λ best' len' found' h'. Best-mount_loop best' len' mounts r ps found' h')
        (normalize_abs m.path) refl h

picked :
    (x : Result (Option Mount)) (m : Mount)
    → (x >>= λ best. elim best [ none ↦ err (not_found "no mount for {abs}") | some m ↦ ok m ])
      ≡ ok m
    → x ≡ ok (some m)
picked (err e) m h = cc
picked (ok none) m h = cc
picked (ok (some n)) m h = ground arith

-- The mount that `longest_mount` returns is one of the mounts (it has every property that all of them
-- have), it covers the normalized path, and every mount that covers it is no longer.
pub longest_mount_lem :
    (P : Mount → Type 0) (mounts : List Mount) (abs abs' : Str) (m : Mount)
    → All P mounts
    → normalize_abs abs ≡ ok abs'
    → longest_mount mounts abs ≡ ok m
    → (len : ℕ) × IsFound P abs' (some m) len × All (IsWithin P abs' len) mounts
unfolding longest_mount
longest_mount_lem P mounts abs abs' m ps e h =
    let loop : mount_loop abs' none 0 mounts ≡ ok (some m) =
      picked (mount_loop abs' none 0 mounts) m (rw e at h) in
    let (len, found, le, within) = Best-mount_loop P abs' none 0 mounts (some m) ps refl loop in
    (len, found, within)
