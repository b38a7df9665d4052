-- ===== src/Catalog/Audit/Consistent.antt =====
-- The tables `refs` and `reflog` agree, and the state of a name moves in one direction only.
use forgefs.Base.{
  true, false, ◌≡◌, refl, ◌∙◌, ◌⊎◌, inl, inr, Option, none, some, List, [], ◌∷◌, arith, ◌==◌,
  nat_eq, list_eq, Str,
}
use forgefs.Types.{ObjectId}
use forgefs.Catalog.{Catalog, RefRow, ReflogRow, find_ref, last_row, reflog_abandon}
use forgefs.Catalog.Audit.{chain_finding}
use forgefs.Catalog.Audit.Rows.{IsUnique}

-- A reference holds what the last entry of its name says, and a name without one is new or retired.
abbrev pub Agree : Option RefRow → Option ReflogRow → Type 0
Agree none none = Unit
Agree none (some r) = (r.reason == reflog_abandon) ≡ true
Agree (some row) none = ⊥
Agree (some row) (some r) = (r.new_oid ≡ row.oid) × ((r.reason == reflog_abandon) ≡ false)

abbrev pub IsChained : List ReflogRow → Type 0
IsChained [] = Unit
IsChained (r ∷ older) = (chain_finding (last_row older r.name) r ≡ []) × IsChained older

abbrev pub IsConsistent : Catalog → Type 0
IsConsistent c =
    IsChained c.reflog
    × IsUnique c.refs
    × ((name : Str) → Agree (find_ref c.refs name) (last_row c.reflog name))

-- What a catalog says of a name.
pub data RefState : Type 0 where
  unborn : RefState
  live : RefRow → RefState
  retired : ObjectId → RefState

abbrev pub state_of : Option RefRow → Option ReflogRow → RefState
state_of (some row) r = live row
state_of none none = unborn
state_of none (some r) = retired r.new_oid

abbrev pub state : Catalog → Str → RefState
state c name = state_of (find_ref c.refs name) (last_row c.reflog name)

-- The abstract machine of one name: it is born, it moves while it is not sealed, and it is retired
-- once. A move keeps the kind and the flags.
abbrev pub Later : RefState → RefState → Type 0
Later unborn t = Unit
Later (live row) unborn = ⊥
Later (live row) (live row') =
    (row' ≡ row) ⊎ ((row.sealed ≡ false) × (row' ≡ record row { oid = row'.oid }))
Later (live row) (retired oid) = (row.sealed ≡ false) × (row.protected ≡ false)
Later (retired oid) unborn = ⊥
Later (retired oid) (live row) = ⊥
Later (retired oid) (retired oid') = oid' ≡ oid

pub Later-refl : (s : RefState) → Later s s
Later-refl unborn = tt
Later-refl (live row) = inl refl
Later-refl (retired oid) = refl

abbrev Moves : RefRow → RefRow → Type 0
Moves row x = (x ≡ row) ⊎ ((row.sealed ≡ false) × (x ≡ record row { oid = x.oid }))

moves : (row x y : RefRow) → Moves row x → Moves x y → Moves row y
moves row x y (inl e) (inl f) = inl (f ∙ e)
moves row x y (inl e) (inr (s, f)) = inr (cc, cc)
moves row x y (inr (s, e)) (inl f) = inr (s, cc)
moves row x y (inr (s, e)) (inr (s', f)) = inr (s, cc)

dies :
    (row x : RefRow)
    → Moves row x
    → (x.sealed ≡ false) × (x.protected ≡ false)
    → (row.sealed ≡ false) × (row.protected ≡ false)
dies row x (inl e) h = (cc, cc)
dies row x (inr (s, e)) h = (cc, cc)

pub Later-trans : (s t u : RefState) → Later s t → Later t u → Later s u
Later-trans unborn t u p q = tt
Later-trans (live row) (live x) (live y) p q = moves row x y p q
Later-trans (live row) (live x) (retired o) p q = ground (arith, dies row x)
Later-trans (live row) (live x) unborn p q = q
Later-trans (live row) (retired o) (retired o') p q = p
Later-trans (live row) (retired o) (live y) p q = absurd q
Later-trans (live row) (retired o) unborn p q = absurd q
Later-trans (live row) unborn u p q = absurd p
Later-trans (retired o) (retired o') (retired o'') p q = q ∙ p
Later-trans (retired o) (retired o') (live y) p q = absurd q
Later-trans (retired o) (retired o') unborn p q = absurd q
Later-trans (retired o) (live x) u p q = absurd p
Later-trans (retired o) unborn u p q = absurd p

abbrev pub Evolves : Catalog → Catalog → Type 0
Evolves c d = IsConsistent d × ((name : Str) → Later (state c name) (state d name))

pub Evolves_trans : (c d e : Catalog) → Evolves c d → Evolves d e → Evolves c e
Evolves_trans c d e (p, f) (q, g) =
    (q, λ name. Later-trans (state c name) (state d name) (state e name) (f name) (g name))
