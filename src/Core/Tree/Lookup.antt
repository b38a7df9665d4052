-- ===== src/Core/Tree/Lookup.antt =====
-- forge-core/tree.rs: `Tree::get`, a binary search, finds what a walk over the entries finds.
use Prim.Native.Nat.Ordering.{lt, eq, gt}
use forgefs.Base.{
  subst, Option-cases, ℕ, zero, suc, ◌+◌, ◌-◌, ◌/◌, ◌≤◌, ◌<◌, ◌≡◌, refl, ◌∙◌, sym, Option, none,
  some, List, [], ◌∷◌, arith, leb, Bool-cases, inl, inr, if◌then◌else◌, length, get_elem?, cmp, ◌≺◌,
  eq_of_cmp, gt_of_lt, cmp_refl, Str, Ordering,
}
use forgefs.Core.Tree.{TreeEntry, Tree}
use forgefs.Core.Tree.Sorted.{Above, IsSorted}

abbrev name_cmp : Option TreeEntry → Str → Ordering
name_cmp none name = gt
name_cmp (some e) name = cmp e.name name

-- The loop of `slice::binary_search_by`: halves the size until it is 1.
search_loop : ℕ → List TreeEntry → Str → ℕ → ℕ → ℕ
search_loop zero es name base size = base
search_loop (suc fuel) es name base size =
    let half = size / 2 in
    let base' : ℕ = elim (name_cmp (get_elem? es (base + half)) name) [
      | gt ↦ base
      | _ ↦ base + half
    ] in
    let rest = search_loop fuel es name base' (size - half) in if leb size 1 then base else rest

-- `Tree::get`; the length is fuel enough, as a round takes one off the size at least.
unfoldable pub get : Tree → Str → Option TreeEntry
unfolding search_loop
get t name =
    let i = search_loop (length t.entries) t.entries name 0 (length t.entries) in
    let found = get_elem? t.entries i in elim (name_cmp found name) [ eq ↦ found | _ ↦ none ]

-- The entry of a name, by a walk.
abbrev pub lookup : List TreeEntry → Str → Option TreeEntry
lookup [] name = none
lookup (e ∷ es) name =
    let rest = lookup es name in elim (cmp e.name name) [ eq ↦ some e | _ ↦ rest ]

Above-get_elem? :
    (n : Str) (es : List TreeEntry) (j : ℕ) (e : TreeEntry)
    → Above n es
    → get_elem? es j ≡ some e
    → n ≺ e.name
Above-get_elem? n [] j e a h = cc
Above-get_elem? n (x ∷ es) zero e a h = ground arith
Above-get_elem? n (x ∷ es) (suc j) e a h = Above-get_elem? n es j e a.1 h

IsSorted-get_elem? :
    (es : List TreeEntry) (i j : ℕ) (a b : TreeEntry)
    → IsSorted es
    → i < j
    → get_elem? es i ≡ some a
    → get_elem? es j ≡ some b
    → a.name ≺ b.name
IsSorted-get_elem? [] i j a b s l h k = cc
IsSorted-get_elem? (x ∷ es) i zero a b s l h k = absurd (omega arith)
IsSorted-get_elem? (x ∷ es) zero (suc j) a b s l h k = ground (arith, Above-get_elem? x.name es j b)
IsSorted-get_elem? (x ∷ es) (suc i) (suc j) a b s l h k =
    IsSorted-get_elem? es i j a b s.1 (omega arith) h k

get_elem?-lt :
    (es : List TreeEntry) (i : ℕ) → i < length es → (e : TreeEntry) × (get_elem? es i ≡ some e)
get_elem?-lt [] i h = absurd (omega arith)
get_elem?-lt (x ∷ es) zero h = (x, refl)
get_elem?-lt (x ∷ es) (suc i) h = get_elem?-lt es i (omega arith)

-- A position that holds the name lies in the window.
abbrev Window : List TreeEntry → Str → ℕ → ℕ → Type 0
Window es name base size =
    (j : ℕ) (e : TreeEntry)
    → get_elem? es j ≡ some e
    → cmp e.name name ≡ eq
    → (base ≤ j) × (j < base + size)

module _ (es : List TreeEntry) (name : Str) (sorted : IsSorted es) where
  narrow :
      (base size half : ℕ) (mid : TreeEntry)
      → half ≤ size - half
      → 0 < half
      → get_elem? es (base + half) ≡ some mid
      → Window es name base size
      → Window es name (elim (cmp mid.name name) [ gt ↦ base | _ ↦ base + half ]) (size - half)
  narrow base size half mid fits pos at w j e h k = ground (
    arith,
    w j e h k,
    eq_of_cmp e.name name k,
    IsSorted-get_elem? es (base + half) j mid e sorted,
    IsSorted-get_elem? es j (base + half) e mid sorted,
    gt_of_lt e.name mid.name,
    gt_of_lt mid.name e.name,
    cmp_refl mid.name,
  )

  search_loop-Window :
      (fuel base size : ℕ)
      → 0 < size
      → size ≤ suc fuel
      → base + size ≤ length es
      → Window es name base size
      → Window es name (search_loop fuel es name base size) 1
  unfolding search_loop
  search_loop-Window zero base size pos enough inside w = λ j e h k. omega (arith, w j e h k)
  search_loop-Window (suc fuel) base size pos enough inside w = elim (Bool-cases (leb size 1)) [
    | inl one ↦ rw one (λ j e h k. ground (arith, w j e h k))
    | inr more ↦
        let big : 1 < size = ground arith in
        let (mid, at) = get_elem?-lt es (base + size / 2) (omega arith) in
        rw (more, at)
          (search_loop-Window fuel (elim (cmp mid.name name) [ gt ↦ base | _ ↦ base + size / 2 ])
            (size - size / 2) (omega arith) (omega arith) (ground arith)
            (narrow base size (size / 2) mid (omega arith) (omega arith) at w))
  ]

get_elem?-lt_length :
    (es : List TreeEntry) (j : ℕ) (e : TreeEntry) → get_elem? es j ≡ some e → j < length es
get_elem?-lt_length [] j e h = cc
get_elem?-lt_length (x ∷ es) zero e h = omega arith
get_elem?-lt_length (x ∷ es) (suc j) e h = omega (arith, get_elem?-lt_length es j e h)

-- The walk finds the entry at any position that holds the name.
lookup-get_elem? :
    (es : List TreeEntry) (name : Str) (j : ℕ) (e : TreeEntry)
    → IsSorted es
    → get_elem? es j ≡ some e
    → cmp e.name name ≡ eq
    → lookup es name ≡ some e
lookup-get_elem? [] name j e s h k = cc
lookup-get_elem? (x ∷ es) name zero e s h k = ground arith
lookup-get_elem? (x ∷ es) name (suc j) e s h k =
    ground
      (arith, lookup-get_elem? es name j e, Above-get_elem? x.name es j e, eq_of_cmp e.name name k)

abbrev At : List TreeEntry → Str → TreeEntry → Type 0
At es name e = (cmp e.name name ≡ eq) × (j : ℕ) × (get_elem? es j ≡ some e)

found-At :
    (x : TreeEntry) (es : List TreeEntry) (name : Str) (e : TreeEntry) (o : Ordering)
    → (lookup es name ≡ some e → At es name e)
    → cmp x.name name ≡ o
    → elim o [ eq ↦ some x | _ ↦ lookup es name ] ≡ some e
    → At (x ∷ es) name e
found-At x es name e lt more c h = let (k, j, at) = more h in (k, suc j, at)
found-At x es name e eq more c h = (ground arith, 0, h)
found-At x es name e gt more c h = let (k, j, at) = more h in (k, suc j, at)

lookup_found :
    (es : List TreeEntry) (name : Str) (e : TreeEntry) → lookup es name ≡ some e → At es name e
lookup_found [] name e h = cc
lookup_found (x ∷ es) name e h =
    found-At x es name e (cmp x.name name) (lookup_found es name e) refl h

abbrev pick : Option TreeEntry → Str → Option TreeEntry
pick found name = elim (name_cmp found name) [ eq ↦ found | _ ↦ none ]

-- The candidate is the only position that can hold the name.
module _ (es : List TreeEntry) (name : Str) (i : ℕ) (s : IsSorted es) (w : Window es name i 1) where
  pick_hit : (e : TreeEntry) → lookup es name ≡ some e → pick (get_elem? es i) name ≡ some e
  pick_hit e h =
      let (k, j, at) = lookup_found es name e h in
      let same : j ≡ i = omega (arith, w j e at k) in
      rw (subst (λ n. get_elem? es n ≡ some e) same at) (ground (arith, k))

  pick_miss : lookup es name ≡ none → pick (get_elem? es i) name ≡ none
  pick_miss h = elim (Option-cases (get_elem? es i)) [
    | inl e ↦ rw e
    | inr (x, e) ↦ rw e (ground (arith, lookup-get_elem? es name i x s e))
  ]

  pick-lookup : pick (get_elem? es i) name ≡ lookup es name
  pick-lookup = elim (Option-cases (lookup es name)) [
    | inl none_found ↦ pick_miss none_found ∙ sym none_found
    | inr (e, found) ↦ pick_hit e found ∙ sym found
  ]

search_Window :
    (es : List TreeEntry) (name : Str)
    → IsSorted es
    → Window es name (search_loop (length es) es name 0 (length es)) 1
search_Window [] name s = λ j e h k. cc
search_Window (x ∷ es) name s =
    search_loop-Window (x ∷ es) name s (length (x ∷ es)) 0 (length (x ∷ es)) (omega arith)
      (omega arith) (omega arith) (λ j e h k. omega (arith, get_elem?-lt_length (x ∷ es) j e h))

-- On a strictly sorted tree the binary search answers what a walk over the entries answers.
pub get-lookup : (t : Tree) (name : Str) → IsSorted t.entries → get t name ≡ lookup t.entries name
unfolding get
get-lookup t name s =
    pick-lookup t.entries name (search_loop (length t.entries) t.entries name 0 (length t.entries))
      s (search_Window t.entries name s)
