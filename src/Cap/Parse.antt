-- ===== src/Cap/Parse.antt =====
-- forge-cap: the parser of caveats, and the credential that it makes of signed caveats.
use Prim.Native.Nat.{min}
pub mod Narrow
pub mod Steps
pub mod Ops
use forgefs.Base.{
  ◌≡◌, refl, arith, ℕ, Bool, true, false, not, Option, none, some, List, [], ◌∷◌, ◌++◌, leb,
  if◌then◌else◌, length, contains, ◌==◌, list_eq, nat_eq, Bytes, Str, bytes, strip_prefix, split,
  split_once, trim, parse_u64,
}
use forgefs.Types.{Error, ok-injective, Result, ok, err, ◌>>=◌, ◌>>◌, guard, cap_error}
use forgefs.Cap.{
  Op, op_eq, parse, max_caveats, max_field_bytes, RefSet, OpRefSets, ParsedCaveats, Cap, is_empty,
}

unfoldable pub checked_u16_len : Str → Result ℕ
checked_u16_len s = do
  guard (leb (length s) max_field_bytes) (cap_error "{what} too large")
  ok (length s)

-- `HashSet::insert`
abbrev insert_op : Op → List Op → List Op
insert_op op set = if contains set op then set else set ++ op ∷ []

abbrev pub intersection : List Op → List Op → List Op
intersection [] set = []
intersection (o ∷ prev) set =
    let rest = intersection prev set in if contains set o then o ∷ rest else rest

-- One part of `ops=`.
add_op : List Op → Str → Result (List Op)
unfolding parse
add_op set part =
    let p = trim part in if is_empty p then ok set else do op ← parse p; ok (insert_op op set)

unfoldable pub parse_ops : List Op → List Str → Result (List Op)
unfolding add_op
parse_ops set [] = ok set
parse_ops set (part ∷ parts) = do set' ← add_op set part; parse_ops set' parts

-- `.map(str::trim).filter(|s| !s.is_empty())`
abbrev trimmed : List Str → List Str
trimmed [] = []
trimmed (p ∷ ps) = let rest = trimmed ps in if is_empty (trim p) then rest else trim p ∷ rest

unfoldable pub parse_ref_set : Str → Result RefSet
parse_ref_set rest =
    let set = trimmed (split rest b',') in
    do guard (not (is_empty set)) (cap_error "empty {kind} caveat"); ok set

-- `entry(op).or_default().push(set)`
abbrev pub push_set : OpRefSets → Op → RefSet → OpRefSets
push_set [] op set = (op, set ∷ []) ∷ []
push_set ((o, sets) ∷ m) op set =
    let rest = push_set m op set in if o == op then (o, sets ++ set ∷ []) ∷ m else (o, sets) ∷ rest

-- The state of the loop over the caveats; `ops` is `None` until the first `ops=` caveat.
pub record Scan : Type 0 where
  pub ops : Option (List Op)
  pub ref_sets : List RefSet
  pub op_ref_sets : OpRefSets
  pub ref_not : List Str
  pub time_le : Option ℕ
  pub agent : Option Str
  pub agent_conflict : Bool

abbrev pub start : Scan
start = record {
  ops = none;
  ref_sets = [];
  op_ref_sets = [];
  ref_not = [];
  time_le = none;
  agent = none;
  agent_conflict = false;
}

scan_ops : Scan → Str → Result Scan
unfolding parse_ops
scan_ops s rest = do
  set ← parse_ops [] (split rest b',')
  ok (record s { ops = elim s.ops [ none ↦ some set | some prev ↦ some (intersection prev set) ] })

scan_allow : Scan → Str → Result Scan
unfolding parse parse_ref_set
scan_allow s rest = elim (split_once rest b':') [
  | none ↦ err (cap_error "allow caveat needs allow=<op>:<refs>")
  | some (op_s, refs) ↦ do
    op ← parse (trim op_s)
    set ← parse_ref_set refs
    ok (record s { op_ref_sets = push_set s.op_ref_sets op set })
]

scan_ref_not : Scan → Str → Result Scan
unfolding parse_ref_set
scan_ref_not s rest = do set ← parse_ref_set rest; ok (record s { ref_not = s.ref_not ++ set })

scan_ref : Scan → Str → Result Scan
unfolding parse_ref_set
scan_ref s rest = do set ← parse_ref_set rest; ok (record s { ref_sets = s.ref_sets ++ set ∷ [] })

scan_time : Scan → Str → Result Scan
scan_time s rest = elim (parse_u64 rest) [
  | none ↦ err (cap_error "bad time<=")
  | some t ↦
      ok (record s { time_le = elim s.time_le [ none ↦ some t | some prev ↦ some (min prev t) ] })
]

scan_agent : Scan → Str → Result Scan
scan_agent s rest = do
  guard (not (is_empty rest)) (cap_error "empty agent caveat")
  elim s.agent [
    | none ↦ ok (record s { agent = some rest })
    | some prev ↦ if prev == rest then ok s else ok (record s { agent_conflict = true })
  ]

-- One round of the loop in `parse_caveats`: the prefix tests in the source's order.
pub scan_caveat : Scan → Str → Result Scan
scan_caveat s c = do
  _ ← checked_u16_len c
  elim (strip_prefix c (bytes "ops=")) [
    | some rest ↦ scan_ops s rest
    | none ↦ elim (strip_prefix c (bytes "allow=")) [
      | some rest ↦ scan_allow s rest
      | none ↦ elim (strip_prefix c (bytes "ref!=")) [
        | some rest ↦ scan_ref_not s rest
        | none ↦ elim (strip_prefix c (bytes "ref=")) [
          | some rest ↦ scan_ref s rest
          | none ↦ elim (strip_prefix c (bytes "time<=")) [
            | some rest ↦ scan_time s rest
            | none ↦ elim (strip_prefix c (bytes "agent=")) [
              | some rest ↦ scan_agent s rest
              | none ↦ err (cap_error "unknown caveat {c}")
            ]
          ]
        ]
      ]
    ]
  ]

pub scan_caveats : Scan → List Str → Result Scan
scan_caveats s [] = ok s
scan_caveats s (c ∷ cs) = do s' ← scan_caveat s c; scan_caveats s' cs

-- `ops.unwrap_or_default()`, the other fields as they are.
abbrev pub finish : Scan → ParsedCaveats
finish s = record {
  ops = elim s.ops [ none ↦ [] | some set ↦ set ];
  ref_sets = s.ref_sets;
  op_ref_sets = s.op_ref_sets;
  ref_not = s.ref_not;
  time_le = s.time_le;
  agent = s.agent;
  agent_conflict = s.agent_conflict;
}

-- The line opens every step of the loop.
unfoldable pub parse_caveats : List Str → Result ParsedCaveats
unfolding scan_caveats scan_caveat checked_u16_len scan_ops scan_allow scan_ref_not scan_ref
    scan_time scan_agent
parse_caveats caveats = do
  guard (leb (length caveats) max_caveats) (cap_error "too many caveats")
  s ← scan_caveats start caveats
  ok (finish s)

unfoldable pub cap_from_parts : Str → Str → List Str → Bytes → Result Cap
cap_from_parts loc id caveats sig = do
  parsed ← parse_caveats caveats
  ok (record { loc = loc; id = id; caveats = caveats; sig = sig; parsed = parsed })

-- What a successful `cap_from_parts` returns.
pub cap_from_parts_lem :
    (loc id : Str) (caveats : List Str) (sig : Bytes) (cap : Cap)
    → cap_from_parts loc id caveats sig ≡ ok cap
    → (cap.loc ≡ loc)
      × (cap.id ≡ id)
      × (cap.caveats ≡ caveats)
      × (cap.sig ≡ sig)
      × (parse_caveats caveats ≡ ok cap.parsed)
unfolding cap_from_parts
cap_from_parts_lem loc id caveats sig cap h = ground arith

settled_scan :
    (b : Bool) (e : Error) (r : Result Scan) (p : ParsedCaveats)
    → (guard b e >> (r >>= λ s. ok (finish s))) ≡ ok p
    → (s : Scan) × (r ≡ ok s) × (finish s ≡ p)
settled_scan true e (ok s) p h = (s, refl, ok-injective h)
settled_scan true e (err x) p h = cc
settled_scan false e r p h = cc

pub parse_caveats_lem :
    (cs : List Str) (p : ParsedCaveats)
    → parse_caveats cs ≡ ok p
    → (s : Scan) × (scan_caveats start cs ≡ ok s) × (finish s ≡ p)
unfolding parse_caveats
parse_caveats_lem cs p h =
    settled_scan (leb (length cs) max_caveats) (cap_error "too many caveats")
      (scan_caveats start cs) p h
