-- ===== src/Cap.antt =====
-- forge-cap: the credential, what its caveats say, and the test `allows`.
pub mod Parse
pub mod Chain
pub mod Token
use forgefs.Base.{
  ℕ, suc, ◌+◌, ◌*◌, ◌≤◌, ◌<◌, ◌≡◌, Bool, true, false, not, ◌&&◌, ◌||◌, Option, none, some, List, [],
  ◌∷◌, ◌++◌, arith, ltb, leb, eqb, if◌then◌else◌, length, any, contains, Eq, ◌==◌, list_eq, nat_eq,
  ◌↔◌, Bytes, Str, bytes, strip_prefix, strip_suffix_char, starts_with, split, split_once, trim,
  parse_u64,
}
use forgefs.Types.{Error, denied, Result, Checked, ok, err, ◌>>=◌, ◌>>◌, guard, cap_error}

pub data Op : Type 0 where
  read write branch merge grant seal : Op

op_index : Op → ℕ
op_index read = 0
op_index write = 1
op_index branch = 2
op_index merge = 3
op_index grant = 4
op_index seal = 5

unfoldable pub eq_op : Op → Op → Bool
unfolding op_index
eq_op a b = eqb (op_index a) (op_index b)

pub eq_op_iff : (a b : Op) → (eq_op a b ≡ true) ↔ (a ≡ b)
unfolding eq_op op_index
eq_op_iff a b = ground arith

instance abbrev pub op_eq : Eq Op
op_eq = record { same = eq_op; same_iff = eq_op_iff }

unfoldable pub as_str : Op → Str
as_str read = bytes "read"
as_str write = bytes "write"
as_str branch = bytes "branch"
as_str merge = bytes "merge"
as_str grant = bytes "grant"
as_str seal = bytes "seal"

-- `Op::parse`
unfoldable pub parse : Str → Result Op
parse s =
    if s == bytes "read"
    then ok read
    else if s == bytes "write"
    then ok write
    else if s == bytes "branch"
    then ok branch
    else if s == bytes "merge"
    then ok merge
    else if s == bytes "grant"
    then ok grant
    else if s == bytes "seal"
    then ok seal
    else err (cap_error "unknown op {other}")

abbrev pub max_token_bytes : ℕ
max_token_bytes = 64 * 1024

abbrev pub max_caveats : ℕ
max_caveats = 256

abbrev pub max_field_bytes : ℕ
max_field_bytes = 65535

-- A reference caveat: any one of the globs. `op_ref_sets` maps an operation to its caveats.
abbrev pub RefSet : Type 0
RefSet = List Str

abbrev pub OpRefSets : Type 0
OpRefSets = List (Op × List RefSet)

-- What the caveats say. `Cap` holds these fields too.
pub record ParsedCaveats : Type 0 where
  pub ops : List Op
  pub ref_sets : List RefSet
  pub op_ref_sets : OpRefSets
  pub ref_not : List Str
  pub time_le : Option ℕ
  pub agent : Option Str
  pub agent_conflict : Bool

pub record Cap : Type 0 where
  pub loc : Str
  pub id : Str
  pub caveats : List Str
  pub sig : Bytes
  pub parsed : ParsedCaveats
  pub open parsed use *

unfoldable pub ref_matches : Str → Str → Bool
ref_matches glob name = elim (strip_suffix_char glob b'*') [
  | some prefix ↦ starts_with name prefix
  | none ↦ glob == name
]

unfoldable pub matches_any : RefSet → Str → Bool
matches_any globs name = any (λ g. ref_matches g name) globs

-- The loop that returns at the first set which does not match.
unfoldable pub all_match : List RefSet → Str → Error → Checked
all_match [] name e = ok tt
all_match (allowed ∷ sets) name e = do guard (matches_any allowed name) e; all_match sets name e

abbrev pub get : OpRefSets → Op → Option (List RefSet)
get [] op = none
get ((o, sets) ∷ m) op = let rest = get m op in if o == op then some sets else rest

unfoldable pub allows_ref : ParsedCaveats → Op → Str → Checked
allows_ref p op name = do
  guard (not (any (λ n. ref_matches n name) p.ref_not)) (denied "cap excludes ref {name}")
  all_match p.ref_sets name (denied "cap does not cover ref {name}")
  elim (get p.op_ref_sets op) [
    | none ↦ ok tt
    | some scoped ↦ all_match scoped name (denied "cap does not allow {} on ref {name}")
  ]

abbrev pub not_expired : Option ℕ → ℕ → Bool
not_expired none now_ms = true
not_expired (some t) now_ms = not (ltb t now_ms)

unfoldable pub allows_parsed : ParsedCaveats → Op → Option Str → ℕ → Checked
allows_parsed p op ref_name now_ms = do
  guard (not p.agent_conflict) (denied "cap has conflicting agent caveats")
  guard (contains p.ops op) (denied "cap missing op {}")
  guard (not_expired p.time_le now_ms) (denied "cap expired")
  elim ref_name [ none ↦ ok tt | some name ↦ allows_ref p op name ]

unfoldable pub allows : Cap → Op → Option Str → ℕ → Checked
allows cap op ref_name now_ms = allows_parsed cap.parsed op ref_name now_ms

unfoldable pub agent_id : Cap → Str
agent_id cap = elim cap.agent [ some a ↦ a | none ↦ bytes "anon" ]

abbrev pub is_empty {ℓ} : {A : Type ℓ} → List A → Bool
is_empty [] = true
is_empty (x ∷ xs) = false

unfoldable pub has_unrestricted_ref_scope : Cap → Bool
has_unrestricted_ref_scope cap =
    is_empty cap.ref_sets && is_empty cap.op_ref_sets && is_empty cap.ref_not
