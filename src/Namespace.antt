-- ===== src/Namespace.antt =====
-- forge-ns: absolute paths, the mount that covers a path, and the path within it.
pub mod Paths
pub mod Mounts
use forgefs.Base.{
  ℕ, Bool, true, false, not, ◌&&◌, ◌||◌, Option, none, some, List, [], ◌∷◌, ◌++◌, leb, eqb,
  if◌then◌else◌, length, ◌==◌, nat_eq, list_eq, Str, bytes, starts_with, strip_prefix,
}
use forgefs.Types.{Result, ok, err, ◌>>=◌, ◌>>◌, invalid, not_found, ObjectId}
use forgefs.Types.Hex.{from_hex}
use forgefs.Core.Tree.{split_path, trim_slashes}

pub data Mode : Type 0 where
  ro rw_mode : Mode

-- `Mode::parse`
unfoldable pub parse : Str → Result Mode
parse s =
    if s == bytes "ro"
    then ok ro
    else if s == bytes "rw"
    then ok rw_mode
    else err (invalid "mode {other}")

pub record Mount : Type 0 where
  pub path : Str
  pub spec : Str
  pub mode : Mode
  pub base_oid : Option ObjectId

-- A text without its last slashes.
abbrev pub trim_end : Str → Str
trim_end [] = []
trim_end (c ∷ s) =
    let rest = trim_end s in
    elim rest [ [] ↦ (if eqb c b'/' then [] else c ∷ []) | d ∷ ds ↦ c ∷ d ∷ ds ]

-- `while p.len() > 1 && p.ends_with('/') { p.pop(); }`
abbrev pub pop_slashes : Str → Str
pop_slashes [] = []
pop_slashes (c ∷ s) = c ∷ trim_end s

abbrev pub rooted : Str → Str
rooted path = if starts_with path (bytes "/") then path else bytes "/" ++ path

unfoldable pub normalize_abs : Str → Result Str
normalize_abs [] = ok (bytes "/")
normalize_abs (c ∷ s) =
    let p = pop_slashes (rooted (c ∷ s)) in
    if p == bytes "/" then ok p else (split_path p >>= λ _. ok p)

abbrev pub covers : Str → Str → Bool
covers abs mp = abs == mp || (mp == bytes "/" || starts_with abs (mp ++ bytes "/"))

-- The loop over the mounts, with the best one and its length.
unfoldable pub mount_loop : Str → Option Mount → ℕ → List Mount → Result (Option Mount)
mount_loop abs best best_len [] = ok best
mount_loop abs best best_len (m ∷ mounts) = do
  mp ← normalize_abs m.path
  let better = covers abs mp && leb best_len (length mp)
  mount_loop abs (if better then some m else best) (if better then length mp else best_len) mounts

unfoldable pub longest_mount : List Mount → Str → Result Mount
longest_mount mounts abs = do
  abs' ← normalize_abs abs
  best ← mount_loop abs' none 0 mounts
  elim best [ none ↦ err (not_found "no mount for {abs}") | some m ↦ ok m ]

-- The rest of an absolute path behind a mount's.
unfoldable pub under : Str → Str → Result Str
under mp abs =
    if mp == bytes "/"
    then ok (trim_slashes abs)
    else if abs == mp
    then ok []
    else elim (strip_prefix abs (mp ++ bytes "/")) [
      | none ↦ err (invalid "{abs} not under {mp}")
      | some rest ↦ ok rest
    ]

unfoldable pub rel_of : Str → Str → Result Str
rel_of mount_path abs = do mp ← normalize_abs mount_path; abs' ← normalize_abs abs; under mp abs'

pub data Spec : Type 0 where
  ref : Str → Spec
  oid : ObjectId → Spec

unfoldable pub parse_spec : Str → Result Spec
parse_spec spec = elim (strip_prefix spec (bytes "ref:")) [
  | some r ↦ ok (ref r)
  | none ↦ elim (strip_prefix spec (bytes "oid:")) [
    | some h ↦ from_hex h >>= λ id. ok (oid id)
    | none ↦ ok (ref spec)
  ]
]
