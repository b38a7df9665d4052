-- ===== src/Core/Tree.antt =====
-- forge-core/tree.rs: directory entries, names, and the two constructors of a tree.
pub mod Sorted
pub mod Lookup
pub mod Edits
use Prim.Native.Nat.Ordering.{lt, eq, gt}
use forgefs.Base.{
  ℕ, zero, suc, ◌≡◌, Bool, true, false, not, ◌&&◌, ◌||◌, Option, none, some, List, [], ◌∷◌, ltb,
  leb, eqb, if◌then◌else◌, length, contains, ◌==◌, list_eq, nat_eq, cmp, lt_bytes, Bytes, Str,
  bytes, is_utf8, split, starts_with, drop, get_elem?,
}
use forgefs.Types.{
  Error, invalid, corrupt, Result, Checked, ok, err, ◌>>=◌, ◌>>◌, guard, ObjectId, EntryKind,
  kind_eq,
}

pub record TreeEntry : Type 0 where
  pub name : Str
  pub kind : EntryKind
  pub id : ObjectId
  pub exec : Bool

pub record Tree : Type 0 where
  pub entries : List TreeEntry

unfoldable pub validate_name : Str → Checked
validate_name name = do
  guard (not (eqb (length name) 0 || ltb 255 (length name))) (invalid "tree name length")
  guard (not (name == bytes "." || name == bytes "..")) (invalid "tree name . or ..")
  guard (not (contains name b'/' || contains name 0)) (invalid "illegal tree name {name:?}")
  guard (is_utf8 name) (invalid "tree name not utf-8")

-- `for e in &entries { validate_name(&e.name)?; }`
unfoldable pub validate_names : List TreeEntry → Checked
validate_names [] = ok tt
validate_names (e ∷ es) = do validate_name e.name; validate_names es

-- The stable sort by name.
abbrev pub insert_entry : TreeEntry → List TreeEntry → List TreeEntry
insert_entry e [] = e ∷ []
insert_entry e (x ∷ xs) =
    let rest = insert_entry e xs in elim (cmp e.name x.name) [ gt ↦ x ∷ rest | _ ↦ e ∷ x ∷ xs ]

unfoldable pub sort_entries : List TreeEntry → List TreeEntry
sort_entries [] = []
sort_entries (e ∷ es) = insert_entry e (sort_entries es)

-- `for w in entries.windows(2)`
unfoldable pub no_duplicates : List TreeEntry → Checked
no_duplicates [] = ok tt
no_duplicates (e ∷ []) = ok tt
no_duplicates (e ∷ f ∷ es) = do
  guard (not (e.name == f.name)) (invalid "duplicate tree name {}")
  no_duplicates (f ∷ es)

unfoldable pub strictly_sorted : List TreeEntry → Checked
strictly_sorted [] = ok tt
strictly_sorted (e ∷ []) = ok tt
strictly_sorted (e ∷ f ∷ es) = do
  guard (lt_bytes e.name f.name) (corrupt "tree entries are not strictly sorted unique")
  strictly_sorted (f ∷ es)

-- `Tree::new`
unfoldable pub new : List TreeEntry → Result Tree
new entries = do
  validate_names entries
  let sorted = sort_entries entries
  no_duplicates sorted
  ok (record { entries = sorted })

-- `Tree::from_canonical`
unfoldable pub from_canonical : List TreeEntry → Result Tree
from_canonical entries = do
  validate_names entries
  strictly_sorted entries
  ok (record { entries = entries })

-- `Tree::is_empty`
abbrev pub is_empty : Tree → Bool
is_empty t = elim t.entries [ [] ↦ true | e ∷ es ↦ false ]

-- `trim_start_matches('/')`
abbrev pub trim_slashes : Str → Str
trim_slashes [] = []
trim_slashes (c ∷ s) = let rest = trim_slashes s in if eqb c b'/' then rest else c ∷ s

abbrev validate_parts : List Str → Result (List Str)
validate_parts [] = ok []
validate_parts (p ∷ ps) = do validate_name p; parts ← validate_parts ps; ok (p ∷ parts)

unfoldable pub split_path : Str → Result (List Str)
split_path path =
    let path' = trim_slashes path in
    if eqb (length path') 0 then ok [] else validate_parts (split path' b'/')

-- Strips a directory only at a `/`.
unfoldable pub strip_path_prefix : Str → Str → Option Str
strip_path_prefix path prefix =
    if eqb (length prefix) 0
    then some path
    else if path == prefix
    then some []
    else if ltb (length prefix) (length path)
        && (elim (get_elem? path (length prefix)) [ some c ↦ eqb c b'/' | none ↦ false ]
            && starts_with path prefix)
    then some (drop (suc (length prefix)) path)
    else none
