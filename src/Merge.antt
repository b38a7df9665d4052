-- ===== src/Merge.antt =====
-- forge-merge: what the merge of two directories does with one name, and the scope of a conflict.
pub mod Rules
use forgefs.Base.{
  Bool, true, false, not, ◌&&◌, ◌||◌, Option, none, some, List, ◌++◌, any, if◌then◌else◌, ◌==◌,
  nat_eq, list_eq, Str, bytes, starts_with,
}
use forgefs.Types.{ObjectId, EntryKind, kind_eq}
use forgefs.Core.Tree.{TreeEntry}
use forgefs.Core.Object.Conflict.{ConflictPath}

abbrev pub eq_bool : Bool → Bool → Bool
eq_bool a b = if a then b else not b

unfoldable pub path_in_conflict_scope : Str → List ConflictPath → Bool
path_in_conflict_scope path conflict_paths =
    any (λ (c : ConflictPath). path == c.path || starts_with path (c.path ++ bytes "/"))
      conflict_paths

unfoldable pub same_entry : TreeEntry → TreeEntry → Bool
same_entry a b = a.id == b.id && (a.kind == b.kind && eq_bool a.exec b.exec)

-- What the match in `merge_trees` does with a name: nothing, push an entry, record a conflict of
-- three entries (and push ours where both sides have one), or merge two subtrees over a base.
pub data Decision : Type 0 where
  drop : Decision
  push : TreeEntry → Decision
  conflict : Option TreeEntry → Option TreeEntry → Option TreeEntry → Decision
  descend : TreeEntry → TreeEntry → Option ObjectId → Decision

-- `g.is_some_and(|g| same_entry(g, x))`
abbrev pub is_base : Option TreeEntry → TreeEntry → Bool
is_base none x = false
is_base (some g) x = same_entry g x

-- A side against an absent side.
unfoldable pub decide_one : TreeEntry → Option TreeEntry → Decision → Decision
decide_one x g clash = if is_base g x then drop else elim g [ none ↦ push x | some _ ↦ clash ]

-- `g.filter(|g| g.kind == EntryKind::Tree).map(|g| g.id)`
abbrev pub base_subtree : Option TreeEntry → Option ObjectId
base_subtree none = none
base_subtree (some g) = if g.kind == EntryKind.tree then some g.id else none

unfoldable pub decide : Option TreeEntry → Option TreeEntry → Option TreeEntry → Decision
decide none none g = drop
decide (some x) none g = decide_one x g (conflict (some x) none g)
decide none (some y) g = decide_one y g (conflict none (some y) g)
decide (some x) (some y) g =
    if same_entry x y
    then push x
    else if is_base g x
    then push y
    else if is_base g y
    then push x
    else if x.kind == EntryKind.tree && y.kind == EntryKind.tree
    then descend x y (base_subtree g)
    else conflict (some x) (some y) g
