-- ===== src/Tests/Merges.antt =====
-- Three-way decisions on concrete entries.
use forgefs.Base.{◌≡◌, refl, true, false, ◌||◌, some, replicate, bytes}
use forgefs.Types.{EntryKind}
use forgefs.Core.Tree.{TreeEntry}
use forgefs.Merge.{decide, same_entry}
use forgefs.Merge.Rules.{
  same_side, taken, mirror, settled, decide-theirs, decide-mirror, settled-decide,
}

abbrev base_file : TreeEntry
base_file = record { name = bytes "run"; kind = EntryKind.blob; id = replicate 32 1; exec = false }

-- Only the mode differs.
abbrev exec_file : TreeEntry
exec_file = record base_file { exec = true }

abbrev new_file : TreeEntry
new_file = record base_file { id = replicate 32 2 }

decide-theirs_example :
    decide (some base_file) (some exec_file) (some base_file) ≡ taken (some exec_file)
unfolding same_entry
decide-theirs_example =
    decide-theirs (bytes "run") (some base_file) (some exec_file) (some base_file) refl refl refl

decide-mirror_example :
    decide (some new_file) (some exec_file) (some base_file)
    ≡ mirror (decide (some exec_file) (some new_file) (some base_file))
decide-mirror_example =
    decide-mirror (bytes "run") (some exec_file) (some new_file) (some base_file) refl refl

settled-decide_example : settled (decide (some new_file) (some exec_file) (some base_file)) ≡ (
    same_side (some new_file) (some exec_file)
    || (same_side (some new_file) (some base_file) || same_side (some exec_file) (some base_file)))
settled-decide_example = settled-decide (some new_file) (some exec_file) (some base_file)
