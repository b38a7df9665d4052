-- ===== src/Tests/Objects.antt =====
-- Trees, object files and ids on concrete inputs.
use mathlib.Core.List.{Perm}
use forgefs.Base.{
  ◌≡◌, ◌↔◌, refl, true, false, none, some, [], ◌∷◌, length, replicate, Bytes, bytes, All, IsByte,
  arith, is_utf8, to_be_bytes, from_be_bytes,
}
use forgefs.Types.{ok, ObjectId, ObjectType, EntryKind, from_u8}
use forgefs.Types.Hex.{hex_encode, from_hex, from_hex-hex_encode}
use forgefs.Core.Tree.{
  TreeEntry, Tree, validate_name, validate_names, sort_entries, no_duplicates, new, from_canonical,
}
use forgefs.Core.Tree.Sorted.{IsSorted, IsCanonical, from_canonical_iff, new-IsCanonical}
use forgefs.Core.Tree.Lookup.{get, lookup, get-lookup}
use forgefs.Core.Tree.Edits.{
  Edits, merge_sorted_entries, IsSortedEdits, IsSorted-merge_sorted_entries,
}
use forgefs.Core.Tree.Edits.Overlaid.{find, overlaid, lookup-merge_sorted_entries}
use forgefs.Core.Cbor.{
  encode_map_sorted, text_key, encode_map_header, encode_array_header, encode_text, encode_u64,
  encode_bool, encode_bytes, push_uint, u8_len,
}
use forgefs.Core.Object.{encode_file, parse_file}
use forgefs.Core.Object.Frame.{parse_file-encode_file, encode_file-parse_file}
use forgefs.Core.Object.Commit as Commits
use forgefs.Core.Object.Commit.{Commit, commit_header}
use forgefs.Core.Object.Commit.Roundtrip as CommitRoundtrip
use forgefs.Core.Object.Commit.Roundtrip.{commit_decode-encode}
use forgefs.Core.Object.TreeCodec as Trees
use forgefs.Core.Object.TreeCodec.Roundtrip as TreeRoundtrip
use forgefs.Core.Object.TreeCodec.Roundtrip.{tree_decode-encode}

abbrev id_1 : ObjectId
id_1 = replicate 32 1

abbrev id_2 : ObjectId
id_2 = replicate 32 2

abbrev file_a : TreeEntry
file_a = record { name = bytes "a"; kind = EntryKind.blob; id = id_1; exec = false }

abbrev file_b : TreeEntry
file_b = record { name = bytes "b"; kind = EntryKind.blob; id = id_2; exec = true }

abbrev dir_c : TreeEntry
dir_c = record { name = bytes "c"; kind = EntryKind.tree; id = id_2; exec = false }

abbrev three : Tree
three = record { entries = file_a ∷ file_b ∷ dir_c ∷ [] }

three-IsSorted : IsSorted three.entries
three-IsSorted = ((refl, (refl, tt)), ((refl, tt), (tt, tt)))

three-IsCanonical : IsCanonical three.entries
unfolding validate_name is_utf8
three-IsCanonical = record { names = (refl, (refl, (refl, tt))); sorted = three-IsSorted }

get-lookup_example : get three (bytes "b") ≡ lookup three.entries (bytes "b")
get-lookup_example = get-lookup three (bytes "b") three-IsSorted

from_canonical_iff_example : (from_canonical three.entries ≡ ok three) ↔ IsCanonical three.entries
from_canonical_iff_example = from_canonical_iff three.entries

new-three : new (dir_c ∷ file_a ∷ file_b ∷ []) ≡ ok three
unfolding new validate_names validate_name is_utf8 sort_entries no_duplicates
new-three = refl

new-IsCanonical_example :
    IsCanonical three.entries
    × Perm three.entries (dir_c ∷ file_a ∷ file_b ∷ [])
    × (from_canonical three.entries ≡ ok three)
new-IsCanonical_example = new-IsCanonical (dir_c ∷ file_a ∷ file_b ∷ []) three new-three

-- Removes `a`, replaces `b` and adds `d`.
abbrev edits : Edits
edits =
    (bytes "a", none)
    ∷ (bytes "b", some (record file_b { id = id_1 }))
    ∷ (bytes "d", some (record file_a { name = bytes "d" }))
    ∷ []

edits_sorted : IsSortedEdits edits
edits_sorted = ((refl, (refl, tt)), tt, ((refl, tt), refl, (tt, refl, tt)))

IsSorted-merge_sorted_entries_example : IsSorted (merge_sorted_entries three.entries edits)
IsSorted-merge_sorted_entries_example =
    IsSorted-merge_sorted_entries three.entries edits three-IsSorted edits_sorted

lookup-merge_sorted_entries_example :
    lookup (merge_sorted_entries three.entries edits) (bytes "a")
    ≡ overlaid (find edits (bytes "a")) (lookup three.entries (bytes "a"))
lookup-merge_sorted_entries_example =
    lookup-merge_sorted_entries three.entries edits (bytes "a") three-IsSorted edits_sorted

id_bytes : All IsByte id_1
id_bytes = search arith

from_hex-hex_encode_example :
    (length (hex_encode id_1) ≡ 64) × (from_hex (hex_encode id_1) ≡ ok id_1)
from_hex-hex_encode_example = from_hex-hex_encode id_1 (refl, id_bytes)

parse_file-encode_file_example :
    (bs : Bytes) × (encode_file ObjectType.tree (1 ∷ 2 ∷ []) (9 ∷ []) ≡ ok bs)
    × (parse_file bs ≡ ok (ObjectType.tree, 1 ∷ 2 ∷ [], 9 ∷ []))
parse_file-encode_file_example =
    parse_file-encode_file ObjectType.tree (1 ∷ 2 ∷ []) (9 ∷ []) (omega arith)

encode_file-parse_file_example :
    encode_file ObjectType.tree (7 ∷ []) (9 ∷ []) ≡ ok (2 ∷ 0 ∷ 0 ∷ 0 ∷ 1 ∷ 7 ∷ 9 ∷ [])
unfolding parse_file from_u8 from_be_bytes
encode_file-parse_file_example =
    encode_file-parse_file (2 ∷ 0 ∷ 0 ∷ 0 ∷ 1 ∷ 7 ∷ 9 ∷ []) ObjectType.tree (7 ∷ []) (9 ∷ [])
      (search arith) refl

abbrev merge_commit : Commit
merge_commit = record {
  tree = id_1;
  parents = id_1 ∷ id_2 ∷ [];
  agent = bytes "bob";
  msg = bytes "merge";
  ts = 1700000000000;
  landmark = true;
  contrib = some id_2;
}

merge_commit-IsEncodable : CommitRoundtrip.IsEncodable merge_commit
unfolding is_utf8 commit_header encode_map_sorted text_key encode_map_header encode_array_header
    encode_text encode_u64 encode_bool encode_bytes push_uint u8_len to_be_bytes
merge_commit-IsEncodable = record {
  tree = refl;
  parents = (refl, (refl, tt));
  few = omega arith;
  agent = (omega arith, refl);
  msg = (omega arith, refl);
  ts = omega arith;
  contrib = λ id h. ground arith;
  size = omega arith;
}

commit_decode-encode_example :
    (bs : Bytes) × (Commits.encode merge_commit ≡ ok bs) × (Commits.decode bs ≡ ok merge_commit)
commit_decode-encode_example = commit_decode-encode merge_commit merge_commit-IsEncodable

three-IsEncodable : TreeRoundtrip.IsEncodable three
three-IsEncodable = record {
  canonical = three-IsCanonical;
  ids = (refl, (refl, (refl, tt)));
  few = omega arith;
}

tree_decode-encode_example :
    (bs : Bytes) × (Trees.encode three ≡ ok bs) × (Trees.decode bs ≡ ok three)
tree_decode-encode_example = tree_decode-encode three three-IsEncodable
