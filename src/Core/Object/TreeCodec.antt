-- ===== src/Core/Object/TreeCodec.antt =====
-- forge-core/object.rs: `Tree::encode` and `Tree::decode`.
pub mod Entry
pub mod Roundtrip
use forgefs.Base.{
  ℕ, Bool, true, false, Option, none, some, List, [], ◌∷◌, ◌++◌, leb, if◌then◌else◌, length, ◌==◌,
  list_eq, nat_eq, Bytes, Str, bytes,
}
use forgefs.Types.{
  Error, corrupt, invalid, Result, ok, err, guard, ObjectId, ObjectType, EntryKind, kind_u8,
  kind_from_u8,
}
use forgefs.Core.Tree.{TreeEntry, Tree, validate_name, from_canonical}
use forgefs.Core.Cbor.{
  encode_u64, encode_bool, encode_bytes, encode_text, encode_array_header, encode_map_sorted,
  text_key,
}
use forgefs.Core.Cbor.Reader.{Read, ◌>>=◌, ◌>>◌, pure, fail, check, lift, bstr32, text, u64, bool}
use forgefs.Core.Cbor.Fields.{read_map, read_array}
use forgefs.Core.Object.{encode_file, decode_with, require, end_of, max_tree_entries, and_then}

-- The body of the loop over the entries.
unfoldable pub encode_entry : TreeEntry → Bytes
encode_entry e = encode_map_sorted (
    (text_key (bytes "id"), encode_bytes e.id)
    ∷ (text_key (bytes "k"), encode_u64 (kind_u8 e.kind))
    ∷ (text_key (bytes "n"), encode_text e.name)
    ∷ (text_key (bytes "x"), encode_bool e.exec)
    ∷ [])

unfoldable pub encode_entries : List TreeEntry → Result Bytes
encode_entries [] = ok []
encode_entries (e ∷ es) =
    and_then (validate_name e.name)
      (λ _. and_then (encode_entries es) (λ rest. ok (encode_entry e ++ rest)))

unfoldable pub tree_header : ℕ → Bytes → Bytes
tree_header n entries_cbor =
    encode_map_sorted ((text_key (bytes "e"), encode_array_header n ++ entries_cbor) ∷ [])

-- `Tree::encode`
unfoldable pub encode : Tree → Result Bytes
unfolding encode_entries
encode t =
    and_then
      (guard (leb (length t.entries) max_tree_entries) (
        invalid
          "directory has {} entries, more than the {MAX_TREE_ENTRIES} a tree may hold; split it into subdirectories"))
      (λ _. and_then (encode_entries t.entries) (λ entries_cbor.
        encode_file ObjectType.tree (tree_header (length t.entries) entries_cbor) []))

pub record EntryFound : Type 0 where
  pub name : Option Str
  pub kind : Option EntryKind
  pub id : Option ObjectId
  pub exec : Option Bool

abbrev pub no_fields : EntryFound
no_fields = record { name = none; kind = none; id = none; exec = none }

unfoldable pub read_kind : Read EntryKind
read_kind = do
  raw ← u64
  check (leb raw 255) (corrupt "entry kind overflow")
  lift (kind_from_u8 raw)

unfoldable pub entry_key : EntryFound → Str → Read EntryFound
entry_key f k =
    if k == bytes "n"
    then (do v ← text; pure (record f { name = some v }))
    else if k == bytes "k"
    then (do v ← read_kind; pure (record f { kind = some v }))
    else if k == bytes "id"
    then (do v ← bstr32; pure (record f { id = some v }))
    else if k == bytes "x"
    then (do v ← bool; pure (record f { exec = some v }))
    else fail (corrupt "unknown entry key {fk}")

unfoldable pub finish_entry : EntryFound → Read TreeEntry
finish_entry f = do
  name ← require f.name (corrupt "entry n")
  kind ← require f.kind (corrupt "entry k")
  id ← require f.id (corrupt "entry id")
  exec ← require f.exec (corrupt "entry x")
  pure (record { name = name; kind = kind; id = id; exec = exec })

unfoldable pub read_entry : Read TreeEntry
read_entry = do f ← read_map entry_key no_fields; finish_entry f

unfoldable pub tree_key : Option (List TreeEntry) → Str → Read (Option (List TreeEntry))
tree_key f k =
    if k == bytes "e"
    then (do
      v ← read_array max_tree_entries (corrupt "tree fanout exceeds limit") read_entry
      pure (some v))
    else fail (corrupt "unknown tree key {k}")

unfoldable pub read_tree : Read Tree
read_tree = do
  found ← read_map tree_key none
  end_of (corrupt "tree header trailing bytes")
  entries ← require found (corrupt "tree missing e")
  lift (from_canonical entries)

-- `Tree::decode`
unfoldable pub decode : Bytes → Result Tree
decode bs =
    decode_with ObjectType.tree (corrupt "not a tree") (corrupt "tree has payload") read_tree bs
