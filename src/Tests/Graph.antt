-- ===== src/Tests/Graph.antt =====
-- A walk over a small graph of objects.
use forgefs.Base.{
  ◌≡◌, refl, false, some, [], ◌∷◌, replicate, Bytes, bytes, All, arith, is_utf8, to_be_bytes,
  from_be_bytes, List, length, ◌≤◌, if◌then◌else◌, ◌==◌, list_eq, nat_eq,
}
use forgefs.Types.{ok, err, ObjectId, ObjectType, EntryKind, from_u8, Result, corrupt, kind_from_u8}
use forgefs.Types.Hex.{hex_encode}
use forgefs.Core.Tree.{Tree, from_canonical, strictly_sorted, validate_name, validate_names}
use forgefs.Core.Cbor.{
  encode_map_sorted, text_key, encode_map_header, encode_array_header, encode_text, encode_u64,
  encode_bool, encode_bytes, push_uint, u8_len,
}
use forgefs.Core.Cbor.Reader.{
  remaining, at_end, take_bytes, take_wide, take_uint, header, bounded_len, typed, u64, bool,
  byte_string, bstr32, text_bounded, text, text_map_key_bounded, text_map_key, array, map_header,
}
use forgefs.Core.Cbor.Fields.{fields, repeat}
use forgefs.Core.Object.{
  encode_file, parse_file, read_all, end_of, header_of, decode_with, parse_blob,
}
use forgefs.Core.Object.Blob as Blobs
use forgefs.Core.Object.TreeCodec as Trees
use forgefs.Graph.{
  accepts, verify, VerifiedGraphObject, find_type, expectation_key, with_limit, schedule,
  schedule_all, pop_front, entry_type, tree_edges, edges_of, decode_object_type,
  decode_graph_object, sort_objects, visit, walk, reachable_graph_verified,
}
use forgefs.Graph.Met.{IsResolved}
use forgefs.Graph.Closed.{IsDecoded}
use forgefs.Graph.Reach.{reachable_graph_verified_closed}
use forgefs.Graph.Fuel.{reachable_graph_verified_ends}
use forgefs.Graph.Limit.{reachable_graph_verified_limit}

abbrev dir_id : ObjectId
dir_id = replicate 32 7

abbrev file_id : ObjectId
file_id = replicate 32 3

abbrev dir : Tree
dir = record {
  entries = record { name = bytes "a"; kind = EntryKind.blob; id = file_id; exec = false } ∷ [];
}

-- A store of a directory and of the file in it.
abbrev store : ObjectId → Result Bytes
store id =
    if id == dir_id
    then Trees.encode dir
    else if id == file_id
    then Blobs.encode (record { payload = bytes "hi" })
    else err (corrupt "missing object")

-- By id.
abbrev found : List VerifiedGraphObject
found =
    record { id = file_id; object_type = ObjectType.blob }
    ∷ record { id = dir_id; object_type = ObjectType.tree }
    ∷ []

walk_store : reachable_graph_verified store 100 10 dir_id ObjectType.tree ≡ some (ok found)
unfolding reachable_graph_verified walk visit with_limit schedule schedule_all pop_front entry_type
    tree_edges edges_of decode_object_type decode_graph_object sort_objects accepts verify
    expectation_key from_u8 kind_from_u8 from_canonical strictly_sorted validate_name validate_names
    is_utf8 to_be_bytes from_be_bytes hex_encode encode_map_sorted text_key encode_map_header
    encode_array_header encode_text encode_u64 encode_bool encode_bytes push_uint u8_len remaining
    at_end take_bytes take_wide take_uint header bounded_len typed u64 bool byte_string bstr32
    text_bounded text text_map_key_bounded text_map_key array map_header fields repeat encode_file
    parse_file read_all end_of header_of decode_with parse_blob Blobs.encode Blobs.blob_header
    Blobs.blob_key Blobs.read_blob Blobs.decode Trees.encode Trees.tree_header Trees.encode_entry
    Trees.encode_entries Trees.read_kind Trees.entry_key Trees.finish_entry Trees.read_entry
    Trees.tree_key Trees.read_tree Trees.decode
walk_store = refl

reachable_graph_verified_closed_example :
    (find_type found dir_id ≡ some ObjectType.tree) × All (IsDecoded store (IsResolved found)) found
reachable_graph_verified_closed_example =
    reachable_graph_verified_closed store 100 10 dir_id ObjectType.tree found walk_store

reachable_graph_verified_ends_example :
    (r : Result (List VerifiedGraphObject)) × (reachable_graph_verified store 100 10 dir_id
        ObjectType.tree
      ≡ some r)
reachable_graph_verified_ends_example =
    reachable_graph_verified_ends store 100 10 dir_id ObjectType.tree (omega arith)

reachable_graph_verified_limit_example : length found ≤ 10
reachable_graph_verified_limit_example =
    reachable_graph_verified_limit store 100 10 dir_id ObjectType.tree found walk_store
