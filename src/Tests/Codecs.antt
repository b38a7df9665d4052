-- ===== src/Tests/Codecs.antt =====
-- A conflict, a snapshot and a contribution on concrete inputs.
use forgefs.Base.{
  ◌≡◌, refl, none, some, [], ◌∷◌, replicate, Bytes, bytes, arith, is_utf8, to_be_bytes,
  from_be_bytes, ◌++◌,
}
use forgefs.Types.{ok, ObjectId, from_u8}
use forgefs.Core.Cbor.{
  encode_map_sorted, text_key, encode_map_header, encode_array_header, encode_text, encode_u64,
  encode_bytes, encode_null, push_uint, u8_len,
}
use forgefs.Core.Object.Contribution as Contributions
use forgefs.Core.Object.Contribution.{
  ContributionRead, Contribution, contribution_header, encode_read, validate_path, sorted_from,
  validate_sorted_unique, estimated,
}
use forgefs.Core.Object.Contribution.Roundtrip as ContributionRoundtrip
use forgefs.Core.Object.Contribution.Roundtrip.{contribution_decode-encode}
use forgefs.Core.Cbor.Reader as Readers
use forgefs.Core.Cbor.Fields as Fields
use forgefs.Core.Object as Objects
use forgefs.Core.Object.Conflict as Conflicts
use forgefs.Core.Object.Conflict.{
  ConflictPath, Conflict, conflict_header, encode_path, opt_id, validate,
}
use forgefs.Core.Object.Conflict.Roundtrip as ConflictRoundtrip
use forgefs.Core.Object.Conflict.Roundtrip.{conflict_decode-encode}
use forgefs.Core.Object.Snapshot as Snapshots
use forgefs.Core.Object.Snapshot.{Snapshot, snapshot_header}
use forgefs.Core.Object.Snapshot.Roundtrip as SnapshotRoundtrip
use forgefs.Core.Object.Snapshot.Roundtrip.{snapshot_decode-encode}

abbrev some_id : ObjectId
some_id = replicate 32 3

-- Changed on one side and removed on the other.
abbrev removed_path : ConflictPath
removed_path = record {
  path = bytes "src/a";
  a = some some_id;
  b = none;
  base = some (replicate 32 4);
}

abbrev one_conflict : Conflict
one_conflict = record {
  bases = some_id ∷ [];
  ours = replicate 32 5;
  theirs = replicate 32 6;
  paths = removed_path ∷ [];
  causal = [];
}

one_conflict-IsEncodable : ConflictRoundtrip.IsEncodable one_conflict
unfolding validate is_utf8 conflict_header encode_path opt_id encode_map_sorted text_key
    encode_map_header encode_array_header encode_text encode_bytes encode_null push_uint u8_len
    to_be_bytes
one_conflict-IsEncodable = record {
  bases = (refl, tt);
  causal = tt;
  ours = refl;
  theirs = refl;
  paths = (record { path = (omega arith, refl); a = refl; b = tt; base = refl }, tt);
  valid = refl;
  size = omega arith;
}

conflict_decode-encode_example :
    (bs : Bytes) × (Conflicts.encode one_conflict ≡ ok bs) × (Conflicts.decode bs ≡ ok one_conflict)
conflict_decode-encode_example = conflict_decode-encode one_conflict one_conflict-IsEncodable

abbrev tagged : Snapshot
tagged = record {
  tree = some_id;
  commit = replicate 32 5;
  tag = bytes "v1";
  ts = 1700000000000;
  prov = replicate 32 6;
  pk = replicate 32 7;
  sig = replicate 64 8;
}

tagged-IsEncodable : SnapshotRoundtrip.IsEncodable tagged
unfolding is_utf8 snapshot_header encode_map_sorted text_key encode_map_header encode_text
    encode_u64 encode_bytes push_uint u8_len to_be_bytes
tagged-IsEncodable = record {
  tree = refl;
  commit = refl;
  tag = (omega arith, refl);
  ts = omega arith;
  prov = refl;
  pk = refl;
  sig = refl;
  size = omega arith;
}

snapshot_decode-encode_example :
    (bs : Bytes) × (Snapshots.encode tagged ≡ ok bs) × (Snapshots.decode bs ≡ ok tagged)
snapshot_decode-encode_example = snapshot_decode-encode tagged tagged-IsEncodable

-- One object read, one path written.
abbrev receipt : Contribution
receipt = record {
  base = replicate 32 1;
  tree = replicate 32 2;
  parents = replicate 32 4 ∷ [];
  reads = record { path = bytes "a"; id = some_id } ∷ [];
  writes = bytes "w" ∷ [];
  agent = bytes "bob";
  ts = 5;
}

receipt-IsEncodable : ContributionRoundtrip.IsEncodable receipt
unfolding Contributions.validate is_utf8 contribution_header encode_read validate_path sorted_from
    validate_sorted_unique estimated encode_map_sorted text_key encode_map_header
    encode_array_header encode_text encode_u64 encode_bytes push_uint u8_len to_be_bytes
receipt-IsEncodable = record {
  base = refl;
  tree = refl;
  parents = (refl, tt);
  reads = (record { path = (omega arith, refl); id = refl }, tt);
  writes = ((omega arith, refl), tt);
  agent = (omega arith, refl);
  ts = omega arith;
  valid = refl;
  size = omega arith;
}

contribution_decode-encode_example :
    (bs : Bytes) × (Contributions.encode receipt ≡ ok bs) × (Contributions.decode bs ≡ ok receipt)
contribution_decode-encode_example = contribution_decode-encode receipt receipt-IsEncodable

abbrev receipt_bytes : Bytes
receipt_bytes =
    6
    ∷ 0
    ∷ 0
    ∷ 0
    ∷ 195
    ∷ 167
    ∷ (bytes "bts"
        ++ (5 ∷ bytes "dbaseX ")
        ++ replicate 32 1
        ++ bytes "dtreeX "
        ++ replicate 32 2
        ++ bytes "eagentcbobereads"
        ++ (129 ∷ 162 ∷ bytes "apaabidX ")
        ++ some_id
        ++ bytes "fwrites"
        ++ (129 ∷ bytes "aw")
        ++ bytes "gparents"
        ++ (129 ∷ bytes "X ")
        ++ replicate 32 4)

receipt_read : Contributions.decode receipt_bytes ≡ ok receipt
unfolding Contributions.validate is_utf8 contribution_header encode_read validate_path sorted_from
    validate_sorted_unique estimated encode_map_sorted text_key encode_map_header
    encode_array_header encode_text encode_u64 encode_bytes push_uint u8_len to_be_bytes
    from_be_bytes from_u8 Contributions.decode Contributions.encode Contributions.check_canonical
    Contributions.read_key Contributions.read_read Contributions.contribution_key
    Contributions.finish Contributions.read_contribution Readers.remaining Readers.at_end
    Readers.take_bytes Readers.take_wide Readers.take_uint Readers.header Readers.bounded_len
    Readers.typed Readers.u64 Readers.byte_string Readers.bstr32 Readers.text_bounded Readers.text
    Readers.text_map_key_bounded Readers.text_map_key Readers.array Readers.map_header Fields.fields
    Fields.repeat Objects.encode_file Objects.parse_file Objects.read_all Objects.end_of
receipt_read = refl
