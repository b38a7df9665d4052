-- ===== src/Core/Object/Snapshot.antt =====
-- forge-core/object.rs: `Snapshot::encode`, `encode_unsigned` and `Snapshot::decode`.
pub mod Roundtrip
use forgefs.Base.{
  ℕ, Bool, true, false, Option, none, some, List, [], ◌∷◌, eqb, if◌then◌else◌, length, replicate,
  ◌==◌, list_eq, nat_eq, Bytes, Str, bytes,
}
use forgefs.Types.{Error, corrupt, Result, ObjectId, ObjectType}
use forgefs.Core.Cbor.{encode_u64, encode_bytes, encode_text, encode_map_sorted, text_key}
use forgefs.Core.Cbor.Reader.{Read, ◌>>=◌, ◌>>◌, pure, fail, check, bstr32, byte_string, text, u64}
use forgefs.Core.Cbor.Fields.{read_map}
use forgefs.Core.Object.{encode_file, decode_with, require, end_of}

pub record Snapshot : Type 0 where
  pub tree : ObjectId
  pub commit : ObjectId
  pub tag : Str
  pub ts : ℕ
  pub prov : ObjectId
  pub pk : Bytes
  pub sig : Bytes

unfoldable pub snapshot_header : Snapshot → Bytes
snapshot_header s = encode_map_sorted (
    (text_key (bytes "commit"), encode_bytes s.commit)
    ∷ (text_key (bytes "pk"), encode_bytes s.pk)
    ∷ (text_key (bytes "prov"), encode_bytes s.prov)
    ∷ (text_key (bytes "sig"), encode_bytes s.sig)
    ∷ (text_key (bytes "tag"), encode_text s.tag)
    ∷ (text_key (bytes "tree"), encode_bytes s.tree)
    ∷ (text_key (bytes "ts"), encode_u64 s.ts)
    ∷ [])

-- `Snapshot::encode`
unfoldable pub encode : Snapshot → Result Bytes
encode s = encode_file ObjectType.snapshot (snapshot_header s) []

unfoldable pub encode_unsigned : Snapshot → Result Bytes
encode_unsigned s = encode (record s { sig = replicate 64 0 })

-- The variables of `Snapshot::decode`.
pub record SnapshotFound : Type 0 where
  pub tree : Option ObjectId
  pub commit : Option ObjectId
  pub tag : Option Str
  pub ts : Option ℕ
  pub prov : Option ObjectId
  pub pk : Option Bytes
  pub sig : Option Bytes

abbrev pub no_snapshot : SnapshotFound
no_snapshot = record {
  tree = none;
  commit = none;
  tag = none;
  ts = none;
  prov = none;
  pk = none;
  sig = none;
}

-- A byte string of one length.
unfoldable pub bytes_of_length : ℕ → Error → Read Bytes
bytes_of_length n e = do b ← byte_string; check (eqb (length b) n) e; pure b

unfoldable pub snapshot_key : SnapshotFound → Str → Read SnapshotFound
snapshot_key f k =
    if k == bytes "tree"
    then (do v ← bstr32; pure (record f { tree = some v }))
    else if k == bytes "commit"
    then (do v ← bstr32; pure (record f { commit = some v }))
    else if k == bytes "tag"
    then (do v ← text; pure (record f { tag = some v }))
    else if k == bytes "ts"
    then (do v ← u64; pure (record f { ts = some v }))
    else if k == bytes "prov"
    then (do v ← bstr32; pure (record f { prov = some v }))
    else if k == bytes "pk"
    then (do v ← bytes_of_length 32 (corrupt "pk len"); pure (record f { pk = some v }))
    else if k == bytes "sig"
    then (do v ← bytes_of_length 64 (corrupt "sig len"); pure (record f { sig = some v }))
    else fail (corrupt "unknown snapshot key {k}")

unfoldable pub finish : SnapshotFound → Read Snapshot
finish f = do
  tree ← require f.tree (corrupt "snap tree")
  commit ← require f.commit (corrupt "snap commit")
  tag ← require f.tag (corrupt "snap tag")
  ts ← require f.ts (corrupt "snap ts")
  prov ← require f.prov (corrupt "snap prov")
  pk ← require f.pk (corrupt "snap pk")
  sig ← require f.sig (corrupt "snap sig")
  pure
      (record { tree = tree; commit = commit; tag = tag; ts = ts; prov = prov; pk = pk; sig = sig })

unfoldable pub read_snapshot : Read Snapshot
read_snapshot = do
  found ← read_map snapshot_key no_snapshot
  end_of (corrupt "snapshot header trailing bytes")
  finish found

-- `Snapshot::decode`
unfoldable pub decode : Bytes → Result Snapshot
decode bs =
    decode_with ObjectType.snapshot (corrupt "not a snapshot") (corrupt "snapshot has payload")
      read_snapshot bs
