-- ===== src/Core/Object/Blob.antt =====
-- forge-core/object.rs: `Blob`, whose field `data` is `payload` here, and `blob_frame_prefix`.
pub mod Roundtrip
use forgefs.Base.{
  ℕ, ◌+◌, ◌*◌, ◌≤◌, ◌<◌, ◌^◌, ◌≡◌, refl, Bool, true, false, Option, none, some, List, [], ◌∷◌, ◌++◌,
  leb, eqb, if◌then◌else◌, length, ◌==◌, list_eq, nat_eq, Bytes, Str, bytes,
}
use forgefs.Types.{Error, corrupt, Result, ok, err, ObjectType}
use forgefs.Core.Cbor.{encode_u64, encode_map_sorted, text_key}
use forgefs.Core.Cbor.Reader.{Read, ◌>>=◌, ◌>>◌, pure, fail, check, u64, map_header}
use forgefs.Core.Cbor.Fields.{read_map}
use forgefs.Core.Object.{encode_file, parse_blob, read_all, require, end_of}

pub record Blob : Type 0 where
  pub payload : Bytes

unfoldable pub blob_header : ℕ → Bytes
blob_header size = encode_map_sorted ((text_key (bytes "size"), encode_u64 size) ∷ [])

-- `Blob::encode`: `blob_frame_prefix` and then the data.
unfoldable pub encode : Blob → Result Bytes
encode b = encode_file ObjectType.blob (blob_header (length b.payload)) b.payload

unfoldable pub blob_key : Option ℕ → Str → Read (Option ℕ)
blob_key size k =
    if k == bytes "size" then (do v ← u64; pure (some v)) else fail (corrupt "unknown blob key {k}")

unfoldable pub read_blob : Bytes → Read Blob
read_blob payload = do
  found ← read_map blob_key none
  size ← require found (corrupt "blob missing size")
  check (eqb size (length payload)) (corrupt "blob size {size} != payload {}")
  end_of (corrupt "blob header trailing bytes")
  pure (record { payload = payload })

-- `Blob::decode`
unfoldable pub decode : Bytes → Result Blob
decode bs = parse_blob read_blob bs
