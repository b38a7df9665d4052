-- ===== src/Core/Object/Blob/Roundtrip.antt =====
-- A blob reads back.
use forgefs.Base.{
  ℕ, ◌<◌, ◌^◌, ◌≡◌, refl, none, some, List, [], ◌∷◌, ◌++◌, arith, length, eqb, Bytes, Str, bytes,
  is_utf8, subst, sym, length-append,
}
use forgefs.Types.{ok, ObjectType}
use forgefs.Core.Cbor.{
  encode_u64, encode_map_sorted, encode_map_header, encode_text, text_key, push_uint, u8_len,
}
use forgefs.Core.Cbor.Reader.Reads.{Reads, Reads-last, Reads-guard, Reads-pure}
use forgefs.Core.Cbor.Uint.{IsU64, Reads-u64, length-encode_u64}
use forgefs.Core.Cbor.Fields.{concat_fields, read_map}
use forgefs.Core.Cbor.Fields.Sizes.{u64-IsFilled}
use forgefs.Core.Cbor.Fields.Loops.{Reads-map, Reads-keep}
use forgefs.Core.Object.{parse_blob, end_of}
use forgefs.Core.Object.Frame.{parse_file-encode_file, read_all-Reads, Reads-end_of}
use forgefs.Core.Object.Blob.{Blob, blob_header, encode, blob_key, read_blob, decode}

module _ (size : ℕ) (h : IsU64 size) where
  kvs : List (Str × Bytes)
  kvs = (bytes "size", encode_u64 size) ∷ []

  blob_header-fields : blob_header size ≡ encode_map_header 1 ++ concat_fields kvs
  unfolding blob_header encode_map_sorted text_key kvs
  blob_header-fields = refl

  Reads-size : Reads (read_map blob_key none) (blob_header size) [] (some size)
  unfolding blob_key kvs is_utf8
  Reads-size =
      subst (λ s. Reads (read_map blob_key none) s [] (some size)) (sym blob_header-fields)
        (Reads-map blob_key kvs none [] (some size) (omega arith) (u64-IsFilled size [], tt)
          (
            some size,
            (omega arith, refl),
            refl,
            Reads-keep _ some _ _ size (Reads-u64 size _ h),
            refl,
          ))

short : (size : ℕ) → length (blob_header size) < 2 ^ 32
unfolding blob_header encode_map_sorted text_key encode_map_header encode_text push_uint u8_len
short size = omega (arith, length-encode_u64 size, length-append (encode_u64 size) [])

module _ (b : Blob) (h : IsU64 (length b.payload)) where
  Reads-read_blob : Reads (read_blob b.payload) (blob_header (length b.payload)) [] b
  unfolding read_blob
  Reads-read_blob =
      Reads-last (read_map blob_key none) _ (blob_header (length b.payload)) [] _ b
        (Reads-size (length b.payload) (omega arith))
        (Reads-guard (eqb (length b.payload) (length b.payload)) _ _ [] [] b (ground arith)
          (Reads-last (end_of _) _ [] [] tt b (Reads-end_of _) (Reads-pure b [])))

  -- Every blob whose length fits 64 bits is encoded, and `decode` returns it from its encoding.
  pub blob_decode-encode : (bs : Bytes) × (encode b ≡ ok bs) × (decode bs ≡ ok b)
  unfolding encode decode parse_blob
  blob_decode-encode =
      let (bs, written, parsed) =
        parse_file-encode_file ObjectType.blob (blob_header (length b.payload)) b.payload
          (short (length b.payload)) in
      (
        bs,
        written,
        rw parsed (
            read_all-Reads (read_blob b.payload) (blob_header (length b.payload)) b
              (omega (arith, short (length b.payload))) Reads-read_blob),
      )
