-- ===== src/Core/Object/Snapshot/Roundtrip.antt =====
-- A snapshot reads back.
use forgefs.Base.{
  ℕ, ◌<◌, ◌^◌, ◌≡◌, refl, sym, subst, none, some, List, [], ◌∷◌, ◌++◌, arith, eqb, length, Bytes,
  Str, bytes, is_utf8,
}
use forgefs.Types.{Error, ok, ObjectType}
use forgefs.Core.Cbor.{
  encode_u64, encode_bytes, encode_text, encode_map_sorted, encode_map_header, text_key, push_uint,
  u8_len,
}
use forgefs.Core.Cbor.Reader.{pure, byte_string}
use forgefs.Core.Cbor.Reader.Reads.{Reads, Reads-last, Reads-pure, Reads-guard}
use forgefs.Core.Cbor.Uint.{IsU64, Reads-u64, Reads-bstr32, Reads-byte_string}
use forgefs.Core.Cbor.Fields.{IsText, concat_fields, read_map}
use forgefs.Core.Cbor.Fields.Sizes.{bytes-IsFilled, text-IsFilled, u64-IsFilled}
use forgefs.Core.Cbor.Fields.Loops.{Reads-map, Reads-keep, Reads-text, Run}
use forgefs.Core.Object.{end_of}
use forgefs.Core.Object.Frame.{decode_with-encode_file, Reads-end_of}
use forgefs.Core.Object.Snapshot.{
  Snapshot, snapshot_header, encode, SnapshotFound, no_snapshot, bytes_of_length, snapshot_key,
  finish, read_snapshot, decode,
}

-- A snapshot whose ids and key have 32 bytes, whose signature has 64, whose tag is UTF-8, and whose
-- header fits a `u32`.
pub record IsEncodable (s : Snapshot) : Type 0 where
  pub tree : length s.tree ≡ 32
  pub commit : length s.commit ≡ 32
  pub tag : IsText s.tag
  pub ts : IsU64 s.ts
  pub prov : length s.prov ≡ 32
  pub pk : length s.pk ≡ 32
  pub sig : length s.sig ≡ 64
  pub size : length (snapshot_header s) < 2 ^ 32

Reads-bytes_of_length :
    (n : ℕ) (e : Error) (b rest : Bytes)
    → IsU64 n
    → length b ≡ n
    → Reads (bytes_of_length n e) (encode_bytes b) rest b
unfolding bytes_of_length
Reads-bytes_of_length n e b rest small h =
    Reads-last byte_string _ (encode_bytes b) rest b b (Reads-byte_string b rest (omega arith))
      (Reads-guard (eqb (length b) n) e (pure b) [] rest b (ground arith) (Reads-pure b rest))

module _ (s : Snapshot) (w : IsEncodable s) where
  abbrev kvs : List (Str × Bytes)
  kvs =
      (bytes "pk", encode_bytes s.pk)
      ∷ (bytes "ts", encode_u64 s.ts)
      ∷ (bytes "sig", encode_bytes s.sig)
      ∷ (bytes "tag", encode_text s.tag)
      ∷ (bytes "prov", encode_bytes s.prov)
      ∷ (bytes "tree", encode_bytes s.tree)
      ∷ (bytes "commit", encode_bytes s.commit)
      ∷ []

  fields_of : snapshot_header s ≡ encode_map_header 7 ++ concat_fields kvs
  unfolding snapshot_header encode_map_sorted text_key encode_text push_uint u8_len
  fields_of = refl

  abbrev found : SnapshotFound
  found = record {
    tree = some s.tree;
    commit = some s.commit;
    tag = some s.tag;
    ts = some s.ts;
    prov = some s.prov;
    pk = some s.pk;
    sig = some s.sig;
  }

  Run-fields : Run snapshot_key none no_snapshot kvs [] found
  unfolding snapshot_key is_utf8 encode_text push_uint u8_len
  Run-fields =
      let s1 : SnapshotFound = record no_snapshot { pk = some s.pk } in
      let s2 : SnapshotFound = record s1 { ts = some s.ts } in
      let s3 : SnapshotFound = record s2 { sig = some s.sig } in
      let s4 : SnapshotFound = record s3 { tag = some s.tag } in
      let s5 : SnapshotFound = record s4 { prov = some s.prov } in
      let s6 : SnapshotFound = record s5 { tree = some s.tree } in
      (
        s1,
        (omega arith, refl),
        refl,
        Reads-keep _ _ _ _ s.pk (Reads-bytes_of_length 32 _ s.pk _ (omega arith) w.pk),
        (
          s2,
          (omega arith, refl),
          refl,
          Reads-keep _ _ _ _ s.ts (Reads-u64 s.ts _ w.ts),
          (
            s3,
            (omega arith, refl),
            refl,
            Reads-keep _ _ _ _ s.sig (Reads-bytes_of_length 64 _ s.sig _ (omega arith) w.sig),
            (
              s4,
              (omega arith, refl),
              refl,
              Reads-keep _ _ _ _ s.tag (Reads-text s.tag _ w.tag),
              (
                s5,
                (omega arith, refl),
                refl,
                Reads-keep _ _ _ _ s.prov (Reads-bstr32 s.prov _ w.prov),
                (
                  s6,
                  (omega arith, refl),
                  refl,
                  Reads-keep _ _ _ _ s.tree (Reads-bstr32 s.tree _ w.tree),
                  (
                    found,
                    (omega arith, refl),
                    refl,
                    Reads-keep _ _ _ _ s.commit (Reads-bstr32 s.commit _ w.commit),
                    refl,
                  ),
                ),
              ),
            ),
          ),
        ),
      )

  Reads-read_snapshot : Reads read_snapshot (snapshot_header s) [] s
  unfolding read_snapshot finish
  Reads-read_snapshot =
      Reads-last (read_map snapshot_key no_snapshot) _ (snapshot_header s) [] found s
        (subst (λ h. Reads (read_map snapshot_key no_snapshot) h [] found) (sym fields_of)
          (Reads-map snapshot_key kvs no_snapshot [] found (omega arith)
            (
              bytes-IsFilled 0 s.pk,
              (
                u64-IsFilled s.ts [],
                (
                  bytes-IsFilled 0 s.sig,
                  (
                    text-IsFilled 0 s.tag,
                    (
                      bytes-IsFilled 0 s.prov,
                      (bytes-IsFilled 0 s.tree, (bytes-IsFilled 0 s.commit, tt)),
                    ),
                  ),
                ),
              ),
            )
            Run-fields))
        (Reads-last (end_of _) _ [] [] tt s (Reads-end_of _) (Reads-pure s []))

  -- A snapshot whose ids and key have 32 bytes, whose signature has 64, whose tag is UTF-8, whose
  -- time fits 64 bits, and whose header fits a `u32`, is encoded, and `decode` returns it from its
  -- encoding.
  pub snapshot_decode-encode : (bs : Bytes) × (encode s ≡ ok bs) × (decode bs ≡ ok s)
  unfolding encode decode
  snapshot_decode-encode =
      decode_with-encode_file ObjectType.snapshot _ _ read_snapshot (snapshot_header s) s w.size
        Reads-read_snapshot
