-- ===== src/Core/Object/Conflict/Roundtrip.antt =====
-- A conflict reads back.
use forgefs.Base.{
  ◌≤◌, ◌<◌, ◌^◌, ◌≡◌, refl, sym, subst, none, some, List, [], ◌∷◌, ◌++◌, arith, All, length, Bytes,
  Str, bytes, is_utf8,
}
use forgefs.Types.{ok, ObjectId, ObjectType}
use forgefs.Core.Cbor.{
  encode_bytes, encode_text, encode_array_header, encode_map_sorted, encode_map_header, text_key,
  push_uint, u8_len, concat_map,
}
use forgefs.Core.Cbor.Reader.Reads.{Reads, Reads-last, Reads-pure}
use forgefs.Core.Cbor.Uint.{Reads-bstr32}
use forgefs.Core.Cbor.Fields.{concat_fields, read_map}
use forgefs.Core.Cbor.Fields.Sizes.{bytes-IsFilled, array-IsFilled}
use forgefs.Core.Cbor.Fields.Loops.{Reads-map, Reads-keep, Reads-ids, Reads-array_of, Run}
use forgefs.Core.Object.{end_of, max_conflict_items}
use forgefs.Core.Object.Frame.{decode_with-encode_file, Reads-end_of}
use forgefs.Core.Object.Conflict.{
  ConflictPath, Conflict, validate, ids_cbor, encode_path, conflict_header, encode, id_array,
  read_path, ConflictFound, no_conflict, conflict_key, finish, read_conflict, decode,
}
use forgefs.Core.Object.Conflict.Paths.{IsPath, Reads-read_path, encode_path-IsFilled}

abbrev pub AreIds : List ObjectId → Type 0
AreIds ids = All (λ (id : ObjectId). length id ≡ 32) ids

-- A conflict that `validate` accepts, whose ids have 32 bytes, whose paths are UTF-8,
-- and whose header fits a `u32`.
pub record IsEncodable (c : Conflict) : Type 0 where
  pub bases : AreIds c.bases
  pub causal : AreIds c.causal
  pub ours : length c.ours ≡ 32
  pub theirs : length c.theirs ≡ 32
  pub paths : All IsPath c.paths
  pub valid : validate c ≡ ok tt
  pub size : length (conflict_header c) < 2 ^ 32

limits :
    (c : Conflict)
    → validate c ≡ ok tt
    → (length c.bases ≤ max_conflict_items)
      × (length c.causal ≤ max_conflict_items)
      × (length c.paths ≤ max_conflict_items)
unfolding validate
limits c h = ground arith

read_paths :
    (ps : List ConflictPath)
    → All IsPath ps
    → All (λ (p : ConflictPath). (after : Bytes) → Reads read_path (encode_path p) after p) ps
read_paths [] all = tt
read_paths (p ∷ ps) (one, more) = (Reads-read_path p one, read_paths ps more)

Reads-id_array :
    (ids : List ObjectId) (rest : Bytes)
    → length ids ≤ max_conflict_items
    → AreIds ids
    → Reads id_array (ids_cbor ids) rest ids
unfolding id_array
Reads-id_array ids rest few sizes = Reads-ids max_conflict_items _ ids rest (omega arith) few sizes

module _ (c : Conflict) (w : IsEncodable c) where
  abbrev kvs : List (Str × Bytes)
  kvs =
      (bytes "ours", encode_bytes c.ours)
      ∷ (bytes "bases", ids_cbor c.bases)
      ∷ (bytes "paths", encode_array_header (length c.paths) ++ concat_map encode_path c.paths)
      ∷ (bytes "causal", ids_cbor c.causal)
      ∷ (bytes "theirs", encode_bytes c.theirs)
      ∷ []

  fields_of : conflict_header c ≡ encode_map_header 5 ++ concat_fields kvs
  unfolding conflict_header encode_map_sorted text_key encode_text push_uint u8_len
  fields_of = refl

  abbrev found : ConflictFound
  found = record {
    bases = some c.bases;
    ours = some c.ours;
    theirs = some c.theirs;
    paths = some c.paths;
    causal = some c.causal;
  }

  Run-fields : Run conflict_key none no_conflict kvs [] found
  unfolding conflict_key is_utf8 encode_text push_uint u8_len
  Run-fields =
      let (few_bases, few_causal, few_paths) = limits c w.valid in
      let s1 : ConflictFound = record no_conflict { ours = some c.ours } in
      let s2 : ConflictFound = record s1 { bases = some c.bases } in
      let s3 : ConflictFound = record s2 { paths = some c.paths } in
      let s4 : ConflictFound = record s3 { causal = some c.causal } in
      (
        s1,
        (omega arith, refl),
        refl,
        Reads-keep _ _ _ _ c.ours (Reads-bstr32 c.ours _ w.ours),
        (
          s2,
          (omega arith, refl),
          refl,
          Reads-keep _ _ _ _ c.bases (Reads-id_array c.bases _ few_bases w.bases),
          (
            s3,
            (omega arith, refl),
            refl,
            Reads-keep _ _ _ _ c.paths (
                Reads-array_of read_path encode_path max_conflict_items _ c.paths _
                  (omega (arith, few_paths)) few_paths encode_path-IsFilled
                  (read_paths c.paths w.paths)),
            (
              s4,
              (omega arith, refl),
              refl,
              Reads-keep _ _ _ _ c.causal (Reads-id_array c.causal _ few_causal w.causal),
              (
                found,
                (omega arith, refl),
                refl,
                Reads-keep _ _ _ _ c.theirs (Reads-bstr32 c.theirs _ w.theirs),
                refl,
              ),
            ),
          ),
        ),
      )

  Reads-read_conflict : Reads read_conflict (conflict_header c) [] c
  unfolding read_conflict finish
  Reads-read_conflict =
      Reads-last (read_map conflict_key no_conflict) _ (conflict_header c) [] found c
        (subst (λ s. Reads (read_map conflict_key no_conflict) s [] found) (sym fields_of)
          (Reads-map conflict_key kvs no_conflict [] found (omega arith)
            (
              bytes-IsFilled 0 c.ours,
              (
                array-IsFilled (length c.bases) _,
                (
                  array-IsFilled (length c.paths) _,
                  (array-IsFilled (length c.causal) _, (bytes-IsFilled 0 c.theirs, tt)),
                ),
              ),
            )
            Run-fields))
        (Reads-last (end_of _) _ [] [] tt c (Reads-end_of _) (Reads-pure c []))

  -- A conflict that `validate` accepts, whose ids have 32 bytes, whose paths are UTF-8, and whose
  -- header fits a `u32`, is encoded, and `decode` returns it from its encoding.
  pub conflict_decode-encode : (bs : Bytes) × (encode c ≡ ok bs) × (decode bs ≡ ok c)
  unfolding encode decode
  conflict_decode-encode =
      decode_with-encode_file ObjectType.conflict _ _ read_conflict (conflict_header c) c w.size
        Reads-read_conflict
