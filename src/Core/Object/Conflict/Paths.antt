-- ===== src/Core/Object/Conflict/Paths.antt =====
-- A conflict's path, with its optional ids, reads back.
use forgefs.Base.{
  ◌≡◌, refl, ap, ◌∙◌, sym, subst, Option, none, some, List, [], ◌∷◌, ◌++◌, arith, length, Bytes,
  Str, bytes, is_utf8, drop, to_be_bytes,
}
use forgefs.Types.{ObjectId}
use forgefs.Core.Cbor.{
  encode_bytes, encode_null, encode_text, encode_map_sorted, encode_map_header, text_key, push_uint,
  u8_len,
}
use forgefs.Core.Cbor.Reader.{null_or, bstr32}
use forgefs.Core.Cbor.Reader.Reads.{Reads, Reads-last, Reads-pure}
use forgefs.Core.Cbor.Uint.{Reads-bstr32}
use forgefs.Core.Cbor.Fields.{IsText, concat_fields, read_map}
use forgefs.Core.Cbor.Fields.Sizes.{IsFilled, text-IsFilled, bytes-IsFilled, map-IsFilled}
use forgefs.Core.Cbor.Fields.Loops.{Reads-map, Reads-keep, Reads-text, Run}
use forgefs.Core.Object.Conflict.{
  ConflictPath, opt_id, encode_path, PathFound, no_path, path_key, read_path,
}

abbrev pub IsOptId : Option ObjectId → Type 0
IsOptId none = Unit
IsOptId (some id) = length id ≡ 32

-- The first two bytes of an id's encoding.
id_cbor : (id : ObjectId) → length id ≡ 32 → encode_bytes id ≡ 88 ∷ 32 ∷ id
unfolding encode_bytes push_uint u8_len to_be_bytes
id_cbor id h = rw h refl

Reads-null_or :
    (o : Option ObjectId) (rest : Bytes) → IsOptId o → Reads (null_or bstr32) (opt_id o) rest o
unfolding null_or opt_id encode_null
Reads-null_or none rest w = record { run = λ r inside d. rw (d, null_or) refl }
Reads-null_or (some id) rest w = record {
  run = λ r inside d.
      let front : drop r.pos r.buf ≡ 88 ∷ 32 ∷ (id ++ rest) =
        d ∙ ap (λ s. s ++ rest) (id_cbor id w) in
      rw (front, null_or)
        ((Reads-keep bstr32 some (encode_bytes id) rest id (Reads-bstr32 id rest w)).run r inside
          d);
}

opt_id-IsFilled : (o : Option ObjectId) → IsFilled (opt_id o)
unfolding opt_id encode_null
opt_id-IsFilled none = omega arith
opt_id-IsFilled (some id) = bytes-IsFilled 0 id

pub record IsPath (p : ConflictPath) : Type 0 where
  pub path : IsText p.path
  pub a : IsOptId p.a
  pub b : IsOptId p.b
  pub base : IsOptId p.base

module _ (p : ConflictPath) (w : IsPath p) where
  abbrev kvs : List (Str × Bytes)
  kvs =
      (bytes "a", opt_id p.a)
      ∷ (bytes "b", opt_id p.b)
      ∷ (bytes "p", encode_text p.path)
      ∷ (bytes "base", opt_id p.base)
      ∷ []

  fields_of : encode_path p ≡ encode_map_header 4 ++ concat_fields kvs
  unfolding encode_path encode_map_sorted text_key encode_text push_uint u8_len
  fields_of = refl

  abbrev found : PathFound
  found = record { path = some p.path; a = p.a; b = p.b; base = p.base }

  Run-fields : (rest : Bytes) → Run path_key none no_path kvs rest found
  unfolding path_key is_utf8 encode_text push_uint u8_len
  Run-fields rest =
      let s1 : PathFound = record no_path { a = p.a } in
      let s2 : PathFound = record s1 { b = p.b } in
      let s3 : PathFound = record s2 { path = some p.path } in
      (
        s1,
        (omega arith, refl),
        refl,
        Reads-keep _ _ _ _ p.a (Reads-null_or p.a _ w.a),
        (
          s2,
          (omega arith, refl),
          refl,
          Reads-keep _ _ _ _ p.b (Reads-null_or p.b _ w.b),
          (
            s3,
            (omega arith, refl),
            refl,
            Reads-keep _ _ _ _ p.path (Reads-text p.path _ w.path),
            (
              found,
              (omega arith, refl),
              refl,
              Reads-keep _ _ _ _ p.base (Reads-null_or p.base _ w.base),
              refl,
            ),
          ),
        ),
      )

  pub Reads-read_path : (rest : Bytes) → Reads read_path (encode_path p) rest p
  unfolding read_path
  Reads-read_path rest =
      Reads-last (read_map path_key no_path) _ (encode_path p) rest found p
        (subst (λ s. Reads (read_map path_key no_path) s rest found) (sym fields_of)
          (Reads-map path_key kvs no_path rest found (omega arith)
            (
              opt_id-IsFilled p.a,
              (opt_id-IsFilled p.b, (text-IsFilled 0 p.path, (opt_id-IsFilled p.base, tt))),
            )
            (Run-fields rest)))
        (Reads-pure p rest)

pub encode_path-IsFilled : (p : ConflictPath) → IsFilled (encode_path p)
unfolding encode_path encode_map_sorted
encode_path-IsFilled p = map-IsFilled 4 _
