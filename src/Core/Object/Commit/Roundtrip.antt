-- ===== src/Core/Object/Commit/Roundtrip.antt =====
-- A commit reads back.
use forgefs.Base.{
  ◌≤◌, ◌<◌, ◌^◌, ◌≡◌, refl, sym, subst, true, Option, none, some, List, [], ◌∷◌, ◌++◌, arith, All,
  length, Bytes, Str, bytes, is_utf8,
}
use forgefs.Types.{ok, ObjectId, ObjectType}
use forgefs.Core.Cbor.{
  encode_u64, encode_bool, encode_bytes, encode_text, encode_array_header, encode_map_sorted,
  encode_map_header, text_key, push_uint, u8_len, concat_map,
}
use forgefs.Core.Cbor.Reader.{above}
use forgefs.Core.Cbor.Reader.Reads.{Reads, Reads-last, Reads-pure}
use forgefs.Core.Cbor.Uint.{IsU64, Reads-u64, Reads-bool, Reads-bstr32}
use forgefs.Core.Cbor.Fields.{IsText, concat_fields, read_map}
use forgefs.Core.Cbor.Fields.Sizes.{
  IsFilled, u64-IsFilled, bool-IsFilled, bytes-IsFilled, text-IsFilled, array-IsFilled,
}
use forgefs.Core.Cbor.Fields.Loops.{Reads-map, Reads-keep, Reads-text, Run, Reads-ids}
use forgefs.Core.Object.{end_of, max_commit_parents}
use forgefs.Core.Object.Frame.{decode_with-encode_file, Reads-end_of}
use forgefs.Core.Object.Commit.{
  Commit, Found, nothing_found, commit_header, encode, commit_key, finish, read_commit, decode,
}

-- A commit whose ids have 32 bytes, whose texts are UTF-8, with at most 1024 parents, and whose
-- header fits a `u32`.
pub record IsEncodable (c : Commit) : Type 0 where
  pub tree : length c.tree ≡ 32
  pub parents : All (λ (p : ObjectId). length p ≡ 32) c.parents
  pub few : length c.parents ≤ max_commit_parents
  pub agent : IsText c.agent
  pub msg : IsText c.msg
  pub ts : IsU64 c.ts
  pub contrib : (id : ObjectId) → c.contrib ≡ some id → length id ≡ 32
  pub size : length (commit_header c) < 2 ^ 32

module _ (c : Commit) (w : IsEncodable c) where
  abbrev contrib_kvs : Option ObjectId → List (Str × Bytes)
  contrib_kvs none = []
  contrib_kvs (some id) = (bytes "contrib", encode_bytes id) ∷ []

  abbrev kvs : Option ObjectId → List (Str × Bytes)
  kvs contrib =
      (bytes "lm", encode_bool c.landmark)
      ∷ (bytes "ts", encode_u64 c.ts)
      ∷ (bytes "msg", encode_text c.msg)
      ∷ (bytes "tree", encode_bytes c.tree)
      ∷ (bytes "agent", encode_text c.agent)
      ∷ (contrib_kvs contrib
          ++ ((
            bytes "parents",
            encode_array_header (length c.parents) ++ concat_map encode_bytes c.parents,
          )
              ∷ []))

  fields_of :
      (contrib : Option ObjectId)
      → commit_header (record c { contrib = contrib })
        ≡ encode_map_header (length (kvs contrib)) ++ concat_fields (kvs contrib)
  unfolding commit_header encode_map_sorted text_key encode_text push_uint u8_len
  fields_of none = refl
  fields_of (some id) = refl

  abbrev found : Option ObjectId → Found
  found contrib = record {
    tree = some c.tree;
    parents = some c.parents;
    agent = some c.agent;
    msg = some c.msg;
    ts = some c.ts;
    lm = some c.landmark;
    contrib = contrib;
  }

  abbrev before_parents : Option ObjectId → Found
  before_parents contrib = record (found contrib) { parents = none }

  Run-parents :
      (contrib : Option ObjectId) (last : Bytes)
      → above (some last) (encode_text (bytes "parents")) ≡ true
      → Run commit_key
          (some last)
          (before_parents contrib)
          ((
            bytes "parents",
            encode_array_header (length c.parents) ++ concat_map encode_bytes c.parents,
          )
            ∷ [])
          []
          (found contrib)
  unfolding commit_key is_utf8
  Run-parents contrib last up = (
    found contrib,
    (omega arith, refl),
    up,
    Reads-keep _ _ _ _ c.parents
        (Reads-ids max_commit_parents _ c.parents _ (omega arith) w.few w.parents),
    refl,
  )

  Run-contrib :
      (contrib : Option ObjectId)
      → c.contrib ≡ contrib
      → Run commit_key
          (some (encode_text (bytes "agent")))
          (before_parents none)
          (contrib_kvs contrib
            ++ ((
              bytes "parents",
              encode_array_header (length c.parents) ++ concat_map encode_bytes c.parents,
            )
                ∷ []))
          []
          (found contrib)
  unfolding commit_key is_utf8 encode_text push_uint u8_len
  Run-contrib none e = Run-parents none (encode_text (bytes "agent")) refl
  Run-contrib (some id) e = (
    before_parents (some id),
    (omega arith, refl),
    refl,
    Reads-keep _ _ _ _ id (Reads-bstr32 id _ (w.contrib id e)),
    Run-parents (some id) (encode_text (bytes "contrib")) refl,
  )

  Run-fields :
      (contrib : Option ObjectId)
      → c.contrib ≡ contrib
      → Run commit_key none nothing_found (kvs contrib) [] (found contrib)
  unfolding commit_key is_utf8 encode_text push_uint u8_len
  Run-fields contrib e =
      let s1 : Found = record nothing_found { lm = some c.landmark } in
      let s2 : Found = record s1 { ts = some c.ts } in
      let s3 : Found = record s2 { msg = some c.msg } in
      let s4 : Found = record s3 { tree = some c.tree } in
      (
        s1,
        (omega arith, refl),
        refl,
        Reads-keep _ _ _ _ c.landmark (Reads-bool c.landmark _),
        (
          s2,
          (omega arith, refl),
          refl,
          Reads-keep _ _ _ _ c.ts (Reads-u64 c.ts _ w.ts),
          (
            s3,
            (omega arith, refl),
            refl,
            Reads-keep _ _ _ _ c.msg (Reads-text c.msg _ w.msg),
            (
              s4,
              (omega arith, refl),
              refl,
              Reads-keep _ _ _ _ c.tree (Reads-bstr32 c.tree _ w.tree),
              (
                before_parents none,
                (omega arith, refl),
                refl,
                Reads-keep _ _ _ _ c.agent (Reads-text c.agent _ w.agent),
                Run-contrib contrib e,
              ),
            ),
          ),
        ),
      )

  All-IsFilled :
      (contrib : Option ObjectId) → All (λ (kv : Str × Bytes). IsFilled kv.1) (kvs contrib)
  All-IsFilled none = (
    bool-IsFilled 0 [] c.landmark,
    (
      u64-IsFilled c.ts [],
      (
        text-IsFilled 0 c.msg,
        (
          bytes-IsFilled 0 c.tree,
          (
            text-IsFilled 0 c.agent,
            (array-IsFilled (length c.parents) (concat_map encode_bytes c.parents), tt),
          ),
        ),
      ),
    ),
  )
  All-IsFilled (some id) = (
    bool-IsFilled 0 [] c.landmark,
    (
      u64-IsFilled c.ts [],
      (
        text-IsFilled 0 c.msg,
        (
          bytes-IsFilled 0 c.tree,
          (
            text-IsFilled 0 c.agent,
            (
              bytes-IsFilled 0 id,
              (array-IsFilled (length c.parents) (concat_map encode_bytes c.parents), tt),
            ),
          ),
        ),
      ),
    ),
  )

  few_fields : (contrib : Option ObjectId) → IsU64 (length (kvs contrib))
  few_fields none = omega arith
  few_fields (some id) = omega arith

  Reads-read_commit : Reads read_commit (commit_header c) [] c
  unfolding read_commit finish
  Reads-read_commit =
      Reads-last (read_map commit_key nothing_found) _ (commit_header c) [] (found c.contrib) c
        (subst (λ s. Reads (read_map commit_key nothing_found) s [] (found c.contrib))
          (sym (fields_of c.contrib))
          (Reads-map commit_key (kvs c.contrib) nothing_found [] (found c.contrib)
            (few_fields c.contrib) (All-IsFilled c.contrib) (Run-fields c.contrib refl)))
        (Reads-last (end_of _) _ [] [] tt c (Reads-end_of _) (Reads-pure c []))

  -- A commit whose ids have 32 bytes, whose texts are UTF-8, whose time fits 64 bits, with at most
  -- 1024 parents, and whose header fits a `u32`, is encoded, and `decode` returns it from its
  -- encoding.
  pub commit_decode-encode : (bs : Bytes) × (encode c ≡ ok bs) × (decode bs ≡ ok c)
  unfolding encode decode
  commit_decode-encode =
      decode_with-encode_file ObjectType.commit _ _ read_commit (commit_header c) c w.size
        Reads-read_commit
