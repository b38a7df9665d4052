-- ===== src/Core/Object/TreeCodec/Roundtrip.antt =====
-- A tree reads back.
use forgefs.Base.{
  ◌*◌, ◌≤◌, ◌<◌, ◌^◌, ◌≡◌, refl, ap, sym, subst, true, none, some, List, [], ◌∷◌, ◌++◌, arith, All,
  leb, length, length-append, Bytes, Str, bytes, is_utf8,
}
use forgefs.Types.{ok, ObjectType}
use forgefs.Core.Tree.{TreeEntry, Tree}
use forgefs.Core.Tree.Sorted.{IsCanonical, IsValidName, from_canonical_iff}
use forgefs.Core.Cbor.{
  encode_text, encode_array_header, encode_map_sorted, encode_map_header, text_key, push_uint,
  u8_len, concat_map,
}
use forgefs.Core.Cbor.Reader.Reads.{Reads, Reads-last, Reads-pure}
use forgefs.Core.Cbor.Fields.{concat_fields, read_map}
use forgefs.Core.Cbor.Fields.Sizes.{
  IsFilled, array-IsFilled, map-IsFilled, length-encode_header, length-concat_fields_le,
}
use forgefs.Core.Cbor.Fields.Loops.{Reads-map, Reads-keep, Reads-array_of, Run}
use forgefs.Core.Object.{end_of, max_tree_entries}
use forgefs.Core.Object.Frame.{decode_with-encode_file, Reads-end_of}
use forgefs.Core.Object.TreeCodec.{
  encode_entry, encode_entries, tree_header, encode, read_entry, tree_key, read_tree, decode,
}
use forgefs.Core.Object.TreeCodec.Entry.{Reads-read_entry, length-encode_entry}

abbrev AreIds : List TreeEntry → Type 0
AreIds es = All (λ (e : TreeEntry). length e.id ≡ 32) es

abbrev AreNames : List TreeEntry → Type 0
AreNames es = All (λ (e : TreeEntry). IsValidName e.name) es

read_entries :
    (es : List TreeEntry)
    → AreNames es
    → AreIds es
    → All (λ (e : TreeEntry). (after : Bytes) → Reads read_entry (encode_entry e) after e) es
read_entries [] names ids = tt
read_entries (e ∷ es) (name, names) (id, ids) =
    (λ after. Reads-read_entry e name id after, read_entries es names ids)

encode_entries-concat_map :
    (es : List TreeEntry) → AreNames es → encode_entries es ≡ ok (concat_map encode_entry es)
unfolding encode_entries
encode_entries-concat_map [] names = refl
encode_entries-concat_map (e ∷ es) (name, names) =
    rw (name, encode_entries-concat_map es names) refl

encode_entry-IsFilled : (e : TreeEntry) → IsFilled (encode_entry e)
unfolding encode_entry encode_map_sorted
encode_entry-IsFilled e = map-IsFilled 4 _

length-entries :
    (es : List TreeEntry)
    → AreNames es
    → AreIds es
    → length (concat_map encode_entry es) ≤ 400 * length es
length-entries [] names ids = omega arith
length-entries (e ∷ es) (name, names) (id, ids) = omega (
  arith,
  length-append (encode_entry e) (concat_map encode_entry es),
  length-encode_entry e name id,
  length-entries es names ids,
)

-- A canonical tree whose ids have 32 bytes, with at most 100000 entries.
pub record IsEncodable (t : Tree) : Type 0 where
  pub canonical : IsCanonical t.entries
  pub ids : AreIds t.entries
  pub few : length t.entries ≤ max_tree_entries

module _ (t : Tree) (w : IsEncodable t) where
  abbrev cbor : Bytes
  cbor = concat_map encode_entry t.entries

  abbrev tree_kvs : List (Str × Bytes)
  tree_kvs = (bytes "e", encode_array_header (length t.entries) ++ cbor) ∷ []

  header_fields :
      tree_header (length t.entries) cbor ≡ encode_map_header 1 ++ concat_fields tree_kvs
  unfolding tree_header encode_map_sorted text_key encode_text push_uint u8_len
  header_fields = refl

  header_size : length (tree_header (length t.entries) cbor) < 2 ^ 32
  header_size = omega (
    arith,
    ap length header_fields,
    length-append (encode_map_header 1) (concat_fields tree_kvs),
    (length-encode_header 1).1,
    (length-encode_header (length t.entries)).0,
    length-concat_fields_le tree_kvs,
    length-append (encode_array_header (length t.entries)) cbor,
    length-entries t.entries w.canonical.names w.ids,
    w.few,
  )

  Run-entries : Run tree_key none none tree_kvs [] (some t.entries)
  unfolding tree_key is_utf8
  Run-entries = (
    some t.entries,
    (omega arith, refl),
    refl,
    Reads-keep _ _ _ _ t.entries (
        Reads-array_of read_entry encode_entry max_tree_entries _ t.entries _ (omega (arith, w.few))
          w.few encode_entry-IsFilled (read_entries t.entries w.canonical.names w.ids)),
    refl,
  )

  Reads-read_tree : Reads read_tree (tree_header (length t.entries) cbor) [] t
  unfolding read_tree
  Reads-read_tree =
      Reads-last (read_map tree_key none) _ (tree_header (length t.entries) cbor) []
        (some t.entries) t
        (subst (λ s. Reads (read_map tree_key none) s [] (some t.entries)) (sym header_fields)
          (Reads-map tree_key tree_kvs none [] (some t.entries) (omega arith)
            (array-IsFilled (length t.entries) cbor, tt) Run-entries))
        (Reads-last (end_of _) _ [] [] tt t (Reads-end_of _)
          (rw ((from_canonical_iff t.entries).1 w.canonical) (Reads-pure t [])))

  -- A canonical tree whose ids have 32 bytes, with at most 100000 entries, is encoded, and `decode`
  -- returns it from its encoding.
  pub tree_decode-encode : (bs : Bytes) × (encode t ≡ ok bs) × (decode bs ≡ ok t)
  unfolding encode decode
  tree_decode-encode =
      let fits : leb (length t.entries) max_tree_entries ≡ true = ground (arith, w.few) in
      let (bs, written, read) =
        decode_with-encode_file ObjectType.tree _ _ read_tree (tree_header (length t.entries) cbor)
          t header_size Reads-read_tree in
      (bs, rw (fits, encode_entries-concat_map t.entries w.canonical.names) written, read)
