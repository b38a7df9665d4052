-- ===== src/Core/Object/TreeCodec/Entry.antt =====
-- A directory entry reads back, and how long its encoding is.
use forgefs.Base.{
  ◌≤◌, ◌≡◌, refl, ap, sym, subst, true, none, some, List, [], ◌∷◌, ◌++◌, arith, leb, length,
  length-append, Bytes, Str, bytes, is_utf8,
}
use forgefs.Types.{ok, EntryKind, kind_u8, kind_from_u8}
use forgefs.Core.Tree.{TreeEntry, validate_name}
use forgefs.Core.Tree.Sorted.{IsValidName}
use forgefs.Core.Cbor.{
  encode_u64, encode_bool, encode_bytes, encode_text, encode_map_sorted, encode_map_header,
  text_key, push_uint, u8_len,
}
use forgefs.Core.Cbor.Reader.{u64}
use forgefs.Core.Cbor.Reader.Reads.{Reads, Reads-last, Reads-pure, Reads-guard}
use forgefs.Core.Cbor.Uint.{Reads-u64, Reads-bool, Reads-bstr32, length-encode_u64}
use forgefs.Core.Cbor.Fields.{concat_fields, read_map}
use forgefs.Core.Cbor.Fields.Sizes.{
  u64-IsFilled, bool-IsFilled, bytes-IsFilled, text-IsFilled, length-encode_text,
  length-encode_bytes, length-encode_bool, length-encode_header, length-concat_fields_le,
}
use forgefs.Core.Cbor.Fields.Loops.{Reads-map, Reads-keep, Reads-text, Run}
use forgefs.Core.Object.TreeCodec.{
  encode_entry, EntryFound, no_fields, read_kind, entry_key, finish_entry, read_entry,
}

name_facts : (n : Str) → IsValidName n → (length n ≤ 255) × (is_utf8 n ≡ true)
unfolding validate_name
name_facts n h = ground arith

kind_fact : (k : EntryKind) → (kind_u8 k ≤ 255) × (kind_from_u8 (kind_u8 k) ≡ ok k)
unfolding kind_from_u8
kind_fact EntryKind.blob = (omega arith, refl)
kind_fact EntryKind.tree = (omega arith, refl)

Reads-read_kind : (k : EntryKind) (rest : Bytes) → Reads read_kind (encode_u64 (kind_u8 k)) rest k
unfolding read_kind
Reads-read_kind k rest =
    let (small, same) = kind_fact k in
    Reads-last u64 _ (encode_u64 (kind_u8 k)) rest (kind_u8 k) k
      (Reads-u64 (kind_u8 k) rest (omega arith))
      (Reads-guard (leb (kind_u8 k) 255) _ _ [] rest k (ground arith) (rw same (Reads-pure k rest)))

module _ (e : TreeEntry) (name : IsValidName e.name) (id : length e.id ≡ 32) where
  abbrev kvs : List (Str × Bytes)
  kvs =
      (bytes "k", encode_u64 (kind_u8 e.kind))
      ∷ (bytes "n", encode_text e.name)
      ∷ (bytes "x", encode_bool e.exec)
      ∷ (bytes "id", encode_bytes e.id)
      ∷ []

  fields_of : encode_entry e ≡ encode_map_header 4 ++ concat_fields kvs
  unfolding encode_entry encode_map_sorted text_key encode_text push_uint u8_len
  fields_of = refl

  abbrev found : EntryFound
  found = record { name = some e.name; kind = some e.kind; id = some e.id; exec = some e.exec }

  Run-fields : (rest : Bytes) → Run entry_key none no_fields kvs rest found
  unfolding entry_key is_utf8 encode_text push_uint u8_len
  Run-fields rest =
      let (short, utf8) = name_facts e.name name in
      let s1 : EntryFound = record no_fields { kind = some e.kind } in
      let s2 : EntryFound = record s1 { name = some e.name } in
      let s3 : EntryFound = record s2 { exec = some e.exec } in
      (
        s1,
        (omega arith, refl),
        refl,
        Reads-keep _ _ _ _ e.kind (Reads-read_kind e.kind _),
        (
          s2,
          (omega arith, refl),
          refl,
          Reads-keep _ _ _ _ e.name (Reads-text e.name _ (omega arith, utf8)),
          (
            s3,
            (omega arith, refl),
            refl,
            Reads-keep _ _ _ _ e.exec (Reads-bool e.exec _),
            (
              found,
              (omega arith, refl),
              refl,
              Reads-keep _ _ _ _ e.id (Reads-bstr32 e.id _ id),
              refl,
            ),
          ),
        ),
      )

  pub Reads-read_entry : (rest : Bytes) → Reads read_entry (encode_entry e) rest e
  unfolding read_entry finish_entry
  Reads-read_entry rest =
      Reads-last (read_map entry_key no_fields) _ (encode_entry e) rest found e
        (subst (λ s. Reads (read_map entry_key no_fields) s rest found) (sym fields_of)
          (Reads-map entry_key kvs no_fields rest found (omega arith)
            (
              u64-IsFilled (kind_u8 e.kind) [],
              (text-IsFilled 0 e.name, (bool-IsFilled 0 [] e.exec, (bytes-IsFilled 0 e.id, tt))),
            )
            (Run-fields rest)))
        (Reads-pure e rest)

  -- The bound on an entry's encoding, from which the one on a tree's header comes.
  pub length-encode_entry : length (encode_entry e) ≤ 400
  length-encode_entry = omega (
    arith,
    ap length fields_of,
    length-append (encode_map_header 4) (concat_fields kvs),
    (length-encode_header 4).1,
    length-concat_fields_le kvs,
    length-encode_u64 (kind_u8 e.kind),
    length-encode_text e.name,
    (name_facts e.name name).0,
    length-encode_bool e.exec,
    length-encode_bytes e.id,
    id,
  )
