-- ===== src/Core/Object/Contribution/Roundtrip.antt =====
-- A contribution reads back.
use forgefs.Base.{
  ◌≤◌, ◌+◌, ◌≡◌, refl, sym, subst, none, some, List, [], ◌∷◌, ◌++◌, arith, All, length,
  length-append, length-to_be_bytes, to_be_bytes, Bytes, Str, bytes, is_utf8, nat_eq, list_eq,
  same_refl,
}
use forgefs.Types.{ok, ObjectType}
use forgefs.Core.Cbor.{
  encode_bytes, encode_text, encode_u64, encode_array_header, encode_map_sorted, encode_map_header,
  text_key, push_uint, u8_len, concat_map,
}
use forgefs.Core.Cbor.Reader.{text}
use forgefs.Core.Cbor.Reader.Reads.{Reads, Reads-last, Reads-pure}
use forgefs.Core.Cbor.Uint.{IsU64, Reads-bstr32, Reads-u64}
use forgefs.Core.Cbor.Fields.{IsText, concat_fields, read_map}
use forgefs.Core.Cbor.Fields.Sizes.{
  bytes-IsFilled, array-IsFilled, text-IsFilled, map-IsFilled, u64-IsFilled,
}
use forgefs.Core.Cbor.Fields.Loops.{
  Reads-map, Reads-keep, Reads-ids, Reads-text, Reads-array_of, Run,
}
use forgefs.Core.Object.{encode_file, read_all, end_of}
use forgefs.Core.Object.Frame.{parse_file-encode_file, read_all-Reads, Reads-end_of}
use forgefs.Core.Object.Conflict.{ids_cbor}
use forgefs.Core.Object.Conflict.Roundtrip.{AreIds}
use forgefs.Core.Object.Contribution.{
  max_items, max_parents, max_serialized_header_bytes, ContributionRead, Contribution, validate,
  encode_read, contribution_header, encode, ReadFound, read_key, read_read, ContributionFound,
  no_contribution, contribution_key, finish, read_contribution, check_canonical, decode,
}

pub record IsRead (r : ContributionRead) : Type 0 where
  pub path : IsText r.path
  pub id : length r.id ≡ 32

module _ (r : ContributionRead) (w : IsRead r) where
  abbrev read_kvs : List (Str × Bytes)
  read_kvs = (bytes "p", encode_text r.path) ∷ (bytes "id", encode_bytes r.id) ∷ []

  read_fields_of : encode_read r ≡ encode_map_header 2 ++ concat_fields read_kvs
  unfolding encode_read encode_map_sorted text_key encode_text push_uint u8_len
  read_fields_of = refl

  abbrev read_found : ReadFound
  read_found = record { path = some r.path; id = some r.id }

  Run-read :
      (rest : Bytes)
      → Run read_key none (record { path = none; id = none }) read_kvs rest read_found
  unfolding read_key is_utf8 encode_text push_uint u8_len
  Run-read rest =
      let s1 : ReadFound = record { path = some r.path; id = none } in
      (
        s1,
        (omega arith, refl),
        refl,
        Reads-keep _ _ _ _ r.path (Reads-text r.path _ w.path),
        (
          read_found,
          (omega arith, refl),
          refl,
          Reads-keep _ _ _ _ r.id (Reads-bstr32 r.id _ w.id),
          refl,
        ),
      )

  Reads-read_read : (rest : Bytes) → Reads read_read (encode_read r) rest r
  unfolding read_read
  Reads-read_read rest =
      Reads-last (read_map read_key (record { path = none; id = none })) _ (encode_read r) rest
        read_found r
        (subst
          (λ s. Reads (read_map read_key (record { path = none; id = none })) s rest read_found)
          (sym read_fields_of)
          (Reads-map read_key read_kvs (record { path = none; id = none }) rest read_found
            (omega arith) (text-IsFilled 0 r.path, (bytes-IsFilled 0 r.id, tt)) (Run-read rest)))
        (Reads-pure r rest)

encode_read-IsFilled : (r : ContributionRead) → 1 ≤ length (encode_read r)
unfolding encode_read encode_map_sorted
encode_read-IsFilled r = map-IsFilled 2 _

each_read :
    (rs : List ContributionRead)
    → All IsRead rs
    → All (λ (r : ContributionRead). (after : Bytes) → Reads read_read (encode_read r) after r) rs
each_read [] all = tt
each_read (r ∷ rs) (one, more) = (Reads-read_read r one, each_read rs more)

each_write :
    (paths : List Str)
    → All IsText paths
    → All (λ (p : Str). (after : Bytes) → Reads text (encode_text p) after p) paths
each_write [] all = tt
each_write (p ∷ paths) (one, more) = ((λ after. Reads-text p after one), each_write paths more)

-- A contribution that `validate` accepts, whose ids have 32 bytes, whose texts are UTF-8, whose time
-- fits 64 bits, and whose header is within the limit.
pub record IsEncodable (c : Contribution) : Type 0 where
  pub base : length c.base ≡ 32
  pub tree : length c.tree ≡ 32
  pub parents : AreIds c.parents
  pub reads : All IsRead c.reads
  pub writes : All IsText c.writes
  pub agent : IsText c.agent
  pub ts : IsU64 c.ts
  pub valid : validate c ≡ ok tt
  pub size : length (contribution_header c) ≤ max_serialized_header_bytes

limits :
    (c : Contribution)
    → validate c ≡ ok tt
    → (length c.parents ≤ max_parents)
      × (length c.reads ≤ max_items)
      × (length c.writes ≤ max_items)
unfolding validate
limits c h = ground arith

length-encode_file :
    (header bs : Bytes)
    → encode_file ObjectType.contribution header [] ≡ ok bs
    → length bs ≡ 5 + length header
unfolding encode_file
length-encode_file header bs h = ground (
  arith,
  length-to_be_bytes 4 (length header),
  length-append (to_be_bytes 4 (length header)) (header ++ []),
  length-append header [],
)

module _ (c : Contribution) (w : IsEncodable c) where
  abbrev kvs : List (Str × Bytes)
  kvs =
      (bytes "ts", encode_u64 c.ts)
      ∷ (bytes "base", encode_bytes c.base)
      ∷ (bytes "tree", encode_bytes c.tree)
      ∷ (bytes "agent", encode_text c.agent)
      ∷ (bytes "reads", encode_array_header (length c.reads) ++ concat_map encode_read c.reads)
      ∷ (bytes "writes", encode_array_header (length c.writes) ++ concat_map encode_text c.writes)
      ∷ (bytes "parents", ids_cbor c.parents)
      ∷ []

  fields_of : contribution_header c ≡ encode_map_header 7 ++ concat_fields kvs
  unfolding contribution_header encode_map_sorted text_key encode_text push_uint u8_len
  fields_of = refl

  abbrev found : ContributionFound
  found = record {
    base = some c.base;
    tree = some c.tree;
    parents = some c.parents;
    reads = some c.reads;
    writes = some c.writes;
    agent = some c.agent;
    ts = some c.ts;
  }

  Run-fields : Run contribution_key none no_contribution kvs [] found
  unfolding contribution_key is_utf8 encode_text push_uint u8_len
  Run-fields =
      let (few_parents, few_reads, few_writes) = limits c w.valid in
      let s1 : ContributionFound = record no_contribution { ts = some c.ts } in
      let s2 : ContributionFound = record s1 { base = some c.base } in
      let s3 : ContributionFound = record s2 { tree = some c.tree } in
      let s4 : ContributionFound = record s3 { agent = some c.agent } in
      let s5 : ContributionFound = record s4 { reads = some c.reads } in
      let s6 : ContributionFound = record s5 { writes = some c.writes } in
      (
        s1,
        (omega arith, refl),
        refl,
        Reads-keep _ _ _ _ c.ts (Reads-u64 c.ts _ w.ts),
        (
          s2,
          (omega arith, refl),
          refl,
          Reads-keep _ _ _ _ c.base (Reads-bstr32 c.base _ w.base),
          (
            s3,
            (omega arith, refl),
            refl,
            Reads-keep _ _ _ _ c.tree (Reads-bstr32 c.tree _ w.tree),
            (
              s4,
              (omega arith, refl),
              refl,
              Reads-keep _ _ _ _ c.agent (Reads-text c.agent _ w.agent),
              (
                s5,
                (omega arith, refl),
                refl,
                Reads-keep _ _ _ _ c.reads (
                    Reads-array_of read_read encode_read max_items _ c.reads _
                      (omega (arith, few_reads)) few_reads encode_read-IsFilled
                      (each_read c.reads w.reads)),
                (
                  s6,
                  (omega arith, refl),
                  refl,
                  Reads-keep _ _ _ _ c.writes (
                      Reads-array_of text encode_text max_items _ c.writes _
                        (omega (arith, few_writes)) few_writes (text-IsFilled 0)
                        (each_write c.writes w.writes)),
                  (
                    found,
                    (omega arith, refl),
                    refl,
                    Reads-keep _ _ _ _ c.parents
                        (Reads-ids max_parents _ c.parents _ (omega arith) few_parents w.parents),
                    refl,
                  ),
                ),
              ),
            ),
          ),
        ),
      )

  Reads-read_contribution : Reads read_contribution (contribution_header c) [] c
  unfolding read_contribution finish
  Reads-read_contribution =
      Reads-last (read_map contribution_key no_contribution) _ (contribution_header c) [] found c
        (subst (λ s. Reads (read_map contribution_key no_contribution) s [] found) (sym fields_of)
          (Reads-map contribution_key kvs no_contribution [] found (omega arith)
            (
              u64-IsFilled c.ts [],
              (
                bytes-IsFilled 0 c.base,
                (
                  bytes-IsFilled 0 c.tree,
                  (
                    text-IsFilled 0 c.agent,
                    (
                      array-IsFilled (length c.reads) _,
                      (
                        array-IsFilled (length c.writes) _,
                        (array-IsFilled (length c.parents) _, tt),
                      ),
                    ),
                  ),
                ),
              ),
            )
            Run-fields))
        (Reads-last (end_of _) _ [] [] tt c (Reads-end_of _) (Reads-pure c []))

  -- A contribution that `validate` accepts, whose ids have 32 bytes, whose texts are UTF-8, whose time
  -- fits 64 bits, and whose header is within the limit, is encoded, and `decode` returns it from its
  -- encoding.
  pub contribution_decode-encode : (bs : Bytes) × (encode c ≡ ok bs) × (decode bs ≡ ok c)
  unfolding encode decode check_canonical
  contribution_decode-encode =
      let (bs, written, parsed) =
        parse_file-encode_file ObjectType.contribution (contribution_header c) []
          (omega (arith, w.size)) in
      let again : encode c ≡ ok bs = ground (arith, w.valid, w.size) in
      let small : length bs ≡ 5 + length (contribution_header c) =
        length-encode_file (contribution_header c) bs written in
      let value : read_all read_contribution (contribution_header c) ≡ ok c =
        read_all-Reads read_contribution (contribution_header c) c (omega (arith, w.size))
          Reads-read_contribution in
      (bs, again, ground (arith, w.valid, w.size, same_refl bs))
