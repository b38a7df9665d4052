-- ===== src/Core/Object/Contribution.antt =====
-- forge-core/contribution.rs: `Contribution::validate`, `encode` and `decode`.
pub mod Roundtrip
use forgefs.Base.{
  ℕ, ◌+◌, ◌*◌, ◌^◌, Bool, true, false, not, ◌||◌, Option, none, some, List, [], ◌∷◌, ◌++◌, map, ltb,
  leb, eqb, if◌then◌else◌, length, contains, ◌==◌, list_eq, nat_eq, lt_bytes, min, Bytes, Str,
  bytes,
}
use forgefs.Types.{
  Error, corrupt, invalid, Result, Checked, ok, err, guard, ObjectId, ObjectType, eq_type,
}
use forgefs.Core.Cbor.{
  encode_u64, encode_bytes, encode_text, encode_array_header, encode_map_sorted, text_key,
  concat_map,
}
use forgefs.Core.Cbor.Reader.{Read, ◌>>=◌, ◌>>◌, pure, fail, bstr32, text, u64, usize_max}
use forgefs.Core.Cbor.Fields.{read_map, read_array}
use forgefs.Core.Object.{
  encode_file, parse_file, read_all, require, end_of, and_then, max_commit_parents,
}
use forgefs.Core.Object.Conflict.{ids_cbor}

abbrev pub max_items : ℕ
max_items = 100_000

abbrev pub max_parents : ℕ
max_parents = 1_024

abbrev pub max_path_bytes : ℕ
max_path_bytes = 4_096

abbrev pub max_agent_bytes : ℕ
max_agent_bytes = 1_024

abbrev pub max_serialized_header_bytes : ℕ
max_serialized_header_bytes = 8 * 1024 * 1024

pub record ContributionRead : Type 0 where
  pub path : Str
  pub id : ObjectId

pub record Contribution : Type 0 where
  pub base : ObjectId
  pub tree : ObjectId
  pub parents : List ObjectId
  pub reads : List ContributionRead
  pub writes : List Str
  pub agent : Str
  pub ts : ℕ

unfoldable pub validate_path : Str → Checked
validate_path path =
    guard (not (path == [] || (ltb max_path_bytes (length path) || contains path 0)))
      (invalid "contribution path bounds")

-- `if let Some(prev) = prev`: the path before is below this one.
abbrev pub follows : Option Str → Str → Bool
follows none path = true
follows (some prev) path = lt_bytes prev path

unfoldable pub sorted_from : Option Str → List Str → Checked
sorted_from prev [] = ok tt
sorted_from prev (path ∷ paths) = and_then (validate_path path) (λ _.
    and_then
      (guard (follows prev path) (invalid "contribution paths must be bytewise sorted unique"))
      (λ _. sorted_from (some path) paths))

unfoldable pub validate_sorted_unique : List Str → Checked
validate_sorted_unique paths = sorted_from none paths

-- `checked_add` of a `usize`
abbrev pub checked_add : ℕ → ℕ → Result ℕ
checked_add n m =
    if ltb usize_max (n + m) then err (invalid "contribution size overflow") else ok (n + m)

-- `saturating_add` and `saturating_mul`
abbrev pub saturate : ℕ → ℕ
saturate n = min n usize_max

abbrev pub add_sizes : ℕ → List ℕ → Result ℕ
add_sizes n [] = ok n
add_sizes n (size ∷ sizes) = and_then (checked_add n size) (λ m. add_sizes m sizes)

-- The bound on the size of the encoding, from the parts that have no fixed size.
unfoldable pub estimated : Contribution → Result ℕ
estimated c = and_then (checked_add 1_024 (length c.agent)) (λ n.
    and_then (checked_add n (saturate (length c.parents * 40))) (λ m.
      and_then (add_sizes m (map (λ (r : ContributionRead). saturate (length r.path + 64)) c.reads))
        (λ k. add_sizes k (map (λ path. saturate (length path + 8)) c.writes))))

-- `Contribution::validate`
unfoldable pub validate : Contribution → Checked
validate c =
    and_then
      (guard
        (not (
          ltb max_parents (length c.parents)
          || (ltb max_items (length c.reads) || ltb max_items (length c.writes))))
        (invalid "contribution fanout exceeds limit"))
      (λ _.
        and_then
          (guard (not (c.agent == [] || ltb max_agent_bytes (length c.agent)))
            (invalid "contribution agent bounds"))
          (λ _. and_then (estimated c) (λ size.
            and_then
              (guard (leb size max_serialized_header_bytes)
                (invalid "contribution exceeds serialized size limit"))
              (λ _.
                and_then (validate_sorted_unique (map (λ (r : ContributionRead). r.path) c.reads))
                  (λ _. validate_sorted_unique c.writes)))))

-- The body of the loop over the reads.
unfoldable pub encode_read : ContributionRead → Bytes
encode_read r =
    encode_map_sorted
      ((text_key (bytes "id"), encode_bytes r.id) ∷ (text_key (bytes "p"), encode_text r.path) ∷ [])

unfoldable pub contribution_header : Contribution → Bytes
contribution_header c = encode_map_sorted (
    (text_key (bytes "agent"), encode_text c.agent)
    ∷ (text_key (bytes "base"), encode_bytes c.base)
    ∷ (text_key (bytes "parents"), ids_cbor c.parents)
    ∷ (
      text_key (bytes "reads"),
      encode_array_header (length c.reads) ++ concat_map encode_read c.reads,
    )
    ∷ (text_key (bytes "tree"), encode_bytes c.tree)
    ∷ (text_key (bytes "ts"), encode_u64 c.ts)
    ∷ (
      text_key (bytes "writes"),
      encode_array_header (length c.writes) ++ concat_map encode_text c.writes,
    )
    ∷ [])

-- `Contribution::encode`
unfoldable pub encode : Contribution → Result Bytes
encode c = and_then (validate c) (λ _.
    and_then
      (guard (leb (length (contribution_header c)) max_serialized_header_bytes)
        (invalid "contribution exceeds serialized size limit"))
      (λ _. encode_file ObjectType.contribution (contribution_header c) []))

-- The variables of the loop over a read's keys.
pub record ReadFound : Type 0 where
  pub path : Option Str
  pub id : Option ObjectId

unfoldable pub read_key : ReadFound → Str → Read ReadFound
read_key f k =
    if k == bytes "p"
    then (do v ← text; pure (record f { path = some v }))
    else if k == bytes "id"
    then (do v ← bstr32; pure (record f { id = some v }))
    else fail (corrupt "unknown contribution read key {key}")

unfoldable pub read_read : Read ContributionRead
read_read = do
  f ← read_map read_key (record { path = none; id = none })
  path ← require f.path (corrupt "contribution read path")
  id ← require f.id (corrupt "contribution read id")
  pure (record { path = path; id = id })

-- The variables of `Contribution::decode`.
pub record ContributionFound : Type 0 where
  pub base : Option ObjectId
  pub tree : Option ObjectId
  pub parents : Option (List ObjectId)
  pub reads : Option (List ContributionRead)
  pub writes : Option (List Str)
  pub agent : Option Str
  pub ts : Option ℕ

abbrev pub no_contribution : ContributionFound
no_contribution = record {
  base = none;
  tree = none;
  parents = none;
  reads = none;
  writes = none;
  agent = none;
  ts = none;
}

unfoldable pub contribution_key : ContributionFound → Str → Read ContributionFound
contribution_key f k =
    if k == bytes "base"
    then (do v ← bstr32; pure (record f { base = some v }))
    else if k == bytes "tree"
    then (do v ← bstr32; pure (record f { tree = some v }))
    else if k == bytes "parents"
    then (do
      v ← read_array max_parents (corrupt "contribution parent count exceeds limit") bstr32
      pure (record f { parents = some v }))
    else if k == bytes "reads"
    then (do
      v ← read_array max_items (corrupt "contribution read count exceeds limit") read_read
      pure (record f { reads = some v }))
    else if k == bytes "writes"
    then (do
      v ← read_array max_items (corrupt "contribution write count exceeds limit") text
      pure (record f { writes = some v }))
    else if k == bytes "agent"
    then (do v ← text; pure (record f { agent = some v }))
    else if k == bytes "ts"
    then (do v ← u64; pure (record f { ts = some v }))
    else fail (corrupt "unknown contribution key {key}")

unfoldable pub finish : ContributionFound → Read Contribution
finish f = do
  base ← require f.base (corrupt "contribution base")
  tree ← require f.tree (corrupt "contribution tree")
  parents ← require f.parents (corrupt "contribution parents")
  reads ← require f.reads (corrupt "contribution reads")
  writes ← require f.writes (corrupt "contribution writes")
  agent ← require f.agent (corrupt "contribution agent")
  ts ← require f.ts (corrupt "contribution ts")
  pure (record {
    base = base;
    tree = tree;
    parents = parents;
    reads = reads;
    writes = writes;
    agent = agent;
    ts = ts;
  })

unfoldable pub read_contribution : Read Contribution
read_contribution = do
  found ← read_map contribution_key no_contribution
  end_of (corrupt "contribution header trailing bytes")
  finish found

-- `map_err(|e| Error::Corrupt(e.to_string()))`
abbrev pub as_corrupt : Checked → Checked
as_corrupt (ok x) = ok x
as_corrupt (err e) = err (corrupt "{e}")

-- The last checks of the decoder: the value is valid, and it is encoded as the bytes that were read.
unfoldable pub check_canonical : Contribution → Bytes → Result Contribution
check_canonical value bs = and_then (as_corrupt (validate value)) (λ _.
    and_then (encode value) (λ again.
      and_then (guard (again == bs) (corrupt "non-canonical contribution encoding"))
        (λ _. ok value)))

-- `Contribution::decode`
unfoldable pub decode : Bytes → Result Contribution
decode bs =
    and_then
      (guard (leb (length bs) (max_serialized_header_bytes + 5))
        (corrupt "contribution exceeds serialized size limit"))
      (λ _. and_then (parse_file bs) (λ (ty, header, payload).
        and_then
          (guard (leb (length header) max_serialized_header_bytes)
            (corrupt "contribution exceeds serialized size limit"))
          (λ _.
            and_then (guard (eq_type ty ObjectType.contribution) (corrupt "not a contribution"))
              (λ _. and_then (guard (payload == []) (corrupt "contribution has payload")) (λ _.
                and_then (read_all read_contribution header)
                  (λ value. check_canonical value bs))))))
