-- ===== src/Core/Object/Commit.antt =====
-- forge-core/object.rs: `Commit::encode` and `Commit::decode`.
pub mod Roundtrip
use forgefs.Base.{
  ℕ, Bool, true, false, Option, none, some, List, [], ◌∷◌, ◌++◌, if◌then◌else◌, length, ◌==◌,
  list_eq, nat_eq, Bytes, Str, bytes,
}
use forgefs.Types.{Error, corrupt, Result, ObjectId, ObjectType}
use forgefs.Core.Cbor.{
  Pairs, encode_u64, encode_bool, encode_bytes, encode_text, encode_array_header, encode_map_sorted,
  text_key, concat_map,
}
use forgefs.Core.Cbor.Reader.{Read, ◌>>=◌, ◌>>◌, pure, fail, bstr32, text, u64, bool}
use forgefs.Core.Cbor.Fields.{read_map, read_array}
use forgefs.Core.Object.{encode_file, decode_with, require, end_of, max_commit_parents}

pub record Commit : Type 0 where
  pub tree : ObjectId
  pub parents : List ObjectId
  pub agent : Str
  pub msg : Str
  pub ts : ℕ
  pub landmark : Bool
  pub contrib : Option ObjectId

abbrev contrib_field : Option ObjectId → Pairs
contrib_field none = []
contrib_field (some id) = (text_key (bytes "contrib"), encode_bytes id) ∷ []

unfoldable pub commit_header : Commit → Bytes
commit_header c = encode_map_sorted (
    (text_key (bytes "agent"), encode_text c.agent)
    ∷ (text_key (bytes "lm"), encode_bool c.landmark)
    ∷ (text_key (bytes "msg"), encode_text c.msg)
    ∷ (
      text_key (bytes "parents"),
      encode_array_header (length c.parents) ++ concat_map encode_bytes c.parents,
    )
    ∷ (text_key (bytes "tree"), encode_bytes c.tree)
    ∷ (text_key (bytes "ts"), encode_u64 c.ts)
    ∷ contrib_field c.contrib)

-- `Commit::encode`
unfoldable pub encode : Commit → Result Bytes
encode c = encode_file ObjectType.commit (commit_header c) []

-- The variables of `Commit::decode`.
pub record Found : Type 0 where
  pub tree : Option ObjectId
  pub parents : Option (List ObjectId)
  pub agent : Option Str
  pub msg : Option Str
  pub ts : Option ℕ
  pub lm : Option Bool
  pub contrib : Option ObjectId

abbrev pub nothing_found : Found
nothing_found = record {
  tree = none;
  parents = none;
  agent = none;
  msg = none;
  ts = none;
  lm = none;
  contrib = none;
}

unfoldable pub commit_key : Found → Str → Read Found
commit_key f k =
    if k == bytes "tree"
    then (do v ← bstr32; pure (record f { tree = some v }))
    else if k == bytes "parents"
    then (do
      v ← read_array max_commit_parents (corrupt "commit parent count exceeds limit") bstr32
      pure (record f { parents = some v }))
    else if k == bytes "agent"
    then (do v ← text; pure (record f { agent = some v }))
    else if k == bytes "msg"
    then (do v ← text; pure (record f { msg = some v }))
    else if k == bytes "ts"
    then (do v ← u64; pure (record f { ts = some v }))
    else if k == bytes "lm"
    then (do v ← bool; pure (record f { lm = some v }))
    else if k == bytes "contrib"
    then (do v ← bstr32; pure (record f { contrib = some v }))
    else fail (corrupt "unknown commit key {k}")

unfoldable pub finish : Found → Read Commit
finish f = do
  tree ← require f.tree (corrupt "commit tree")
  parents ← require f.parents (corrupt "commit parents")
  agent ← require f.agent (corrupt "commit agent")
  msg ← require f.msg (corrupt "commit msg")
  ts ← require f.ts (corrupt "commit ts")
  lm ← require f.lm (corrupt "commit lm")
  pure (record {
    tree = tree;
    parents = parents;
    agent = agent;
    msg = msg;
    ts = ts;
    landmark = lm;
    contrib = f.contrib;
  })

unfoldable pub read_commit : Read Commit
read_commit = do
  found ← read_map commit_key nothing_found
  end_of (corrupt "commit header trailing bytes")
  finish found

-- `Commit::decode`
unfoldable pub decode : Bytes → Result Commit
decode bs =
    decode_with ObjectType.commit (corrupt "not a commit") (corrupt "commit has payload")
      read_commit bs
