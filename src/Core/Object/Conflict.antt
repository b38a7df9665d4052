-- ===== src/Core/Object/Conflict.antt =====
-- forge-core/object.rs: `Conflict::validate`, `Conflict::encode` and `Conflict::decode`.
pub mod Paths
pub mod Roundtrip
use forgefs.Base.{
  ℕ, Bool, true, false, Option, none, some, List, [], ◌∷◌, ◌++◌, leb, if◌then◌else◌, length, ◌==◌,
  list_eq, nat_eq, Bytes, Str, bytes,
}
use forgefs.Types.{Error, corrupt, invalid, Result, Checked, guard, ObjectId, ObjectType}
use forgefs.Core.Cbor.{
  encode_bytes, encode_null, encode_text, encode_array_header, encode_map_sorted, text_key,
  concat_map,
}
use forgefs.Core.Cbor.Reader.{Read, ◌>>=◌, ◌>>◌, pure, fail, null_or, bstr32, text}
use forgefs.Core.Cbor.Fields.{read_map, read_array}
use forgefs.Core.Object.{encode_file, decode_with, require, end_of, and_then, max_conflict_items}

pub record ConflictPath : Type 0 where
  pub path : Str
  pub a : Option ObjectId
  pub b : Option ObjectId
  pub base : Option ObjectId

pub record Conflict : Type 0 where
  pub bases : List ObjectId
  pub ours : ObjectId
  pub theirs : ObjectId
  pub paths : List ConflictPath
  pub causal : List ObjectId

abbrev too_many : Error
too_many =
    invalid "conflict has {n} {what}, more than the {MAX_CONFLICT_ITEMS} a conflict object may hold"

-- `Conflict::validate`
unfoldable pub validate : Conflict → Checked
validate c = and_then (guard (leb (length c.paths) max_conflict_items) too_many) (λ _.
    and_then (guard (leb (length c.bases) max_conflict_items) too_many)
      (λ _. guard (leb (length c.causal) max_conflict_items) too_many))

unfoldable pub opt_id : Option ObjectId → Bytes
opt_id (some id) = encode_bytes id
opt_id none = encode_null

abbrev pub ids_cbor : List ObjectId → Bytes
ids_cbor ids = encode_array_header (length ids) ++ concat_map encode_bytes ids

-- The body of the loop over the paths.
unfoldable pub encode_path : ConflictPath → Bytes
encode_path p = encode_map_sorted (
    (text_key (bytes "a"), opt_id p.a)
    ∷ (text_key (bytes "b"), opt_id p.b)
    ∷ (text_key (bytes "base"), opt_id p.base)
    ∷ (text_key (bytes "p"), encode_text p.path)
    ∷ [])

unfoldable pub conflict_header : Conflict → Bytes
conflict_header c = encode_map_sorted (
    (text_key (bytes "bases"), ids_cbor c.bases)
    ∷ (text_key (bytes "causal"), ids_cbor c.causal)
    ∷ (text_key (bytes "ours"), encode_bytes c.ours)
    ∷ (
      text_key (bytes "paths"),
      encode_array_header (length c.paths) ++ concat_map encode_path c.paths,
    )
    ∷ (text_key (bytes "theirs"), encode_bytes c.theirs)
    ∷ [])

-- `Conflict::encode`
unfoldable pub encode : Conflict → Result Bytes
encode c = encode_file ObjectType.conflict (conflict_header c) []

unfoldable pub id_array : Read (List ObjectId)
id_array = read_array max_conflict_items (corrupt "object id array exceeds limit") bstr32

-- The variables of the loop over a path's keys.
pub record PathFound : Type 0 where
  pub path : Option Str
  pub a : Option ObjectId
  pub b : Option ObjectId
  pub base : Option ObjectId

abbrev pub no_path : PathFound
no_path = record { path = none; a = none; b = none; base = none }

unfoldable pub path_key : PathFound → Str → Read PathFound
path_key f k =
    if k == bytes "p"
    then (do v ← text; pure (record f { path = some v }))
    else if k == bytes "a"
    then (do v ← null_or bstr32; pure (record f { a = v }))
    else if k == bytes "b"
    then (do v ← null_or bstr32; pure (record f { b = v }))
    else if k == bytes "base"
    then (do v ← null_or bstr32; pure (record f { base = v }))
    else fail (corrupt "path key {fk}")

unfoldable pub read_path : Read ConflictPath
read_path = do
  f ← read_map path_key no_path
  path ← require f.path (corrupt "conflict path")
  pure (record { path = path; a = f.a; b = f.b; base = f.base })

-- The variables of `Conflict::decode`.
pub record ConflictFound : Type 0 where
  pub bases : Option (List ObjectId)
  pub ours : Option ObjectId
  pub theirs : Option ObjectId
  pub paths : Option (List ConflictPath)
  pub causal : Option (List ObjectId)

abbrev pub no_conflict : ConflictFound
no_conflict = record { bases = none; ours = none; theirs = none; paths = none; causal = none }

unfoldable pub conflict_key : ConflictFound → Str → Read ConflictFound
conflict_key f k =
    if k == bytes "bases"
    then (do v ← id_array; pure (record f { bases = some v }))
    else if k == bytes "ours"
    then (do v ← bstr32; pure (record f { ours = some v }))
    else if k == bytes "theirs"
    then (do v ← bstr32; pure (record f { theirs = some v }))
    else if k == bytes "causal"
    then (do v ← id_array; pure (record f { causal = some v }))
    else if k == bytes "paths"
    then (do
      v ← read_array max_conflict_items (corrupt "conflict path count exceeds limit") read_path
      pure (record f { paths = some v }))
    else fail (corrupt "unknown conflict key {k}")

-- `unwrap_or_default`
abbrev pub or_empty {ℓ} : {A : Type ℓ} → Option (List A) → List A
or_empty none = []
or_empty (some xs) = xs

unfoldable pub finish : ConflictFound → Read Conflict
finish f = do
  ours ← require f.ours (corrupt "conflict ours")
  theirs ← require f.theirs (corrupt "conflict theirs")
  pure (record {
    bases = or_empty f.bases;
    ours = ours;
    theirs = theirs;
    paths = or_empty f.paths;
    causal = or_empty f.causal;
  })

unfoldable pub read_conflict : Read Conflict
read_conflict = do
  found ← read_map conflict_key no_conflict
  end_of (corrupt "conflict header trailing bytes")
  finish found

-- `Conflict::decode`
unfoldable pub decode : Bytes → Result Conflict
decode bs =
    decode_with ObjectType.conflict (corrupt "not a conflict") (corrupt "conflict has payload")
      read_conflict bs
