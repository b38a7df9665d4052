-- ===== src/Graph.antt =====
-- forge-store: the walk over the typed graph of objects (crates/forge-store/src/graph.rs). The bytes
-- of an object, which the object plane reads and hashes, are the parameter `get_raw_verified`.
pub mod Schedule
pub mod Sorted
pub mod Met
pub mod Closed
pub mod Fuel
pub mod Reach
pub mod Limit
use forgefs.Base.{
  ℕ, zero, suc, Bool, true, false, not, ◌&&◌, ◌||◌, Option, none, some, List, [], ◌∷◌, ◌++◌, map,
  ltb, eqb, if◌then◌else◌, length, contains, ◌==◌, nat_eq, list_eq, eqb_iff, cmp, Str, Bytes, bytes,
  Eq,
}
use Prim.Native.Nat.Ordering.{lt, eq, gt}
use forgefs.Types.{
  ObjectId, Error, Result, ok, err, ◌>>=◌, ◌>>◌, Checked, guard, invalid, corrupt, ObjectType,
  to_u8, eq_type, type_name, EntryKind, from_u8,
}
use forgefs.Types.Hex.{hex_encode}
use forgefs.Core.Tree.{TreeEntry, Tree}
use forgefs.Core.Object.{parse_file}
use forgefs.Core.Object.Blob
use forgefs.Core.Object.TreeCodec
use forgefs.Core.Object.Commit
use forgefs.Core.Object.Conflict
use forgefs.Core.Object.Snapshot
use forgefs.Core.Object.Contribution

pub data GraphExpectation : Type 0 where
  any : GraphExpectation
  exact : ObjectType → GraphExpectation
  tree_entry : GraphExpectation

unfoldable pub accepts : GraphExpectation → ObjectType → Bool
accepts GraphExpectation.any actual = true
accepts (exact expected) actual = eq_type actual expected
accepts tree_entry ObjectType.blob = true
accepts tree_entry ObjectType.tree = true
accepts tree_entry _ = false

unfoldable pub description : GraphExpectation → Str
description GraphExpectation.any = bytes "any object"
description (exact expected) = type_name expected
description tree_entry = bytes "blob or tree"

-- `GraphExpectation::verify`
unfoldable pub verify : GraphExpectation → ObjectType → Checked
verify expected actual =
    guard (accepts expected actual) (corrupt "typed edge {resource} expected {}, found {} at {id}")

pub record GraphEdge : Type 0 where
  pub id : ObjectId
  pub expected : GraphExpectation
  pub resource : Str

pub record VerifiedGraphObject : Type 0 where
  pub id : ObjectId
  pub object_type : ObjectType

unfoldable pub expectation_key : GraphExpectation → ℕ
expectation_key GraphExpectation.any = 0
expectation_key (exact object_type) = to_u8 object_type
expectation_key tree_entry = 255

-- A pair of an object and an expectation's key, of the set `scheduled`.
pub record Constraint : Type 0 where
  pub id : ObjectId
  pub key : ℕ

abbrev pub same_constraint : Constraint → Constraint → Bool
same_constraint a b = a.id == b.id && eqb a.key b.key

-- The queue has its front first.
pub record GraphWorkQueue : Type 0 where
  pub queue : List GraphEdge
  pub scheduled : List Constraint
  pub scheduled_ids : List ObjectId
  pub limit : ℕ

unfoldable pub with_limit : ℕ → GraphWorkQueue
with_limit limit = record { queue = []; scheduled = []; scheduled_ids = []; limit = limit }

abbrev pub limit_exceeded : Error
limit_exceeded = invalid "object graph walk reached this build's ceiling of {limit} objects."

abbrev pub constraint : GraphEdge → Constraint
constraint e = record { id = e.id; key = expectation_key e.expected }

abbrev pub has_constraint : List Constraint → Constraint → Bool
has_constraint [] k = false
has_constraint (x ∷ xs) k = elim (same_constraint k x) [ true ↦ true | false ↦ has_constraint xs k ]

-- `HashSet::insert`
abbrev pub insert_id : List ObjectId → ObjectId → List ObjectId
insert_id ids id = if contains ids id then ids else id ∷ ids

unfoldable pub schedule : GraphWorkQueue → GraphEdge → Result (Bool × GraphWorkQueue)
schedule q edge =
    if has_constraint q.scheduled (constraint edge)
    then ok (false, q)
    else if not (contains q.scheduled_ids edge.id) && not (ltb (length q.scheduled_ids) q.limit)
    then err limit_exceeded
    else ok (
      true,
      record q {
        queue = q.queue ++ edge ∷ [];
        scheduled = constraint edge ∷ q.scheduled;
        scheduled_ids = insert_id q.scheduled_ids edge.id;
      },
    )

unfoldable pub pop_front : GraphWorkQueue → Option (GraphEdge × GraphWorkQueue)
pop_front q = elim q.queue [ [] ↦ none | e ∷ rest ↦ some (e, record q { queue = rest }) ]

abbrev pub edge_to : ObjectId → GraphExpectation → Str → GraphEdge
edge_to id expected resource = record { id = id; expected = expected; resource = resource }

-- `{kind}:{id}:{what}`
abbrev pub resource_of : Str → ObjectId → Str → Str
resource_of kind id what = kind ++ bytes ":" ++ hex_encode id ++ bytes ":" ++ what

unfoldable pub entry_type : EntryKind → ObjectType
entry_type EntryKind.blob = ObjectType.blob
entry_type EntryKind.tree = ObjectType.tree

unfoldable pub tree_edges : ObjectId → List TreeEntry → List GraphEdge
unfolding entry_type
tree_edges id entries =
    map
      (λ (e : TreeEntry).
        edge_to e.id (exact (entry_type e.kind)) (resource_of (bytes "tree") id e.name))
      entries

-- Edges of one type to each object of a list.
abbrev pub edges_to : List ObjectId → ObjectType → Str → List GraphEdge
edges_to ids expected resource = map (λ id. edge_to id (exact expected) resource) ids

abbrev pub optional {ℓ} : {A : Type ℓ} → Option A → List A
optional none = []
optional (some a) = a ∷ []

unfoldable pub commit_edges : ObjectId → Commit.Commit → List GraphEdge
commit_edges id commit =
    edge_to commit.tree (exact ObjectType.tree) (resource_of (bytes "commit") id (bytes "tree"))
    ∷ (edges_to commit.parents ObjectType.commit (resource_of (bytes "commit") id (bytes "parent"))
        ++ edges_to (optional commit.contrib) ObjectType.contribution
            (resource_of (bytes "commit") id (bytes "contribution")))

abbrev pub path_edges : ObjectId → List Conflict.ConflictPath → List GraphEdge
path_edges id [] = []
path_edges id (p ∷ paths) =
    map
      (λ target.
        edge_to target GraphExpectation.any
          (resource_of (bytes "conflict") id (bytes "path:" ++ p.path)))
      (optional p.a ++ optional p.b ++ optional p.base)
    ++ path_edges id paths

unfoldable pub conflict_edges : ObjectId → Conflict.Conflict → List GraphEdge
conflict_edges id c =
    edges_to c.bases ObjectType.tree (resource_of (bytes "conflict") id (bytes "base"))
    ++ edge_to c.ours (exact ObjectType.tree) (resource_of (bytes "conflict") id (bytes "ours"))
      ∷ edge_to c.theirs (exact ObjectType.tree)
          (resource_of (bytes "conflict") id (bytes "theirs"))
      ∷ (edges_to c.causal ObjectType.commit (resource_of (bytes "conflict") id (bytes "causal"))
          ++ path_edges id c.paths)

unfoldable pub snapshot_edges : ObjectId → Snapshot.Snapshot → List GraphEdge
snapshot_edges id s =
    edge_to s.tree (exact ObjectType.tree) (resource_of (bytes "snapshot") id (bytes "tree"))
    ∷ edge_to s.commit (exact ObjectType.commit)
        (resource_of (bytes "snapshot") id (bytes "commit"))
    ∷ edge_to s.prov (exact ObjectType.blob)
        (resource_of (bytes "snapshot") id (bytes "provenance"))
    ∷ []

unfoldable pub contribution_edges : ObjectId → Contribution.Contribution → List GraphEdge
contribution_edges id c =
    edge_to c.base (exact ObjectType.commit) (resource_of (bytes "contribution") id (bytes "base"))
    ∷ edge_to c.tree (exact ObjectType.tree) (resource_of (bytes "contribution") id (bytes "tree"))
    ∷ (edges_to c.parents ObjectType.commit (resource_of (bytes "contribution") id (bytes "parent"))
        ++ map
            (λ (r : Contribution.ContributionRead).
              edge_to r.id (exact ObjectType.blob)
                (resource_of (bytes "contribution") id (bytes "read:" ++ r.path)))
            c.reads)

unfoldable pub edges_of : ObjectId → Bytes → ObjectType → Result (List GraphEdge)
edges_of id bs ObjectType.blob = Blob.decode bs >>= λ b. ok []
edges_of id bs ObjectType.tree = TreeCodec.decode bs >>= λ t. ok (tree_edges id t.entries)
edges_of id bs ObjectType.commit = Commit.decode bs >>= λ c. ok (commit_edges id c)
edges_of id bs ObjectType.conflict = Conflict.decode bs >>= λ c. ok (conflict_edges id c)
edges_of id bs ObjectType.snapshot = Snapshot.decode bs >>= λ s. ok (snapshot_edges id s)
edges_of id bs ObjectType.contribution =
    Contribution.decode bs >>= λ c. ok (contribution_edges id c)

unfoldable pub decode_object_type : Bytes → Result ObjectType
decode_object_type [] = err (corrupt "empty object")
decode_object_type (b ∷ bs) = from_u8 b

pub record DecodedGraphObject : Type 0 where
  pub object_type : ObjectType
  pub edges : List GraphEdge

unfoldable pub decode_graph_object : ObjectId → Bytes → Result DecodedGraphObject
decode_graph_object id bs = do
  object_type ← decode_object_type bs
  edges ← edges_of id bs object_type
  ok (record { object_type = object_type; edges = edges })

-- `for edge in edges { queue.schedule(edge)?; }`
unfoldable pub schedule_all : GraphWorkQueue → List GraphEdge → Result GraphWorkQueue
schedule_all q [] = ok q
schedule_all q (e ∷ es) = do (fresh, q') ← schedule q e; schedule_all q' es

abbrev pub find_type : List VerifiedGraphObject → ObjectId → Option ObjectType
find_type [] id = none
find_type (v ∷ vs) id = elim (v.id == id) [ true ↦ some v.object_type | false ↦ find_type vs id ]

-- The stable sort by id.
abbrev pub insert_object : VerifiedGraphObject → List VerifiedGraphObject → List VerifiedGraphObject
insert_object v [] = v ∷ []
insert_object v (x ∷ xs) =
    let rest = insert_object v xs in elim (cmp v.id x.id) [ gt ↦ x ∷ rest | _ ↦ v ∷ x ∷ xs ]

unfoldable pub sort_objects : List VerifiedGraphObject → List VerifiedGraphObject
sort_objects [] = []
sort_objects (v ∷ vs) = insert_object v (sort_objects vs)

module _ (get_raw_verified : ObjectId → Result Bytes) where
  -- The body of the loop, on an edge that has left the queue.
  unfoldable pub visit :
      GraphWorkQueue
      → GraphEdge
      → List VerifiedGraphObject
      → Result (GraphWorkQueue × List VerifiedGraphObject)
  visit q e verified = elim (find_type verified e.id) [
    | some actual ↦ verify e.expected actual >> ok (q, verified)
    | none ↦
        guard (ltb (length verified) q.limit) limit_exceeded
        >> (get_raw_verified e.id >>= λ bs. decode_graph_object e.id bs >>= λ decoded.
            verify e.expected decoded.object_type
            >> (schedule_all q decoded.edges >>= λ q'.
                ok (q', record { id = e.id; object_type = decoded.object_type } ∷ verified)))
  ]

  -- The loop. `none` is out of fuel.
  unfoldable pub walk :
      ℕ → GraphWorkQueue → List VerifiedGraphObject → Option (Result (List VerifiedGraphObject))
  unfolding pop_front
  walk zero q verified = none
  walk (suc fuel) q verified = elim (pop_front q) [
    | none ↦ some (ok verified)
    | some (e, rest) ↦ elim (visit rest e verified) [
      | err x ↦ some (err x)
      | ok (q', verified') ↦ walk fuel q' verified'
    ]
  ]

  -- `reachable_graph_verified`, at the limit that the environment gives.
  unfoldable pub reachable_graph_verified :
      ℕ → ℕ → ObjectId → ObjectType → Option (Result (List VerifiedGraphObject))
  reachable_graph_verified fuel limit root expected =
      elim (schedule (with_limit limit)
        (edge_to root (exact expected) (bytes "root:" ++ hex_encode root))) [
          | err x ↦ some (err x)
          | ok (fresh, q) ↦ elim (walk fuel q []) [
            | none ↦ none
            | some (err x) ↦ some (err x)
            | some (ok verified) ↦ some (ok (sort_objects verified))
          ]
        ]
