-- ===== src/Lib.antt =====
-- forgefs: a verification library for the trusted core of the repository.
--
-- forgefs is a content-addressed file store for agents. Objects (blobs, trees, commits and more) are
-- files whose id is the BLAKE3 hash of their bytes: one type byte, a header in canonical CBOR, and a
-- payload. A credential is a chain of HMACs over caveats, which its holder can extend and so narrow.
-- The catalog is a database of references to objects, of a log of their moves, and of the sessions of
-- agents: a session stages edits over a pinned commit, and a checkin swaps its reference or makes a fork.
--
-- The files and the code they are about, with paths from the repository's root:
--   Base        shared types, lists, byte strings, texts, their order (no code of the repository)
--   Types       crates/forge-types/src/lib.rs: `Error` with `exit_code` and `code`, `ObjectType`,
--               `EntryKind`, ids; Types/Hex: `hex_encode`, `hex_decode`, `ObjectId::from_hex`
--   Cap         crates/forge-cap/src/lib.rs: `Op`, `Cap`, `Cap::allows`; Cap/Parse: `parse_caveats`,
--               `cap_from_parts`; Cap/Chain: `mint`, `verify`, `attenuate_holder`, `sign_chain`;
--               Cap/Token: `Cap::encode`, `decode_cap`, `Cap::to_token`, `Cap::from_token`
--   Core/Cbor   crates/forge-core/src/cbor.rs: the writers and `Reader`, whose methods are reads of a
--               cursor that may fail; Core/Cbor/Fields: the loop over a map's keys that every decoder has
--   Core/Tree   crates/forge-core/src/tree.rs: `TreeEntry`, `Tree::new`, `Tree::from_canonical`,
--               `validate_name`, `split_path`, `strip_path_prefix`; Core/Tree/Lookup: `Tree::get`;
--               Core/Tree/Edits: `merge_sorted_entries`
--   Core/Object crates/forge-core/src/object.rs: `encode_file`, `parse_file`, and the codecs of
--               `Blob`, `Tree` (Core/Object/TreeCodec), `Commit`, `Conflict` and `Snapshot`;
--               Core/Object/Contribution: crates/forge-core/src/contribution.rs
--   Merge       crates/forge-merge/src/lib.rs: `same_entry`, the match of `merge_trees` on a name
--               (`decide`), `path_in_conflict_scope`
--   Namespace   crates/forge-ns/src/lib.rs: `normalize_abs`, `longest_mount`, `rel_of`, `parse_spec`;
--               `Mode::Rw` is `rw_mode`
--   Catalog     crates/forge-store/src/meta.rs: the tables of the catalog and the statements on `refs` and
--               `reflog`; Catalog/Names: `validate_ref_name`, `validate_ref_kind`, `sanitize_agent`,
--               `session_fork_name`, `is_fork_ref`; Catalog/Refs: `insert_ref`, `cas_ref`;
--               Catalog/Sessions: `create_session`, `cas_ref_session`, `complete_noop_session`;
--               Catalog/Retire: `abandon_ref`, `publish_resolution`, `abandon_session`; Catalog/Seals:
--               `commit_seal`; Catalog/Mounts, Catalog/Observations and Catalog/Overlay: the tables of a
--               session; Catalog/Audit: what `audit_catalog` reports on the kinds of references, the
--               flags of tags, and the log;
--               Catalog/Steps and Catalog/History: sequences of the operations
--   Graph       crates/forge-store/src/graph.rs: `GraphExpectation`, `GraphWorkQueue`,
--               `decode_graph_object`, and the walk of `reachable_graph_verified` over the objects that
--               an object reaches, whose bytes are the parameter `get_raw_verified`
--   Authority   crates/forge-api/src/authority.rs: `load_cap`, `check`, `require_ns`,
--               `check_spec_read`, `grant`
--   Tests       concrete inputs
--
-- Conventions. A byte is a number below 256 and a `String` or `Vec<u8>` is a list of bytes; that a
-- text is UTF-8 is the predicate `is_utf8`, where the code tests it. A `u64` is a number, with
-- `IsU64` where its range matters; `usize` has 64 bits. A function that appends to a buffer is the
-- bytes that it appends. An error keeps the format string of its message. A panic of the source
-- (`expect` in `encode_file`) is the error `internal`. HMAC-SHA-256 is the parameter `hmac`.
--
-- The catalog. A table is a list of its rows without their time stamps, `reflog` with the newest row
-- first; a primary key makes the first row of a key the only one. A transaction is a function from a
-- catalog to what the code returns and the catalog that it commits; an error leaves the catalog as it
-- was. Constraint violations are the error `invalid`, as `map_sql` makes them. The identifier that
-- `Ulid::new` returns is an argument. Counters are left out, and so are the refusals of a busy, broken
-- or read-only database. The audit is of rows whose ids have the shape of one.
--
-- Histories. Four creations do not ask whether a name is retired: a session's reference, the two kinds
-- of forks, and a tag. `StepIf` has as parameters what is assumed of such a name, and of the reason that
-- a caller gives to an insertion. `Step` and `Reach`, a history, assume that the name is not a retired
-- one (the callers put a fresh identifier into the first three) and that the reason is not the one that
-- retires a name.
--
-- Fuel. `Tree::get` searches with the number of entries as fuel: a round takes one off the size at
-- least. `decode_cap` reads caveats with the number of remaining bytes as fuel: a round takes two
-- bytes at least. `reachable_graph_verified` takes its fuel as an argument: a round takes an edge from
-- the queue, which an object enters once for each of 8 keys, so that more than 8 times the limit is
-- enough. All other loops are structural.
--
-- Not modelled: the file system, SQLite itself, threads and sockets; the catalog's schema, migrations
-- and group commit; the object files of crates/forge-store; the verbs of crates/forge-api that
-- use them; the command line (crates/forge-cli).
pub mod Base
pub mod Types
pub mod Cap
pub mod Core
pub mod Merge
pub mod Namespace
pub mod Catalog
pub mod Graph
pub mod Authority
pub mod Tests
