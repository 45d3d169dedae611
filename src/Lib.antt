-- ===== src/Lib.antt =====
-- Verification library of latlng, a geospatial database written in Rust.
--
-- A server or an embedding keeps collections of objects in memory. Each command that changes one is
-- written to a log first (crates/latlng-storage and its backends), then applied to the collection and
-- its indexes (crates/latlng-core, crates/latlng-index), then handed to the geofences, whose events go
-- to subscribers by bounded mailboxes (crates/latlng-platform) and to webhooks by a durable queue
-- (crates/latlng-webhook-queue). Followers copy a leader's log in chunks (crates/latlng-replication).
-- Tokens carry permissions by action and collection (crates/latlng-auth).
--
-- Files. In what follows each path `src/lib.rs` is below the crate that is named.
-- - Prelude: maps and sets in key order (BTreeMap, and HashMap, whose order no theorem relies on),
--   keys with a total order, results, texts, lists over native numbers.
-- - Storage, Storage/Memory: crates/latlng-storage and crates/latlng-storage-memory. `MemoryBackend` is the
--   record under the lock; a method is a function of it. Storage/Order, Storage/Replay and
--   Storage/Memory/Laws hold the proofs.
-- - Storage/Aof: crates/latlng-storage-aof. Aof has the frames and the loading of a file, which is the list
--   of its bytes; Writer the commits, snapshots and compactions as functions of the writer's state, Loop
--   `run_writer_loop` over the commands in the order of arrival, Backend the methods of `AofBackend`, and
--   Backup the functions `verify_aof`, `backup_aof` and `restore_aof`. What becomes of a write is an argument
--   (`WriteOutcome`, `Disk`): how much of it reaches the file or stays in the buffer, and whether the
--   rollback, the reopening, the rename of a rewritten file and the last sync succeed. A file that was
--   renamed is taken to be found again. Reading, Files, Loading, Increasing, Entries and Whole hold the proofs
--   about loading, Commits, Durable, Rewriting, Runs and Promises those about what the writer keeps, Answers,
--   Grouping, Agreement, Calls, Faults and RoundTrip those their names say; Samples is a small codec.
-- - Replication: crates/latlng-replication; Replication/CatchUp runs a follower's rounds.
-- - Platform: the mailbox of crates/latlng-platform; Platform/History and Platform/Delivery relate it to
--   the whole history of sends.
-- - Webhooks: crates/latlng-webhook-queue, its table as a map by `job_id`, each SQL statement as a
--   function of the table; Webhooks/Log has the records of the log; Invariant, Leases, Expired and Stats hold
--   the proofs. Rows that SQL orders equal stand
--   in the order of their keys: SQLite leaves that order open, and the model fixes one choice.
-- - Geofence: crates/latlng-geofence. Geofence has the events, Fence the fences that stand still, Roaming
--   those between two collections, Names and Registry the registry (channels and hooks in tables of one
--   kind), Mutations the preparing and applying of a mutation, Listing what the registry tells of itself.
--   Fence/Transitions, Roaming/Pairs, Registry/Indexes and Mutations/Delivery hold the proofs.
-- - Geo: crates/latlng-geo. Geo/Float holds f64 as its 64 bits with the order of IEEE 754; Geo/Json is
--   serde_json's value; Geo/JsonPath, Geo/Bounds, Geo/Fields, Geo/Object and Geo/Geohash are the parts of
--   that crate that do no trigonometry.
-- - Index: `SpatialIndex` of crates/latlng-index over an R-tree that is a parameter (`Crates`); Index/Tree says
--   what rstar documents of it (`TreeLaws`) and that the index's map and tree hold the same entries, which
--   Core/Collection/Tree extends to the calls of a collection; Index/Search is the order and the pages of a search, with std's sort, the test of the filters and the format of the
--   output as arguments.
-- - Core: crates/latlng-core. Core/Fields is src/util.rs, Core/Indexes is `FieldIndexes` and
--   Core/Collection is `Collection`, both of src/lib.rs; Core/Records holds the log's records.
-- - Core/Engine: the database `LatLng` of crates/latlng-core. Core/Action is the monad of a method that
--   may fail, Core/World what the engine calls and this library does not define. Core/Engine holds the
--   state with src/internals.rs, Log below it the writing of src/persistence.rs; Objects, Edits and Collections hold the
--   commands of src/commands.rs, src/admin.rs and src/geofences.rs; Restore holds src/restore.rs,
--   src/log_codec.rs and `build`. Effect says what a command of the log means for the collections,
--   versions and geofences aside; Strip and Refinement relate the replay to it. Recovery has the
--   invariant that the log rebuilds the collections, a child for each kind of command, the runs of
--   commands (Run), and the replay and the restart (Replay, Restart). ReadOnly is about these commands on a
--   database that is read-only.
-- - Auth: actions, rules and principals of crates/latlng-auth.
-- The files named Examples apply the theorems at concrete inputs.
--
-- Numbers are native; a u64 that saturates or wraps is written with `saturating_add` and
-- `wrapping_add`. Loops are structural, or on fuel where a file is loaded:
-- each frame takes eight bytes at least, and the fuel is the number of the file's bytes. Rounds of
-- replication are counted, and one round for each missing entry is enough; so are the rounds of the
-- file's writer, of which one for each command is enough.
--
-- A method of the engine runs alone, as under the exclusive gate: what it read does not change before
-- it writes, so the loops that retry on a new version go round once. It reads the clock once. The
-- order of a HashMap's collections is that of their names. The storage is the in-memory backend.
--
-- Parameters: the crates rstar, geo and geojson and the midpoint of two f64 (`Crates`; the promises on rstar's
-- tree and on the midpoint hold for coordinates from -180 to 180, and are asked there alone), the digest of
-- checksums, the codecs serde_json and bincode, the ids of webhooks by md5, and the glob matcher. That
-- serde_json reads back what it wrote is asked of the entries of the log and of backups only, since it is
-- not so for every f64; of bincode it is asked of the frames of a file. The geofence registry is an interface of the engine
-- (`Fences`), and what the registry asks of latlng-geo and latlng-index, tests of areas, distances and
-- filters, one of its own (`Places`).
-- Not modelled: locks and threads, the directories and the memory that files take, HTTP, WebSocket and Cap'n Proto interfaces, the server, JWT
-- verification, trigonometry and clipping, the waiting receivers of geofence events, queries, and of the engine the
-- entries of a leader and the snapshots of the log.
pub mod Prelude
pub mod Storage
pub mod Replication
pub mod Platform
pub mod Geo
pub mod Core
pub mod Geofence
pub mod Webhooks
pub mod Index
pub mod Auth
