-- ===== src/Lib.antt =====
-- dafs: a daemon that keeps a timeline of the files below its watch roots.
--
-- Parts. crates/dafs-store keeps the tables: interned path components, files, an append-only log of
-- events, what was extracted, inferred and embedded of a file, and a queue for each of the three.
-- crates/dafs-scan fills the first of them, by a scan and by a live watch; both go through the interner
-- and `upsert_entry` of the store. crates/dafs-extract reads what a file is and holds. In
-- crates/dafs-daemon the observer runs scan and watch and queues what changed, three workers empty the
-- queues (an extraction queues an enrichment and an embedding), and an adapter answers the queries of
-- crates/dafs-api, whose handlers check a request before they hand it on.
--
-- Files.
-- - Prelude, HashMap, FilePath: shared tests and lists, `HashMap` as an association list (the order
--   of iteration is left open by the source, and statements go through `get`), `std::path` by
--   components.
-- - Notify, Watch: crates/dafs-scan/src/watch.rs. `Watch` is the source's struct without the handles
--   of the `notify` crate; `absorb`, `absorb_rename` (with `absorb_both`, `absorb_half` and
--   `pair_half` for its arms), `emit_rename`, `expire_pending_renames`, `take_expired` and `poll` keep
--   their names. Time is in milliseconds and is handed to each call; what the channel delivers is an
--   argument of `poll`.
-- - Store: crates/dafs-store/src/paths.rs, the tables of lib.rs and the statements of paths.rs,
--   events.rs and crates/dafs-scan/src/lib.rs. A table is keyed by its rowid; a statement checks the
--   foreign keys and unique indices of the schema and fails with `constraint`. What SQLite decides (a
--   new rowid, and which of the rows that an ORDER BY does not tell apart comes first) is the
--   parameter `Sqlite`; Tests/Engine.antt is an instance. A call returns its result and the store,
--   also after an error.
--   Store/Events and Store/Timeline: `append_batch` and `timeline` of events.rs, the joined columns of
--   `file_metadata` and `file_enrichment` kept as two records.
--   Store/Catalog: the tables of lib.rs and embeddings.rs that the workers write, as `Work` beside the
--   other tables. Store/Queue and Store/Latest: metadata.rs, with the statements that the three queues
--   share. Store/Enrichment: enrichment.rs. Store/Vectors and Store/Embeddings: embeddings.rs; an `f32`
--   is its bit pattern and a blob a list of bytes. The parameter `Vec0` is the distance of sqlite-vec,
--   and `Float64` what is done with it. Store/Facets: `distinct_facets`. Store/Migrations: `migrate` of
--   lib.rs, a statement by what it creates, and `Sequence` for the failures of its steps.
-- - Scan: crates/dafs-scan/src/lib.rs. Scan/Lookup has `owning_root`, `ensure_relative_dirs`,
--   `lookup_parent` and `lookup_file`; Scan/Recording `record_entry`, `record_path` and
--   `record_removal`; Scan/Renaming `record_rename`; Scan/Batches `scan`, `scan_inner` and what they
--   call. The early returns and matches of one function are helpers by clauses. `Scan` is the state of
--   the loop, with the tables that a rollback or a crash leaves (`committed`) beside those that the
--   connection sees. The entries of `walkdir`, with the clock at each, are an argument, and so are the
--   file system and the clock of one call of the watch (`World`). `observe` is the part that
--   `record_entry` and `record_path` have in common.
-- - Extract: crates/dafs-extract/src/lib.rs, sniff.rs and filename.rs. The parsers of the formats, EXIF
--   and git are parameters.
-- - Enrich: crates/dafs-enrich/src/lib.rs, the client of the models; `Json` is what serde_json reads.
-- - Daemon: crates/dafs-daemon/src. Daemon/Worker is the loop that the workers have in common, and
--   Daemon/ExtractWorker, Daemon/EnrichWorker and Daemon/EmbedWorker are the three of them, each
--   attempt with what it finds outside (files, helper process, model) in a `World`. Daemon/Observer has
--   `observe` of main.rs, with `Surroundings` for what a change finds and `Notifier` for the `notify`
--   crate; Daemon/SharedRoots the steps of its thread and of a request that waits for it;
--   Daemon/StoreAdapter has store_adapter.rs.
-- - Api: crates/dafs-api/src. Api/LogHistory has log_history.rs, Api/LogEvents the writer that
--   `init_tracing` of main.rs makes for each event, and Api/Handlers the checks and
--   statuses of the handlers of lib.rs, with the traits of the daemon as records. Api/LogLevel has
--   logging.rs, and Api/Probes readiness, version and metrics. Daemon/WatchAdapter is watch_adapter.rs.
-- - Tests: concrete runs, and the theorems at concrete inputs.
--
-- Bounds. `resolve_path` walks at most 256 rounds, as the source does. The loop of a worker runs until
-- the process ends; here it has a number of rounds, and those that the attempts left of the queued rows
-- add up to empty the queue (Daemon/Drained). Every other loop is a recursion on its list.
--
-- Not modelled: failures of the disk, the lock or the connection in crates/dafs-scan and in the queues;
-- 64-bit overflow of ids, sizes and times (they are natural numbers); `to_string_lossy` (a name is a
-- text); threads and timeouts (what arrives in a round is an argument); the parsers of Office, PDF, EXIF
-- and git; JSON, HTTP routing and the HTTP library; the command line, the pid file and
-- signals; the terminal client, the allocator and the fuzz targets.
pub mod Prelude
pub mod HashMap
pub mod FilePath
pub mod Notify
pub mod Watch
pub mod Store
pub mod Scan
pub mod Extract
pub mod Enrich
pub mod Api
pub mod Daemon
mod Tests
