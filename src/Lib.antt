-- ===== src/Lib.antt =====
-- consumer_engine: a segmentation engine. A caller posts a segment in a JSON DSL; the engine
-- validates it, checks it against the semantic catalogue, compiles it to one SQL statement with
-- bound parameters, runs that under budgets, and labels the rows with the freshness of the sources
-- they came from. Large segments become jobs; a finished snapshot is handed out under a signed,
-- expiring token. Everything that is written goes through one thread, which owns the only writer of
-- the catalogue: raw rows wait in small batches, by tenant and table, and then become inserts.
--
-- The parts, by the paths of the repository:
-- - crates/core: Core/Ident (ident.rs, feature.rs), Core/Dataset (dataset.rs), Core/Config
--   (config.rs: the limits that a query reads, and their defaults), Core/Freshness (freshness.rs),
--   Core/Labels (semantic.rs, suppression.rs: the labels).
-- - crates/query: Query/Json (the serde_json and DuckDB values the source names), Query/Ast (ast.rs)
--   with Query/Ast/References, Query/Fault (error.rs), Query/Validate (parse.rs), Query/Compiler
--   (compiler.rs, one child module per group of its functions), Query/Engine (engine.rs and
--   guardrail.rs: reads, the catalogue check, compilation under a measured survivor limit, runs).
-- - crates/ingress: Ingress/Jobs (jobs.rs), Ingress/Presign (presign.rs), Ingress/Audience
--   (audience.rs), Ingress/Access (auth.rs and `resolve_tenant` of lib.rs), Ingress/Suppression
--   (suppression.rs).
-- - crates/storage: Storage/Machine (the connection, the state of `Writer`, transactions),
--   Storage/Chunks (`insert_chunked`), Storage/Dedup (`dedup_by_key`), Storage/Tables
--   (`ingest_raw`), Storage/Merges (upserts, deletes, change batches), Storage/Features (the feature
--   store and its views), Storage/Appends (suppression, catalogue rows, snapshots),
--   Storage/Maintenance.
-- - crates/ingestion: Ingestion/Interface (the calls of the writer, and `storage_writer`, which
--   fills them with crates/storage), Ingestion/Batches (the map of waiting rows), Ingestion/Flush
--   and Ingestion/Loop (lib.rs: the flushes and `writer_loop`); Ingestion/Feed (cdc_kafka.rs: the
--   change envelopes and `next_batch`) with Ingestion/Feed/Pump (cdc.rs).
-- The specifications stand apart from the code's definitions: Query/Validate/WellFormed says what a
-- good segment is; Query/Inlined is a compiler that writes each value where the code writes a `?`,
-- and Query/Binding relates the two; Query/Touched lists the datasets that a segment names.
-- Storage/Atomic says what a transaction may leave behind and when it succeeds, Storage/Bounds what
-- a statement may hold, Storage/Names which names may stand in its text, Storage/Dedup/Laws and
-- Storage/Dedup/Keyed which rows are kept.
-- Ingestion/Recorder is an observer of the rows that reach a writer; it fits any writer with a log
-- beside it (`recorded`). Ingress/Jobs/Traces and Ingress/Jobs/Requests put the handlers of jobs.rs
-- one after another and follow the entry of one job.
--
-- How code becomes definitions. Functions keep their names. A text is the list of its Unicode
-- scalar values (Prelude/Texts), in Ingress/Presign and Ingress/Audience of its UTF-8 bytes.
-- `params: &mut Vec<Value>` is a list passed in and out. `Result` and `?` are Prelude/Results; an
-- error message is the constructor of the place that builds it, without its text. `DashMap` and the
-- maps of the source are association lists, whose calls happen one after another; a `BTreeMap`
-- keeps the order of its keys. Unsigned numbers are natural numbers, i64 an integer with its
-- wrap-around where the source subtracts. `Instant::now`, the epoch clock, uuids, semaphores and
-- the end of a spawned task are arguments.
--
-- Code outside the repository is a parameter: the RFC 3339 parser (a test on texts), HMAC-SHA256
-- (from a key and a message to a tag; the one law used, `IsMac`, says that a tag is 32 bytes), and
-- DuckDB behind crates/execution (`Reader`: from a statement and its parameters to a table, a
-- failure or a timeout; one state of the store for one request). The row estimate that
-- `explain_cost` reads from an EXPLAIN, and the profile that `assemble_profile` computes in f64,
-- are parameters of the runs too. For the writer, DuckDB with DuckLake is a function from a
-- statement and a state to a reply and a state (`run`); what is relied on is `Isolation`: others do
-- not see an open transaction, and a rollback or a failed commit changes nothing for them.
-- `serde_json`'s printer is a parameter of the catalogue rows, and the order in which a hash set is
-- walked one of the loop. What arrives at the writer's thread is a list, with the clock at each
-- arrival; so is what Kafka gives, and serde has parsed it. SHA-256, the parser of UUIDs, and for
-- the snapshot handlers the engine's metadata and the writer's export, are parameters.
--
-- Recursion: the loops follow the lists that they read. `compile_at` counts the nesting levels
-- left, 9 at the start, which is the depth guard `depth > MAX_NESTING` of the source and no bound
-- of this development. `to_decimal` has fuel, one more than the number. The pump has no end; its
-- rounds are counted by a list of times.
--
-- Not modelled: `materialize` and the snapshot reads, the JSON of EXPLAIN, raw SQL runs, the other
-- handlers of crates/ingress, the producers of crates/ingestion and the seeks of its consumer,
-- crates/semantic (HTTP and LLM calls), the opening of connections in crates/storage, loading of
-- configuration, and apps/server (wiring). The async methods of the writer's handle only send a
-- command and wait for its answer.
pub mod Prelude
pub mod Core
pub mod Query
pub mod Tests
pub mod Ingress
pub mod Storage
pub mod Ingestion
