-- ===== src/Ingestion/Loop.antt =====
-- `Cmd` and `writer_loop`. The reply channels are answers, the arrivals an explicit list.
pub mod Laws
pub mod Conserved
pub mod Drained
use consumer_engine.Prelude.{
  ℤ, ℕ, zero, suc, ltb, Bool, true, false, not, Option, none, some, List, [], ◌∷◌, ◌++◌, Text,
  text_eq, ◌&&◌, length, Result, ok, err, if◌then◌else◌,
}
use consumer_engine.Query.Json.{Value}
use consumer_engine.Storage.Machine.{StorageError}
use consumer_engine.Storage.Dedup.{Row}
use consumer_engine.Storage.Features.{FeatureRow}
use consumer_engine.Storage.Appends.{SuppressionRow, CatalogRow, SnapshotSpec}
use consumer_engine.Ingestion.Interface.{Op, SourceBatch, WriterOps}
use consumer_engine.Ingestion.Batches.{
  MicroBatchConfig, PendingBatch, Key, find_batch, drop_batch, put_batch,
}
use consumer_engine.Ingestion.Flush.{
  Actor, learn, learned, flush_batch, flush_found, flush_pending, flush_expired,
}

pub data Cmd : Type 0 where
  ingest_raw : (system entity : Text) (columns : List Text) (rows : List Row) (tenant : Text) → Cmd
  compact_all : (retention_days : ℕ) → Cmd
  materialize :
      (subquery_sql : Text) (subquery_params : List Value) (key_column : Text) (spec : SnapshotSpec)
      (tenant : Text)
      → Cmd
  export_parquet : (snapshot_id dest : Text) → Cmd
  upsert_raw :
      (system entity : Text) (columns : List Text) (key : Text) (rows : List Row) (tenant : Text)
      → Cmd
  delete_raw : (system entity key : Text) (keys : List Text) (tenant : Text) → Cmd
  write_features : (rows : List FeatureRow) (tenant : Text) → Cmd
  write_catalog : (rows : List CatalogRow) (tenant : Text) → Cmd
  write_suppression : (rows : List SuppressionRow) (tenant : Text) → Cmd
  apply_cdc_batch : (batch : SourceBatch) (tenant : Text) → Cmd
  read_cdc_offset : (source : Text) → Cmd
  shutdown : Cmd

pub data Answer : Type 0 where
  rows_done : Result StorageError ℕ → Answer
  unit_done : Result StorageError (Unit {0}) → Answer
  offsets_read : Result StorageError (List (ℤ × ℤ)) → Answer
  acked : Answer

-- What `recv_timeout` returns.
pub data Received : Type 0 where
  timeout : Received
  disconnected : Received
  command : Cmd → Received

-- The clock at the age flush and at a new batch, and the time of day that a change batch is given.
pub record Wake : Type 0 where
  pub received : Received
  pub now : ℕ
  pub entered : ℕ
  pub timestamp : Text

abbrev pub same_columns : List Text → List Text → Bool
same_columns [] [] = true
same_columns (c ∷ cs) (d ∷ ds) = text_eq c d && same_columns cs ds
same_columns _ _ = false

-- `pending.entry(key).or_insert_with(..)`, and `batch.rows.extend(rows)`.
abbrev pub entry : Key → List Text → ℕ → Option PendingBatch → PendingBatch
entry k columns entered none = record {
  columns = columns;
  rows = [];
  tenant = k.tenant;
  since = entered;
}
entry k columns entered (some b) = b

abbrev pub extended : PendingBatch → List Row → PendingBatch
extended b rows = record b { rows = b.rows ++ rows }

abbrev pub is_shutdown : Cmd → Bool
is_shutdown shutdown = true
is_shutdown _ = false

-- `visit` is the order in which the set is walked.
module _ {W : Type 0} (ops : WriterOps W) (visit : List (Text × Text) → List (Text × Text))
    (micro : MicroBatchConfig) where
  -- Rows of another shape go out first.
  unfoldable pub leave_shape : Key → List Text → Actor W → Option PendingBatch → Actor W
  leave_shape k columns a none = a
  leave_shape k columns a (some old) =
      if same_columns old.columns columns then a else flush_found ops k a (some old)

  -- `pending.remove(&key)` and the flush.
  abbrev pub flush_full : Key → Actor W → Option PendingBatch → Result StorageError ℕ × Actor W
  flush_full k a none = (ok 0, a)
  flush_full k a (some b) = flush_batch ops k b (record a { pending = drop_batch k a.pending })

  abbrev pub placed : Key → PendingBatch → Actor W → Result StorageError ℕ × Actor W
  placed k b a =
      let held = record a { pending = put_batch k b a.pending } in
      if ltb (length b.rows) micro.flush_rows
      then (ok 0, held)
      else flush_full k held (find_batch k held.pending)

  unfoldable pub buffer : Key → List Text → List Row → ℕ → Actor W → Result StorageError ℕ × Actor W
  unfolding leave_shape
  buffer k columns rows entered a =
      let a' = leave_shape k columns a (find_batch k a.pending) in
      placed k (extended (entry k columns entered (find_batch k a'.pending)) rows) a'

  abbrev pub ingest_with :
      ℕ → Text → Text → List Text → List Row → Text → ℕ → Actor W → Result StorageError ℕ × Actor W
  ingest_with zero system entity columns rows tenant entered a =
      learned ops system entity a (ops.ingest_raw system entity columns rows a.writer)
  ingest_with (suc n) system entity columns rows tenant entered a =
      buffer (record { tenant = tenant; system = system; entity = entity }) columns rows entered a

  abbrev pub as_tenant : Text → Actor W → Actor W
  as_tenant tenant a = record a { writer = ops.set_tenant tenant a.writer }

  unfoldable pub ingest :
      Text → Text → List Text → List Row → Text → ℕ → Actor W → Result StorageError ℕ × Actor W
  unfolding buffer
  ingest system entity columns rows tenant entered a =
      ingest_with micro.flush_rows system entity columns rows tenant entered (as_tenant tenant a)

  -- The last error wins.
  abbrev pub last_of :
      {A : Type 0}
      → Result StorageError (Unit {0})
      → Result StorageError A × W
      → Result StorageError (Unit {0}) × W
  last_of last (ok a, w) = (last, w)
  last_of last (err e, w) = (err e, w)

  unfoldable pub compact_known :
      List (Text × Text) → Result StorageError (Unit {0}) → W → Result StorageError (Unit {0}) × W
  compact_known [] last w = (last, w)
  compact_known ((s, e) ∷ more) last w =
      let (last', w') = last_of last (ops.compact s e w) in compact_known more last' w'

  unfoldable pub compact_all_known : ℕ → Actor W → Result StorageError (Unit {0}) × Actor W
  unfolding compact_known flush_pending
  compact_all_known retention_days a =
      let a' = flush_pending ops a in
      let (last, w) = compact_known (visit a'.known) (ok tt) a'.writer in
      let (last', w') = last_of last (ops.expire_snapshots retention_days w) in
      let (last'', w'') = last_of last' (ops.delete_orphaned_files retention_days w') in
      (last'', record a' { writer = w'' })

  -- An operation that touches the writer alone.
  abbrev pub on_writer : {A : Type 0} → Op W A → Actor W → Result StorageError A × Actor W
  on_writer op a = let (r, w) = op a.writer in (r, record a { writer = w })

  abbrev pub answered : {A : Type 0} → (A → Answer) → A × Actor W → Answer × Actor W
  answered wrap (r, a) = (wrap r, a)

  -- `match cmd`
  unfoldable pub handle : Cmd → Wake → Actor W → Answer × Actor W
  unfolding ingest compact_all_known flush_pending
  handle (ingest_raw system entity columns rows tenant) wake a =
      answered rows_done (ingest system entity columns rows tenant wake.entered a)
  handle (compact_all retention_days) wake a =
      answered unit_done (compact_all_known retention_days a)
  handle (materialize subquery_sql subquery_params key_column spec tenant) wake a =
      answered rows_done (
        on_writer (ops.materialize_snapshot subquery_sql subquery_params key_column spec)
          (as_tenant tenant a))
  handle (export_parquet snapshot_id dest) wake a =
      answered unit_done (on_writer (ops.export_parquet snapshot_id dest) a)
  handle (upsert_raw system entity columns key rows tenant) wake a = answered rows_done (
      learned ops system entity a
        (ops.upsert_raw system entity columns key rows (ops.set_tenant tenant a.writer)))
  handle (delete_raw system entity key keys tenant) wake a = answered rows_done (
      learned ops system entity a
        (ops.delete_raw system entity key keys (ops.set_tenant tenant a.writer)))
  handle (write_features rows tenant) wake a =
      answered rows_done (on_writer (ops.write_features rows) (as_tenant tenant a))
  handle (write_catalog rows tenant) wake a =
      answered rows_done (on_writer (ops.write_catalog rows) (as_tenant tenant a))
  handle (write_suppression rows tenant) wake a =
      answered rows_done (on_writer (ops.write_suppression rows) (as_tenant tenant a))
  handle (apply_cdc_batch batch tenant) wake a = answered rows_done (
      learned ops batch.system batch.entity a
        (ops.apply_cdc_batch batch wake.timestamp (ops.set_tenant tenant a.writer)))
  handle (read_cdc_offset source) wake a =
      answered offsets_read (on_writer (ops.read_cdc_offsets source) a)
  handle shutdown wake a = (acked, flush_pending ops a)

  -- One turn of the loop: the answer, if one is sent, and whether the loop goes on.
  abbrev pub turn_on : Received → Wake → Actor W → List Answer × (Bool × Actor W)
  turn_on timeout wake a = ([], (true, flush_expired ops micro.flush_age_secs wake.now a))
  turn_on disconnected wake a = ([], (false, flush_pending ops a))
  turn_on (command cmd) wake a =
      let (answer, a') = handle cmd wake (flush_expired ops micro.flush_age_secs wake.now a) in
      (answer ∷ [], (not (is_shutdown cmd), a'))

  unfoldable pub turn : Wake → Actor W → List Answer × (Bool × Actor W)
  unfolding handle flush_expired flush_pending
  turn wake a = turn_on wake.received wake a

  abbrev pub go_on :
      (Actor W → List Answer × Actor W) → List Answer × (Bool × Actor W) → List Answer × Actor W
  go_on rest (answers, (true, a)) = let (later, a') = rest a in (answers ++ later, a')
  go_on rest (answers, (false, a)) = (answers, a)

  -- The wakes after a `break` are not looked at.
  unfoldable pub writer_loop : List Wake → Actor W → List Answer × Actor W
  unfolding turn
  writer_loop [] a = ([], a)
  writer_loop (wake ∷ more) a = go_on (writer_loop more) (turn wake a)
