-- ===== src/Ingestion/Interface.antt =====
-- The calls that the thread makes of the `Writer`, and the `Writer` of the storage modules.
use consumer_engine.Prelude.{ℤ, ℕ, List, Text, Result}
use consumer_engine.Query.Json.{Json, Value}
use consumer_engine.Storage.Machine.{StorageError, Statement, Reply, Writer, set_tenant}
use consumer_engine.Storage.Dedup.{Row}
use consumer_engine.Storage.Tables.{ingest_raw}
use consumer_engine.Storage.Merges.{upsert_raw, delete_raw, apply_cdc_batch, read_cdc_offsets}
use consumer_engine.Storage.Features.{FeatureRow, write_features_and_refresh}
use consumer_engine.Storage.Appends.{
  SuppressionRow, CatalogRow, SnapshotSpec, write_suppression_idempotent, write_catalog_rows,
  materialize_snapshot, export_snapshot_parquet,
}
use consumer_engine.Storage.Maintenance.{compact, expire_snapshots, delete_orphaned_files}

abbrev pub Op : Type 0 → Type 0 → Type 0
Op W A = W → Result StorageError A × W

-- `SourceBatch` of crates/ingestion/src/cdc.rs
pub record SourceBatch : Type 0 where
  pub system : Text
  pub entity : Text
  pub columns : List Text
  pub key : Text
  pub upserts : List Row
  pub deletes : List Text
  pub offsets : List (ℤ × ℤ)

pub record WriterOps (W : Type 0) : Type 0 where
  pub set_tenant : Text → W → W
  pub ingest_raw : Text → Text → List Text → List Row → Op W ℕ
  pub upsert_raw : Text → Text → List Text → Text → List Row → Op W ℕ
  pub delete_raw : Text → Text → Text → List Text → Op W ℕ
  pub write_features : List FeatureRow → Op W ℕ
  pub write_catalog : List CatalogRow → Op W ℕ
  pub write_suppression : List SuppressionRow → Op W ℕ
  pub materialize_snapshot : Text → List Value → Text → SnapshotSpec → Op W ℕ
  pub export_parquet : Text → Text → Op W (Unit {0})
  pub apply_cdc_batch : SourceBatch → Text → Op W ℕ
  pub read_cdc_offsets : Text → Op W (List (ℤ × ℤ))
  pub compact : Text → Text → Op W (Unit {0})
  pub expire_snapshots : ℕ → Op W (Unit {0})
  pub delete_orphaned_files : ℕ → Op W (Unit {0})

abbrev pub storage_writer :
    {Db : Type 0}
    → (Statement → Db → Reply × Db)
    → (Json → Result StorageError Text)
    → WriterOps (Writer Db)
storage_writer run to_string = record {
  set_tenant = set_tenant;
  ingest_raw = ingest_raw run;
  upsert_raw = upsert_raw run;
  delete_raw = delete_raw run;
  write_features = write_features_and_refresh run;
  write_catalog = write_catalog_rows run to_string;
  write_suppression = write_suppression_idempotent run;
  materialize_snapshot = materialize_snapshot run;
  export_parquet = export_snapshot_parquet run;
  apply_cdc_batch = λ b now.
      apply_cdc_batch run b.system b.entity b.columns b.key b.upserts b.deletes b.offsets now;
  read_cdc_offsets = read_cdc_offsets run;
  compact = compact run;
  expire_snapshots = expire_snapshots run;
  delete_orphaned_files = delete_orphaned_files run;
}
