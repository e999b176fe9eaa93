-- ===== src/Storage/Appends.antt =====
-- Suppression outcomes, catalogue rows and snapshots.
use consumer_engine.Prelude.{
  ℤ, ℕ, zero, suc, ◌+◌, Bool, ◌==◌, if◌then◌else◌, Option, List, [], ◌∷◌, ◌++◌, Text, text, fmt,
  join, length, Result, map,
}
use consumer_engine.Core.Labels.{
  SemanticType, SuppressionChannel, SuppressionAction, semantic_as_str, channel_as_str,
  action_as_str,
}
use consumer_engine.Query.Json.{Json, Value, text_value, big_int}
use consumer_engine.Query.Compiler.Types.{write_catalog_alias}
use consumer_engine.Storage.Machine.{
  StorageError, dimension_mismatch, Statement, Reply, Action, pure, raise, lift, ◌>>=◌, ◌>>◌,
  bump_write, with_tenant, execute, execute_batch,
}
use consumer_engine.Storage.Chunks.{repeated}
use consumer_engine.Storage.Tables.{check_ident, cell_value}

-- `SuppressionRow` of crates/core/src/suppression.rs
pub record SuppressionRow : Type 0 where
  pub suppression_id : Text
  pub campaign_id : Text
  pub user_id : Text
  pub channel : SuppressionChannel
  pub action : SuppressionAction
  pub occurred_ts : Text
  pub received_ts : Text

-- `CatalogRow` of crates/core/src/semantic.rs
pub record CatalogRow : Type 0 where
  pub entity_type : Text
  pub system : Text
  pub table_name : Text
  pub column_name : Option Text
  pub semantic_type : SemanticType
  pub data_type : Text
  pub description : Text
  pub pii_flag : Bool
  pub sample_values : Json
  pub embedding : List ℕ
  pub source_epoch : ℤ

-- `SnapshotSpec` of crates/core/src/snapshot.rs
pub record SnapshotSpec : Type 0 where
  pub snapshot_id : Text
  pub campaign_id : Text
  pub as_of_ts : Text

-- The migration that each of the tables has.
abbrev pub tenant_column_sql : Text → Text
tenant_column_sql table = fmt (
    text "ALTER TABLE "
    ∷ write_catalog_alias
    ∷ text "."
    ∷ table
    ∷ text " ADD COLUMN IF NOT EXISTS tenant_id VARCHAR"
    ∷ [])

abbrev pub suppression_table_sql : Text
suppression_table_sql = fmt (
    text "CREATE TABLE IF NOT EXISTS "
    ∷ write_catalog_alias
    ∷ text
        ".suppression (suppression_id UUID, campaign_id VARCHAR, user_id VARCHAR, channel VARCHAR, action VARCHAR, occurred_ts TIMESTAMPTZ, received_ts TIMESTAMPTZ, tenant_id VARCHAR)"
    ∷ [])

abbrev pub insert_suppression_sql : Text
insert_suppression_sql = fmt (
    text "INSERT INTO "
    ∷ write_catalog_alias
    ∷ text
        ".suppression (suppression_id, campaign_id, user_id, channel, action, occurred_ts, received_ts, tenant_id) SELECT CAST(? AS UUID), ?, ?, ?, ?, CAST(? AS TIMESTAMPTZ), CAST(? AS TIMESTAMPTZ), ? WHERE NOT EXISTS (SELECT 1 FROM "
    ∷ write_catalog_alias
    ∷ text ".suppression WHERE suppression_id = CAST(? AS UUID))"
    ∷ [])

abbrev pub suppression_values : Text → SuppressionRow → List Value
suppression_values tenant r =
    text_value r.suppression_id
    ∷ text_value r.campaign_id
    ∷ text_value r.user_id
    ∷ text_value (channel_as_str r.channel)
    ∷ text_value (action_as_str r.action)
    ∷ text_value r.occurred_ts
    ∷ text_value r.received_ts
    ∷ text_value tenant
    ∷ text_value r.suppression_id
    ∷ []

abbrev pub catalog_table_sql : Text
catalog_table_sql = fmt (
    text "CREATE TABLE IF NOT EXISTS "
    ∷ write_catalog_alias
    ∷ text
        ".semantic_catalog (entity_type VARCHAR, system VARCHAR, table_name VARCHAR, column_name VARCHAR, semantic_type VARCHAR, data_type VARCHAR, description VARCHAR, pii_flag BOOLEAN, sample_values JSON, embedding FLOAT[], source_epoch BIGINT, tenant_id VARCHAR)"
    ∷ [])

abbrev pub embedding_sql : ℕ → Text
embedding_sql zero = text "list_value()"
embedding_sql (suc n) =
    fmt (text "list_value(" ∷ join (text ", ") (repeated (suc n) (text "?")) ∷ text ")" ∷ [])

abbrev pub insert_catalog_sql : ℕ → Text
insert_catalog_sql dim = fmt (
    text "INSERT INTO "
    ∷ write_catalog_alias
    ∷ text ".semantic_catalog VALUES (?, ?, ?, ?, ?, ?, ?, ?, CAST(? AS JSON), "
    ∷ embedding_sql dim
    ∷ text ", ?, ?)"
    ∷ [])

abbrev pub catalog_values : Text → Text → CatalogRow → List Value
catalog_values tenant sample r =
    (text_value r.entity_type
      ∷ text_value r.system
      ∷ text_value r.table_name
      ∷ cell_value r.column_name
      ∷ text_value (semantic_as_str r.semantic_type)
      ∷ text_value r.data_type
      ∷ text_value r.description
      ∷ Value.boolean r.pii_flag
      ∷ text_value sample
      ∷ [])
    ++ map Value.float r.embedding
    ++ (big_int r.source_epoch ∷ text_value tenant ∷ [])

abbrev pub snapshot_table_sql : Text
snapshot_table_sql = fmt (
    text "CREATE TABLE IF NOT EXISTS "
    ∷ write_catalog_alias
    ∷ text
        ".audience_snapshot (snapshot_id UUID, campaign_id VARCHAR, as_of_ts TIMESTAMPTZ, user_id VARCHAR, features JSON, hit_reason JSON, tenant_id VARCHAR)"
    ∷ [])

abbrev pub snapshot_sql : Text → Text → Text
snapshot_sql subquery_sql key_column = fmt (
    text "INSERT INTO "
    ∷ write_catalog_alias
    ∷ text
        ".audience_snapshot (snapshot_id, campaign_id, as_of_ts, user_id, features, hit_reason, tenant_id) SELECT CAST(? AS UUID), ?, CAST(? AS TIMESTAMPTZ), sub."
    ∷ key_column
    ∷ text ", sub.features, sub.hit_reason, ? FROM ("
    ∷ subquery_sql
    ∷ text ") sub"
    ∷ [])

-- `s.replace('\'', "''")`
unfoldable pub escape_for_sql_literal : Text → Text
escape_for_sql_literal [] = []
escape_for_sql_literal (c ∷ s) =
    let rest = escape_for_sql_literal s in if c == b'\'' then c ∷ c ∷ rest else c ∷ rest

abbrev pub export_sql : Text → Text
export_sql dest = fmt (
    text "COPY (SELECT snapshot_id, campaign_id, as_of_ts, user_id, features, hit_reason FROM "
    ∷ write_catalog_alias
    ∷ text ".audience_snapshot WHERE snapshot_id = CAST(? AS UUID)) TO '"
    ∷ dest
    ∷ text "' (FORMAT 'PARQUET')"
    ∷ [])

module _ {Db : Type 0} where
  -- The loop over the rows only compares.
  unfoldable pub check_dims : ℕ → List CatalogRow → Action Db (Unit {0})
  check_dims dim [] = pure tt
  check_dims dim (r ∷ rs) =
      if length r.embedding == dim then check_dims dim rs else raise dimension_mismatch

module _ {Db : Type 0} (run : Statement → Db → Reply × Db) where
  unfoldable pub ensure_suppression_table : Action Db (Unit {0})
  ensure_suppression_table =
      execute_batch run suppression_table_sql
      >> execute_batch run (tenant_column_sql (text "suppression"))

  unfoldable pub suppression_loop : Text → ℕ → List SuppressionRow → Action Db ℕ
  suppression_loop tenant written [] = pure written
  suppression_loop tenant written (r ∷ rs) =
      execute run insert_suppression_sql (suppression_values tenant r) >>= λ n.
      suppression_loop tenant (written + n) rs

  unfoldable pub write_suppression_idempotent : List SuppressionRow → Action Db ℕ
  unfolding ensure_suppression_table suppression_loop
  write_suppression_idempotent [] = pure 0
  write_suppression_idempotent (r ∷ rs) =
      ensure_suppression_table
      >> with_tenant
          λ tenant. suppression_loop tenant 0 (r ∷ rs) >>= λ written. bump_write >> pure written

  unfoldable pub ensure_semantic_catalog_table : Action Db (Unit {0})
  ensure_semantic_catalog_table =
      execute_batch run catalog_table_sql
      >> execute_batch run (tenant_column_sql (text "semantic_catalog"))

  -- `to_string` is `serde_json::to_string`.
  unfoldable pub catalog_loop :
      (Json → Result StorageError Text) → Text → ℕ → ℕ → List CatalogRow → Action Db ℕ
  catalog_loop to_string tenant dim written [] = pure written
  catalog_loop to_string tenant dim written (r ∷ rs) =
      lift (to_string r.sample_values) >>= λ sample.
      execute run (insert_catalog_sql dim) (catalog_values tenant sample r) >>= λ n.
      catalog_loop to_string tenant dim (written + n) rs

  unfoldable pub write_catalog_rows :
      (Json → Result StorageError Text) → List CatalogRow → Action Db ℕ
  unfolding ensure_semantic_catalog_table check_dims catalog_loop
  write_catalog_rows to_string [] = pure 0
  write_catalog_rows to_string (r ∷ rs) =
      ensure_semantic_catalog_table
      >> check_dims (length r.embedding) (r ∷ rs)
      >> with_tenant λ tenant.
        catalog_loop to_string tenant (length r.embedding) 0 (r ∷ rs) >>= λ written.
        bump_write >> pure written

  unfoldable pub ensure_audience_snapshot_table : Action Db (Unit {0})
  ensure_audience_snapshot_table =
      execute_batch run snapshot_table_sql
      >> execute_batch run (tenant_column_sql (text "audience_snapshot"))

  unfoldable pub materialize_snapshot : Text → List Value → Text → SnapshotSpec → Action Db ℕ
  unfolding check_ident ensure_audience_snapshot_table
  materialize_snapshot subquery_sql subquery_params key_column spec =
      check_ident key_column
      >> ensure_audience_snapshot_table
      >> with_tenant λ tenant.
        execute run (snapshot_sql subquery_sql key_column) (
          text_value spec.snapshot_id
          ∷ text_value spec.campaign_id
          ∷ text_value spec.as_of_ts
          ∷ text_value tenant
          ∷ subquery_params)
        >>= λ n. bump_write >> pure n

  unfoldable pub export_snapshot_parquet : Text → Text → Action Db (Unit {0})
  unfolding escape_for_sql_literal
  export_snapshot_parquet snapshot_id dest =
      execute run (export_sql (escape_for_sql_literal dest)) (text_value snapshot_id ∷ []) >>= λ _.
      pure tt
