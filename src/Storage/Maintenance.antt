-- ===== src/Storage/Maintenance.antt =====
-- Compaction and expiry.
use consumer_engine.Prelude.{
  ℕ, Bool, true, false, [], ◌∷◌, Text, text, fmt, to_decimal, Result, ok, err,
}
use consumer_engine.Query.Json.{text_value}
use consumer_engine.Query.Compiler.Types.{write_catalog_alias}
use consumer_engine.Storage.Machine.{
  StorageError, Statement, Reply, Writer, Action, pure, ◌>>=◌, ◌>>◌, bump_write, execute,
  execute_batch,
}
use consumer_engine.Storage.Tables.{raw_table_name}

abbrev pub compact_sql : Text → Text
compact_sql table = fmt (
    text "CALL ducklake_merge_adjacent_files('"
    ∷ write_catalog_alias
    ∷ text "', '"
    ∷ table
    ∷ text "');"
    ∷ [])

abbrev pub probe_sql : Text
probe_sql = fmt (
    text "CALL ducklake_expire_snapshots('"
    ∷ write_catalog_alias
    ∷ text "', CAST(? AS TIMESTAMPTZ), CAST([] AS UBIGINT[]), true)"
    ∷ [])

abbrev pub expire_sql : ℕ → Text
expire_sql retention_days = fmt (
    text "CALL ducklake_expire_snapshots('"
    ∷ write_catalog_alias
    ∷ text "', CAST(CAST(now() AS TIMESTAMP) - INTERVAL '"
    ∷ to_decimal retention_days
    ∷ text "' DAY AS TIMESTAMPTZ), CAST([] AS UBIGINT[]), false)"
    ∷ [])

abbrev pub orphans_sql : ℕ → Text
orphans_sql retention_days = fmt (
    text "CALL ducklake_delete_orphaned_files('"
    ∷ write_catalog_alias
    ∷ text "', CAST(CAST(now() AS TIMESTAMP) - INTERVAL '"
    ∷ to_decimal retention_days
    ∷ text "' DAY AS TIMESTAMPTZ), true, false)"
    ∷ [])

abbrev pub is_done : {A : Type 0} → Result StorageError A → Bool
is_done (ok a) = true
is_done (err e) = false

module _ {Db : Type 0} (run : Statement → Db → Reply × Db) where
  unfoldable pub compact : Text → Text → Action Db (Unit {0})
  unfolding raw_table_name
  compact system entity =
      raw_table_name system entity >>= λ table. execute_batch run (compact_sql table) >> bump_write

  abbrev pub probe : Bool → Writer Db → Writer Db
  probe true w = w
  probe false w =
      let (answer, w') = execute run probe_sql (text_value (text "1970-01-01T00:00:00Z") ∷ []) w in
      record w' { maintenance_available = is_done answer }

  unfoldable pub probe_maintenance : Writer Db → Writer Db
  probe_maintenance w = probe w.maintenance_available w

  abbrev pub if_available : Action Db (Unit {0}) → Bool → Action Db (Unit {0})
  if_available go true = go
  if_available go false = pure tt

  abbrev pub maintain : Text → Action Db (Unit {0})
  maintain statement w =
      let w' = probe_maintenance w in
      if_available (execute_batch run statement >> bump_write) w'.maintenance_available w'

  unfoldable pub expire_snapshots : ℕ → Action Db (Unit {0})
  unfolding probe_maintenance
  expire_snapshots retention_days = maintain (expire_sql retention_days)

  unfoldable pub delete_orphaned_files : ℕ → Action Db (Unit {0})
  unfolding probe_maintenance
  delete_orphaned_files retention_days = maintain (orphans_sql retention_days)
