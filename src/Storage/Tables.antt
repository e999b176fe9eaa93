-- ===== src/Storage/Tables.antt =====
-- The raw tables: their names, their schema, `ingest_raw`, and the reads of identifiers.
use consumer_engine.Prelude.{
  ℕ, suc, ◌+◌, Bool, true, false, Option, none, some, List, [], ◌∷◌, ◌++◌, Text, text, text_eq, fmt,
  join, length, map_err, map,
}
use consumer_engine.Core.Ident.{validate_ident}
use consumer_engine.Query.Json.{Value, text_value}
use consumer_engine.Query.Compiler.Types.{write_catalog_alias}
use consumer_engine.Storage.Machine.{
  bad_ident, columns_empty, key_not_a_column, Statement, Reply, Action, pure, raise, lift, ◌>>=◌,
  ◌>>◌, bump_write, with_tenant, execute_batch,
}
use consumer_engine.Storage.Dedup.{Row}
use consumer_engine.Storage.Chunks.{insert_chunked}

module _ {Db : Type 0} where
  unfoldable pub check_ident : Text → Action Db (Unit {0})
  check_ident name = lift (map_err bad_ident (validate_ident name))

  unfoldable pub check_idents : List Text → Action Db (Unit {0})
  unfolding check_ident
  check_idents [] = pure tt
  check_idents (c ∷ cs) = check_ident c >> check_idents cs

  unfoldable pub raw_table_name : Text → Text → Action Db Text
  unfolding check_ident
  raw_table_name system entity =
      check_ident system
      >> check_ident entity
      >> pure (fmt (text "raw_" ∷ system ∷ text "_" ∷ entity ∷ []))

  -- `if columns.is_empty()` and the loop over the columns.
  unfoldable pub check_columns : List Text → Action Db (Unit {0})
  unfolding check_idents
  check_columns [] = raise columns_empty
  check_columns (c ∷ cs) = check_idents (c ∷ cs)

abbrev pub or_later : Option ℕ → Option ℕ
or_later none = none
or_later (some i) = some (suc i)

abbrev pub position_at : Bool → Option ℕ → Option ℕ
position_at true later = some 0
position_at false later = or_later later

-- `columns.iter().position(|c| c == key)`
unfoldable pub position : Text → List Text → Option ℕ
position key [] = none
position key (c ∷ cs) = position_at (text_eq c key) (position key cs)

abbrev pub found_key : {Db : Type 0} → Option ℕ → Action Db ℕ
found_key none = raise key_not_a_column
found_key (some i) = pure i

-- `cols_typed.join(", ")`
abbrev pub columns_typed : List Text → Text
columns_typed columns =
    join (text ", ")
      (map (λ c. fmt (c ∷ text " VARCHAR" ∷ [])) columns ++ text "tenant_id VARCHAR" ∷ [])

abbrev pub create_table_sql : Text → List Text → Text
create_table_sql table columns = fmt (
    text "CREATE TABLE IF NOT EXISTS "
    ∷ write_catalog_alias
    ∷ text "."
    ∷ table
    ∷ text " ("
    ∷ columns_typed columns
    ∷ text ")"
    ∷ [])

abbrev pub add_tenant_sql : Text → Text
add_tenant_sql table = fmt (
    text "ALTER TABLE "
    ∷ write_catalog_alias
    ∷ text "."
    ∷ table
    ∷ text " ADD COLUMN IF NOT EXISTS tenant_id VARCHAR"
    ∷ [])

abbrev pub cell_value : Option Text → Value
cell_value (some s) = text_value s
cell_value none = Value.null

-- A row, and the tenant after it.
abbrev pub stamped : Text → Row → List Value
stamped tenant row = map cell_value row ++ text_value tenant ∷ []

abbrev pub insert_raw_sql : Text → List Text → Text
insert_raw_sql table columns = fmt (
    text "INSERT INTO "
    ∷ write_catalog_alias
    ∷ text "."
    ∷ table
    ∷ text " ("
    ∷ join (text ", ") columns
    ∷ text ", tenant_id) VALUES "
    ∷ [])

module _ {Db : Type 0} (run : Statement → Db → Reply × Db) where
  unfoldable pub ensure_raw_table : Text → List Text → Action Db (Unit {0})
  ensure_raw_table table columns =
      execute_batch run (create_table_sql table columns) >> execute_batch run (add_tenant_sql table)

  abbrev pub append_rows : Text → List Text → List Row → Action Db ℕ
  append_rows table columns [] = pure 0
  append_rows table columns (r ∷ rs) = with_tenant λ tenant.
      insert_chunked run (insert_raw_sql table columns) (length columns + 1) (stamped tenant)
        (r ∷ rs)
      >>= λ n. bump_write >> pure n

  unfoldable pub ingest_raw : Text → Text → List Text → List Row → Action Db ℕ
  unfolding check_columns raw_table_name ensure_raw_table
  ingest_raw system entity columns rows =
      check_columns columns >> raw_table_name system entity >>= λ table.
      ensure_raw_table table columns >> append_rows table columns rows
