-- ===== src/Storage/Merges.antt =====
-- Upserts, logical deletes and change batches.
use consumer_engine.Prelude.{
  ℤ, pos, negsuc, ◌-◌, ◌%◌, ◌^◌, ltb, if◌then◌else◌, ℕ, ◌+◌, Option, none, some, List, [], ◌∷◌,
  ◌++◌, Text, text, fmt, join, length, map, Result, ok, err,
}
use consumer_engine.Query.Json.{Json, as_i64, text_value, big_int}
use consumer_engine.Query.Compiler.Types.{write_catalog_alias}
use consumer_engine.Storage.Machine.{
  StorageError, storage, lift, Statement, Reply, Action, pure, ◌>>=◌, ◌>>◌, bump_write, with_tenant,
  execute, execute_batch, query, in_transaction,
}
use consumer_engine.Storage.Dedup.{Row, dedup_by_key}
use consumer_engine.Storage.Chunks.{repeated, flat_map, values_sql, chunks}
use consumer_engine.Storage.Tables.{
  check_ident, check_columns, raw_table_name, position, found_key, stamped, ensure_raw_table,
}

-- MERGE_CHUNK_ROWS and MERGE_CHUNK_KEYS are 500.
abbrev pub merge_chunk : ℕ
merge_chunk = 499

abbrev pub with_tenant_id : List Text → List Text
with_tenant_id columns = columns ++ text "tenant_id" ∷ []

abbrev pub merge_sql : Text → List Text → Text → ℕ → Text
merge_sql table columns key rows = fmt (
    text "MERGE INTO "
    ∷ write_catalog_alias
    ∷ text "."
    ∷ table
    ∷ text " AS t USING (VALUES "
    ∷ values_sql (length (with_tenant_id columns)) rows
    ∷ text ") AS s("
    ∷ join (text ", ") (with_tenant_id columns)
    ∷ text ") ON t."
    ∷ key
    ∷ text " = s."
    ∷ key
    ∷ text " WHEN MATCHED THEN UPDATE SET "
    ∷ join (text ", ") (map (λ c. fmt (c ∷ text " = s." ∷ c ∷ [])) (with_tenant_id columns))
    ∷ text " WHEN NOT MATCHED THEN INSERT ("
    ∷ join (text ", ") (with_tenant_id columns)
    ∷ text ") VALUES ("
    ∷ join (text ", ") (map (λ c. fmt (text "s." ∷ c ∷ [])) (with_tenant_id columns))
    ∷ text ")"
    ∷ [])

abbrev pub delete_sql : Text → Text → ℕ → Text
delete_sql table key keys = fmt (
    text "MERGE INTO "
    ∷ write_catalog_alias
    ∷ text "."
    ∷ table
    ∷ text " AS t USING (VALUES "
    ∷ join (text ", ") (repeated keys (text "(?)"))
    ∷ text ") AS s("
    ∷ key
    ∷ text ") ON t."
    ∷ key
    ∷ text " = s."
    ∷ key
    ∷ text " AND t.tenant_id = ? WHEN MATCHED THEN DELETE"
    ∷ [])

abbrev pub create_offsets_sql : Text
create_offsets_sql = fmt (
    text "CREATE TABLE IF NOT EXISTS "
    ∷ write_catalog_alias
    ∷ text
        ".cdc_offsets (source VARCHAR, partition BIGINT, cdc_offset BIGINT, updated_at TIMESTAMPTZ)"
    ∷ [])

abbrev pub offset_sql : Text
offset_sql = fmt (
    text "MERGE INTO "
    ∷ write_catalog_alias
    ∷ text
        ".cdc_offsets AS t USING (VALUES (?, ?, ?, ?)) AS s(source, partition, cdc_offset, updated_at) ON t.source = s.source AND t.partition = s.partition WHEN MATCHED THEN UPDATE SET cdc_offset = s.cdc_offset, updated_at = s.updated_at WHEN NOT MATCHED THEN INSERT (source, partition, cdc_offset, updated_at) VALUES (s.source, s.partition, s.cdc_offset, s.updated_at)"
    ∷ [])

abbrev pub read_offsets_sql : Text
read_offsets_sql = fmt (
    text "SELECT partition, cdc_offset FROM "
    ∷ write_catalog_alias
    ∷ text ".cdc_offsets WHERE source = ?"
    ∷ [])

-- `as i32`
abbrev pub low_32 : ℕ → ℤ
low_32 m = if ltb m (2 ^ 31) then pos m else negsuc (2 ^ 32 - 1 - m)

abbrev pub wrap_i32 : ℤ → ℤ
wrap_i32 (pos n) = low_32 (n % 2 ^ 32)
wrap_i32 (negsuc n) = low_32 (2 ^ 32 - 1 - n % 2 ^ 32)

-- `r.get::<_, i64>`
abbrev pub integer_of : Json → Option ℤ
integer_of (Json.number n) = as_i64 n
integer_of _ = none

abbrev pub pair_of : Option ℤ → Option ℤ → Result StorageError (ℤ × ℤ)
pair_of (some p) (some o) = ok (wrap_i32 p, o)
pair_of (some p) none = err storage
pair_of none o = err storage

abbrev pub offset_pair : List Json → Result StorageError (ℤ × ℤ)
offset_pair [] = err storage
offset_pair (p ∷ []) = err storage
offset_pair (p ∷ o ∷ more) = pair_of (integer_of p) (integer_of o)

abbrev pub push_pair :
    Result StorageError (ℤ × ℤ)
    → Result StorageError (List (ℤ × ℤ))
    → Result StorageError (List (ℤ × ℤ))
push_pair (err e) later = err e
push_pair (ok p) (err e) = err e
push_pair (ok p) (ok ps) = ok (p ∷ ps)

unfoldable pub offset_pairs : List (List Json) → Result StorageError (List (ℤ × ℤ))
offset_pairs [] = ok []
offset_pairs (r ∷ rs) = push_pair (offset_pair r) (offset_pairs rs)

module _ {Db : Type 0} (run : Statement → Db → Reply × Db) where
  unfoldable pub merge_chunks : Text → List Text → Text → Text → ℕ → List (List Row) → Action Db ℕ
  merge_chunks table columns key tenant affected [] = pure affected
  merge_chunks table columns key tenant affected (chunk ∷ more) =
      execute run (merge_sql table columns key (length chunk)) (flat_map (stamped tenant) chunk)
      >>= λ n. merge_chunks table columns key tenant (affected + n) more

  unfoldable pub merge_upserts : Text → List Text → Text → List Row → Action Db ℕ
  unfolding merge_chunks chunks
  merge_upserts table columns key deduped =
      with_tenant λ tenant. merge_chunks table columns key tenant 0 (chunks merge_chunk deduped)

  unfoldable pub delete_chunks : Text → Text → Text → ℕ → List (List Text) → Action Db ℕ
  delete_chunks table key tenant affected [] = pure affected
  delete_chunks table key tenant affected (chunk ∷ more) =
      execute run (delete_sql table key (length chunk))
        (map text_value chunk ++ text_value tenant ∷ [])
      >>= λ n. delete_chunks table key tenant (affected + n) more

  unfoldable pub merge_deletes : Text → Text → List Text → Action Db ℕ
  unfolding delete_chunks chunks
  merge_deletes table key keys =
      with_tenant λ tenant. delete_chunks table key tenant 0 (chunks merge_chunk keys)

  abbrev pub upsert_rows : Text → List Text → Text → ℕ → List Row → Action Db ℕ
  upsert_rows table columns key key_idx [] = pure 0
  upsert_rows table columns key key_idx (r ∷ rs) =
      merge_upserts table columns key (dedup_by_key (r ∷ rs) key_idx) >>= λ n. bump_write >> pure n

  unfoldable pub upsert_raw : Text → Text → List Text → Text → List Row → Action Db ℕ
  unfolding check_columns check_ident position raw_table_name ensure_raw_table merge_upserts
  upsert_raw system entity columns key rows =
      check_columns columns >> check_ident key >> found_key (position key columns) >>= λ key_idx.
      raw_table_name system entity >>= λ table.
      ensure_raw_table run table columns >> upsert_rows table columns key key_idx rows

  abbrev pub delete_keys : Text → Text → List Text → Action Db ℕ
  delete_keys table key [] = pure 0
  delete_keys table key (k ∷ ks) = merge_deletes table key (k ∷ ks) >>= λ n. bump_write >> pure n

  unfoldable pub delete_raw : Text → Text → Text → List Text → Action Db ℕ
  unfolding check_ident raw_table_name merge_deletes
  delete_raw system entity key keys =
      check_ident key >> raw_table_name system entity >>= λ table. delete_keys table key keys

  unfoldable pub upsert_cdc_offset : Text → ℤ → ℤ → Text → Action Db (Unit {0})
  upsert_cdc_offset source partition cdc_offset updated_at =
      execute run offset_sql
        (text_value source ∷ big_int partition ∷ big_int cdc_offset ∷ text_value updated_at ∷ [])
      >>= λ _. pure tt

  -- The loop over the partitions, all at the same time of day `now`.
  unfoldable pub commit_offsets : Text → Text → List (ℤ × ℤ) → Action Db (Unit {0})
  unfolding upsert_cdc_offset
  commit_offsets source now [] = pure tt
  commit_offsets source now ((partition, offset) ∷ more) =
      upsert_cdc_offset source partition offset now >> commit_offsets source now more

  -- The closure of `apply_cdc_batch`.
  unfoldable pub cdc_body :
      Text → Text → List Text → Text → List Row → List Text → List (ℤ × ℤ) → Text → Action Db ℕ
  unfolding ensure_raw_table position merge_upserts merge_deletes commit_offsets
  cdc_body table source columns key upserts deletes offsets now =
      ensure_raw_table run table columns
      >> execute_batch run create_offsets_sql
      >> found_key (position key columns)
      >>= λ key_idx. merge_upserts table columns key (dedup_by_key upserts key_idx) >>= λ written.
          merge_deletes table key deletes >>= λ _. commit_offsets source now offsets >> pure written

  unfoldable pub apply_cdc_batch :
      Text → Text → List Text → Text → List Row → List Text → List (ℤ × ℤ) → Text → Action Db ℕ
  unfolding check_columns check_ident position raw_table_name cdc_body in_transaction
  apply_cdc_batch system entity columns key upserts deletes offsets now =
      check_columns columns >> check_ident key >> found_key (position key columns) >>= λ _.
      raw_table_name system entity >>= λ table. in_transaction run (
        cdc_body table (fmt (system ∷ text "." ∷ entity ∷ [])) columns key upserts deletes offsets
          now)

  unfoldable pub read_cdc_offsets : Text → Action Db (List (ℤ × ℤ))
  unfolding offset_pairs
  read_cdc_offsets source =
      execute_batch run create_offsets_sql
      >> query run read_offsets_sql (text_value source ∷ [])
      >>= λ rows. lift (offset_pairs rows)
