-- ===== src/Storage/Atomic/Willing.antt =====
-- With good names, `apply_cdc_batch` fails only where the database does.
use consumer_engine.Prelude.{ℤ, ℕ, ◌+◌, ◌≡◌, List, [], ◌∷◌, Text, ok}
use consumer_engine.Storage.Machine.{Statement, Reply, Writer}
use consumer_engine.Storage.Dedup.{dedup_by_key, Row}
use consumer_engine.Storage.Tables.{ensure_raw_table}
use consumer_engine.Storage.Merges.{
  merge_chunks, merge_upserts, delete_chunks, merge_deletes, upsert_cdc_offset, commit_offsets,
  cdc_body, apply_cdc_batch,
}
use consumer_engine.Storage.Names.{IsNamed, IsKeyed}
use consumer_engine.Storage.Atomic.Passes.{
  Passes, IsWilling, Passes-check_columns, Passes-check_ident, Passes-execute, Passes-execute_batch,
  Passes-found_key, Passes-in_transaction, Passes-pure, Passes-raw_table_name, Passes-then,
  Passes-with_tenant,
}

module _ {Db : Type 0} {run : Statement → Db → Reply × Db} (willing : IsWilling run) where
  Passes-merge_chunks :
      (name : Text) (columns : List Text) (key tenant : Text) (n : ℕ) (more : List (List Row))
      → Passes (merge_chunks run name columns key tenant n more)
  unfolding merge_chunks
  Passes-merge_chunks name columns key tenant n [] = Passes-pure n
  Passes-merge_chunks name columns key tenant n (chunk ∷ more) =
      Passes-then (Passes-execute willing _ _)
        λ m. Passes-merge_chunks name columns key tenant (n + m) more

  Passes-delete_chunks :
      (name key tenant : Text) (n : ℕ) (more : List (List Text))
      → Passes (delete_chunks run name key tenant n more)
  unfolding delete_chunks
  Passes-delete_chunks name key tenant n [] = Passes-pure n
  Passes-delete_chunks name key tenant n (chunk ∷ more) =
      Passes-then (Passes-execute willing _ _)
        λ m. Passes-delete_chunks name key tenant (n + m) more

  Passes-commit_offsets :
      (source now : Text) (offsets : List (ℤ × ℤ)) → Passes (commit_offsets run source now offsets)
  unfolding commit_offsets upsert_cdc_offset
  Passes-commit_offsets source now [] = Passes-pure tt
  Passes-commit_offsets source now ((partition, offset) ∷ more) =
      Passes-then (Passes-then (Passes-execute willing _ _) λ _. Passes-pure tt)
        λ _. Passes-commit_offsets source now more

  Passes-ensure_raw_table :
      (name : Text) (columns : List Text) → Passes (ensure_raw_table run name columns)
  unfolding ensure_raw_table
  Passes-ensure_raw_table name columns =
      Passes-then (Passes-execute_batch willing _) λ _. Passes-execute_batch willing _

  Passes-merge_upserts :
      (name : Text) (columns : List Text) (key : Text) (rows : List Row)
      → Passes (merge_upserts run name columns key rows)
  unfolding merge_upserts
  Passes-merge_upserts name columns key rows =
      Passes-with_tenant λ tenant. Passes-merge_chunks name columns key tenant 0 _

  Passes-merge_deletes :
      (name key : Text) (keys : List Text) → Passes (merge_deletes run name key keys)
  unfolding merge_deletes
  Passes-merge_deletes name key keys =
      Passes-with_tenant λ tenant. Passes-delete_chunks name key tenant 0 _

  Passes-cdc_body :
      (name source : Text) (columns : List Text) (key : Text) (upserts : List Row)
      (deletes : List Text) (offsets : List (ℤ × ℤ)) (now : Text)
      → IsKeyed columns key
      → Passes (cdc_body run name source columns key upserts deletes offsets now)
  unfolding cdc_body
  Passes-cdc_body name source columns key upserts deletes offsets now keyed =
      Passes-then
        (Passes-then
          (Passes-then (Passes-ensure_raw_table name columns) λ _. Passes-execute_batch willing _)
          λ _. Passes-found_key _ keyed.place keyed.found)
        λ i. Passes-then (Passes-merge_upserts name columns key (dedup_by_key upserts i)) λ n.
          Passes-then (Passes-merge_deletes name key deletes)
            λ _. Passes-then (Passes-commit_offsets source now offsets) λ _. Passes-pure n

  -- A change batch whose system, entity, columns and key are identifiers, with the key among the
  -- columns, succeeds from every state of the writer, when the database refuses none of the
  -- statements, `BEGIN` and `COMMIT` among them.
  pub apply_cdc_batch_succeeds :
      (w : Writer Db) (system entity : Text) (columns : List Text) (key : Text) (upserts : List Row)
      (deletes : List Text) (offsets : List (ℤ × ℤ)) (now : Text)
      → IsNamed system entity columns
      → IsKeyed columns key
      → (n : ℕ) × ((apply_cdc_batch run system entity columns key upserts deletes offsets now w).0
          ≡ ok n)
  unfolding apply_cdc_batch
  apply_cdc_batch_succeeds w system entity columns key upserts deletes offsets now named keyed =
      (Passes-then
          (Passes-then
            (Passes-then (Passes-check_columns columns named.some_column named.columns_idents)
              λ _. Passes-check_ident key keyed.key_ident)
            λ _. Passes-found_key _ keyed.place keyed.found)
          λ _.
            Passes-then (Passes-raw_table_name system entity named.system_ident named.entity_ident)
              λ name.
                Passes-in_transaction willing
                  (Passes-cdc_body name _ columns key upserts deletes offsets now keyed)).passed
        w
