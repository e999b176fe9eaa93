-- ===== src/Storage/Atomic/Cdc.antt =====
-- `apply_cdc_batch` is atomic.
use consumer_engine.Prelude.{ℤ, ℕ, ◌+◌, Option, none, some, List, [], ◌∷◌, Text}
use consumer_engine.Storage.Machine.{Statement, Reply, Writer}
use consumer_engine.Storage.Dedup.{Row, dedup_by_key}
use consumer_engine.Storage.Tables.{found_key, ensure_raw_table}
use consumer_engine.Storage.Merges.{
  merge_chunks, merge_upserts, delete_chunks, merge_deletes, upsert_cdc_offset, commit_offsets,
  cdc_body, apply_cdc_batch,
}
use consumer_engine.Storage.Atomic.{Isolation, IsAtomic, Keeps, in_transaction-IsAtomic}
use consumer_engine.Storage.Atomic.Checks.{
  IsSilent-then, check_columns-IsSilent, check_ident-IsSilent, found_key-IsSilent,
  raw_table_name-IsSilent, checked_IsAtomic,
}
use consumer_engine.Storage.Atomic.Bodies.{
  Keeps-pure, Keeps-raise, Keeps-then, Keeps-with_tenant, Keeps-execute, Keeps-execute_batch,
}

module _ {Db : Type 0} (run : Statement → Db → Reply × Db) where
  Keeps-found_key : (i : Option ℕ) → Keeps run (found_key i)
  Keeps-found_key none = Keeps-raise _
  Keeps-found_key (some i) = Keeps-pure i

  Keeps-ensure_raw_table :
      (table : Text) (columns : List Text) → Keeps run (ensure_raw_table run table columns)
  unfolding ensure_raw_table
  Keeps-ensure_raw_table table columns =
      Keeps-then (Keeps-execute_batch _) λ _. Keeps-execute_batch _

  Keeps-merge_chunks :
      (table : Text) (columns : List Text) (key tenant : Text) (n : ℕ) (more : List (List Row))
      → Keeps run (merge_chunks run table columns key tenant n more)
  unfolding merge_chunks
  Keeps-merge_chunks table columns key tenant n [] = Keeps-pure n
  Keeps-merge_chunks table columns key tenant n (chunk ∷ more) =
      Keeps-then (Keeps-execute _ _) λ m. Keeps-merge_chunks table columns key tenant (n + m) more

  Keeps-delete_chunks :
      (table key tenant : Text) (n : ℕ) (more : List (List Text))
      → Keeps run (delete_chunks run table key tenant n more)
  unfolding delete_chunks
  Keeps-delete_chunks table key tenant n [] = Keeps-pure n
  Keeps-delete_chunks table key tenant n (chunk ∷ more) =
      Keeps-then (Keeps-execute _ _) λ m. Keeps-delete_chunks table key tenant (n + m) more

  Keeps-commit_offsets :
      (source now : Text) (offsets : List (ℤ × ℤ))
      → Keeps run (commit_offsets run source now offsets)
  unfolding commit_offsets upsert_cdc_offset
  Keeps-commit_offsets source now [] = Keeps-pure tt
  Keeps-commit_offsets source now ((partition, offset) ∷ more) =
      Keeps-then (Keeps-then (Keeps-execute _ _) λ _. Keeps-pure tt)
        λ _. Keeps-commit_offsets source now more

  Keeps-merge_upserts :
      (table : Text) (columns : List Text) (key : Text) (rows : List Row)
      → Keeps run (merge_upserts run table columns key rows)
  unfolding merge_upserts
  Keeps-merge_upserts table columns key rows =
      Keeps-with_tenant λ tenant. Keeps-merge_chunks table columns key tenant 0 _

  Keeps-merge_deletes :
      (table key : Text) (keys : List Text) → Keeps run (merge_deletes run table key keys)
  unfolding merge_deletes
  Keeps-merge_deletes table key keys =
      Keeps-with_tenant λ tenant. Keeps-delete_chunks table key tenant 0 _

  Keeps-cdc_body :
      (table source : Text) (columns : List Text) (key : Text) (upserts : List Row)
      (deletes : List Text) (offsets : List (ℤ × ℤ)) (now : Text)
      → Keeps run (cdc_body run table source columns key upserts deletes offsets now)
  unfolding cdc_body
  Keeps-cdc_body table source columns key upserts deletes offsets now =
      Keeps-then
        (Keeps-then (Keeps-then (Keeps-ensure_raw_table table columns) λ _. Keeps-execute_batch _)
          λ _. Keeps-found_key _)
        λ i. Keeps-then (Keeps-merge_upserts table columns key (dedup_by_key upserts i)) λ n.
          Keeps-then (Keeps-merge_deletes table key deletes)
            λ _. Keeps-then (Keeps-commit_offsets source now offsets) λ _. Keeps-pure n

  -- A change batch, whatever the statements reply, either succeeds, and then `BEGIN`, every
  -- statement of the transaction and `COMMIT` were taken by the database, the connection is where
  -- that `COMMIT` left a transaction that was begun where the writer stood, and the generation was
  -- advanced once; or fails, and then either no statement was run, or `BEGIN` was refused, or the
  -- transaction was rolled back, or its `COMMIT` was refused, and in each case what other
  -- connections see and the generation are what they were. The isolation of the database is a
  -- hypothesis: others see no change by `BEGIN`, a statement inside the transaction, `ROLLBACK`,
  -- or a refused `COMMIT`.
  pub apply_cdc_batch-IsAtomic :
      {V : Type 0} (view : Db → V)
      → Isolation run view
      → (w : Writer Db) (system entity : Text) (columns : List Text) (key : Text)
        (upserts : List Row) (deletes : List Text) (offsets : List (ℤ × ℤ)) (now : Text)
      → IsAtomic run view w
          (apply_cdc_batch run system entity columns key upserts deletes offsets now w)
  unfolding apply_cdc_batch
  apply_cdc_batch-IsAtomic view isolation w system entity columns key upserts deletes offsets now =
      checked_IsAtomic run view _ w
        (IsSilent-then
          (IsSilent-then (check_columns-IsSilent columns) λ _. check_ident-IsSilent key)
          λ _. found_key-IsSilent _)
        λ _. checked_IsAtomic run view _ w (raw_table_name-IsSilent system entity) λ table.
          in_transaction-IsAtomic run view isolation
            (Keeps-cdc_body table _ columns key upserts deletes offsets now) w
