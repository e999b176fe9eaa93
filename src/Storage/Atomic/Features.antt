-- ===== src/Storage/Atomic/Features.antt =====
-- `write_features_and_refresh` is atomic.
use consumer_engine.Prelude.{map_err, ℕ, zero, suc, ◌+◌, List, [], ◌∷◌, Text}
use consumer_engine.Core.Ident.{validate_feature_name}
use consumer_engine.Query.Json.{Value}
use consumer_engine.Storage.Machine.{bad_feature_name, bad_producer_id, Statement, Reply, Writer}
use consumer_engine.Storage.Chunks.{rows_per_chunk, insert_chunks, insert_by, insert_chunked}
use consumer_engine.Storage.Tables.{check_ident}
use consumer_engine.Storage.Features.{
  FeatureRow, Family, feature_values, check_feature_row, check_feature_rows,
  ensure_feature_store_table, write_feature_rows, feature_short_names, check_shorts, add_names,
  replace_view, refresh_feature_wide_view, refresh_families, features_body,
  write_features_and_refresh,
}
use consumer_engine.Storage.Atomic.{Isolation, IsAtomic, Keeps, in_transaction-IsAtomic}
use consumer_engine.Storage.Atomic.Bodies.{
  Keeps-pure, Keeps-raise, Keeps-lift, Keeps-then, Keeps-with_tenant, Keeps-execute,
  Keeps-execute_batch, Keeps-query,
}

module _ {Db : Type 0} (run : Statement → Db → Reply × Db) where
  module _ {R : Type 0} (prefix : Text) (cols : ℕ) (bind : R → List Value) where
    Keeps-insert_chunks :
        (n : ℕ) (more : List (List R)) → Keeps run (insert_chunks run prefix cols bind n more)
    unfolding insert_chunks
    Keeps-insert_chunks n [] = Keeps-pure n
    Keeps-insert_chunks n (chunk ∷ more) =
        Keeps-then (Keeps-execute _ _) λ m. Keeps-insert_chunks (n + m) more

    Keeps-insert_by : (n : ℕ) (rows : List R) → Keeps run (insert_by run prefix cols bind n rows)
    Keeps-insert_by zero rows = Keeps-raise _
    Keeps-insert_by (suc size) rows = Keeps-insert_chunks 0 _

    pub Keeps-insert_chunked :
        (rows : List R) → Keeps run (insert_chunked run prefix cols bind rows)
    unfolding insert_chunked
    Keeps-insert_chunked [] = Keeps-pure 0
    Keeps-insert_chunked (r ∷ rs) = Keeps-insert_by (rows_per_chunk cols) (r ∷ rs)

  Keeps-check_ident : (name : Text) → Keeps run (check_ident name)
  unfolding check_ident
  Keeps-check_ident name = Keeps-lift _

  Keeps-check_feature_row : (r : FeatureRow) → Keeps run (check_feature_row r)
  unfolding check_feature_row
  Keeps-check_feature_row r =
      Keeps-then (Keeps-lift (map_err bad_feature_name (validate_feature_name r.feature_name)))
        λ _. Keeps-lift (map_err bad_producer_id (validate_feature_name r.producer_id))

  Keeps-check_feature_rows : (rows : List FeatureRow) → Keeps run (check_feature_rows rows)
  unfolding check_feature_rows
  Keeps-check_feature_rows [] = Keeps-pure tt
  Keeps-check_feature_rows (r ∷ rs) =
      Keeps-then (Keeps-check_feature_row r) λ _. Keeps-check_feature_rows rs

  Keeps-ensure_feature_store_table : Keeps run (ensure_feature_store_table run)
  unfolding ensure_feature_store_table
  Keeps-ensure_feature_store_table = Keeps-then (Keeps-execute_batch _) λ _. Keeps-execute_batch _

  Keeps-write_feature_rows : (rows : List FeatureRow) → Keeps run (write_feature_rows run rows)
  unfolding write_feature_rows
  Keeps-write_feature_rows [] = Keeps-pure 0
  Keeps-write_feature_rows (r ∷ rs) =
      Keeps-then
        (Keeps-then (Keeps-check_feature_rows (r ∷ rs)) λ _. Keeps-ensure_feature_store_table)
        λ _. Keeps-with_tenant λ tenant. Keeps-insert_chunked _ 6 (feature_values tenant) (r ∷ rs)

  Keeps-feature_short_names : (family : Text) → Keeps run (feature_short_names run family)
  unfolding feature_short_names
  Keeps-feature_short_names family =
      Keeps-then
        (Keeps-then (Keeps-then (Keeps-check_ident family) λ _. Keeps-ensure_feature_store_table)
          λ _. Keeps-query _ _)
        λ rows. Keeps-lift _

  Keeps-check_shorts : (shorts : List Text) → Keeps run (check_shorts shorts)
  unfolding check_shorts
  Keeps-check_shorts [] = Keeps-pure tt
  Keeps-check_shorts (s ∷ ss) = Keeps-then (Keeps-check_ident s) λ _. Keeps-check_shorts ss

  Keeps-replace_view :
      (family : Text) (shorts : List Text) → Keeps run (replace_view run family shorts)
  Keeps-replace_view family [] = Keeps-pure tt
  Keeps-replace_view family (s ∷ ss) =
      Keeps-then (Keeps-then Keeps-ensure_feature_store_table λ _. Keeps-check_shorts (s ∷ ss))
        λ _. Keeps-execute_batch _

  Keeps-refresh_feature_wide_view :
      (family : Text) (shorts : List Text) → Keeps run (refresh_feature_wide_view run family shorts)
  unfolding refresh_feature_wide_view
  Keeps-refresh_feature_wide_view family shorts =
      Keeps-then (Keeps-check_ident family) λ _. Keeps-replace_view family shorts

  Keeps-refresh_families : (families : List Family) → Keeps run (refresh_families run families)
  unfolding refresh_families
  Keeps-refresh_families [] = Keeps-pure tt
  Keeps-refresh_families (f ∷ fs) = Keeps-then (Keeps-feature_short_names f.name) λ stored.
      Keeps-then (Keeps-refresh_feature_wide_view f.name (add_names f.shorts stored))
        λ _. Keeps-refresh_families fs

  Keeps-features_body : (rows : List FeatureRow) → Keeps run (features_body run rows)
  unfolding features_body
  Keeps-features_body rows = Keeps-then (Keeps-write_feature_rows rows) λ n.
      Keeps-then (Keeps-lift _)
        λ families. Keeps-then (Keeps-refresh_families families) λ _. Keeps-pure n

  -- A write of one feature row or more, whatever the statements reply, either succeeds, and then
  -- `BEGIN`, every statement of the transaction and `COMMIT` were taken by the database, the
  -- connection is where that `COMMIT` left a transaction that was begun where the writer stood,
  -- and the generation was advanced once; or fails, and then either no statement was run, or
  -- `BEGIN` was refused, or the transaction was rolled back, or its `COMMIT` was refused, and in
  -- each case what other connections see and the generation are what they were. The isolation of
  -- the database is a hypothesis: others see no change by `BEGIN`, a statement inside the
  -- transaction, `ROLLBACK`, or a refused `COMMIT`.
  pub write_features_and_refresh-IsAtomic :
      {V : Type 0} (view : Db → V)
      → Isolation run view
      → (w : Writer Db) (r : FeatureRow) (rs : List FeatureRow)
      → IsAtomic run view w (write_features_and_refresh run (r ∷ rs) w)
  unfolding write_features_and_refresh
  write_features_and_refresh-IsAtomic view isolation w r rs =
      in_transaction-IsAtomic run view isolation (Keeps-features_body (r ∷ rs)) w
