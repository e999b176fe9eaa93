-- ===== src/Storage/Chunks.antt =====
-- `insert_chunked`, with the standard library's `chunks` of slices.
use consumer_engine.Prelude.{
  ℕ, zero, suc, ◌+◌, ◌/◌, List, [], ◌∷◌, ◌++◌, Text, text, fmt, join, length, ltb, if◌then◌else◌,
}
use consumer_engine.Query.Json.{Value}
use consumer_engine.Storage.Machine.{
  Statement, Reply, Action, pure, raise, panicked, ◌>>=◌, execute,
}

-- `vec![x; n]`
abbrev pub repeated : ℕ → Text → List Text
repeated zero x = []
repeated (suc n) x = x ∷ repeated n x

-- `iter().flat_map(f)`
abbrev pub flat_map {ℓ κ} : {A : Type ℓ} {B : Type κ} → (A → List B) → List A → List B
flat_map f [] = []
flat_map f (x ∷ xs) = f x ++ flat_map f xs

module _ {ℓ} {R : Type ℓ} where
  -- The chunk that is being filled has room for so many more; `size` is one less than a chunk's.
  unfoldable pub fill_chunk : ℕ → ℕ → List R → List R → List (List R)
  fill_chunk size room chunk [] = chunk ∷ []
  fill_chunk size zero chunk (r ∷ rs) = chunk ∷ fill_chunk size size (r ∷ []) rs
  fill_chunk size (suc room) chunk (r ∷ rs) = fill_chunk size room (chunk ++ r ∷ []) rs

  -- `rows.chunks(size + 1)` of the standard library
  unfoldable pub chunks : ℕ → List R → List (List R)
  unfolding fill_chunk
  chunks size [] = []
  chunks size (r ∷ rs) = fill_chunk size size (r ∷ []) rs

abbrev pub max_params : ℕ
max_params = 65_535

abbrev pub max_chunk_rows : ℕ
max_chunk_rows = 500

abbrev pub min_of : ℕ → ℕ → ℕ
min_of a b = if ltb b a then b else a

-- `CHUNK_ROWS.min(MAX_PARAMS / cols.max(1))`
abbrev pub rows_per_chunk : ℕ → ℕ
rows_per_chunk cols = min_of max_chunk_rows (max_params / (if ltb cols 1 then 1 else cols))

-- `(?, …, ?)`
abbrev pub row_sql : ℕ → Text
row_sql cols = fmt (text "(" ∷ join (text ", ") (repeated cols (text "?")) ∷ text ")" ∷ [])

abbrev pub values_sql : ℕ → ℕ → Text
values_sql cols rows = join (text ", ") (repeated rows (row_sql cols))

module _ {Db : Type 0} (run : Statement → Db → Reply × Db) where
  module _ {R : Type 0} (insert_prefix : Text) (cols : ℕ) (bind : R → List Value) where
    -- The loop over the chunks.
    unfoldable pub insert_chunks : ℕ → List (List R) → Action Db ℕ
    insert_chunks affected [] = pure affected
    insert_chunks affected (chunk ∷ more) =
        execute run (fmt (insert_prefix ∷ values_sql cols (length chunk) ∷ []))
          (flat_map bind chunk)
        >>= λ n. insert_chunks (affected + n) more

    abbrev pub insert_by : ℕ → List R → Action Db ℕ
    insert_by zero rows = raise panicked
    insert_by (suc size) rows = insert_chunks 0 (chunks size rows)

    unfoldable pub insert_chunked : List R → Action Db ℕ
    unfolding insert_chunks chunks
    insert_chunked [] = pure 0
    insert_chunked (r ∷ rs) = insert_by (rows_per_chunk cols) (r ∷ rs)
