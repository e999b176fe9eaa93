-- ===== src/Storage/Bounds.antt =====
-- Chunks are of bounded size, and so are the statements that `insert_chunked` sends.
use native.Mathlib.Nat.{div-mul-le_self, le-div_iff_mul-le, mul-le-mul_right, le_trans}
use mathlib.Core.List.{append_assoc}
use consumer_engine.Prelude.{
  ℕ, zero, suc, ◌+◌, ◌*◌, ◌/◌, ◌≤◌, ◌≡◌, ◌≢◌, refl, sym, ap, ◌∙◌, subst, List, [], ◌∷◌, ◌++◌, Text,
  fmt, length, length-append, ltb, All, Result, err, if◌then◌else◌, arith,
}
use consumer_engine.Query.Json.{Value}
use consumer_engine.Storage.Machine.{
  StorageError, panicked, Statement, sql, Reply, affected, table, failed, Writer, Action, then_with,
  execute, perform, counted,
}
use consumer_engine.Storage.Chunks.{
  min_of, flat_map, fill_chunk, chunks, max_params, rows_per_chunk, values_sql, insert_chunks,
  insert_by, insert_chunked,
}

module _ {ℓ} {R : Type ℓ} where
  abbrev pub concat : List (List R) → List R
  concat [] = []
  concat (c ∷ cs) = c ++ concat cs

  abbrev pub IsSized : ℕ → List R → Type 0
  IsSized n c = (1 ≤ length c) × (length c ≤ n)

  fill_chunk-concat :
      (size room : ℕ) (chunk rows : List R)
      → concat (fill_chunk size room chunk rows) ≡ chunk ++ rows
  unfolding fill_chunk
  fill_chunk-concat size room chunk [] = refl
  fill_chunk-concat size zero chunk (r ∷ rs) =
      ap (λ l. chunk ++ l) (fill_chunk-concat size size (r ∷ []) rs)
  fill_chunk-concat size (suc room) chunk (r ∷ rs) =
      fill_chunk-concat size room (chunk ++ r ∷ []) rs ∙ append_assoc chunk (r ∷ []) rs

  fill_chunk-IsSized :
      (size room : ℕ) (chunk rows : List R)
      → 1 ≤ length chunk
      → length chunk + room ≡ suc size
      → All (IsSized (suc size)) (fill_chunk size room chunk rows)
  unfolding fill_chunk
  fill_chunk-IsSized size room chunk [] some_row full = ((some_row, omega arith), tt)
  fill_chunk-IsSized size zero chunk (r ∷ rs) some_row full = (
    (some_row, omega arith),
    fill_chunk-IsSized size size (r ∷ []) rs (omega arith) (omega arith),
  )
  fill_chunk-IsSized size (suc room) chunk (r ∷ rs) some_row full =
      fill_chunk-IsSized size room (chunk ++ r ∷ []) rs
        (omega (arith, length-append chunk (r ∷ []))) (omega (arith, length-append chunk (r ∷ [])))

  chunks-concat : (size : ℕ) (rows : List R) → concat (chunks size rows) ≡ rows
  unfolding chunks
  chunks-concat size [] = refl
  chunks-concat size (r ∷ rs) = fill_chunk-concat size size (r ∷ []) rs

  chunks-IsSized : (size : ℕ) (rows : List R) → All (IsSized (suc size)) (chunks size rows)
  unfolding chunks
  chunks-IsSized size [] = tt
  chunks-IsSized size (r ∷ rs) =
      fill_chunk-IsSized size size (r ∷ []) rs (omega arith) (omega arith)

-- A row for every group of placeholders, a value for every placeholder, and no more than DuckDB takes.
pub data IsInsert (insert_prefix : Text) (cols : ℕ) : Statement → Type 0 where
  insert :
      (rows : ℕ) (params : List Value)
      → 1 ≤ rows
      → length params ≡ rows * cols
      → rows * cols ≤ max_params
      → IsInsert insert_prefix cols (sql (fmt (insert_prefix ∷ values_sql cols rows ∷ [])) params)

-- Some statements, all of them of a kind, lead from one state of the database to another.
pub data Sent {Db : Type 0} (run : Statement → Db → Reply × Db) (P : Statement → Type 0) (d : Db)
    : Db → Type 0 where
  none_sent : Sent run P d d
  one_more : {e : Db} → Sent run P d e → (s : Statement) → P s → Sent run P d (run s e).1

min_of-le : (a b : ℕ) → min_of a b ≤ b
min_of-le a b = ground arith

min_of-positive : (a b : ℕ) → 1 ≤ a → 1 ≤ b → 1 ≤ min_of a b
min_of-positive a b ha hb = ground arith

some_cols : (cols : ℕ) → 1 ≤ cols → (if ltb cols 1 then 1 else cols) ≡ cols
some_cols cols h = ground arith

rows_per_chunk-params :
    (cols : ℕ)
    → 1 ≤ cols
    → cols ≤ max_params
    → (1 ≤ rows_per_chunk cols) × (rows_per_chunk cols * cols ≤ max_params)
rows_per_chunk-params cols some_col fits =
    subst
      (λ c. (1 ≤ min_of 500 (max_params / c)) × (min_of 500 (max_params / c) * cols ≤ max_params))
      (sym (some_cols cols some_col))
      (
        min_of-positive 500 (max_params / cols) (omega arith)
            ((le-div_iff_mul-le some_col).1 (omega arith)),
        le_trans (mul-le-mul_right cols (min_of-le 500 (max_params / cols)))
            (div-mul-le_self max_params cols),
      )

module _ {R : Type 0} (insert_prefix : Text) (cols : ℕ) (bind : R → List Value) where
  abbrev IsWide : R → Type 0
  IsWide r = length (bind r) ≡ cols

  flat_map-length :
      (rows : List R) → All IsWide rows → length (flat_map bind rows) ≡ length rows * cols
  flat_map-length [] h = omega arith
  flat_map-length (r ∷ rs) h =
      length-append (bind r) (flat_map bind rs) ∙ omega (arith, h.0, flat_map-length rs h.1)

  All-left : (xs ys : List R) → All IsWide (xs ++ ys) → All IsWide xs
  All-left [] ys h = tt
  All-left (x ∷ xs) ys h = (h.0, All-left xs ys h.1)

  All-right : (xs ys : List R) → All IsWide (xs ++ ys) → All IsWide ys
  All-right [] ys h = h
  All-right (x ∷ xs) ys h = All-right xs ys h.1

  chunk_fits :
      (size : ℕ) (chunk : List R)
      → suc size * cols ≤ max_params
      → IsSized (suc size) chunk
      → All IsWide chunk
      → IsInsert insert_prefix cols
          (sql (fmt (insert_prefix ∷ values_sql cols (length chunk) ∷ [])) (flat_map bind chunk))
  chunk_fits size chunk fits sized wide =
      insert (length chunk) (flat_map bind chunk) sized.0 (flat_map-length chunk wide)
        (le_trans (mul-le-mul_right cols sized.1) fits)

  module _ {Db : Type 0} (run : Statement → Db → Reply × Db) where
    -- Only inserts that fit are sent, and a failure is the database's.
    pub record IsFitting (before : Db) (r : Result StorageError ℕ × Writer Db) : Type 0 where
      pub sent : Sent run (IsInsert insert_prefix cols) before r.1.conn
      pub no_panic : r.0 ≢ err panicked

    reply_cases :
        {next : ℕ → Action Db ℕ} (d : Db) (w : Writer Db) (reply : Reply) (e : Db)
        → ((m : ℕ) (w : Writer Db)
            → Sent run (IsInsert insert_prefix cols) d w.conn
            → IsFitting d (next m w))
        → Sent run (IsInsert insert_prefix cols) d e
        → IsFitting d (then_with next (counted reply, record w { conn = e }))
    reply_cases d w (affected m) e rest sent = rest m _ sent
    reply_cases d w (table rows) e rest sent = rest 0 _ sent
    reply_cases d w failed e rest sent = record { sent = sent; no_panic = λ e. absurd (cc e) }

    insert_chunks-IsFitting :
        (d : Db) (size n : ℕ) (more : List (List R)) (w : Writer Db)
        → suc size * cols ≤ max_params
        → All (IsSized (suc size)) more
        → All IsWide (concat more)
        → Sent run (IsInsert insert_prefix cols) d w.conn
        → IsFitting d (insert_chunks run insert_prefix cols bind n more w)
    unfolding insert_chunks execute perform
    insert_chunks-IsFitting d size n [] w fits sized wide sent = record {
      sent = sent;
      no_panic = λ e. absurd (cc e);
    }
    insert_chunks-IsFitting d size n (chunk ∷ more) w fits sized wide sent =
        reply_cases d w (run (sql _ (flat_map bind chunk)) w.conn).0 (run (sql _ _) w.conn).1
          (λ m w.
            insert_chunks-IsFitting d size (n + m) more w fits sized.1 (All-right chunk _ wide))
          (one_more sent _ (chunk_fits size chunk fits sized.0 (All-left chunk _ wide)))

    insert_by-IsFitting :
        (k : ℕ) (rows : List R) (w : Writer Db)
        → 1 ≤ k
        → k * cols ≤ max_params
        → All IsWide rows
        → IsFitting w.conn (insert_by run insert_prefix cols bind k rows w)
    insert_by-IsFitting zero rows w some_row fits wide = absurd (omega (arith, some_row))
    insert_by-IsFitting (suc size) rows w some_row fits wide =
        insert_chunks-IsFitting w.conn size 0 (chunks size rows) w fits (chunks-IsSized size rows)
          (subst (All IsWide) (sym (chunks-concat size rows)) wide) none_sent

    -- Rows of at least one column and at most 65 535, each of as many values as columns: whatever
    -- the database replies, it receives inserts of one row or more alone, with a placeholder for
    -- each value and at most 65 535 of them, and `chunks` does not panic.
    pub insert_chunked-IsFitting :
        1 ≤ cols
        → cols ≤ max_params
        → (rows : List R) → All IsWide rows
        → (w : Writer Db) → IsFitting w.conn (insert_chunked run insert_prefix cols bind rows w)
    unfolding insert_chunked
    insert_chunked-IsFitting some_col fits [] wide w = record {
      sent = none_sent;
      no_panic = λ e. absurd (cc e);
    }
    insert_chunked-IsFitting some_col fits (r ∷ rs) wide w =
        let bounds = rows_per_chunk-params cols some_col fits in
        insert_by-IsFitting (rows_per_chunk cols) (r ∷ rs) w bounds.0 bounds.1 wide
