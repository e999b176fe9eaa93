-- ===== src/Storage/Dedup/Keyed.antt =====
-- Which rows `dedup_by_key` can return.
use consumer_engine.Prelude.{
  ℕ, zero, suc, ◌≡◌, refl, Option, none, some, List, [], ◌∷◌, Text, lookup, All, All-append, Any,
  inl, inr,
}
use consumer_engine.Storage.Dedup.{
  Row, cell_at, replace_at, Kept, keep_seen, keep_row, keep_rows, dedup_by_key,
}

-- One of the rows, with a key.
abbrev pub IsKeyedOf : ℕ → List Row → Row → Type 0
IsKeyedOf i rows row = ((key : Text) × (cell_at i row ≡ some key)) × Any (λ r. r ≡ row) rows

module _ (P : Row → Type 0) where
  replace_at-All :
      (j : ℕ) (row : Row) (rows : List Row) → P row → All P rows → All P (replace_at j row rows)
  unfolding replace_at
  replace_at-All j row [] new all = tt
  replace_at-All zero row (r ∷ rs) new all = (new, all.1)
  replace_at-All (suc j) row (r ∷ rs) new all = (all.0, replace_at-All j row rs new all.1)

  keep_seen-All :
      (k : Text) (row : Row) (st : Kept) (found : Option ℕ)
      → P row
      → All P st.deduped
      → All P (keep_seen k row st found).deduped
  keep_seen-All k row st none new all = All-append P st.deduped (row ∷ []) all (new, tt)
  keep_seen-All k row st (some j) new all = replace_at-All j row st.deduped new all

  keep_row-All :
      (row : Row) (cell : Option Text) (st : Kept)
      → ((k : Text) → cell ≡ some k → P row)
      → All P st.deduped
      → All P (keep_row row cell st).deduped
  keep_row-All row none st keyed all = all
  keep_row-All row (some k) st keyed all =
      keep_seen-All k row st (lookup k st.seen) (keyed k refl) all

  keep_rows-All :
      (i : ℕ) (rows : List Row) (st : Kept)
      → All (λ row. (k : Text) → cell_at i row ≡ some k → P row) rows
      → All P st.deduped
      → All P (keep_rows i rows st).deduped
  unfolding keep_rows
  keep_rows-All i [] st keyed all = all
  keep_rows-All i (row ∷ rows) st keyed all =
      keep_rows-All i rows _ keyed.1 (keep_row-All row (cell_at i row) st keyed.0 all)

found_in :
    (i : ℕ) (all rows : List Row)
    → ((row : Row) → Any (λ r. r ≡ row) rows → Any (λ r. r ≡ row) all)
    → All (λ row. (k : Text) → cell_at i row ≡ some k → IsKeyedOf i all row) rows
found_in i all [] among = tt
found_in i all (row ∷ rows) among =
    (λ k e. ((k, e), among row (inl refl)), found_in i all rows λ r h. among r (inr h))

-- Every row that deduplication returns is one of the rows given and has a key: a row whose key is
-- NULL or missing is never merged.
pub dedup_by_key-IsKeyedOf :
    (rows : List Row) (key_idx : ℕ) → All (IsKeyedOf key_idx rows) (dedup_by_key rows key_idx)
unfolding dedup_by_key
dedup_by_key-IsKeyedOf rows key_idx =
    keep_rows-All (IsKeyedOf key_idx rows) key_idx rows _ (found_in key_idx rows rows λ r h. h) tt
