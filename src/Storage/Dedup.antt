-- ===== src/Storage/Dedup.antt =====
-- `Writer::dedup_by_key`. A row is a list of optional texts.
pub mod Positions
pub mod Laws
pub mod Keyed
use consumer_engine.Prelude.{
  ℕ, zero, suc, Option, none, some, List, [], ◌∷◌, ◌++◌, Text, text_eq, length, insert, lookup,
  if◌then◌else◌,
}

abbrev pub Row : Type 0
Row = List (Option Text)

-- `row.get(key_idx).and_then(|v| v.as_deref())`
unfoldable pub cell_at : ℕ → Row → Option Text
cell_at i [] = none
cell_at zero (c ∷ cs) = c
cell_at (suc i) (c ∷ cs) = cell_at i cs

-- `*deduped.get_mut(i) = row`
unfoldable pub replace_at : ℕ → Row → List Row → List Row
replace_at i row [] = []
replace_at zero row (r ∷ rs) = row ∷ rs
replace_at (suc i) row (r ∷ rs) = r ∷ replace_at i row rs

-- The rows kept so far, and where the row of each key is among them.
pub record Kept : Type 0 where
  pub deduped : List Row
  pub seen : List (Text × ℕ)

abbrev pub keep_seen : Text → Row → Kept → Option ℕ → Kept
keep_seen k row st (some i) = record st { deduped = replace_at i row st.deduped }
keep_seen k row st none = record {
  deduped = st.deduped ++ row ∷ [];
  seen = insert k (length st.deduped) st.seen;
}

-- The body of the loop; a row without a key is skipped.
abbrev pub keep_row : Row → Option Text → Kept → Kept
keep_row row none st = st
keep_row row (some k) st = keep_seen k row st (lookup k st.seen)

unfoldable pub keep_rows : ℕ → List Row → Kept → Kept
unfolding cell_at replace_at
keep_rows key_idx [] st = st
keep_rows key_idx (row ∷ rows) st = keep_rows key_idx rows (keep_row row (cell_at key_idx row) st)

unfoldable pub dedup_by_key : List Row → ℕ → List Row
unfolding keep_rows
dedup_by_key rows key_idx = (keep_rows key_idx rows (record { deduped = []; seen = [] })).deduped
