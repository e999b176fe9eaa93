-- ===== src/Query/Engine/Catalogue.antt =====
-- `enforce_catalogue` of crates/query/src/engine.rs.
use consumer_engine.Prelude.{
  Bool, true, false, ◌&&◌, ◌||◌, Option, none, some, List, [], ◌∷◌, Text, text, fmt, text_eq, ltb,
  ◌==◌, if◌then◌else◌, ok, ◌>>=◌, ◌>>◌, guard,
}
use consumer_engine.Core.Config.{GuardrailConfig}
use consumer_engine.Core.Freshness.{Sources, SourceMeta, get}
use consumer_engine.Query.Json.{Json, text_value}
use consumer_engine.Query.Ast.{SegmentQuery}
use consumer_engine.Query.Ast.References.{ReferencedColumn, referenced_columns, referenced_features}
use consumer_engine.Query.Fault.{
  QueryResult, invalid_dsl, column_not_catalogued, feature_not_registered,
}
use consumer_engine.Query.Compiler.Types.{read_only_catalog_alias}
use consumer_engine.Query.Engine.Reader.{Reader, timed_read, first_cell, as_str}

-- The order of `String`.
unfoldable pub text_ltb : Text → Text → Bool
text_ltb s [] = false
text_ltb [] (b ∷ t) = true
text_ltb (a ∷ s) (b ∷ t) = let rest = text_ltb s t in ltb a b || ((a == b) && rest)

-- An entry of `by_table`.
pub record TableColumns : Type 0 where
  pub system : Text
  pub entity : Text
  pub names : List Text

abbrev pub place_name : Bool → Bool → Text → Text → List Text → List Text → List Text
place_name true before c d ds later = d ∷ ds
place_name false true c d ds later = c ∷ d ∷ ds
place_name false false c d ds later = d ∷ later

-- `BTreeSet::insert`
unfoldable pub insert_name : Text → List Text → List Text
insert_name c [] = c ∷ []
insert_name c (d ∷ ds) = place_name (text_eq c d) (text_ltb c d) c d ds (insert_name c ds)

abbrev pub same_table : ReferencedColumn → TableColumns → Bool
same_table r t = text_eq r.system t.system && text_eq r.entity t.entity

abbrev pub before_table : ReferencedColumn → TableColumns → Bool
before_table r t =
    text_ltb r.system t.system || (text_eq r.system t.system && text_ltb r.entity t.entity)

abbrev pub one_column : ReferencedColumn → TableColumns
one_column r = record { system = r.system; entity = r.entity; names = r.column ∷ [] }

abbrev pub place_table :
    Bool
    → Bool
    → ReferencedColumn
    → TableColumns
    → List TableColumns
    → List TableColumns
    → List TableColumns
place_table true before r t ts later =
    record { system = t.system; entity = t.entity; names = insert_name r.column t.names } ∷ ts
place_table false true r t ts later = one_column r ∷ t ∷ ts
place_table false false r t ts later = t ∷ later

-- `by_table.entry((r.system, r.entity)).or_default().insert(r.column)`
unfoldable pub add_column : ReferencedColumn → List TableColumns → List TableColumns
unfolding insert_name
add_column r [] = one_column r ∷ []
add_column r (t ∷ ts) = place_table (same_table r t) (before_table r t) r t ts (add_column r ts)

unfoldable pub group_columns : List ReferencedColumn → List TableColumns → List TableColumns
unfolding add_column
group_columns [] m = m
group_columns (r ∷ rs) m = group_columns rs (add_column r m)

abbrev pub keep_name : Option Text → List Text → List Text
keep_name none rest = rest
keep_name (some s) rest = s ∷ rest

-- The first cells that are strings.
unfoldable pub first_texts : List (List Json) → List Text
first_texts [] = []
first_texts (r ∷ rs) = keep_name (as_str (first_cell r)) (first_texts rs)

unfoldable pub has_name : Text → List Text → Bool
has_name c [] = false
has_name c (d ∷ ds) = let rest = has_name c ds in text_eq c d || rest

unfoldable pub check_names : List Text → List Text → QueryResult (Unit {0})
check_names catalogued [] = ok tt
check_names catalogued (c ∷ cs) =
    guard (has_name c catalogued) (invalid_dsl column_not_catalogued) >> check_names catalogued cs

abbrev pub columns_sql : Text
columns_sql = fmt (
    text "SELECT DISTINCT column_name FROM "
    ∷ read_only_catalog_alias
    ∷ text ".semantic_catalog WHERE system = ? AND table_name = ? AND column_name IS NOT NULL"
    ∷ [])

abbrev pub epoch_sql : Text
epoch_sql = fmt (
    text "SELECT max(source_epoch) FROM "
    ∷ read_only_catalog_alias
    ∷ text ".semantic_catalog WHERE system = ? AND table_name = ? AND tenant_id = ?"
    ∷ [])

abbrev pub feature_sql : Text
feature_sql = fmt (
    text "SELECT 1 FROM "
    ∷ read_only_catalog_alias
    ∷ text ".feature_store WHERE feature_name = ? AND tenant_id = ? LIMIT 1"
    ∷ [])

abbrev pub is_not_empty : List (List Json) → Bool
is_not_empty [] = false
is_not_empty (r ∷ rs) = true

module _ (reader : Reader) (freshness : Sources) (tenant : Text) where
  -- The read for the warning on a stale catalogue: it can fail, and what it gives is only logged.
  abbrev pub warn_if_stale : Text → Text → Option SourceMeta → QueryResult (Unit {0})
  warn_if_stale system entity none = ok tt
  warn_if_stale system entity (some meta) =
      timed_read reader epoch_sql (text_value system ∷ text_value entity ∷ text_value tenant ∷ [])
      >>= λ _. ok tt

  unfoldable pub check_table : TableColumns → QueryResult (Unit {0})
  check_table t =
      timed_read reader columns_sql (text_value t.system ∷ text_value t.entity ∷ []) >>= λ qr.
      check_names (first_texts qr.rows) t.names
      >> warn_if_stale t.system t.entity (get t.system t.entity freshness)

  unfoldable pub check_tables : List TableColumns → QueryResult (Unit {0})
  unfolding check_table
  check_tables [] = ok tt
  check_tables (t ∷ ts) = check_table t >> check_tables ts

  unfoldable pub check_feature : Text → QueryResult (Unit {0})
  check_feature name =
      timed_read reader feature_sql (text_value name ∷ text_value tenant ∷ []) >>= λ qr.
      guard (is_not_empty qr.rows) (invalid_dsl feature_not_registered)

  unfoldable pub check_features : List Text → QueryResult (Unit {0})
  unfolding check_feature
  check_features [] = ok tt
  check_features (name ∷ names) = check_feature name >> check_features names

  unfoldable pub enforce_catalogue : GuardrailConfig → SegmentQuery → QueryResult (Unit {0})
  unfolding check_tables check_features group_columns
  enforce_catalogue guardrails q =
      if guardrails.enforce_catalogue
      then check_tables (group_columns (referenced_columns q) [])
        >> check_features (referenced_features q)
      else ok tt
