-- ===== src/Query/Engine/Catalogued.antt =====
-- What `enforce_catalogue` lets through (crates/query/src/engine.rs).
use consumer_engine.Prelude.{
  subst, ◌≡◌, refl, Bool, true, false, List, [], ◌∷◌, Text, text_eq, text_eq_iff, All, ok, ◌>>◌,
  >>=-eq-ok, guard, arith, sym,
}
use consumer_engine.Core.Config.{GuardrailConfig}
use consumer_engine.Core.Freshness.{Sources, get}
use consumer_engine.Query.Json.{text_value}
use consumer_engine.Query.Ast.{SegmentQuery}
use consumer_engine.Query.Ast.References.{ReferencedColumn, referenced_columns, referenced_features}
use consumer_engine.Query.Fault.{
  QueryError, feature_not_registered, invalid_dsl, column_not_catalogued,
}
use consumer_engine.Query.Engine.Reader.{Table, Reader, timed_read}
use consumer_engine.Query.Engine.Catalogue.{
  TableColumns, text_ltb, place_name, insert_name, same_table, before_table, place_table,
  add_column, group_columns, first_texts, has_name, check_names, columns_sql, feature_sql,
  is_not_empty, warn_if_stale, check_table, check_tables, check_feature, check_features,
  enforce_catalogue,
}

-- A predicate on every name of every table.
module _ (P : Text → Text → Text → Type 0) where
  abbrev pub Covered : TableColumns → Type 0
  Covered t = All (P t.system t.entity) t.names

  place_name-All :
      (s e c d : Text) (ds later : List Text) (same before : Bool)
      → (same ≡ true → c ≡ d)
      → (All (P s e) later → P s e c × All (P s e) ds)
      → All (P s e) (place_name same before c d ds later)
      → P s e c × All (P s e) (d ∷ ds)
  place_name-All s e c d ds later true before eq ih h = (subst (P s e) (sym (eq refl)) h.0, h)
  place_name-All s e c d ds later false true eq ih h = h
  place_name-All s e c d ds later false false eq ih h = ((ih h.1).0, (h.0, (ih h.1).1))

  insert_name-All :
      (s e c : Text) (names : List Text)
      → All (P s e) (insert_name c names)
      → P s e c × All (P s e) names
  unfolding insert_name
  insert_name-All s e c [] h = h
  insert_name-All s e c (d ∷ ds) h =
      place_name-All s e c d ds (insert_name c ds) (text_eq c d) (text_ltb c d) (text_eq_iff c d).0
        (insert_name-All s e c ds) h

  place_table-All :
      (r : ReferencedColumn) (t : TableColumns) (ts later : List TableColumns) (same before : Bool)
      → (same ≡ true → (r.system ≡ t.system) × (r.entity ≡ t.entity))
      → (All Covered later → P r.system r.entity r.column × All Covered ts)
      → All Covered (place_table same before r t ts later)
      → P r.system r.entity r.column × All Covered (t ∷ ts)
  place_table-All r t ts later true before eq ih (h, hs) =
      let (p, names) = insert_name-All t.system t.entity r.column t.names h in
      (
        subst (λ s. P s r.entity r.column) (sym (eq refl).0)
            (subst (λ e. P t.system e r.column) (sym (eq refl).1) p),
        (names, hs),
      )
  place_table-All r t ts later false true eq ih (h, hs) = (h.0, hs)
  place_table-All r t ts later false false eq ih (h, hs) = ((ih hs).0, (h, (ih hs).1))

  same_table_sound :
      (r : ReferencedColumn) (t : TableColumns)
      → same_table r t ≡ true
      → (r.system ≡ t.system) × (r.entity ≡ t.entity)
  same_table_sound r t h =
      ground (arith, text_eq_iff r.system t.system, text_eq_iff r.entity t.entity)

  add_column-All :
      (r : ReferencedColumn) (m : List TableColumns)
      → All Covered (add_column r m)
      → P r.system r.entity r.column × All Covered m
  unfolding add_column
  add_column-All r [] (h, hs) = (h.0, hs)
  add_column-All r (t ∷ ts) h =
      place_table-All r t ts (add_column r ts) (same_table r t) (before_table r t)
        (same_table_sound r t) (add_column-All r ts) h

  group_columns-All :
      (rs : List ReferencedColumn) (m : List TableColumns)
      → All Covered (group_columns rs m)
      → All (λ r. P r.system r.entity r.column) rs × All Covered m
  unfolding group_columns
  group_columns-All [] m h = (tt, h)
  group_columns-All (r ∷ rs) m h =
      let (hrs, hm) = group_columns-All rs (add_column r m) h in
      let (p, rest) = add_column-All r m hm in ((p, hrs), rest)

-- The catalogue that the reader shows has the column.
abbrev pub IsCatalogued : Reader → Text → Text → Text → Type 0
IsCatalogued reader system entity column =
    (t : Table) × (timed_read reader columns_sql (text_value system ∷ text_value entity ∷ [])
      ≡ ok t)
    × (has_name column (first_texts t.rows) ≡ true)

-- The feature store that the reader shows has a row of the tenant for the feature.
abbrev pub IsRegistered : Reader → Text → Text → Type 0
IsRegistered reader tenant name =
    (t : Table) × (timed_read reader feature_sql (text_value name ∷ text_value tenant ∷ []) ≡ ok t)
    × (is_not_empty t.rows ≡ true)

All-map : {P R : Text → Type 0} (xs : List Text) → ((x : Text) → P x → R x) → All P xs → All R xs
All-map [] f h = tt
All-map (x ∷ xs) f (h, hs) = (f x h, All-map xs f hs)

guard_sound : (b : Bool) (e : QueryError) → guard b e ≡ ok tt → b ≡ true
guard_sound true e h = refl
guard_sound false e h = cc

check_names_sound :
    (catalogued names : List Text)
    → check_names catalogued names ≡ ok tt
    → All (λ c. has_name c catalogued ≡ true) names
unfolding check_names
check_names_sound catalogued [] h = tt
check_names_sound catalogued (c ∷ cs) h =
    let (_, g, rest) =
      >>=-eq-ok (guard (has_name c catalogued) (invalid_dsl column_not_catalogued))
        (λ _. check_names catalogued cs) h in
    (
      guard_sound (has_name c catalogued) (invalid_dsl column_not_catalogued) g,
      check_names_sound catalogued cs rest,
    )

module _ (reader : Reader) (freshness : Sources) (tenant : Text) where
  enforce_catalogue-on :
      (guardrails : GuardrailConfig) (q : SegmentQuery)
      → guardrails.enforce_catalogue ≡ true
      → enforce_catalogue reader freshness tenant guardrails q ≡ ok tt
      → (check_tables reader freshness tenant (group_columns (referenced_columns q) [])
          >> check_features reader freshness tenant (referenced_features q))
        ≡ ok tt
  unfolding enforce_catalogue
  enforce_catalogue-on guardrails q on h = rw on at h

  check_table_sound :
      (t : TableColumns)
      → check_table reader freshness tenant t ≡ ok tt
      → Covered (IsCatalogued reader) t
  unfolding check_table
  check_table_sound t h =
      let (qr, read, rest) =
        >>=-eq-ok (timed_read reader columns_sql (text_value t.system ∷ text_value t.entity ∷ []))
          (λ qr.
            check_names (first_texts qr.rows) t.names
            >> warn_if_stale reader freshness tenant t.system t.entity
                (get t.system t.entity freshness))
          h in
      let (_, names, _) =
        >>=-eq-ok (check_names (first_texts qr.rows) t.names)
          (λ _.
            warn_if_stale reader freshness tenant t.system t.entity
              (get t.system t.entity freshness))
          rest in
      All-map t.names (λ c found. (qr, read, found))
        (check_names_sound (first_texts qr.rows) t.names names)

  check_tables_sound :
      (ts : List TableColumns)
      → check_tables reader freshness tenant ts ≡ ok tt
      → All (Covered (IsCatalogued reader)) ts
  unfolding check_tables
  check_tables_sound [] h = tt
  check_tables_sound (t ∷ ts) h =
      let (_, first, rest) =
        >>=-eq-ok (check_table reader freshness tenant t)
          (λ _. check_tables reader freshness tenant ts) h in
      (check_table_sound t first, check_tables_sound ts rest)

  check_feature_sound :
      (name : Text)
      → check_feature reader freshness tenant name ≡ ok tt
      → IsRegistered reader tenant name
  unfolding check_feature
  check_feature_sound name h =
      let (qr, read, rest) =
        >>=-eq-ok (timed_read reader feature_sql (text_value name ∷ text_value tenant ∷ []))
          (λ qr. guard (is_not_empty qr.rows) (invalid_dsl feature_not_registered)) h in
      (qr, read, guard_sound (is_not_empty qr.rows) (invalid_dsl feature_not_registered) rest)

  check_features_sound :
      (names : List Text)
      → check_features reader freshness tenant names ≡ ok tt
      → All (IsRegistered reader tenant) names
  unfolding check_features
  check_features_sound [] h = tt
  check_features_sound (name ∷ names) h =
      let (_, first, rest) =
        >>=-eq-ok (check_feature reader freshness tenant name)
          (λ _. check_features reader freshness tenant names) h in
      (check_feature_sound name first, check_features_sound names rest)

  -- With the check switched on, a segment that passes names catalogued columns only, and features
  -- that the store has for the tenant only.
  pub enforce_catalogue_sound :
      (guardrails : GuardrailConfig) (q : SegmentQuery)
      → guardrails.enforce_catalogue ≡ true
      → enforce_catalogue reader freshness tenant guardrails q ≡ ok tt
      → All (λ r. IsCatalogued reader r.system r.entity r.column) (referenced_columns q)
        × All (IsRegistered reader tenant) (referenced_features q)
  enforce_catalogue_sound guardrails q on h =
      let (_, tables, features) =
        >>=-eq-ok (check_tables reader freshness tenant (group_columns (referenced_columns q) []))
          (λ _. check_features reader freshness tenant (referenced_features q))
          (enforce_catalogue-on guardrails q on h) in
      (
        (group_columns-All (IsCatalogued reader) (referenced_columns q) []
            (check_tables_sound (group_columns (referenced_columns q) []) tables)).0,
        check_features_sound (referenced_features q) features,
      )
