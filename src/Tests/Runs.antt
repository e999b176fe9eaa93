-- ===== src/Tests/Runs.antt =====
-- Runs of the engine over a reader that answers every statement alike.
use consumer_engine.Core.Ident.{validate_ident}
use consumer_engine.Prelude.{
  Text, utf8_len, lookup, pos, ℕ, ◌≤◌, ◌≡◌, refl, ◌↔◌, true, false, none, some, [], ◌∷◌, text, fmt,
  join, text_eq, ok, err, All,
}
use consumer_engine.Core.Config.{GuardrailConfig, default_guardrails, default_suppression}
use consumer_engine.Core.Dataset.{Dataset}
use consumer_engine.Core.Freshness.{get, batch}
use consumer_engine.Query.Json.{Json, string, number, positive}
use consumer_engine.Query.Validate.{
  validate, validate_dataset, validate_ident_field, validate_predicate, validate_value,
  validate_derive, validate_positions,
}
use consumer_engine.Query.Engine.Narrowing.{with_last, strip_derive-with_last}
use consumer_engine.Query.Ast.{
  JitMetric, ops_of, SegmentQuery, segment, Ops, no_ops, then_op, Op, filter, feature, derive,
  count, eq, gt,
}
use consumer_engine.Query.Ast.References.{ReferencedColumn, referenced_columns, referenced_features}
use consumer_engine.Query.Fault.{QueryResult}
use consumer_engine.Query.Compiler.Types.{CompiledQuery, to_value}
use consumer_engine.Query.Compiler.Pieces.{tenant_eq, raw_table, base_select, binary_cmp_symbol}
use consumer_engine.Query.Compiler.Predicates.{compile_predicate}
use consumer_engine.Query.Compiler.Metrics.{compile_derive_metric}
use consumer_engine.Query.Compiler.Segments.{compile_with_opts}
use consumer_engine.Query.Touched.{sources_read}
use consumer_engine.Query.Touched.Compiled.{compile_with_opts-sources_read}
use consumer_engine.Query.Engine.Reader.{Table, Reader, finished, timed_read}
use consumer_engine.Query.Engine.Catalogue.{
  enforce_catalogue, insert_name, add_column, group_columns, first_texts, has_name, check_names,
  check_table, check_tables, check_feature, check_features, text_ltb,
}
use consumer_engine.Query.Engine.Catalogued.{IsCatalogued, IsRegistered, enforce_catalogue_sound}
use consumer_engine.Query.Engine.Run.{
  SyncResult, Engine, has_derive, has_characterize, strip_derive, options, compile_and_check,
  derive_survivor_limit, run_sync,
}
use consumer_engine.Query.Engine.Guarded.{IsWithinBudgets, run_sync_iff}
use consumer_engine.Query.Engine.Survivors.{IsMeasured, compile_and_check-survivors}

abbrev orders : Dataset
orders = record { system = text "erp"; entity = text "orders" }

abbrev sku_is_a : Op
sku_is_a = filter (record { column = text "sku"; op = eq; value = string (text "A") })

abbrev segment_of : Ops → SegmentQuery
segment_of ops = segment orders (text "user_id") (then_op sku_is_a ops) none

abbrev two_columns : Reader
two_columns sql params = finished (record {
  columns = text "column_name" ∷ [];
  rows = (string (text "user_id") ∷ []) ∷ (string (text "sku") ∷ []) ∷ [];
})

abbrev seven : Reader
seven sql params =
    finished (record { columns = text "count" ∷ []; rows = (number (positive 7) ∷ []) ∷ [] })

abbrev unchecked : GuardrailConfig
unchecked = record {
  statement_timeout_secs = 30;
  sync_row_cap = 100;
  max_output_rows = 1000;
  j_survivor_cap = 10;
  enforce_catalogue = false;
}

abbrev engine : Engine
engine = record {
  reader = seven;
  guardrails = unchecked;
  suppression = default_suppression;
  freshness = [];
}

abbrev regular : SegmentQuery
regular = segment_of (then_op (feature (text "cadence.regularity") gt (record { bits = 0 })) no_ops)

regular_passes : enforce_catalogue two_columns [] (text "acme") default_guardrails regular ≡ ok tt
unfolding enforce_catalogue check_tables check_table check_names check_features check_feature
    group_columns add_column insert_name first_texts has_name timed_read referenced_columns
    referenced_features get text_eq text_ltb text lookup
    package.consumer_engine.Query.Ast.References.collect_columns
    package.consumer_engine.Query.Ast.References.collect_features
regular_passes = refl

enforce_catalogue_sound_example :
    All (λ r. IsCatalogued two_columns r.system r.entity r.column) (referenced_columns regular)
    × All (IsRegistered two_columns (text "acme")) (referenced_features regular)
enforce_catalogue_sound_example =
    enforce_catalogue_sound two_columns [] (text "acme") default_guardrails regular refl
      regular_passes

abbrev counted : SegmentQuery
counted = segment_of (then_op (derive (text "n") (count orders)) no_ops)

abbrev nothing : CompiledQuery
nothing = record { sql = []; params = []; sources = [] }

abbrev got : QueryResult CompiledQuery → CompiledQuery
got (ok c) = c
got (err e) = nothing

abbrev counted_compiled : CompiledQuery
counted_compiled =
    got (compile_with_opts counted (options default_suppression (some 7) (text "acme")))

counted_compiles : compile_and_check engine counted (text "acme") ≡ ok counted_compiled
unfolding compile_and_check derive_survivor_limit enforce_catalogue has_derive strip_derive
    timed_read compile_with_opts tenant_eq raw_table base_select compile_predicate binary_cmp_symbol
    to_value text fmt join compile_derive_metric
counted_compiles = refl

compile_and_check-survivors_example :
    (n : ℕ) × IsMeasured engine counted (text "acme") n
    × (n ≤ 10)
    × (compile_with_opts counted (options default_suppression (some n) (text "acme"))
        ≡ ok counted_compiled)
    × (enforce_catalogue seven [] (text "acme") unchecked counted ≡ ok tt)
compile_and_check-survivors_example =
    compile_and_check-survivors engine counted (text "acme") counted_compiled
      (unfold has_derive in refl) counted_compiles

abbrev no_profile : Table → Table → Table → Json
no_profile m r c = Json.null

abbrev one_row : SyncResult
one_row = record {
  columns = text "count" ∷ [];
  rows = (number (positive 7) ∷ []) ∷ [];
  count = 1;
  freshness = record { worst_source = batch; lag_seconds = 0 };
  query_id = text "q_1";
}

run_sync_iff_example :
    (run_sync (λ c. 5) no_profile (text "1") (pos 200) true engine (segment_of no_ops) (text "acme")
      ≡ ok one_row)
    ↔ ((true ≡ true)
        × IsWithinBudgets
            (λ c. 5)
            no_profile
            (text "1")
            (pos 200)
            engine
            (segment_of no_ops)
            (text "acme")
            one_row)
run_sync_iff_example =
    run_sync_iff (λ c. 5) no_profile (text "1") (pos 200) true engine (segment_of no_ops)
      (text "acme") one_row (unfold has_characterize in refl)

counted_with_seven :
    compile_with_opts counted (options default_suppression (some 7) (text "acme"))
    ≡ ok counted_compiled
unfolding compile_with_opts tenant_eq raw_table base_select compile_predicate binary_cmp_symbol
    to_value text fmt join compile_derive_metric
counted_with_seven = refl

compile_with_opts-sources_read_example : counted_compiled.sources ≡ sources_read counted
compile_with_opts-sources_read_example =
    compile_with_opts-sources_read counted (options default_suppression (some 7) (text "acme"))
      counted_compiled counted_with_seven

counted_validates : validate (λ t. true) counted ≡ ok tt
unfolding validate validate_dataset validate_ident_field validate_predicate validate_value
    validate_derive validate_positions validate_ident utf8_len text
counted_validates = refl

strip_derive-with_last_example :
    (name : Text) × (metric : JitMetric) × (ops_of counted
      ≡ with_last (ops_of (strip_derive counted)) (derive name metric))
strip_derive-with_last_example =
    strip_derive-with_last (λ t. true) counted counted_validates (unfold has_derive in refl)
