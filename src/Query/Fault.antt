-- ===== src/Query/Fault.antt =====
-- crates/query/src/error.rs. Each place that builds an `InvalidDsl` message is a constructor of
-- `DslFault`; the message's text is not kept.
use consumer_engine.Prelude.{Result}
use consumer_engine.Core.Ident.{IdentError}

-- The `kind` that `validate_ident_field` puts before the message.
pub data Field : Type 0 where
  source_system source_entity key user_key ts_column event_system event_entity : Field
  predicate_column exclude_campaign_id derive_name derive_metric_column : Field
  characterize_ts_column characterize_monetary_column characterize_category_column : Field

pub data DslFault : Type 0 where
  bad_field : Field → IdentError → DslFault
  bad_feature_name : IdentError → DslFault
  bad_as_of too_many_ops bad_within_days bad_feature_op : DslFault
  value_too_long array_without_in too_many_values : DslFault
  similar_unsupported ops_after_setop ops_after_setop_m1 derive_before_narrowing derive_not_last :
      DslFault
  nesting_too_deep survivor_count_missing characterize_off_path not_characterize : DslFault
  in_requires_array unsupported_predicate_op numeric_comparison_required : DslFault
  unsupported_number scalar_required : DslFault
  column_not_catalogued feature_not_registered : DslFault
  derive_not_materialisable characterize_not_materialisable : DslFault

pub data Rule : Type 0 where
  statement_timeout max_output_rows : Rule

pub data QueryError : Type 0 where
  invalid_dsl : DslFault → QueryError
  guardrail : Rule → QueryError
  too_large : QueryError
  survivor_unbounded : QueryError
  execution : QueryError

abbrev pub QueryResult : Type 0 → Type 0
QueryResult A = Result QueryError A
