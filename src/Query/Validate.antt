-- ===== src/Query/Validate.antt =====
-- crates/query/src/parse.rs, after `serde_json::from_value` has built the segment: the structural
-- validation. `chrono::DateTime::parse_from_rfc3339` is the parameter `is_rfc3339`.
pub mod WellFormed
pub mod Parts
pub mod Decides
use consumer_engine.Prelude.{
  ℕ, suc, Bool, true, false, not, ◌||◌, Option, none, some, Text, ok, err, ◌>>=◌, ◌>>◌, guard,
  map_err, ltb, leb, ◌==◌, utf8_len,
}
use consumer_engine.Core.Dataset.{Dataset}
use consumer_engine.Core.Ident.{validate_ident, split_feature_name}
use consumer_engine.Query.Json.{Json, string, array, Items, no_items, item, count_items}
use consumer_engine.Query.Ast.{
  Cmp, eq, ne, lt, le, gt, ge, in_list, not_in, Predicate, JitMetric, metric_event, metric_column,
  EventWindow, Profile, SegmentQuery, segment, Ops, no_ops, then_op, Op, filter, recency, lapsed,
  set_op, exclude, feature, derive, similar, characterize, count_ops,
}
use consumer_engine.Query.Fault.{
  Field, DslFault, bad_field, bad_feature_name, bad_as_of, too_many_ops, bad_within_days,
  bad_feature_op, value_too_long, array_without_in, too_many_values, similar_unsupported,
  ops_after_setop, derive_before_narrowing, derive_not_last, invalid_dsl, QueryResult,
}

abbrev pub max_ops : ℕ
max_ops = 32

abbrev pub max_pred_value_bytes : ℕ
max_pred_value_bytes = 4096

abbrev pub max_in_values : ℕ
max_in_values = 1024

abbrev pub max_within_days : ℕ
max_within_days = 3650

-- `return Err(invalid(..))` unless the test holds
abbrev pub require : Bool → DslFault → QueryResult (Unit {0})
require b f = guard b (invalid_dsl f)

unfoldable pub validate_ident_field : Text → Field → QueryResult (Unit {0})
validate_ident_field name kind = map_err (λ e. invalid_dsl (bad_field kind e)) (validate_ident name)

unfoldable pub validate_dataset : Dataset → QueryResult (Unit {0})
validate_dataset d = do
  validate_ident_field d.system Field.event_system
  validate_ident_field d.entity Field.event_entity

abbrev pub is_in : Cmp → Bool
is_in in_list = true
is_in not_in = true
is_in _ = false

unfoldable mutual
  pub validate_value : Json → Cmp → QueryResult (Unit {0})
  validate_value (string s) op = require (leb (utf8_len s) max_pred_value_bytes) value_too_long
  validate_value (array xs) op = do
    require (is_in op) array_without_in
    require (leb (count_items xs) max_in_values) too_many_values
    validate_items xs
  validate_value _ op = ok tt

  pub validate_items : Items → QueryResult (Unit {0})
  validate_items no_items = ok tt
  validate_items (item x xs) = do validate_value x eq; validate_items xs

unfoldable pub validate_predicate : Predicate → QueryResult (Unit {0})
validate_predicate p = do
  validate_ident_field p.column Field.predicate_column
  validate_value p.value p.op

unfoldable pub validate_predicate? : Option Predicate → QueryResult (Unit {0})
validate_predicate? none = ok tt
validate_predicate? (some p) = validate_predicate p

abbrev pub is_numeric_cmp : Cmp → Bool
is_numeric_cmp eq = true
is_numeric_cmp ne = true
is_numeric_cmp lt = true
is_numeric_cmp le = true
is_numeric_cmp gt = true
is_numeric_cmp ge = true
is_numeric_cmp _ = false

unfoldable pub validate_feature : Text → Cmp → QueryResult (Unit {0})
validate_feature name op = do
  parts ← map_err (λ e. invalid_dsl (bad_feature_name e)) (split_feature_name name)
  require (is_numeric_cmp op) bad_feature_op

abbrev pub validate_metric_column : Option Text → QueryResult (Unit {0})
validate_metric_column none = ok tt
validate_metric_column (some c) = validate_ident_field c Field.derive_metric_column

unfoldable pub validate_derive : Text → JitMetric → QueryResult (Unit {0})
validate_derive name metric = do
  validate_ident_field name Field.derive_name
  validate_dataset (metric_event metric)
  validate_metric_column (metric_column metric)

unfoldable pub validate_characterize : Profile → QueryResult (Unit {0})
validate_characterize p = do
  validate_dataset p.event
  validate_ident_field p.ts_column Field.characterize_ts_column
  validate_ident_field p.monetary_column Field.characterize_monetary_column
  validate_ident_field p.category_column Field.characterize_category_column

unfoldable pub validate_window : EventWindow → QueryResult (Unit {0})
validate_window w = do
  validate_dataset w.event
  validate_ident_field w.user_key Field.user_key
  validate_ident_field w.ts_column Field.ts_column
  require (not (w.within_days == 0 || ltb max_within_days w.within_days)) bad_within_days
  validate_predicate? w.predicate

-- The loop of `validate_positions`: `total` is `q.ops.len()`, `i` the index of the first op left.
unfoldable pub validate_positions_from : ℕ → ℕ → Bool → Ops → QueryResult (Unit {0})
validate_positions_from total i narrowing_seen no_ops = ok tt
validate_positions_from total i narrowing_seen (then_op (filter p) rest) =
    validate_positions_from total (suc i) true rest
validate_positions_from total i narrowing_seen (then_op (recency w) rest) =
    validate_positions_from total (suc i) true rest
validate_positions_from total i narrowing_seen (then_op (lapsed w) rest) =
    validate_positions_from total (suc i) true rest
validate_positions_from total i narrowing_seen (then_op (feature n c v) rest) =
    validate_positions_from total (suc i) true rest
validate_positions_from total i narrowing_seen (then_op (exclude c) rest) =
    validate_positions_from total (suc i) true rest
validate_positions_from total i narrowing_seen (then_op (set_op k other) rest) = do
  require (suc i == total) ops_after_setop
  validate_positions_from total (suc i) narrowing_seen rest
validate_positions_from total i narrowing_seen (then_op (derive n m) rest) = do
  require narrowing_seen derive_before_narrowing
  require (suc i == total) derive_not_last
validate_positions_from total i narrowing_seen (then_op (characterize p) rest) = do
  require narrowing_seen derive_before_narrowing
  require (suc i == total) derive_not_last
validate_positions_from total i narrowing_seen (then_op similar rest) =
    err (invalid_dsl similar_unsupported)

unfoldable pub validate_positions : Ops → QueryResult (Unit {0})
unfolding validate_positions_from
validate_positions ops = validate_positions_from (count_ops ops) 0 false ops

module _ (is_rfc3339 : Text → Bool) where
  abbrev pub validate_as_of : Option Text → QueryResult (Unit {0})
  validate_as_of none = ok tt
  validate_as_of (some as_of) = require (is_rfc3339 as_of) bad_as_of

  unfoldable mutual
    pub validate : SegmentQuery → QueryResult (Unit {0})
    validate (segment source key ops as_of) = do
      validate_ident_field source.system Field.source_system
      validate_ident_field source.entity Field.source_entity
      validate_ident_field key Field.key
      validate_as_of as_of
      require (leb (count_ops ops) max_ops) too_many_ops
      validate_ops ops
      validate_positions ops

    pub validate_ops : Ops → QueryResult (Unit {0})
    validate_ops no_ops = ok tt
    validate_ops (then_op op rest) = do validate_op op; validate_ops rest

    pub validate_op : Op → QueryResult (Unit {0})
    validate_op (filter p) = validate_predicate p
    validate_op (recency w) = validate_window w
    validate_op (lapsed w) = validate_window w
    validate_op (set_op k other) = validate other
    validate_op (exclude campaign_id) = validate_ident_field campaign_id Field.exclude_campaign_id
    validate_op (feature name op value) = validate_feature name op
    validate_op (derive name metric) = validate_derive name metric
    validate_op (characterize p) = validate_characterize p
    validate_op similar = err (invalid_dsl similar_unsupported)
