-- ===== src/Tests/Segments.antt =====
-- Segments, validated, compiled and bound.
use consumer_engine.Prelude.{
  ◌≡◌, refl, ◌↔◌, Bool, true, none, some, [], ◌∷◌, Text, text, fmt, join, utf8_len, ok, err,
}
use consumer_engine.Core.Dataset.{Dataset}
use consumer_engine.Core.Config.{default_suppression}
use consumer_engine.Core.Ident.{validate_ident, split_once, split_feature_name}
use consumer_engine.Query.Json.{Json, string, array, item, no_items, Value, text_value}
use consumer_engine.Query.Ast.{
  SegmentQuery, segment, Ops, no_ops, then_op, Op, filter, lapsed, set_op, feature, union, eq,
  in_list, gt, count, derive,
}
use consumer_engine.Query.Fault.{invalid_dsl, derive_before_narrowing}
use consumer_engine.Query.Validate.{
  validate, validate_dataset, validate_window, validate_ident_field, validate_predicate,
  validate_predicate?, validate_value, validate_feature, validate_positions, validate_derive,
}
use consumer_engine.Query.Validate.WellFormed.{IsWellFormed}
use consumer_engine.Query.Validate.Decides.{validate-iff-IsWellFormed}
use consumer_engine.Query.Compiler.Types.{CompileOptions, to_value}
use consumer_engine.Query.Compiler.Pieces.{tenant_eq, raw_table, base_select, binary_cmp_symbol}
use consumer_engine.Query.Compiler.Predicates.{compile_predicate}
use consumer_engine.Query.Compiler.Segments.{compile_with_opts, max_levels}
use consumer_engine.Query.Inlined.Segments.{inlined_at}
use consumer_engine.Query.Binding.Compiled.{bound, written, compile_with_opts-binds}

abbrev orders : Dataset
orders = record { system = text "erp"; entity = text "orders" }

abbrev sku_is : Json → Op
sku_is v = filter (record { column = text "sku"; op = eq; value = v })

abbrev sku_in : Op
sku_in = filter (record {
  column = text "sku";
  op = in_list;
  value = array (item (string (text "A?")) (item (string (text "B")) no_items));
})

abbrev lapsed_30 : Op
lapsed_30 = lapsed (record {
  event = orders;
  user_key = text "user_id";
  ts_column = text "ts";
  within_days = 30;
  predicate = some (record { column = text "sku"; op = eq; value = string (text "A") });
})

abbrev orders_q : Ops → SegmentQuery
orders_q ops = segment orders (text "user_id") ops none

-- A filter, a lapsed window, a feature, and the union with another segment.
abbrev sample : SegmentQuery
sample = orders_q (
    then_op sku_in (
      then_op lapsed_30 (
        then_op (feature (text "cadence.regularity") gt (record { bits = 4604480259023595110 })) (
          then_op (set_op union (orders_q (then_op (sku_is (string (text "C"))) no_ops))) no_ops))))

abbrev any_time : Text → Bool
any_time t = true

abbrev options : CompileOptions
options = record {
  alias = text "dro";
  suppression = default_suppression;
  derive_limit = none;
  tenant = text "acme";
}

-- A literal that has a `?` of its own, which a second pass over the text would take for another.
abbrev quoted : Value → Text
quoted (text_value t) = fmt (text "'" ∷ t ∷ text "'" ∷ [])
quoted _ = text "?"

sample_validates : validate any_time sample ≡ ok tt
unfolding validate validate_dataset validate_window validate_ident_field validate_predicate
    validate_predicate? validate_value validate_feature validate_positions validate_ident
    split_feature_name split_once utf8_len text
sample_validates = refl

derive_first :
    validate any_time (orders_q (then_op (derive (text "n") (count orders)) no_ops))
    ≡ err (invalid_dsl derive_before_narrowing)
unfolding validate validate_dataset validate_ident_field validate_derive validate_positions
    validate_ident text
derive_first = refl

small_sql :
    bound quoted
      (compile_with_opts (orders_q (then_op (sku_is (string (text "A"))) no_ops)) options)
    ≡ ok (
        some (
          text
            "SELECT DISTINCT base.user_id FROM dro.raw_erp_orders base WHERE base.tenant_id = 'acme' AND base.sku = 'A'"))
unfolding compile_with_opts tenant_eq raw_table base_select compile_predicate binary_cmp_symbol
    to_value text fmt join package.consumer_engine.Query.Binding.bind_params
small_sql = refl

validate-iff-IsWellFormed_example :
    (validate any_time sample ≡ ok tt) ↔ IsWellFormed any_time sample
validate-iff-IsWellFormed_example = validate-iff-IsWellFormed any_time sample

compile_with_opts-binds_example :
    bound quoted (compile_with_opts sample options)
    ≡ written (inlined_at quoted max_levels options sample)
compile_with_opts-binds_example =
    compile_with_opts-binds quoted any_time sample options sample_validates (unfold text in refl)
