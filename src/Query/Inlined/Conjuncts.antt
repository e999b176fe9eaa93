-- ===== src/Query/Inlined/Conjuncts.antt =====
-- The conjunct of each op, with its values in place.
use consumer_engine.Prelude.{
  pos, Bool, true, false, Option, none, some, List, [], ◌∷◌, ◌++◌, Text, text, fmt, join,
  to_decimal, ok, err, ◌>>=◌, map_err, if◌then◌else◌,
}
use consumer_engine.Core.Config.{FrequencyCap}
use consumer_engine.Core.Ident.{split_feature_name}
use consumer_engine.Query.Json.{
  Json, array, Items, no_items, item, Double, Value, big_int, double, text_value,
}
use consumer_engine.Query.Ast.{
  Cmp, in_list, not_in, Predicate, EventWindow, JitMetric, metric_event,
}
use consumer_engine.Query.Fault.{
  invalid_dsl, QueryResult, in_requires_array, unsupported_predicate_op, bad_feature_name,
}
use consumer_engine.Query.Compiler.Types.{CompileOptions, to_value}
use consumer_engine.Query.Compiler.Pieces.{cmp_symbol, binary_cmp_symbol, raw_table}
use consumer_engine.Query.Compiler.Predicates.{in_keyword}
use consumer_engine.Query.Compiler.Events.{window_bound, join_key}
use consumer_engine.Query.Compiler.Filters.{exclude_text}
use consumer_engine.Query.Compiler.Metrics.{aggregate}

module _ (render : Value → Text) where
  -- A value between two pieces of text.
  abbrev pub around : Text → Value → Text → Text
  around before v after = fmt (before ∷ render v ∷ after ∷ [])

  abbrev pub tenant_is : Text → Text → Text
  tenant_is rel tenant = fmt (rel ∷ around (text ".tenant_id = ") (text_value tenant) [] ∷ [])

  unfoldable pub inlined_items : Items → QueryResult (List Text)
  inlined_items no_items = ok []
  inlined_items (item x xs) = do v ← to_value x; ts ← inlined_items xs; ok (around [] v [] ∷ ts)

  unfoldable pub inlined_in : Text → Json → Bool → QueryResult Text
  inlined_in col (array no_items) negate = ok (if negate then text "1=1" else text "1=0")
  inlined_in col (array (item x xs)) negate = do
    ts ← inlined_items (item x xs)
    ok (fmt (col ∷ in_keyword negate ∷ join (text ", ") ts ∷ text ")" ∷ []))
  inlined_in col _ negate = err (invalid_dsl in_requires_array)

  abbrev pub inlined_list_cmp : Cmp → Text → Json → QueryResult Text
  inlined_list_cmp in_list col v = inlined_in col v false
  inlined_list_cmp not_in col v = inlined_in col v true
  inlined_list_cmp _ col v = err (invalid_dsl unsupported_predicate_op)

  abbrev pub inlined_cmp : Option Text → Cmp → Text → Json → QueryResult Text
  inlined_cmp (some sym) op col value = do
    v ← to_value value
    ok (fmt (col ∷ text " " ∷ sym ∷ around (text " ") v [] ∷ []))
  inlined_cmp none op col value = inlined_list_cmp op col value

  unfoldable pub inlined_predicate : Text → Predicate → QueryResult Text
  inlined_predicate rel p =
      inlined_cmp (binary_cmp_symbol p.op) p.op (fmt (rel ∷ text "." ∷ p.column ∷ [])) p.value

  abbrev pub inlined_with_predicate : Option Predicate → QueryResult (List Text)
  inlined_with_predicate none = ok []
  inlined_with_predicate (some p) = do c ← inlined_predicate (text "e") p; ok (c ∷ [])

  unfoldable pub inlined_where : Text → EventWindow → Text → Text → QueryResult Text
  inlined_where symbol w base_key tenant = do
    cs ← inlined_with_predicate w.predicate
    ok (
        join (text " AND ") (
          join_key w.user_key base_key
          ∷ tenant_is (text "e") tenant
          ∷ (cs ++ window_bound w.ts_column symbol w.within_days ∷ [])))

  unfoldable pub inlined_recency : EventWindow → Text → Text → Text → QueryResult Text
  inlined_recency w base_key alias tenant = do
    parts ← inlined_where (text ">=") w base_key tenant
    ok (
        fmt (
          text "EXISTS (SELECT 1 FROM "
          ∷ raw_table w.event alias
          ∷ text " e WHERE "
          ∷ parts
          ∷ text ")"
          ∷ []))

  unfoldable pub inlined_lapsed : EventWindow → Text → Text → Text → QueryResult Text
  inlined_lapsed w base_key alias tenant = do
    before ← inlined_where (text "<") w base_key tenant
    recent ← inlined_where (text ">=") w base_key tenant
    ok (
        fmt (
          text "EXISTS (SELECT 1 FROM "
          ∷ raw_table w.event alias
          ∷ text " e WHERE "
          ∷ before
          ∷ text ") AND NOT EXISTS (SELECT 1 FROM "
          ∷ raw_table w.event alias
          ∷ text " e WHERE "
          ∷ recent
          ∷ text ")"
          ∷ []))

  abbrev pub inlined_no_repeat : Bool → Text → Text → Text → Text → List Text
  inlined_no_repeat false campaign_id base_key alias tenant = []
  inlined_no_repeat true campaign_id base_key alias tenant =
      fmt (
        text "NOT EXISTS (SELECT 1 FROM "
        ∷ alias
        ∷ text ".suppression s WHERE s.user_id = base."
        ∷ base_key
        ∷ text " AND "
        ∷ tenant_is (text "s") tenant
        ∷ around (text " AND s.campaign_id = ") (text_value campaign_id)
            (text " AND s.action IN ('targeted', 'delivered'))")
        ∷ [])
      ∷ []

  abbrev pub inlined_cap : Option FrequencyCap → Text → Text → Text → List Text
  inlined_cap none base_key alias tenant = []
  inlined_cap (some cap) base_key alias tenant =
      fmt (
        text "NOT EXISTS (SELECT 1 FROM "
        ∷ alias
        ∷ text ".suppression s WHERE s.user_id = base."
        ∷ base_key
        ∷ around (text " AND s.tenant_id = ") (text_value tenant) (
            text
              " AND s.action = 'targeted' AND s.occurred_ts >= CAST(CAST(now() AS TIMESTAMP) - INTERVAL '")
        ∷ to_decimal cap.window_days
        ∷ around (text "' DAY AS TIMESTAMPTZ) GROUP BY s.user_id HAVING count(*) >= ")
            (big_int (pos cap.max_contacts)) (text ")")
        ∷ [])
      ∷ []

  unfoldable pub inlined_exclude : Text → Text → CompileOptions → QueryResult Text
  inlined_exclude campaign_id base_key opts = ok (
      exclude_text (
        inlined_no_repeat opts.suppression.per_campaign_no_repeat campaign_id base_key opts.alias
          opts.tenant
        ++ inlined_cap opts.suppression.frequency_cap base_key opts.alias opts.tenant))

  abbrev pub inlined_exists :
      Option Text → Text → Text → Text → Text → Double → Text → Text → Text → Text
  inlined_exists (some as_of) name family short cmp value base_key tenant alias = fmt (
      text "EXISTS (SELECT 1 FROM "
      ∷ alias
      ∷ text ".feature_store f WHERE f.user_id = base."
      ∷ base_key
      ∷ text " AND "
      ∷ tenant_is (text "f") tenant
      ∷ fmt (
          text " AND f.feature_name = "
          ∷ render (text_value name)
          ∷ text " AND f.as_of_ts <= CAST("
          ∷ render (text_value as_of)
          ∷ text
              " AS TIMESTAMPTZ) GROUP BY f.user_id, f.feature_name HAVING arg_max(f.num_value, f.as_of_ts) "
          ∷ [])
      ∷ cmp
      ∷ around (text " ") (double value) (text ")")
      ∷ [])
  inlined_exists none name family short cmp value base_key tenant alias = fmt (
      text "EXISTS (SELECT 1 FROM "
      ∷ alias
      ∷ text ".feature_wide_"
      ∷ family
      ∷ text " f WHERE f.user_id = base."
      ∷ base_key
      ∷ text " AND "
      ∷ tenant_is (text "f") tenant
      ∷ text " AND f."
      ∷ short
      ∷ text " "
      ∷ cmp
      ∷ around (text " ") (double value) (text ")")
      ∷ [])

  unfoldable pub inlined_feature :
      Text → Cmp → Double → Text → Text → Text → Option Text → QueryResult Text
  inlined_feature name op value base_key alias tenant as_of = do
    (family, short) ← map_err (λ e. invalid_dsl (bad_feature_name e)) (split_feature_name name)
    cmp ← cmp_symbol op
    ok (inlined_exists as_of name family short cmp value base_key tenant alias)

  unfoldable pub inlined_metric : Text → Text → JitMetric → Text → Text → Text
  inlined_metric survivor name metric alias tenant = fmt (
      text "WITH survivor AS ("
      ∷ survivor
      ∷ around (text ") SELECT ") (text_value name) (text " AS name, ")
      ∷ aggregate metric
      ∷ text " AS value FROM survivor s JOIN "
      ∷ raw_table (metric_event metric) alias
      ∷ text " e ON e.user_id = s.user_id AND "
      ∷ tenant_is (text "e") tenant
      ∷ [])
