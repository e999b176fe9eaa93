-- ===== src/Query/Compiler/Filters.antt =====
-- `Exclude` and `Feature` (crates/query/src/compiler.rs).
use consumer_engine.Prelude.{
  pos, Bool, true, false, Option, none, some, List, [], ◌∷◌, ◌++◌, Text, text, fmt, join,
  to_decimal, ok, ◌>>=◌, map_err,
}
use consumer_engine.Core.Config.{FrequencyCap}
use consumer_engine.Core.Ident.{split_feature_name}
use consumer_engine.Query.Json.{Double, Value, big_int, double, text_value}
use consumer_engine.Query.Ast.{Cmp}
use consumer_engine.Query.Fault.{invalid_dsl, QueryResult, bad_feature_name}
use consumer_engine.Query.Compiler.Types.{CompileOptions, Rendered}
use consumer_engine.Query.Compiler.Pieces.{tenant_eq, cmp_symbol}

-- The per-campaign clause, when the rule is on.
abbrev pub no_repeat_clause : Bool → Text → Text → Text → Text → List Value → List Text × List Value
no_repeat_clause false campaign_id base_key alias tenant params = ([], params)
no_repeat_clause true campaign_id base_key alias tenant params =
    let t = tenant_eq (text "s") params tenant in
    (
      fmt (
            text "NOT EXISTS (SELECT 1 FROM "
            ∷ alias
            ∷ text ".suppression s WHERE s.user_id = base."
            ∷ base_key
            ∷ text " AND "
            ∷ t.0
            ∷ text " AND s.campaign_id = ? AND s.action IN ('targeted', 'delivered'))"
            ∷ [])
          ∷ [],
      t.1 ++ text_value campaign_id ∷ [],
    )

-- The global frequency cap, when there is one.
abbrev pub cap_clause :
    Option FrequencyCap → Text → Text → Text → List Value → List Text × List Value
cap_clause none base_key alias tenant params = ([], params)
cap_clause (some cap) base_key alias tenant params = (
  fmt (
        text "NOT EXISTS (SELECT 1 FROM "
        ∷ alias
        ∷ text ".suppression s WHERE s.user_id = base."
        ∷ base_key
        ∷ text
            " AND s.tenant_id = ? AND s.action = 'targeted' AND s.occurred_ts >= CAST(CAST(now() AS TIMESTAMP) - INTERVAL '"
        ∷ to_decimal cap.window_days
        ∷ text "' DAY AS TIMESTAMPTZ) GROUP BY s.user_id HAVING count(*) >= ?)"
        ∷ [])
      ∷ [],
  params ++ text_value tenant ∷ big_int (pos cap.max_contacts) ∷ [],
)

abbrev pub exclude_text : List Text → Text
exclude_text [] = text "1=1"
exclude_text (c ∷ cs) = join (text " AND ") (c ∷ cs)

unfoldable pub compile_exclude : Text → Text → CompileOptions → List Value → QueryResult Rendered
compile_exclude campaign_id base_key opts params =
    let a =
      no_repeat_clause opts.suppression.per_campaign_no_repeat campaign_id base_key opts.alias
        opts.tenant params in
    let b = cap_clause opts.suppression.frequency_cap base_key opts.alias opts.tenant a.1 in
    ok (exclude_text (a.0 ++ b.0), b.1)

-- The point-in-time read of the EAV table, or the latest-wins wide view.
abbrev pub feature_exists :
    Option Text → Text → Text → Text → Text → Double → Text → Rendered → Text → Rendered
feature_exists (some as_of) name family short cmp value base_key t alias = (
  fmt (
      text "EXISTS (SELECT 1 FROM "
      ∷ alias
      ∷ text ".feature_store f WHERE f.user_id = base."
      ∷ base_key
      ∷ text " AND "
      ∷ t.0
      ∷ text
          " AND f.feature_name = ? AND f.as_of_ts <= CAST(? AS TIMESTAMPTZ) GROUP BY f.user_id, f.feature_name HAVING arg_max(f.num_value, f.as_of_ts) "
      ∷ cmp
      ∷ text " ?)"
      ∷ []),
  t.1 ++ text_value name ∷ text_value as_of ∷ double value ∷ [],
)
feature_exists none name family short cmp value base_key t alias = (
  fmt (
      text "EXISTS (SELECT 1 FROM "
      ∷ alias
      ∷ text ".feature_wide_"
      ∷ family
      ∷ text " f WHERE f.user_id = base."
      ∷ base_key
      ∷ text " AND "
      ∷ t.0
      ∷ text " AND f."
      ∷ short
      ∷ text " "
      ∷ cmp
      ∷ text " ?)"
      ∷ []),
  t.1 ++ double value ∷ [],
)

unfoldable pub compile_feature :
    Text → Cmp → Double → Text → List Value → Text → Text → Option Text → QueryResult Rendered
compile_feature name op value base_key params alias tenant as_of = do
  (family, short) ← map_err (λ e. invalid_dsl (bad_feature_name e)) (split_feature_name name)
  cmp ← cmp_symbol op
  ok (
      feature_exists as_of name family short cmp value base_key (tenant_eq (text "f") params tenant)
        alias)
