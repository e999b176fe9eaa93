-- ===== src/Query/Compiler/Events.antt =====
-- `Recency` and `Lapsed` (crates/query/src/compiler.rs).
use consumer_engine.Prelude.{
  ℕ, Option, none, some, List, [], ◌∷◌, ◌++◌, Text, text, fmt, join, to_decimal, ok, ◌>>=◌,
}
use consumer_engine.Query.Json.{Value}
use consumer_engine.Query.Ast.{Predicate, EventWindow}
use consumer_engine.Query.Fault.{QueryResult}
use consumer_engine.Query.Compiler.Types.{Rendered}
use consumer_engine.Query.Compiler.Pieces.{raw_table, tenant_eq}
use consumer_engine.Query.Compiler.Predicates.{compile_predicate}

-- The conjuncts of an event subquery: the join to the base, the tenant, the predicate, the window.
abbrev pub with_predicate : Option Predicate → List Value → QueryResult (List Text × List Value)
with_predicate none params = ok ([], params)
with_predicate (some p) params = do
  (c, params') ← compile_predicate (text "e") p params
  ok (c ∷ [], params')

abbrev pub window_bound : Text → Text → ℕ → Text
window_bound ts_column symbol within_days = fmt (
    text "CAST(e."
    ∷ ts_column
    ∷ text " AS TIMESTAMP) "
    ∷ symbol
    ∷ text " CAST(now() AS TIMESTAMP) - INTERVAL '"
    ∷ to_decimal within_days
    ∷ text "' DAY"
    ∷ [])

abbrev pub join_key : Text → Text → Text
join_key user_key base_key = fmt (text "e." ∷ user_key ∷ text " = base." ∷ base_key ∷ [])

-- `before_parts`, `recent_parts` and `where_parts`, joined
unfoldable pub event_where : Text → EventWindow → Text → List Value → Text → QueryResult Rendered
event_where symbol w base_key params tenant = do
  let t = tenant_eq (text "e") params tenant
  (cs, params') ← with_predicate w.predicate t.1
  ok (
    join (text " AND ") (
        join_key w.user_key base_key
        ∷ t.0
        ∷ (cs ++ window_bound w.ts_column symbol w.within_days ∷ [])),
    params',
  )

unfoldable pub compile_recency :
    EventWindow → Text → List Value → Text → Text → QueryResult Rendered
compile_recency w base_key params alias tenant = do
  (parts, params') ← event_where (text ">=") w base_key params tenant
  ok (
    fmt (
        text "EXISTS (SELECT 1 FROM "
        ∷ raw_table w.event alias
        ∷ text " e WHERE "
        ∷ parts
        ∷ text ")"
        ∷ []),
    params',
  )

unfoldable pub compile_lapsed : EventWindow → Text → List Value → Text → Text → QueryResult Rendered
compile_lapsed w base_key params alias tenant = do
  (before, params') ← event_where (text "<") w base_key params tenant
  (recent, params'') ← event_where (text ">=") w base_key params' tenant
  ok (
    fmt (
        text "EXISTS (SELECT 1 FROM "
        ∷ raw_table w.event alias
        ∷ text " e WHERE "
        ∷ before
        ∷ text ") AND NOT EXISTS (SELECT 1 FROM "
        ∷ raw_table w.event alias
        ∷ text " e WHERE "
        ∷ recent
        ∷ text ")"
        ∷ []),
    params'',
  )
