-- ===== src/Query/Compiler/Metrics.antt =====
-- The `Derive` metric over the survivor CTE (crates/query/src/compiler.rs).
use consumer_engine.Prelude.{ℕ, List, [], ◌∷◌, ◌++◌, Text, text, fmt, to_decimal, ok}
use consumer_engine.Core.Dataset.{Dataset}
use consumer_engine.Query.Json.{Value, text_value}
use consumer_engine.Query.Ast.{JitMetric, count, sum, avg, min, max, metric_event}
use consumer_engine.Query.Fault.{QueryResult}
use consumer_engine.Query.Compiler.Types.{Rendered}
use consumer_engine.Query.Compiler.Pieces.{raw_table, tenant_eq, where_clause}

unfoldable pub survivor_cte : Dataset → Text → List Text → Text → ℕ → Text
survivor_cte source key conjuncts alias limit = fmt (
    text "SELECT DISTINCT base."
    ∷ key
    ∷ text " AS user_id FROM "
    ∷ raw_table source alias
    ∷ text " base"
    ∷ where_clause conjuncts
    ∷ text " LIMIT "
    ∷ to_decimal limit
    ∷ [])

unfoldable pub aggregate : JitMetric → Text
aggregate (count event) = text "count(*)"
aggregate (sum event column) = fmt (text "sum(CAST(e." ∷ column ∷ text " AS DOUBLE))" ∷ [])
aggregate (avg event column) = fmt (text "avg(CAST(e." ∷ column ∷ text " AS DOUBLE))" ∷ [])
aggregate (min event column) = fmt (text "min(CAST(e." ∷ column ∷ text " AS DOUBLE))" ∷ [])
aggregate (max event column) = fmt (text "max(CAST(e." ∷ column ∷ text " AS DOUBLE))" ∷ [])

unfoldable pub compile_derive_metric :
    Text → Text → JitMetric → List Value → Text → Text → QueryResult Rendered
compile_derive_metric survivor name metric params alias tenant =
    let t = tenant_eq (text "e") (params ++ text_value name ∷ []) tenant in
    ok (
      fmt (
          text "WITH survivor AS ("
          ∷ survivor
          ∷ text ") SELECT ? AS name, "
          ∷ aggregate metric
          ∷ text " AS value FROM survivor s JOIN "
          ∷ raw_table (metric_event metric) alias
          ∷ text " e ON e.user_id = s.user_id AND "
          ∷ t.0
          ∷ []),
      t.1,
    )
