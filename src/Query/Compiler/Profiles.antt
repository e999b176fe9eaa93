-- ===== src/Query/Compiler/Profiles.antt =====
-- The three profile queries of a terminal `Characterize` (crates/query/src/compiler.rs).
use consumer_engine.Prelude.{Option, none, some, [], ◌∷◌, ◌++◌, Text, text, fmt, err, ok, ◌>>=◌}
use consumer_engine.Query.Ast.{
  Profile, SegmentQuery, segment, Ops, no_ops, then_op, Op, characterize, ops_of,
}
use consumer_engine.Query.Fault.{invalid_dsl, QueryResult, not_characterize}
use consumer_engine.Query.Compiler.Types.{CompileOptions, CompiledQuery}
use consumer_engine.Query.Compiler.Pieces.{raw_table, tenant_eq}
use consumer_engine.Query.Compiler.Segments.{compile_with_opts}

pub record CharacterizeQueries : Type 0 where
  pub metrics : CompiledQuery
  pub recency : CompiledQuery
  pub categories : CompiledQuery

-- `q.ops.last()`
unfoldable pub last_op : Ops → Option Op
last_op no_ops = none
last_op (then_op op no_ops) = some op
last_op (then_op op (then_op next rest)) = last_op (then_op next rest)

-- `take(len.saturating_sub(1))`
unfoldable pub drop_last : Ops → Ops
drop_last no_ops = no_ops
drop_last (then_op op no_ops) = no_ops
drop_last (then_op op (then_op next rest)) = then_op op (drop_last (then_op next rest))

unfoldable pub strip_last_op : SegmentQuery → SegmentQuery
unfolding drop_last
strip_last_op (segment source key ops as_of) = segment source key (drop_last ops) as_of

unfoldable pub metrics_sql : Text → Text → Text → Profile → Text
metrics_sql with_seg event_table ev_tenant p = fmt (
    with_seg
    ∷ text ", ev AS (SELECT e.user_id, CAST(e."
    ∷ p.monetary_column
    ∷ text " AS DOUBLE) AS amount, (s.user_id IS NOT NULL) AS in_seg FROM "
    ∷ event_table
    ∷ text " e LEFT JOIN segment s ON s.user_id = e.user_id WHERE "
    ∷ ev_tenant
    ∷ text
        ") SELECT (SELECT count(*) FROM segment) AS seg_users, (SELECT count(DISTINCT user_id) FROM ev) AS base_users, (SELECT sum(amount) FROM ev WHERE in_seg) * 1.0 / NULLIF((SELECT count(*) FROM ev WHERE in_seg), 0) AS seg_aov, (SELECT sum(amount) FROM ev) * 1.0 / NULLIF((SELECT count(*) FROM ev), 0) AS base_aov, (SELECT count(*) FROM ev WHERE in_seg) * 1.0 / NULLIF((SELECT count(DISTINCT user_id) FROM ev WHERE in_seg), 0) AS seg_freq, (SELECT count(*) FROM ev) * 1.0 / NULLIF((SELECT count(DISTINCT user_id) FROM ev), 0) AS base_freq, (SELECT count(*) FROM ev WHERE in_seg) AS seg_orders, (SELECT count(*) FROM ev) AS base_orders"
    ∷ [])

unfoldable pub recency_sql : Text → Text → Text → Profile → Text
recency_sql with_seg event_table ev_tenant p = fmt (
    with_seg
    ∷ text ", ev AS (SELECT e.user_id, CAST(e."
    ∷ p.ts_column
    ∷ text " AS TIMESTAMP) AS ts, (s.user_id IS NOT NULL) AS in_seg FROM "
    ∷ event_table
    ∷ text " e LEFT JOIN segment s ON s.user_id = e.user_id WHERE "
    ∷ ev_tenant
    ∷ text
        "), per_user AS (SELECT user_id, bool_or(in_seg) AS in_seg, max(ts) AS last_ts FROM ev GROUP BY user_id) SELECT avg(extract(epoch FROM (CAST(now() AS TIMESTAMP) - last_ts)) / 86400.0) FILTER (WHERE in_seg) AS seg_recency_days, avg(extract(epoch FROM (CAST(now() AS TIMESTAMP) - last_ts)) / 86400.0) AS base_recency_days FROM per_user"
    ∷ [])

unfoldable pub categories_sql : Text → Text → Text → Profile → Text
categories_sql with_seg event_table ev_tenant p = fmt (
    with_seg
    ∷ text ", ev AS (SELECT e.user_id, e."
    ∷ p.category_column
    ∷ text " AS category, (s.user_id IS NOT NULL) AS in_seg FROM "
    ∷ event_table
    ∷ text " e LEFT JOIN segment s ON s.user_id = e.user_id WHERE "
    ∷ ev_tenant
    ∷ text
        ") SELECT category, count(*) FILTER (WHERE in_seg) AS seg_n, count(*) AS base_n FROM ev GROUP BY category ORDER BY seg_n DESC LIMIT 3"
    ∷ [])

abbrev pub profile_query :
    (Text → Text → Text → Profile → Text) → Profile → CompileOptions → CompiledQuery → CompiledQuery
profile_query sql_of p opts seg =
    let t = tenant_eq (text "e") seg.params opts.tenant in
    record {
      sql =
          sql_of (fmt (text "WITH segment AS (" ∷ seg.sql ∷ text ")" ∷ []))
            (raw_table p.event opts.alias) t.0 p;
      params = t.1;
      sources = seg.sources ++ p.event ∷ [];
    }

abbrev pub profile_of : Option Op → QueryResult Profile
profile_of (some (characterize p)) = ok p
profile_of _ = err (invalid_dsl not_characterize)

unfoldable pub compile_characterize :
    SegmentQuery → CompileOptions → QueryResult CharacterizeQueries
unfolding last_op strip_last_op
compile_characterize q opts = do
  p ← profile_of (last_op (ops_of q))
  seg ← compile_with_opts (strip_last_op q) opts
  ok (record {
    metrics = profile_query metrics_sql p opts seg;
    recency = profile_query recency_sql p opts seg;
    categories = profile_query categories_sql p opts seg;
  })
