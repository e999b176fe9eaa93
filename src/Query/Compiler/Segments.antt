-- ===== src/Query/Compiler/Segments.antt =====
-- `compile_at` and the entry points of crates/query/src/compiler.rs.
use consumer_engine.Prelude.{
  ℕ, zero, suc, Option, none, some, List, [], ◌∷◌, ◌++◌, Text, text, fmt, ok, err, ◌>>=◌,
}
use consumer_engine.Core.Dataset.{Dataset}
use consumer_engine.Core.Config.{default_suppression}
use consumer_engine.Query.Json.{Value}
use consumer_engine.Query.Ast.{
  SegmentQuery, segment, Ops, no_ops, then_op, Op, SetOpKind, JitMetric, filter, recency, lapsed,
  set_op, exclude, feature, derive, characterize, metric_event,
}
use consumer_engine.Query.Fault.{
  invalid_dsl, QueryResult, ops_after_setop_m1, nesting_too_deep, survivor_count_missing,
  characterize_off_path, similar_unsupported,
}
use consumer_engine.Query.Compiler.Types.{
  CompileOptions, CompiledQuery, Rendered, read_only_catalog_alias, default_tenant,
}
use consumer_engine.Query.Compiler.Pieces.{tenant_eq, base_select, setop_keyword}
use consumer_engine.Query.Compiler.Predicates.{compile_predicate}
use consumer_engine.Query.Compiler.Events.{compile_recency, compile_lapsed}
use consumer_engine.Query.Compiler.Filters.{compile_exclude, compile_feature}
use consumer_engine.Query.Compiler.Metrics.{survivor_cte, compile_derive_metric}

-- The locals of the loop over the ops.
pub record Progress : Type 0 where
  pub params : List Value
  pub sources : List Dataset
  pub conjuncts : List Text

-- How the loop ends: a `Derive` returns at once, else the end comes, perhaps with a `SetOp` seen.
pub data Outcome : Type 0 where
  returned : CompiledQuery → Outcome
  plain : Progress → Outcome
  combined : Progress → SetOpKind → SegmentQuery → Outcome

abbrev pub push_conjunct : Progress → List Dataset → Rendered → Progress
push_conjunct st read c = record {
  params = c.1;
  sources = st.sources ++ read;
  conjuncts = st.conjuncts ++ c.0 ∷ [];
}

abbrev pub narrow : Progress → List Dataset → QueryResult Rendered → QueryResult Progress
narrow st read r = r >>= λ c. ok (push_conjunct st read c)

-- After a `SetOp` no op may follow.
abbrev pub after_setop : Progress → SetOpKind → SegmentQuery → Ops → QueryResult Outcome
after_setop st kind other no_ops = ok (combined st kind other)
after_setop st kind other (then_op op rest) = err (invalid_dsl ops_after_setop_m1)

abbrev pub survivor_limit : Option ℕ → QueryResult ℕ
survivor_limit none = err (invalid_dsl survivor_count_missing)
survivor_limit (some n) = ok n

abbrev pub finish_derive :
    Text → JitMetric → Dataset → Text → CompileOptions → Progress → QueryResult Outcome
finish_derive name metric source key opts st = do
  limit ← survivor_limit opts.derive_limit
  (sql, params) ←
      compile_derive_metric (survivor_cte source key st.conjuncts opts.alias limit) name metric
        st.params opts.alias opts.tenant
  ok (
      returned
        (record { sql = sql; params = params; sources = st.sources ++ metric_event metric ∷ [] }))

module _ (source : Dataset) (key : Text) (as_of : Option Text) (opts : CompileOptions) where
  -- What one op other than `SetOp`, `Derive` and the two unsupported adds to the locals.
  unfoldable pub compile_narrowing : Op → Progress → QueryResult Progress
  compile_narrowing (filter p) st = narrow st [] (compile_predicate (text "base") p st.params)
  compile_narrowing (recency w) st =
      narrow st (w.event ∷ []) (compile_recency w key st.params opts.alias opts.tenant)
  compile_narrowing (lapsed w) st =
      narrow st (w.event ∷ []) (compile_lapsed w key st.params opts.alias opts.tenant)
  compile_narrowing (feature name op value) st =
      narrow st [] (compile_feature name op value key st.params opts.alias opts.tenant as_of)
  compile_narrowing (exclude campaign_id) st =
      narrow st [] (compile_exclude campaign_id key opts st.params)
  compile_narrowing (characterize p) st = err (invalid_dsl characterize_off_path)
  compile_narrowing _ st = err (invalid_dsl similar_unsupported)

  -- The loop over the ops.
  unfoldable pub compile_ops : Ops → Progress → QueryResult Outcome
  unfolding compile_narrowing
  compile_ops no_ops st = ok (plain st)
  compile_ops (then_op (set_op kind other) rest) st = after_setop st kind other rest
  compile_ops (then_op (derive name metric) rest) st = finish_derive name metric source key opts st
  compile_ops (then_op op rest) st = compile_narrowing op st >>= compile_ops rest

abbrev pub combine : Text → SetOpKind → Progress → CompiledQuery → CompiledQuery
combine this_sql kind st other_c = record {
  sql = fmt (
      text "("
      ∷ this_sql
      ∷ text ") "
      ∷ setop_keyword kind
      ∷ text " ("
      ∷ other_c.sql
      ∷ text ")"
      ∷ []);
  params = st.params ++ other_c.params;
  sources = st.sources ++ other_c.sources;
}

abbrev pub base_sql : Dataset → Text → CompileOptions → Progress → Text
base_sql source key opts st = base_select source key st.conjuncts opts.alias

-- After the loop; `recurse` compiles the other side one level down.
abbrev pub finish :
    (SegmentQuery → QueryResult CompiledQuery)
    → Dataset
    → Text
    → CompileOptions
    → Outcome
    → QueryResult CompiledQuery
finish recurse source key opts (returned c) = ok c
finish recurse source key opts (plain st) =
    ok (record { sql = base_sql source key opts st; params = st.params; sources = st.sources })
finish recurse source key opts (combined st kind other) =
    recurse other >>= λ c. ok (combine (base_sql source key opts st) kind st c)

abbrev pub begin : Dataset → CompileOptions → Progress
begin source opts =
    let t = tenant_eq (text "base") [] opts.tenant in
    record { params = t.1; sources = source ∷ []; conjuncts = t.0 ∷ [] }

-- `compile_at` at depth d is `compile_at` with MAX_NESTING + 1 - d levels left, so that the guard
-- `depth > MAX_NESTING` is the clause for no level left.
unfoldable pub compile_at : ℕ → CompileOptions → SegmentQuery → QueryResult CompiledQuery
unfolding compile_ops
compile_at zero opts q = err (invalid_dsl nesting_too_deep)
compile_at (suc levels) opts (segment source key ops as_of) =
    compile_ops source key as_of opts ops (begin source opts)
    >>= finish (compile_at levels opts) source key opts

-- MAX_NESTING + 1
abbrev pub max_levels : ℕ
max_levels = 9

unfoldable pub compile_with_opts : SegmentQuery → CompileOptions → QueryResult CompiledQuery
unfolding compile_at
compile_with_opts q opts = compile_at max_levels opts q

unfoldable pub compile_with_alias : SegmentQuery → Text → QueryResult CompiledQuery
unfolding compile_with_opts
compile_with_alias q alias = compile_with_opts q (record {
  alias = alias;
  suppression = default_suppression;
  derive_limit = none;
  tenant = default_tenant;
})

unfoldable pub compile : SegmentQuery → QueryResult CompiledQuery
unfolding compile_with_opts
compile q = compile_with_opts q (record {
  alias = read_only_catalog_alias;
  suppression = default_suppression;
  derive_limit = none;
  tenant = default_tenant;
})
