-- ===== src/Query/Inlined/Segments.antt =====
-- A whole segment, with its values in place.
use consumer_engine.Prelude.{
  ℕ, zero, suc, Option, List, [], ◌∷◌, ◌++◌, Text, text, fmt, ok, err, ◌>>=◌,
}
use consumer_engine.Core.Dataset.{Dataset}
use consumer_engine.Query.Json.{Value}
use consumer_engine.Query.Ast.{
  SegmentQuery, segment, Ops, no_ops, then_op, Op, SetOpKind, filter, recency, lapsed, set_op,
  exclude, feature, derive, characterize,
}
use consumer_engine.Query.Fault.{
  invalid_dsl, QueryResult, ops_after_setop_m1, nesting_too_deep, characterize_off_path,
  similar_unsupported,
}
use consumer_engine.Query.Compiler.Types.{CompileOptions}
use consumer_engine.Query.Compiler.Pieces.{base_select, setop_keyword}
use consumer_engine.Query.Compiler.Metrics.{survivor_cte}
use consumer_engine.Query.Compiler.Segments.{survivor_limit}
use consumer_engine.Query.Inlined.Conjuncts.{
  tenant_is, inlined_predicate, inlined_recency, inlined_lapsed, inlined_exclude, inlined_feature,
  inlined_metric,
}

pub data InlinedOutcome : Type 0 where
  returned : Text → InlinedOutcome
  plain : List Text → InlinedOutcome
  combined : List Text → SetOpKind → SegmentQuery → InlinedOutcome

abbrev pub inlined_after_setop :
    List Text → SetOpKind → SegmentQuery → Ops → QueryResult InlinedOutcome
inlined_after_setop cs kind other no_ops = ok (combined cs kind other)
inlined_after_setop cs kind other (then_op op rest) = err (invalid_dsl ops_after_setop_m1)

module _ (render : Value → Text) where
  module _ (source : Dataset) (key : Text) (as_of : Option Text) (opts : CompileOptions) where
    unfoldable pub inlined_op : Op → QueryResult Text
    inlined_op (filter p) = inlined_predicate render (text "base") p
    inlined_op (recency w) = inlined_recency render w key opts.alias opts.tenant
    inlined_op (lapsed w) = inlined_lapsed render w key opts.alias opts.tenant
    inlined_op (feature name op value) =
        inlined_feature render name op value key opts.alias opts.tenant as_of
    inlined_op (exclude campaign_id) = inlined_exclude render campaign_id key opts
    inlined_op (characterize p) = err (invalid_dsl characterize_off_path)
    inlined_op _ = err (invalid_dsl similar_unsupported)

    unfoldable pub inlined_ops : Ops → List Text → QueryResult InlinedOutcome
    unfolding inlined_op
    inlined_ops no_ops cs = ok (plain cs)
    inlined_ops (then_op (set_op kind other) rest) cs = inlined_after_setop cs kind other rest
    inlined_ops (then_op (derive name metric) rest) cs =
        survivor_limit opts.derive_limit >>= λ limit. ok (
          returned (
            inlined_metric render (survivor_cte source key cs opts.alias limit) name metric
              opts.alias opts.tenant))
    inlined_ops (then_op op rest) cs = inlined_op op >>= λ c. inlined_ops rest (cs ++ c ∷ [])

  abbrev pub inlined_finish :
      (SegmentQuery → QueryResult Text)
      → Dataset
      → Text
      → CompileOptions
      → InlinedOutcome
      → QueryResult Text
  inlined_finish recurse source key opts (returned t) = ok t
  inlined_finish recurse source key opts (plain cs) = ok (base_select source key cs opts.alias)
  inlined_finish recurse source key opts (combined cs kind other) = recurse other >>= λ t. ok (
      fmt (
        text "("
        ∷ base_select source key cs opts.alias
        ∷ text ") "
        ∷ setop_keyword kind
        ∷ text " ("
        ∷ t
        ∷ text ")"
        ∷ []))

  unfoldable pub inlined_at : ℕ → CompileOptions → SegmentQuery → QueryResult Text
  unfolding inlined_ops
  inlined_at zero opts q = err (invalid_dsl nesting_too_deep)
  inlined_at (suc levels) opts (segment source key ops as_of) =
      inlined_ops source key as_of opts ops (tenant_is render (text "base") opts.tenant ∷ [])
      >>= inlined_finish (inlined_at levels opts) source key opts
