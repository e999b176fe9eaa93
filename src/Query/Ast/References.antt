-- ===== src/Query/Ast/References.antt =====
-- The second half of crates/query/src/ast.rs: the raw columns and the features that a segment names,
-- for the catalogue check. `out: &mut Vec<_>` is threaded through.
use consumer_engine.Prelude.{Option, none, some, List, [], ◌∷◌, ◌++◌, Text, text}
use consumer_engine.Core.Dataset.{Dataset}
use consumer_engine.Query.Ast.{
  Predicate, EventWindow, Profile, metric_event, metric_column, SegmentQuery, segment, Ops, no_ops,
  then_op, Op, filter, recency, lapsed, set_op, exclude, feature, derive, similar, characterize,
}

pub record ReferencedColumn : Type 0 where
  pub system : Text
  pub entity : Text
  pub column : Text

abbrev pub column_of : Dataset → Text → ReferencedColumn
column_of d column = record { system = d.system; entity = d.entity; column = column }

abbrev pub predicate_columns : Dataset → Option Predicate → List ReferencedColumn
predicate_columns d none = []
predicate_columns d (some p) = column_of d p.column ∷ []

abbrev pub window_columns : EventWindow → List ReferencedColumn
window_columns w =
    column_of w.event w.user_key
    ∷ column_of w.event w.ts_column
    ∷ predicate_columns w.event w.predicate

abbrev pub metric_columns : Dataset → Option Text → List ReferencedColumn
metric_columns d none = column_of d (text "user_id") ∷ []
metric_columns d (some c) = column_of d (text "user_id") ∷ column_of d c ∷ []

abbrev pub profile_columns : Profile → List ReferencedColumn
profile_columns p =
    column_of p.event (text "user_id")
    ∷ column_of p.event p.ts_column
    ∷ column_of p.event p.monetary_column
    ∷ column_of p.event p.category_column
    ∷ []

unfoldable mutual
  pub collect_columns : SegmentQuery → List ReferencedColumn → List ReferencedColumn
  collect_columns (segment source key ops as_of) out =
      collect_ops_columns source ops (out ++ column_of source key ∷ [])

  pub collect_ops_columns : Dataset → Ops → List ReferencedColumn → List ReferencedColumn
  collect_ops_columns source no_ops out = out
  collect_ops_columns source (then_op op rest) out =
      collect_ops_columns source rest (collect_op_columns source op out)

  pub collect_op_columns : Dataset → Op → List ReferencedColumn → List ReferencedColumn
  collect_op_columns source (filter p) out = out ++ column_of source p.column ∷ []
  collect_op_columns source (recency w) out = out ++ window_columns w
  collect_op_columns source (lapsed w) out = out ++ window_columns w
  collect_op_columns source (set_op k other) out = collect_columns other out
  collect_op_columns source (derive n m) out =
      out ++ metric_columns (metric_event m) (metric_column m)
  collect_op_columns source (characterize p) out = out ++ profile_columns p
  collect_op_columns source (feature n c v) out = out
  collect_op_columns source (exclude c) out = out
  collect_op_columns source similar out = out

unfoldable pub referenced_columns : SegmentQuery → List ReferencedColumn
unfolding collect_columns
referenced_columns q = collect_columns q []

unfoldable mutual
  pub collect_features : SegmentQuery → List Text → List Text
  collect_features (segment source key ops as_of) out = collect_ops_features ops out

  pub collect_ops_features : Ops → List Text → List Text
  collect_ops_features no_ops out = out
  collect_ops_features (then_op op rest) out =
      collect_ops_features rest (collect_op_features op out)

  pub collect_op_features : Op → List Text → List Text
  collect_op_features (feature name c v) out = out ++ name ∷ []
  collect_op_features (set_op k other) out = collect_features other out
  collect_op_features (filter p) out = out
  collect_op_features (recency w) out = out
  collect_op_features (lapsed w) out = out
  collect_op_features (exclude c) out = out
  collect_op_features (derive n m) out = out
  collect_op_features (characterize p) out = out
  collect_op_features similar out = out

unfoldable pub referenced_features : SegmentQuery → List Text
unfolding collect_features
referenced_features q = collect_features q []
