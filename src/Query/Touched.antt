-- ===== src/Query/Touched.antt =====
-- The datasets that a compiled query says it reads (crates/query/src/compiler.rs); the freshness of
-- the answer is taken over them.
pub mod Compiled
use consumer_engine.Prelude.{List, [], ◌∷◌, ◌++◌}
use consumer_engine.Core.Dataset.{Dataset}
use consumer_engine.Query.Ast.{
  SegmentQuery, segment, Ops, no_ops, then_op, Op, recency, lapsed, set_op, derive, metric_event,
}

-- A description apart from the compiler: the source, then what each op names, up to a `Derive`.
unfoldable mutual
  pub sources_read : SegmentQuery → List Dataset
  sources_read (segment source key ops as_of) = source ∷ ops_read ops

  pub ops_read : Ops → List Dataset
  ops_read no_ops = []
  ops_read (then_op (derive name metric) rest) = metric_event metric ∷ []
  ops_read (then_op op rest) = op_read op ++ ops_read rest

  pub op_read : Op → List Dataset
  op_read (recency w) = w.event ∷ []
  op_read (lapsed w) = w.event ∷ []
  op_read (set_op kind other) = sources_read other
  op_read _ = []
