-- ===== src/Query/Ast.antt =====
-- crates/query/src/ast.rs: the segment DSL.
pub mod References
use consumer_engine.Prelude.{ℕ, suc, Option, none, some, Text}
use consumer_engine.Core.Dataset.{Dataset}
use consumer_engine.Query.Json.{Json, Double}

pub data Cmp : Type 0 where
  eq ne lt le gt ge in_list not_in like not_like : Cmp

pub record Predicate : Type 0 where
  pub column : Text
  pub op : Cmp
  pub value : Json

pub data JitMetric : Type 0 where
  count : Dataset → JitMetric
  sum avg min max : Dataset → Text → JitMetric

pub data SetOpKind : Type 0 where
  intersect union minus : SetOpKind

-- The fields that `Recency` and `Lapsed` share.
pub record EventWindow : Type 0 where
  pub event : Dataset
  pub user_key : Text
  pub ts_column : Text
  pub within_days : ℕ
  pub predicate : Option Predicate

pub record Profile : Type 0 where
  pub event : Dataset
  pub ts_column : Text
  pub monetary_column : Text
  pub category_column : Text

-- `segment source key ops as_of`; `ops: Vec<Op>` holds segments, so it is a type of the block.
mutual
  pub data SegmentQuery : Type 0 where
    segment : Dataset → Text → Ops → Option Text → SegmentQuery

  pub data Ops : Type 0 where
    no_ops : Ops
    then_op : Op → Ops → Ops

  pub data Op : Type 0 where
    filter : Predicate → Op
    recency : EventWindow → Op
    lapsed : EventWindow → Op
    set_op : SetOpKind → SegmentQuery → Op
    exclude : Text → Op
    feature : Text → Cmp → Double → Op
    derive : Text → JitMetric → Op
    similar : Op
    characterize : Profile → Op

abbrev pub source_of : SegmentQuery → Dataset
source_of (segment source key ops as_of) = source

abbrev pub key_of : SegmentQuery → Text
key_of (segment source key ops as_of) = key

abbrev pub ops_of : SegmentQuery → Ops
ops_of (segment source key ops as_of) = ops

abbrev pub as_of_of : SegmentQuery → Option Text
as_of_of (segment source key ops as_of) = as_of

-- `q.ops.len()`
abbrev pub count_ops : Ops → ℕ
count_ops no_ops = 0
count_ops (then_op op rest) = suc (count_ops rest)

-- The event relation of a metric, and the column that it names.
abbrev pub metric_event : JitMetric → Dataset
metric_event (count event) = event
metric_event (sum event column) = event
metric_event (avg event column) = event
metric_event (min event column) = event
metric_event (max event column) = event

abbrev pub metric_column : JitMetric → Option Text
metric_column (count event) = none
metric_column (sum event column) = some column
metric_column (avg event column) = some column
metric_column (min event column) = some column
metric_column (max event column) = some column
