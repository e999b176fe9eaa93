-- ===== src/Query/Validate/WellFormed.antt =====
-- What crates/query/src/parse.rs is to accept, as a predicate with no run of the validator in it.
use consumer_engine.Prelude.{
  ◌≤◌, ◌≡◌, Bool, true, false, Option, none, some, ◌∷◌, ◌++◌, Text, utf8_len,
}
use consumer_engine.Core.Dataset.{Dataset}
use consumer_engine.Core.Ident.Laws.{IsIdent}
use consumer_engine.Query.Json.{Json, string, array, Items, no_items, item, count_items}
use consumer_engine.Query.Ast.{
  Cmp, Predicate, metric_event, metric_column, EventWindow, Profile, SegmentQuery, segment, Ops,
  no_ops, then_op, Op, filter, recency, lapsed, set_op, exclude, feature, derive, similar,
  characterize, count_ops,
}
use consumer_engine.Query.Validate.{
  max_ops, max_pred_value_bytes, max_in_values, max_within_days, is_in, is_numeric_cmp,
}

abbrev pub IsDataset : Dataset → Type 0
IsDataset d = IsIdent d.system × IsIdent d.entity

-- In a list no value is a list, and no text is too long.
abbrev pub ItemFits : Json → Type 0
ItemFits (string s) = utf8_len s ≤ max_pred_value_bytes
ItemFits (array xs) = ⊥
ItemFits _ = Unit

abbrev pub ItemsFit : Items → Type 0
ItemsFit no_items = Unit
ItemsFit (item x xs) = ItemFits x × ItemsFit xs

-- A list goes with `in` or `notIn`.
abbrev pub ValueFits : Json → Cmp → Type 0
ValueFits (string s) op = utf8_len s ≤ max_pred_value_bytes
ValueFits (array xs) op = (is_in op ≡ true) × (count_items xs ≤ max_in_values) × ItemsFit xs
ValueFits _ op = Unit

abbrev pub IsPredicate : Predicate → Type 0
IsPredicate p = IsIdent p.column × ValueFits p.value p.op

abbrev pub IsPredicate? : Option Predicate → Type 0
IsPredicate? none = Unit
IsPredicate? (some p) = IsPredicate p

abbrev pub IsWindow : EventWindow → Type 0
IsWindow w =
    IsDataset w.event
    × IsIdent w.user_key
    × IsIdent w.ts_column
    × (1 ≤ w.within_days)
    × (w.within_days ≤ max_within_days)
    × IsPredicate? w.predicate

abbrev pub IsNamespaced : Text → Type 0
IsNamespaced name =
    (family : Text) × (short : Text) × (name ≡ family ++ b'.' ∷ short)
    × IsIdent family
    × IsIdent short

abbrev pub IsColumn? : Option Text → Type 0
IsColumn? none = Unit
IsColumn? (some c) = IsIdent c

abbrev pub IsProfile : Profile → Type 0
IsProfile p =
    IsDataset p.event × IsIdent p.ts_column × IsIdent p.monetary_column × IsIdent p.category_column

-- `narrowed` says whether a narrowing op stands before. A set operation is the last op; a metric or
-- a profile is the last op and stands behind a narrowing one.
abbrev pub IsPlaced : Bool → Ops → Type 0
IsPlaced narrowed no_ops = Unit
IsPlaced narrowed (then_op (set_op k other) rest) = rest ≡ no_ops
IsPlaced narrowed (then_op (derive n m) rest) = (narrowed ≡ true) × (rest ≡ no_ops)
IsPlaced narrowed (then_op (characterize p) rest) = (narrowed ≡ true) × (rest ≡ no_ops)
IsPlaced narrowed (then_op similar rest) = ⊥
IsPlaced narrowed (then_op _ rest) = IsPlaced true rest

module _ (is_rfc3339 : Text → Bool) where
  abbrev pub IsAsOf : Option Text → Type 0
  IsAsOf none = Unit
  IsAsOf (some as_of) = is_rfc3339 as_of ≡ true

  abbrev mutual
    pub IsWellFormed : SegmentQuery → Type 0
    IsWellFormed (segment source key ops as_of) =
        IsDataset source
        × IsIdent key
        × IsAsOf as_of
        × (count_ops ops ≤ max_ops)
        × AreWellFormed ops
        × IsPlaced false ops

    pub AreWellFormed : Ops → Type 0
    AreWellFormed no_ops = Unit
    AreWellFormed (then_op op rest) = IsWellFormedOp op × AreWellFormed rest

    pub IsWellFormedOp : Op → Type 0
    IsWellFormedOp (filter p) = IsPredicate p
    IsWellFormedOp (recency w) = IsWindow w
    IsWellFormedOp (lapsed w) = IsWindow w
    IsWellFormedOp (set_op k other) = IsWellFormed other
    IsWellFormedOp (exclude campaign_id) = IsIdent campaign_id
    IsWellFormedOp (feature name op value) = IsNamespaced name × (is_numeric_cmp op ≡ true)
    IsWellFormedOp (derive name metric) =
        IsIdent name × IsDataset (metric_event metric) × IsColumn? (metric_column metric)
    IsWellFormedOp (characterize p) = IsProfile p
    IsWellFormedOp similar = ⊥
