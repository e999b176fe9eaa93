-- ===== src/Query/Validate/Decides.antt =====
-- The validator of crates/query/src/parse.rs accepts the well-formed segments and no other.
use native.Mathlib.Nat.{zero-add}
use consumer_engine.Prelude.{
  ℕ, suc, ◌+◌, ◌≡◌, refl, ◌↔◌, Bool, true, false, Option, none, some, Text, ok, leb→le, le→leb,
  ◌==◌, arith,
}
use consumer_engine.Core.Ident.Laws.{IsIdent}
use consumer_engine.Query.Ast.{
  JitMetric, metric_event, metric_column, SegmentQuery, segment, Ops, no_ops, then_op, Op, filter,
  recency, lapsed, set_op, exclude, feature, derive, similar, characterize, count_ops,
}
use consumer_engine.Query.Validate.{
  validate_derive, validate_positions_from, validate_positions, validate_as_of, validate,
  validate_ops, validate_op,
}
use consumer_engine.Query.Validate.WellFormed.{
  IsDataset, IsColumn?, IsPlaced, IsAsOf, IsWellFormed, AreWellFormed, IsWellFormedOp,
}
use consumer_engine.Query.Validate.Parts.{
  seq_ok, ok_seq, require_sound, field_sound, field_complete, dataset_sound, dataset_complete,
  predicate_sound, predicate_complete, IsWindow-sound, window_complete, feature_sound,
  feature_complete, IsColumn?-sound, IsColumn?-complete, profile_sound, profile_complete,
}

shift : (i : ℕ) (rest : Ops) → i + suc (count_ops rest) ≡ suc i + count_ops rest
shift i rest = omega arith

no_more : (i : ℕ) (rest : Ops) → (suc i == i + suc (count_ops rest)) ≡ true → rest ≡ no_ops
no_more i no_ops h = refl
no_more i (then_op op rest) h = absurd (ground arith)

last : (i : ℕ) → (suc i == i + 1) ≡ true
last i = ground arith

positions_sound :
    (i : ℕ) (b : Bool) (ops : Ops)
    → validate_positions_from (i + count_ops ops) i b ops ≡ ok tt
    → IsPlaced b ops
unfolding validate_positions_from
positions_sound i b no_ops h = tt
positions_sound i b (then_op (filter p) rest) h =
    positions_sound (suc i) true rest (rw (← shift i rest) h)
positions_sound i b (then_op (recency p) rest) h =
    positions_sound (suc i) true rest (rw (← shift i rest) h)
positions_sound i b (then_op (lapsed p) rest) h =
    positions_sound (suc i) true rest (rw (← shift i rest) h)
positions_sound i b (then_op (feature n c v) rest) h =
    positions_sound (suc i) true rest (rw (← shift i rest) h)
positions_sound i b (then_op (exclude c) rest) h =
    positions_sound (suc i) true rest (rw (← shift i rest) h)
positions_sound i b (then_op (set_op k other) rest) h =
    no_more i rest (require_sound _ _ (seq_ok _ _ h).0)
positions_sound i b (then_op (derive n m) rest) h =
    let (p, q) = seq_ok _ _ h in (require_sound _ _ p, no_more i rest (require_sound _ _ q))
positions_sound i b (then_op (characterize c) rest) h =
    let (p, q) = seq_ok _ _ h in (require_sound _ _ p, no_more i rest (require_sound _ _ q))
positions_sound i b (then_op similar rest) h = cc

from_next :
    (i : ℕ) (rest : Ops)
    → validate_positions_from (suc i + count_ops rest) (suc i) true rest ≡ ok tt
    → validate_positions_from (i + suc (count_ops rest)) (suc i) true rest ≡ ok tt
from_next i rest h = rw (shift i rest) h

positions_complete :
    (i : ℕ) (b : Bool) (ops : Ops)
    → IsPlaced b ops
    → validate_positions_from (i + count_ops ops) i b ops ≡ ok tt
unfolding validate_positions_from
positions_complete i b no_ops h = refl
positions_complete i b (then_op (filter p) rest) h =
    from_next i rest (positions_complete (suc i) true rest h)
positions_complete i b (then_op (recency p) rest) h =
    from_next i rest (positions_complete (suc i) true rest h)
positions_complete i b (then_op (lapsed p) rest) h =
    from_next i rest (positions_complete (suc i) true rest h)
positions_complete i b (then_op (feature n c v) rest) h =
    from_next i rest (positions_complete (suc i) true rest h)
positions_complete i b (then_op (exclude c) rest) h =
    from_next i rest (positions_complete (suc i) true rest h)
positions_complete i b (then_op (set_op k other) rest) h = rw (h, last i)
positions_complete i b (then_op (derive n m) rest) h = rw (h.0, h.1, last i)
positions_complete i b (then_op (characterize c) rest) h = rw (h.0, h.1, last i)
positions_complete i b (then_op similar rest) h = elim h [ ]

derive_sound :
    (name : Text) (metric : JitMetric)
    → validate_derive name metric ≡ ok tt
    → IsIdent name × IsDataset (metric_event metric) × IsColumn? (metric_column metric)
unfolding validate_derive
derive_sound name metric h =
    let (n, h1) = seq_ok _ _ h in
    let (d, c) = seq_ok _ _ h1 in
    (field_sound name _ n, dataset_sound _ d, IsColumn?-sound (metric_column metric) c)

derive_complete :
    (name : Text) (metric : JitMetric)
    → IsIdent name × IsDataset (metric_event metric) × IsColumn? (metric_column metric)
    → validate_derive name metric ≡ ok tt
unfolding validate_derive
derive_complete name metric h =
    ok_seq (field_complete name _ h.0)
      (ok_seq (dataset_complete _ h.1) (IsColumn?-complete (metric_column metric) h.2))

module _ (is_rfc3339 : Text → Bool) where
  IsAsOf-sound : (o : Option Text) → validate_as_of is_rfc3339 o ≡ ok tt → IsAsOf is_rfc3339 o
  IsAsOf-sound none h = tt
  IsAsOf-sound (some t) h = require_sound _ _ h

  IsAsOf-complete : (o : Option Text) → IsAsOf is_rfc3339 o → validate_as_of is_rfc3339 o ≡ ok tt
  IsAsOf-complete none h = refl
  IsAsOf-complete (some t) h = rw h

  mutual
    unfolding validate validate_positions

    query_sound : (q : SegmentQuery) → validate is_rfc3339 q ≡ ok tt → IsWellFormed is_rfc3339 q
    query_sound (segment source key ops as_of) h =
        let (s, h1) = seq_ok _ _ h in
        let (e, h2) = seq_ok _ _ h1 in
        let (k, h3) = seq_ok _ _ h2 in
        let (a, h4) = seq_ok _ _ h3 in
        let (n, h5) = seq_ok _ _ h4 in
        let (o, p) = seq_ok _ _ h5 in
        (
          (field_sound _ _ s, field_sound _ _ e),
          field_sound _ _ k,
          IsAsOf-sound as_of a,
          leb→le _ _ (require_sound _ _ n),
          ops_sound ops o,
          positions_sound 0 false ops (rw zero-add p),
        )

    ops_sound : (ops : Ops) → validate_ops is_rfc3339 ops ≡ ok tt → AreWellFormed is_rfc3339 ops
    ops_sound no_ops h = tt
    ops_sound (then_op op rest) h =
        let (p, q) = seq_ok (validate_op is_rfc3339 op) _ h in (op_sound op p, ops_sound rest q)

    op_sound : (op : Op) → validate_op is_rfc3339 op ≡ ok tt → IsWellFormedOp is_rfc3339 op
    op_sound (filter p) h = predicate_sound p h
    op_sound (recency w) h = IsWindow-sound w h
    op_sound (lapsed w) h = IsWindow-sound w h
    op_sound (set_op k other) h = query_sound other h
    op_sound (exclude c) h = field_sound c _ h
    op_sound (feature name op value) h = feature_sound name op h
    op_sound (derive name metric) h = derive_sound name metric h
    op_sound (characterize p) h = profile_sound p h
    op_sound similar h = cc

  mutual
    unfolding validate validate_positions

    query_complete : (q : SegmentQuery) → IsWellFormed is_rfc3339 q → validate is_rfc3339 q ≡ ok tt
    query_complete (segment source key ops as_of) h = ok_seq (field_complete _ _ h.0.0) (
        ok_seq (field_complete _ _ h.0.1) (
          ok_seq (field_complete _ _ h.1) (
            ok_seq (IsAsOf-complete as_of h.2) (
              ok_seq (rw (le→leb _ _ h.3)) (
                ok_seq (ops_complete ops h.4)
                  (rw zero-add at (positions_complete 0 false ops h.5)))))))

    ops_complete : (ops : Ops) → AreWellFormed is_rfc3339 ops → validate_ops is_rfc3339 ops ≡ ok tt
    ops_complete no_ops h = refl
    ops_complete (then_op op rest) h = ok_seq (op_complete op h.0) (ops_complete rest h.1)

    op_complete : (op : Op) → IsWellFormedOp is_rfc3339 op → validate_op is_rfc3339 op ≡ ok tt
    op_complete (filter p) h = predicate_complete p h
    op_complete (recency w) h = window_complete w h
    op_complete (lapsed w) h = window_complete w h
    op_complete (set_op k other) h = query_complete other h
    op_complete (exclude c) h = field_complete c _ h
    op_complete (feature name op value) h = feature_complete name op h.0 h.1
    op_complete (derive name metric) h = derive_complete name metric h
    op_complete (characterize p) h = profile_complete p h
    op_complete similar h = elim h [ ]

  -- `validate` returns Ok exactly on the well-formed segments: identifiers of 1 to 64 letters, digits
  -- and underscores in every place, `asOf` parseable, at most 32 ops, values and windows in their
  -- bounds, feature names of two identifiers, and each op in a place where it may stand, in the
  -- segment and in every segment inside it.
  pub validate-iff-IsWellFormed :
      (q : SegmentQuery) → (validate is_rfc3339 q ≡ ok tt) ↔ IsWellFormed is_rfc3339 q
  validate-iff-IsWellFormed q = (query_sound q, query_complete q)
