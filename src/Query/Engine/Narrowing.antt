-- ===== src/Query/Engine/Narrowing.antt =====
-- What `strip_derive` leaves of a validated segment (crates/query/src/engine.rs,
-- crates/query/src/parse.rs).
use native.Mathlib.Nat.{zero-add}
use consumer_engine.Prelude.{
  ℕ, suc, ◌+◌, ◌≡◌, leb, refl, ap, sym, subst, Bool, true, false, Text, ok, ◌==◌, arith,
}
use consumer_engine.Query.Ast.{
  SegmentQuery, segment, Ops, no_ops, then_op, Op, JitMetric, filter, recency, lapsed, set_op,
  exclude, feature, derive, similar, characterize, ops_of, count_ops,
}
use consumer_engine.Query.Fault.{
  Field, too_many_ops, DslFault, ops_after_setop, derive_before_narrowing, derive_not_last,
}
use consumer_engine.Query.Validate.{
  validate_ident_field, validate_as_of, validate_ops, max_ops, require, validate,
  validate_positions_from, validate_positions,
}
use consumer_engine.Query.Validate.Parts.{seq_ok}
use consumer_engine.Query.Engine.Run.{is_derive, any_op, has_derive, drop_derives, strip_derive}

-- The ops with one more at the end.
unfoldable pub with_last : Ops → Op → Ops
with_last no_ops op = then_op op no_ops
with_last (then_op o ops) op = then_op o (with_last ops op)

-- The ops are those that `drop_derives` keeps, and one `Derive` after them.
abbrev pub EndsInDerive : Ops → Type 0
EndsInDerive ops =
    (name : Text) × (metric : JitMetric) × (ops ≡ with_last (drop_derives ops) (derive name metric))

longer :
    (op : Op) (ops : Ops) → is_derive op ≡ false → EndsInDerive ops → EndsInDerive (then_op op ops)
unfolding with_last drop_derives
longer op ops h (name, metric, e) = rw h (name, metric, ap (then_op op) e)

require_sound : (b : Bool) (f : DslFault) → require b f ≡ ok tt → b ≡ true
require_sound true f h = refl
require_sound false f h = cc

none_left :
    (total i : ℕ) (ops : Ops)
    → total ≡ i + suc (count_ops ops)
    → (suc i == total) ≡ true
    → ops ≡ no_ops
none_left total i no_ops e h = refl
none_left total i (then_op op ops) e h = ground arith

derive_alone :
    (name : Text) (metric : JitMetric) → EndsInDerive (then_op (derive name metric) no_ops)
unfolding with_last drop_derives
derive_alone name metric = (name, metric, refl)

no_derive_left : (ops : Ops) → ops ≡ no_ops → any_op is_derive ops ≡ true → ⊥
unfolding any_op
no_derive_left no_ops e d = cc
no_derive_left (then_op op ops) e d = cc

positions-EndsInDerive :
    (total i : ℕ) (seen : Bool) (ops : Ops)
    → total ≡ i + count_ops ops
    → validate_positions_from total i seen ops ≡ ok tt
    → any_op is_derive ops ≡ true
    → EndsInDerive ops
unfolding validate_positions_from any_op
positions-EndsInDerive total i seen no_ops e h d = cc
positions-EndsInDerive total i seen (then_op (filter p) rest) e h d =
    longer (filter p) rest refl
      (positions-EndsInDerive total (suc i) true rest (omega (arith, e)) h d)
positions-EndsInDerive total i seen (then_op (recency w) rest) e h d =
    longer (recency w) rest refl
      (positions-EndsInDerive total (suc i) true rest (omega (arith, e)) h d)
positions-EndsInDerive total i seen (then_op (lapsed w) rest) e h d =
    longer (lapsed w) rest refl
      (positions-EndsInDerive total (suc i) true rest (omega (arith, e)) h d)
positions-EndsInDerive total i seen (then_op (feature n c v) rest) e h d =
    longer (feature n c v) rest refl
      (positions-EndsInDerive total (suc i) true rest (omega (arith, e)) h d)
positions-EndsInDerive total i seen (then_op (exclude c) rest) e h d =
    longer (exclude c) rest refl
      (positions-EndsInDerive total (suc i) true rest (omega (arith, e)) h d)
positions-EndsInDerive total i seen (then_op (set_op k other) rest) e h d =
    let (last, more) =
      seq_ok (require (suc i == total) ops_after_setop)
        (validate_positions_from total (suc i) seen rest) h in
    absurd (
      no_derive_left rest
        (none_left total i rest e (require_sound (suc i == total) ops_after_setop last)) d)
positions-EndsInDerive total i seen (then_op (derive n m) rest) e h d =
    let (narrowed, last) =
      seq_ok (require seen derive_before_narrowing) (require (suc i == total) derive_not_last) h in
    subst (λ ops. EndsInDerive (then_op (derive n m) ops))
      (sym (none_left total i rest e (require_sound (suc i == total) derive_not_last last)))
      (derive_alone n m)
positions-EndsInDerive total i seen (then_op (characterize p) rest) e h d =
    let (narrowed, last) =
      seq_ok (require seen derive_before_narrowing) (require (suc i == total) derive_not_last) h in
    absurd (
      no_derive_left rest
        (none_left total i rest e (require_sound (suc i == total) derive_not_last last)) d)
positions-EndsInDerive total i seen (then_op similar rest) e h d = cc

-- A validated segment that has a `Derive` at all ends in one, and what `strip_derive` leaves of it
-- is exactly the ops before that, in their order.
pub strip_derive-with_last :
    (is_rfc3339 : Text → Bool) (q : SegmentQuery)
    → validate is_rfc3339 q ≡ ok tt
    → has_derive q ≡ true
    → (name : Text) × (metric : JitMetric) × (ops_of q
        ≡ with_last (ops_of (strip_derive q)) (derive name metric))
unfolding validate has_derive strip_derive validate_positions
strip_derive-with_last is_rfc3339 (segment source key ops as_of) h d =
    let (_, h1) = seq_ok (validate_ident_field source.system Field.source_system) _ h in
    let (_, h2) = seq_ok (validate_ident_field source.entity Field.source_entity) _ h1 in
    let (_, h3) = seq_ok (validate_ident_field key Field.key) _ h2 in
    let (_, h4) = seq_ok (validate_as_of is_rfc3339 as_of) _ h3 in
    let (_, h5) = seq_ok (require (leb (count_ops ops) max_ops) too_many_ops) _ h4 in
    let (_, placed) = seq_ok (validate_ops is_rfc3339 ops) _ h5 in
    positions-EndsInDerive (count_ops ops) 0 false ops (sym (zero-add (count_ops ops))) placed d
