-- ===== src/Query/Validate/Parts.antt =====
-- The checks of crates/query/src/parse.rs on the parts of a segment: each accepts what it should.
use consumer_engine.Prelude.{
  ℕ, ◌≤◌, ◌≡◌, refl, Bool, true, false, not, ◌||◌, Option, none, some, Text, Result, ok, err, ◌>>=◌,
  ◌>>◌, map_err, ltb, leb→le, ◌==◌, arith,
}
use consumer_engine.Core.Dataset.{Dataset}
use consumer_engine.Core.Ident.{IdentError, split_feature_name}
use consumer_engine.Core.Ident.Laws.{
  IsIdent, validate_ident_sound, validate_ident_complete, split_feature_name_sound,
  split_feature_name-join,
}
use consumer_engine.Query.Json.{Json, string, array, Items, no_items, item}
use consumer_engine.Query.Ast.{Cmp, eq, Predicate, EventWindow, Profile}
use consumer_engine.Query.Fault.{
  Field, DslFault, bad_feature_name, bad_feature_op, invalid_dsl, QueryResult,
}
use consumer_engine.Query.Validate.{
  max_within_days, is_numeric_cmp, require, validate_ident_field, validate_dataset, validate_value,
  validate_items, validate_predicate, validate_predicate?, validate_feature, validate_metric_column,
  validate_characterize, validate_window,
}
use consumer_engine.Query.Validate.WellFormed.{
  IsDataset, ItemFits, ItemsFit, ValueFits, IsPredicate, IsPredicate?, IsWindow, IsNamespaced,
  IsColumn?, IsProfile,
}

-- A chain of checks passes exactly when each check does.
pub seq_ok : (m k : QueryResult (Unit {0})) → (m >> k) ≡ ok tt → (m ≡ ok tt) × (k ≡ ok tt)
seq_ok (ok a) k h = (refl, h)
seq_ok (err e) k h = cc

pub ok_seq : {m k : QueryResult (Unit {0})} → m ≡ ok tt → k ≡ ok tt → (m >> k) ≡ ok tt
ok_seq p q = rw p q

pub require_sound : (b : Bool) (f : DslFault) → require b f ≡ ok tt → b ≡ true
require_sound true f h = refl
require_sound false f h = cc

pub field_sound :
    (name : Text) (kind : Field) → validate_ident_field name kind ≡ ok tt → IsIdent name
unfolding validate_ident_field
field_sound name kind h = validate_ident_sound name (ground arith)

pub field_complete :
    (name : Text) (kind : Field) → IsIdent name → validate_ident_field name kind ≡ ok tt
unfolding validate_ident_field
field_complete name kind h = rw (validate_ident_complete name h)

pub dataset_sound : (d : Dataset) → validate_dataset d ≡ ok tt → IsDataset d
unfolding validate_dataset
dataset_sound d h =
    let (s, e) = seq_ok _ _ h in (field_sound d.system _ s, field_sound d.entity _ e)

pub dataset_complete : (d : Dataset) → IsDataset d → validate_dataset d ≡ ok tt
unfolding validate_dataset
dataset_complete d h = ok_seq (field_complete d.system _ h.0) (field_complete d.entity _ h.1)

item_sound : (x : Json) → validate_value x eq ≡ ok tt → ItemFits x
unfolding validate_value
item_sound (string s) h = ground arith
item_sound (array xs) h = cc
item_sound _ h = tt

item_complete : (x : Json) → ItemFits x → validate_value x eq ≡ ok tt
unfolding validate_value
item_complete (string s) h = ground arith
item_complete (array xs) h = elim h [ ]
item_complete _ h = refl

items_sound : (xs : Items) → validate_items xs ≡ ok tt → ItemsFit xs
unfolding validate_items
items_sound no_items h = tt
items_sound (item x xs) h =
    let (p, q) = seq_ok (validate_value x eq) _ h in (item_sound x p, items_sound xs q)

items_complete : (xs : Items) → ItemsFit xs → validate_items xs ≡ ok tt
unfolding validate_items
items_complete no_items h = refl
items_complete (item x xs) h = ok_seq (item_complete x h.0) (items_complete xs h.1)

value_sound : (x : Json) (op : Cmp) → validate_value x op ≡ ok tt → ValueFits x op
unfolding validate_value
value_sound (string s) op h = ground arith
value_sound (array xs) op h =
    let (p, q) = seq_ok _ _ h in
    let (r, t) = seq_ok _ _ q in
    (require_sound _ _ p, leb→le _ _ (require_sound _ _ r), items_sound xs t)
value_sound _ op h = tt

value_complete : (x : Json) (op : Cmp) → ValueFits x op → validate_value x op ≡ ok tt
unfolding validate_value
value_complete (string s) op h = ground arith
value_complete (array xs) op h = rw (h.0, items_complete xs h.2) (ground arith)
value_complete _ op h = refl

pub predicate_sound : (p : Predicate) → validate_predicate p ≡ ok tt → IsPredicate p
unfolding validate_predicate
predicate_sound p h =
    let (c, v) = seq_ok _ _ h in (field_sound p.column _ c, value_sound p.value p.op v)

pub predicate_complete : (p : Predicate) → IsPredicate p → validate_predicate p ≡ ok tt
unfolding validate_predicate
predicate_complete p h = ok_seq (field_complete p.column _ h.0) (value_complete p.value p.op h.1)

validate_predicate?_sound : (o : Option Predicate) → validate_predicate? o ≡ ok tt → IsPredicate? o
unfolding validate_predicate?
validate_predicate?_sound none h = tt
validate_predicate?_sound (some p) h = predicate_sound p h

validate_predicate?_complete :
    (o : Option Predicate) → IsPredicate? o → validate_predicate? o ≡ ok tt
unfolding validate_predicate?
validate_predicate?_complete none h = refl
validate_predicate?_complete (some p) h = predicate_complete p h

days_sound :
    (d : ℕ) → not (d == 0 || ltb max_within_days d) ≡ true → (1 ≤ d) × (d ≤ max_within_days)
days_sound d h = ground arith

days_complete : (d : ℕ) → 1 ≤ d → d ≤ max_within_days → not (d == 0 || ltb max_within_days d) ≡ true
days_complete d h k = ground arith

pub IsWindow-sound : (w : EventWindow) → validate_window w ≡ ok tt → IsWindow w
unfolding validate_window
IsWindow-sound w h =
    let (d, h1) = seq_ok _ _ h in
    let (u, h2) = seq_ok _ _ h1 in
    let (t, h3) = seq_ok _ _ h2 in
    let (r, p) = seq_ok _ _ h3 in
    let (low, high) = days_sound w.within_days (require_sound _ _ r) in
    (
      dataset_sound w.event d,
      field_sound w.user_key _ u,
      field_sound w.ts_column _ t,
      low,
      high,
      validate_predicate?_sound w.predicate p,
    )

pub window_complete : (w : EventWindow) → IsWindow w → validate_window w ≡ ok tt
unfolding validate_window
window_complete w h = ok_seq (dataset_complete w.event h.0) (
    ok_seq (field_complete w.user_key _ h.1) (
      ok_seq (field_complete w.ts_column _ h.2) (
        ok_seq (rw (days_complete w.within_days h.3 h.4))
          (validate_predicate?_complete w.predicate h.5))))

pub feature_sound :
    (name : Text) (op : Cmp)
    → validate_feature name op ≡ ok tt
    → IsNamespaced name × (is_numeric_cmp op ≡ true)
unfolding validate_feature
feature_sound name op h = go (split_feature_name name) refl h
  where
    go :
        (r : Result IdentError (Text × Text))
        → split_feature_name name ≡ r
        → (map_err (λ e. invalid_dsl (bad_feature_name e)) r >>= λ parts.
            require (is_numeric_cmp op) bad_feature_op)
          ≡ ok tt
        → IsNamespaced name × (is_numeric_cmp op ≡ true)
    go (ok (family, short)) split k =
        let (e, f, s) = split_feature_name_sound name family short split in
        ((family, short, e, f, s), require_sound _ _ k)
    go (err e) split k = cc

pub feature_complete :
    (name : Text) (op : Cmp)
    → IsNamespaced name
    → is_numeric_cmp op ≡ true
    → validate_feature name op ≡ ok tt
unfolding validate_feature
feature_complete name op (family, short, e, f, s) k =
    rw e (rw (split_feature_name-join family short f s) (rw k))

pub IsColumn?-sound : (c : Option Text) → validate_metric_column c ≡ ok tt → IsColumn? c
IsColumn?-sound none h = tt
IsColumn?-sound (some c) h = field_sound c _ h

pub IsColumn?-complete : (c : Option Text) → IsColumn? c → validate_metric_column c ≡ ok tt
IsColumn?-complete none h = refl
IsColumn?-complete (some c) h = field_complete c _ h

pub profile_sound : (p : Profile) → validate_characterize p ≡ ok tt → IsProfile p
unfolding validate_characterize
profile_sound p h =
    let (d, h1) = seq_ok _ _ h in
    let (t, h2) = seq_ok _ _ h1 in
    let (m, c) = seq_ok _ _ h2 in
    (dataset_sound p.event d, field_sound _ _ t, field_sound _ _ m, field_sound _ _ c)

pub profile_complete : (p : Profile) → IsProfile p → validate_characterize p ≡ ok tt
unfolding validate_characterize
profile_complete p h =
    ok_seq (dataset_complete p.event h.0)
      (ok_seq (field_complete _ _ h.1) (ok_seq (field_complete _ _ h.2) (field_complete _ _ h.3)))
