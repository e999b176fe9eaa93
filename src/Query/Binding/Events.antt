-- ===== src/Query/Binding/Events.antt =====
-- `Recency` and `Lapsed` bind to their inlined text.
use consumer_engine.Prelude.{ℕ, refl, ◌∙◌, Option, none, some, List, [], ◌∷◌, Text, text}
use consumer_engine.Core.Dataset.{Dataset}
use consumer_engine.Query.Json.{Value}
use consumer_engine.Query.Ast.{Predicate, EventWindow}
use consumer_engine.Query.Compiler.Pieces.{raw_table, tenant_eq}
use consumer_engine.Query.Compiler.Events.{
  with_predicate, window_bound, join_key, event_where, compile_recency, compile_lapsed,
}
use consumer_engine.Query.Inlined.Conjuncts.{
  inlined_with_predicate, inlined_where, inlined_recency, inlined_lapsed,
}
use consumer_engine.Query.Binding.{IsPlain}
use consumer_engine.Query.Binding.Rules.{done, lit, sub, IsPlain-fmt, to_decimal-IsPlain, Reads-fmt}
use consumer_engine.Query.Binding.Agreement.{Agree, Agree-bind, EmitsAll}
use consumer_engine.Query.Binding.Composition.{
  EmitsAll-none, EmitsAll-one, EmitsAll-lit, EmitsAll-append, EmitsAll-join,
}
use consumer_engine.Query.Binding.Predicates.{Emitted, tenant_eq-Emits, compile_predicate-Agree}

abbrev pub IsPlainDataset : Dataset → Type 0
IsPlainDataset d = IsPlain d.system × IsPlain d.entity

abbrev pub IsPlainPredicate? : Option Predicate → Type 0
IsPlainPredicate? none = Unit
IsPlainPredicate? (some p) = IsPlain p.column

-- The names of a window hold no placeholder.
abbrev pub IsPlainWindow : EventWindow → Type 0
IsPlainWindow w =
    IsPlainDataset w.event
    × IsPlain w.user_key
    × IsPlain w.ts_column
    × IsPlainPredicate? w.predicate

pub raw_table-IsPlain :
    (d : Dataset) (alias : Text) → IsPlainDataset d → IsPlain alias → IsPlain (raw_table d alias)
unfolding raw_table text
raw_table-IsPlain d alias h a =
    IsPlain-fmt (alias ∷ text ".raw_" ∷ d.system ∷ text "_" ∷ d.entity ∷ [])
      (a, (refl, (h.0, (refl, (h.1, tt)))))

window_bound-IsPlain :
    (ts symbol : Text) (days : ℕ)
    → IsPlain ts
    → IsPlain symbol
    → IsPlain (window_bound ts symbol days)
unfolding text
window_bound-IsPlain ts symbol days t s =
    IsPlain-fmt _ (refl, (t, (refl, (s, (refl, (to_decimal-IsPlain days, (refl, tt)))))))

join_key-IsPlain :
    (user_key base_key : Text)
    → IsPlain user_key
    → IsPlain base_key
    → IsPlain (join_key user_key base_key)
unfolding text
join_key-IsPlain user_key base_key u b = IsPlain-fmt _ (refl, (u, (refl, (b, tt))))

module _ (render : Value → Text) where
  with_predicate-Agree :
      (p : Option Predicate) (params : List Value)
      → IsPlainPredicate? p
      → Agree
          (λ r ts. EmitsAll render r.0 r.1 params ts)
          (with_predicate p params)
          (inlined_with_predicate render p)
  with_predicate-Agree none params h = EmitsAll-none render params
  with_predicate-Agree (some p) params h =
      Agree-bind (Emitted render params) (λ r ts. EmitsAll render r.0 r.1 params ts) _ _ _ _
        (compile_predicate-Agree render (text "e") p params (unfold text in refl) h)
        λ r t e. EmitsAll-one render e

  event_where-Agree :
      (symbol : Text) (w : EventWindow) (base_key : Text) (params : List Value) (tenant : Text)
      → IsPlain symbol
      → IsPlainWindow w
      → IsPlain base_key
      → Agree
          (Emitted render params)
          (event_where symbol w base_key params tenant)
          (inlined_where render symbol w base_key tenant)
  unfolding event_where inlined_where
  event_where-Agree symbol w base_key params tenant s h b =
      Agree-bind (λ r ts. EmitsAll render r.0 r.1 (tenant_eq (text "e") params tenant).1 ts)
        (Emitted render params) _ _ _ _
        (with_predicate-Agree w.predicate (tenant_eq (text "e") params tenant).1 h.3)
        λ r ts e. EmitsAll-join render (text " AND ") (unfold text in refl) (
          EmitsAll-append render
            (EmitsAll-append render
              (EmitsAll-lit render (join_key w.user_key base_key) (join_key-IsPlain _ _ h.1 b)
                (EmitsAll-none render params))
              (EmitsAll-one render
                (tenant_eq-Emits render (text "e") params tenant (unfold text in refl))))
            (EmitsAll-lit render _ (window_bound-IsPlain _ _ _ h.2 s) e))

  pub compile_recency-Agree :
      (w : EventWindow) (base_key : Text) (params : List Value) (alias tenant : Text)
      → IsPlainWindow w
      → IsPlain base_key
      → IsPlain alias
      → Agree
          (Emitted render params)
          (compile_recency w base_key params alias tenant)
          (inlined_recency render w base_key alias tenant)
  unfolding compile_recency inlined_recency text
  compile_recency-Agree w base_key params alias tenant h b a =
      Agree-bind (Emitted render params) (Emitted render params) _ _ _ _
        (event_where-Agree (text ">=") w base_key params tenant refl h b)
        λ r t e. record {
          pushed = e.pushed;
          grows = e.grows;
          reads = λ rest. Reads-fmt render (
              lit refl (
                lit (raw_table-IsPlain w.event alias h.0 a)
                  (lit refl (sub (e.reads rest) (lit refl done)))));
        }

  pub compile_lapsed-Agree :
      (w : EventWindow) (base_key : Text) (params : List Value) (alias tenant : Text)
      → IsPlainWindow w
      → IsPlain base_key
      → IsPlain alias
      → Agree
          (Emitted render params)
          (compile_lapsed w base_key params alias tenant)
          (inlined_lapsed render w base_key alias tenant)
  unfolding compile_lapsed inlined_lapsed text
  compile_lapsed-Agree w base_key params alias tenant h b a =
      let table = raw_table-IsPlain w.event alias h.0 a in
      Agree-bind (Emitted render params) (Emitted render params) _ _ _ _
        (event_where-Agree (text "<") w base_key params tenant refl h b)
        λ r t e.
          Agree-bind (Emitted render r.1) (Emitted render params) _ _ _ _
            (event_where-Agree (text ">=") w base_key r.1 tenant refl h b)
            λ r' t' e'. record {
              pushed = λ rest. e.pushed (e'.pushed rest);
              grows = λ rest. e'.grows rest ∙ e.grows (e'.pushed rest);
              reads = λ rest. Reads-fmt render (
                  lit refl (
                    lit table (
                      lit refl (
                        sub (e.reads (e'.pushed rest)) (
                          lit refl
                            (lit table (lit refl (sub (e'.reads rest) (lit refl done)))))))));
            }
