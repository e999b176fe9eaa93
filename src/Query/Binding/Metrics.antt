-- ===== src/Query/Binding/Metrics.antt =====
-- The base SELECT, the survivor CTE and the `Derive` metric bind to their inlined text.
use mathlib.Core.List.{append_assoc}
use consumer_engine.Prelude.{ℕ, refl, ◌∙◌, Option, none, some, List, [], ◌∷◌, ◌++◌, Text, text, ok}
use consumer_engine.Core.Dataset.{Dataset}
use consumer_engine.Query.Json.{Value, text_value}
use consumer_engine.Query.Ast.{JitMetric, count, sum, avg, min, max, metric_event, metric_column}
use consumer_engine.Query.Compiler.Pieces.{where_clause, base_select}
use consumer_engine.Query.Compiler.Metrics.{survivor_cte, aggregate, compile_derive_metric}
use consumer_engine.Query.Inlined.Conjuncts.{inlined_metric}
use consumer_engine.Query.Binding.{Reads, IsPlain}
use consumer_engine.Query.Binding.Rules.{
  Pieces, done, lit, sub, IsPlain-fmt, to_decimal-IsPlain, Reads-plain, Reads-hole, Reads-append,
  Reads-fmt, Reads-join,
}
use consumer_engine.Query.Binding.Agreement.{Agree, Emits, EmitsAll}
use consumer_engine.Query.Binding.Predicates.{Emitted, tenant_eq-Emits}
use consumer_engine.Query.Binding.Events.{IsPlainDataset, raw_table-IsPlain}

abbrev pub IsPlainColumn? : Option Text → Type 0
IsPlainColumn? none = Unit
IsPlainColumn? (some c) = IsPlain c

aggregate-IsPlain : (m : JitMetric) → IsPlainColumn? (metric_column m) → IsPlain (aggregate m)
unfolding aggregate text
aggregate-IsPlain (count event) h = refl
aggregate-IsPlain (sum event c) h = IsPlain-fmt _ (refl, (h, (refl, tt)))
aggregate-IsPlain (avg event c) h = IsPlain-fmt _ (refl, (h, (refl, tt)))
aggregate-IsPlain (min event c) h = IsPlain-fmt _ (refl, (h, (refl, tt)))
aggregate-IsPlain (max event c) h = IsPlain-fmt _ (refl, (h, (refl, tt)))

module _ (render : Value → Text) where
  Reads-where_clause :
      {ss ts : List Text} {params rest : List Value}
      → Pieces render ss params ts rest
      → Reads render (where_clause ss) params (where_clause ts) rest
  unfolding text
  Reads-where_clause done = Reads-plain render [] _ refl
  Reads-where_clause (lit {params = ps} h p) =
      Reads-append render (text " WHERE ") _ ps ps _ (text " WHERE ") _
        (Reads-plain render (text " WHERE ") ps refl)
        (Reads-join render (text " AND ") refl (lit h p))
  Reads-where_clause (sub {params = ps} h p) =
      Reads-append render (text " WHERE ") _ ps ps _ (text " WHERE ") _
        (Reads-plain render (text " WHERE ") ps refl)
        (Reads-join render (text " AND ") refl (sub h p))

  pub Reads-base_select :
      (source : Dataset) (key alias : Text) {ss ts : List Text} {params rest : List Value}
      → IsPlainDataset source
      → IsPlain key
      → IsPlain alias
      → Pieces render ss params ts rest
      → Reads render (base_select source key ss alias) params (base_select source key ts alias) rest
  unfolding base_select text
  Reads-base_select source key alias d k a p = Reads-fmt render (
      lit refl (
        lit k (
          lit refl (
            lit (raw_table-IsPlain source alias d a)
              (lit refl (sub (Reads-where_clause p) done))))))

  pub survivor_cte-Emits :
      (source : Dataset) (key alias : Text) (limit : ℕ) {ss ts : List Text}
      {out params : List Value}
      → IsPlainDataset source
      → IsPlain key
      → IsPlain alias
      → EmitsAll render ss out params ts
      → Emits render
          (survivor_cte source key ss alias limit)
          out
          params
          (survivor_cte source key ts alias limit)
  unfolding survivor_cte text
  survivor_cte-Emits source key alias limit d k a e = record {
    pushed = e.pushed;
    grows = e.grows;
    reads = λ rest. Reads-fmt render (
        lit refl (
          lit k (
            lit refl (
              lit (raw_table-IsPlain source alias d a) (
                lit refl (
                  sub (Reads-where_clause (e.reads rest))
                    (lit refl (lit (to_decimal-IsPlain limit) done))))))));
  }

  -- The name of the metric stands between the CTE and the join, and its parameter too.
  pub metric_sql-Emits :
      (survivor meant name : Text) (metric : JitMetric) (out params : List Value)
      (alias tenant : Text)
      → IsPlainDataset (metric_event metric)
      → IsPlainColumn? (metric_column metric)
      → IsPlain alias
      → Emits render survivor out params meant
      → Agree
          (Emitted render params)
          (compile_derive_metric survivor name metric out alias tenant)
          (ok (inlined_metric render meant name metric alias tenant))
  unfolding compile_derive_metric inlined_metric text
  metric_sql-Emits survivor meant name metric out params alias tenant d c a e =
      let t = tenant_eq-Emits render (text "e") (out ++ text_value name ∷ []) tenant refl in
      record {
        pushed = λ rest. e.pushed (text_value name ∷ t.pushed rest);
        grows = λ rest.
            t.grows rest
            ∙ append_assoc out (text_value name ∷ []) (t.pushed rest)
            ∙ e.grows (text_value name ∷ t.pushed rest);
        reads = λ rest. Reads-fmt render (
            lit refl (
              sub (e.reads (text_value name ∷ t.pushed rest)) (
                sub
                  (Reads-hole render (text ") SELECT ") (text " AS name, ") (text_value name)
                    (t.pushed rest) refl refl)
                  (lit (aggregate-IsPlain metric c) (
                    lit refl (
                      lit (raw_table-IsPlain (metric_event metric) alias d a)
                        (lit refl (sub (t.reads rest) done))))))));
      }
