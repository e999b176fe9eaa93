-- ===== src/Query/Binding/Exclusions.antt =====
-- `Exclude` binds to its inlined text (crates/query/src/compiler.rs).
use mathlib.Core.List.{append_assoc}
use consumer_engine.Prelude.{
  pos, refl, ◌∙◌, Bool, true, false, Option, none, some, List, [], ◌∷◌, Text, text,
}
use consumer_engine.Core.Config.{FrequencyCap}
use consumer_engine.Query.Json.{Value, big_int, text_value}
use consumer_engine.Query.Compiler.Types.{CompileOptions}
use consumer_engine.Query.Compiler.Pieces.{tenant_eq}
use consumer_engine.Query.Compiler.Filters.{
  no_repeat_clause, cap_clause, exclude_text, compile_exclude,
}
use consumer_engine.Query.Inlined.Conjuncts.{inlined_no_repeat, inlined_cap, inlined_exclude}
use consumer_engine.Query.Binding.{Reads, IsPlain}
use consumer_engine.Query.Binding.Rules.{
  Pieces, done, lit, sub, to_decimal-IsPlain, Reads-plain, Reads-hole, Reads-fmt, Reads-join,
}
use consumer_engine.Query.Binding.Agreement.{Agree, EmitsAll}
use consumer_engine.Query.Binding.Composition.{EmitsAll-none, EmitsAll-append}
use consumer_engine.Query.Binding.Predicates.{Emitted, tenant_eq-Emits}

module _ (render : Value → Text) where
  no_repeat_clause-EmitsAll :
      (b : Bool) (campaign_id base_key alias tenant : Text) (params : List Value)
      → IsPlain base_key
      → IsPlain alias
      → EmitsAll render
          (no_repeat_clause b campaign_id base_key alias tenant params).0
          (no_repeat_clause b campaign_id base_key alias tenant params).1
          params
          (inlined_no_repeat render b campaign_id base_key alias tenant)
  unfolding text
  no_repeat_clause-EmitsAll false campaign_id base_key alias tenant params k a =
      EmitsAll-none render params
  no_repeat_clause-EmitsAll true campaign_id base_key alias tenant params k a =
      let e = tenant_eq-Emits render (text "s") params tenant refl in
      record {
        pushed = λ rest. e.pushed (text_value campaign_id ∷ rest);
        grows = λ rest.
            append_assoc (tenant_eq (text "s") params tenant).1 (text_value campaign_id ∷ []) rest
            ∙ e.grows (text_value campaign_id ∷ rest);
        reads = λ rest.
            sub
              (Reads-fmt render (
                lit refl (
                  lit a (
                    lit refl (
                      lit k (
                        lit refl (
                          sub (e.reads (text_value campaign_id ∷ rest)) (
                            sub
                              (Reads-hole render (text " AND s.campaign_id = ")
                                (text " AND s.action IN ('targeted', 'delivered'))")
                                (text_value campaign_id) rest refl refl)
                              done))))))))
              done;
      }

  cap_clause-EmitsAll :
      (cap : Option FrequencyCap) (base_key alias tenant : Text) (params : List Value)
      → IsPlain base_key
      → IsPlain alias
      → EmitsAll render
          (cap_clause cap base_key alias tenant params).0
          (cap_clause cap base_key alias tenant params).1
          params
          (inlined_cap render cap base_key alias tenant)
  unfolding text
  cap_clause-EmitsAll none base_key alias tenant params k a = EmitsAll-none render params
  cap_clause-EmitsAll (some cap) base_key alias tenant params k a =
      let limit = big_int (pos cap.max_contacts) in
      record {
        pushed = λ rest. text_value tenant ∷ limit ∷ rest;
        grows = λ rest. append_assoc params (text_value tenant ∷ limit ∷ []) rest;
        reads = λ rest.
            sub
              (Reads-fmt render (
                lit refl (
                  lit a (
                    lit refl (
                      lit k (
                        sub
                          (Reads-hole render (text " AND s.tenant_id = ")
                            (text
                              " AND s.action = 'targeted' AND s.occurred_ts >= CAST(CAST(now() AS TIMESTAMP) - INTERVAL '")
                            (text_value tenant) (limit ∷ rest) refl refl)
                          (lit (to_decimal-IsPlain cap.window_days) (
                            sub
                              (Reads-hole render
                                (text
                                  "' DAY AS TIMESTAMPTZ) GROUP BY s.user_id HAVING count(*) >= ")
                                (text ")") limit rest refl refl)
                              done))))))))
              done;
      }

  Reads-exclude_text :
      {ss ts : List Text} {params rest : List Value}
      → Pieces render ss params ts rest
      → Reads render (exclude_text ss) params (exclude_text ts) rest
  unfolding text
  Reads-exclude_text done = Reads-plain render (text "1=1") _ refl
  Reads-exclude_text (lit h p) = Reads-join render (text " AND ") refl (lit h p)
  Reads-exclude_text (sub h p) = Reads-join render (text " AND ") refl (sub h p)

  pub compile_exclude-Agree :
      (campaign_id base_key : Text) (opts : CompileOptions) (params : List Value)
      → IsPlain base_key
      → IsPlain opts.alias
      → Agree
          (Emitted render params)
          (compile_exclude campaign_id base_key opts params)
          (inlined_exclude render campaign_id base_key opts)
  unfolding compile_exclude inlined_exclude
  compile_exclude-Agree campaign_id base_key opts params k a =
      let first =
        no_repeat_clause-EmitsAll opts.suppression.per_campaign_no_repeat campaign_id base_key
          opts.alias opts.tenant params k a in
      let e = EmitsAll-append render first (
        cap_clause-EmitsAll opts.suppression.frequency_cap base_key opts.alias opts.tenant _ k a) in
      record {
        pushed = e.pushed;
        grows = e.grows;
        reads = λ rest. Reads-exclude_text (e.reads rest);
      }
