-- ===== src/Query/Binding/Segments.antt =====
-- A compiled segment binds to its inlined text.
use consumer_engine.Prelude.{
  ℕ, ◌≡◌, refl, Bool, Option, none, some, List, [], ◌∷◌, ◌++◌, Text, text, ok, ◌>>=◌,
}
use consumer_engine.Core.Dataset.{Dataset}
use consumer_engine.Query.Json.{Value}
use consumer_engine.Query.Ast.{
  Ops, no_ops, then_op, Op, SetOpKind, intersect, union, minus, filter, recency, lapsed, set_op,
  exclude, feature, derive, similar, characterize, Predicate, EventWindow, JitMetric, metric_event,
  metric_column,
}
use consumer_engine.Query.Fault.{QueryResult}
use consumer_engine.Query.Validate.WellFormed.{
  IsDataset, IsPredicate?, IsWindow, IsColumn?, IsWellFormed, AreWellFormed, IsWellFormedOp,
}
use consumer_engine.Query.Compiler.Types.{CompileOptions, CompiledQuery, Rendered}
use consumer_engine.Query.Compiler.Pieces.{setop_keyword}
use consumer_engine.Query.Compiler.Metrics.{survivor_cte, compile_derive_metric}
use consumer_engine.Query.Compiler.Segments.{
  Progress, Outcome, returned, plain, combined, narrow, push_conjunct, survivor_limit,
  compile_narrowing, compile_ops,
}
use consumer_engine.Query.Inlined.Conjuncts.{inlined_metric}
use consumer_engine.Query.Inlined.Segments
use consumer_engine.Query.Inlined.Segments.{
  InlinedOutcome, inlined_op, inlined_ops, inlined_finish, inlined_at,
}
use consumer_engine.Query.Binding.{Reads, IsPlain}
use consumer_engine.Query.Binding.Agreement.{
  Agree, Agree-bind, Agree-same, Agree-left, Emits, EmitsAll,
}
use consumer_engine.Query.Binding.Composition.{EmitsAll-one, EmitsAll-append}
use consumer_engine.Query.Binding.Names.{IsIdent-IsPlain}
use consumer_engine.Query.Binding.Predicates.{Emitted, compile_predicate-Agree}
use consumer_engine.Query.Binding.Events.{
  IsPlainDataset, IsPlainPredicate?, IsPlainWindow, compile_recency-Agree, compile_lapsed-Agree,
}
use consumer_engine.Query.Binding.Filters.{compile_feature-Agree}
use consumer_engine.Query.Binding.Exclusions.{compile_exclude-Agree}
use consumer_engine.Query.Binding.Metrics.{IsPlainColumn?, survivor_cte-Emits, metric_sql-Emits}

pub dataset-IsPlain : (d : Dataset) → IsDataset d → IsPlainDataset d
dataset-IsPlain d h = (IsIdent-IsPlain d.system h.0, IsIdent-IsPlain d.entity h.1)

predicate?-IsPlain : (p : Option Predicate) → IsPredicate? p → IsPlainPredicate? p
predicate?-IsPlain none h = tt
predicate?-IsPlain (some p) h = IsIdent-IsPlain p.column h.0

window-IsPlain : (w : EventWindow) → IsWindow w → IsPlainWindow w
window-IsPlain w h = (
  dataset-IsPlain w.event h.0,
  IsIdent-IsPlain w.user_key h.1,
  IsIdent-IsPlain w.ts_column h.2,
  predicate?-IsPlain w.predicate h.5,
)

column?-IsPlain : (c : Option Text) → IsColumn? c → IsPlainColumn? c
column?-IsPlain none h = tt
column?-IsPlain (some c) h = IsIdent-IsPlain c h

pub setop_keyword-IsPlain : (k : SetOpKind) → IsPlain (setop_keyword k)
unfolding setop_keyword text
setop_keyword-IsPlain intersect = refl
setop_keyword-IsPlain union = refl
setop_keyword-IsPlain minus = refl

module _ (render : Value → Text) (is_rfc3339 : Text → Bool) where
  -- A compiled query in front of what a larger text reads.
  pub record IsBound (c : CompiledQuery) (t : Text) : Type 0 where
    pub reads : (rest : List Value) → Reads render c.sql (c.params ++ rest) t rest

  abbrev pub Tracks : Progress → List Text → Type 0
  Tracks st cs = EmitsAll render st.conjuncts st.params [] cs

  abbrev pub Follows : Outcome → InlinedOutcome → Type 0
  Follows (returned c) (Segments.returned t) = IsBound c t
  Follows (plain st) (Segments.plain cs) = Tracks st cs
  Follows (combined st k o) (Segments.combined cs k' o') =
      Tracks st cs × (k ≡ k') × (o ≡ o') × IsWellFormed is_rfc3339 o
  Follows _ _ = ⊥

  IsBound-Emits : (c : CompiledQuery) (t : Text) → Emits render c.sql c.params [] t → IsBound c t
  IsBound-Emits c t e = record { reads = λ rest. rw (e.grows rest) (e.reads rest) }

  module _ (source : Dataset) (key : Text) (as_of : Option Text) (opts : CompileOptions)
      (d : IsPlainDataset source) (k : IsPlain key) (a : IsPlain opts.alias) where
    grown :
        (st : Progress) (cs : List Text) (read : List Dataset) (m : QueryResult Rendered)
        (n : QueryResult Text)
        → Tracks st cs
        → Agree (Emitted render st.params) m n
        → Agree (λ st' c. Tracks st' (cs ++ c ∷ [])) (narrow st read m) n
    grown st cs read m n tr h =
        Agree-left (Emitted render st.params) (λ st' c. Tracks st' (cs ++ c ∷ [])) m n
          (λ r. push_conjunct st read r) h
          λ r t e. EmitsAll-append render tr (EmitsAll-one render e)

    narrowing-Agree :
        (op : Op) (st : Progress) (cs : List Text)
        → IsWellFormedOp is_rfc3339 op
        → Tracks st cs
        → Agree
            (λ st' c. Tracks st' (cs ++ c ∷ []))
            (compile_narrowing source key as_of opts op st)
            (inlined_op render source key as_of opts op)
    unfolding compile_narrowing inlined_op
    narrowing-Agree (filter p) st cs h tr = grown st cs _ _ _ tr (
        compile_predicate-Agree render (text "base") p st.params (unfold text in refl)
          (IsIdent-IsPlain p.column h.0))
    narrowing-Agree (recency w) st cs h tr = grown st cs _ _ _ tr (
        compile_recency-Agree render w key st.params opts.alias opts.tenant (window-IsPlain w h) k
          a)
    narrowing-Agree (lapsed w) st cs h tr = grown st cs _ _ _ tr (
        compile_lapsed-Agree render w key st.params opts.alias opts.tenant (window-IsPlain w h) k a)
    narrowing-Agree (feature name op value) st cs h tr =
        grown st cs _ _ _ tr (
          compile_feature-Agree render name op value key st.params opts.alias opts.tenant as_of k a)
    narrowing-Agree (exclude c) st cs h tr =
        grown st cs _ _ _ tr (compile_exclude-Agree render c key opts st.params k a)
    narrowing-Agree (characterize p) st cs h tr = refl
    narrowing-Agree (derive n m) st cs h tr = refl
    narrowing-Agree (set_op kind o) st cs h tr = refl
    narrowing-Agree similar st cs h tr = refl

    metric_of :
        (limit : ℕ) (name : Text) (metric : JitMetric) (st : Progress) (cs : List Text)
        → IsWellFormedOp is_rfc3339 (derive name metric)
        → Emits render
            (survivor_cte source key st.conjuncts opts.alias limit)
            st.params
            []
            (survivor_cte source key cs opts.alias limit)
        → Agree Follows
            (compile_derive_metric
                (survivor_cte source key st.conjuncts opts.alias limit)
                name
                metric
                st.params
                opts.alias
                opts.tenant
              >>= λ r. ok (
                  returned (record {
                    sql = r.0;
                    params = r.1;
                    sources = st.sources ++ metric_event metric ∷ [];
                  })))
            (ok (
              Segments.returned (
                inlined_metric render
                  (survivor_cte source key cs opts.alias limit)
                  name
                  metric
                  opts.alias
                  opts.tenant)))
    metric_of limit name metric st cs h e =
        Agree-bind (Emitted render []) Follows _ (ok _) _ (λ t. ok (Segments.returned t))
          (metric_sql-Emits render _ _ name metric st.params [] opts.alias opts.tenant
            (dataset-IsPlain (metric_event metric) h.1) (column?-IsPlain (metric_column metric) h.2)
            a e)
          λ r t e'. IsBound-Emits _ t e'

    on :
        (op : Op) (rest : Ops) (st : Progress) (cs : List Text)
        → AreWellFormed is_rfc3339 (then_op op rest)
        → Tracks st cs
        → ((st' : Progress) (cs' : List Text)
            → AreWellFormed is_rfc3339 rest
            → Tracks st' cs'
            → Agree Follows
                (compile_ops source key as_of opts rest st')
                (inlined_ops render source key as_of opts rest cs'))
        → Agree Follows
            (compile_narrowing source key as_of opts op st
              >>= compile_ops source key as_of opts rest)
            (inlined_op render source key as_of opts op >>= λ c.
              inlined_ops render source key as_of opts rest (cs ++ c ∷ []))
    on op rest st cs h tr next =
        Agree-bind (λ st' c. Tracks st' (cs ++ c ∷ [])) Follows _ _ _ _
          (narrowing-Agree op st cs h.0 tr) λ st' c tr'. next st' (cs ++ c ∷ []) h.1 tr'

    pub ops-Agree :
        (ops : Ops) (st : Progress) (cs : List Text)
        → AreWellFormed is_rfc3339 ops
        → Tracks st cs
        → Agree Follows
            (compile_ops source key as_of opts ops st)
            (inlined_ops render source key as_of opts ops cs)
    unfolding compile_ops inlined_ops
    ops-Agree no_ops st cs h tr = tr
    ops-Agree (then_op (set_op kind o) no_ops) st cs h tr = (tr, refl, refl, h.0)
    ops-Agree (then_op (set_op kind o) (then_op op rest)) st cs h tr = refl
    ops-Agree (then_op (derive name metric) rest) st cs h tr =
        Agree-same Follows (survivor_limit opts.derive_limit) _ _ λ limit.
          metric_of limit name metric st cs h.0
            (survivor_cte-Emits render source key opts.alias limit d k a tr)
    ops-Agree (then_op (filter p) rest) st cs h tr = on (filter p) rest st cs h tr (ops-Agree rest)
    ops-Agree (then_op (recency p) rest) st cs h tr =
        on (recency p) rest st cs h tr (ops-Agree rest)
    ops-Agree (then_op (lapsed p) rest) st cs h tr = on (lapsed p) rest st cs h tr (ops-Agree rest)
    ops-Agree (then_op (feature n c v) rest) st cs h tr =
        on (feature n c v) rest st cs h tr (ops-Agree rest)
    ops-Agree (then_op (exclude c) rest) st cs h tr =
        on (exclude c) rest st cs h tr (ops-Agree rest)
    ops-Agree (then_op (characterize p) rest) st cs h tr = refl
    ops-Agree (then_op similar rest) st cs h tr = refl
