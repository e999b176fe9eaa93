-- ===== src/Query/Touched/Compiled.antt =====
-- `compile_at` reports exactly the datasets that the segment names (crates/query/src/compiler.rs).
use mathlib.Core.List.{append-nil, append_assoc}
use consumer_engine.Prelude.{
  ℕ, zero, suc, ◌≡◌, refl, ap, sym, subst, ◌∙◌, Option, List, [], ◌∷◌, ◌++◌, Text, ok, ◌>>=◌,
  >>=-eq-ok,
}
use consumer_engine.Core.Dataset.{Dataset}
use consumer_engine.Query.Ast.{
  SegmentQuery, segment, Ops, no_ops, then_op, Op, SetOpKind, JitMetric, filter, recency, lapsed,
  set_op, exclude, feature, derive, similar, characterize, metric_event,
}
use consumer_engine.Query.Fault.{QueryResult}
use consumer_engine.Query.Compiler.Types.{CompileOptions, CompiledQuery, Rendered}
use consumer_engine.Query.Compiler.Metrics.{survivor_cte, compile_derive_metric}
use consumer_engine.Query.Compiler.Segments.{
  Progress, Outcome, returned, plain, combined, push_conjunct, narrow, after_setop, survivor_limit,
  finish_derive, compile_narrowing, compile_ops, finish, begin, compile_at, max_levels,
  compile_with_opts,
}
use consumer_engine.Query.Touched.{sources_read, ops_read, op_read}

ok_inj : {T : Type 0} (a b : T) → Path (QueryResult T) (ok a) (ok b) → a ≡ b
ok_inj a b h = cc

narrow_sources :
    (st st' : Progress) (read : List Dataset) (r : QueryResult Rendered)
    → narrow st read r ≡ ok st'
    → st'.sources ≡ st.sources ++ read
narrow_sources st st' read r h =
    let (c, _, same) = >>=-eq-ok r (λ c. ok (push_conjunct st read c)) h in
    sym (ap (λ p. p.sources) (ok_inj (push_conjunct st read c) st' same))

-- What the end of the loop has, from what it began with and the ops.
abbrev SourcesOf : List Dataset → List Dataset → Outcome → Type 0
SourcesOf before read (returned c) = c.sources ≡ before ++ read
SourcesOf before read (plain st) = st.sources ≡ before ++ read
SourcesOf before read (combined st kind other) = st.sources ++ sources_read other ≡ before ++ read

module _ (source : Dataset) (key : Text) (as_of : Option Text) (opts : CompileOptions) where
  compile_narrowing_sources :
      (op : Op) (st st' : Progress)
      → compile_narrowing source key as_of opts op st ≡ ok st'
      → st'.sources ≡ st.sources ++ op_read op
  unfolding compile_narrowing op_read
  compile_narrowing_sources (filter p) st st' h = narrow_sources st st' [] _ h
  compile_narrowing_sources (recency w) st st' h = narrow_sources st st' (w.event ∷ []) _ h
  compile_narrowing_sources (lapsed w) st st' h = narrow_sources st st' (w.event ∷ []) _ h
  compile_narrowing_sources (feature n c v) st st' h = narrow_sources st st' [] _ h
  compile_narrowing_sources (exclude c) st st' h = narrow_sources st st' [] _ h
  compile_narrowing_sources (set_op k other) st st' h = cc
  compile_narrowing_sources (derive n m) st st' h = cc
  compile_narrowing_sources (characterize p) st st' h = cc
  compile_narrowing_sources similar st st' h = cc

  -- A step that read `mine`, before a loop that read the rest.
  after_step :
      (before middle mine rest : List Dataset) (o : Outcome)
      → middle ≡ before ++ mine
      → SourcesOf middle rest o
      → SourcesOf before (mine ++ rest) o
  after_step before middle mine rest (returned c) e h =
      h ∙ (ap (λ b. b ++ rest) e ∙ append_assoc before mine rest)
  after_step before middle mine rest (plain st) e h =
      h ∙ (ap (λ b. b ++ rest) e ∙ append_assoc before mine rest)
  after_step before middle mine rest (combined st kind other) e h =
      h ∙ (ap (λ b. b ++ rest) e ∙ append_assoc before mine rest)

  after_setop_sources :
      (st : Progress) (kind : SetOpKind) (other : SegmentQuery) (rest : Ops) (o : Outcome)
      → after_setop st kind other rest ≡ ok o
      → SourcesOf st.sources (sources_read other ++ ops_read rest) o
  unfolding ops_read
  after_setop_sources st kind other no_ops o h =
      subst (SourcesOf st.sources (sources_read other ++ [])) (ok_inj (combined st kind other) o h)
        (ap (λ ds. st.sources ++ ds) (sym (append-nil (sources_read other))))
  after_setop_sources st kind other (then_op op rest) o h = cc

  finish_derive_sources :
      (name : Text) (metric : JitMetric) (st : Progress) (o : Outcome)
      → finish_derive name metric source key opts st ≡ ok o
      → SourcesOf st.sources (metric_event metric ∷ []) o
  finish_derive_sources name metric st o h =
      let (limit, _, rendered) = >>=-eq-ok (survivor_limit opts.derive_limit) _ h in
      let (c, _, last) =
        >>=-eq-ok
          (compile_derive_metric (survivor_cte source key st.conjuncts opts.alias limit) name metric
            st.params opts.alias opts.tenant)
          _ rendered in
      subst (SourcesOf st.sources (metric_event metric ∷ [])) (ok_inj _ o last) refl

  narrowing_step :
      (op : Op) (rest : Ops) (st : Progress) (o : Outcome)
      → ((st' : Progress)
          → compile_ops source key as_of opts rest st' ≡ ok o
          → SourcesOf st'.sources (ops_read rest) o)
      → (compile_narrowing source key as_of opts op st >>= compile_ops source key as_of opts rest)
        ≡ ok o
      → SourcesOf st.sources (op_read op ++ ops_read rest) o
  narrowing_step op rest st o later h =
      let (st', stepped, more) =
        >>=-eq-ok (compile_narrowing source key as_of opts op st)
          (compile_ops source key as_of opts rest) h in
      after_step st.sources st'.sources (op_read op) (ops_read rest) o
        (compile_narrowing_sources op st st' stepped) (later st' more)

  compile_ops_sources :
      (ops : Ops) (st : Progress) (o : Outcome)
      → compile_ops source key as_of opts ops st ≡ ok o
      → SourcesOf st.sources (ops_read ops) o
  unfolding compile_ops ops_read op_read
  compile_ops_sources no_ops st o h =
      subst (SourcesOf st.sources []) (ok_inj (plain st) o h) (sym (append-nil st.sources))
  compile_ops_sources (then_op (set_op kind other) rest) st o h =
      after_setop_sources st kind other rest o h
  compile_ops_sources (then_op (derive name metric) rest) st o h =
      finish_derive_sources name metric st o h
  compile_ops_sources (then_op (filter p) rest) st o h =
      narrowing_step (filter p) rest st o (λ st'. compile_ops_sources rest st' o) h
  compile_ops_sources (then_op (recency w) rest) st o h =
      narrowing_step (recency w) rest st o (λ st'. compile_ops_sources rest st' o) h
  compile_ops_sources (then_op (lapsed w) rest) st o h =
      narrowing_step (lapsed w) rest st o (λ st'. compile_ops_sources rest st' o) h
  compile_ops_sources (then_op (feature n c v) rest) st o h =
      narrowing_step (feature n c v) rest st o (λ st'. compile_ops_sources rest st' o) h
  compile_ops_sources (then_op (exclude c) rest) st o h =
      narrowing_step (exclude c) rest st o (λ st'. compile_ops_sources rest st' o) h
  compile_ops_sources (then_op (characterize p) rest) st o h =
      narrowing_step (characterize p) rest st o (λ st'. compile_ops_sources rest st' o) h
  compile_ops_sources (then_op similar rest) st o h =
      narrowing_step similar rest st o (λ st'. compile_ops_sources rest st' o) h

  finish_sources :
      (recurse : SegmentQuery → QueryResult CompiledQuery) (ops : Ops) (o : Outcome)
      (c : CompiledQuery)
      → ((q : SegmentQuery) (d : CompiledQuery) → recurse q ≡ ok d → d.sources ≡ sources_read q)
      → SourcesOf (source ∷ []) (ops_read ops) o
      → finish recurse source key opts o ≡ ok c
      → c.sources ≡ source ∷ ops_read ops
  finish_sources recurse ops (returned d) c below h f = ap (λ x. x.sources) (sym (ok_inj d c f)) ∙ h
  finish_sources recurse ops (plain st) c below h f = ap (λ x. x.sources) (sym (ok_inj _ c f)) ∙ h
  finish_sources recurse ops (combined st kind other) c below h f =
      let (d, compiled, last) = >>=-eq-ok (recurse other) _ f in
      ap (λ x. x.sources) (sym (ok_inj _ c last))
      ∙ (ap (λ ds. st.sources ++ ds) (below other d compiled) ∙ h)

compile_at_sources :
    (levels : ℕ) (opts : CompileOptions) (q : SegmentQuery) (c : CompiledQuery)
    → compile_at levels opts q ≡ ok c
    → c.sources ≡ sources_read q
unfolding compile_at sources_read
compile_at_sources zero opts q c h = cc
compile_at_sources (suc levels) opts (segment source key ops as_of) c h =
    let (o, looped, finished) =
      >>=-eq-ok (compile_ops source key as_of opts ops (begin source opts))
        (finish (compile_at levels opts) source key opts) h in
    finish_sources source key as_of opts (compile_at levels opts) ops o c
      (λ q d. compile_at_sources levels opts q d)
      (compile_ops_sources source key as_of opts ops (begin source opts) o looped) finished

-- Whatever the compiler returns, the datasets it reports, from which the freshness of the answer is
-- taken, are the source and the event relations of the ops in their order, up to a `Derive`, and in
-- the place of a set operation those of the other segment.
pub compile_with_opts-sources_read :
    (q : SegmentQuery) (opts : CompileOptions) (c : CompiledQuery)
    → compile_with_opts q opts ≡ ok c
    → c.sources ≡ sources_read q
unfolding compile_with_opts
compile_with_opts-sources_read q opts c h = compile_at_sources max_levels opts q c h
