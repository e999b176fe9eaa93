-- ===== src/Query/Binding/Compiled.antt =====
-- The compiler of crates/query/src/compiler.rs binds every value in the place where it belongs.
use mathlib.Core.List.{append_assoc, append-nil}
use consumer_engine.Prelude.{
  ℕ, zero, suc, ◌≡◌, refl, ap, Bool, Option, some, List, [], ◌∷◌, ◌++◌, Text, text, fmt, ok, err,
}
use consumer_engine.Core.Dataset.{Dataset}
use consumer_engine.Query.Json.{Value}
use consumer_engine.Query.Ast.{SegmentQuery, segment, SetOpKind}
use consumer_engine.Query.Fault.{QueryResult}
use consumer_engine.Query.Validate.{validate}
use consumer_engine.Query.Validate.WellFormed.{IsWellFormed}
use consumer_engine.Query.Validate.Decides.{validate-iff-IsWellFormed}
use consumer_engine.Query.Compiler.Types.{CompileOptions, CompiledQuery}
use consumer_engine.Query.Compiler.Pieces.{setop_keyword, base_select}
use consumer_engine.Query.Compiler.Segments.{
  Progress, Outcome, returned, plain, combined, finish, begin, combine, base_sql, compile_at,
  max_levels, compile_with_opts,
}
use consumer_engine.Query.Inlined.Conjuncts.{tenant_is}
use consumer_engine.Query.Inlined.Segments
use consumer_engine.Query.Inlined.Segments.{InlinedOutcome, inlined_finish, inlined_at}
use consumer_engine.Query.Binding.{consume, IsPlain, bind_params}
use consumer_engine.Query.Binding.Rules.{done, lit, sub, Reads-fmt}
use consumer_engine.Query.Binding.Agreement.{Agree, Agree-bind}
use consumer_engine.Query.Binding.Composition.{EmitsAll-one}
use consumer_engine.Query.Binding.Names.{IsIdent-IsPlain}
use consumer_engine.Query.Binding.Predicates.{tenant_eq-Emits}
use consumer_engine.Query.Binding.Events.{IsPlainDataset}
use consumer_engine.Query.Binding.Metrics.{Reads-base_select}
use consumer_engine.Query.Binding.Segments.{
  IsBound, Tracks, Follows, dataset-IsPlain, setop_keyword-IsPlain, ops-Agree,
}

module _ (render : Value → Text) where
  -- Binding the parameters of the outcome, or the error.
  abbrev pub bound : QueryResult CompiledQuery → QueryResult (Option Text)
  bound (ok c) = ok (bind_params render c.sql c.params)
  bound (err e) = err e

-- The text, none of whose parameters is left.
abbrev pub written : QueryResult Text → QueryResult (Option Text)
written (ok t) = ok (some t)
written (err e) = err e

module _ (render : Value → Text) (is_rfc3339 : Text → Bool) where
  begin-Tracks :
      (source : Dataset) (opts : CompileOptions)
      → Tracks render is_rfc3339
          (begin source opts)
          (tenant_is render (text "base") opts.tenant ∷ [])
  begin-Tracks source opts =
      EmitsAll-one render
        (tenant_eq-Emits render (text "base") [] opts.tenant (unfold text in refl))

  module _ (source : Dataset) (key : Text) (opts : CompileOptions) (d : IsPlainDataset source)
      (k : IsPlain key) (a : IsPlain opts.alias) where
    combine-IsBound :
        (kind : SetOpKind) (st : Progress) (cs : List Text) (c : CompiledQuery) (t : Text)
        → Tracks render is_rfc3339 st cs
        → IsBound render is_rfc3339 c t
        → IsBound render is_rfc3339 (combine (base_sql source key opts st) kind st c) (
            fmt (
              text "("
              ∷ base_select source key cs opts.alias
              ∷ text ") "
              ∷ setop_keyword kind
              ∷ text " ("
              ∷ t
              ∷ text ")"
              ∷ []))
    unfolding text
    combine-IsBound kind st cs c t tr b = record {
      reads = λ rest. rw (append_assoc st.params c.params rest) (
          rw (tr.grows (c.params ++ rest)) (
            Reads-fmt render (
              lit refl (
                sub
                  (Reads-base_select render source key opts.alias d k a
                    (tr.reads (c.params ++ rest)))
                  (lit refl (
                    lit (setop_keyword-IsPlain kind)
                      (lit refl (sub (b.reads rest) (lit refl done)))))))));
    }

    finish-Agree :
        (code : SegmentQuery → QueryResult CompiledQuery) (meant : SegmentQuery → QueryResult Text)
        → ((q : SegmentQuery)
            → IsWellFormed is_rfc3339 q
            → Agree (IsBound render is_rfc3339) (code q) (meant q))
        → (o : Outcome) (i : InlinedOutcome) → Follows render is_rfc3339 o i
        → Agree
            (IsBound render is_rfc3339)
            (finish code source key opts o)
            (inlined_finish render meant source key opts i)
    finish-Agree code meant ih (returned c) (Segments.returned t) h = h
    finish-Agree code meant ih (plain st) (Segments.plain cs) h = record {
      reads = λ rest.
          rw (h.grows rest) (Reads-base_select render source key opts.alias d k a (h.reads rest));
    }
    finish-Agree code meant ih (combined st kind o) (Segments.combined cs kind' o') (tr, e, f, w) =
        rw (← e, ← f)
          (Agree-bind (IsBound render is_rfc3339) (IsBound render is_rfc3339) (code o) (meant o) _ _
            (ih o w) λ c t b. combine-IsBound kind st cs c t tr b)
    finish-Agree code meant ih (returned c) (Segments.plain cs) h = elim h [ ]
    finish-Agree code meant ih (returned c) (Segments.combined cs kind o) h = elim h [ ]
    finish-Agree code meant ih (plain st) (Segments.returned t) h = elim h [ ]
    finish-Agree code meant ih (plain st) (Segments.combined cs kind o) h = elim h [ ]
    finish-Agree code meant ih (combined st kind o) (Segments.returned t) h = elim h [ ]
    finish-Agree code meant ih (combined st kind o) (Segments.plain cs) h = elim h [ ]

  compile_at-Agree :
      (levels : ℕ) (opts : CompileOptions) (q : SegmentQuery)
      → IsPlain opts.alias
      → IsWellFormed is_rfc3339 q
      → Agree
          (IsBound render is_rfc3339)
          (compile_at levels opts q)
          (inlined_at render levels opts q)
  unfolding compile_at inlined_at
  compile_at-Agree zero opts q a h = refl
  compile_at-Agree (suc levels) opts (segment source key ops as_of) a h =
      let d = dataset-IsPlain source h.0 in
      let k = IsIdent-IsPlain key h.1 in
      Agree-bind (Follows render is_rfc3339) (IsBound render is_rfc3339) _ _ _ _
        (ops-Agree render is_rfc3339 source key as_of opts d k a ops _ _ h.4
          (begin-Tracks source opts))
        (finish-Agree source key opts d k a (compile_at levels opts) (inlined_at render levels opts)
          (λ q' w. compile_at-Agree levels opts q' a w))

  bound_whole :
      (c : CompiledQuery) (t : Text)
      → consume render c.sql c.params ≡ some (t, [])
      → bind_params render c.sql c.params ≡ some t
  unfolding bind_params
  bound_whole c t h = rw h

  bound-written :
      (m : QueryResult CompiledQuery) (n : QueryResult Text)
      → Agree (IsBound render is_rfc3339) m n
      → bound render m ≡ written n
  bound-written (ok c) (ok t) h = ap ok (bound_whole c t (rw append-nil at (h.reads []).read))
  bound-written (err e) (err f) h = ap err h
  bound-written (ok c) (err f) h = elim h [ ]
  bound-written (err e) (ok t) h = elim h [ ]

  -- For a validated segment and an alias with no `?`, whatever way `render` writes a value: if the
  -- compiler returns a query, putting its parameters one by one in the place of the `?`s uses up all
  -- of them and gives the SELECT of the reference, which has each value in its place; and the
  -- compiler fails exactly where the reference does, with the same error.
  pub compile_with_opts-binds :
      (q : SegmentQuery) (opts : CompileOptions)
      → validate is_rfc3339 q ≡ ok tt
      → IsPlain opts.alias
      → bound render (compile_with_opts q opts) ≡ written (inlined_at render max_levels opts q)
  unfolding compile_with_opts
  compile_with_opts-binds q opts h a =
      bound-written (compile_at max_levels opts q) (inlined_at render max_levels opts q)
        (compile_at-Agree max_levels opts q a ((validate-iff-IsWellFormed is_rfc3339 q).0 h))
