-- ===== src/Query/Engine/Survivors.antt =====
-- The survivor limit of a segment with a `Derive` (crates/query/src/engine.rs).
use consumer_engine.Prelude.{
  subst, ℕ, ◌≤◌, ◌≡◌, sym, Bool, true, false, Option, none, some, Text, ltb, if◌then◌else◌, ok, err,
  ◌>>=◌, ◌>>◌, >>=-eq-ok, arith,
}
use consumer_engine.Query.Ast.{SegmentQuery}
use consumer_engine.Query.Fault.{QueryResult, survivor_unbounded}
use consumer_engine.Query.Compiler.Types.{CompiledQuery}
use consumer_engine.Query.Compiler.Segments.{compile_with_opts}
use consumer_engine.Query.Engine.Reader.{Table, timed_read}
use consumer_engine.Query.Engine.Catalogue.{enforce_catalogue}
use consumer_engine.Query.Engine.Run.{
  has_derive, strip_derive, options, count_sql, count_of, Engine, derive_survivor_limit, limit_for,
  compile_and_check,
}

-- The number of survivors that the reader counts for the segment without its `Derive`.
abbrev pub IsMeasured : Engine → SegmentQuery → Text → ℕ → Type 0
IsMeasured e q tenant n =
    (c : CompiledQuery) × (t : Table) × (compile_with_opts (strip_derive q)
        (options e.suppression none tenant)
      ≡ ok c)
    × (timed_read e.reader (count_sql c) c.params ≡ ok t)
    × (count_of t ≡ n)

capped :
    (cap n m : ℕ)
    → Path (QueryResult ℕ) (if ltb cap n then err survivor_unbounded else ok n) (ok m)
    → (n ≡ m) × (m ≤ cap)
capped cap n m h = ground arith

derive_survivor_limit_sound :
    (e : Engine) (q : SegmentQuery) (tenant : Text) (n : ℕ)
    → derive_survivor_limit e q tenant ≡ ok n
    → IsMeasured e q tenant n × (n ≤ e.guardrails.j_survivor_cap)
unfolding derive_survivor_limit
derive_survivor_limit_sound e q tenant n h =
    let (c, compiled, rest) =
      >>=-eq-ok (compile_with_opts (strip_derive q) (options e.suppression none tenant))
        (λ c. timed_read e.reader (count_sql c) c.params >>= λ qr.
          if ltb e.guardrails.j_survivor_cap (count_of qr)
          then err survivor_unbounded
          else ok (count_of qr))
        h in
    let (t, read, last) =
      >>=-eq-ok (timed_read e.reader (count_sql c) c.params)
        (λ qr.
          if ltb e.guardrails.j_survivor_cap (count_of qr)
          then err survivor_unbounded
          else ok (count_of qr))
        rest in
    let (same, bound) = capped e.guardrails.j_survivor_cap (count_of t) n last in
    ((c, t, compiled, read, same), bound)

some-limit :
    (n : ℕ) (limit : Option ℕ)
    → Path (QueryResult (Option ℕ)) (ok (some n)) (ok limit)
    → some n ≡ limit
some-limit n limit h = cc

limit_for-derive :
    (e : Engine) (q : SegmentQuery) (tenant : Text) (derives : Bool) (limit : Option ℕ)
    → derives ≡ true
    → limit_for derives e q tenant ≡ ok limit
    → (n : ℕ) × (derive_survivor_limit e q tenant ≡ ok n) × (some n ≡ limit)
limit_for-derive e q tenant true limit d h =
    let (n, found, same) = >>=-eq-ok (derive_survivor_limit e q tenant) (λ n. ok (some n)) h in
    (n, found, some-limit n limit same)
limit_for-derive e q tenant false limit d h = cc

-- A segment with a `Derive` is compiled only under a limit on the survivors that is their measured
-- number (what a count over the compiled narrowing returned, 0 for an answer that is no number; not
-- the estimate of a plan, of which the doc of compile_and_check and specs/12 speak), and that number
-- is within the cap; the catalogue check has passed before.
pub compile_and_check-survivors :
    (e : Engine) (q : SegmentQuery) (tenant : Text) (c : CompiledQuery)
    → has_derive q ≡ true
    → compile_and_check e q tenant ≡ ok c
    → (n : ℕ) × IsMeasured e q tenant n
      × (n ≤ e.guardrails.j_survivor_cap)
      × (compile_with_opts q (options e.suppression (some n) tenant) ≡ ok c)
      × (enforce_catalogue e.reader e.freshness tenant e.guardrails q ≡ ok tt)
unfolding compile_and_check
compile_and_check-survivors e q tenant c derives h =
    let (limit, limited, compiled) =
      >>=-eq-ok
        (enforce_catalogue e.reader e.freshness tenant e.guardrails q
          >> limit_for (has_derive q) e q tenant)
        (λ limit. compile_with_opts q (options e.suppression limit tenant)) h in
    let (_, catalogued, chosen) =
      >>=-eq-ok (enforce_catalogue e.reader e.freshness tenant e.guardrails q)
        (λ _. limit_for (has_derive q) e q tenant) limited in
    let (n, found, is_limit) = limit_for-derive e q tenant (has_derive q) limit derives chosen in
    let (measured, bound) = derive_survivor_limit_sound e q tenant n found in
    (
      n,
      measured,
      bound,
      subst (λ l. compile_with_opts q (options e.suppression l tenant) ≡ ok c) (sym is_limit)
          compiled,
      catalogued,
    )
