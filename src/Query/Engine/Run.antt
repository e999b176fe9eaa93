-- ===== src/Query/Engine/Run.antt =====
-- `enforce` of crates/query/src/guardrail.rs, and `compile_and_check`, `prepare` and `run_sync` of
-- crates/query/src/engine.rs. Parameters: the reader; the row estimate of the EXPLAIN pre-flight;
-- the profile that `assemble_profile` makes of three tables; the uuid; the clock; the permit.
use consumer_engine.Prelude.{
  ℕ, ℤ, Bool, true, false, ◌||◌, Option, none, some, List, [], ◌∷◌, ◌++◌, Text, text, fmt, ltb,
  length, if◌then◌else◌, ok, err, ◌>>=◌, ◌>>◌,
}
use consumer_engine.Core.Config.{GuardrailConfig, SuppressionRules}
use consumer_engine.Core.Dataset.{Dataset}
use consumer_engine.Core.Freshness.{Sources, Freshness, worst}
use consumer_engine.Query.Json.{Json}
use consumer_engine.Query.Ast.{
  ops_of, SegmentQuery, segment, Ops, no_ops, then_op, Op, derive, characterize,
}
use consumer_engine.Query.Fault.{
  QueryResult, guardrail, max_output_rows, too_large, survivor_unbounded, execution,
}
use consumer_engine.Query.Compiler.Types.{CompileOptions, CompiledQuery, read_only_catalog_alias}
use consumer_engine.Query.Compiler.Segments.{compile_with_opts}
use consumer_engine.Query.Compiler.Profiles.{compile_characterize}
use consumer_engine.Query.Engine.Reader.{Table, Reader, timed_read, first_of_first, as_u64, or_zero}
use consumer_engine.Query.Engine.Catalogue.{enforce_catalogue}

pub data Mode : Type 0 where
  sync async : Mode

pub record Plan : Type 0 where
  pub mode : Mode
  pub est_rows : ℕ
  pub sources : List Dataset

pub record SyncResult : Type 0 where
  pub columns : List Text
  pub rows : List (List Json)
  pub count : ℕ
  pub freshness : Freshness
  pub query_id : Text

abbrev pub is_derive : Op → Bool
is_derive (derive name metric) = true
is_derive _ = false

abbrev pub is_characterize : Op → Bool
is_characterize (characterize p) = true
is_characterize _ = false

unfoldable pub any_op : (Op → Bool) → Ops → Bool
any_op p no_ops = false
any_op p (then_op op rest) = let later = any_op p rest in p op || later

unfoldable pub has_derive : SegmentQuery → Bool
unfolding any_op
has_derive q = any_op is_derive (ops_of q)

unfoldable pub has_characterize : SegmentQuery → Bool
unfolding any_op
has_characterize q = any_op is_characterize (ops_of q)

unfoldable pub drop_derives : Ops → Ops
drop_derives no_ops = no_ops
drop_derives (then_op op rest) =
    let kept = drop_derives rest in if is_derive op then kept else then_op op kept

unfoldable pub strip_derive : SegmentQuery → SegmentQuery
unfolding drop_derives
strip_derive (segment source key ops as_of) = segment source key (drop_derives ops) as_of

unfoldable pub enforce : ℕ → GuardrailConfig → QueryResult (Unit {0})
enforce est_rows cfg =
    if ltb cfg.max_output_rows est_rows then err (guardrail max_output_rows) else ok tt

abbrev pub options : SuppressionRules → Option ℕ → Text → CompileOptions
options suppression limit tenant = record {
  alias = read_only_catalog_alias;
  suppression = suppression;
  derive_limit = limit;
  tenant = tenant;
}

abbrev pub count_sql : CompiledQuery → Text
count_sql c = fmt (text "SELECT count(*) FROM (" ∷ c.sql ∷ text ") sub" ∷ [])

-- The cell of the count that the reader gave.
abbrev pub count_of : Table → ℕ
count_of qr = or_zero (as_u64 (first_of_first qr.rows))

-- The fields of the engine that a query reads.
pub record Engine : Type 0 where
  pub reader : Reader
  pub guardrails : GuardrailConfig
  pub suppression : SuppressionRules
  pub freshness : Sources

unfoldable pub derive_survivor_limit : Engine → SegmentQuery → Text → QueryResult ℕ
derive_survivor_limit e q tenant = do
  c ← compile_with_opts (strip_derive q) (options e.suppression none tenant)
  qr ← timed_read e.reader (count_sql c) c.params
  if ltb e.guardrails.j_survivor_cap (count_of qr) then err survivor_unbounded else ok (count_of qr)

-- The limit of a segment with a `Derive`, none for the others.
abbrev pub limit_for : Bool → Engine → SegmentQuery → Text → QueryResult (Option ℕ)
limit_for true e q tenant = derive_survivor_limit e q tenant >>= λ n. ok (some n)
limit_for false e q tenant = ok none

unfoldable pub compile_and_check : Engine → SegmentQuery → Text → QueryResult CompiledQuery
unfolding derive_survivor_limit
compile_and_check e q tenant =
    enforce_catalogue e.reader e.freshness tenant e.guardrails q
    >> limit_for (has_derive q) e q tenant
    >>= λ limit. compile_with_opts q (options e.suppression limit tenant)

module _ (explain : CompiledQuery → ℕ) where
  unfoldable pub prepare : Engine → SegmentQuery → Text → QueryResult (Plan × CompiledQuery)
  unfolding compile_and_check enforce
  prepare e q tenant = compile_and_check e q tenant >>= λ compiled.
      enforce (explain compiled) e.guardrails
      >> ok (
        (record {
          mode = if ltb e.guardrails.sync_row_cap (explain compiled) then async else sync;
          est_rows = explain compiled;
          sources = compiled.sources;
        }),
        compiled,
      )

module _ (assemble_profile : Table → Table → Table → Json) (uuid : Text) (now : ℤ) where
  unfoldable pub run_characterize : Engine → SegmentQuery → Text → QueryResult SyncResult
  run_characterize e q tenant =
      enforce_catalogue e.reader e.freshness tenant e.guardrails q
      >> compile_characterize q (options e.suppression none tenant)
      >>= λ queries. timed_read e.reader queries.metrics.sql queries.metrics.params >>= λ metrics.
          timed_read e.reader queries.recency.sql queries.recency.params >>= λ recency_table.
          timed_read e.reader queries.categories.sql queries.categories.params >>= λ categories.
          ok (record {
            columns = text "profile" ∷ [];
            rows = (assemble_profile metrics recency_table categories ∷ []) ∷ [];
            count = 1;
            freshness = worst e.freshness now queries.metrics.sources;
            query_id = text "q_" ++ uuid;
          })

-- The output row cap and the answer.
abbrev pub answer : Engine → Text → ℤ → CompiledQuery → Table → QueryResult SyncResult
answer e uuid now compiled qr =
    if ltb e.guardrails.max_output_rows (length qr.rows)
    then err (guardrail max_output_rows)
    else ok (record {
      columns = qr.columns;
      rows = qr.rows;
      count = length qr.rows;
      freshness = worst e.freshness now compiled.sources;
      query_id = text "q_" ++ uuid;
    })

abbrev pub execute : Engine → Text → ℤ → Plan × CompiledQuery → QueryResult SyncResult
execute e uuid now (p, compiled) = elim p.mode [
  | async ↦ err too_large
  | sync ↦ timed_read e.reader compiled.sql compiled.params >>= answer e uuid now compiled
]

module _ (explain : CompiledQuery → ℕ) (assemble_profile : Table → Table → Table → Json)
    (uuid : Text) (now : ℤ) where
  -- `permit` is false when the semaphore of the queries in flight is closed.
  unfoldable pub run_sync : Bool → Engine → SegmentQuery → Text → QueryResult SyncResult
  unfolding prepare run_characterize
  run_sync false e q tenant = err execution
  run_sync true e q tenant =
      if has_characterize q
      then run_characterize assemble_profile uuid now e q tenant
      else prepare explain e q tenant >>= execute e uuid now
