-- ===== src/Query/Engine/Guarded.antt =====
-- The budgets of a synchronous run (crates/query/src/engine.rs, crates/query/src/guardrail.rs).
use consumer_engine.Prelude.{
  subst, ℕ, ℤ, ◌≤◌, ◌≡◌, ◌↔◌, refl, sym, Bool, true, false, Text, text, ◌++◌, ltb, length,
  if◌then◌else◌, ok, err, ◌>>=◌, ◌>>◌, >>=-eq-ok, arith,
}
use consumer_engine.Core.Config.{GuardrailConfig}
use consumer_engine.Core.Freshness.{worst}
use consumer_engine.Query.Json.{Json}
use consumer_engine.Query.Ast.{SegmentQuery}
use consumer_engine.Query.Fault.{QueryResult, guardrail, max_output_rows}
use consumer_engine.Query.Compiler.Types.{CompiledQuery}
use consumer_engine.Query.Engine.Reader.{Table, timed_read}
use consumer_engine.Query.Engine.Run.{
  sync, async, Plan, SyncResult, has_characterize, enforce, Engine, compile_and_check, prepare,
  answer, execute, run_sync,
}

abbrev pub result_of : Engine → Text → ℤ → CompiledQuery → Table → SyncResult
result_of e uuid now c t = record {
  columns = t.columns;
  rows = t.rows;
  count = length t.rows;
  freshness = worst e.freshness now c.sources;
  query_id = text "q_" ++ uuid;
}

enforce_iff :
    (est : ℕ) (cfg : GuardrailConfig) → (enforce est cfg ≡ ok tt) ↔ (est ≤ cfg.max_output_rows)
unfolding enforce
enforce_iff est cfg = ground arith

cap_iff :
    (cap n : ℕ) (a b : SyncResult)
    → ((if ltb cap n then err (guardrail max_output_rows) else ok a) ≡ ok b) ↔ ((n ≤ cap) × (a ≡ b))
cap_iff cap n a b = ground arith

answer_iff :
    (e : Engine) (uuid : Text) (now : ℤ) (c : CompiledQuery) (t : Table) (r : SyncResult)
    → (answer e uuid now c t ≡ ok r)
      ↔ ((length t.rows ≤ e.guardrails.max_output_rows) × (result_of e uuid now c t ≡ r))
answer_iff e uuid now c t r =
    cap_iff e.guardrails.max_output_rows (length t.rows) (result_of e uuid now c t) r

module _ (explain : CompiledQuery → ℕ) (assemble_profile : Table → Table → Table → Json)
    (uuid : Text) (now : ℤ) where
  -- What makes a run answer.
  abbrev pub IsWithinBudgets : Engine → SegmentQuery → Text → SyncResult → Type 0
  IsWithinBudgets e q tenant r =
      (c : CompiledQuery) × (t : Table) × (compile_and_check e q tenant ≡ ok c)
      × (explain c ≤ e.guardrails.max_output_rows)
      × (explain c ≤ e.guardrails.sync_row_cap)
      × (timed_read e.reader c.sql c.params ≡ ok t)
      × (length t.rows ≤ e.guardrails.max_output_rows)
      × (result_of e uuid now c t ≡ r)

  planned : Engine → CompiledQuery → Plan × CompiledQuery
  planned e c = (
    record {
      mode = if ltb e.guardrails.sync_row_cap (explain c) then async else sync;
      est_rows = explain c;
      sources = c.sources;
    },
    c,
  )

  planned-inj :
      (e : Engine) (c : CompiledQuery) (p : Plan × CompiledQuery)
      → Path (QueryResult (Plan × CompiledQuery)) (ok (planned e c)) (ok p)
      → planned e c ≡ p
  planned-inj e c p h = cc

  prepare_sound :
      (e : Engine) (q : SegmentQuery) (tenant : Text) (p : Plan × CompiledQuery)
      → prepare explain e q tenant ≡ ok p
      → (c : CompiledQuery) × (compile_and_check e q tenant ≡ ok c)
        × (explain c ≤ e.guardrails.max_output_rows)
        × (planned e c ≡ p)
  unfolding prepare planned
  prepare_sound e q tenant p h =
      let (c, compiled, rest) =
        >>=-eq-ok (compile_and_check e q tenant)
          (λ c. enforce (explain c) e.guardrails >> ok (planned e c)) h in
      let (_, small, last) =
        >>=-eq-ok (enforce (explain c) e.guardrails) (λ _. ok (planned e c)) rest in
      (c, compiled, (enforce_iff (explain c) e.guardrails).0 small, planned-inj e c p last)

  execute_sound :
      (e : Engine) (c : CompiledQuery) (r : SyncResult)
      → execute e uuid now (planned e c) ≡ ok r
      → (explain c ≤ e.guardrails.sync_row_cap)
        × ((timed_read e.reader c.sql c.params >>= answer e uuid now c) ≡ ok r)
  unfolding planned
  execute_sound e c r h = ground arith

  execute-small :
      (e : Engine) (c : CompiledQuery)
      → explain c ≤ e.guardrails.sync_row_cap
      → execute e uuid now (planned e c)
        ≡ (timed_read e.reader c.sql c.params >>= answer e uuid now c)
  unfolding planned
  execute-small e c h = ground arith

  run_sync_sound :
      (permit : Bool) (e : Engine) (q : SegmentQuery) (tenant : Text) (r : SyncResult)
      → has_characterize q ≡ false
      → run_sync explain assemble_profile uuid now permit e q tenant ≡ ok r
      → (permit ≡ true) × IsWithinBudgets e q tenant r
  unfolding run_sync
  run_sync_sound false e q tenant r plain h = cc
  run_sync_sound true e q tenant r plain h =
      let (p, prepared, ran) =
        >>=-eq-ok (prepare explain e q tenant) (execute e uuid now) (rw plain at h) in
      let (c, compiled, small, same) = prepare_sound e q tenant p prepared in
      let (sync_small, read_on) =
        execute_sound e c r (subst (λ p. execute e uuid now p ≡ ok r) (sym same) ran) in
      let (t, read, answered) =
        >>=-eq-ok (timed_read e.reader c.sql c.params) (answer e uuid now c) read_on in
      let (few, result) = (answer_iff e uuid now c t r).0 answered in
      (refl, (c, t, compiled, small, sync_small, read, few, result))

  prepare_complete :
      (e : Engine) (q : SegmentQuery) (tenant : Text) (c : CompiledQuery)
      → compile_and_check e q tenant ≡ ok c
      → explain c ≤ e.guardrails.max_output_rows
      → prepare explain e q tenant ≡ ok (planned e c)
  unfolding prepare planned
  prepare_complete e q tenant c compiled small =
      rw compiled (rw ((enforce_iff (explain c) e.guardrails).1 small))

  run_sync_complete :
      (permit : Bool) (e : Engine) (q : SegmentQuery) (tenant : Text) (r : SyncResult)
      → has_characterize q ≡ false
      → (permit ≡ true) × IsWithinBudgets e q tenant r
      → run_sync explain assemble_profile uuid now permit e q tenant ≡ ok r
  unfolding run_sync
  run_sync_complete false e q tenant r plain (given, _) = cc
  run_sync_complete true e q tenant r plain
        (given, (c, t, compiled, small, sync_small, read, few, result)) =
      rw plain (
        rw (prepare_complete e q tenant c compiled small) (
          rw (execute-small e c sync_small)
            (rw read ((answer_iff e uuid now c t r).1 (few, result)))))

  -- A segment without a `Characterize` is answered exactly when a permit was given, it passes the
  -- catalogue check and compiles, its estimate is within both row budgets, the reader finishes, and
  -- the rows that it gave are within the output cap; the answer is those rows, their number, and
  -- the worst freshness of the sources that the compilation read.
  pub run_sync_iff :
      (permit : Bool) (e : Engine) (q : SegmentQuery) (tenant : Text) (r : SyncResult)
      → has_characterize q ≡ false
      → (run_sync explain assemble_profile uuid now permit e q tenant ≡ ok r)
        ↔ ((permit ≡ true) × IsWithinBudgets e q tenant r)
  run_sync_iff permit e q tenant r plain =
      (run_sync_sound permit e q tenant r plain, run_sync_complete permit e q tenant r plain)
