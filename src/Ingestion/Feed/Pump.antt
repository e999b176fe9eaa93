-- ===== src/Ingestion/Feed/Pump.antt =====
-- cdc.rs: `run_cdc_pump` over an adapter and the writer's thread, a round of the loop at a time.
pub mod Laws
use consumer_engine.Prelude.{
  ℤ, ℕ, ◌*◌, ltb, Option, none, some, List, [], ◌∷◌, Text, Result, ok, err, map_err, if◌then◌else◌,
}
use consumer_engine.Core.Freshness.{cdc, Sources, set}
use consumer_engine.Storage.Machine.{StorageError, bad_ident}
use consumer_engine.Ingestion.Interface.{SourceBatch}
use consumer_engine.Ingestion.Flush.{nanos_per_sec}

-- What `SourceAdapter` and `IngestionHandle` offer to the pump.
pub record PumpOps (S W : Type 0) : Type 0 where
  pub read_cdc_offsets : W → Result StorageError (List (ℤ × ℤ)) × W
  pub resume : List (ℤ × ℤ) → S → Result StorageError (Unit {0}) × S
  pub next_batch : S → Result StorageError (Option SourceBatch) × S
  pub apply_cdc_batch : SourceBatch → W → Result StorageError ℕ × W

-- `slept` holds the waits, the latest first, in nanoseconds.
pub record Pump (S W : Type 0) : Type 0 where
  pub adapter : S
  pub handle : W
  pub freshness : Sources
  pub backoff : ℕ
  pub slept : List ℕ

abbrev pub max_backoff : ℕ
max_backoff = 30 * nanos_per_sec

module _ {S W : Type 0} (ops : PumpOps S W) (poll_interval : ℕ) where
  -- `Err(e)`: a wait, and then a longer one.
  unfoldable pub retry : Pump S W → Pump S W
  retry p = record p {
    slept = p.backoff ∷ p.slept;
    backoff = if ltb max_backoff (p.backoff * 2) then max_backoff else p.backoff * 2;
  }

  abbrev pub marked : Pump S W → Result StorageError Sources → Pump S W
  marked p (ok sources) = record p { freshness = sources; backoff = poll_interval }
  marked p (err e) = retry p

  abbrev pub applied : SourceBatch → ℤ → Pump S W → Result StorageError ℕ × W → Pump S W
  applied b epoch p (err e, w) = retry (record p { handle = w })
  applied b epoch p (ok rows, w) =
      marked (record p { handle = w })
        (map_err bad_ident (set b.system b.entity cdc epoch p.freshness))

  abbrev pub taken : ℤ → Pump S W → Result StorageError (Option SourceBatch) × S → Pump S W
  taken epoch p (err e, s) = retry (record p { adapter = s })
  taken epoch p (ok none, s) = record p {
    adapter = s;
    backoff = poll_interval;
    slept = poll_interval ∷ p.slept;
  }
  taken epoch p (ok (some b), s) =
      applied b epoch (record p { adapter = s }) (ops.apply_cdc_batch b p.handle)

  -- One round, at the time of day `epoch`.
  unfoldable pub round : ℤ → Pump S W → Pump S W
  unfolding set retry
  round epoch p = taken epoch p (ops.next_batch p.adapter)

  unfoldable pub rounds : List ℤ → Pump S W → Pump S W
  unfolding round
  rounds [] p = p
  rounds (epoch ∷ more) p = rounds more (round epoch p)

  abbrev pub resumed :
      List ℤ
      → Pump S W
      → Result StorageError (Unit {0}) × S
      → Result StorageError (Unit {0}) × Pump S W
  resumed epochs p (err e, s) = (err e, record p { adapter = s })
  resumed epochs p (ok done, s) = (ok tt, rounds epochs (record p { adapter = s }))

  abbrev pub started :
      List ℤ
      → Pump S W
      → Result StorageError (List (ℤ × ℤ)) × W
      → Result StorageError (Unit {0}) × Pump S W
  started epochs p (err e, w) = (err e, record p { handle = w })
  started epochs p (ok [], w) = (ok tt, rounds epochs (record p { handle = w }))
  started epochs p (ok (o ∷ os), w) =
      resumed epochs (record p { handle = w }) (ops.resume (o ∷ os) p.adapter)

  -- The loop has no end of its own: these are its first rounds.
  unfoldable pub run_cdc_pump : List ℤ → Pump S W → Result StorageError (Unit {0}) × Pump S W
  unfolding rounds
  run_cdc_pump epochs p = started epochs p (ops.read_cdc_offsets p.handle)
