-- ===== src/Ingestion/Feed/Pump/Laws.antt =====
-- What a round of the pump may do, and how long it waits.
use consumer_engine.Prelude.{
  ℤ, ℕ, ◌≤◌, ◌≡◌, refl, sym, ◌⊎◌, inl, inr, Option, none, some, List, [], ◌∷◌, Result, ok, err,
  map_err, All, arith,
}
use consumer_engine.Core.Ident.{IdentError}
use consumer_engine.Core.Freshness.{cdc, Sources, set}
use consumer_engine.Storage.Machine.{StorageError, bad_ident}
use consumer_engine.Ingestion.Interface.{SourceBatch}
use consumer_engine.Ingestion.Feed.Pump.{
  PumpOps, Pump, max_backoff, retry, marked, applied, taken, round, rounds,
}

module _ {S W : Type 0} (ops : PumpOps S W) (poll_interval : ℕ) where
  -- Every wait, past and next, is between the poll interval and 30 seconds.
  pub record IsPaced (p : Pump S W) : Type 0 where
    pub least : poll_interval ≤ p.backoff
    pub most : p.backoff ≤ max_backoff
    pub waits : All (λ t. (poll_interval ≤ t) × (t ≤ max_backoff)) p.slept

  retry-IsPaced :
      (p : Pump S W) → poll_interval ≤ max_backoff → IsPaced p → IsPaced (retry ops poll_interval p)
  unfolding retry
  retry-IsPaced p short paced = record {
    least = ground (arith, short, paced.least);
    most = ground arith;
    waits = ((paced.least, paced.most), paced.waits);
  }

  handle-IsPaced : (p : Pump S W) (w : W) → IsPaced p → IsPaced (record p { handle = w })
  handle-IsPaced p w paced = record { least = paced.least; most = paced.most; waits = paced.waits }

  adapter-IsPaced : (p : Pump S W) (s : S) → IsPaced p → IsPaced (record p { adapter = s })
  adapter-IsPaced p s paced = record { least = paced.least; most = paced.most; waits = paced.waits }

  marked-IsPaced :
      (p : Pump S W) (r : Result StorageError Sources)
      → poll_interval ≤ max_backoff
      → IsPaced p
      → IsPaced (marked ops poll_interval p r)
  marked-IsPaced p (ok sources) short paced = record {
    least = omega arith;
    most = short;
    waits = paced.waits;
  }
  marked-IsPaced p (err e) short paced = retry-IsPaced p short paced

  applied-IsPaced :
      (b : SourceBatch) (epoch : ℤ) (p : Pump S W) (r : Result StorageError ℕ × W)
      → poll_interval ≤ max_backoff
      → IsPaced p
      → IsPaced (applied ops poll_interval b epoch p r)
  applied-IsPaced b epoch p (err e, w) short paced =
      retry-IsPaced _ short (handle-IsPaced p w paced)
  applied-IsPaced b epoch p (ok rows, w) short paced =
      marked-IsPaced (record p { handle = w })
        (map_err bad_ident (set b.system b.entity cdc epoch p.freshness)) short
        (handle-IsPaced p w paced)

  taken-IsPaced :
      (epoch : ℤ) (p : Pump S W) (r : Result StorageError (Option SourceBatch) × S)
      → poll_interval ≤ max_backoff
      → IsPaced p
      → IsPaced (taken ops poll_interval epoch p r)
  taken-IsPaced epoch p (err e, s) short paced = retry-IsPaced _ short (adapter-IsPaced p s paced)
  taken-IsPaced epoch p (ok none, s) short paced = record {
    least = omega arith;
    most = short;
    waits = ((omega arith, short), paced.waits);
  }
  taken-IsPaced epoch p (ok (some b), s) short paced =
      applied-IsPaced b epoch (record p { adapter = s }) (ops.apply_cdc_batch b p.handle) short
        (adapter-IsPaced p s paced)

  -- With a poll interval of at most 30 seconds, a pump that has waited between that interval and
  -- 30 seconds each time, and is about to, still has after any rounds.
  pub rounds-IsPaced :
      (epochs : List ℤ) (p : Pump S W)
      → poll_interval ≤ max_backoff
      → IsPaced p
      → IsPaced (rounds ops poll_interval epochs p)
  unfolding rounds round
  rounds-IsPaced [] p short paced = paced
  rounds-IsPaced (epoch ∷ more) p short paced =
      rounds-IsPaced more (round ops poll_interval epoch p) short
        (taken-IsPaced epoch p (ops.next_batch p.adapter) short paced)

  -- The batch of the round, applied, and its source marked.
  pub record IsMarked (epoch : ℤ) (before after : Pump S W) : Type 0 where
    pub batch : SourceBatch
    pub rows : ℕ
    pub came : (ops.next_batch before.adapter).0 ≡ ok (some batch)
    pub landed : (ops.apply_cdc_batch batch before.handle).0 ≡ ok rows
    pub fresh : ok after.freshness ≡ set batch.system batch.entity cdc epoch before.freshness

  marked_cases :
      (b : SourceBatch) (epoch : ℤ) (p q : Pump S W) (rows : ℕ)
      → q.freshness ≡ p.freshness
      → (ops.next_batch p.adapter).0 ≡ ok (some b)
      → (ops.apply_cdc_batch b p.handle).0 ≡ ok rows
      → (r : Result IdentError Sources) → set b.system b.entity cdc epoch p.freshness ≡ r
      → ((marked ops poll_interval q (map_err bad_ident r)).freshness ≡ p.freshness)
        ⊎ IsMarked epoch p (marked ops poll_interval q (map_err bad_ident r))
  unfolding retry
  marked_cases b epoch p q rows same came landed (ok sources) e =
      inr (record { batch = b; rows = rows; came = came; landed = landed; fresh = sym e })
  marked_cases b epoch p q rows same came landed (err x) e = inl same

  applied_cases :
      (b : SourceBatch) (epoch : ℤ) (p : Pump S W) (s : S) (r : Result StorageError ℕ × W)
      → (ops.next_batch p.adapter).0 ≡ ok (some b)
      → (ops.apply_cdc_batch b p.handle).0 ≡ r.0
      → ((applied ops poll_interval b epoch (record p { adapter = s }) r).freshness ≡ p.freshness)
        ⊎ IsMarked epoch p (applied ops poll_interval b epoch (record p { adapter = s }) r)
  unfolding retry
  applied_cases b epoch p s (err x, w) came e = inl refl
  applied_cases b epoch p s (ok rows, w) came e =
      marked_cases b epoch p (record p { adapter = s; handle = w }) rows refl came e
        (set b.system b.entity cdc epoch p.freshness) refl

  taken_cases :
      (epoch : ℤ) (p : Pump S W) (r : Result StorageError (Option SourceBatch) × S)
      → (ops.next_batch p.adapter).0 ≡ r.0
      → ((taken ops poll_interval epoch p r).freshness ≡ p.freshness)
        ⊎ IsMarked epoch p (taken ops poll_interval epoch p r)
  unfolding retry
  taken_cases epoch p (err x, s) e = inl refl
  taken_cases epoch p (ok none, s) e = inl refl
  taken_cases epoch p (ok (some b), s) e = applied_cases b epoch p s _ e refl

  -- A round leaves the freshness of every source as it was, or it marks one source as a change
  -- feed's at the time of the round, and then a batch of that source came and was applied.
  pub round-freshness :
      (epoch : ℤ) (p : Pump S W)
      → ((round ops poll_interval epoch p).freshness ≡ p.freshness)
        ⊎ IsMarked epoch p (round ops poll_interval epoch p)
  unfolding round
  round-freshness epoch p = taken_cases epoch p (ops.next_batch p.adapter) refl
