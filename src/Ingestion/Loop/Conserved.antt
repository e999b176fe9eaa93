-- ===== src/Ingestion/Loop/Conserved.antt =====
-- No row that arrives is lost, reordered or given to another tenant, up to the writer's door.
use mathlib.Core.List.{append-nil, append_assoc}
use consumer_engine.Prelude.{
  ℕ, ◌≡◌, refl, sym, ap, ◌∙◌, subst, Bool, true, false, List, [], ◌∷◌, ◌++◌, Text, Result, ok, err,
  if◌then◌else◌,
}
use consumer_engine.Storage.Machine.{StorageError}
use consumer_engine.Storage.Dedup.{Row}
use consumer_engine.Ingestion.Interface.{WriterOps}
use consumer_engine.Ingestion.Recorder.{rows_of, Recorder}
use consumer_engine.Ingestion.Batches.{MicroBatchConfig, Key, key_eq, find_batch}
use consumer_engine.Ingestion.Flush.{Actor, learned, flush_pending}
use consumer_engine.Ingestion.Flush.Cleared.{learned-pending}
use consumer_engine.Ingestion.Flush.Laws.{
  rows_waiting, IsBuffered, total, IsFlushed, learned-writer, flush_pending-IsFlushed,
  flush_expired-IsFlushed,
}
use consumer_engine.Ingestion.Loop.{
  Cmd, ingest_raw, compact_all, materialize, export_parquet, upsert_raw, delete_raw, write_features,
  write_catalog, write_suppression, apply_cdc_batch, read_cdc_offset, shutdown, Received, timeout,
  disconnected, command, Wake, last_of, compact_known, compact_all_known, handle, is_shutdown,
  turn_on,
}
use consumer_engine.Ingestion.Loop.Laws.{ingest-IsFed}

-- The rows for a key that a message brings, and those of all messages that the loop looks at.
abbrev pub brought : Key → Received → List Row
brought l (command (ingest_raw system entity columns rows tenant)) =
    if key_eq (record { tenant = tenant; system = system; entity = entity }) l then rows else []
brought l _ = []

abbrev pub stops : Received → Bool
stops timeout = false
stops disconnected = true
stops (command cmd) = is_shutdown cmd

module _ {W : Type 0} (ops : WriterOps W) (recorder : Recorder ops)
    (visit : List (Text × Text) → List (Text × Text)) (micro : MicroBatchConfig) where
  -- From one state to another, some rows came in for each key.
  pub record IsConserved (rows : Key → List Row) (before after : Actor W) : Type 0 where
    pub more :
        (l : Key)
        → total ops recorder micro.flush_rows l after
          ≡ total ops recorder micro.flush_rows l before ++ rows l
    pub buffered : IsBuffered micro.flush_rows after.pending

  of_flush :
      {a b : Actor W} → IsFlushed ops recorder micro.flush_rows a b → IsConserved (λ _. []) a b
  of_flush flushed = record {
    more = λ l. flushed.same l ∙ sym (append-nil _);
    buffered = flushed.buffered;
  }

  -- The raw rows that were handed over and those that wait are as they were.
  pub untouched :
      {a b : Actor W}
      → recorder.seen b.writer ≡ recorder.seen a.writer
      → b.pending ≡ a.pending
      → IsBuffered micro.flush_rows a.pending
      → IsConserved (λ _. []) a b
  unfolding total
  untouched {a} {b} seen pending buffered = record {
    more = λ l.
        ap (λ s. rows_of l s ++ rows_waiting (find_batch l b.pending)) seen
        ∙ ap (λ m. rows_of l (recorder.seen a.writer) ++ rows_waiting (find_batch l m)) pending
        ∙ sym (append-nil _);
    buffered = subst (IsBuffered micro.flush_rows) (sym pending) buffered;
  }

  untouched_learned :
      {A : Type 0} (s e : Text) (a : Actor W) (r : Result StorageError A × W)
      → recorder.seen r.1 ≡ recorder.seen a.writer
      → IsBuffered micro.flush_rows a.pending
      → IsConserved (λ _. []) a (learned ops s e a r).1
  untouched_learned s e a r seen buffered =
      untouched (ap recorder.seen (learned-writer ops recorder micro.flush_rows s e a r) ∙ seen)
        (learned-pending ops s e a r) buffered

  pub IsConserved-then :
      {r s : Key → List Row} {a b c : Actor W}
      → IsConserved r a b
      → IsConserved s b c
      → IsConserved (λ l. r l ++ s l) a c
  IsConserved-then {r} {s} one two = record {
    more = λ l. two.more l ∙ ap (λ x. x ++ s l) (one.more l) ∙ append_assoc _ (r l) (s l);
    buffered = two.buffered;
  }

  last_of-seen :
      {A : Type 0} (last : Result StorageError (Unit {0})) (r : Result StorageError A × W)
      → (last_of ops visit micro last r).1 ≡ r.1
  last_of-seen last (ok a, w) = refl
  last_of-seen last (err e, w) = refl

  compact_known-seen :
      (known : List (Text × Text)) (last : Result StorageError (Unit {0})) (w : W)
      → recorder.seen (compact_known ops visit micro known last w).1 ≡ recorder.seen w
  unfolding compact_known
  compact_known-seen [] last w = refl
  compact_known-seen ((s, e) ∷ more) last w =
      compact_known-seen more _ _
      ∙ ap recorder.seen (last_of-seen last _)
      ∙ recorder.seen_compact s e w

  compact_all_known-IsConserved :
      (days : ℕ) (a : Actor W)
      → IsBuffered micro.flush_rows a.pending
      → IsConserved (λ _. []) a (compact_all_known ops visit micro days a).1
  unfolding compact_all_known
  compact_all_known-IsConserved days a buffered =
      let flushed = flush_pending-IsFlushed ops recorder micro.flush_rows a buffered in
      IsConserved-then (of_flush flushed) (
        untouched
          (ap recorder.seen (last_of-seen _ _)
            ∙ recorder.seen_orphans days _
            ∙ ap recorder.seen (last_of-seen _ _)
            ∙ recorder.seen_expire days _
            ∙ compact_known-seen (visit (flush_pending ops a).known) (ok tt) _)
          refl flushed.buffered)

  handle-IsConserved :
      (cmd : Cmd) (wake : Wake) (a : Actor W)
      → IsBuffered micro.flush_rows a.pending
      → IsConserved (λ l. brought l (command cmd)) a (handle ops visit micro cmd wake a).1
  unfolding handle
  handle-IsConserved (ingest_raw s e columns rows tenant) wake a buffered =
      let fed =
        ingest-IsFed ops recorder visit micro s e columns rows tenant wake.entered a buffered in
      record { more = fed.more; buffered = fed.buffered }
  handle-IsConserved (compact_all days) wake a buffered =
      compact_all_known-IsConserved days a buffered
  handle-IsConserved (materialize subquery params key spec tenant) wake a buffered =
      untouched (recorder.seen_materialize subquery params key spec _ ∙ recorder.seen_set tenant _)
        refl buffered
  handle-IsConserved (export_parquet id dest) wake a buffered =
      untouched (recorder.seen_export id dest _) refl buffered
  handle-IsConserved (upsert_raw s e columns key rows tenant) wake a buffered =
      untouched_learned s e a _
        (recorder.seen_upsert s e columns key rows _ ∙ recorder.seen_set tenant _) buffered
  handle-IsConserved (delete_raw s e key keys tenant) wake a buffered =
      untouched_learned s e a _ (recorder.seen_delete s e key keys _ ∙ recorder.seen_set tenant _)
        buffered
  handle-IsConserved (write_features rows tenant) wake a buffered =
      untouched (recorder.seen_features rows _ ∙ recorder.seen_set tenant _) refl buffered
  handle-IsConserved (write_catalog rows tenant) wake a buffered =
      untouched (recorder.seen_catalog rows _ ∙ recorder.seen_set tenant _) refl buffered
  handle-IsConserved (write_suppression rows tenant) wake a buffered =
      untouched (recorder.seen_suppression rows _ ∙ recorder.seen_set tenant _) refl buffered
  handle-IsConserved (apply_cdc_batch batch tenant) wake a buffered =
      untouched_learned batch.system batch.entity a _
        (recorder.seen_cdc batch wake.timestamp _ ∙ recorder.seen_set tenant _) buffered
  handle-IsConserved (read_cdc_offset source) wake a buffered =
      untouched (recorder.seen_offsets source _) refl buffered
  handle-IsConserved shutdown wake a buffered =
      of_flush (flush_pending-IsFlushed ops recorder micro.flush_rows a buffered)

  pub turn_on-IsConserved :
      (received : Received) (wake : Wake) (a : Actor W)
      → IsBuffered micro.flush_rows a.pending
      → IsConserved (λ l. brought l received) a (turn_on ops visit micro received wake a).1.1
  turn_on-IsConserved timeout wake a buffered = of_flush (
      flush_expired-IsFlushed ops recorder micro.flush_rows micro.flush_age_secs wake.now a
        buffered)
  turn_on-IsConserved disconnected wake a buffered =
      of_flush (flush_pending-IsFlushed ops recorder micro.flush_rows a buffered)
  turn_on-IsConserved (command cmd) wake a buffered =
      let aged =
        flush_expired-IsFlushed ops recorder micro.flush_rows micro.flush_age_secs wake.now a
          buffered in
      IsConserved-then (of_flush aged) (handle-IsConserved cmd wake _ aged.buffered)
