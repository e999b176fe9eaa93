-- ===== src/Tests/Ingestion.antt =====
-- Runs of the writer's loop over a writer that only keeps a log.
use consumer_engine.Prelude.{
  ◌<◌, ◌-◌, ◌*◌, ◌≡◌, refl, none, some, List, [], ◌∷◌, ◌++◌, Text, text, text_eq, ok, arith,
}
use consumer_engine.Storage.Dedup.{Row}
use consumer_engine.Ingestion.Interface.{WriterOps}
use consumer_engine.Ingestion.Recorder.{rows_of, Logged, recorded, recorded_recorder}
use consumer_engine.Ingestion.Batches.{MicroBatchConfig, Key, PendingBatch, find_batch, key_eq}
use consumer_engine.Ingestion.Flush.{Actor, flush_expired, nanos_per_sec}
use consumer_engine.Ingestion.Flush.Cleared.{flush_expired-young}
use consumer_engine.Ingestion.Flush.Laws.{rows_waiting, IsBuffered}
use consumer_engine.Ingestion.Loop.{
  Wake, Received, command, timeout, ingest_raw, shutdown, writer_loop,
}
use consumer_engine.Ingestion.Loop.Conserved.{IsConserved}
use consumer_engine.Ingestion.Loop.Drained.{
  accepted, is_stopped, writer_loop-IsConserved, writer_loop-drains,
}

abbrev idle : WriterOps (Unit {0})
idle = record {
  set_tenant = λ t w. w;
  ingest_raw = λ s e columns rows w. (ok 0, w);
  upsert_raw = λ s e columns key rows w. (ok 0, w);
  delete_raw = λ s e key keys w. (ok 0, w);
  write_features = λ rows w. (ok 0, w);
  write_catalog = λ rows w. (ok 0, w);
  write_suppression = λ rows w. (ok 0, w);
  materialize_snapshot = λ subquery params key spec w. (ok 0, w);
  export_parquet = λ id dest w. (ok tt, w);
  apply_cdc_batch = λ batch now w. (ok 0, w);
  read_cdc_offsets = λ source w. (ok [], w);
  compact = λ s e w. (ok tt, w);
  expire_snapshots = λ days w. (ok tt, w);
  delete_orphaned_files = λ days w. (ok tt, w);
}

abbrev same_order : List (Text × Text) → List (Text × Text)
same_order known = known

abbrev pairs : MicroBatchConfig
pairs = record { flush_rows = 2; flush_age_secs = 30 }

abbrev quiet : Actor (Logged (Unit {0}))
quiet = record { writer = record { inner = tt; tenant = []; log = [] }; pending = []; known = [] }

quiet-IsBuffered : IsBuffered 2 quiet.pending
unfolding find_batch
quiet-IsBuffered = record {
  owned = λ k b found. absurd (cc found);
  small = λ k b found. absurd (cc found);
}

abbrev one_row : Text → List Row
one_row cell = (some cell ∷ []) ∷ []

abbrev at : Received → Wake
at received = record { received = received; now = 0; entered = 0; timestamp = [] }

abbrev rows_from : Text → Text → Wake
rows_from tenant cell =
    at (command (ingest_raw (text "crm") (text "users") (text "id" ∷ []) (one_row cell) tenant))

abbrev arrivals : List Wake
arrivals =
    rows_from (text "t1") (text "a")
    ∷ rows_from (text "t2") (text "b")
    ∷ at timeout
    ∷ rows_from (text "t1") (text "c")
    ∷ rows_from (text "t1") (text "d")
    ∷ at (command shutdown)
    ∷ []

abbrev users : Key
users = record { tenant = text "t1"; system = text "crm"; entity = text "users" }

writer_loop-IsConserved_example :
    IsConserved
      (recorded idle)
      (recorded_recorder idle)
      same_order
      pairs
      (λ l. accepted l arrivals)
      quiet
      (writer_loop (recorded idle) same_order pairs arrivals quiet).1
writer_loop-IsConserved_example =
    writer_loop-IsConserved (recorded idle) (recorded_recorder idle) same_order pairs arrivals quiet
      quiet-IsBuffered

writer_loop-drains_example :
    (rows_of users (writer_loop (recorded idle) same_order pairs arrivals quiet).1.writer.log
      ≡ (rows_of users [] ++ rows_waiting (find_batch users [])) ++ accepted users arrivals)
    × (find_batch users (writer_loop (recorded idle) same_order pairs arrivals quiet).1.pending
        ≡ none)
unfolding is_stopped
writer_loop-drains_example =
    writer_loop-drains (recorded idle) (recorded_recorder idle) same_order pairs arrivals quiet
      quiet-IsBuffered refl users

abbrev young : PendingBatch
young = record { columns = []; rows = []; tenant = text "t1"; since = 5_000_000_000 }

abbrev waiting : Actor (Logged (Unit {0}))
waiting = record quiet { pending = (users, young) ∷ [] }

flush_expired-young_example : 6_000_000_000 - 5_000_000_000 < 30 * nanos_per_sec
unfolding find_batch flush_expired key_eq text_eq text
flush_expired-young_example =
    flush_expired-young (recorded idle) 30 6_000_000_000 (omega arith) waiting users young refl
