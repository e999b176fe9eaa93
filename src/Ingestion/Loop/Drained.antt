-- ===== src/Ingestion/Loop/Drained.antt =====
-- The loop over any arrivals, and up to its end.
use mathlib.Core.List.{append-nil}
use consumer_engine.Prelude.{
  ◌≡◌, refl, sym, ap, ◌∙◌, Bool, true, false, not, none, List, [], ◌∷◌, ◌++◌, Text, if◌then◌else◌,
}
use consumer_engine.Storage.Dedup.{Row}
use consumer_engine.Ingestion.Interface.{WriterOps}
use consumer_engine.Ingestion.Recorder.{rows_of, Recorder}
use consumer_engine.Ingestion.Batches.{MicroBatchConfig, Key, find_batch}
use consumer_engine.Ingestion.Flush.{Actor, flush_expired}
use consumer_engine.Ingestion.Flush.Cleared.{flush_pending-empties}
use consumer_engine.Ingestion.Flush.Laws.{rows_waiting, IsBuffered, total}
use consumer_engine.Ingestion.Loop.{
  Answer, shutdown, Received, timeout, disconnected, command, Wake, handle, turn, turn_on, go_on,
  writer_loop,
}
use consumer_engine.Ingestion.Loop.Conserved.{
  brought, stops, IsConserved, IsConserved-then, untouched, turn_on-IsConserved,
}

unfoldable pub accepted : Key → List Wake → List Row
accepted l [] = []
accepted l (wake ∷ more) =
    let later = accepted l more in
    brought l wake.received ++ (if stops wake.received then [] else later)

unfoldable pub is_stopped : List Wake → Bool
is_stopped [] = false
is_stopped (wake ∷ more) =
    let later = is_stopped more in if stops wake.received then true else later

module _ {W : Type 0} (ops : WriterOps W) (recorder : Recorder ops)
    (visit : List (Text × Text) → List (Text × Text)) (micro : MicroBatchConfig) where
  goes_on :
      (received : Received) (wake : Wake) (a : Actor W)
      → (turn_on ops visit micro received wake a).1.0 ≡ not (stops received)
  goes_on timeout wake a = refl
  goes_on disconnected wake a = refl
  goes_on (command cmd) wake a = refl

  go_on-IsConserved :
      {f g : Key → List Row} {a : Actor W} (rest : Actor W → List Answer × Actor W)
      (r : List Answer × (Bool × Actor W)) (stopped : Bool)
      → r.1.0 ≡ not stopped
      → IsConserved ops recorder visit micro f a r.1.1
      → ((b : Actor W)
          → IsBuffered micro.flush_rows b.pending
          → IsConserved ops recorder visit micro g b (rest b).1)
      → IsConserved ops recorder visit micro
          (λ l. f l ++ (if stopped then [] else g l))
          a
          (go_on ops visit micro rest r).1
  go_on-IsConserved rest (answers, (true, b)) false e one later =
      IsConserved-then ops recorder visit micro one (later b one.buffered)
  go_on-IsConserved rest (answers, (true, b)) true e one later = absurd (cc e)
  go_on-IsConserved rest (answers, (false, b)) true e one later =
      IsConserved-then ops recorder visit micro one
        (untouched ops recorder visit micro refl refl one.buffered)
  go_on-IsConserved rest (answers, (false, b)) false e one later = absurd (cc e)

  -- From a state whose batches are small and their keys' own, over any arrivals: for every tenant,
  -- system and entity, the rows that the writer was handed, followed by those that wait, are the
  -- rows of before followed by the rows of the messages that the loop took, in order; and the
  -- batches are again small and their keys' own.
  pub writer_loop-IsConserved :
      (wakes : List Wake) (a : Actor W)
      → IsBuffered micro.flush_rows a.pending
      → IsConserved ops recorder visit micro
          (λ l. accepted l wakes)
          a
          (writer_loop ops visit micro wakes a).1
  unfolding writer_loop accepted turn
  writer_loop-IsConserved [] a buffered = untouched ops recorder visit micro refl refl buffered
  writer_loop-IsConserved (wake ∷ more) a buffered =
      go_on-IsConserved (writer_loop ops visit micro more) (turn ops visit micro wake a)
        (stops wake.received) (goes_on wake.received wake a)
        (turn_on-IsConserved ops recorder visit micro wake.received wake a buffered)
        (λ b. writer_loop-IsConserved more b)

  stop-empties :
      (received : Received) (wake : Wake) (a : Actor W) (l : Key)
      → stops received ≡ true
      → find_batch l (turn_on ops visit micro received wake a).1.1.pending ≡ none
  unfolding handle
  stop-empties timeout wake a l e = absurd (cc e)
  stop-empties disconnected wake a l e = flush_pending-empties ops a l
  stop-empties (command shutdown) wake a l e =
      flush_pending-empties ops (flush_expired ops micro.flush_age_secs wake.now a) l
  stop-empties (command _) wake a l e = absurd (cc e)

  go_on-empties :
      (l : Key) (rest : Actor W → List Answer × Actor W) (r : List Answer × (Bool × Actor W))
      (stopped later : Bool)
      → r.1.0 ≡ not stopped
      → (stopped ≡ true → find_batch l r.1.1.pending ≡ none)
      → (later ≡ true → (b : Actor W) → find_batch l (rest b).1.pending ≡ none)
      → (if stopped then true else later) ≡ true
      → find_batch l (go_on ops visit micro rest r).1.pending ≡ none
  go_on-empties l rest (answers, (true, b)) false later e one after stopped = after stopped b
  go_on-empties l rest (answers, (true, b)) true later e one after stopped = absurd (cc e)
  go_on-empties l rest (answers, (false, b)) true later e one after stopped = one refl
  go_on-empties l rest (answers, (false, b)) false later e one after stopped = absurd (cc e)

  writer_loop-empties :
      (wakes : List Wake) (a : Actor W) (l : Key)
      → is_stopped wakes ≡ true
      → find_batch l (writer_loop ops visit micro wakes a).1.pending ≡ none
  unfolding writer_loop is_stopped turn
  writer_loop-empties [] a l stopped = absurd (cc stopped)
  writer_loop-empties (wake ∷ more) a l stopped =
      go_on-empties l (writer_loop ops visit micro more) (turn ops visit micro wake a)
        (stops wake.received) (is_stopped more) (goes_on wake.received wake a)
        (stop-empties wake.received wake a l) (λ h b. writer_loop-empties more b l h) stopped

  -- From a state whose batches are small and their keys' own, when the arrivals hold a shutdown or
  -- the end of all senders: the rows that the writer was handed for a key in the end are those of
  -- before, those that waited at the start, and those of every message up to the stop, in order;
  -- nothing waits.
  pub writer_loop-drains :
      (wakes : List Wake) (a : Actor W)
      → IsBuffered micro.flush_rows a.pending
      → is_stopped wakes ≡ true
      → (l : Key)
      → (rows_of l (recorder.seen (writer_loop ops visit micro wakes a).1.writer)
          ≡ (rows_of l (recorder.seen a.writer) ++ rows_waiting (find_batch l a.pending))
            ++ accepted l wakes)
        × (find_batch l (writer_loop ops visit micro wakes a).1.pending ≡ none)
  unfolding total
  writer_loop-drains wakes a buffered stopped l = (
    sym (append-nil _)
        ∙ ap
            (λ o.
              rows_of l (recorder.seen (writer_loop ops visit micro wakes a).1.writer)
              ++ rows_waiting o)
            (sym (writer_loop-empties wakes a l stopped))
        ∙ (writer_loop-IsConserved wakes a buffered).more l,
    writer_loop-empties wakes a l stopped,
  )
