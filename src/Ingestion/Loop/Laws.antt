-- ===== src/Ingestion/Loop/Laws.antt =====
-- Rows that arrive are handed over or wait, in order: one command of `ingest_raw`.
use mathlib.Core.List.{append-nil, append_assoc}
use consumer_engine.Prelude.{
  ℕ, zero, suc, ◌<◌, ltb, ltb→lt, ◌≡◌, refl, sym, ap, ◌∙◌, subst, Bool, true, false, Option, none,
  some, List, [], ◌∷◌, ◌++◌, Text, length, ok, if◌then◌else◌, arith,
}
use consumer_engine.Storage.Dedup.{Row}
use consumer_engine.Ingestion.Interface.{WriterOps}
use consumer_engine.Ingestion.Recorder.{rows_of, rows_of-append, Recorder}
use consumer_engine.Ingestion.Batches.{
  MicroBatchConfig, Key, PendingBatch, Pending, key_eq, find_batch, drop_batch, put_batch,
}
use consumer_engine.Ingestion.Batches.Laws.{key_eq_iff, find_batch-put_batch, find_batch-drop_batch}
use consumer_engine.Ingestion.Flush.{Actor, learned, flush_found}
use consumer_engine.Ingestion.Flush.Cleared.{flush_batch-pending, learned-pending}
use consumer_engine.Ingestion.Flush.Laws.{
  rows_waiting, IsBuffered, total, IsFlushed, learned-writer, flush_one-total, unflushed,
  flush_found-IsFlushed,
}
use consumer_engine.Ingestion.Loop.{
  leave_shape, entry, extended, flush_full, placed, buffer, ingest_with, as_tenant, ingest,
  same_columns,
}

module _ {W : Type 0} (ops : WriterOps W) (recorder : Recorder ops)
    (visit : List (Text × Text) → List (Text × Text)) (micro : MicroBatchConfig) where
  -- The rows come after what was there for their key, and nothing else changes.
  pub record IsFed (k : Key) (rows : List Row) (before after : Actor W) : Type 0 where
    pub more :
        (l : Key)
        → total ops recorder micro.flush_rows l after
          ≡ total ops recorder micro.flush_rows l before ++ (if key_eq k l then rows else [])
    pub buffered : IsBuffered micro.flush_rows after.pending

  leave_shape-IsFlushed :
      (k : Key) (columns : List Text) (a : Actor W) (o : Option PendingBatch)
      → find_batch k a.pending ≡ o
      → IsBuffered micro.flush_rows a.pending
      → IsFlushed ops recorder micro.flush_rows a (leave_shape ops visit micro k columns a o)
  unfolding leave_shape
  leave_shape-IsFlushed k columns a none e buffered =
      unflushed ops recorder micro.flush_rows a buffered
  leave_shape-IsFlushed k columns a (some old) e buffered =
      shape_cases (same_columns old.columns columns)
    where
      shape_cases :
          (same : Bool)
          → IsFlushed ops recorder micro.flush_rows a
              (if same then a else flush_found ops k a (some old))
      shape_cases true = unflushed ops recorder micro.flush_rows a buffered
      shape_cases false =
          flush_found-IsFlushed ops recorder micro.flush_rows k a (some old) e buffered

  -- The rows of one key with a batch put in its place.
  put-total :
      (k : Key) (b : PendingBatch) (rows : List Row) (a : Actor W)
      → b.rows ≡ rows_waiting (find_batch k a.pending) ++ rows
      → (l : Key)
      → total ops recorder micro.flush_rows l (record a { pending = put_batch k b a.pending })
        ≡ total ops recorder micro.flush_rows l a ++ (if key_eq k l then rows else [])
  unfolding total
  put-total k b rows a grown l =
      ap (λ o. rows_of l (recorder.seen a.writer) ++ rows_waiting o)
        (find_batch-put_batch k l b a.pending)
      ∙ put_cases (key_eq k l) refl
    where
      put_cases :
          (same : Bool)
          → key_eq k l ≡ same
          → rows_of l (recorder.seen a.writer)
              ++ rows_waiting (if same then some b else find_batch l a.pending)
            ≡ (rows_of l (recorder.seen a.writer) ++ rows_waiting (find_batch l a.pending))
              ++ (if same then rows else [])
      put_cases true e =
          ap (λ x. rows_of l (recorder.seen a.writer) ++ x)
            (grown ∙ ap (λ k. rows_waiting (find_batch k a.pending) ++ rows) ((key_eq_iff k l).0 e))
          ∙ sym (append_assoc _ _ rows)
      put_cases false e = sym (append-nil _)

  found-put : (k : Key) (b : PendingBatch) (m : Pending) → find_batch k (put_batch k b m) ≡ some b
  found-put k b m =
      find_batch-put_batch k k b m
      ∙ ap (λ same. if same then some b else find_batch k m) ((key_eq_iff k k).1 refl)

  put-IsBuffered :
      (k : Key) (b : PendingBatch) (m : Pending)
      → b.tenant ≡ k.tenant
      → length b.rows < micro.flush_rows
      → IsBuffered micro.flush_rows m
      → IsBuffered micro.flush_rows (put_batch k b m)
  put-IsBuffered k b m owned small buffered = record {
    owned = λ l c found.
        ground
          (arith, owned, found, find_batch-put_batch k l b m, key_eq_iff k l, buffered.owned l c);
    small =
        λ l c found. ground (arith, small, found, find_batch-put_batch k l b m, buffered.small l c);
  }

  drop_put-IsBuffered :
      (k : Key) (b : PendingBatch) (m : Pending)
      → IsBuffered micro.flush_rows m
      → IsBuffered micro.flush_rows (drop_batch k (put_batch k b m))
  drop_put-IsBuffered k b m buffered = record {
    owned = λ l c found. buffered.owned l c (drop_put_found l c found);
    small = λ l c found. buffered.small l c (drop_put_found l c found);
  }
    where
      drop_put_found :
          (l : Key) (c : PendingBatch)
          → find_batch l (drop_batch k (put_batch k b m)) ≡ some c
          → find_batch l m ≡ some c
      drop_put_found l c found =
          ground (
            arith,
            found,
            find_batch-drop_batch k l (put_batch k b m),
            find_batch-put_batch k l b m,
          )

  full-IsFed :
      (k : Key) (b : PendingBatch) (rows : List Row) (a : Actor W) (o : Option PendingBatch)
      → find_batch k (put_batch k b a.pending) ≡ o
      → b.tenant ≡ k.tenant
      → b.rows ≡ rows_waiting (find_batch k a.pending) ++ rows
      → IsBuffered micro.flush_rows a.pending
      → IsFed k rows a
          (flush_full ops visit micro k (record a { pending = put_batch k b a.pending }) o).1
  full-IsFed k b rows a none e owned grown buffered = absurd (cc (e, found-put k b a.pending))
  full-IsFed k b rows a (some c) e owned grown buffered = record {
    more = λ l.
        flush_one-total ops recorder micro.flush_rows k c _ e (same_batch ∙ owned) l
        ∙ put-total k b rows a grown l;
    buffered =
        subst (IsBuffered micro.flush_rows) (sym (flush_batch-pending ops k c _))
          (drop_put-IsBuffered k b a.pending buffered);
  }
    where
      same_batch : c.tenant ≡ b.tenant
      same_batch = cc (e, found-put k b a.pending)

  placed-IsFed :
      (k : Key) (b : PendingBatch) (rows : List Row) (a : Actor W)
      → b.tenant ≡ k.tenant
      → b.rows ≡ rows_waiting (find_batch k a.pending) ++ rows
      → IsBuffered micro.flush_rows a.pending
      → IsFed k rows a (placed ops visit micro k b a).1
  placed-IsFed k b rows a owned grown buffered =
      size_cases (ltb (length b.rows) micro.flush_rows) refl
    where
      size_cases :
          (small : Bool)
          → ltb (length b.rows) micro.flush_rows ≡ small
          → IsFed k rows a
              (if small
                then (ok 0, record a { pending = put_batch k b a.pending })
                else flush_full ops visit micro k
                    (record a { pending = put_batch k b a.pending })
                    (find_batch k (put_batch k b a.pending))).1
      size_cases true e = record {
        more = put-total k b rows a grown;
        buffered = put-IsBuffered k b a.pending owned (ltb→lt _ _ e) buffered;
      }
      size_cases false e =
          full-IsFed k b rows a (find_batch k (put_batch k b a.pending)) refl owned grown buffered

  entry-placed :
      (k : Key) (columns : List Text) (rows : List Row) (entered : ℕ) (a : Actor W)
      (o : Option PendingBatch)
      → find_batch k a.pending ≡ o
      → IsBuffered micro.flush_rows a.pending
      → IsFed k rows a (placed ops visit micro k (extended (entry k columns entered o) rows) a).1
  entry-placed k columns rows entered a none e buffered =
      placed-IsFed k _ rows a refl (ap (λ o. rows_waiting o ++ rows) (sym e)) buffered
  entry-placed k columns rows entered a (some b) e buffered =
      placed-IsFed k _ rows a (buffered.owned k b e) (ap (λ o. rows_waiting o ++ rows) (sym e))
        buffered

  IsFed-after :
      {k : Key} {rows : List Row} {a b c : Actor W}
      → ((l : Key)
          → total ops recorder micro.flush_rows l b ≡ total ops recorder micro.flush_rows l a)
      → IsFed k rows b c
      → IsFed k rows a c
  IsFed-after {k} {rows} same fed = record {
    more = λ l. fed.more l ∙ ap (λ x. x ++ (if key_eq k l then rows else [])) (same l);
    buffered = fed.buffered;
  }

  buffer-IsFed :
      (k : Key) (columns : List Text) (rows : List Row) (entered : ℕ) (a : Actor W)
      → IsBuffered micro.flush_rows a.pending
      → IsFed k rows a (buffer ops visit micro k columns rows entered a).1
  unfolding buffer
  buffer-IsFed k columns rows entered a buffered =
      let shaped = leave_shape-IsFlushed k columns a (find_batch k a.pending) refl buffered in
      IsFed-after shaped.same (entry-placed k columns rows entered _ _ refl shaped.buffered)

  direct-IsFed :
      (k : Key) (columns : List Text) (rows : List Row) (a : Actor W)
      → recorder.tenant_of a.writer ≡ k.tenant
      → ((l : Key) → find_batch l a.pending ≡ none)
      → IsBuffered micro.flush_rows a.pending
      → IsFed k rows a
          (learned ops k.system k.entity a
            (ops.ingest_raw k.system k.entity columns rows a.writer)).1
  unfolding total
  direct-IsFed k columns rows a owner empty buffered =
      let r = ops.ingest_raw k.system k.entity columns rows a.writer in
      record {
        more = λ l.
            ap
              (λ w.
                rows_of l (recorder.seen w)
                ++ rows_waiting (find_batch l (learned ops k.system k.entity a r).1.pending))
              (learned-writer ops recorder micro.flush_rows k.system k.entity a r)
            ∙ ap (λ m. rows_of l (recorder.seen r.1) ++ rows_waiting (find_batch l m))
                (learned-pending ops k.system k.entity a r)
            ∙ ap (λ o. rows_of l (recorder.seen r.1) ++ rows_waiting o) (empty l)
            ∙ append-nil (rows_of l (recorder.seen r.1))
            ∙ ap (rows_of l) (
                recorder.seen_ingest k.system k.entity columns rows a.writer
                ∙ ap
                    (λ t.
                      recorder.seen a.writer
                      ++ record { key = record k { tenant = t }; rows = rows } ∷ [])
                    owner)
            ∙ rows_of-append l (recorder.seen a.writer) (record { key = k; rows = rows })
            ∙ ap (λ x. x ++ (if key_eq k l then rows else []))
                (sym (append-nil (rows_of l (recorder.seen a.writer)))
                  ∙ ap (λ o. rows_of l (recorder.seen a.writer) ++ rows_waiting o) (sym (empty l)));
        buffered =
            subst (IsBuffered micro.flush_rows) (sym (learned-pending ops k.system k.entity a _))
              buffered;
      }

  as_tenant-total :
      (tenant : Text) (a : Actor W) (l : Key)
      → total ops recorder micro.flush_rows l (as_tenant ops visit micro tenant a)
        ≡ total ops recorder micro.flush_rows l a
  unfolding total
  as_tenant-total tenant a l =
      ap (λ seen. rows_of l seen ++ rows_waiting (find_batch l a.pending))
        (recorder.seen_set tenant a.writer)

  none_buffered :
      (pending : Pending)
      → micro.flush_rows ≡ 0
      → IsBuffered micro.flush_rows pending
      → (l : Key) → find_batch l pending ≡ none
  none_buffered pending zero_rows buffered l = none_cases (find_batch l pending) refl
    where
      none_cases :
          (o : Option PendingBatch) → find_batch l pending ≡ o → find_batch l pending ≡ none
      none_cases none e = e
      none_cases (some b) e = absurd (omega (arith, zero_rows, buffered.small l b e))

  ingest_with-IsFed :
      (n : ℕ)
      → micro.flush_rows ≡ n
      → (system entity : Text) (columns : List Text) (rows : List Row) (tenant : Text) (entered : ℕ)
        (a : Actor W)
      → recorder.tenant_of a.writer ≡ tenant
      → IsBuffered micro.flush_rows a.pending
      → IsFed
          (record { tenant = tenant; system = system; entity = entity })
          rows
          a
          (ingest_with ops visit micro n system entity columns rows tenant entered a).1
  ingest_with-IsFed zero e system entity columns rows tenant entered a owner buffered =
      direct-IsFed (record { tenant = tenant; system = system; entity = entity }) columns rows a
        owner (none_buffered a.pending e buffered) buffered
  ingest_with-IsFed (suc n) e system entity columns rows tenant entered a owner buffered =
      buffer-IsFed _ columns rows entered a buffered

  pub ingest-IsFed :
      (system entity : Text) (columns : List Text) (rows : List Row) (tenant : Text) (entered : ℕ)
      (a : Actor W)
      → IsBuffered micro.flush_rows a.pending
      → IsFed
          (record { tenant = tenant; system = system; entity = entity })
          rows
          a
          (ingest ops visit micro system entity columns rows tenant entered a).1
  unfolding ingest
  ingest-IsFed system entity columns rows tenant entered a buffered =
      IsFed-after (as_tenant-total tenant a) (
        ingest_with-IsFed micro.flush_rows refl system entity columns rows tenant entered _
          (recorder.tenant_set tenant a.writer) buffered)
