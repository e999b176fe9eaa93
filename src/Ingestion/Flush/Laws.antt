-- ===== src/Ingestion/Flush/Laws.antt =====
-- Flushes neither lose nor reorder the rows of a key.
use mathlib.Core.List.{append-nil}
use consumer_engine.Prelude.{
  ℕ, zero, suc, ◌<◌, ◌≡◌, refl, sym, ap, ◌∙◌, subst, Bool, true, false, Option, none, some, List,
  [], ◌∷◌, ◌++◌, Text, length, Result, ok, err, if◌then◌else◌,
}
use consumer_engine.Storage.Machine.{StorageError}
use consumer_engine.Storage.Dedup.{Row}
use consumer_engine.Ingestion.Interface.{WriterOps}
use consumer_engine.Ingestion.Recorder.{Handed, rows_of, rows_of-append, Recorder}
use consumer_engine.Ingestion.Batches.{
  Key, PendingBatch, Pending, key_eq, find_batch, drop_batch, keys_where,
}
use consumer_engine.Ingestion.Batches.Laws.{key_eq_iff, find_batch-drop_batch}
use consumer_engine.Ingestion.Flush.{
  Actor, learned, flush_batch, flush_found, flush_keys, flush_some, flush_pending, flush_expired,
  is_expired,
}
use consumer_engine.Ingestion.Flush.Cleared.{flush_batch-pending}

-- The rows of a pending batch.
abbrev pub rows_waiting : Option PendingBatch → List Row
rows_waiting none = []
rows_waiting (some b) = b.rows

-- Each batch is the tenant's of its key, and is too small to be flushed.
pub record IsBuffered (flush_rows : ℕ) (pending : Pending) : Type 0 where
  pub owned : (k : Key) (b : PendingBatch) → find_batch k pending ≡ some b → b.tenant ≡ k.tenant
  pub small :
      (k : Key) (b : PendingBatch) → find_batch k pending ≡ some b → length b.rows < flush_rows

module _ {W : Type 0} (ops : WriterOps W) (recorder : Recorder ops) (flush_rows : ℕ) where
  -- What the writer was handed for a key, and then what waits for it.
  unfoldable pub total : Key → Actor W → List Row
  total l a = rows_of l (recorder.seen a.writer) ++ rows_waiting (find_batch l a.pending)

  pub record IsFlushed (before after : Actor W) : Type 0 where
    pub same : (l : Key) → total l after ≡ total l before
    pub buffered : IsBuffered flush_rows after.pending

  pub learned-writer :
      {A : Type 0} (s e : Text) (a : Actor W) (r : Result StorageError A × W)
      → (learned ops s e a r).1.writer ≡ r.1
  learned-writer s e a (ok n, w) = refl
  learned-writer s e a (err x, w) = refl

  flush_batch-seen :
      (k : Key) (b : PendingBatch) (a : Actor W)
      → b.tenant ≡ k.tenant
      → recorder.seen (flush_batch ops k b a).1.writer
        ≡ recorder.seen a.writer ++ record { key = k; rows = b.rows } ∷ []
  unfolding flush_batch
  flush_batch-seen k b a owned =
      ap recorder.seen (learned-writer k.system k.entity a _)
      ∙ recorder.seen_ingest k.system k.entity b.columns b.rows _
      ∙ ap
          (λ t.
            recorder.seen (ops.set_tenant b.tenant a.writer)
            ++ record { key = record k { tenant = t }; rows = b.rows } ∷ [])
          (recorder.tenant_set b.tenant a.writer ∙ owned)
      ∙ ap (λ seen. seen ++ record { key = k; rows = b.rows } ∷ [])
          (recorder.seen_set b.tenant a.writer)

  drop_found :
      (k l : Key) (b : PendingBatch) (m : Pending)
      → find_batch l (drop_batch k m) ≡ some b
      → find_batch l m ≡ some b
  drop_found k l b m found = dropped_cases (key_eq k l) (sym (find_batch-drop_batch k l m) ∙ found)
    where
      dropped_cases :
          (same : Bool) → (if same then none else find_batch l m) ≡ some b → find_batch l m ≡ some b
      dropped_cases true found = absurd (cc found)
      dropped_cases false found = found

  drop-IsBuffered :
      (k : Key) (m : Pending) → IsBuffered flush_rows m → IsBuffered flush_rows (drop_batch k m)
  drop-IsBuffered k m buffered = record {
    owned = λ l b found. buffered.owned l b (drop_found k l b m found);
    small = λ l b found. buffered.small l b (drop_found k l b m found);
  }

  -- Rows that leave the map for the writer.
  moved :
      (k l : Key) (b : PendingBatch) (seen : List Handed) (m : Pending)
      → find_batch k m ≡ some b
      → rows_of l (seen ++ record { key = k; rows = b.rows } ∷ [])
          ++ rows_waiting (find_batch l (drop_batch k m))
        ≡ rows_of l seen ++ rows_waiting (find_batch l m)
  moved k l b seen m found =
      ap (λ rows. rows ++ rows_waiting (find_batch l (drop_batch k m)))
        (rows_of-append l seen (record { key = k; rows = b.rows }))
      ∙ ap (λ o. (rows_of l seen ++ (if key_eq k l then b.rows else [])) ++ rows_waiting o)
          (find_batch-drop_batch k l m)
      ∙ moved_cases (key_eq k l) refl
    where
      moved_cases :
          (same : Bool)
          → key_eq k l ≡ same
          → (rows_of l seen ++ (if same then b.rows else []))
              ++ rows_waiting (if same then none else find_batch l m)
            ≡ rows_of l seen ++ rows_waiting (find_batch l m)
      moved_cases true e =
          append-nil (rows_of l seen ++ b.rows)
          ∙ ap (λ o. rows_of l seen ++ rows_waiting o)
              (sym found ∙ ap (λ k. find_batch k m) ((key_eq_iff k l).0 e))
      moved_cases false e =
          ap (λ rows. rows ++ rows_waiting (find_batch l m)) (append-nil (rows_of l seen))

  pub flush_one-total :
      (k : Key) (b : PendingBatch) (a : Actor W)
      → find_batch k a.pending ≡ some b
      → b.tenant ≡ k.tenant
      → (l : Key)
      → total l (flush_batch ops k b (record a { pending = drop_batch k a.pending })).1 ≡ total l a
  unfolding total
  flush_one-total k b a found owned l =
      let left = record a { pending = drop_batch k a.pending } in
      ap
        (λ seen. rows_of l seen ++ rows_waiting (find_batch l (flush_batch ops k b left).1.pending))
        (flush_batch-seen k b left owned)
      ∙ ap
          (λ m.
            rows_of l (recorder.seen a.writer ++ record { key = k; rows = b.rows } ∷ [])
            ++ rows_waiting (find_batch l m))
          (flush_batch-pending ops k b left)
      ∙ moved k l b (recorder.seen a.writer) a.pending found

  flush_one-IsFlushed :
      (k : Key) (b : PendingBatch) (a : Actor W)
      → find_batch k a.pending ≡ some b
      → IsBuffered flush_rows a.pending
      → IsFlushed a (flush_batch ops k b (record a { pending = drop_batch k a.pending })).1
  flush_one-IsFlushed k b a found buffered = record {
    same = flush_one-total k b a found (buffered.owned k b found);
    buffered =
        subst (IsBuffered flush_rows) (sym (flush_batch-pending ops k b _))
          (drop-IsBuffered k a.pending buffered);
  }

  pub unflushed : (a : Actor W) → IsBuffered flush_rows a.pending → IsFlushed a a
  unflushed a buffered = record { same = λ l. refl; buffered = buffered }

  pub IsFlushed-then : {a b c : Actor W} → IsFlushed a b → IsFlushed b c → IsFlushed a c
  IsFlushed-then one two = record { same = λ l. two.same l ∙ one.same l; buffered = two.buffered }

  pub flush_found-IsFlushed :
      (k : Key) (a : Actor W) (found : Option PendingBatch)
      → find_batch k a.pending ≡ found
      → IsBuffered flush_rows a.pending
      → IsFlushed a (flush_found ops k a found)
  flush_found-IsFlushed k a none e buffered = unflushed a buffered
  flush_found-IsFlushed k a (some b) e buffered = flush_one-IsFlushed k b a e buffered

  flush_keys-IsFlushed :
      (ks : List Key) (a : Actor W)
      → IsBuffered flush_rows a.pending
      → IsFlushed a (flush_keys ops ks a)
  unfolding flush_keys
  flush_keys-IsFlushed [] a buffered = unflushed a buffered
  flush_keys-IsFlushed (k ∷ ks) a buffered =
      let one = flush_found-IsFlushed k a (find_batch k a.pending) refl buffered in
      IsFlushed-then one (flush_keys-IsFlushed ks _ one.buffered)

  flush_some-IsFlushed :
      (test : PendingBatch → Bool) (a : Actor W)
      → IsBuffered flush_rows a.pending
      → IsFlushed a (flush_some ops test a)
  unfolding flush_some
  flush_some-IsFlushed test a buffered = flush_keys-IsFlushed (keys_where test a.pending) a buffered

  pub flush_pending-IsFlushed :
      (a : Actor W) → IsBuffered flush_rows a.pending → IsFlushed a (flush_pending ops a)
  unfolding flush_pending
  flush_pending-IsFlushed a buffered = flush_some-IsFlushed (λ _. true) a buffered

  pub flush_expired-IsFlushed :
      (age now : ℕ) (a : Actor W)
      → IsBuffered flush_rows a.pending
      → IsFlushed a (flush_expired ops age now a)
  unfolding flush_expired
  flush_expired-IsFlushed zero now a buffered = unflushed a buffered
  flush_expired-IsFlushed (suc age) now a buffered =
      flush_some-IsFlushed (is_expired (suc age) now) a buffered
