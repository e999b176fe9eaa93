-- ===== src/Ingestion/Flush/Cleared.antt =====
-- What a flush leaves waiting.
use consumer_engine.Prelude.{
  ℕ, zero, suc, ◌<◌, ◌≤◌, ◌-◌, ◌*◌, ◌≡◌, refl, sym, ap, ◌∙◌, Bool, true, false, Option, none, some,
  List, [], ◌∷◌, Text, Result, ok, err, if◌then◌else◌, arith,
}
use consumer_engine.Storage.Machine.{StorageError}
use consumer_engine.Ingestion.Interface.{WriterOps}
use consumer_engine.Ingestion.Batches.{Key, PendingBatch, key_eq, find_batch, keys_where}
use consumer_engine.Ingestion.Batches.Laws.{
  key_eq_iff, find_batch-drop_batch, has_key, has_key-keys_where,
}
use consumer_engine.Ingestion.Flush.{
  Actor, learned, flush_batch, flush_found, flush_keys, flush_some, flush_pending, flush_expired,
  is_expired, nanos_per_sec,
}

module _ {W : Type 0} (ops : WriterOps W) where
  pub learned-pending :
      {A : Type 0} (s e : Text) (a : Actor W) (r : Result StorageError A × W)
      → (learned ops s e a r).1.pending ≡ a.pending
  learned-pending s e a (ok n, w) = refl
  learned-pending s e a (err x, w) = refl

  pub flush_batch-pending :
      (k : Key) (b : PendingBatch) (a : Actor W) → (flush_batch ops k b a).1.pending ≡ a.pending
  unfolding flush_batch
  flush_batch-pending k b a = learned-pending k.system k.entity a _

  flush_found-pending :
      (k : Key) (a : Actor W) (found : Option PendingBatch)
      → find_batch k a.pending ≡ found
      → (l : Key)
      → find_batch l (flush_found ops k a found).pending
        ≡ (if key_eq k l then none else find_batch l a.pending)
  flush_found-pending k a none e l = ground (arith, e, key_eq_iff k l)
  flush_found-pending k a (some b) e l =
      ap (find_batch l) (flush_batch-pending k b _) ∙ find_batch-drop_batch k l a.pending

  flush_keys-pending :
      (ks : List Key) (a : Actor W) (l : Key)
      → find_batch l (flush_keys ops ks a).pending
        ≡ (if has_key l ks then none else find_batch l a.pending)
  unfolding flush_keys has_key
  flush_keys-pending [] a l = refl
  flush_keys-pending (k ∷ ks) a l = ground (
    arith,
    flush_keys-pending ks (flush_found ops k a (find_batch k a.pending)) l,
    flush_found-pending k a (find_batch k a.pending) refl l,
  )

  -- What is still found was not to be flushed.
  spared :
      (test : PendingBatch → Bool) (a : Actor W) (l : Key) (b : PendingBatch)
      → find_batch l (flush_some ops test a).pending ≡ some b
      → test b ≡ false
  unfolding flush_some
  spared test a l b found =
      spared_cases (has_key l (keys_where test a.pending)) refl (test b) refl
        (sym (flush_keys-pending (keys_where test a.pending) a l) ∙ found)
    where
      spared_cases :
          (h : Bool)
          → has_key l (keys_where test a.pending) ≡ h
          → (t : Bool) → test b ≡ t
          → (if h then none else find_batch l a.pending) ≡ some b
          → test b ≡ false
      spared_cases true eh t et e = absurd (cc e)
      spared_cases false eh false et e = et
      spared_cases false eh true et e = absurd (cc (eh, has_key-keys_where test l b a.pending e et))

  pub flush_pending-empties :
      (a : Actor W) (l : Key) → find_batch l (flush_pending ops a).pending ≡ none
  unfolding flush_pending
  flush_pending-empties a l = emptied (find_batch l (flush_some ops (λ _. true) a).pending) refl
    where
      emptied :
          (o : Option PendingBatch)
          → find_batch l (flush_some ops (λ _. true) a).pending ≡ o
          → find_batch l (flush_some ops (λ _. true) a).pending ≡ none
      emptied none e = e
      emptied (some b) e = absurd (cc (spared (λ _. true) a l b e))

  -- After the age flush of any wake, every batch that still waits is younger than the age.
  pub flush_expired-young :
      (age_secs now : ℕ)
      → 1 ≤ age_secs
      → (a : Actor W) (k : Key) (b : PendingBatch)
      → find_batch k (flush_expired ops age_secs now a).pending ≡ some b
      → now - b.since < age_secs * nanos_per_sec
  unfolding flush_expired
  flush_expired-young zero now enabled a k b found = absurd (omega (arith, enabled))
  flush_expired-young (suc s) now enabled a k b found =
      ground (arith, spared (is_expired (suc s) now) a k b found)
