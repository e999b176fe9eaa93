-- ===== src/Ingestion/Flush.antt =====
-- `flush_batch`, `flush_some`, `flush_pending` and `flush_expired`. `known` is a set, here a list.
pub mod Cleared
pub mod Laws
use consumer_engine.Prelude.{
  ℕ, zero, suc, ◌-◌, ◌*◌, leb, Bool, true, false, ◌&&◌, ◌||◌, Option, none, some, List, [], ◌∷◌,
  ◌++◌, Text, text_eq, Result, ok, err, if◌then◌else◌,
}
use consumer_engine.Storage.Machine.{StorageError}
use consumer_engine.Ingestion.Interface.{WriterOps}
use consumer_engine.Ingestion.Batches.{
  Key, PendingBatch, Pending, find_batch, drop_batch, keys_where,
}

pub record Actor (W : Type 0) : Type 0 where
  pub writer : W
  pub pending : Pending
  pub known : List (Text × Text)

unfoldable pub is_known : Text → Text → List (Text × Text) → Bool
is_known system entity [] = false
is_known system entity ((s, e) ∷ rest) =
    (text_eq s system && text_eq e entity) || is_known system entity rest

unfoldable pub learn : Text → Text → List (Text × Text) → List (Text × Text)
unfolding is_known
learn system entity known =
    if is_known system entity known then known else known ++ (system, entity) ∷ []

abbrev pub nanos_per_sec : ℕ
nanos_per_sec = 1_000_000_000

-- `now.duration_since(b.since) >= age`; an earlier `now` counts as no time.
abbrev pub is_expired : ℕ → ℕ → PendingBatch → Bool
is_expired age_secs now b = leb (age_secs * nanos_per_sec) (now - b.since)

module _ {W : Type 0} (ops : WriterOps W) where
  abbrev pub learned :
      {A : Type 0}
      → Text
      → Text
      → Actor W
      → Result StorageError A × W
      → Result StorageError A × Actor W
  learned system entity a (ok n, w) =
      (ok n, record a { writer = w; known = learn system entity a.known })
  learned system entity a (err e, w) = (err e, record a { writer = w })

  unfoldable pub flush_batch : Key → PendingBatch → Actor W → Result StorageError ℕ × Actor W
  unfolding learn
  flush_batch k b a =
      learned k.system k.entity a
        (ops.ingest_raw k.system k.entity b.columns b.rows (ops.set_tenant b.tenant a.writer))

  -- `if let Some(b) = pending.remove(&k)`; an error is only logged.
  abbrev pub flush_found : Key → Actor W → Option PendingBatch → Actor W
  flush_found k a none = a
  flush_found k a (some b) = (flush_batch k b (record a { pending = drop_batch k a.pending })).1

  unfoldable pub flush_keys : List Key → Actor W → Actor W
  unfolding flush_batch find_batch drop_batch
  flush_keys [] a = a
  flush_keys (k ∷ ks) a = flush_keys ks (flush_found k a (find_batch k a.pending))

  unfoldable pub flush_some : (PendingBatch → Bool) → Actor W → Actor W
  unfolding flush_keys keys_where
  flush_some should_flush a = flush_keys (keys_where should_flush a.pending) a

  unfoldable pub flush_pending : Actor W → Actor W
  unfolding flush_some
  flush_pending = flush_some (λ _. true)

  unfoldable pub flush_expired : ℕ → ℕ → Actor W → Actor W
  unfolding flush_some
  flush_expired zero now a = a
  flush_expired (suc s) now a = flush_some (is_expired (suc s) now) a
