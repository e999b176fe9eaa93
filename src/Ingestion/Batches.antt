-- ===== src/Ingestion/Batches.antt =====
-- The rows that wait: `PendingBatch`, and the map of them by tenant, system and entity.
pub mod Laws
use consumer_engine.Prelude.{
  ℕ, Bool, true, false, ◌&&◌, ◌||◌, Option, none, some, List, [], ◌∷◌, Text, text_eq, if◌then◌else◌,
}
use consumer_engine.Query.Engine.Catalogue.{text_ltb}
use consumer_engine.Storage.Dedup.{Row}

-- `flush_rows` and `flush_age_secs` are `u64`.
pub record MicroBatchConfig : Type 0 where
  pub flush_rows : ℕ
  pub flush_age_secs : ℕ

abbrev pub default_config : MicroBatchConfig
default_config = record { flush_rows = 50_000; flush_age_secs = 30 }

abbrev pub immediate : MicroBatchConfig
immediate = record { flush_rows = 1; flush_age_secs = 0 }

-- `since` is an `Instant`, in nanoseconds.
pub record PendingBatch : Type 0 where
  pub columns : List Text
  pub rows : List Row
  pub tenant : Text
  pub since : ℕ

pub record Key : Type 0 where
  pub tenant : Text
  pub system : Text
  pub entity : Text

abbrev pub Pending : Type 0
Pending = List (Key × PendingBatch)

unfoldable pub key_eq : Key → Key → Bool
key_eq k l = text_eq k.tenant l.tenant && text_eq k.system l.system && text_eq k.entity l.entity

-- The order of the tuples.
unfoldable pub key_ltb : Key → Key → Bool
key_ltb k l =
    text_ltb k.tenant l.tenant
    || (text_eq k.tenant l.tenant
        && (text_ltb k.system l.system
            || (text_eq k.system l.system && text_ltb k.entity l.entity)))

unfoldable pub find_batch : Key → Pending → Option PendingBatch
find_batch k [] = none
find_batch k ((l, b) ∷ rest) = if key_eq l k then some b else find_batch k rest

unfoldable pub drop_batch : Key → Pending → Pending
drop_batch k [] = []
drop_batch k ((l, b) ∷ rest) =
    let later = drop_batch k rest in if key_eq l k then later else (l, b) ∷ later

unfoldable pub put_batch : Key → PendingBatch → Pending → Pending
put_batch k new [] = (k, new) ∷ []
put_batch k new ((l, b) ∷ rest) =
    let later = put_batch k new rest in
    if key_eq l k
    then (k, new) ∷ rest
    else if key_ltb k l
    then (k, new) ∷ (l, b) ∷ rest
    else (l, b) ∷ later

-- `iter().filter(..).map(|(k, _)| k.clone())`
unfoldable pub keys_where : (PendingBatch → Bool) → Pending → List Key
keys_where test [] = []
keys_where test ((k, b) ∷ rest) =
    let later = keys_where test rest in if test b then k ∷ later else later
