-- ===== src/Ingestion/Batches/Laws.antt =====
-- Keys compared, and the map of batches by lookups.
use consumer_engine.Prelude.{
  ◌≡◌, ◌↔◌, refl, sym, ap, ◌∙◌, Bool, true, false, ◌||◌, none, some, List, [], ◌∷◌, text_eq_iff,
  if◌then◌else◌, arith,
}
use consumer_engine.Ingestion.Batches.{
  Key, PendingBatch, Pending, key_eq, find_batch, drop_batch, put_batch, keys_where,
}

key_eq_sound : (k l : Key) → key_eq k l ≡ true → k ≡ l
unfolding key_eq
key_eq_sound k l h = ground (
  arith,
  text_eq_iff k.tenant l.tenant,
  text_eq_iff k.system l.system,
  text_eq_iff k.entity l.entity,
)

key_eq_refl : (k : Key) → key_eq k k ≡ true
unfolding key_eq
key_eq_refl k = ground (
  arith,
  text_eq_iff k.tenant k.tenant,
  text_eq_iff k.system k.system,
  text_eq_iff k.entity k.entity,
)

pub key_eq_iff : (k l : Key) → (key_eq k l ≡ true) ↔ (k ≡ l)
key_eq_iff k l = (key_eq_sound k l, λ e. ap (key_eq k) (sym e) ∙ key_eq_refl k)

pub find_batch-put_batch :
    (k l : Key) (b : PendingBatch) (m : Pending)
    → find_batch l (put_batch k b m) ≡ (if key_eq k l then some b else find_batch l m)
unfolding find_batch put_batch
find_batch-put_batch k l b [] = refl
find_batch-put_batch k l b ((j, c) ∷ rest) =
    ground (arith, find_batch-put_batch k l b rest, key_eq_iff j k, key_eq_iff k l, key_eq_iff j l)

pub find_batch-drop_batch :
    (k l : Key) (m : Pending)
    → find_batch l (drop_batch k m) ≡ (if key_eq k l then none else find_batch l m)
unfolding find_batch drop_batch
find_batch-drop_batch k l [] = ground arith
find_batch-drop_batch k l ((j, c) ∷ rest) =
    ground (arith, find_batch-drop_batch k l rest, key_eq_iff j k, key_eq_iff k l, key_eq_iff j l)

unfoldable pub has_key : Key → List Key → Bool
has_key k [] = false
has_key k (l ∷ ls) = key_eq l k || has_key k ls

pub has_key-keys_where :
    (test : PendingBatch → Bool) (k : Key) (b : PendingBatch) (m : Pending)
    → find_batch k m ≡ some b
    → test b ≡ true
    → has_key k (keys_where test m) ≡ true
unfolding has_key keys_where find_batch
has_key-keys_where test k b [] found passes = absurd (cc found)
has_key-keys_where test k b ((j, c) ∷ rest) found passes =
    ground (arith, has_key-keys_where test k b rest, found, passes)
