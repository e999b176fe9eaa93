-- ===== src/Ingestion/Feed.antt =====
-- cdc_kafka.rs: `DebeziumMapper` and `next_batch`. Kafka is a list of what each turn of the loop
-- meets; a payload comes parsed by serde.
pub mod Offsets
pub mod Batches
pub mod Bounds
pub mod Pump
use consumer_engine.Prelude.{
  ℤ, pos, negsuc, ℕ, ◌+◌, leb, ltb, ◌==◌, Bool, true, false, ◌||◌, Option, none, some, List, [],
  ◌∷◌, ◌++◌, Text, text, text_eq, length, map, if◌then◌else◌,
}
use consumer_engine.Query.Json.{Json, string, object, Members, no_members, member}
use consumer_engine.Storage.Dedup.{Row}
use consumer_engine.Ingestion.Interface.{SourceBatch}

mutual
  pub data DebeziumEnvelope : Type 0 where
    envelope :
        (op : Option Text) (row_after row_before : Option Json) (payload : Payload)
        → DebeziumEnvelope

  pub data Payload : Type 0 where
    no_payload : Payload
    nested : DebeziumEnvelope → Payload

pub record DebeziumMapper : Type 0 where
  pub system : Text
  pub entity : Text
  pub columns : List Text
  pub key : Text

unfoldable pub member_at : Text → Members → Option Json
member_at c no_members = none
member_at c (member name v rest) =
    let later = member_at c rest in if text_eq name c then some v else later

-- `obj.get(c)`
abbrev pub field_of : Text → Json → Option Json
field_of c (object ms) = member_at c ms
field_of c _ = none

-- `env.payload.as_deref().unwrap_or(env)`
abbrev pub innermost : DebeziumEnvelope → DebeziumEnvelope
innermost (envelope op row_after row_before no_payload) =
    envelope op row_after row_before no_payload
innermost (envelope op row_after row_before (nested e)) = e

-- `to_string` prints a value that is no string.
module _ (to_string : Json → Text) (m : DebeziumMapper) where
  abbrev pub cell_from_json : Option Json → Option Text
  cell_from_json none = none
  cell_from_json (some Json.null) = none
  cell_from_json (some (string s)) = some s
  cell_from_json (some v) = some (to_string v)

  unfoldable pub row_from_json : Json → Row
  unfolding member_at
  row_from_json obj = map (λ c. cell_from_json (field_of c obj)) m.columns

  abbrev pub key_text : Option Json → List Text
  key_text none = []
  key_text (some (string s)) = s ∷ []
  key_text (some v) = to_string v ∷ []

  abbrev pub upsert_of : Option Json → List Row
  upsert_of none = []
  upsert_of (some row) = row_from_json row ∷ []

  abbrev pub delete_of : Option Json → List Text
  delete_of none = []
  delete_of (some row) = key_text (field_of m.key row)

  abbrev pub is_upsert : Option Text → Bool
  is_upsert none = true
  is_upsert (some op) = text_eq op (text "c") || text_eq op (text "u") || text_eq op (text "r")

  abbrev pub is_delete : Option Text → Bool
  is_delete none = false
  is_delete (some op) = text_eq op (text "d")

  abbrev pub changes : DebeziumEnvelope → List Row × List Text
  changes (envelope op row_after row_before _) =
      if is_upsert op
      then (upsert_of row_after, [])
      else if is_delete op
      then ([], delete_of row_before)
      else ([], [])

  abbrev pub batch_of : List Row → List Text → List (ℤ × ℤ) → SourceBatch
  batch_of upserts deletes offsets = record {
    system = m.system;
    entity = m.entity;
    columns = m.columns;
    key = m.key;
    upserts = upserts;
    deletes = deletes;
    offsets = offsets;
  }

  -- `DebeziumMapper::map`
  unfoldable pub map_envelope : DebeziumEnvelope → ℤ → ℤ → SourceBatch
  unfolding row_from_json
  map_envelope env partition offset =
      let (upserts, deletes) = changes (innermost env) in
      batch_of upserts deletes ((partition, offset) ∷ [])

-- A message without a payload is a tombstone.
pub data Content : Type 0 where
  tombstone : Content
  unparseable : Content
  change : DebeziumEnvelope → Content

pub data Poll : Type 0 where
  message : (partition offset : ℤ) → Content → Poll
  poll_error : Poll
  timed_out : Poll

-- Whether the deadline is over when the turn begins, and what `recv` gives if it is not.
pub record Turn : Type 0 where
  pub is_late : Bool
  pub poll : Poll

abbrev pub int_eq : ℤ → ℤ → Bool
int_eq (pos a) (pos b) = a == b
int_eq (negsuc a) (negsuc b) = a == b
int_eq (pos a) (negsuc b) = false
int_eq (negsuc a) (pos b) = false

abbrev pub int_ltb : ℤ → ℤ → Bool
int_ltb (pos a) (pos b) = ltb a b
int_ltb (negsuc a) (negsuc b) = ltb b a
int_ltb (pos a) (negsuc b) = false
int_ltb (negsuc a) (pos b) = true

-- `offsets.insert(partition, offset)`
unfoldable pub put_offset : ℤ → ℤ → List (ℤ × ℤ) → List (ℤ × ℤ)
put_offset p o [] = (p, o) ∷ []
put_offset p o ((q, held) ∷ rest) =
    let later = put_offset p o rest in
    if int_eq q p
    then (p, o) ∷ rest
    else if int_ltb p q
    then (p, o) ∷ (q, held) ∷ rest
    else (q, held) ∷ later

pub record Collected : Type 0 where
  pub upserts : List Row
  pub deletes : List Text
  pub offsets : List (ℤ × ℤ)

abbrev pub max_batch_messages : ℕ
max_batch_messages = 500

module _ (to_string : Json → Text) (m : DebeziumMapper) where
  abbrev pub parsed : Content → ℤ → ℤ → List Row × List Text
  parsed tombstone p o = ([], [])
  parsed unparseable p o = ([], [])
  parsed (change env) p o =
      let batch = map_envelope to_string m env p o in (batch.upserts, batch.deletes)

  abbrev pub with_message : ℤ → ℤ → Content → Collected → Collected
  with_message p o content c =
      let (upserts, deletes) = parsed content p o in
      record {
        upserts = c.upserts ++ upserts;
        deletes = c.deletes ++ deletes;
        offsets = put_offset p o c.offsets;
      }

  abbrev pub polled :
      (Collected → Collected × List Turn) → List Turn → Poll → Collected → Collected × List Turn
  polled next later (message p o content) c = next (with_message p o content c)
  polled next later poll_error c = (c, later)
  polled next later timed_out c = (c, later)

  -- The loop; what it leaves is for the next call.
  unfoldable pub collect : List Turn → Collected → Collected × List Turn
  unfolding put_offset map_envelope
  collect [] c = (c, [])
  collect (t ∷ later) c =
      if leb max_batch_messages (length c.upserts + length c.deletes) || t.is_late
      then (c, t ∷ later)
      else polled (collect later) later t.poll c

  abbrev pub yielded : List Row → List Text → List (ℤ × ℤ) → Option SourceBatch
  yielded [] [] [] = none
  yielded upserts deletes offsets = some (batch_of to_string m upserts deletes offsets)

  unfoldable pub next_batch : List Turn → Option SourceBatch × List Turn
  unfolding collect
  next_batch turns =
      let (c, later) = collect turns (record { upserts = []; deletes = []; offsets = [] }) in
      (yielded c.upserts c.deletes c.offsets, later)
