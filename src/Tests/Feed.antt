-- ===== src/Tests/Feed.antt =====
-- Runs of the change feed.
use consumer_engine.Prelude.{
  pos, ℕ, ◌≡◌, ◌⊎◌, ◌==◌, if◌then◌else◌, none, some, List, [], ◌∷◌, Text, text, ok, err, false,
  arith,
}
use consumer_engine.Query.Json.{Json, string, object, no_members, member}
use consumer_engine.Storage.Machine.{storage}
use consumer_engine.Ingestion.Interface.{SourceBatch}
use consumer_engine.Ingestion.Flush.{nanos_per_sec}
use consumer_engine.Ingestion.Feed.{
  envelope, no_payload, DebeziumMapper, message, tombstone, change, timed_out, Turn, Collected,
  collect,
}
use consumer_engine.Ingestion.Feed.Batches.{IsRead, collect-IsRead}
use consumer_engine.Ingestion.Feed.Bounds.{IsFit, collect-IsFit}
use consumer_engine.Ingestion.Feed.Pump.{PumpOps, Pump, round, rounds}
use consumer_engine.Ingestion.Feed.Pump.Laws.{IsPaced, rounds-IsPaced, IsMarked, round-freshness}

abbrev printed : Json → Text
printed v = text "?"

abbrev users_mapper : DebeziumMapper
users_mapper = record {
  system = text "crm";
  entity = text "users";
  columns = text "id" ∷ text "name" ∷ [];
  key = text "id";
}

abbrev user_json : Json
user_json = object (member (text "id") (string (text "u1")) no_members)

abbrev turn_of : Turn
turn_of = record {
  is_late = false;
  poll =
      message (pos 0) (pos 7)
        (change (envelope (some (text "c")) (some user_json) none no_payload));
}

abbrev some_turns : List Turn
some_turns =
    turn_of
    ∷ record { is_late = false; poll = message (pos 0) (pos 8) tombstone }
    ∷ record { is_late = false; poll = timed_out }
    ∷ turn_of
    ∷ []

abbrev nothing_yet : Collected
nothing_yet = record { upserts = []; deletes = []; offsets = [] }

collect-IsRead_example :
    IsRead printed users_mapper some_turns nothing_yet
      (collect printed users_mapper some_turns nothing_yet)
collect-IsRead_example = collect-IsRead printed users_mapper some_turns nothing_yet

collect-IsFit_example :
    IsFit printed users_mapper (collect printed users_mapper some_turns nothing_yet).0
collect-IsFit_example =
    collect-IsFit printed users_mapper some_turns nothing_yet
      (record { changes = omega arith; aligned = tt })

abbrev users_batch : SourceBatch
users_batch = record {
  system = text "crm";
  entity = text "users";
  columns = text "id" ∷ [];
  key = text "id";
  upserts = [];
  deletes = text "u1" ∷ [];
  offsets = (pos 0, pos 8) ∷ [];
}

-- An adapter with a batch at each call, and a writer that fails at even calls.
abbrev flaky : ℕ → PumpOps (Unit {0}) ℕ
flaky even = record {
  read_cdc_offsets = λ w. (ok [], w);
  resume = λ offsets s. (ok tt, s);
  next_batch = λ s. (ok (some users_batch), s);
  apply_cdc_batch = λ b w. (if w == 0 then err storage else ok 1, even);
}

abbrev fresh_pump : Pump (Unit {0}) ℕ
fresh_pump = record {
  adapter = tt;
  handle = 1;
  freshness = [];
  backoff = nanos_per_sec;
  slept = [];
}

rounds-IsPaced_example :
    IsPaced
      (flaky 0)
      nanos_per_sec
      (rounds (flaky 0) nanos_per_sec (pos 10 ∷ pos 11 ∷ []) fresh_pump)
rounds-IsPaced_example =
    rounds-IsPaced (flaky 0) nanos_per_sec (pos 10 ∷ pos 11 ∷ []) fresh_pump (omega arith)
      (record { least = omega arith; most = omega arith; waits = tt })

round-freshness_example :
    ((round (flaky 0) nanos_per_sec (pos 10) fresh_pump).freshness ≡ [])
    ⊎ IsMarked
        (flaky 0)
        nanos_per_sec
        (pos 10)
        fresh_pump
        (round (flaky 0) nanos_per_sec (pos 10) fresh_pump)
round-freshness_example = round-freshness (flaky 0) nanos_per_sec (pos 10) fresh_pump
