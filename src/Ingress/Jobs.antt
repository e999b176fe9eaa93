-- ===== src/Ingress/Jobs.antt =====
-- crates/ingress/src/jobs.rs. An `Instant` is a number of nanoseconds and is passed in; `DashMap`
-- calls happen one after another. The engine that materialises, the uuid and the slots are events:
-- what `parse` returned, the minted id, whether a slot was given, and how the inner task ended.
pub mod Lifecycle
pub mod Traces
pub mod Requests
use consumer_engine.Prelude.{
  ℕ, ◌-◌, Bool, true, false, Option, none, some, List, [], ◌∷◌, ◌++◌, Text, text, text_eq, Result,
  ok, err, insert, lookup, remove, ltb, if◌then◌else◌,
}
use consumer_engine.Core.Ident.{validate_ident, IdentError}

pub data JobStatus : Type 0 where
  running : JobStatus
  succeeded : Text → JobStatus
  failed : Text → JobStatus

pub record Entry : Type 0 where
  pub status : JobStatus
  pub tenant : Text
  pub since : ℕ

pub record JobRegistry : Type 0 where
  pub map : List (Text × Entry)
  pub ttl : ℕ

-- An hour, in nanoseconds.
abbrev pub job_ttl : ℕ
job_ttl = 3_600_000_000_000

unfoldable pub with_ttl : ℕ → JobRegistry
with_ttl ttl = record { map = []; ttl = ttl }

unfoldable pub new : JobRegistry
unfolding with_ttl
new = with_ttl job_ttl

abbrev pub put : Text → Text → JobStatus → ℕ → JobRegistry → JobRegistry
put id tenant status now r = record {
  map = insert id (record { status = status; tenant = tenant; since = now }) r.map;
  ttl = r.ttl;
}

unfoldable pub insert_running : Text → Text → ℕ → JobRegistry → JobRegistry
insert_running id tenant now r = put id tenant running now r

unfoldable pub set_done : Text → Text → Text → ℕ → JobRegistry → JobRegistry
set_done id tenant snapshot now r = put id tenant (succeeded snapshot) now r

unfoldable pub set_failed : Text → Text → Text → ℕ → JobRegistry → JobRegistry
set_failed id tenant error now r = put id tenant (failed error) now r

-- `duration_since` is 0 for a later instant, as `-` is.
abbrev pub is_expired : ℕ → ℕ → Option Entry → Bool
is_expired ttl now none = false
is_expired ttl now (some e) = ltb ttl (now - e.since)

-- The clone of the status, if the tenant is the owner.
abbrev pub owned : Text → Option Entry → Option JobStatus
owned tenant none = none
owned tenant (some e) = if text_eq e.tenant tenant then some e.status else none

unfoldable pub get_owned : Text → Text → ℕ → JobRegistry → Option JobStatus × JobRegistry
get_owned id tenant now r =
    if is_expired r.ttl now (lookup id r.map)
    then (none, record { map = remove id r.map; ttl = r.ttl })
    else (owned tenant (lookup id r.map), r)

pub record JobResponse : Type 0 where
  pub status : Text
  pub is_done : Bool
  pub snapshot_id : Option Text
  pub error : Option Text

unfoldable pub response : JobStatus → JobResponse
response running = record {
  status = text "running";
  is_done = false;
  snapshot_id = none;
  error = none;
}
response (succeeded snapshot) = record {
  status = text "done";
  is_done = true;
  snapshot_id = some snapshot;
  error = none;
}
response (failed e) = record {
  status = text "failed";
  is_done = true;
  snapshot_id = none;
  error = some e;
}

pub data ApiFault : Type 0 where
  not_found : ApiFault
  bad_campaign : IdentError → ApiFault
  bad_dsl : ApiFault
  slots_closed : ApiFault

abbrev pub or_not_found : Option JobStatus → Result ApiFault JobResponse
or_not_found none = err not_found
or_not_found (some s) = ok (response s)

-- `GET /jobs/:id`
unfoldable pub get_job : Text → Text → ℕ → JobRegistry → Result ApiFault JobResponse × JobRegistry
unfolding get_owned
get_job id tenant now r = let (found, r') = get_owned id tenant now r in (or_not_found found, r')

-- `POST /jobs`, up to the spawn: the checks, the entry, the slot.
abbrev pub checked :
    Result IdentError (Unit {0})
    → Bool
    → Text
    → Text
    → Bool
    → ℕ
    → JobRegistry
    → Result ApiFault Text × JobRegistry
checked (err e) dsl_ok id tenant slot now r = (err (bad_campaign e), r)
checked (ok _) false id tenant slot now r = (err bad_dsl, r)
checked (ok _) true id tenant false now r = (err slots_closed, insert_running id tenant now r)
checked (ok _) true id tenant true now r = (ok id, insert_running id tenant now r)

-- The task that it spawns then is `supervise`: its write comes later, or even before the answer.
unfoldable pub post_jobs :
    Text → Bool → Text → Text → Bool → ℕ → JobRegistry → Result ApiFault Text × JobRegistry
post_jobs campaign_id dsl_ok uuid tenant slot now r =
    checked (validate_ident campaign_id) dsl_ok (text "j_" ++ uuid) tenant slot now r

-- How the inner task ended: the engine's result, or the panic that the join reports.
pub data Ended : Type 0 where
  returned : Text → Ended
  errored : Text → Ended
  panicked : Text → Ended

-- The supervisor's `match`.
unfoldable pub supervise : Ended → Text → Text → ℕ → JobRegistry → JobRegistry
supervise (returned snapshot) id tenant now r = set_done id tenant snapshot now r
supervise (errored e) id tenant now r = set_failed id tenant e now r
supervise (panicked join) id tenant now r =
    set_failed id tenant (text "materialise task failed: " ++ join) now r
