-- ===== src/Ingress/Jobs/Traces.antt =====
-- What other requests leave of the entry of a job (crates/ingress/src/jobs.rs).
use consumer_engine.Core.Ident.{IdentError, validate_ident}
use consumer_engine.Prelude.{
  Bool, true, false, Result, ℕ, ◌-◌, ◌≤◌, ◌≡◌, ◌≢◌, refl, ◌∙◌, none, some, List, [], ◌∷◌, Text,
  text, ◌++◌, text_eq, text_eq_iff, ok, err, lookup, lookup-insert, arith, if◌then◌else◌, All,
}
use consumer_engine.Ingress.Jobs.{
  JobStatus, insert_running, checked, post_jobs, Entry, JobRegistry, put, is_expired, set_done,
  set_failed, get_owned, response, not_found, get_job, Ended, returned, errored, panicked,
  supervise,
}
use consumer_engine.Ingress.Jobs.Lifecycle.{lookup-get_owned}

-- What changes the registry, with its time: a poll by someone, a request, the end of a job.
pub data Event : Type 0 where
  polled : Text → Text → ℕ → Event
  posted : Text → Bool → Text → Text → Bool → ℕ → Event
  ended : Ended → Text → Text → ℕ → Event

abbrev pub step : Event → JobRegistry → JobRegistry
step (polled id caller at) r = (get_job id caller at r).1
step (posted campaign_id dsl_ok uuid tenant slot at) r =
    (post_jobs campaign_id dsl_ok uuid tenant slot at r).1
step (ended end id tenant at) r = supervise end id tenant at r

abbrev pub steps : List Event → JobRegistry → JobRegistry
steps [] r = r
steps (e ∷ es) r = steps es (step e r)

-- Not later than `now`, and no write of the job: its polls are not excluded.
abbrev pub IsOther : Text → ℕ → Event → Type 0
IsOther id now (polled other caller at) = at ≤ now
IsOther id now (posted campaign_id dsl_ok uuid tenant slot at) = text "j_" ++ uuid ≢ id
IsOther id now (ended end other tenant at) = other ≢ id

pub record Holds (id : Text) (entry : Entry) (ttl : ℕ) (r : JobRegistry) : Type 0 where
  pub there : lookup id r.map ≡ some entry
  pub same_ttl : r.ttl ≡ ttl

pub Holds-put :
    (id tenant : Text) (status : JobStatus) (at : ℕ) (r : JobRegistry)
    → Holds id
        (record { status = status; tenant = tenant; since = at })
        r.ttl
        (put id tenant status at r)
Holds-put id tenant status at r = record {
  there = ground (
    arith,
    lookup-insert id id (record { status = status; tenant = tenant; since = at }) r.map,
    text_eq_iff id id,
  );
  same_ttl = refl;
}

ttl-get_owned :
    (other caller : Text) (at : ℕ) (r : JobRegistry) → (get_owned other caller at r).1.ttl ≡ r.ttl
unfolding get_owned
ttl-get_owned other caller at r = ground arith

module _ {id : Text} {entry : Entry} {ttl : ℕ} where
  put-Holds :
      (other tenant : Text) (status : JobStatus) (at : ℕ) {r : JobRegistry}
      → other ≢ id
      → Holds id entry ttl r
      → Holds id entry ttl (put other tenant status at r)
  put-Holds other tenant status at {r} apart held = record {
    there = ground (
      arith,
      held.there,
      lookup-insert other id (record { status = status; tenant = tenant; since = at }) r.map,
      text_eq_iff other id,
    );
    same_ttl = held.same_ttl;
  }

  supervise-Holds :
      (end : Ended) (other tenant : Text) (at : ℕ) {r : JobRegistry}
      → other ≢ id
      → Holds id entry ttl r
      → Holds id entry ttl (supervise end other tenant at r)
  unfolding supervise set_done set_failed
  supervise-Holds (returned snapshot) other tenant at apart held =
      put-Holds other tenant _ at apart held
  supervise-Holds (errored e) other tenant at apart held = put-Holds other tenant _ at apart held
  supervise-Holds (panicked join) other tenant at apart held =
      put-Holds other tenant _ at apart held

  checked-Holds :
      (campaign : Result IdentError (Unit {0})) (dsl_ok slot : Bool) (other tenant : Text) (at : ℕ)
      {r : JobRegistry}
      → other ≢ id
      → Holds id entry ttl r
      → Holds id entry ttl (checked campaign dsl_ok other tenant slot at r).1
  unfolding insert_running
  checked-Holds (err e) dsl_ok slot other tenant at apart held = held
  checked-Holds (ok _) false slot other tenant at apart held = held
  checked-Holds (ok _) true false other tenant at apart held =
      put-Holds other tenant _ at apart held
  checked-Holds (ok _) true true other tenant at apart held = put-Holds other tenant _ at apart held

  unless_expired :
      (other : Text) (at now : ℕ) {r : JobRegistry}
      → at ≤ now
      → now - entry.since ≤ ttl
      → Holds id entry ttl r
      → (if text_eq other id
          then (if is_expired r.ttl at (lookup other r.map) then none else lookup id r.map)
          else lookup id r.map)
        ≡ some entry
  unless_expired other at now {r} early fresh held =
      ground (arith, held.there, held.same_ttl, text_eq_iff other id)

  polled-Holds :
      (other caller : Text) (at now : ℕ) {r : JobRegistry}
      → at ≤ now
      → now - entry.since ≤ ttl
      → Holds id entry ttl r
      → Holds id entry ttl (get_job other caller at r).1
  unfolding get_job
  polled-Holds other caller at now {r} early fresh held = record {
    there = lookup-get_owned other id caller at r ∙ unless_expired other at now early fresh held;
    same_ttl = ttl-get_owned other caller at r ∙ held.same_ttl;
  }

  step-Holds :
      (e : Event) (now : ℕ) {r : JobRegistry}
      → now - entry.since ≤ ttl
      → IsOther id now e
      → Holds id entry ttl r
      → Holds id entry ttl (step e r)
  unfolding post_jobs
  step-Holds (polled other caller at) now fresh early held =
      polled-Holds other caller at now early fresh held
  step-Holds (posted campaign_id dsl_ok uuid tenant slot at) now fresh apart held =
      checked-Holds (validate_ident campaign_id) dsl_ok slot (text "j_" ++ uuid) tenant at apart
        held
  step-Holds (ended end other tenant at) now fresh apart held =
      supervise-Holds end other tenant at apart held

  pub steps-Holds :
      (es : List Event) (now : ℕ) {r : JobRegistry}
      → now - entry.since ≤ ttl
      → All (IsOther id now) es
      → Holds id entry ttl r
      → Holds id entry ttl (steps es r)
  steps-Holds [] now fresh others held = held
  steps-Holds (e ∷ es) now fresh others held =
      steps-Holds es now fresh others.1 (step-Holds e now fresh others.0 held)

  pub Holds-get_job :
      (caller : Text) (now : ℕ) (r : JobRegistry)
      → now - entry.since ≤ ttl
      → Holds id entry ttl r
      → (get_job id caller now r).0
        ≡ (if text_eq entry.tenant caller then ok (response entry.status) else err not_found)
  unfolding get_job get_owned
  Holds-get_job caller now r fresh held = ground (arith, held.there, held.same_ttl)
