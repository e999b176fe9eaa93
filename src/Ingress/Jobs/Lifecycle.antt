-- ===== src/Ingress/Jobs/Lifecycle.antt =====
-- Who sees a job, and for how long (crates/ingress/src/jobs.rs).
use consumer_engine.Prelude.{
  ℕ, ◌-◌, ◌≤◌, ◌≡◌, refl, ◌↔◌, Option, none, some, Text, text, ◌++◌, text_eq, text_eq_iff, ok, err,
  lookup, lookup-insert, lookup-remove, arith, if◌then◌else◌,
}
use mathlib.Core.Option.{some-injective}
use consumer_engine.Ingress.Jobs.{
  JobStatus, succeeded, failed, Entry, JobRegistry, put, set_done, set_failed, is_expired, owned,
  get_owned, response, not_found, get_job, Ended, returned, errored, panicked, supervise,
}

-- The answer of a poll from the entry that is there.
visible : Text → ℕ → ℕ → Option Entry → Option JobStatus
visible tenant ttl now e = if is_expired ttl now e then none else owned tenant e

visible-eq-some :
    (tenant : Text) (ttl now : ℕ) (e : Entry) (s : JobStatus)
    → ((f : Entry) × (some e ≡ some f)
        × (f.tenant ≡ tenant)
        × (now - f.since ≤ ttl)
        × (f.status ≡ s))
    → visible tenant ttl now (some e) ≡ some s
unfolding visible
visible-eq-some tenant ttl now e s (f, h, own, fresh, same) =
    ground (arith, some-injective e f h, text_eq_iff e.tenant tenant)

visible_iff :
    (tenant : Text) (ttl now : ℕ) (found : Option Entry) (s : JobStatus)
    → (visible tenant ttl now found ≡ some s) ↔ (
        (e : Entry) × (found ≡ some e)
        × (e.tenant ≡ tenant)
        × (now - e.since ≤ ttl)
        × (e.status ≡ s))
unfolding visible
visible_iff tenant ttl now none s = (λ h. cc, λ h. cc)
visible_iff tenant ttl now (some e) s = (
  λ h. (
    e,
    refl,
    ground (arith, text_eq_iff e.tenant tenant),
    ground (arith, text_eq_iff e.tenant tenant),
    ground (arith, text_eq_iff e.tenant tenant),
  ),
  λ h. visible-eq-some tenant ttl now e s h,
)

get_owned-visible :
    (id tenant : Text) (now : ℕ) (r : JobRegistry)
    → (get_owned id tenant now r).0 ≡ visible tenant r.ttl now (lookup id r.map)
unfolding get_owned visible
get_owned-visible id tenant now r = ground arith

-- A poll shows a status exactly when the entry is there, belongs to the caller's tenant, and was
-- written at most the TTL ago; and it is the status of the entry.
pub get_owned_iff :
    (id tenant : Text) (now : ℕ) (r : JobRegistry) (s : JobStatus)
    → ((get_owned id tenant now r).0 ≡ some s) ↔ (
        (e : Entry) × (lookup id r.map ≡ some e)
        × (e.tenant ≡ tenant)
        × (now - e.since ≤ r.ttl)
        × (e.status ≡ s))
get_owned_iff id tenant now r s =
    rw (get_owned-visible id tenant now r) (visible_iff tenant r.ttl now (lookup id r.map) s)

-- A poll by anyone removes the entry that it asks for when that has expired, and changes no other.
pub lookup-get_owned :
    (id j tenant : Text) (now : ℕ) (r : JobRegistry)
    → lookup j (get_owned id tenant now r).1.map ≡ (
        if text_eq id j
        then (if is_expired r.ttl now (lookup id r.map) then none else lookup j r.map)
        else lookup j r.map)
unfolding get_owned
lookup-get_owned id j tenant now r = ground (arith, lookup-remove id j r.map, text_eq_iff id j)

-- What the supervisor writes for the end of the inner task.
abbrev pub outcome : Ended → JobStatus
outcome (returned snapshot) = succeeded snapshot
outcome (errored e) = failed e
outcome (panicked join) = failed (text "materialise task failed: " ++ join)

-- A poll within the TTL of a write.
get_job-put :
    (id tenant caller : Text) (status : JobStatus) (at now : ℕ) (r : JobRegistry)
    → now - at ≤ r.ttl
    → (get_job id caller now (put id tenant status at r)).0
      ≡ (if text_eq tenant caller then ok (response status) else err not_found)
unfolding get_job get_owned
get_job-put id tenant caller status at now r h = ground (
  arith,
  lookup-insert id id (record { status = status; tenant = tenant; since = at }) r.map,
  text_eq_iff id id,
)

-- After the supervisor has recorded the end of a job, whatever the registry held before, a poll
-- within the TTL answers its owner with that end, and any other tenant with `404`.
pub supervise-get_job :
    (end : Ended) (id tenant caller : Text) (at now : ℕ) (r : JobRegistry)
    → now - at ≤ r.ttl
    → (get_job id caller now (supervise end id tenant at r)).0
      ≡ (if text_eq tenant caller then ok (response (outcome end)) else err not_found)
unfolding supervise set_done set_failed
supervise-get_job (returned snapshot) id tenant caller at now r h =
    get_job-put id tenant caller (outcome (returned snapshot)) at now r h
supervise-get_job (errored e) id tenant caller at now r h =
    get_job-put id tenant caller (outcome (errored e)) at now r h
supervise-get_job (panicked e) id tenant caller at now r h =
    get_job-put id tenant caller (outcome (panicked e)) at now r h
