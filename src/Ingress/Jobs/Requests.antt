-- ===== src/Ingress/Jobs/Requests.antt =====
-- A job from its request to a poll of it, other requests in between (crates/ingress/src/jobs.rs).
use consumer_engine.Core.Ident.{IdentError, validate_ident}
use consumer_engine.Prelude.{
  subst, sym, Bool, true, false, Result, ℕ, ◌-◌, ◌≤◌, ◌≡◌, refl, Option, none, some, List, Text,
  text, ◌++◌, text_eq, ok, err, if◌then◌else◌, All,
}
use consumer_engine.Ingress.Jobs.{
  ApiFault, JobStatus, running, insert_running, checked, post_jobs, JobRegistry, put, set_done,
  set_failed, response, not_found, get_job, Ended, returned, errored, panicked, supervise,
}
use consumer_engine.Ingress.Jobs.Traces.{
  Event, steps, IsOther, Holds, Holds-put, steps-Holds, Holds-get_job,
}
use consumer_engine.Ingress.Jobs.Lifecycle.{outcome}

-- The supervisor's write, if it has come to it.
abbrev pub settled : Option (Ended × ℕ) → Text → Text → JobRegistry → JobRegistry
settled none id tenant r = r
settled (some (end, later)) id tenant r = supervise end id tenant later r

abbrev pub status_of : Option (Ended × ℕ) → JobStatus
status_of none = running
status_of (some (end, later)) = outcome end

abbrev pub written_at : ℕ → Option (Ended × ℕ) → ℕ
written_at at none = at
written_at at (some (end, later)) = later

ok-injective : (a b : Text) → Path (Result ApiFault Text) (ok a) (ok b) → a ≡ b
ok-injective a b h = cc

accepted-Holds :
    (campaign : Result IdentError (Unit {0})) (dsl_ok slot : Bool) (minted tenant : Text) (at : ℕ)
    (r : JobRegistry) (id : Text)
    → (checked campaign dsl_ok minted tenant slot at r).0 ≡ ok id
    → Holds id
        (record { status = running; tenant = tenant; since = at })
        r.ttl
        (checked campaign dsl_ok minted tenant slot at r).1
unfolding insert_running
accepted-Holds (err e) dsl_ok slot minted tenant at r id h = absurd (cc h)
accepted-Holds (ok _) false slot minted tenant at r id h = absurd (cc h)
accepted-Holds (ok _) true false minted tenant at r id h = absurd (cc h)
accepted-Holds (ok _) true true minted tenant at r id h =
    subst
      (λ i.
        Holds i (record { status = running; tenant = tenant; since = at }) r.ttl
          (put minted tenant running at r))
      (ok-injective minted id h) (Holds-put minted tenant running at r)

post_jobs-Holds :
    (campaign_id uuid tenant : Text) (dsl_ok slot : Bool) (at : ℕ) (r : JobRegistry) (id : Text)
    → (post_jobs campaign_id dsl_ok uuid tenant slot at r).0 ≡ ok id
    → Holds id
        (record { status = running; tenant = tenant; since = at })
        r.ttl
        (post_jobs campaign_id dsl_ok uuid tenant slot at r).1
unfolding post_jobs
post_jobs-Holds campaign_id uuid tenant dsl_ok slot at r id h =
    accepted-Holds (validate_ident campaign_id) dsl_ok slot (text "j_" ++ uuid) tenant at r id h

supervise-put :
    (end : Ended) (id tenant : Text) (at : ℕ) (r : JobRegistry)
    → supervise end id tenant at r ≡ put id tenant (outcome end) at r
unfolding supervise set_done set_failed
supervise-put (returned snapshot) id tenant at r = refl
supervise-put (errored e) id tenant at r = refl
supervise-put (panicked join) id tenant at r = refl

settled-Holds :
    (end : Option (Ended × ℕ)) (id tenant : Text) (at ttl : ℕ) (r : JobRegistry)
    → Holds id (record { status = running; tenant = tenant; since = at }) ttl r
    → Holds id
        (record { status = status_of end; tenant = tenant; since = written_at at end })
        ttl
        (settled end id tenant r)
settled-Holds none id tenant at ttl r held = held
settled-Holds (some (end, later)) id tenant at ttl r held =
    rw (supervise-put end id tenant later r)
      (rw (sym held.same_ttl) (Holds-put id tenant (outcome end) later r))

-- An accepted request answers with an id under which its tenant finds the job, and any other
-- tenant nothing: running as long as the supervisor has not recorded an end, and that end as soon
-- as it has, provided the poll comes within the TTL of the request and of the end. Before and
-- after the supervisor's write anyone may poll any job up to then, and other jobs may be requested,
-- under other ids, and end.
pub post_jobs-get_job :
    (campaign_id uuid tenant caller : Text) (dsl_ok slot : Bool) (at now : ℕ) (r : JobRegistry)
    (id : Text) (end : Option (Ended × ℕ)) (before later : List Event)
    → now - at ≤ r.ttl
    → now - written_at at end ≤ r.ttl
    → (post_jobs campaign_id dsl_ok uuid tenant slot at r).0 ≡ ok id
    → All (IsOther id now) before
    → All (IsOther id now) later
    → (get_job id caller now (
        steps later (
          settled end id tenant
            (steps before (post_jobs campaign_id dsl_ok uuid tenant slot at r).1)))).0
      ≡ (if text_eq tenant caller then ok (response (status_of end)) else err not_found)
post_jobs-get_job campaign_id uuid tenant caller dsl_ok slot at now r id end before later fresh
      fresh_end accepted others more =
    Holds-get_job caller now _ fresh_end (
      steps-Holds later now fresh_end more (
        settled-Holds end id tenant at r.ttl _ (
          steps-Holds before now fresh others
            (post_jobs-Holds campaign_id uuid tenant dsl_ok slot at r id accepted))))
