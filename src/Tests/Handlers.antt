-- ===== src/Tests/Handlers.antt =====
-- Jobs of two tenants, and an export token under a MAC that answers with 32 zeros.
use consumer_engine.Prelude.{
  ℕ, ◌-◌, ◌≤◌, ◌<◌, ◌≡◌, ◌≢◌, refl, ◌↔◌, true, false, text_eq_iff, Option, none, some, List, [],
  ◌∷◌, ◌++◌, Text, text, fmt, text_eq, to_decimal, ok, err, lookup, length, ltb, All, if◌then◌else◌,
  arith, subst,
}
use consumer_engine.Core.Ident.{validate_ident}
use consumer_engine.Ingress.Jobs.{
  running, JobRegistry, Entry, get_owned, is_expired, get_job, response, not_found, post_jobs,
  supervise, panicked, returned, errored, Ended, insert_running,
}
use consumer_engine.Ingress.Jobs.Lifecycle.{
  get_owned_iff, lookup-get_owned, outcome, supervise-get_job,
}
use consumer_engine.Ingress.Jobs.Traces.{Event, polled, posted, ended, steps}
use consumer_engine.Ingress.Jobs.Requests.{settled, status_of, post_jobs-get_job}
use consumer_engine.Ingress.Presign.{
  tag_len, saturating_add, hex_encode, hex_decode, parse_u64, message, sign, verify,
}
use consumer_engine.Ingress.Presign.Hex.{IsByte, hex_decode-hex_encode}
use consumer_engine.Ingress.Presign.Tokens.{IsMac, verify-sign, verify_sound}

abbrev jobs : JobRegistry
jobs = record {
  map =
      (text "j_1", record { status = running; tenant = text "acme"; since = 100 })
      ∷ (text "j_2", record { status = running; tenant = text "other"; since = 10 })
      ∷ [];
  ttl = 60;
}

get_owned_iff_example : ((get_owned (text "j_1") (text "acme") 150 jobs).0 ≡ some running) ↔ (
    (e : Entry) × (lookup (text "j_1") jobs.map ≡ some e)
    × (e.tenant ≡ text "acme")
    × (150 - e.since ≤ 60)
    × (e.status ≡ running))
get_owned_iff_example = get_owned_iff (text "j_1") (text "acme") 150 jobs running

lookup-get_owned_example :
    lookup (text "j_2") (get_owned (text "j_2") (text "acme") 150 jobs).1.map ≡ (
      if text_eq (text "j_2") (text "j_2")
      then (if is_expired 60 150 (lookup (text "j_2") jobs.map)
          then none
          else lookup (text "j_2") jobs.map)
      else lookup (text "j_2") jobs.map)
lookup-get_owned_example = lookup-get_owned (text "j_2") (text "j_2") (text "acme") 150 jobs

supervise-get_job_example :
    (get_job
      (text "j_1")
      (text "other")
      150
      (supervise (panicked (text "boom")) (text "j_1") (text "acme") 120 jobs)).0
    ≡ (if text_eq (text "acme") (text "other")
        then ok (response (outcome (panicked (text "boom"))))
        else err not_found)
supervise-get_job_example =
    supervise-get_job (panicked (text "boom")) (text "j_1") (text "acme") (text "other") 120 150
      jobs (omega arith)

differ : (a b : Text) → text_eq a b ≡ false → a ≢ b
differ a b e h = cc (e, (text_eq_iff a b).1 h)

abbrev before_end : List Event
before_end =
    polled (text "j_2") (text "other") 130
    ∷ posted (text "spring") true (text "8") (text "other") true 135
    ∷ []

abbrev after_end : List Event
after_end =
    ended (errored (text "disk")) (text "j_8") (text "other") 145
    ∷ polled (text "j_7") (text "other") 148
    ∷ []

abbrev snapshot_end : Option (Ended × ℕ)
snapshot_end = some (returned (text "snap"), 140)

post_jobs-get_job_example :
    (get_job (text "j_7") (text "acme") 190 (
      steps after_end (
        settled snapshot_end (text "j_7") (text "acme") (
          steps before_end
            (post_jobs (text "spring") true (text "7") (text "acme") true 130 jobs).1)))).0
    ≡ (if text_eq (text "acme") (text "acme")
        then ok (response (status_of snapshot_end))
        else err not_found)
post_jobs-get_job_example =
    post_jobs-get_job (text "spring") (text "7") (text "acme") (text "acme") true true 130 190 jobs
      (text "j_7") snapshot_end before_end after_end (omega arith) (omega arith)
      (unfold post_jobs in unfold validate_ident in unfold insert_running in unfold text in refl)
      (
        omega arith,
        ((differ (text "j_" ++ text "8") (text "j_7") (unfold text in unfold text_eq in refl)), tt),
      )
      (
        (differ (text "j_8") (text "j_7") (unfold text in unfold text_eq in refl)),
        (omega arith, tt),
      )

abbrev pub zeros : List ℕ
zeros =
    0 ∷ 0 ∷ 0 ∷ 0 ∷ 0 ∷ 0 ∷ 0 ∷ 0 ∷ 0 ∷ 0 ∷ 0 ∷ 0 ∷ 0 ∷ 0 ∷ 0 ∷ 0 ∷ 0 ∷ 0 ∷ 0 ∷ 0 ∷ 0 ∷ 0 ∷ 0 ∷ 0
    ∷ 0 ∷ 0 ∷ 0 ∷ 0 ∷ 0 ∷ 0 ∷ 0 ∷ 0 ∷ []

abbrev pub zero_mac : List ℕ → Text → Option (List ℕ)
zero_mac key m = some zeros

zeros_eq : (tag : List ℕ) → Path (Option (List ℕ)) (some zeros) (some tag) → zeros ≡ tag
zeros_eq tag h = cc

zeros_bytes : All IsByte zeros
zeros_bytes = ground arith

pub zero_mac-IsMac : IsMac zero_mac
zero_mac-IsMac key m tag h =
    subst (λ t. (length t ≡ tag_len) × All IsByte t) (zeros_eq tag h) (refl, zeros_bytes)

abbrev token : Text
token = fmt (to_decimal 1900 ∷ text "." ∷ hex_encode zeros ∷ [])

hex_decode-hex_encode_example : hex_decode (hex_encode (7 ∷ 255 ∷ [])) ≡ some (7 ∷ 255 ∷ [])
hex_decode-hex_encode_example = hex_decode-hex_encode (7 ∷ 255 ∷ []) (ground arith)

verify-sign_example : verify zero_mac [] (text "s1") token 1500 ≡ ltb 1500 (saturating_add 1000 900)
verify-sign_example =
    verify-sign zero_mac [] (text "s1") token 900 1000 1500 zero_mac-IsMac (unfold sign in refl)

token_accepted : verify zero_mac [] (text "s1") token 1500 ≡ true
token_accepted =
    verify-sign zero_mac [] (text "s1") token 900 1000 1500 zero_mac-IsMac (unfold sign in refl)

verify_sound_example :
    (expiry_str : Text) × (tag_hex : Text) × (expiry : ℕ) × (tag : List ℕ) × (token
      ≡ expiry_str ++ b'.' ∷ tag_hex)
    × (parse_u64 expiry_str ≡ some expiry)
    × (1500 < expiry)
    × (hex_decode tag_hex ≡ some tag)
    × (length tag ≡ tag_len)
    × (zero_mac [] (message (text "s1") expiry) ≡ some tag)
verify_sound_example = verify_sound zero_mac [] (text "s1") token 1500 token_accepted
