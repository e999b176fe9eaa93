-- ===== src/Tests/Requests.antt =====
-- Requests to the handlers of snapshots and outcomes, and the gate before them.
use consumer_engine.Prelude.{
  ℕ, ltb, ◌≡◌, ◌⊎◌, refl, Bool, true, none, some, List, [], ◌∷◌, Text, text, text_eq, fmt,
  to_decimal, Result, ok, err, if◌then◌else◌,
}
use consumer_engine.Storage.Appends.{SuppressionRow}
use consumer_engine.Ingress.Access.{Tenants, require_auth}
use consumer_engine.Ingress.Access.Laws.{IsAdmitted, require_auth_sound}
use consumer_engine.Ingress.Presign.{saturating_add, export_ttl_secs, hex_encode, sign}
use consumer_engine.Ingress.Audience.{
  AudienceError, unauthorized, SnapshotMeta, AudienceResponse, AudienceOps, download_url,
  get_audience, get_export,
}
use consumer_engine.Ingress.Audience.Laws.{
  IsAllowed, link_query, get_export-IsAllowed, get_audience-get_export,
}
use consumer_engine.Ingress.Suppression.{
  SuppressionRequest, SuppressionError, created, post_suppression,
}
use consumer_engine.Ingress.Suppression.Laws.{IsRow, post_suppression-IsRow}
use consumer_engine.Tests.Handlers.{zeros, zero_mac, zero_mac-IsMac}

abbrev one_tenant : Tenants
one_tenant = record {
  auth_token_hash = none;
  tenants = (text "acme", text "secret") ∷ [];
  default_tenant = text "default";
}

abbrev no_hash : Text → List ℕ
no_hash s = s

require_auth_sound_example :
    IsAdmitted no_hash one_tenant (some (text "Bearer secret")) (text "acme")
unfolding require_auth text_eq text
require_auth_sound_example =
    require_auth_sound no_hash one_tenant (text "/query") (some (text "Bearer secret"))
      (text "acme") refl

abbrev some_meta : SnapshotMeta
some_meta = record {
  campaign_id = text "c1";
  as_of_ts = text "2026-01-01T00:00:00Z";
  row_count = 3;
}

abbrev snapshots : AudienceOps ℕ
snapshots = record {
  is_uuid = λ s. text_eq s (text "s1");
  meta = λ bare tenant. ok (if text_eq tenant (text "acme") then some some_meta else none);
  export_parquet = λ bare w. (ok bare, w);
  hmac = zero_mac;
  signing_key = [];
}

abbrev signed_token : Text
signed_token = fmt (to_decimal 1900 ∷ text "." ∷ hex_encode zeros ∷ [])

abbrev audience : AudienceResponse
audience = record {
  snapshot_id = text "snap_s1";
  campaign_id = text "c1";
  as_of_ts = text "2026-01-01T00:00:00Z";
  row_count = 3;
  download_url = download_url snapshots (text "snap_s1") signed_token;
}

get_export-IsAllowed_example :
    ((get_export snapshots
          (link_query snapshots signed_token)
          (text "snap_s1")
          (text "acme")
          1500
          0).1
        ≡ 0)
      × ((e : AudienceError) × ((get_export snapshots
              (link_query snapshots signed_token)
              (text "snap_s1")
              (text "acme")
              1500
              0).0
            ≡ err e))
    ⊎ IsAllowed snapshots (link_query snapshots signed_token) (text "snap_s1") (text "acme") 1500
get_export-IsAllowed_example =
    get_export-IsAllowed snapshots (link_query snapshots signed_token) (text "snap_s1")
      (text "acme") 1500 0

get_audience-get_export_example :
    (token : Text) × (bare : Text) × (audience.download_url
      ≡ download_url snapshots (text "snap_s1") token)
    × ((later : ℕ) (w : ℕ)
        → get_export snapshots (link_query snapshots token) (text "snap_s1") (text "acme") later w
          ≡ (if ltb later (saturating_add 1000 export_ttl_secs)
              then (ok bare, w)
              else (err unauthorized, w)))
unfolding get_audience text text_eq sign
get_audience-get_export_example =
    get_audience-get_export snapshots zero_mac-IsMac (text "snap_s1") (text "acme") 1000 audience
      refl

abbrev outcome : SuppressionRequest
outcome = record {
  suppression_id = some (text "s1");
  campaign_id = text "c1";
  user_id = text "u1";
  channel = text "sms";
  action = text "converted";
  occurred_ts = text "2026-01-01T00:00:00Z";
}

abbrev anything : Text → Bool
anything s = true

abbrev write_ok : List SuppressionRow → Text → ℕ → Result SuppressionError ℕ × ℕ
write_ok rows tenant w = (ok 1, 7)

post_suppression-IsRow_example :
    ((e : SuppressionError) × (post_suppression anything anything write_ok outcome
          (text "acme")
          []
          0
        ≡ (err e, 0)))
    ⊎ ((row : SuppressionRow) × IsRow anything anything outcome [] row
        × (post_suppression anything anything write_ok outcome (text "acme") [] 0
            ≡ created anything anything write_ok row.suppression_id
                (write_ok (row ∷ []) (text "acme") 0)))
post_suppression-IsRow_example =
    post_suppression-IsRow anything anything write_ok outcome (text "acme") [] 0
