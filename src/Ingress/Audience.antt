-- ===== src/Ingress/Audience.antt =====
-- crates/ingress/src/audience.rs. The engine's snapshot metadata, the writer's export with the file
-- that it leaves, and the parser of UUIDs are parameters; `str`s are UTF-8 bytes, as in
-- Ingress/Presign.
pub mod Laws
use consumer_engine.Prelude.{
  ℕ, Bool, true, false, Option, none, some, List, [], ◌∷◌, Text, text, text_eq, fmt, Result, ok,
  err, if◌then◌else◌,
}
use consumer_engine.Ingress.Presign.{export_ttl_secs, sign, verify}
use consumer_engine.Ingress.Access.{strip_prefix}

-- The errors that the two handlers build, and those of the engine and the writer.
pub data AudienceError : Type 0 where
  invalid_snapshot_id : AudienceError
  signing_failure : AudienceError
  not_found : AudienceError
  unsupported_format : AudienceError
  unauthorized : AudienceError
  engine_failure : AudienceError

pub record SnapshotMeta : Type 0 where
  pub campaign_id : Text
  pub as_of_ts : Text
  pub row_count : ℕ

pub record AudienceResponse : Type 0 where
  pub snapshot_id : Text
  pub campaign_id : Text
  pub as_of_ts : Text
  pub row_count : ℕ
  pub download_url : Text

pub record ExportQuery : Type 0 where
  pub format : Option Text
  pub token : Option Text

-- `is_uuid` is `Uuid::parse_str(..).is_ok()`; `meta` is `snapshot_meta`, of an id and a tenant.
pub record AudienceOps (W : Type 0) : Type 0 where
  pub is_uuid : Text → Bool
  pub meta : Text → Text → Result AudienceError (Option SnapshotMeta)
  pub export_parquet : Text → W → Result AudienceError (List ℕ) × W
  pub hmac : List ℕ → Text → Option (List ℕ)
  pub signing_key : List ℕ

module _ {W : Type 0} (ops : AudienceOps W) where
  abbrev pub checked_uuid : Option Text → Result AudienceError Text
  checked_uuid none = err invalid_snapshot_id
  checked_uuid (some rest) = if ops.is_uuid rest then ok rest else err invalid_snapshot_id

  unfoldable pub parse_snap_id : Text → Result AudienceError Text
  unfolding strip_prefix
  parse_snap_id snap = checked_uuid (strip_prefix (text "snap_") snap)

  abbrev pub download_url : Text → Text → Text
  download_url id token =
      fmt (text "/audience/" ∷ id ∷ text "/export?format=parquet&token=" ∷ token ∷ [])

  abbrev pub responded : Text → SnapshotMeta → Option Text → Result AudienceError AudienceResponse
  responded id meta none = err signing_failure
  responded id meta (some token) = ok (record {
    snapshot_id = id;
    campaign_id = meta.campaign_id;
    as_of_ts = meta.as_of_ts;
    row_count = meta.row_count;
    download_url = download_url id token;
  })

  abbrev pub described :
      Text
      → Text
      → ℕ
      → Result AudienceError (Option SnapshotMeta)
      → Result AudienceError AudienceResponse
  described id bare now (err e) = err e
  described id bare now (ok none) = err not_found
  described id bare now (ok (some meta)) =
      responded id meta (sign ops.hmac ops.signing_key bare export_ttl_secs now)

  abbrev pub audience_of :
      Text → Text → ℕ → Result AudienceError Text → Result AudienceError AudienceResponse
  audience_of id tenant now (err e) = err e
  audience_of id tenant now (ok bare) = described id bare now (ops.meta bare tenant)

  unfoldable pub get_audience : Text → Text → ℕ → Result AudienceError AudienceResponse
  unfolding parse_snap_id
  get_audience id tenant now = audience_of id tenant now (parse_snap_id id)

  abbrev pub owned :
      Text → Result AudienceError (Option SnapshotMeta) → W → Result AudienceError (List ℕ) × W
  owned bare (err e) w = (err e, w)
  owned bare (ok none) w = (err not_found, w)
  owned bare (ok (some meta)) w = ops.export_parquet bare w

  abbrev pub verified : Text → Text → Bool → W → Result AudienceError (List ℕ) × W
  verified bare tenant false w = (err unauthorized, w)
  verified bare tenant true w = owned bare (ops.meta bare tenant) w

  -- `q.token.as_deref().unwrap_or("")`
  abbrev pub token_or_empty : Option Text → Text
  token_or_empty none = []
  token_or_empty (some token) = token

  abbrev pub export_of :
      ExportQuery → Text → ℕ → Result AudienceError Text → W → Result AudienceError (List ℕ) × W
  export_of q tenant now (err e) w = (err e, w)
  export_of q tenant now (ok bare) w =
      verified bare tenant (verify ops.hmac ops.signing_key bare (token_or_empty q.token) now) w

  abbrev pub is_parquet : Option Text → Bool
  is_parquet none = false
  is_parquet (some format) = text_eq format (text "parquet")

  abbrev pub formatted :
      Bool → ExportQuery → Text → Text → ℕ → W → Result AudienceError (List ℕ) × W
  formatted false q id tenant now w = (err unsupported_format, w)
  formatted true q id tenant now w = export_of q tenant now (parse_snap_id id) w

  unfoldable pub get_export : ExportQuery → Text → Text → ℕ → W → Result AudienceError (List ℕ) × W
  unfolding parse_snap_id
  get_export q id tenant now w = formatted (is_parquet q.format) q id tenant now w
