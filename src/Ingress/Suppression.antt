-- ===== src/Ingress/Suppression.antt =====
-- crates/ingress/src/suppression.rs. The parsers of times and UUIDs and the clock are arguments.
pub mod Laws
use consumer_engine.Prelude.{
  ℕ, Bool, Option, none, some, List, [], ◌∷◌, Text, utf8_len, leb, Result, ok, err, map_err, guard,
  ◌>>=◌, ◌>>◌,
}
use consumer_engine.Core.Ident.{IdentError, validate_ident}
use consumer_engine.Core.Labels.{InvalidInput, channel_parse, action_parse}
use consumer_engine.Storage.Appends.{SuppressionRow}

pub record SuppressionRequest : Type 0 where
  pub suppression_id : Option Text
  pub campaign_id : Text
  pub user_id : Text
  pub channel : Text
  pub action : Text
  pub occurred_ts : Text

-- The places that build an error, and a failure of the writer.
pub data SuppressionError : Type 0 where
  bad_ident : IdentError → SuppressionError
  bad_label : InvalidInput → SuppressionError
  bad_occurred_ts : SuppressionError
  field_too_long : SuppressionError
  id_required : SuppressionError
  id_not_uuid : SuppressionError
  write_failed : SuppressionError

abbrev pub max_field_bytes : ℕ
max_field_bytes = 256

abbrev pub required : Option Text → Result SuppressionError Text
required none = err id_required
required (some id) = ok id

abbrev pub fits : Text → Result SuppressionError (Unit {0})
fits s = guard (leb (utf8_len s) max_field_bytes) field_too_long

module _ (is_rfc3339 is_uuid : Text → Bool) where
  -- The checks, up to the row; `received` is the time of day.
  unfoldable pub row_of : SuppressionRequest → Text → Result SuppressionError SuppressionRow
  row_of req received = do
    map_err bad_ident (validate_ident req.campaign_id)
    map_err bad_ident (validate_ident req.user_id)
    channel ← map_err bad_label (channel_parse req.channel)
    action ← map_err bad_label (action_parse req.action)
    guard (is_rfc3339 req.occurred_ts) bad_occurred_ts
    fits req.campaign_id
    fits req.user_id
    fits req.occurred_ts
    id ← required req.suppression_id
    guard (is_uuid id) id_not_uuid
    ok (record {
      suppression_id = id;
      campaign_id = req.campaign_id;
      user_id = req.user_id;
      channel = channel;
      action = action;
      occurred_ts = req.occurred_ts;
      received_ts = received;
    })

  module _ {W : Type 0}
      (write : List SuppressionRow → Text → W → Result SuppressionError ℕ × W) where
    abbrev pub created : Text → Result SuppressionError ℕ × W → Result SuppressionError Text × W
    created id (err e, w) = (err e, w)
    created id (ok n, w) = (ok id, w)

    abbrev pub written :
        Text → Result SuppressionError SuppressionRow → W → Result SuppressionError Text × W
    written tenant (err e) w = (err e, w)
    written tenant (ok row) w = created row.suppression_id (write (row ∷ []) tenant w)

    unfoldable pub post_suppression :
        SuppressionRequest → Text → Text → W → Result SuppressionError Text × W
    unfolding row_of
    post_suppression req tenant received w = written tenant (row_of req received) w
