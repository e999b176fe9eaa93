-- ===== src/Core/Labels.antt =====
-- The wire labels of crates/core/src/semantic.rs and crates/core/src/suppression.rs.
pub mod Laws
use consumer_engine.Prelude.{
  Option, none, some, Text, text, text_eq, Result, ok, err, if◌then◌else◌,
}

-- The two places that build an `Error::InvalidInput`.
pub data InvalidInput : Type 0 where
  unknown_channel unknown_action : InvalidInput

pub data SemanticType : Type 0 where
  identifier dimension measure event_ts pii fk table : SemanticType

unfoldable pub semantic_as_str : SemanticType → Text
semantic_as_str identifier = text "identifier"
semantic_as_str dimension = text "dimension"
semantic_as_str measure = text "measure"
semantic_as_str event_ts = text "eventTs"
semantic_as_str pii = text "pii"
semantic_as_str fk = text "fk"
semantic_as_str table = text "table"

unfoldable pub semantic_parse : Text → Option SemanticType
semantic_parse s =
    if text_eq s (text "identifier")
    then some identifier
    else if text_eq s (text "dimension")
    then some dimension
    else if text_eq s (text "measure")
    then some measure
    else if text_eq s (text "eventTs")
    then some event_ts
    else if text_eq s (text "pii")
    then some pii
    else if text_eq s (text "fk")
    then some fk
    else if text_eq s (text "table")
    then some table
    else none

pub data SuppressionChannel : Type 0 where
  sms email push ads : SuppressionChannel

unfoldable pub channel_as_str : SuppressionChannel → Text
channel_as_str sms = text "sms"
channel_as_str email = text "email"
channel_as_str push = text "push"
channel_as_str ads = text "ads"

unfoldable pub channel_parse : Text → Result InvalidInput SuppressionChannel
channel_parse s =
    if text_eq s (text "sms")
    then ok sms
    else if text_eq s (text "email")
    then ok email
    else if text_eq s (text "push")
    then ok push
    else if text_eq s (text "ads")
    then ok ads
    else err unknown_channel

pub data SuppressionAction : Type 0 where
  targeted delivered converted opted_out bounced : SuppressionAction

unfoldable pub action_as_str : SuppressionAction → Text
action_as_str targeted = text "targeted"
action_as_str delivered = text "delivered"
action_as_str converted = text "converted"
action_as_str opted_out = text "opted_out"
action_as_str bounced = text "bounced"

unfoldable pub action_parse : Text → Result InvalidInput SuppressionAction
action_parse s =
    if text_eq s (text "targeted")
    then ok targeted
    else if text_eq s (text "delivered")
    then ok delivered
    else if text_eq s (text "converted")
    then ok converted
    else if text_eq s (text "opted_out")
    then ok opted_out
    else if text_eq s (text "bounced")
    then ok bounced
    else err unknown_action
