-- ===== src/Tests/Registry.antt =====
-- Feature names and the freshness of two sources.
use consumer_engine.Prelude.{
  ◌↔◌, pos, ◌≡◌, refl, ◌&&◌, some, [], ◌∷◌, ◌++◌, text, text_eq, ok, insert, lookup, if◌then◌else◌,
}
use consumer_engine.Core.Ident.{validate_ident, split_feature_name}
use consumer_engine.Core.Ident.Laws.{validate_ident_sound, split_feature_name-join}
use consumer_engine.Core.Dataset.{Dataset}
use consumer_engine.Core.Labels.{
  semantic_parse, semantic_as_str, event_ts, channel_parse, channel_as_str, sms, action_parse,
  action_as_str, opted_out,
}
use consumer_engine.Core.Labels.Laws.{semantic_parse_iff, channel_parse_iff, action_parse_iff}
use consumer_engine.Core.Freshness.{
  batch, cdc, Sources, set, get, meta_of, lag_of, contains, worst_from, worst,
}
use consumer_engine.Core.Freshness.Registry.{get-set}
use consumer_engine.Core.Freshness.Worst.{IsWorst, worst-IsWorst, worst-zero}

abbrev orders : Dataset
orders = record { system = text "erp"; entity = text "orders" }

abbrev clicks : Dataset
clicks = record { system = text "web"; entity = text "clicks" }

abbrev two_sources : Sources
two_sources =
    (text "erp.orders", record { source_type = batch; last_epoch_secs = pos 100 })
    ∷ (text "web.clicks", record { source_type = cdc; last_epoch_secs = pos 190 })
    ∷ []

abbrev one_live : Sources
one_live = (text "web.clicks", record { source_type = cdc; last_epoch_secs = pos 200 }) ∷ []

worst_of_two :
    worst two_sources (pos 200) (clicks ∷ orders ∷ [])
    ≡ record { worst_source = batch; lag_seconds = 100 }
unfolding worst worst_from contains meta_of lag_of get lookup text_eq text
worst_of_two = refl

split_feature_name-join_example :
    split_feature_name (text "cadence" ++ b'.' ∷ text "regularity")
    ≡ ok (text "cadence", text "regularity")
split_feature_name-join_example =
    split_feature_name-join (text "cadence") (text "regularity")
      (validate_ident_sound (text "cadence") (unfold validate_ident in unfold text in refl))
      (validate_ident_sound (text "regularity") (unfold validate_ident in unfold text in refl))

get-set_example :
    get
      (text "web")
      (text "clicks")
      ((text "erp.orders", record { source_type = batch; last_epoch_secs = pos 100 }) ∷ [])
    ≡ (if text_eq (text "erp") (text "web") && text_eq (text "orders") (text "clicks")
        then some (record { source_type = batch; last_epoch_secs = pos 100 })
        else get (text "web") (text "clicks") [])
get-set_example =
    get-set (text "erp") (text "orders") (text "web") (text "clicks") batch (pos 100) []
      ((text "erp.orders", record { source_type = batch; last_epoch_secs = pos 100 }) ∷ [])
      (unfold set in unfold validate_ident in unfold insert in unfold text in refl)

worst-IsWorst_example :
    IsWorst two_sources
      (pos 200)
      (clicks ∷ orders ∷ clicks ∷ [])
      (worst two_sources (pos 200) (clicks ∷ orders ∷ clicks ∷ []))
worst-IsWorst_example = worst-IsWorst two_sources (pos 200) (clicks ∷ orders ∷ clicks ∷ [])

worst-zero_example :
    worst one_live (pos 200) (clicks ∷ []) ≡ record { worst_source = batch; lag_seconds = 0 }
worst-zero_example = worst-zero one_live (pos 200) (clicks ∷ []) (
    unfold lag_of in
    unfold meta_of in unfold get in unfold lookup in unfold text_eq in unfold text in (refl, tt))

semantic_parse_iff_example :
    (semantic_parse (text "eventTs") ≡ some event_ts) ↔ (semantic_as_str event_ts ≡ text "eventTs")
semantic_parse_iff_example = semantic_parse_iff (text "eventTs") event_ts

channel_parse_iff_example :
    (channel_parse (text "SMS") ≡ ok sms) ↔ (channel_as_str sms ≡ text "SMS")
channel_parse_iff_example = channel_parse_iff (text "SMS") sms

action_parse_iff_example :
    (action_parse (text "opted_out") ≡ ok opted_out) ↔ (action_as_str opted_out ≡ text "opted_out")
action_parse_iff_example = action_parse_iff (text "opted_out") opted_out
