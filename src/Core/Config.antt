-- ===== src/Core/Config.antt =====
-- crates/core/src/config.rs: the limits that the query path reads, and its defaults.
use consumer_engine.Prelude.{ℕ, Bool, true, Option, none}

-- The two numbers are `NonZeroU32` in the source.
pub record FrequencyCap : Type 0 where
  pub max_contacts : ℕ
  pub window_days : ℕ

pub record SuppressionRules : Type 0 where
  pub per_campaign_no_repeat : Bool
  pub frequency_cap : Option FrequencyCap

-- `memory_limit` and `threads` configure the reader and are not read by the query path's logic.
pub record GuardrailConfig : Type 0 where
  pub statement_timeout_secs : ℕ
  pub sync_row_cap : ℕ
  pub max_output_rows : ℕ
  pub j_survivor_cap : ℕ
  pub enforce_catalogue : Bool

abbrev pub default_suppression : SuppressionRules
default_suppression = record { per_campaign_no_repeat = true; frequency_cap = none }

abbrev pub default_guardrails : GuardrailConfig
default_guardrails = record {
  statement_timeout_secs = 30;
  sync_row_cap = 100_000;
  max_output_rows = 1_000_000;
  j_survivor_cap = 200_000;
  enforce_catalogue = true;
}
