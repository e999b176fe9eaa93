-- ===== src/Core/Freshness.antt =====
-- crates/core/src/freshness.rs. The `DashMap` is an association list, and the calls are one after
-- another; a label is its `as_str` text only on the wire, so `worst_source` keeps the type.
pub mod Registry
pub mod Worst
use consumer_engine.Prelude.{
  insert, lookup, ℤ, pos, negsuc, ◌-ℤ◌, wrap_i64, ℕ, ◌≡◌, Bool, true, false, ◌&&◌, ◌||◌, not,
  Option, none, some, List, [], ◌∷◌, ◌++◌, Text, text, text_eq, fmt, Result, ok, ◌>>=◌, ◌>>◌, ltb,
  ◌==◌, if◌then◌else◌,
}
use consumer_engine.Core.Dataset.{Dataset}
use consumer_engine.Core.Ident.{IdentError, validate_ident}

pub data SourceType : Type 0 where
  batch cdc : SourceType

-- `as_str`, and so `Display`
unfoldable pub source_label : SourceType → Text
source_label batch = text "batch"
source_label cdc = text "cdc"

pub record SourceMeta : Type 0 where
  pub source_type : SourceType
  pub last_epoch_secs : ℤ

pub record Freshness : Type 0 where
  pub worst_source : SourceType
  pub lag_seconds : ℕ

abbrev pub Sources : Type 0
Sources = List (Text × SourceMeta)

-- `format!("{system}.{entity}")`
abbrev pub source_key : Text → Text → Text
source_key system entity = system ++ b'.' ∷ entity

-- `FreshnessRegistry::set`
unfoldable pub set : Text → Text → SourceType → ℤ → Sources → Result IdentError Sources
unfolding insert
set system entity source_type epoch sources = do
  validate_ident system
  validate_ident entity
  ok (
      insert (source_key system entity)
        (record { source_type = source_type; last_epoch_secs = epoch }) sources)

-- `FreshnessRegistry::get`
unfoldable pub get : Text → Text → Sources → Option SourceMeta
unfolding lookup
get system entity sources = lookup (source_key system entity) sources

-- `max(0)` of an i64
abbrev pub at_least_zero : ℤ → ℕ
at_least_zero (pos n) = n
at_least_zero (negsuc n) = 0

abbrev pub meta_or : ℤ → Option SourceMeta → SourceMeta
meta_or now (some m) = m
meta_or now none = record { source_type = batch; last_epoch_secs = now }

unfoldable pub meta_of : Sources → ℤ → Dataset → SourceMeta
unfolding get
meta_of sources now d = meta_or now (get d.system d.entity sources)

unfoldable pub lag_of : ℤ → SourceMeta → ℕ
lag_of now m = at_least_zero (wrap_i64 (now -ℤ m.last_epoch_secs))

-- `HashSet<(&str, &str)>`
unfoldable pub contains : List Dataset → Dataset → Bool
contains [] d = false
contains (e ∷ seen) d = (text_eq e.system d.system && text_eq e.entity d.entity) || contains seen d

abbrev pub is_batch : SourceType → Bool
is_batch batch = true
is_batch cdc = false

-- The body of the loop after the duplicate check.
abbrev pub worse : SourceMeta → ℕ → Freshness → Freshness
worse m lag worst =
    if ltb worst.lag_seconds lag
      || (lag == worst.lag_seconds && (is_batch m.source_type && not (is_batch worst.worst_source)))
    then record { worst_source = m.source_type; lag_seconds = lag }
    else worst

unfoldable pub worst_from : Sources → ℤ → List Dataset → Freshness → List Dataset → Freshness
unfolding contains
worst_from sources now seen worst [] = worst
worst_from sources now seen worst (d ∷ ds) =
    let m = meta_of sources now d in
    worst_from sources now (if contains seen d then seen else d ∷ seen)
      (if contains seen d then worst else worse m (lag_of now m) worst) ds

-- `FreshnessRegistry::worst`
unfoldable pub worst : Sources → ℤ → List Dataset → Freshness
unfolding worst_from meta_of lag_of
worst sources now ds =
    worst_from sources now [] (record { worst_source = batch; lag_seconds = 0 }) ds
