-- ===== src/Core/Dataset.antt =====
-- crates/core/src/dataset.rs
use consumer_engine.Prelude.{Text}

pub record Dataset : Type 0 where
  pub system : Text
  pub entity : Text
