-- ===== src/Query/Binding.antt =====
-- What binding `?` placeholders means: the driver reads a text from left to right and takes one
-- parameter for each `?`. `render` writes a value as a literal; nothing depends on how.
pub mod Rules
pub mod Agreement
pub mod Composition
pub mod Predicates
pub mod Names
pub mod Events
pub mod Exclusions
pub mod Filters
pub mod Metrics
pub mod Segments
pub mod Compiled
use consumer_engine.Prelude.{
  ℕ, ◌≡◌, Bool, true, not, Option, none, some, List, [], ◌∷◌, ◌++◌, Text, every, ◌==◌,
  if◌then◌else◌,
}
use consumer_engine.Query.Json.{Value}

abbrev pub prepend : Text → Option (Text × List Value) → Option (Text × List Value)
prepend t none = none
prepend t (some (more, rest)) = some (t ++ more, rest)

module _ (render : Value → Text) where
  abbrev pub take_one :
      List Value → (List Value → Option (Text × List Value)) → Option (Text × List Value)
  take_one [] read = none
  take_one (v ∷ rest) read = prepend (render v) (read rest)

  -- The text with its placeholders filled, and the parameters that are left over.
  unfoldable pub consume : Text → List Value → Option (Text × List Value)
  consume [] params = some ([], params)
  consume (c ∷ s) params =
      let filled = take_one params (consume s) in
      let kept = prepend (c ∷ []) (consume s params) in if c == b'?' then filled else kept

  -- Reading `s` takes the parameters from `params` up to `rest`, and writes `t`.
  pub record Reads (s : Text) (params : List Value) (t : Text) (rest : List Value) : Type 0 where
    pub read : consume s params ≡ some (t, rest)

  abbrev pub all_taken : Option (Text × List Value) → Option Text
  all_taken (some (t, [])) = some t
  all_taken _ = none

  -- The whole text with all its parameters, each used once.
  unfoldable pub bind_params : Text → List Value → Option Text
  unfolding consume
  bind_params s params = all_taken (consume s params)

-- No placeholder inside.
abbrev pub is_plain : Text → Bool
is_plain s = every (λ c. not (c == b'?')) s

abbrev pub IsPlain : Text → Type 0
IsPlain s = is_plain s ≡ true
