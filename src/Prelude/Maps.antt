-- ===== src/Prelude/Maps.antt =====
-- `DashMap<String, V>` as an association list; calls on it happen one after another.
use mathlib.Core.Path.{◌≡◌, refl}
use mathlib.Core.Option.{Option, none, some}
use mathlib.Core.List.{List, [], ◌∷◌}
use native.Mathlib.Omega.{arith}
use consumer_engine.Prelude.Tests.{if◌then◌else◌}
use consumer_engine.Prelude.Texts.{Text, text_eq, text_eq_iff}

module _ {ℓ} {V : Type ℓ} where
  unfoldable pub lookup : Text → List (Text × V) → Option V
  lookup key [] = none
  lookup key ((name, held) ∷ rest) = if text_eq name key then some held else lookup key rest

  unfoldable pub remove : Text → List (Text × V) → List (Text × V)
  remove key [] = []
  remove key ((name, held) ∷ rest) =
      let later = remove key rest in if text_eq name key then later else (name, held) ∷ later

  -- The value takes the place of the old one, or comes last.
  unfoldable pub insert : Text → V → List (Text × V) → List (Text × V)
  insert key new [] = (key, new) ∷ []
  insert key new ((name, held) ∷ rest) =
      let later = insert key new rest in
      if text_eq name key then (key, new) ∷ rest else (name, held) ∷ later

  pub lookup-insert :
      (key other : Text) (new : V) (m : List (Text × V))
      → lookup other (insert key new m) ≡ (if text_eq key other then some new else lookup other m)
  unfolding insert lookup
  lookup-insert key other new [] = refl
  lookup-insert key other new ((name, held) ∷ rest) = ground (
    arith,
    lookup-insert key other new rest,
    text_eq_iff name key,
    text_eq_iff key other,
    text_eq_iff name other,
  )

  pub lookup-remove :
      (key other : Text) (m : List (Text × V))
      → lookup other (remove key m) ≡ (if text_eq key other then none else lookup other m)
  unfolding remove lookup
  lookup-remove key other [] = ground arith
  lookup-remove key other ((name, held) ∷ rest) = ground (
    arith,
    lookup-remove key other rest,
    text_eq_iff name key,
    text_eq_iff key other,
    text_eq_iff name other,
  )
