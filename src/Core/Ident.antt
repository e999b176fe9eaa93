-- ===== src/Core/Ident.antt =====
-- crates/core/src/ident.rs and the split of feature names in crates/core/src/feature.rs. The two
-- regular expressions are read as they are documented: a class of characters, 1 to 64 times, over
-- the whole text. An error keeps which check failed, and not its message.
pub mod Laws
use consumer_engine.Prelude.{
  ℕ, ◌≡◌, Bool, ◌&&◌, ◌||◌, Option, none, some, List, [], ◌∷◌, Text, Result, ok, err, ◌>>=◌, ◌>>◌,
  guard, map_err, leb, ◌==◌, every, length, if◌then◌else◌,
}

pub data IdentError : Type 0 where
  invalid_ident : IdentError
  invalid_feature_name : IdentError
  not_namespaced : IdentError
  bad_family : IdentError → IdentError
  bad_short : IdentError → IdentError

-- `[a-zA-Z0-9_]`
pub is_ident_char : ℕ → Bool
is_ident_char c =
    (leb b'a' c && leb c b'z')
    || ((leb b'A' c && leb c b'Z') || ((leb b'0' c && leb c b'9') || c == b'_'))

-- `[a-zA-Z0-9_.]`
is_feature_char : ℕ → Bool
is_feature_char c = is_ident_char c || c == b'.'

-- `^[class]{1,64}$`
abbrev matches : (ℕ → Bool) → Text → Bool
matches p name = leb 1 (length name) && (leb (length name) 64 && every p name)

unfoldable pub validate_ident : Text → Result IdentError (Unit {0})
unfolding is_ident_char
validate_ident name = guard (matches is_ident_char name) invalid_ident

unfoldable pub validate_feature_name : Text → Result IdentError (Unit {0})
unfolding is_ident_char is_feature_char
validate_feature_name name = guard (matches is_feature_char name) invalid_feature_name

abbrev pub with_first : ℕ → Option (Text × Text) → Option (Text × Text)
with_first c none = none
with_first c (some (a, b)) = some (c ∷ a, b)

-- `str::split_once`: the parts before and after the first separator.
unfoldable pub split_once : ℕ → Text → Option (Text × Text)
split_once sep [] = none
split_once sep (c ∷ s) =
    let later = with_first c (split_once sep s) in if c == sep then some ([], s) else later

split_validated : Option (Text × Text) → Result IdentError (Text × Text)
split_validated none = err not_namespaced
split_validated (some (family, short)) = do
  map_err bad_family (validate_ident family)
  map_err bad_short (validate_ident short)
  ok (family, short)

unfoldable pub split_feature_name : Text → Result IdentError (Text × Text)
unfolding split_validated
split_feature_name name = split_validated (split_once b'.' name)
