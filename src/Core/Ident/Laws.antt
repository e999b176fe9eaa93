-- ===== src/Core/Ident/Laws.antt =====
-- What the accepted identifiers and feature names are (crates/core/src/ident.rs, feature.rs).
use consumer_engine.Prelude.{
  ℕ, ◌≤◌, ◌≡◌, refl, ◌⊎◌, true, not, Option, none, some, [], ◌∷◌, ◌++◌, Text, ok, All, every,
  length, arith, ◌==◌,
}
use consumer_engine.Core.Ident.{
  is_ident_char, validate_ident, split_once, split_validated, split_feature_name,
}

-- A letter, a digit or an underscore of ASCII.
abbrev pub IsIdentChar : ℕ → Type 0
IsIdentChar c =
    ((b'a' ≤ c) × (c ≤ b'z'))
    ⊎ (((b'A' ≤ c) × (c ≤ b'Z')) ⊎ (((b'0' ≤ c) × (c ≤ b'9')) ⊎ (c ≡ b'_')))

abbrev pub IsIdent : Text → Type 0
IsIdent name = (1 ≤ length name) × (length name ≤ 64) × All IsIdentChar name

is_ident_char_sound : (c : ℕ) → is_ident_char c ≡ true → IsIdentChar c
unfolding is_ident_char
is_ident_char_sound c h = ground arith

is_ident_char_complete : (c : ℕ) → IsIdentChar c → is_ident_char c ≡ true
unfolding is_ident_char
is_ident_char_complete c h = ground arith

every_sound : (s : Text) → every is_ident_char s ≡ true → All IsIdentChar s
every_sound [] h = tt
every_sound (c ∷ s) h = (is_ident_char_sound c (ground arith), every_sound s (ground arith))

every_complete : (s : Text) → All IsIdentChar s → every is_ident_char s ≡ true
every_complete [] h = refl
every_complete (c ∷ s) h = ground (arith, is_ident_char_complete c h.0, every_complete s h.1)

pub validate_ident_sound : (name : Text) → validate_ident name ≡ ok tt → IsIdent name
unfolding validate_ident
validate_ident_sound name h = (ground arith, ground arith, every_sound name (ground arith))

pub validate_ident_complete : (name : Text) → IsIdent name → validate_ident name ≡ ok tt
unfolding validate_ident
validate_ident_complete name h = ground (arith, every_complete name h.2)

-- What stands before the first separator and after it is the text.
pub split_once_sound : (sep : ℕ) (s a b : Text) → split_once sep s ≡ some (a, b) → s ≡ a ++ sep ∷ b
unfolding split_once
split_once_sound sep [] a b h = cc
split_once_sound sep (c ∷ s) [] b h = ground arith
split_once_sound sep (c ∷ s) (d ∷ a) b h = ground (arith, split_once_sound sep s a b)

pub split_once_complete :
    (sep : ℕ) (a b : Text)
    → every (λ c. not (c == sep)) a ≡ true
    → split_once sep (a ++ sep ∷ b) ≡ some (a, b)
unfolding split_once
split_once_complete sep [] b h = ground arith
split_once_complete sep (c ∷ a) b h = ground (arith, split_once_complete sep a b)

split_validated_sound :
    (parts : Option (Text × Text)) (family short : Text)
    → split_validated parts ≡ ok (family, short)
    → (parts ≡ some (family, short))
      × (validate_ident family ≡ ok tt)
      × (validate_ident short ≡ ok tt)
unfolding split_validated
split_validated_sound none family short h = cc
split_validated_sound (some (f, s)) family short h = ground arith

-- A name that splits is its two parts around a dot, and both parts are identifiers.
pub split_feature_name_sound :
    (name family short : Text)
    → split_feature_name name ≡ ok (family, short)
    → (name ≡ family ++ b'.' ∷ short) × IsIdent family × IsIdent short
unfolding split_feature_name
split_feature_name_sound name family short h =
    let (split, f, s) = split_validated_sound (split_once b'.' name) family short h in
    (
      split_once_sound b'.' name family short split,
      validate_ident_sound family f,
      validate_ident_sound short s,
    )

pub no_dot : (s : Text) → All IsIdentChar s → every (λ c. not (c == b'.')) s ≡ true
no_dot [] h = refl
no_dot (c ∷ s) h = ground (arith, no_dot s h.1)

-- Every pair of identifiers joined by a dot splits back into the pair.
pub split_feature_name-join :
    (family short : Text)
    → IsIdent family
    → IsIdent short
    → split_feature_name (family ++ b'.' ∷ short) ≡ ok (family, short)
unfolding split_feature_name split_validated
split_feature_name-join family short f s =
    rw (split_once_complete b'.' family short (no_dot family f.2))
      (rw (validate_ident_complete family f) (rw (validate_ident_complete short s)))
