-- ===== src/Query/Binding/Names.antt =====
-- Identifiers hold no placeholder, so the names of a well-formed segment are plain.
use consumer_engine.Prelude.{◌≡◌, refl, [], ◌∷◌, Text, All, arith, ok}
use consumer_engine.Core.Ident.{split_feature_name}
use consumer_engine.Core.Ident.Laws.{IsIdentChar, IsIdent, split_feature_name_sound}
use consumer_engine.Query.Binding.{IsPlain}

ident_chars-IsPlain : (s : Text) → All IsIdentChar s → IsPlain s
ident_chars-IsPlain [] h = refl
ident_chars-IsPlain (c ∷ s) h = ground (arith, ident_chars-IsPlain s h.1)

pub IsIdent-IsPlain : (s : Text) → IsIdent s → IsPlain s
IsIdent-IsPlain s h = ident_chars-IsPlain s h.2

pub split_feature_name-IsPlain :
    (name family short : Text)
    → split_feature_name name ≡ ok (family, short)
    → IsPlain family × IsPlain short
split_feature_name-IsPlain name family short h =
    let (e, f, s) = split_feature_name_sound name family short h in
    (IsIdent-IsPlain family f, IsIdent-IsPlain short s)
