-- ===== src/Core/Freshness/Registry.antt =====
-- `set` and `get` of the freshness registry (crates/core/src/freshness.rs).
use consumer_engine.Prelude.{
  insert, lookup-insert, ℤ, ℕ, ◌≡◌, refl, sym, subst, inl, inr, true, ◌&&◌, Bool-cases, some, [],
  ◌∷◌, ◌++◌, Text, text_eq, text_eq_iff, ok, All, arith, if◌then◌else◌,
}
use consumer_engine.Core.Ident.{validate_ident}
use consumer_engine.Core.Ident.Laws.{validate_ident_sound, IsIdentChar}
use consumer_engine.Core.Freshness.{SourceType, Sources, source_key, set, get}

head_eq : {a b : ℕ} {s t : Text} → ◌≡◌ {A = Text} (a ∷ s) (b ∷ t) → a ≡ b
head_eq p = cc

tail_eq : {a b : ℕ} {s t : Text} → ◌≡◌ {A = Text} (a ∷ s) (b ∷ t) → s ≡ t
tail_eq p = cc

ident_char-ne-dot : (c : ℕ) → IsIdentChar c → ¬ (c ≡ b'.')
ident_char-ne-dot c h e = ground arith

no_dot_inside : (s t : Text) → ¬ All IsIdentChar (s ++ b'.' ∷ t)
no_dot_inside [] t h = ident_char-ne-dot b'.' h.0 refl
no_dot_inside (c ∷ s) t h = no_dot_inside s t h.1

-- Where the first of two equal joined keys has no dot in its parts, the parts are equal.
key-split :
    (s e s' e' : Text)
    → All IsIdentChar s
    → All IsIdentChar e
    → source_key s e ≡ source_key s' e'
    → (s ≡ s') × (e ≡ e')
key-split [] e [] e' hs he p = (refl, cc)
key-split [] e (c ∷ t') e' hs he p =
    absurd (no_dot_inside t' e' (subst (All IsIdentChar) (tail_eq p) he))
key-split (c ∷ t) e [] e' hs he p = absurd (ident_char-ne-dot c hs.0 (head_eq p))
key-split (c ∷ t) e (c' ∷ t') e' hs he p =
    let (a, b) = key-split t e t' e' hs.1 he (tail_eq p) in (cc (head_eq p, a), b)

key-text_eq :
    (s e s' e' : Text)
    → All IsIdentChar s
    → All IsIdentChar e
    → text_eq (source_key s e) (source_key s' e') ≡ (text_eq s s' && text_eq e e')
key-text_eq s e s' e' hs he = elim (Bool-cases (text_eq (source_key s e) (source_key s' e'))) [
  | inl same ↦
      let (a, b) = key-split s e s' e' hs he ((text_eq_iff _ _).0 same) in
      rw (same, (text_eq_iff s s').1 a, (text_eq_iff e e').1 b)
  | inr other ↦ rw other (sym (ground (arith, text_eq_iff s s', text_eq_iff e e', joined)))
]
  where
    joined : s ≡ s' → e ≡ e' → text_eq (source_key s e) (source_key s' e') ≡ true
    joined a b = (text_eq_iff _ _).1 (cc (a, b))

set-inv :
    (system entity : Text) (t : SourceType) (epoch : ℤ) (before after : Sources)
    → set system entity t epoch before ≡ ok after
    → (validate_ident system ≡ ok tt)
      × (validate_ident entity ≡ ok tt)
      × (after
          ≡ insert
              (source_key system entity)
              (record { source_type = t; last_epoch_secs = epoch })
              before)
unfolding set
set-inv system entity t epoch before after h = ground arith

-- Where `set` returns, `get` of the same source finds what was set, and `get` of any other source,
-- whatever its names are, is as before.
pub get-set :
    (system entity s e : Text) (t : SourceType) (epoch : ℤ) (before after : Sources)
    → set system entity t epoch before ≡ ok after
    → get s e after ≡ (
        if text_eq system s && text_eq entity e
        then some (record { source_type = t; last_epoch_secs = epoch })
        else get s e before)
unfolding get
get-set system entity s e t epoch before after h =
    let (v, w, stored) = set-inv system entity t epoch before after h in
    rw stored (
      rw (lookup-insert (source_key system entity) (source_key s e) _ before) (
        rw (
          key-text_eq system entity s e (validate_ident_sound system v).2
            (validate_ident_sound entity w).2)))
