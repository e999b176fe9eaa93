-- ===== src/Ingestion/Feed/Offsets.antt =====
-- The positions by partition.
use consumer_engine.Prelude.{
  ℤ, pos, negsuc, ◌≡◌, ◌↔◌, refl, sym, ap, ◌∙◌, ==_iff, true, Option, none, some, List, [], ◌∷◌,
  if◌then◌else◌, arith,
}
use consumer_engine.Ingestion.Feed.{int_eq, put_offset}

unfoldable pub offset_at : ℤ → List (ℤ × ℤ) → Option ℤ
offset_at p [] = none
offset_at p ((q, o) ∷ rest) = let later = offset_at p rest in if int_eq q p then some o else later

int_eq_sound : (a b : ℤ) → int_eq a b ≡ true → a ≡ b
int_eq_sound (pos a) (pos b) h = ap pos ((==_iff a b).0 h)
int_eq_sound (negsuc a) (negsuc b) h = ap negsuc ((==_iff a b).0 h)
int_eq_sound (pos a) (negsuc b) h = absurd (cc h)
int_eq_sound (negsuc a) (pos b) h = absurd (cc h)

int_eq_refl : (a : ℤ) → int_eq a a ≡ true
int_eq_refl (pos a) = (==_iff a a).1 refl
int_eq_refl (negsuc a) = (==_iff a a).1 refl

pub int_eq_iff : (a b : ℤ) → (int_eq a b ≡ true) ↔ (a ≡ b)
int_eq_iff a b = (int_eq_sound a b, λ e. ap (int_eq a) (sym e) ∙ int_eq_refl a)

pub offset_at-put_offset :
    (p q o : ℤ) (m : List (ℤ × ℤ))
    → offset_at q (put_offset p o m) ≡ (if int_eq p q then some o else offset_at q m)
unfolding offset_at put_offset
offset_at-put_offset p q o [] = refl
offset_at-put_offset p q o ((r, held) ∷ rest) =
    ground (arith, offset_at-put_offset p q o rest, int_eq_iff r p, int_eq_iff p q, int_eq_iff r q)
