-- ===== src/Ingress/Presign/Expiry.antt =====
-- The expiry of a token in decimal (crates/ingress/src/presign.rs).
use consumer_engine.Prelude.{
  ◌∙◌, ap, inl, inr, ◌⊎◌, ℕ, zero, suc, ◌+◌, ◌*◌, ◌%◌, ◌/◌, ◌<◌, ◌≤◌, ◌≡◌, ◌≢◌, refl, Bool, true,
  ◌&&◌, not, Option, none, some, [], ◌∷◌, ◌++◌, Text, leb, ◌==◌, every, arith, digits_fuel,
  to_decimal,
}
use consumer_engine.Ingress.Presign.{max_u64, digit_step, read_digits, parse_u64}

abbrev pub is_digit : ℕ → Bool
is_digit c = leb b'0' c && leb c b'9'

read_digits-append :
    (o : Option ℕ) (s t : Text) → read_digits o (s ++ t) ≡ read_digits (read_digits o s) t
unfolding read_digits
read_digits-append none s t = refl
read_digits-append (some acc) [] t = refl
read_digits-append (some acc) (c ∷ s) t = read_digits-append (digit_step acc c) s t

digit_step-last :
    (m d : ℕ) → d < 10 → m * 10 + d ≤ max_u64 → digit_step m (b'0' + d) ≡ some (m * 10 + d)
digit_step-last m d hd h = ground arith

digits_fuel-last : (f n : ℕ) → n < 10 → digits_fuel (suc f) n ≡ (b'0' + n) ∷ []
unfolding digits_fuel
digits_fuel-last f n h = ground arith

digits_fuel-more :
    (f n : ℕ) → 10 ≤ n → digits_fuel (suc f) n ≡ digits_fuel f (n / 10) ++ (b'0' + n % 10) ∷ []
unfolding digits_fuel
digits_fuel-more f n h = ground arith

small_or_large : (n : ℕ) → (n < 10) ⊎ (10 ≤ n)
small_or_large n = omega arith

read_digits-one : (m c : ℕ) → read_digits (some m) (c ∷ []) ≡ digit_step m c
unfolding read_digits
read_digits-one m c = ground arith

read_digits-digits_fuel :
    (f n : ℕ) → n < f → n ≤ max_u64 → read_digits (some 0) (digits_fuel f n) ≡ some n
read_digits-digits_fuel zero n h b = ground arith
read_digits-digits_fuel (suc f) n h b = elim (small_or_large n) [
  | inl s ↦ rw (digits_fuel-last f n s) (
      read_digits-one 0 (b'0' + n)
      ∙ digit_step-last 0 n s (omega (arith, b))
      ∙ ap some (omega arith))
  | inr l ↦ rw (digits_fuel-more f n l) (
      rw (read_digits-append (some 0) (digits_fuel f (n / 10)) ((b'0' + n % 10) ∷ [])) (
        rw (read_digits-digits_fuel f (n / 10) (omega arith) (omega arith)) (
          read_digits-one (n / 10) (b'0' + n % 10)
          ∙ digit_step-last (n / 10) (n % 10) (omega arith) (omega arith)
          ∙ ap some (omega arith))))
]

every-append :
    (p : ℕ → Bool) (s t : Text) → every p s ≡ true → every p t ≡ true → every p (s ++ t) ≡ true
every-append p [] t hs ht = ht
every-append p (c ∷ s) t hs ht = ground (arith, every-append p s t)

is_digit-of : (d : ℕ) → d < 10 → every is_digit ((b'0' + d) ∷ []) ≡ true
is_digit-of d h = ground arith

is_digit-digits_fuel : (f n : ℕ) → every is_digit (digits_fuel f n) ≡ true
is_digit-digits_fuel zero n = unfold digits_fuel in refl
is_digit-digits_fuel (suc f) n = elim (small_or_large n) [
  | inl s ↦ rw (digits_fuel-last f n s) (is_digit-of n s)
  | inr l ↦ rw (digits_fuel-more f n l) (
      every-append is_digit (digits_fuel f (n / 10)) ((b'0' + n % 10) ∷ [])
        (is_digit-digits_fuel f (n / 10)) (is_digit-of (n % 10) (omega arith)))
]

no_dot : (s : Text) → every is_digit s ≡ true → every (λ c. not (c == b'.')) s ≡ true
no_dot [] h = refl
no_dot (c ∷ s) h = ground (arith, no_dot s)

-- A decimal number has no dot.
pub no_dot-to_decimal : (n : ℕ) → every (λ c. not (c == b'.')) (to_decimal n) ≡ true
no_dot-to_decimal n = no_dot (to_decimal n) (unfold to_decimal in is_digit-digits_fuel (suc n) n)

-- On digits, the sign is not looked at.
parse_u64-digits :
    (s : Text) (n : ℕ)
    → read_digits (some 0) s ≡ some n
    → s ≢ []
    → every is_digit s ≡ true
    → parse_u64 s ≡ some n
unfolding parse_u64
parse_u64-digits [] n r ne h = absurd (ne refl)
parse_u64-digits (c ∷ []) n r ne h = r
parse_u64-digits (c ∷ d ∷ s) n r ne h = ground arith

append-ne-nil : (s : Text) (c : ℕ) (t : Text) → s ++ c ∷ t ≢ []
append-ne-nil [] c t h = cc
append-ne-nil (d ∷ s) c t h = cc

digits_fuel-ne-nil : (f n : ℕ) → digits_fuel (suc f) n ≢ []
digits_fuel-ne-nil f n = elim (small_or_large n) [
  | inl s ↦ rw (digits_fuel-last f n s) (append-ne-nil [] (b'0' + n) [])
  | inr l ↦ rw (digits_fuel-more f n l) (append-ne-nil (digits_fuel f (n / 10)) (b'0' + n % 10) [])
]

-- A `u64` in decimal is read back.
pub parse_u64-to_decimal : (n : ℕ) → n ≤ max_u64 → parse_u64 (to_decimal n) ≡ some n
parse_u64-to_decimal n h =
    unfold to_decimal in
    parse_u64-digits (to_decimal n) n (read_digits-digits_fuel (suc n) n (omega arith) h)
      (digits_fuel-ne-nil n n) (is_digit-digits_fuel (suc n) n)
