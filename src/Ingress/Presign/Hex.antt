-- ===== src/Ingress/Presign/Hex.antt =====
-- The hex digits of a tag (crates/ingress/src/presign.rs).
use consumer_engine.Prelude.{
  ◌∙◌, ap, ℕ, ◌*◌, ◌%◌, ◌/◌, ◌<◌, ◌≡◌, refl, some, List, [], ◌∷◌, Text, length, All, arith,
}
use consumer_engine.Ingress.Presign.{hex_digit, hex_encode, hex_nibble, hex_pairs, hex_decode}

abbrev pub IsByte : ℕ → Type 0
IsByte b = b < 256

hex_nibble-hex_digit : (n : ℕ) → n < 16 → hex_nibble (hex_digit n) ≡ some n
hex_nibble-hex_digit n h = ground arith

hex_pairs-hex_encode : (bs : List ℕ) → All IsByte bs → hex_pairs (hex_encode bs) ≡ some bs
unfolding hex_pairs hex_encode
hex_pairs-hex_encode [] h = refl
hex_pairs-hex_encode (b ∷ bs) (hb, hbs) = rw (hex_nibble-hex_digit (b / 16) (omega arith)) (
    rw (hex_nibble-hex_digit (b % 16) (omega arith))
      (rw (hex_pairs-hex_encode bs hbs) (ap (λ a. some (a ∷ bs)) (omega arith))))

length-hex_encode : (bs : List ℕ) → length (hex_encode bs) ≡ length bs * 2
unfolding hex_encode
length-hex_encode [] = refl
length-hex_encode (b ∷ bs) = omega (arith, length-hex_encode bs)

hex_decode-even : (s : Text) → length s % 2 ≡ 0 → hex_decode s ≡ hex_pairs s
unfolding hex_decode
hex_decode-even s h = ground arith

-- Every list of bytes comes back from its hex digits.
pub hex_decode-hex_encode : (bs : List ℕ) → All IsByte bs → hex_decode (hex_encode bs) ≡ some bs
hex_decode-hex_encode bs h =
    hex_decode-even (hex_encode bs) (omega (arith, length-hex_encode bs))
    ∙ hex_pairs-hex_encode bs h
