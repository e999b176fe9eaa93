-- ===== src/Ingress/Presign.antt =====
-- crates/ingress/src/presign.rs. A `str` is its UTF-8 bytes here, the clock is an argument, and the
-- HMAC-SHA256 of the `hmac` and `sha2` crates is a parameter: from a key and a message to a tag, or
-- `none` for a key that it rejects.
pub mod Hex
pub mod Expiry
pub mod Tokens
use consumer_engine.Prelude.{
  ℕ, zero, suc, ◌+◌, ◌*◌, ◌-◌, ◌^◌, ◌%◌, ◌/◌, Bool, true, false, ◌&&◌, Option, none, some, List, [],
  ◌∷◌, ◌++◌, Text, text, fmt, text_eq, to_decimal, length, ltb, leb, ◌==◌, if◌then◌else◌,
}
use consumer_engine.Core.Ident.{split_once}

abbrev pub export_ttl_secs : ℕ
export_ttl_secs = 15 * 60

abbrev pub tag_len : ℕ
tag_len = 32

abbrev pub max_u64 : ℕ
max_u64 = 2 ^ 64 - 1

abbrev pub saturating_add : ℕ → ℕ → ℕ
saturating_add a b = if ltb max_u64 (a + b) then max_u64 else a + b

-- A digit of `{b:02x}`.
abbrev pub hex_digit : ℕ → ℕ
hex_digit n = if ltb n 10 then b'0' + n else b'a' + (n - 10)

unfoldable pub hex_encode : List ℕ → Text
hex_encode [] = []
hex_encode (b ∷ bs) = hex_digit (b / 16) ∷ hex_digit (b % 16) ∷ hex_encode bs

abbrev pub hex_nibble : ℕ → Option ℕ
hex_nibble c =
    if leb b'0' c && leb c b'9'
    then some (c - b'0')
    else if leb b'a' c && leb c b'f'
    then some (c - b'a' + 10)
    else if leb b'A' c && leb c b'F'
    then some (c - b'A' + 10)
    else none

-- `out.push(hi << 4 | lo)` before what the rest gives.
abbrev pub push_byte : Option ℕ → Option ℕ → Option (List ℕ) → Option (List ℕ)
push_byte (some hi) (some lo) (some out) = some ((hi * 16 + lo) ∷ out)
push_byte (some hi) (some lo) none = none
push_byte (some hi) none rest = none
push_byte none lo rest = none

-- The loop over the pairs.
unfoldable pub hex_pairs : Text → Option (List ℕ)
hex_pairs [] = some []
hex_pairs (c ∷ []) = none
hex_pairs (hi ∷ lo ∷ s) = push_byte (hex_nibble hi) (hex_nibble lo) (hex_pairs s)

unfoldable pub hex_decode : Text → Option (List ℕ)
unfolding hex_pairs
hex_decode s = if length s % 2 == 0 then hex_pairs s else none

-- One digit more of `str::parse::<u64>`, with its overflow check.
abbrev pub digit_step : ℕ → ℕ → Option ℕ
digit_step acc c =
    if leb b'0' c && leb c b'9' && leb (acc * 10 + (c - b'0')) max_u64
    then some (acc * 10 + (c - b'0'))
    else none

unfoldable pub read_digits : Option ℕ → Text → Option ℕ
read_digits none s = none
read_digits (some acc) [] = some acc
read_digits (some acc) (c ∷ s) = read_digits (digit_step acc c) s

-- `str::parse::<u64>`: a sign `+` before a digit is let through.
unfoldable pub parse_u64 : Text → Option ℕ
parse_u64 [] = none
parse_u64 (c ∷ []) = read_digits (some 0) (c ∷ [])
parse_u64 (c ∷ d ∷ s) =
    if c == b'+' then read_digits (some 0) (d ∷ s) else read_digits (some 0) (c ∷ d ∷ s)

-- `format!("{snapshot_id}.{expiry}")`
abbrev pub message : Text → ℕ → Text
message snapshot_id expiry = fmt (snapshot_id ∷ text "." ∷ to_decimal expiry ∷ [])

module _ (hmac : List ℕ → Text → Option (List ℕ)) where
  abbrev pub token_of : ℕ → Option (List ℕ) → Option Text
  token_of expiry none = none
  token_of expiry (some tag) = some (fmt (to_decimal expiry ∷ text "." ∷ hex_encode tag ∷ []))

  unfoldable pub sign : List ℕ → Text → ℕ → ℕ → Option Text
  sign key snapshot_id ttl_secs now =
      let expiry = saturating_add now ttl_secs in
      token_of expiry (hmac key (message snapshot_id expiry))

  abbrev pub verify_tag : Option (List ℕ) → Option (List ℕ) → Bool
  verify_tag none expected = false
  verify_tag (some tag) none = false
  verify_tag (some tag) (some expected) = (length tag == tag_len) && text_eq tag expected

  abbrev pub verify_at : List ℕ → Text → Text → ℕ → Option ℕ → Bool
  verify_at key snapshot_id tag_hex now none = false
  verify_at key snapshot_id tag_hex now (some expiry) =
      if leb expiry now
      then false
      else verify_tag (hex_decode tag_hex) (hmac key (message snapshot_id expiry))

  abbrev pub verify_parts : List ℕ → Text → ℕ → Option (Text × Text) → Bool
  verify_parts key snapshot_id now none = false
  verify_parts key snapshot_id now (some (expiry_str, tag_hex)) =
      verify_at key snapshot_id tag_hex now (parse_u64 expiry_str)

  unfoldable pub verify : List ℕ → Text → Text → ℕ → Bool
  verify key snapshot_id token now = verify_parts key snapshot_id now (split_once b'.' token)
