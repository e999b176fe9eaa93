-- ===== src/Ingress/Presign/Tokens.antt =====
-- Which tokens `verify` accepts (crates/ingress/src/presign.rs).
use consumer_engine.Prelude.{
  ap, ℕ, ◌≤◌, ◌<◌, ◌≡◌, refl, true, Option, none, some, List, [], ◌∷◌, ◌++◌, Text, text, fmt,
  text_eq_iff, to_decimal, length, ltb, All, arith, sym,
}
use mathlib.Core.List.{append-nil}
use consumer_engine.Core.Ident.{split_once}
use consumer_engine.Core.Ident.Laws.{split_once_sound, split_once_complete}
use consumer_engine.Ingress.Presign.{
  tag_len, max_u64, saturating_add, hex_encode, hex_decode, parse_u64, message, token_of, sign,
  verify_tag, verify_at, verify_parts, verify,
}
use consumer_engine.Ingress.Presign.Hex.{IsByte, hex_decode-hex_encode}
use consumer_engine.Ingress.Presign.Expiry.{no_dot-to_decimal, parse_u64-to_decimal}

saturating_add-le : (a b : ℕ) → saturating_add a b ≤ max_u64
saturating_add-le a b = ground arith

-- What the code relies on: every tag is 32 bytes.
abbrev pub IsMac : (List ℕ → Text → Option (List ℕ)) → Type 0
IsMac hmac =
    (key : List ℕ) (m : Text) (tag : List ℕ)
    → hmac key m ≡ some tag
    → (length tag ≡ tag_len) × All IsByte tag

token_parts :
    (expiry : ℕ) (tag_hex : Text)
    → split_once b'.' (fmt (to_decimal expiry ∷ text "." ∷ tag_hex ∷ []))
      ≡ some (to_decimal expiry, tag_hex)
unfolding fmt text
token_parts expiry tag_hex =
    rw (append-nil tag_hex)
      (split_once_complete b'.' (to_decimal expiry) tag_hex (no_dot-to_decimal expiry))

some-inj : (a b : Text) → Path (Option Text) (some a) (some b) → a ≡ b
some-inj a b h = cc

module _ (hmac : List ℕ → Text → Option (List ℕ)) where
  verify_tag-same :
      (tag : List ℕ) → length tag ≡ tag_len → verify_tag hmac (some tag) (some tag) ≡ true
  verify_tag-same tag h = ground (arith, text_eq_iff tag tag)

  verify_tag-equal : (t e : List ℕ) → verify_tag hmac (some t) (some e) ≡ true → t ≡ e
  verify_tag-equal t e h = ground (arith, text_eq_iff t e)

  verify_tag_sound :
      (tag expected : Option (List ℕ))
      → verify_tag hmac tag expected ≡ true
      → (t : List ℕ) × (tag ≡ some t) × (expected ≡ some t) × (length t ≡ tag_len)
  verify_tag_sound none expected h = cc
  verify_tag_sound (some t) none h = cc
  verify_tag_sound (some t) (some e) h =
      (t, refl, ap some (sym (verify_tag-equal t e h)), ground arith)

  verify_at_sound :
      (key : List ℕ) (snapshot_id tag_hex : Text) (now : ℕ) (parsed : Option ℕ)
      → verify_at hmac key snapshot_id tag_hex now parsed ≡ true
      → (expiry : ℕ) × (parsed ≡ some expiry)
        × (now < expiry)
        × (verify_tag hmac (hex_decode tag_hex) (hmac key (message snapshot_id expiry)) ≡ true)
  verify_at_sound key snapshot_id tag_hex now none h = cc
  verify_at_sound key snapshot_id tag_hex now (some expiry) h =
      (expiry, refl, ground arith, ground arith)

  verify_parts_sound :
      (key : List ℕ) (snapshot_id : Text) (now : ℕ) (parts : Option (Text × Text))
      → verify_parts hmac key snapshot_id now parts ≡ true
      → (expiry_str : Text) × (tag_hex : Text) × (parts ≡ some (expiry_str, tag_hex))
        × (verify_at hmac key snapshot_id tag_hex now (parse_u64 expiry_str) ≡ true)
  verify_parts_sound key snapshot_id now none h = cc
  verify_parts_sound key snapshot_id now (some (a, b)) h = (a, b, refl, h)

  -- What is left of `verify` for a token of the shape that `sign` writes.
  verify-token :
      (key tag : List ℕ) (snapshot_id : Text) (expiry later : ℕ)
      → expiry ≤ max_u64
      → length tag ≡ tag_len
      → All IsByte tag
      → hmac key (message snapshot_id expiry) ≡ some tag
      → verify hmac key snapshot_id (fmt (to_decimal expiry ∷ text "." ∷ hex_encode tag ∷ [])) later
        ≡ ltb later expiry
  unfolding verify
  verify-token key tag snapshot_id expiry later small len bytes made =
      rw (token_parts expiry (hex_encode tag)) (
        rw (parse_u64-to_decimal expiry small) (
          rw (hex_decode-hex_encode tag bytes)
            (rw made (rw (verify_tag-same tag len) (ground arith)))))

  token_of_sound :
      (expiry : ℕ) (made : Option (List ℕ)) (token : Text)
      → token_of hmac expiry made ≡ some token
      → (tag : List ℕ) × (made ≡ some tag)
        × (token ≡ fmt (to_decimal expiry ∷ text "." ∷ hex_encode tag ∷ []))
  token_of_sound expiry none token h = cc
  token_of_sound expiry (some tag) token h =
      (tag, refl, sym (some-inj (fmt (to_decimal expiry ∷ text "." ∷ hex_encode tag ∷ [])) token h))

  -- A token that `sign` made is accepted for the snapshot that it was made for, under the same key,
  -- before its expiry and never at or after it.
  pub verify-sign :
      (key : List ℕ) (snapshot_id token : Text) (ttl_secs now later : ℕ)
      → IsMac hmac
      → sign hmac key snapshot_id ttl_secs now ≡ some token
      → verify hmac key snapshot_id token later ≡ ltb later (saturating_add now ttl_secs)
  verify-sign key snapshot_id token ttl_secs now later mac h =
      let expiry = saturating_add now ttl_secs in
      let (tag, made, written) =
        token_of_sound expiry (hmac key (message snapshot_id expiry)) token (unfold sign in h) in
      let (len, bytes) = mac key (message snapshot_id expiry) tag made in
      rw written (
        verify-token key tag snapshot_id expiry later (saturating_add-le now ttl_secs) len bytes
          made)

  -- An accepted token is an unexpired `u64`, a dot and the hex digits of the 32-byte tag of the
  -- snapshot and that expiry under the key.
  pub verify_sound :
      (key : List ℕ) (snapshot_id token : Text) (now : ℕ)
      → verify hmac key snapshot_id token now ≡ true
      → (expiry_str : Text) × (tag_hex : Text) × (expiry : ℕ) × (tag : List ℕ) × (token
          ≡ expiry_str ++ b'.' ∷ tag_hex)
        × (parse_u64 expiry_str ≡ some expiry)
        × (now < expiry)
        × (hex_decode tag_hex ≡ some tag)
        × (length tag ≡ tag_len)
        × (hmac key (message snapshot_id expiry) ≡ some tag)
  verify_sound key snapshot_id token now h =
      let (expiry_str, tag_hex, split, at) =
        verify_parts_sound key snapshot_id now (split_once b'.' token) (unfold verify in h) in
      let (expiry, parsed, fresh, tagged) =
        verify_at_sound key snapshot_id tag_hex now (parse_u64 expiry_str) at in
      let (tag, decoded, made, len) =
        verify_tag_sound (hex_decode tag_hex) (hmac key (message snapshot_id expiry)) tagged in
      (
        expiry_str,
        tag_hex,
        expiry,
        tag,
        split_once_sound b'.' token expiry_str tag_hex split,
        parsed,
        fresh,
        decoded,
        len,
        made,
      )
