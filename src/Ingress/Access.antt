-- ===== src/Ingress/Access.antt =====
-- crates/ingress/src/auth.rs, and `AppState::resolve_tenant` of lib.rs. SHA-256 is a parameter.
pub mod Laws
use consumer_engine.Prelude.{
  ℕ, ◌==◌, Bool, true, false, ◌&&◌, ◌||◌, Option, none, some, List, [], ◌∷◌, Text, text, text_eq,
  if◌then◌else◌,
}

-- The fields of `AppState` that it reads.
pub record Tenants : Type 0 where
  pub auth_token_hash : Option (List ℕ)
  pub tenants : List (Text × List ℕ)
  pub default_tenant : Text

-- A probe, a request of a tenant, or 401.
pub data Access : Type 0 where
  probe : Access
  as_tenant : Text → Access
  unauthorized : Access

-- `strip_prefix`
unfoldable pub strip_prefix : Text → Text → Option Text
strip_prefix [] s = some s
strip_prefix (c ∷ cs) [] = none
strip_prefix (c ∷ cs) (d ∷ s) = let rest = strip_prefix cs s in if c == d then rest else none

module _ (sha256 : Text → List ℕ) where
  abbrev pub own_tenant : Tenants → List ℕ → Option (List ℕ) → Option Text
  own_tenant st hash none = none
  own_tenant st hash (some expected) =
      if text_eq expected hash then some st.default_tenant else none

  -- The loop over the tenants, and what follows it.
  unfoldable pub first_tenant : Tenants → List ℕ → List (Text × List ℕ) → Option Text
  first_tenant st hash [] = own_tenant st hash st.auth_token_hash
  first_tenant st hash ((id, expected) ∷ rest) =
      let later = first_tenant st hash rest in if text_eq expected hash then some id else later

  unfoldable pub resolve_tenant : Tenants → Option Text → Option Text
  unfolding first_tenant
  resolve_tenant st none = none
  resolve_tenant st (some provided) = first_tenant st (sha256 provided) st.tenants

  abbrev pub is_probe : Text → Bool
  is_probe path = text_eq path (text "/healthz") || text_eq path (text "/readyz")

  abbrev pub is_tokenless : Option (List ℕ) → List (Text × List ℕ) → Bool
  is_tokenless none [] = true
  is_tokenless _ _ = false

  abbrev pub or_unauthorized : Option Text → Access
  or_unauthorized none = unauthorized
  or_unauthorized (some tenant) = as_tenant tenant

  abbrev pub bearer : Option Text → Option Text
  bearer none = none
  bearer (some header) = strip_prefix (text "Bearer ") header

  -- `header` is the value of `Authorization`, if it is a text. Without a token there is no tenant.
  unfoldable pub require_auth : Tenants → Text → Option Text → Access
  unfolding resolve_tenant strip_prefix
  require_auth st path header =
      if is_probe path
      then probe
      else if is_tokenless st.auth_token_hash st.tenants
      then as_tenant st.default_tenant
      else or_unauthorized (resolve_tenant st (bearer header))
