-- ===== src/Ingress/Access/Laws.antt =====
-- Who gets in, and as whom.
use consumer_engine.Prelude.{
  ℕ, ==_iff, ◌≡◌, refl, ap, ◌∙◌, ◌⊎◌, inl, inr, Bool, true, false, Option, none, some, List, [],
  ◌∷◌, ◌++◌, Text, text, text_eq, text_eq_iff, Any, if◌then◌else◌, arith,
}
use consumer_engine.Ingress.Access.{
  Tenants, probe, as_tenant, strip_prefix, own_tenant, first_tenant, resolve_tenant, is_probe,
  is_tokenless, or_unauthorized, bearer, require_auth,
}

strip_prefix_sound : (prefix s rest : Text) → strip_prefix prefix s ≡ some rest → s ≡ prefix ++ rest
unfolding strip_prefix
strip_prefix_sound [] s rest h = cc h
strip_prefix_sound (c ∷ cs) [] rest h = absurd (cc h)
strip_prefix_sound (c ∷ cs) (d ∷ s) rest h =
    ground (arith, strip_prefix_sound cs s rest, ==_iff c d, h)

module _ (sha256 : Text → List ℕ) where
  -- The token is a configured tenant's, or the engine's own.
  pub data IsToken (st : Tenants) (token tenant : Text) : Type 0 where
    configured :
        Any (λ entry. (entry.0 ≡ tenant) × (entry.1 ≡ sha256 token)) st.tenants
        → IsToken st token tenant
    own :
        st.auth_token_hash ≡ some (sha256 token)
        → tenant ≡ st.default_tenant
        → IsToken st token tenant

  -- What lets a request in as a tenant: no token is configured, or a bearer token is right.
  pub data IsAdmitted (st : Tenants) (header : Option Text) (tenant : Text) : Type 0 where
    tokenless :
        st.auth_token_hash ≡ none
        → st.tenants ≡ []
        → tenant ≡ st.default_tenant
        → IsAdmitted st header tenant
    by_token :
        (token : Text)
        → header ≡ some (text "Bearer " ++ token)
        → IsToken st token tenant
        → IsAdmitted st header tenant

  own_tenant_sound :
      (st : Tenants) (hash : List ℕ) (o : Option (List ℕ)) (t : Text)
      → own_tenant sha256 st hash o ≡ some t
      → (o ≡ some hash) × (t ≡ st.default_tenant)
  own_tenant_sound st hash none t h = absurd (cc h)
  own_tenant_sound st hash (some expected) t h = ground (arith, h, text_eq_iff expected hash)

  first_tenant_sound :
      (st : Tenants) (hash : List ℕ) (entries : List (Text × List ℕ)) (t : Text)
      → first_tenant sha256 st hash entries ≡ some t
      → Any (λ entry. (entry.0 ≡ t) × (entry.1 ≡ hash)) entries
        ⊎ ((st.auth_token_hash ≡ some hash) × (t ≡ st.default_tenant))
  unfolding first_tenant
  first_tenant_sound st hash [] t h = inr (own_tenant_sound st hash st.auth_token_hash t h)
  first_tenant_sound st hash ((id, expected) ∷ rest) t h =
      entry_cases (text_eq expected hash) ((text_eq_iff expected hash).0)
        (first_tenant_sound st hash rest t) h
    where
      entry_cases :
          (b : Bool)
          → (b ≡ true → expected ≡ hash)
          → (first_tenant sha256 st hash rest ≡ some t
              → Any (λ entry. (entry.0 ≡ t) × (entry.1 ≡ hash)) rest
                ⊎ ((st.auth_token_hash ≡ some hash) × (t ≡ st.default_tenant)))
          → (if b then some id else first_tenant sha256 st hash rest) ≡ some t
          → Any (λ entry. (entry.0 ≡ t) × (entry.1 ≡ hash)) ((id, expected) ∷ rest)
            ⊎ ((st.auth_token_hash ≡ some hash) × (t ≡ st.default_tenant))
      entry_cases true same later h = inl (inl (cc h, same refl))
      entry_cases false same later h = elim (later h) [
        | inl found ↦ inl (inr found)
        | inr mine ↦ inr mine
      ]

  resolve_tenant_sound :
      (st : Tenants) (header : Option Text) (t : Text)
      → resolve_tenant sha256 st (bearer sha256 header) ≡ some t
      → IsAdmitted st header t
  unfolding resolve_tenant
  resolve_tenant_sound st none t h = absurd (cc h)
  resolve_tenant_sound st (some header) t h =
      token_cases (strip_prefix (text "Bearer ") header) refl h
    where
      token_cases :
          (o : Option Text)
          → strip_prefix (text "Bearer ") header ≡ o
          → resolve_tenant sha256 st o ≡ some t
          → IsAdmitted st (some header) t
      token_cases none e h = absurd (cc h)
      token_cases (some token) e h =
          by_token token (ap (λ s. some s) (strip_prefix_sound (text "Bearer ") header token e))
            (elim (first_tenant_sound st (sha256 token) st.tenants t h) [
              | inl found ↦ configured found
              | inr mine ↦ own mine.0 mine.1
            ])

  or_cases :
      (st : Tenants) (header : Option Text) (t : Text) (o : Option Text)
      → resolve_tenant sha256 st (bearer sha256 header) ≡ o
      → or_unauthorized sha256 o ≡ as_tenant t
      → IsAdmitted st header t
  or_cases st header t none e h = absurd (cc h)
  or_cases st header t (some u) e h = resolve_tenant_sound st header t (e ∙ ap (λ x. some x) (cc h))

  tokenless_cases :
      (st : Tenants) (header : Option Text) (t : Text) (o : Option (List ℕ))
      (entries : List (Text × List ℕ))
      → st.auth_token_hash ≡ o
      → st.tenants ≡ entries
      → (if is_tokenless sha256 o entries
          then as_tenant st.default_tenant
          else or_unauthorized sha256 (resolve_tenant sha256 st (bearer sha256 header)))
        ≡ as_tenant t
      → IsAdmitted st header t
  tokenless_cases st header t none [] eo ee h = tokenless eo ee (cc h)
  tokenless_cases st header t none (e ∷ es) eo ee h = or_cases st header t _ refl h
  tokenless_cases st header t (some hash) [] eo ee h = or_cases st header t _ refl h
  tokenless_cases st header t (some hash) (e ∷ es) eo ee h = or_cases st header t _ refl h

  -- A request becomes a tenant's only if no token is configured at all, and it is then the default
  -- tenant's, or if it carries a bearer token whose hash is that of a configured tenant, or the
  -- engine's own, and it is then that tenant's or the default tenant's.
  pub require_auth_sound :
      (st : Tenants) (path : Text) (header : Option Text) (t : Text)
      → require_auth sha256 st path header ≡ as_tenant t
      → IsAdmitted st header t
  unfolding require_auth
  require_auth_sound st path header t h = probe_cases (is_probe sha256 path) h
    where
      probe_cases :
          (b : Bool)
          → (if b
              then probe
              else if is_tokenless sha256 st.auth_token_hash st.tenants
              then as_tenant st.default_tenant
              else or_unauthorized sha256 (resolve_tenant sha256 st (bearer sha256 header)))
            ≡ as_tenant t
          → IsAdmitted st header t
      probe_cases true h = absurd (cc h)
      probe_cases false h = tokenless_cases st header t _ _ refl refl h
