-- ===== src/Ingress/Audience/Laws.antt =====
-- Who is served an export, and that the link handed out works until it expires.
use consumer_engine.Prelude.{
  ℕ, ltb, ◌≡◌, refl, sym, ap, ◌∙◌, ◌⊎◌, inl, inr, Bool, true, false, Option, none, some, List, Text,
  text, text_eq_iff, Result, ok, err, if◌then◌else◌,
}
use consumer_engine.Ingress.Presign.{export_ttl_secs, saturating_add, sign, verify}
use consumer_engine.Ingress.Presign.Tokens.{IsMac, verify-sign}
use consumer_engine.Ingress.Audience.{
  unauthorized, AudienceError, SnapshotMeta, AudienceResponse, ExportQuery, AudienceOps,
  parse_snap_id, download_url, responded, described, audience_of, get_audience, owned, verified,
  token_or_empty, export_of, is_parquet, formatted, get_export,
}

ok-inj : {A : Type 0} (a b : A) → Path (Result AudienceError A) (ok a) (ok b) → a ≡ b
ok-inj a b h = cc h

module _ {W : Type 0} (ops : AudienceOps W) where
  -- The format is right, the id is a snapshot's, the token is valid now for that snapshot, and the
  -- snapshot is the tenant's.
  pub record IsAllowed (q : ExportQuery) (id tenant : Text) (now : ℕ) : Type 0 where
    pub bare : Text
    pub meta : SnapshotMeta
    pub parquet : q.format ≡ some (text "parquet")
    pub named : parse_snap_id ops id ≡ ok bare
    pub signed : verify ops.hmac ops.signing_key bare (token_or_empty ops q.token) now ≡ true
    pub theirs : ops.meta bare tenant ≡ ok (some meta)

  -- Nothing happened, and an error is the answer.
  abbrev IsRefused : W → Result AudienceError (List ℕ) × W → Type 0
  IsRefused w r = (r.1 ≡ w) × ((e : AudienceError) × (r.0 ≡ err e))

  owned_cases :
      (q : ExportQuery) (id tenant bare : Text) (now : ℕ) (w : W)
      (o : Result AudienceError (Option SnapshotMeta))
      → q.format ≡ some (text "parquet")
      → parse_snap_id ops id ≡ ok bare
      → verify ops.hmac ops.signing_key bare (token_or_empty ops q.token) now ≡ true
      → ops.meta bare tenant ≡ o
      → IsRefused w (owned ops bare o w) ⊎ IsAllowed q id tenant now
  owned_cases q id tenant bare now w (err e) f n s t = inl (refl, (e, refl))
  owned_cases q id tenant bare now w (ok none) f n s t = inl (refl, (_, refl))
  owned_cases q id tenant bare now w (ok (some meta)) f n s t =
      inr (record { bare = bare; meta = meta; parquet = f; named = n; signed = s; theirs = t })

  verified_cases :
      (q : ExportQuery) (id tenant bare : Text) (now : ℕ) (w : W) (b : Bool)
      → q.format ≡ some (text "parquet")
      → parse_snap_id ops id ≡ ok bare
      → verify ops.hmac ops.signing_key bare (token_or_empty ops q.token) now ≡ b
      → IsRefused w (verified ops bare tenant b w) ⊎ IsAllowed q id tenant now
  verified_cases q id tenant bare now w false f n s = inl (refl, (_, refl))
  verified_cases q id tenant bare now w true f n s =
      owned_cases q id tenant bare now w (ops.meta bare tenant) f n s refl

  export_cases :
      (q : ExportQuery) (id tenant : Text) (now : ℕ) (w : W) (r : Result AudienceError Text)
      → q.format ≡ some (text "parquet")
      → parse_snap_id ops id ≡ r
      → IsRefused w (export_of ops q tenant now r w) ⊎ IsAllowed q id tenant now
  export_cases q id tenant now w (err e) f n = inl (refl, (e, refl))
  export_cases q id tenant now w (ok bare) f n =
      verified_cases q id tenant bare now w
        (verify ops.hmac ops.signing_key bare (token_or_empty ops q.token) now) f n refl

  is_parquet_sound : (o : Option Text) → is_parquet ops o ≡ true → o ≡ some (text "parquet")
  is_parquet_sound none h = absurd (cc h)
  is_parquet_sound (some format) h = ap (λ s. some s) ((text_eq_iff format (text "parquet")).0 h)

  format_cases :
      (q : ExportQuery) (id tenant : Text) (now : ℕ) (w : W) (b : Bool)
      → is_parquet ops q.format ≡ b
      → IsRefused w (formatted ops b q id tenant now w) ⊎ IsAllowed q id tenant now
  format_cases q id tenant now w false e = inl (refl, (_, refl))
  format_cases q id tenant now w true e =
      export_cases q id tenant now w (parse_snap_id ops id) (is_parquet_sound q.format e) refl

  -- An export request is refused with an error and without any call of the writer, or the format
  -- is Parquet, the id is a snapshot's, the token is valid at that time for that snapshot, and the
  -- snapshot is the caller's tenant's.
  pub get_export-IsAllowed :
      (q : ExportQuery) (id tenant : Text) (now : ℕ) (w : W)
      → ((get_export ops q id tenant now w).1 ≡ w)
          × ((e : AudienceError) × ((get_export ops q id tenant now w).0 ≡ err e))
        ⊎ IsAllowed q id tenant now
  unfolding get_export
  get_export-IsAllowed q id tenant now w = format_cases q id tenant now w _ refl

  -- What a response comes from.
  record IsLinked (id tenant : Text) (now : ℕ) (r : AudienceResponse) : Type 0 where
    bare : Text
    token : Text
    named : parse_snap_id ops id ≡ ok bare
    signed : sign ops.hmac ops.signing_key bare export_ttl_secs now ≡ some token
    linked : r.download_url ≡ download_url ops id token
    meta : SnapshotMeta
    theirs : ops.meta bare tenant ≡ ok (some meta)

  responded_cases :
      (id tenant bare : Text) (now : ℕ) (r : AudienceResponse) (meta : SnapshotMeta)
      (o : Option Text)
      → parse_snap_id ops id ≡ ok bare
      → sign ops.hmac ops.signing_key bare export_ttl_secs now ≡ o
      → ops.meta bare tenant ≡ ok (some meta)
      → responded ops id meta o ≡ ok r
      → IsLinked id tenant now r
  responded_cases id tenant bare now r meta none n s t h = absurd (cc h)
  responded_cases id tenant bare now r meta (some token) n s t h = record {
    bare = bare;
    token = token;
    named = n;
    signed = s;
    linked = ap (λ x. x.download_url) (sym (ok-inj _ r h));
    meta = meta;
    theirs = t;
  }

  described_cases :
      (id tenant bare : Text) (now : ℕ) (r : AudienceResponse)
      (o : Result AudienceError (Option SnapshotMeta))
      → parse_snap_id ops id ≡ ok bare
      → ops.meta bare tenant ≡ o
      → described ops id bare now o ≡ ok r
      → IsLinked id tenant now r
  described_cases id tenant bare now r (err e) n t h = absurd (cc h)
  described_cases id tenant bare now r (ok none) n t h = absurd (cc h)
  described_cases id tenant bare now r (ok (some meta)) n t h =
      responded_cases id tenant bare now r meta _ n refl t h

  audience_cases :
      (id tenant : Text) (now : ℕ) (r : AudienceResponse) (o : Result AudienceError Text)
      → parse_snap_id ops id ≡ o
      → audience_of ops id tenant now o ≡ ok r
      → IsLinked id tenant now r
  audience_cases id tenant now r (err e) n h = absurd (cc h)
  audience_cases id tenant now r (ok bare) n h =
      described_cases id tenant bare now r (ops.meta bare tenant) n refl h

  abbrev pub link_query : Text → ExportQuery
  link_query token = record { format = some (text "parquet"); token = some token }

  verified-export :
      (bare tenant : Text) (meta : SnapshotMeta) (b : Bool) (w : W)
      → ops.meta bare tenant ≡ ok (some meta)
      → verified ops bare tenant b w
        ≡ (if b then ops.export_parquet bare w else (err unauthorized, w))
  verified-export bare tenant meta true w t = ap (λ o. owned ops bare o w) t
  verified-export bare tenant meta false w t = refl

  -- Where tags are 32 bytes, the link of an audience response holds a token with which the same
  -- tenant is given the export of the snapshot at any time before 15 minutes have passed, and 401
  -- from then on.
  pub get_audience-get_export :
      IsMac ops.hmac
      → (id tenant : Text) (now : ℕ) (r : AudienceResponse) → get_audience ops id tenant now ≡ ok r
      → (token : Text) × (bare : Text) × (r.download_url ≡ download_url ops id token)
        × ((later : ℕ) (w : W)
            → get_export ops (link_query token) id tenant later w ≡ (
                if ltb later (saturating_add now export_ttl_secs)
                then ops.export_parquet bare w
                else (err unauthorized, w)))
  unfolding get_export get_audience
  get_audience-get_export mac id tenant now r h =
      let link = audience_cases id tenant now r (parse_snap_id ops id) refl h in
      (
        link.token,
        link.bare,
        link.linked,
        λ later w.
            ap (λ b. formatted ops b (link_query link.token) id tenant later w)
              ((text_eq_iff (text "parquet") (text "parquet")).1 refl)
            ∙ ap (λ o. export_of ops (link_query link.token) tenant later o w) link.named
            ∙ verified-export link.bare tenant link.meta _ w link.theirs
            ∙ ap (λ b. if b then ops.export_parquet link.bare w else (err unauthorized, w))
                (verify-sign ops.hmac ops.signing_key link.bare link.token export_ttl_secs now later
                  mac link.signed),
      )
