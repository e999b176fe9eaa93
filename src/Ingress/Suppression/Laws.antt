-- ===== src/Ingress/Suppression/Laws.antt =====
-- Which outcomes reach the writer.
use consumer_engine.Prelude.{
  ℕ, ◌≡◌, refl, sym, ap, ◌∙◌, ◌⊎◌, inl, inr, Bool, true, false, Option, none, some, List, [], ◌∷◌,
  Text, Result, ok, err, map_err, guard, >>=-eq-ok,
}
use consumer_engine.Core.Ident.{validate_ident}
use consumer_engine.Core.Labels.{channel_parse, action_parse, channel_as_str, action_as_str}
use consumer_engine.Core.Labels.Laws.{channel_parse_iff, action_parse_iff}
use consumer_engine.Storage.Appends.{SuppressionRow}
use consumer_engine.Ingress.Suppression.{
  SuppressionRequest, SuppressionError, bad_ident, bad_label, bad_occurred_ts, id_not_uuid,
  required, fits, row_of, created, written, post_suppression,
}

map_err-ok :
    {E A : Type 0} (f : E → SuppressionError) (r : Result E A) (a : A)
    → map_err f r ≡ ok a
    → r ≡ ok a
map_err-ok f (err e) a h = absurd (cc h)
map_err-ok f (ok x) a h = cc h

guard-ok : (b : Bool) (e : SuppressionError) (u : Unit {0}) → guard b e ≡ ok u → b ≡ true
guard-ok true e u h = refl
guard-ok false e u h = absurd (cc h)

required-ok : (o : Option Text) (id : Text) → required o ≡ ok id → o ≡ some id
required-ok none id h = absurd (cc h)
required-ok (some x) id h = cc h

ok-inj_row :
    (r s : SuppressionRow) → Path (Result SuppressionError SuppressionRow) (ok r) (ok s) → r ≡ s
ok-inj_row r s h = cc h

module _ (is_rfc3339 is_uuid : Text → Bool) where
  -- The row holds what the request says, and what it says is well-formed.
  pub record IsRow (req : SuppressionRequest) (received : Text) (row : SuppressionRow)
      : Type 0 where
    pub id_given : req.suppression_id ≡ some row.suppression_id
    pub id_uuid : is_uuid row.suppression_id ≡ true
    pub campaign_same : row.campaign_id ≡ req.campaign_id
    pub campaign_ident : validate_ident req.campaign_id ≡ ok tt
    pub user_same : row.user_id ≡ req.user_id
    pub user_ident : validate_ident req.user_id ≡ ok tt
    pub channel_named : channel_as_str row.channel ≡ req.channel
    pub action_named : action_as_str row.action ≡ req.action
    pub occurred_same : row.occurred_ts ≡ req.occurred_ts
    pub occurred_time : is_rfc3339 req.occurred_ts ≡ true
    pub received_same : row.received_ts ≡ received

  row_of-IsRow :
      (req : SuppressionRequest) (received : Text) (row : SuppressionRow)
      → row_of is_rfc3339 is_uuid req received ≡ ok row
      → IsRow req received row
  unfolding row_of
  row_of-IsRow req received row h =
      let (u1, campaign, h1) = >>=-eq-ok (map_err bad_ident (validate_ident req.campaign_id)) _ h in
      let (u2, user, h2) = >>=-eq-ok (map_err bad_ident (validate_ident req.user_id)) _ h1 in
      let (channel, c, h3) = >>=-eq-ok (map_err bad_label (channel_parse req.channel)) _ h2 in
      let (action, a, h4) = >>=-eq-ok (map_err bad_label (action_parse req.action)) _ h3 in
      let (u5, time, h5) = >>=-eq-ok (guard (is_rfc3339 req.occurred_ts) bad_occurred_ts) _ h4 in
      let (u6, f6, h6) = >>=-eq-ok (fits req.campaign_id) _ h5 in
      let (u7, f7, h7) = >>=-eq-ok (fits req.user_id) _ h6 in
      let (u8, f8, h8) = >>=-eq-ok (fits req.occurred_ts) _ h7 in
      let (id, given, h9) = >>=-eq-ok (required req.suppression_id) _ h8 in
      let (u10, uuid, h10) = >>=-eq-ok (guard (is_uuid id) id_not_uuid) _ h9 in
      let same = ok-inj_row _ row h10 in
      record {
        id_given = required-ok req.suppression_id id given ∙ ap (λ r. some r.suppression_id) same;
        id_uuid =
            ap (λ r. is_uuid r.suppression_id) (sym same)
            ∙ guard-ok (is_uuid id) id_not_uuid u10 uuid;
        campaign_same = ap (λ r. r.campaign_id) (sym same);
        campaign_ident = map_err-ok bad_ident _ tt campaign;
        user_same = ap (λ r. r.user_id) (sym same);
        user_ident = map_err-ok bad_ident _ tt user;
        channel_named =
            ap (λ r. channel_as_str r.channel) (sym same)
            ∙ (channel_parse_iff req.channel channel).0 (map_err-ok bad_label _ channel c);
        action_named =
            ap (λ r. action_as_str r.action) (sym same)
            ∙ (action_parse_iff req.action action).0 (map_err-ok bad_label _ action a);
        occurred_same = ap (λ r. r.occurred_ts) (sym same);
        occurred_time = guard-ok (is_rfc3339 req.occurred_ts) bad_occurred_ts u5 time;
        received_same = ap (λ r. r.received_ts) (sym same);
      }

  module _ {W : Type 0}
      (write : List SuppressionRow → Text → W → Result SuppressionError ℕ × W) where
    written_cases :
        (req : SuppressionRequest) (tenant received : Text) (w : W)
        (r : Result SuppressionError SuppressionRow)
        → row_of is_rfc3339 is_uuid req received ≡ r
        → ((e : SuppressionError) × (written is_rfc3339 is_uuid write tenant r w ≡ (err e, w)))
          ⊎ ((row : SuppressionRow) × IsRow req received row
              × (written is_rfc3339 is_uuid write tenant r w
                  ≡ created is_rfc3339 is_uuid write row.suppression_id
                      (write (row ∷ []) tenant w)))
    written_cases req tenant received w (err e) h = inl (e, refl)
    written_cases req tenant received w (ok row) h =
        inr (row, row_of-IsRow req received row h, refl)

    -- An outcome is refused with an error and without any call of the writer, or the writer is
    -- given, for the caller's tenant, exactly one row, which holds what the request says: a UUID as
    -- the key, identifiers, a known channel and action, and a time that parses.
    pub post_suppression-IsRow :
        (req : SuppressionRequest) (tenant received : Text) (w : W)
        → ((e : SuppressionError) × (post_suppression is_rfc3339 is_uuid write req tenant received w
              ≡ (err e, w)))
          ⊎ ((row : SuppressionRow) × IsRow req received row
              × (post_suppression is_rfc3339 is_uuid write req tenant received w
                  ≡ created is_rfc3339 is_uuid write row.suppression_id
                      (write (row ∷ []) tenant w)))
    unfolding post_suppression
    post_suppression-IsRow req tenant received w = written_cases req tenant received w _ refl
