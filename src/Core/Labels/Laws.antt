-- ===== src/Core/Labels/Laws.antt =====
-- The labels parse back, and nothing else does (crates/core/src/semantic.rs,
-- crates/core/src/suppression.rs).
use consumer_engine.Prelude.{
  Option, some, Result, ok, Text, text, text_eq, text_eq_iff, ◌≡◌, ◌∙◌, ◌↔◌, refl, sym, subst,
  Bool-cases, inl, inr, if◌then◌else◌,
}
use consumer_engine.Core.Labels.{
  InvalidInput, SemanticType, identifier, dimension, measure, event_ts, pii, fk, table,
  semantic_as_str, semantic_parse, SuppressionChannel, sms, email, push, ads, channel_as_str,
  channel_parse, SuppressionAction, targeted, delivered, converted, opted_out, bounced,
  action_as_str, action_parse,
}

-- One arm of a `match` on texts, and the arms after it.
module _ {R T : Type 0} (good : T → R) (good_inj : (a b : T) → good a ≡ good b → a ≡ b)
    (as_str : T → Text) (s : Text) (t : T) where
  arm_sound :
      (label : Text) (c : T) (rest : R)
      → as_str c ≡ label
      → (rest ≡ good t → as_str t ≡ s)
      → (if text_eq s label then good c else rest) ≡ good t
      → as_str t ≡ s
  arm_sound label c rest e later h = elim (Bool-cases (text_eq s label)) [
    | inl same ↦
        subst (λ x. as_str x ≡ s) (good_inj c t (rw same at h))
          (e ∙ sym ((text_eq_iff s label).0 same))
    | inr other ↦ later (rw other at h)
  ]

some_inj : {T : Type 0} (a b : T) → Path (Option T) (some a) (some b) → a ≡ b
some_inj a b h = cc

ok_inj : {T : Type 0} (a b : T) → Path (Result InvalidInput T) (ok a) (ok b) → a ≡ b
ok_inj a b h = cc

semantic_parse_sound :
    (s : Text) (t : SemanticType) → semantic_parse s ≡ some t → semantic_as_str t ≡ s
unfolding semantic_parse semantic_as_str
semantic_parse_sound s t =
    let arm = arm_sound some some_inj semantic_as_str s t in
    arm (text "identifier") identifier _ refl (
      arm (text "dimension") dimension _ refl (
        arm (text "measure") measure _ refl (
          arm (text "eventTs") event_ts _ refl (
            arm (text "pii") pii _ refl
              (arm (text "fk") fk _ refl (arm (text "table") table _ refl (λ h. cc)))))))

semantic_parse-semantic_as_str : (t : SemanticType) → semantic_parse (semantic_as_str t) ≡ some t
unfolding semantic_parse semantic_as_str text text_eq
semantic_parse-semantic_as_str identifier = refl
semantic_parse-semantic_as_str dimension = refl
semantic_parse-semantic_as_str measure = refl
semantic_parse-semantic_as_str event_ts = refl
semantic_parse-semantic_as_str pii = refl
semantic_parse-semantic_as_str fk = refl
semantic_parse-semantic_as_str table = refl

-- A text parses to a value exactly when it is the label of the value.
pub semantic_parse_iff :
    (s : Text) (t : SemanticType) → (semantic_parse s ≡ some t) ↔ (semantic_as_str t ≡ s)
semantic_parse_iff s t = (
  semantic_parse_sound s t,
  λ h. subst (λ s. semantic_parse s ≡ some t) h (semantic_parse-semantic_as_str t),
)

channel_parse_sound :
    (s : Text) (t : SuppressionChannel) → channel_parse s ≡ ok t → channel_as_str t ≡ s
unfolding channel_parse channel_as_str
channel_parse_sound s t =
    let arm = arm_sound ok ok_inj channel_as_str s t in
    arm (text "sms") sms _ refl (
      arm (text "email") email _ refl
        (arm (text "push") push _ refl (arm (text "ads") ads _ refl (λ h. cc))))

channel_parse-channel_as_str : (t : SuppressionChannel) → channel_parse (channel_as_str t) ≡ ok t
unfolding channel_parse channel_as_str text text_eq
channel_parse-channel_as_str sms = refl
channel_parse-channel_as_str email = refl
channel_parse-channel_as_str push = refl
channel_parse-channel_as_str ads = refl

-- A text parses to a value exactly when it is the label of the value.
pub channel_parse_iff :
    (s : Text) (t : SuppressionChannel) → (channel_parse s ≡ ok t) ↔ (channel_as_str t ≡ s)
channel_parse_iff s t = (
  channel_parse_sound s t,
  λ h. subst (λ s. channel_parse s ≡ ok t) h (channel_parse-channel_as_str t),
)

action_parse_sound :
    (s : Text) (t : SuppressionAction) → action_parse s ≡ ok t → action_as_str t ≡ s
unfolding action_parse action_as_str
action_parse_sound s t =
    let arm = arm_sound ok ok_inj action_as_str s t in
    arm (text "targeted") targeted _ refl (
      arm (text "delivered") delivered _ refl (
        arm (text "converted") converted _ refl (
          arm (text "opted_out") opted_out _ refl (arm (text "bounced") bounced _ refl (λ h. cc)))))

action_parse-action_as_str : (t : SuppressionAction) → action_parse (action_as_str t) ≡ ok t
unfolding action_parse action_as_str text text_eq
action_parse-action_as_str targeted = refl
action_parse-action_as_str delivered = refl
action_parse-action_as_str converted = refl
action_parse-action_as_str opted_out = refl
action_parse-action_as_str bounced = refl

-- A text parses to a value exactly when it is the label of the value.
pub action_parse_iff :
    (s : Text) (t : SuppressionAction) → (action_parse s ≡ ok t) ↔ (action_as_str t ≡ s)
action_parse_iff s t = (
  action_parse_sound s t,
  λ h. subst (λ s. action_parse s ≡ ok t) h (action_parse-action_as_str t),
)
