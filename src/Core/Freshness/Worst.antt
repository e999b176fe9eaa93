-- ===== src/Core/Freshness/Worst.antt =====
-- `worst` of the freshness registry reports the largest lag (crates/core/src/freshness.rs).
use consumer_engine.Prelude.{
  ℤ, ℕ, ◌≤◌, ◌≡◌, refl, sym, ◌∙◌, subst, ◌⊎◌, inl, inr, true, false, ◌&&◌, ◌||◌, not, Bool-cases,
  List, [], ◌∷◌, text_eq, text_eq_iff, All, Any, arith, ltb, ◌==◌,
}
use consumer_engine.Core.Dataset.{Dataset}
use consumer_engine.Core.Freshness.{
  SourceType, batch, SourceMeta, Freshness, Sources, meta_of, lag_of, contains, is_batch, worse,
  worst_from, worst,
}

same_dataset : (d e : Dataset) → d.system ≡ e.system → d.entity ≡ e.entity → d ≡ e
same_dataset d e p q = λ i. record { system = p i; entity = q i }

module _ (sources : Sources) (now : ℤ) where
  abbrev pub lag : Dataset → ℕ
  lag d = lag_of now (meta_of sources now d)

  abbrev pub type_of : Dataset → SourceType
  type_of d = (meta_of sources now d).source_type

  -- Nothing behind the label lags more, and the label is that of a source that lags so much; with
  -- no lag at all it is the default label.
  pub record IsWorst (ds : List Dataset) (f : Freshness) : Type 0 where
    pub above : All (λ d. lag d ≤ f.lag_seconds) ds
    pub held :
        (f ≡ record { worst_source = batch; lag_seconds = 0 })
        ⊎ Any (λ d. (lag d ≡ f.lag_seconds) × (type_of d ≡ f.worst_source)) ds

  worse-ge : (m : SourceMeta) (n : ℕ) (f : Freshness) → f.lag_seconds ≤ (worse m n f).lag_seconds
  worse-ge m n f = ground arith

  worse-above : (m : SourceMeta) (n : ℕ) (f : Freshness) → n ≤ (worse m n f).lag_seconds
  worse-above m n f = ground arith

  worse-held :
      (m : SourceMeta) (n : ℕ) (f : Freshness)
      → (worse m n f ≡ f)
        ⊎ ((n ≡ (worse m n f).lag_seconds) × (m.source_type ≡ (worse m n f).worst_source))
  worse-held m n f =
      elim (Bool-cases (
        ltb f.lag_seconds n
        || (n == f.lag_seconds && (is_batch m.source_type && not (is_batch f.worst_source))))) [
          | inl e ↦ rw e (inr (refl, refl))
          | inr e ↦ rw e (inl refl)
        ]

  lag_mono :
      (ds : List Dataset) (n m : ℕ) → n ≤ m → All (λ e. lag e ≤ n) ds → All (λ e. lag e ≤ m) ds
  lag_mono [] n m le h = tt
  lag_mono (d ∷ ds) n m le h = (omega (arith, h.0), lag_mono ds n m le h.1)

  contains-lag :
      (d : Dataset) (seen : List Dataset) (n : ℕ)
      → All (λ e. lag e ≤ n) seen
      → contains seen d ≡ true
      → lag d ≤ n
  unfolding contains
  contains-lag d [] n h c = cc
  contains-lag d (e ∷ seen) n h c =
      elim (Bool-cases (text_eq e.system d.system && text_eq e.entity d.entity)) [
        | inl same ↦
            subst (λ x. lag x ≤ n)
              (same_dataset e d ((text_eq_iff e.system d.system).0 (ground arith))
                ((text_eq_iff e.entity d.entity).0 (ground arith)))
              h.0
        | inr other ↦ contains-lag d seen n h.1 (rw other at c)
      ]

  worst_from-seen :
      (seen : List Dataset) (f : Freshness) (d : Dataset) (ds : List Dataset)
      → contains seen d ≡ true
      → worst_from sources now seen f (d ∷ ds) ≡ worst_from sources now seen f ds
  unfolding worst_from
  worst_from-seen seen f d ds c = rw c

  worst_from-new :
      (seen : List Dataset) (f : Freshness) (d : Dataset) (ds : List Dataset)
      → contains seen d ≡ false
      → worst_from sources now seen f (d ∷ ds)
        ≡ worst_from sources now (d ∷ seen) (worse (meta_of sources now d) (lag d) f) ds
  unfolding worst_from
  worst_from-new seen f d ds c = rw c

  worst_from-nil : (seen : List Dataset) (f : Freshness) → worst_from sources now seen f [] ≡ f
  unfolding worst_from
  worst_from-nil seen f = refl

  abbrev Above : ℕ → List Dataset → Freshness → Type 0
  Above n ds r = (n ≤ r.lag_seconds) × All (λ d. lag d ≤ r.lag_seconds) ds

  abbrev Holds : Freshness → Dataset → Type 0
  Holds f d = (lag d ≡ f.lag_seconds) × (type_of d ≡ f.worst_source)

  abbrev FromOne : Freshness → List Dataset → Freshness → Type 0
  FromOne f ds r = (r ≡ f) ⊎ Any (Holds r) ds

  worst_from-above :
      (seen : List Dataset) (f : Freshness) (ds : List Dataset)
      → All (λ e. lag e ≤ f.lag_seconds) seen
      → (f.lag_seconds ≤ (worst_from sources now seen f ds).lag_seconds)
        × All (λ d. lag d ≤ (worst_from sources now seen f ds).lag_seconds) ds
  worst_from-above seen f [] h = (rw worst_from-nil (omega arith), tt)
  worst_from-above seen f (d ∷ ds) h = elim (Bool-cases (contains seen d)) [
    | inl c ↦ subst (Above f.lag_seconds (d ∷ ds)) (sym (worst_from-seen seen f d ds c)) (
        let (ge, all) = worst_from-above seen f ds h in
        (ge, (omega (arith, contains-lag d seen f.lag_seconds h c), all)))
    | inr c ↦ subst (Above f.lag_seconds (d ∷ ds)) (sym (worst_from-new seen f d ds c)) (
        let f' = worse (meta_of sources now d) (lag d) f in
        let top = worse-above (meta_of sources now d) (lag d) f in
        let rise = worse-ge (meta_of sources now d) (lag d) f in
        let (ge, all) = worst_from-above (d ∷ seen) f' ds (top, lag_mono seen _ _ rise h) in
        (omega (arith, rise, ge), (omega (arith, top, ge), all)))
  ]

  worst_from-held :
      (seen : List Dataset) (f : Freshness) (ds : List Dataset)
      → (worst_from sources now seen f ds ≡ f) ⊎ Any (Holds (worst_from sources now seen f ds)) ds
  worst_from-held seen f [] = inl (worst_from-nil seen f)
  worst_from-held seen f (d ∷ ds) = elim (Bool-cases (contains seen d)) [
    | inl c ↦
        subst (FromOne f (d ∷ ds)) (sym (worst_from-seen seen f d ds c))
          (later f (worst_from-held seen f ds))
    | inr c ↦ subst (FromOne f (d ∷ ds)) (sym (worst_from-new seen f d ds c)) (
        newer (worse-held (meta_of sources now d) (lag d) f)
          (worst_from-held (d ∷ seen) (worse (meta_of sources now d) (lag d) f) ds))
  ]
    where
      later :
          {r : Freshness} (g : Freshness)
          → (r ≡ g) ⊎ Any (Holds r) ds
          → (r ≡ g) ⊎ Any (Holds r) (d ∷ ds)
      later g (inl e) = inl e
      later g (inr a) = inr (inr a)

      newer :
          {r g : Freshness}
          → (g ≡ f) ⊎ Holds g d
          → (r ≡ g) ⊎ Any (Holds r) ds
          → (r ≡ f) ⊎ Any (Holds r) (d ∷ ds)
      newer _ (inr a) = inr (inr a)
      newer (inl e) (inl e') = inl (e' ∙ e)
      newer (inr h) (inl e') = inr (inl (rw e' h))

  -- Over any sources, duplicates and unknown ones included, `worst` reports the largest lag of them,
  -- counting an unknown source and a clock behind the ingest as lag 0; and unless it is the default
  -- (batch, 0), the reported type is that of a source in the list which lags so much.
  pub worst-IsWorst : (ds : List Dataset) → IsWorst ds (worst sources now ds)
  unfolding worst
  worst-IsWorst ds = record {
    above = (worst_from-above [] (record { worst_source = batch; lag_seconds = 0 }) ds tt).1;
    held = worst_from-held [] (record { worst_source = batch; lag_seconds = 0 }) ds;
  }

  worse-zero :
      (m : SourceMeta) (f : Freshness)
      → f ≡ record { worst_source = batch; lag_seconds = 0 }
      → worse m 0 f ≡ f
  worse-zero m f h = ground arith

  worst_from-zero :
      (seen ds : List Dataset)
      → All (λ d. lag d ≡ 0) ds
      → worst_from sources now seen (record { worst_source = batch; lag_seconds = 0 }) ds
        ≡ record { worst_source = batch; lag_seconds = 0 }
  unfolding worst_from
  worst_from-zero seen [] h = refl
  worst_from-zero seen (d ∷ ds) h = elim (Bool-cases (contains seen d)) [
    | inl c ↦ rw c (worst_from-zero seen ds h.1)
    | inr c ↦
        rw (c, h.0)
          (rw
            (worse-zero (meta_of sources now d) (record { worst_source = batch; lag_seconds = 0 })
              refl)
            (worst_from-zero (d ∷ seen) ds h.1))
  ]

  -- When no source lags, the label is batch, also where every source is a CDC one.
  pub worst-zero :
      (ds : List Dataset)
      → All (λ d. lag d ≡ 0) ds
      → worst sources now ds ≡ record { worst_source = batch; lag_seconds = 0 }
  unfolding worst
  worst-zero ds h = worst_from-zero [] ds h
