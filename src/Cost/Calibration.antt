-- ===== src/Cost/Calibration.antt =====
-- What the online calibration may change, and the range of the learned crossover.
use adaptipc.Base.{ℕ, ◌≡◌, refl, ◌⊎◌, inl, inr, true, false, not, ◌||◌, arith, Bool-cases, leb}
use adaptipc.Double.{Double, ◌⊖◌, ◌⊘◌, ◌≺◌, ◌≼◌, real}
use adaptipc.Cost.Types.{CostCfg, Learn, Route, undecided, shm, uds}
use adaptipc.Cost.Learn.{init, observe, observe_class, lidx, small_max, crossover, is_short, clamp}

small_index : (t : Route) → (lidx t 0 ≡ 0) ⊎ (lidx t 0 ≡ 1) ⊎ (lidx t 0 ≡ 2) ⊎ (lidx t 0 ≡ 3)
small_index undecided = ground arith
small_index shm = ground arith
small_index uds = ground arith

large_index : (t : Route) → (lidx t 1 ≡ 0) ⊎ (lidx t 1 ≡ 1) ⊎ (lidx t 1 ≡ 2) ⊎ (lidx t 1 ≡ 3)
large_index undecided = ground arith
large_index shm = ground arith
large_index uds = ground arith

-- The order of floating point away from NaN: what is not below is at or above.
pub record IsOrdered {ℓ} (D : Type ℓ) ⦃dbl : Double D⦄ : Type ℓ where
  pub le_of_not-lt :
      (x y : D) → dbl.is_finite x ≡ true → dbl.is_finite y ≡ true → (x ≺ y) ≡ false → (y ≼ x) ≡ true
  pub le_refl : (x : D) → dbl.is_finite x ≡ true → (x ≼ x) ≡ true

module _ {ℓ} {D : Type ℓ} ⦃dbl : Double D⦄ where
  -- The small and the large class of a transport share one line.
  pub record IsPaired (l : Learn D) : Type ℓ where
    pub uds_fixed : l.fixed_us 0 ≡ l.fixed_us 1
    pub uds_slope : l.slope_us_per_b 0 ≡ l.slope_us_per_b 1
    pub shm_fixed : l.fixed_us 2 ≡ l.fixed_us 3
    pub shm_slope : l.slope_us_per_b 2 ≡ l.slope_us_per_b 3

  pub init-IsPaired : (cfg : CostCfg D) → IsPaired (init cfg)
  unfolding init
  init-IsPaired cfg = record {
    uds_fixed = refl;
    uds_slope = refl;
    shm_fixed = refl;
    shm_slope = refl;
  }

  class-IsPaired :
      (l : Learn D) (cfg : CostCfg D) (idx size : ℕ) (cost_us : D)
      → (idx ≡ 0) ⊎ (idx ≡ 1) ⊎ (idx ≡ 2) ⊎ (idx ≡ 3)
      → IsPaired l
      → IsPaired (observe_class l cfg idx size cost_us)
  unfolding observe_class
  class-IsPaired l cfg idx size cost_us (inl e) p = rw e (ground arith)
  class-IsPaired l cfg idx size cost_us (inr (inl e)) p = rw e (ground arith)
  class-IsPaired l cfg idx size cost_us (inr (inr (inl e))) p = rw e (ground arith)
  class-IsPaired l cfg idx size cost_us (inr (inr (inr e))) p = rw e (ground arith)

  -- A measurement is dropped, or it is one of its transport's small or large class.
  observe_elim :
      (P : Learn D → Type ℓ) (l : Learn D) (cfg : CostCfg D) (transport : Route) (size : ℕ)
      (cost_us : D)
      → P l
      → P (observe_class l cfg (lidx transport 0) size cost_us)
      → P (observe_class l cfg (lidx transport 1) size cost_us)
      → P (observe l cfg transport size cost_us)
  unfolding observe
  observe_elim P l cfg undecided size cost_us p q0 q1 =
      elim (Bool-cases (not (dbl.is_finite cost_us) || (cost_us ≺ real 0))) [
        | inl e ↦ rw e p
        | inr e ↦ rw e p
      ]
  observe_elim P l cfg shm size cost_us p q0 q1 =
      elim (Bool-cases (not (dbl.is_finite cost_us) || (cost_us ≺ real 0))) [
        | inl e ↦ rw e p
        | inr e ↦ elim (Bool-cases (leb size small_max)) [
          | inl f ↦ rw (e, f) q0
          | inr f ↦ rw (e, f) q1
        ]
      ]
  observe_elim P l cfg uds size cost_us p q0 q1 =
      elim (Bool-cases (not (dbl.is_finite cost_us) || (cost_us ≺ real 0))) [
        | inl e ↦ rw e p
        | inr e ↦ elim (Bool-cases (leb size small_max)) [
          | inl f ↦ rw (e, f) q0
          | inr f ↦ rw (e, f) q1
        ]
      ]

  -- A measurement keeps the pairs, whatever it is.
  pub observe-IsPaired :
      (l : Learn D) (cfg : CostCfg D) (transport : Route) (size : ℕ) (cost_us : D)
      → IsPaired l
      → IsPaired (observe l cfg transport size cost_us)
  observe-IsPaired l cfg transport size cost_us p =
      observe_elim IsPaired l cfg transport size cost_us p
        (class-IsPaired l cfg (lidx transport 0) size cost_us (small_index transport) p)
        (class-IsPaired l cfg (lidx transport 1) size cost_us (large_index transport) p)

  -- All that is learned at one index.
  abbrev pub SameAt : ℕ → Learn D → Learn D → Type ℓ
  SameAt i l l' =
      (l.cls_mean_us i ≡ l'.cls_mean_us i)
      × (l.cls_mean_b i ≡ l'.cls_mean_b i)
      × (l.n i ≡ l'.n i)
      × (l.fixed_us i ≡ l'.fixed_us i)
      × (l.slope_us_per_b i ≡ l'.slope_us_per_b i)

  class_alone :
      (l : Learn D) (cfg : CostCfg D) (idx size : ℕ) (cost_us : D)
      → (((idx ≡ 0) ⊎ (idx ≡ 1))
          → SameAt 2 l (observe_class l cfg idx size cost_us)
            × SameAt 3 l (observe_class l cfg idx size cost_us))
        × (((idx ≡ 2) ⊎ (idx ≡ 3))
            → SameAt 0 l (observe_class l cfg idx size cost_us)
              × SameAt 1 l (observe_class l cfg idx size cost_us))
  unfolding observe_class
  class_alone l cfg idx size cost_us = (low, high)
    where
      low :
          ((idx ≡ 0) ⊎ (idx ≡ 1))
          → SameAt 2 l (observe_class l cfg idx size cost_us)
            × SameAt 3 l (observe_class l cfg idx size cost_us)
      low (inl e) = rw e (ground arith)
      low (inr e) = rw e (ground arith)

      high :
          ((idx ≡ 2) ⊎ (idx ≡ 3))
          → SameAt 0 l (observe_class l cfg idx size cost_us)
            × SameAt 1 l (observe_class l cfg idx size cost_us)
      high (inl e) = rw e (ground arith)
      high (inr e) = rw e (ground arith)

  -- A measured send changes nothing that is learned of the other transport.
  pub observe_other :
      (l : Learn D) (cfg : CostCfg D) (size : ℕ) (cost_us : D)
      → SameAt 2 l (observe l cfg uds size cost_us)
        × SameAt 3 l (observe l cfg uds size cost_us)
        × SameAt 0 l (observe l cfg shm size cost_us)
        × SameAt 1 l (observe l cfg shm size cost_us)
  observe_other l cfg size cost_us =
      let u =
        observe_elim (λ l'. SameAt 2 l l' × SameAt 3 l l') l cfg uds size cost_us
          ((refl, refl, refl, refl, refl), (refl, refl, refl, refl, refl))
          ((class_alone l cfg 0 size cost_us).0 (inl refl))
          ((class_alone l cfg 1 size cost_us).0 (inr refl)) in
      let s =
        observe_elim (λ l'. SameAt 0 l l' × SameAt 1 l l') l cfg shm size cost_us
          ((refl, refl, refl, refl, refl), (refl, refl, refl, refl, refl))
          ((class_alone l cfg 2 size cost_us).1 (inl refl))
          ((class_alone l cfg 3 size cost_us).1 (inr refl)) in
      (u.0, u.1, s.0, s.1)

  -- The clamp lands between the limits.
  clamp_range :
      (laws : IsOrdered D) (cfg : CostCfg D) (s : D)
      → dbl.is_finite s ≡ true
      → dbl.is_finite cfg.crossover_min_b ≡ true
      → dbl.is_finite cfg.crossover_max_b ≡ true
      → (cfg.crossover_min_b ≼ cfg.crossover_max_b) ≡ true
      → ((cfg.crossover_min_b ≼ clamp cfg s) ≡ true) × ((clamp cfg s ≼ cfg.crossover_max_b) ≡ true)
  clamp_range laws cfg s fs fl fh order = ground (
    arith,
    laws.le_of_not-lt s cfg.crossover_min_b fs fl,
    laws.le_of_not-lt cfg.crossover_max_b s fh fs,
    laws.le_refl cfg.crossover_min_b fl,
    laws.le_refl cfg.crossover_max_b fh,
  )

  abbrev slope_gap : Learn D → D
  slope_gap l = l.slope_us_per_b 0 ⊖ l.slope_us_per_b 2

  abbrev meeting_point : Learn D → D
  meeting_point l = (l.fixed_us 2 ⊖ l.fixed_us 0) ⊘ slope_gap l

  crossover_first :
      (l : Learn D) (cfg : CostCfg D)
      → (l.crossover_b ≺ real 0) ≡ true
      → is_short l cfg ≡ false
      → (slope_gap l ≼ dbl.num 1 1_000_000_000) ≡ false
      → dbl.is_finite (meeting_point l) ≡ true
      → (crossover l cfg).crossover_b ≡ clamp cfg (meeting_point l)
  unfolding crossover
  crossover_first l cfg new enough gap finite = rw (enough, gap, finite, new) refl

  crossover_kept :
      (l : Learn D) (cfg : CostCfg D)
      → (is_short l cfg ≡ true)
        ⊎ ((slope_gap l ≼ dbl.num 1 1_000_000_000) ≡ true)
        ⊎ (dbl.is_finite (meeting_point l) ≡ false)
      → crossover l cfg ≡ l
  unfolding crossover
  crossover_kept l cfg (inl e) = rw e refl
  crossover_kept l cfg (inr (inl e)) = elim (Bool-cases (is_short l cfg)) [
    | inl f ↦ rw f refl
    | inr f ↦ rw (f, e) refl
  ]
  crossover_kept l cfg (inr (inr e)) = elim (Bool-cases (is_short l cfg)) [
    | inl f ↦ rw f refl
    | inr f ↦ elim (Bool-cases (slope_gap l ≼ dbl.num 1 1_000_000_000)) [
      | inl g ↦ rw (f, g) refl
      | inr g ↦ rw (f, g, e) refl
    ]
  ]

  -- While no crossover has been learned, a refresh either changes nothing or learns one between the
  -- limits of the configuration, and that only when all four classes have their samples. The limits are
  -- finite and in order.
  pub crossover_range :
      (laws : IsOrdered D) (l : Learn D) (cfg : CostCfg D)
      → dbl.is_finite cfg.crossover_min_b ≡ true
      → dbl.is_finite cfg.crossover_max_b ≡ true
      → (cfg.crossover_min_b ≼ cfg.crossover_max_b) ≡ true
      → (l.crossover_b ≺ real 0) ≡ true
      → (crossover l cfg ≡ l)
        ⊎ ((is_short l cfg ≡ false)
            × ((cfg.crossover_min_b ≼ (crossover l cfg).crossover_b) ≡ true)
            × (((crossover l cfg).crossover_b ≼ cfg.crossover_max_b) ≡ true))
  crossover_range laws l cfg fl fh order new = elim (Bool-cases (is_short l cfg)) [
    | inl few ↦ inl (crossover_kept l cfg (inl few))
    | inr enough ↦ elim (Bool-cases (slope_gap l ≼ dbl.num 1 1_000_000_000)) [
      | inl flat ↦ inl (crossover_kept l cfg (inr (inl flat)))
      | inr gap ↦ elim (Bool-cases (dbl.is_finite (meeting_point l))) [
        | inr wild ↦ inl (crossover_kept l cfg (inr (inr wild)))
        | inl finite ↦
            let (lo, hi) = clamp_range laws cfg (meeting_point l) finite fl fh order in
            rw (crossover_first l cfg new enough gap finite) (inr (enough, lo, hi))
      ]
    ]
  ]
