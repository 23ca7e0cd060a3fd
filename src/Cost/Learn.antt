-- ===== src/Cost/Learn.antt =====
-- src/cost_model.c: online calibration. Index 0 and 1 are UDS small and large, 2 and 3 SHM small and
-- large.
use adaptipc.Base.{
  ℕ, ◌+◌, ◌-◌, ◌*◌, ◌/◌, ◌%◌, Bool, ◌&&◌, ◌||◌, ltb, leb, ◌==◌, not, word64, if◌then◌else◌, inc32,
}
use adaptipc.Double.{Double, ◌⊕◌, ◌⊖◌, ◌⊗◌, ◌⊘◌, ◌≺◌, ◌≼◌, real}
use adaptipc.Cost.Types.{Learn, CostCfg, Route, undecided, shm, uds}

abbrev pub small_max : ℕ
small_max = 1024

-- A write to one element of an array.
abbrev pub update {ℓ} : {A : Type ℓ} → (ℕ → A) → ℕ → A → ℕ → A
update f i v j = if j == i then v else f j

-- The transport's pair of indices begins at 0 or 2.
abbrev pub lidx : Route → ℕ → ℕ
lidx uds c = c
lidx _ c = 2 + c

-- `n++` up to UINT64_MAX.
abbrev pub bump : ℕ → ℕ
bump n = if ltb n (word64 - 1) then n + 1 else n

module _ {ℓ} {D : Type ℓ} ⦃dbl : Double D⦄ where
  unfoldable pub init : CostCfg D → Learn D
  init cfg = record {
    cls_mean_us = λ i. real 0;
    cls_mean_b = λ i. real 0;
    n = λ i. 0;
    fixed_us = λ i. if ltb i 2 then cfg.uds_fixed_us else cfg.shm_fixed_us;
    slope_us_per_b = λ i. if ltb i 2 then cfg.uds_slope_us_per_b else cfg.shm_slope_us_per_b;
    crossover_b = dbl.minus_one;
    crossover_updates = 0;
  }

  -- The line through the two class means replaces both fits, where it is a sound one.
  refit : Learn D → ℕ → ℕ → D → Learn D
  refit l idx other ds =
      let slope = (l.cls_mean_us idx ⊖ l.cls_mean_us other) ⊘ ds in
      let fixed = l.cls_mean_us idx ⊖ slope ⊗ l.cls_mean_b idx in
      if dbl.is_finite slope && (dbl.num 1 1_000_000 ≺ slope)
      then (if dbl.is_finite fixed && (real 0 ≼ fixed)
          then record l {
            slope_us_per_b = update (update l.slope_us_per_b idx slope) other slope;
            fixed_us = update (update l.fixed_us idx fixed) other fixed;
          }
          else l)
      else l

  -- The means and the count that one measurement leaves.
  abbrev pub measured : Learn D → CostCfg D → ℕ → ℕ → D → Learn D
  measured l cfg idx size cost_us =
      let a = cfg.learn_alpha in
      record l {
        cls_mean_us = update l.cls_mean_us idx (a ⊗ cost_us ⊕ (real 1 ⊖ a) ⊗ l.cls_mean_us idx);
        cls_mean_b = update l.cls_mean_b idx (a ⊗ real size ⊕ (real 1 ⊖ a) ⊗ l.cls_mean_b idx);
        n = update l.n idx (bump (l.n idx));
      }

  unfoldable pub observe_class : Learn D → CostCfg D → ℕ → ℕ → D → Learn D
  unfolding refit
  observe_class l cfg idx size cost_us =
      let l' = measured l cfg idx size cost_us in
      let other = if idx % 2 == 0 then idx + 1 else idx - 1 in
      let base = idx / 2 * 2 in
      let ds = l'.cls_mean_b idx ⊖ l'.cls_mean_b other in
      if leb cfg.learn_min_samples (l'.n base)
        && leb cfg.learn_min_samples (l'.n (base + 1))
        && (real 128 ≺ dbl.fabs ds)
      then refit l' idx other ds
      else l'

  -- `adapt_learn_observe`.
  unfoldable pub observe : Learn D → CostCfg D → Route → ℕ → D → Learn D
  unfolding observe_class
  observe l cfg transport size cost_us =
      let cls = if leb size small_max then 0 else 1 in
      if not (dbl.is_finite cost_us) || (cost_us ≺ real 0) then l else elim transport [
        | undecided ↦ l
        | shm ↦ observe_class l cfg (lidx shm cls) size cost_us
        | uds ↦ observe_class l cfg (lidx uds cls) size cost_us
      ]

  -- One of the four classes has too few samples.
  abbrev pub is_short : Learn D → CostCfg D → Bool
  is_short l cfg =
      ltb (l.n 0) cfg.learn_min_samples
      || ltb (l.n 2) cfg.learn_min_samples
      || ltb (l.n 1) cfg.learn_min_samples
      || ltb (l.n 3) cfg.learn_min_samples

  abbrev pub clamp : CostCfg D → D → D
  clamp cfg s =
      let low = if s ≺ cfg.crossover_min_b then cfg.crossover_min_b else s in
      if cfg.crossover_max_b ≺ low then cfg.crossover_max_b else low

  move_crossover : Learn D → CostCfg D → D → Learn D
  move_crossover l cfg s = record l {
    crossover_b =
        if l.crossover_b ≺ real 0 then s else l.crossover_b ⊕ cfg.learn_alpha ⊗ (s ⊖ l.crossover_b);
    crossover_updates = inc32 l.crossover_updates;
  }

  -- `adapt_learn_crossover`: the learned state, whose `crossover_b` is the result.
  unfoldable pub crossover : Learn D → CostCfg D → Learn D
  unfolding move_crossover
  crossover l cfg =
      let dfs = l.slope_us_per_b 0 ⊖ l.slope_us_per_b 2 in
      let s = (l.fixed_us 2 ⊖ l.fixed_us 0) ⊘ dfs in
      if is_short l cfg
      then l
      else if dfs ≼ dbl.num 1 1_000_000_000
      then l
      else if dbl.is_finite s
      then move_crossover l cfg (clamp cfg s)
      else l
