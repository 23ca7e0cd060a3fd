-- ===== src/Cost/Config.antt =====
-- src/cost_model.c: the defaults of the cost model, and the environment variables that override them.
use adaptipc.Base.{ℕ, Option, none, some, u32}
use adaptipc.Double.{Double, real, ◌⊕◌, ◌⊗◌, ◌≺◌}
use adaptipc.Base.{Bool, if◌then◌else◌}
use adaptipc.Health.{State, unavailable, healthy, degraded, blocked, recovering}
use adaptipc.Cost.Types.{CostCfg, balanced}

-- The variables that `adapt_cost_cfg_from_env` reads.
pub data Variable : Type 0 where
  switch_cost margin setup_cost notify_floor latency_budget min_samples alpha : Variable

module _ {ℓ} {D : Type ℓ} ⦃dbl : Double D⦄ where
  abbrev pub default_penalty : State → D
  default_penalty unavailable = real 1_000_000
  default_penalty healthy = real 0
  default_penalty degraded = real 100
  default_penalty blocked = real 1000
  default_penalty recovering = real 25

  -- `adapt_cost_cfg_defaults`.
  unfoldable pub defaults : CostCfg D
  defaults = record {
    uds_fixed_us = real 3;
    uds_slope_us_per_b = dbl.num 15 10_000;
    shm_fixed_us = dbl.num 3 10;
    shm_slope_us_per_b = dbl.num 4 10_000;
    switch_cost_us = real 20;
    margin_us = real 5;
    setup_cost_us = real 52;
    shm_notify_floor_us = real 2000;
    shm_active_notify_us = real 5;
    health_penalty_us = default_penalty;
    qos = balanced;
    latency_budget_us = real 0;
    latency_weight = real 1;
    learn_min_samples = 32;
    learn_alpha = dbl.num 1 10;
    crossover_min_b = real 512;
    crossover_max_b = real 1_048_576;
  }

  -- `env_dbl`, over what `getenv` and `atof` make of each variable.
  abbrev pub env_dbl : Option D → D → D
  env_dbl none cur = cur
  env_dbl (some v) cur = v

  -- `adapt_cost_cfg_from_env`.
  unfoldable pub from_env : (Variable → Option D) → CostCfg D → CostCfg D
  from_env env cfg = record cfg {
    switch_cost_us = env_dbl (env switch_cost) cfg.switch_cost_us;
    margin_us = env_dbl (env margin) cfg.margin_us;
    setup_cost_us = env_dbl (env setup_cost) cfg.setup_cost_us;
    shm_notify_floor_us = env_dbl (env notify_floor) cfg.shm_notify_floor_us;
    latency_budget_us = env_dbl (env latency_budget) cfg.latency_budget_us;
    learn_min_samples = u32 (dbl.to_size (env_dbl (env min_samples) (real cfg.learn_min_samples)));
    learn_alpha = env_dbl (env alpha) cfg.learn_alpha;
  }

  -- `adapt_cost_uds` and `adapt_cost_shm`.
  unfoldable pub cost_uds : CostCfg D → ℕ → D
  cost_uds cfg size = cfg.uds_fixed_us ⊕ cfg.uds_slope_us_per_b ⊗ real size

  unfoldable pub cost_shm : CostCfg D → ℕ → D → D → Bool → D
  cost_shm cfg size queue_wait_us health_penalty_us shm_mapped =
      let base = cfg.shm_fixed_us ⊕ cfg.shm_slope_us_per_b ⊗ real size in
      let waiting = if real 0 ≺ queue_wait_us then base ⊕ queue_wait_us else base in
      let ailing = if real 0 ≺ health_penalty_us then waiting ⊕ health_penalty_us else waiting in
      if shm_mapped then ailing else ailing ⊕ cfg.setup_cost_us
