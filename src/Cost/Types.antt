-- ===== src/Cost/Types.antt =====
-- The types of include/adapt_ipc.h and include/cost_model.h, over an arbitrary `double`.
use adaptipc.Base.{ℕ, Bool, leb, ◌==◌}
use adaptipc.Health.{State}

pub data Route : Type 0 where
  undecided shm uds : Route

abbrev pub route_code : Route → ℕ
route_code undecided = 0
route_code shm = 1
route_code uds = 2

abbrev pub same_route : Route → Route → Bool
same_route r s = route_code r == route_code s

pub data Policy : Type 0 where
  default size_only size_hysteresis queue_aware cost_aware full_adaptive : Policy

abbrev pub rank : Policy → ℕ
rank default = 0
rank size_only = 1
rank size_hysteresis = 2
rank queue_aware = 3
rank cost_aware = 4
rank full_adaptive = 5

-- `p == q` and `p >= q` on the enumerators.
abbrev pub is_policy : Policy → Policy → Bool
is_policy p q = rank p == rank q

abbrev pub at_least : Policy → Policy → Bool
at_least p q = leb (rank q) (rank p)

pub data Qos : Type 0 where
  balanced latency throughput : Qos

abbrev pub qos_code : Qos → ℕ
qos_code balanced = 0
qos_code latency = 1
qos_code throughput = 2

abbrev pub is_qos : Qos → Qos → Bool
is_qos p q = qos_code p == qos_code q

-- `adapt_rtctx_t`.
pub record Rtctx {ℓ} (D : Type ℓ) : Type ℓ where
  pub ewma_arrival_bps : D
  pub ewma_drain_bps : D
  pub ewma_occ_bytes : D
  pub ewma_latency_us : D
  pub prev_occ_bytes : D
  pub last_ns : ℕ
  pub last_drain_ns : ℕ
  pub samples : ℕ
  pub drain_valid : Bool
  pub min_samples : ℕ

-- `adapt_cost_cfg_t`.
pub record CostCfg {ℓ} (D : Type ℓ) : Type ℓ where
  pub uds_fixed_us : D
  pub uds_slope_us_per_b : D
  pub shm_fixed_us : D
  pub shm_slope_us_per_b : D
  pub switch_cost_us : D
  pub margin_us : D
  pub setup_cost_us : D
  pub shm_notify_floor_us : D
  pub shm_active_notify_us : D
  pub health_penalty_us : State → D
  pub qos : Qos
  pub latency_budget_us : D
  pub latency_weight : D
  pub learn_min_samples : ℕ
  pub learn_alpha : D
  pub crossover_min_b : D
  pub crossover_max_b : D

-- `adapt_learn_t`: an array of four is a function of the index.
pub record Learn {ℓ} (D : Type ℓ) : Type ℓ where
  pub cls_mean_us : ℕ → D
  pub cls_mean_b : ℕ → D
  pub n : ℕ → ℕ
  pub fixed_us : ℕ → D
  pub slope_us_per_b : ℕ → D
  pub crossover_b : D
  pub crossover_updates : ℕ

-- The texts that `snprintf_reason` stores.
pub data Reason : Type 0 where
  no_reason : Reason
  threshold hysteresis cold_start health_escape queue_pressure : Reason
  initial_route setup_worthwhile cost_win sticky_margin cost_stable : Reason

-- `adapt_decision_t`.
pub record Decision {ℓ} (D : Type ℓ) : Type ℓ where
  pub seq : ℕ
  pub ts_ns : ℕ
  pub payload : ℕ
  pub occ_bytes : D
  pub current : Route
  pub selected : Route
  pub cost_uds : D
  pub cost_shm : D
  pub queue_wait_shm_us : D
  pub switch_cost_us : D
  pub setup_cost_us : D
  pub health_penalty_us : D
  pub latency_penalty_us : D
  pub score_uds : D
  pub score_shm : D
  pub reason : Reason
