-- ===== src/Cost/Decide/Size.antt =====
-- The branches of `adapt_policy_decide` that go by the smoothed size: SIZE_ONLY, SIZE_HYSTERESIS with
-- the cold start of FULL_ADAPTIVE, and QUEUE_AWARE.
use adaptipc.Base.{ℕ, Bool, true, false, ◌&&◌, Option, none, some, leb, add64, if◌then◌else◌}
use adaptipc.Double.{Double, ◌⊕◌, ◌≺◌, ◌≼◌, real}
use adaptipc.Health.{Health}
use adaptipc.Cost.Types.{
  Rtctx, CostCfg, Decision, Route, undecided, shm, uds, same_route, Policy, size_hysteresis,
  queue_aware, full_adaptive, is_policy, at_least, no_reason, threshold, hysteresis, cold_start,
  health_escape, queue_pressure,
}
use adaptipc.Cost.Context.{queue_wait_us}
use adaptipc.Cost.Config.{cost_uds, cost_shm}

-- The arguments of `adapt_policy_decide`, but for the learned state.
pub record Inputs {ℓ} (D : Type ℓ) : Type ℓ where
  pub policy : Policy
  pub cfg : CostCfg D
  pub rt : Option (Rtctx D)
  pub health : Option Health
  pub shm_mapped : Bool
  pub ewma_size : D
  pub current : Route
  pub payload : ℕ
  pub now_ns : ℕ
  pub clock : ℕ

-- UDS_MAX_DGRAM, and the test that a payload with its tag fits a datagram.
abbrev pub max_dgram : ℕ
max_dgram = 4096

abbrev pub fits_uds : ℕ → Bool
fits_uds payload = leb (add64 payload 1) max_dgram

-- Inside the band the route stays: SHM if it was SHM, else UDS.
abbrev pub keep : Route → Route
keep shm = shm
keep _ = uds

module _ {ℓ} {D : Type ℓ} ⦃dbl : Double D⦄ where
  -- ADAPT_TAU_LOW and ADAPT_TAU_HIGH.
  abbrev pub tau_low : D
  tau_low = real 1024

  abbrev pub tau_high : D
  tau_high = real 4096

  -- `memset` and the three fields set first.
  abbrev pub blank : Inputs D → Decision D
  blank i = record {
    seq = 0;
    ts_ns = i.now_ns;
    payload = i.payload;
    occ_bytes = real 0;
    current = i.current;
    selected = undecided;
    cost_uds = real 0;
    cost_shm = real 0;
    queue_wait_shm_us = real 0;
    switch_cost_us = real 0;
    setup_cost_us = real 0;
    health_penalty_us = real 0;
    latency_penalty_us = real 0;
    score_uds = real 0;
    score_shm = real 0;
    reason = no_reason;
  }

  -- The two costs, which these policies also store as scores.
  abbrev pub priced : Inputs D → D → Decision D → Decision D
  priced i queue_wait d =
      let u = cost_uds i.cfg i.payload in
      let s = cost_shm i.cfg i.payload queue_wait (real 0) i.shm_mapped in
      record d { cost_uds = u; cost_shm = s; score_uds = u; score_shm = s }

  unfoldable pub size_decision : Inputs D → Decision D
  size_decision i = priced i (real 0) (record (blank i) {
    selected = if tau_high ≼ i.ewma_size then shm else uds;
    reason = threshold;
  })

  unfoldable pub size_route : D → Route → Route
  size_route ewma_size current =
      if tau_high ≼ ewma_size then shm else if ewma_size ≼ tau_low then uds else keep current

  -- The predicted wait behind the smoothed occupancy.
  abbrev pub smoothed_occ : Option (Rtctx D) → ℕ
  smoothed_occ none = 0
  smoothed_occ (some rc) = dbl.to_size rc.ewma_occ_bytes

  abbrev pub predicted_wait : Inputs D → D
  predicted_wait i = queue_wait_us i.rt i.payload (smoothed_occ i.rt) i.clock

  -- `health && shm_mapped`.
  abbrev pub penalty_of : CostCfg D → Option Health → Bool → D
  penalty_of cfg none shm_mapped = real 0
  penalty_of cfg (some h) shm_mapped = if shm_mapped then cfg.health_penalty_us h.state else real 0

  -- The wait, with a penalty, is worth leaving the ring, and the datagram can carry the message.
  abbrev pub escapes : Inputs D → D → Bool
  escapes i wait = (cost_uds i.cfg i.payload ⊕ i.cfg.switch_cost_us ≺ wait) && fits_uds i.payload

  -- The cold-start escape from SHM, taken only with a runtime context at or above the high threshold.
  cold_escape : Inputs D → Decision D → Decision D
  cold_escape i d =
      let q = predicted_wait i in
      let hp = penalty_of i.cfg i.health i.shm_mapped in
      let left =
        if escapes i (q ⊕ hp)
        then record d {
          selected = uds;
          reason = if real 0 ≺ hp then health_escape else queue_pressure;
        }
        else d in
      record left { queue_wait_shm_us = q; health_penalty_us = hp }

  abbrev pub is_some : Option (Rtctx D) → Bool
  is_some none = false
  is_some (some rc) = true

  unfoldable pub sticky_decision : Inputs D → Decision D
  unfolding size_route cold_escape
  sticky_decision i =
      let r = size_route i.ewma_size i.current in
      let d = record (blank i) {
        selected = r;
        reason = if is_policy i.policy size_hysteresis then hysteresis else cold_start;
      } in
      let escaped =
        if is_policy i.policy full_adaptive
          && is_some i.rt
          && same_route r shm
          && (tau_high ≼ i.ewma_size)
        then cold_escape i d
        else d in
      priced i escaped.queue_wait_shm_us escaped

  -- The queue wait that QUEUE_AWARE and the modes above it charge.
  abbrev pub charged_wait : Inputs D → D
  charged_wait i = if at_least i.policy queue_aware then predicted_wait i else real 0

  unfoldable pub queue_route : Inputs D → D → Route
  unfolding size_route
  queue_route i q_shm =
      if tau_high ≼ i.ewma_size
      then (if escapes i q_shm then uds else shm)
      else size_route i.ewma_size i.current

  unfoldable pub queue_decision : Inputs D → Decision D
  unfolding queue_route
  queue_decision i =
      let q_shm = charged_wait i in
      let r = queue_route i q_shm in
      priced i q_shm (record (blank i) {
        occ_bytes = real (smoothed_occ i.rt);
        queue_wait_shm_us = q_shm;
        selected = r;
        reason =
            if same_route r uds && (tau_high ≼ i.ewma_size) then queue_pressure else hysteresis;
      })
