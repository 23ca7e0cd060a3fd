-- ===== src/Cost/Decide/Full.antt =====
-- The full effective-cost comparison of `adapt_policy_decide`: COST_AWARE and FULL_ADAPTIVE.
use adaptipc.Base.{
  ℕ, ◌-◌, Bool, false, ◌&&◌, not, Option, none, some, ltb, leb, ◌==◌, if◌then◌else◌,
}
use adaptipc.Double.{Double, ◌⊕◌, ◌⊖◌, ◌⊗◌, ◌≺◌, ◌≼◌, real}
use adaptipc.Cost.Types.{
  Rtctx, CostCfg, Learn, Decision, Route, undecided, shm, uds, same_route, full_adaptive, is_policy,
  is_qos, throughput, queue_pressure, initial_route, setup_worthwhile, cost_win, sticky_margin,
  cost_stable,
}
use adaptipc.Cost.Decide.Size.{Inputs, blank, charged_wait, smoothed_occ, penalty_of}

-- ADAPT_ACTIVE_WINDOW_NS.
abbrev pub active_window_ns : ℕ
active_window_ns = 20_000_000

abbrev pub is_settled : Route → Bool
is_settled r = not (same_route r undecided)

module _ {ℓ} {D : Type ℓ} ⦃dbl : Double D⦄ where
  -- `fixed + slope * payload`, learned or prior.
  abbrev pub send_uds : CostCfg D → Option (Learn D) → ℕ → D
  send_uds cfg none payload = cfg.uds_fixed_us ⊕ cfg.uds_slope_us_per_b ⊗ real payload
  send_uds cfg (some l) payload = l.fixed_us 0 ⊕ l.slope_us_per_b 0 ⊗ real payload

  abbrev pub fixed_shm : CostCfg D → Option (Learn D) → D
  fixed_shm cfg none = cfg.shm_fixed_us
  fixed_shm cfg (some l) = l.fixed_us 2

  abbrev pub slope_shm : CostCfg D → Option (Learn D) → D
  slope_shm cfg none = cfg.shm_slope_us_per_b
  slope_shm cfg (some l) = l.slope_us_per_b 2

  -- `consumer_active`.
  abbrev pub is_active : Option (Rtctx D) → ℕ → Bool
  is_active none now_ns = false
  is_active (some rc) now_ns =
      not (rc.last_drain_ns == 0)
      && leb rc.last_drain_ns now_ns
      && ltb (now_ns - rc.last_drain_ns) active_window_ns

  abbrev pub notify : Inputs D → D
  notify i =
      if i.shm_mapped
      then (if is_active i.rt i.now_ns
          then i.cfg.shm_active_notify_us
          else i.cfg.shm_notify_floor_us)
      else real 0

  -- The part of a latency beyond the budget.
  abbrev pub overshoot : CostCfg D → D → D
  overshoot cfg lat = if cfg.latency_budget_us ≺ lat then lat ⊖ cfg.latency_budget_us else real 0

  latency_penalty : CostCfg D → D → D → D
  latency_penalty cfg lat_uds lat_shm =
      let over_uds = overshoot cfg lat_uds in
      let over_shm = overshoot cfg lat_shm in
      if not (is_qos cfg.qos throughput) && (real 0 ≺ cfg.latency_budget_us)
      then cfg.latency_weight ⊗ (if over_shm ≺ over_uds then over_uds else over_shm)
      else real 0

  -- The cost terms, up to the two costs.
  pub costs : Inputs D → Option (Learn D) → Decision D
  costs i learn =
      let q_shm = charged_wait i in
      let hp =
        if is_policy i.policy full_adaptive
        then penalty_of i.cfg i.health i.shm_mapped
        else real 0 in
      let ring = fixed_shm i.cfg learn ⊕ slope_shm i.cfg learn ⊗ real i.payload ⊕ q_shm ⊕ hp in
      record (blank i) {
        occ_bytes = real (smoothed_occ i.rt);
        queue_wait_shm_us = q_shm;
        cost_uds = send_uds i.cfg learn i.payload;
        health_penalty_us = hp;
        setup_cost_us = if i.shm_mapped then real 0 else i.cfg.setup_cost_us;
        cost_shm = if i.shm_mapped then ring else ring ⊕ i.cfg.setup_cost_us;
      }

  -- The scores: the switching cost on the route that is not current, and the latency penalty on the
  -- transport whose predicted latency is the larger.
  pub scores : Inputs D → Option (Learn D) → Decision D → Decision D
  unfolding latency_penalty
  scores i learn d =
      let lat_uds = d.cost_uds in
      let lat_shm =
        d.queue_wait_shm_us
        ⊕ notify i
        ⊕ fixed_shm i.cfg learn
        ⊕ slope_shm i.cfg learn ⊗ real i.payload in
      let penalty = latency_penalty i.cfg lat_uds lat_shm in
      let su = d.cost_uds ⊕ (if same_route i.current uds then real 0 else i.cfg.switch_cost_us) in
      let ss = d.cost_shm ⊕ (if same_route i.current shm then real 0 else i.cfg.switch_cost_us) in
      let charged = real 0 ≺ penalty in
      let on_shm = lat_uds ≺ lat_shm in
      record d {
        latency_penalty_us = penalty;
        switch_cost_us = i.cfg.switch_cost_us;
        score_uds = if charged && not on_shm then su ⊕ penalty else su;
        score_shm = if charged && on_shm then ss ⊕ penalty else ss;
      }

  abbrev pub candidate : Decision D → Route
  candidate d = if d.score_shm ≼ d.score_uds then shm else uds

  abbrev pub score_of : Decision D → Route → D
  score_of d r = if same_route r shm then d.score_shm else d.score_uds

  -- The stability rule.
  unfoldable pub choose : Inputs D → Decision D → Decision D
  choose i d =
      let cand = candidate d in
      if same_route i.current undecided
      then record d { selected = cand; reason = initial_route }
      else if same_route cand i.current
      then record d { selected = i.current; reason = cost_stable }
      else if score_of d cand ⊕ i.cfg.margin_us ≺ score_of d i.current
      then record d {
        selected = cand;
        reason =
            if not i.shm_mapped && same_route cand shm
            then setup_worthwhile
            else if i.cfg.switch_cost_us ≺ d.queue_wait_shm_us
            then queue_pressure
            else cost_win;
      }
      else record d { selected = i.current; reason = sticky_margin }

  unfoldable pub cost_decision : Inputs D → Option (Learn D) → Decision D
  unfolding costs scores choose
  cost_decision i learn = choose i (scores i learn (costs i learn))
