-- ===== src/Cost/Decide.antt =====
-- src/cost_model.c: `adapt_policy_decide`. The clock that the queue-wait prediction reads is the
-- argument `clock`; the learned state comes back because FULL_ADAPTIVE refreshes its crossover.
pub mod Size
pub mod Full
use adaptipc.Base.{
  ℕ, Bool, true, false, ◌&&◌, ◌||◌, not, Option, none, some, ltb, leb, if◌then◌else◌,
}
use adaptipc.Double.{Double, ◌≺◌, ◌≼◌}
use adaptipc.Health.{Health}
use adaptipc.Cost.Types.{
  Rtctx, CostCfg, Learn, Decision, Route, Policy, size_only, size_hysteresis, queue_aware,
  full_adaptive, is_policy,
}
use adaptipc.Cost.Learn.{crossover}
use adaptipc.Cost.Decide.Size.{Inputs, size_decision, sticky_decision, queue_decision}
use adaptipc.Cost.Decide.Full.{cost_decision, is_settled}

module _ {ℓ} {D : Type ℓ} ⦃dbl : Double D⦄ where
  -- FULL_ADAPTIVE with a small class that has too few samples.
  abbrev pub is_cold : Option (Learn D) → CostCfg D → Bool
  is_cold none cfg = false
  is_cold (some l) cfg = ltb (l.n 0) cfg.learn_min_samples || ltb (l.n 2) cfg.learn_min_samples

  -- The refresh of the learned crossover, which the very first decision leaves out.
  abbrev pub refreshed : Policy → CostCfg D → Route → Option (Learn D) → Option (Learn D)
  refreshed policy cfg current none = none
  refreshed policy cfg current (some l) =
      if is_policy policy full_adaptive && is_settled current
      then some (crossover l cfg)
      else some l

  -- `adapt_policy_decide`: the decision record, whose `selected` is the result, and the learned state.
  unfoldable pub decide : Inputs D → Option (Learn D) → Decision D × Option (Learn D)
  decide i learn =
      if is_policy i.policy size_only
      then (size_decision i, learn)
      else if is_policy i.policy size_hysteresis
          || (is_policy i.policy full_adaptive && is_cold learn i.cfg)
      then (sticky_decision i, learn)
      else if is_policy i.policy queue_aware
      then (queue_decision i, learn)
      else (cost_decision i learn, refreshed i.policy i.cfg i.current learn)
