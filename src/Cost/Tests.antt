-- ===== src/Cost/Tests.antt =====
-- The theorems about the cost model, in an arithmetic of signed millionths.
use Prim.{tt}
use adaptipc.Base.{
  ℕ, ◌*◌, ◌-◌, ◌<◌, ◌≡◌, refl, ◌⊎◌, inl, inr, true, false, Option, none, some, List, [], ◌∷◌, arith,
  length, drop, ◌==◌, if◌then◌else◌,
}
use adaptipc.Double.{◌⊕◌, ◌≺◌, ◌≼◌}
use adaptipc.Double.Scaled.{Micro, plus, micro_double}
use adaptipc.Cost.Types.{
  Route, shm, uds, Policy, size_hysteresis, queue_aware, cost_aware, CostCfg, Learn,
}
use adaptipc.Cost.Context.{queue_wait_us, sample}
use adaptipc.Cost.Config.{defaults}
use adaptipc.Cost.Learn.{observe, crossover, is_short}
use adaptipc.Cost.Decide.{decide}
use adaptipc.Cost.Decide.Size.{Inputs, queue_decision}
use adaptipc.Cost.Stability.{switch_cases, routes, band_stable}
use adaptipc.Cost.Calibration.{IsOrdered, crossover_range}
use adaptipc.Cost.Log.{DecLog, log_n, log_all, dump, dump_last}
use adaptipc.Cost.Log as Log
use adaptipc.Cost.Context as Context
use adaptipc.Cost.Learn as Learning

abbrev config : CostCfg Micro
config = defaults

abbrev inputs : Policy → Route → ℕ → ℕ → Inputs Micro
inputs policy current ewma payload = record {
  policy = policy;
  cfg = config;
  rt = some (Context.init 8);
  health = none;
  shm_mapped = true;
  ewma_size = plus (ewma * 1_000_000);
  current = current;
  payload = payload;
  now_ns = 1000;
  clock = 1000;
}

switch_cases_example :
    let i = inputs cost_aware uds 9000 9000 in
    let d = (decide i none).0 in
    ((i.current ≡ uds)
      × (d.selected ≡ shm)
      × ((d.score_shm ≼ d.score_uds) ≡ true)
      × ((d.score_shm ⊕ i.cfg.margin_us ≺ d.score_uds) ≡ true))
    ⊎ ((i.current ≡ shm)
        × (d.selected ≡ uds)
        × ((d.score_shm ≼ d.score_uds) ≡ false)
        × ((d.score_uds ⊕ i.cfg.margin_us ≺ d.score_shm) ≡ true))
    ⊎ ((i.current ≡ uds)
        × (d.selected ≡ uds)
        × (((d.score_shm ≼ d.score_uds) ≡ false)
            ⊎ ((d.score_shm ⊕ i.cfg.margin_us ≺ d.score_uds) ≡ false)))
    ⊎ ((i.current ≡ shm)
        × (d.selected ≡ shm)
        × (((d.score_shm ≼ d.score_uds) ≡ true)
            ⊎ ((d.score_uds ⊕ i.cfg.margin_us ≺ d.score_shm) ≡ false)))
switch_cases_example = switch_cases (inputs cost_aware uds 9000 9000) none (inl refl) (ground arith)

abbrev traffic : List (Inputs Micro × Option (Learn Micro))
traffic =
    (inputs size_hysteresis shm 2000 100, none) ∷ (inputs queue_aware uds 3000 9000, none) ∷ []

band_stable_example : routes shm traffic ≡ shm
band_stable_example =
    band_stable shm traffic (ground arith)
      ((inl refl, (refl, refl)), ((inr (inl refl), (refl, refl)), tt))

abbrev busy : Inputs Micro
busy = record (inputs queue_aware uds 5000 100) {
  rt = some (record (Context.init 8) { ewma_occ_bytes = plus 9_000_000_000_000_000 });
}

busy_stays : (decide busy none).0.selected ≡ uds
unfolding decide queue_decision queue_wait_us adaptipc.Cost.Config.cost_uds defaults Context.init
busy_stays = refl

few_samples : (Context.init {D = Micro} 8).samples < (Context.init {D = Micro} 8).min_samples
unfolding Context.init
few_samples = omega arith

micro-IsOrdered : IsOrdered Micro
micro-IsOrdered = record {
  le_of_not-lt = λ x y fx fy e. ground arith;
  le_refl = λ x fx. ground arith;
}

limits_in_order : (config.crossover_min_b ≼ config.crossover_max_b) ≡ true
unfolding defaults
limits_in_order = refl

-- A hundred samples in each class, by which SHM pays from ten million bytes on.
abbrev learned : Learn Micro
learned = record (Learning.init config) {
  n = λ k. 100;
  fixed_us = λ k. if k == 2 then plus 10_000_000_000_000 else plus 0;
  slope_us_per_b = λ k. if k == 2 then plus 0 else plus 1_000_000;
}

-- The lines meet at ten million bytes, and the limit of 1 MiB is learned.
at_the_limit : (crossover learned config).crossover_b ≡ config.crossover_max_b
unfolding crossover Learning.init defaults
at_the_limit = refl

none_learned : (learned.crossover_b ≺ plus 0) ≡ true
unfolding Learning.init
none_learned = refl

crossover_range_example :
    (crossover learned config ≡ learned)
    ⊎ ((is_short learned config ≡ false)
        × ((config.crossover_min_b ≼ (crossover learned config).crossover_b) ≡ true)
        × (((crossover learned config).crossover_b ≼ config.crossover_max_b) ≡ true))
crossover_range_example =
    crossover_range micro-IsOrdered learned config refl refl limits_in_order none_learned

abbrev history : List ℕ
history = 5 ∷ 6 ∷ 7 ∷ []

dump_last_example :
    dump (log_all (record (Log.init {A = ℕ} 0) { enabled = true }) history)
    ≡ drop (length history - log_n) history
dump_last_example = dump_last 0 history
