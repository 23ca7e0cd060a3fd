-- ===== src/Cost/Stability.antt =====
-- When a decision changes the route.
use adaptipc.Base.{
  ◌≡◌, ◌≢◌, refl, ap, ◌∙◌, ◌⊎◌, inl, inr, true, false, Option, List, [], ◌∷◌, arith, All,
}
use adaptipc.Double.{Double, ◌⊕◌, ◌≺◌, ◌≼◌}
use adaptipc.Cost.Types.{
  Route, undecided, shm, uds, size_hysteresis, queue_aware, cost_aware, full_adaptive, Learn,
  Decision,
}
use adaptipc.Cost.Decide.{decide, is_cold}
use adaptipc.Cost.Decide.Size.{
  Inputs, sticky_decision, queue_decision, size_decision, size_route, tau_low, tau_high, keep,
  fits_uds,
}
use adaptipc.Cost.Decide.Full.{cost_decision, costs, scores, choose}

keep_settled : (r : Route) → r ≢ undecided → keep r ≡ r
keep_settled undecided h = absurd (h refl)
keep_settled shm h = refl
keep_settled uds h = refl

module _ {ℓ} {D : Type ℓ} ⦃dbl : Double D⦄ where
  -- The policies that compare costs: COST_AWARE, and FULL_ADAPTIVE once its small classes have samples.
  abbrev pub ComparesCosts : Inputs D → Option (Learn D) → Type 0
  ComparesCosts i learn =
      (i.policy ≡ cost_aware) ⊎ ((i.policy ≡ full_adaptive) × (is_cold learn i.cfg ≡ false))

  decide-cost :
      (i : Inputs D) (learn : Option (Learn D))
      → ComparesCosts i learn
      → (decide i learn).0 ≡ cost_decision i learn
  unfolding decide
  decide-cost i learn (inl e) = rw e refl
  decide-cost i learn (inr (e, c)) = rw (e, c) refl

  -- The route after a decision, from the two scores and the margin.
  abbrev Outcome : (current selected : Route) → (score_uds score_shm margin : D) → Type 0
  Outcome current selected score_uds score_shm margin =
      ((current ≡ uds)
        × (selected ≡ shm)
        × ((score_shm ≼ score_uds) ≡ true)
        × ((score_shm ⊕ margin ≺ score_uds) ≡ true))
      ⊎ ((current ≡ shm)
          × (selected ≡ uds)
          × ((score_shm ≼ score_uds) ≡ false)
          × ((score_uds ⊕ margin ≺ score_shm) ≡ true))
      ⊎ ((current ≡ uds)
          × (selected ≡ uds)
          × (((score_shm ≼ score_uds) ≡ false) ⊎ ((score_shm ⊕ margin ≺ score_uds) ≡ false)))
      ⊎ ((current ≡ shm)
          × (selected ≡ shm)
          × (((score_shm ≼ score_uds) ≡ true) ⊎ ((score_uds ⊕ margin ≺ score_shm) ≡ false)))

  choose-Outcome :
      (i : Inputs D) (d : Decision D)
      → i.current ≢ undecided
      → let e = choose i d in Outcome i.current e.selected e.score_uds e.score_shm i.cfg.margin_us
  unfolding choose
  choose-Outcome i d settled = by_current i.current refl
    where
      by_current :
          (r : Route)
          → i.current ≡ r
          → let e = choose i d in
            Outcome i.current e.selected e.score_uds e.score_shm i.cfg.margin_us
      by_current undecided h = absurd (settled h)
      by_current shm h = ground arith
      by_current uds h = ground arith

  -- Where costs are compared and a route is established, the scores of the record decide. From UDS the
  -- route goes to SHM exactly if the score of SHM is at most that of UDS, and with the margin added is
  -- still below it; from SHM it goes to UDS exactly if the score of SHM is not at most that of UDS, and
  -- the score of UDS with the margin added is below that of SHM. Otherwise it stays.
  pub switch_cases :
      (i : Inputs D) (learn : Option (Learn D))
      → ComparesCosts i learn
      → i.current ≢ undecided
      → let d = (decide i learn).0 in
        ((i.current ≡ uds)
          × (d.selected ≡ shm)
          × ((d.score_shm ≼ d.score_uds) ≡ true)
          × ((d.score_shm ⊕ i.cfg.margin_us ≺ d.score_uds) ≡ true))
        ⊎ ((i.current ≡ shm)
            × (d.selected ≡ uds)
            × ((d.score_shm ≼ d.score_uds) ≡ false)
            × ((d.score_uds ⊕ i.cfg.margin_us ≺ d.score_shm) ≡ true))
        ⊎ ((i.current ≡ uds)
            × (d.selected ≡ uds)
            × (((d.score_shm ≼ d.score_uds) ≡ false)
                ⊎ ((d.score_shm ⊕ i.cfg.margin_us ≺ d.score_uds) ≡ false)))
        ⊎ ((i.current ≡ shm)
            × (d.selected ≡ shm)
            × (((d.score_shm ≼ d.score_uds) ≡ true)
                ⊎ ((d.score_uds ⊕ i.cfg.margin_us ≺ d.score_shm) ≡ false)))
  unfolding cost_decision
  switch_cases i learn c settled =
      rw (decide-cost i learn c) (choose-Outcome i (scores i learn (costs i learn)) settled)

  size_route-settled : (e : D) (r : Route) → size_route e r ≢ undecided
  unfolding size_route
  size_route-settled e r = ground arith

  choose-settled : (i : Inputs D) (d : Decision D) → (choose i d).selected ≢ undecided
  unfolding choose
  choose-settled i d = ground arith

  sticky-settled : (i : Inputs D) → (sticky_decision i).selected ≢ undecided
  unfolding sticky_decision
  sticky-settled i = ground arith

  queue-settled : (i : Inputs D) → (queue_decision i).selected ≢ undecided
  unfolding queue_decision
  queue-settled i = ground arith

  size-settled : (i : Inputs D) → (size_decision i).selected ≢ undecided
  unfolding size_decision
  size-settled i = ground arith

  cost-settled :
      (i : Inputs D) (learn : Option (Learn D)) → (cost_decision i learn).selected ≢ undecided
  unfolding cost_decision
  cost-settled i learn = choose-settled i (scores i learn (costs i learn))

  -- Every decision names a transport, the first one included.
  pub decide-settled :
      (i : Inputs D) (learn : Option (Learn D)) → (decide i learn).0.selected ≢ undecided
  unfolding decide
  decide-settled i learn =
      ground (arith, size-settled i, sticky-settled i, queue-settled i, cost-settled i learn)

  -- The smoothed size lies strictly inside the hysteresis band.
  abbrev pub IsInBand : D → Type 0
  IsInBand e = ((tau_high ≼ e) ≡ false) × ((e ≼ tau_low) ≡ false)

  -- The policies that go by the size with hysteresis.
  abbrev pub GoesBySize : Inputs D → Option (Learn D) → Type 0
  GoesBySize i learn =
      (i.policy ≡ size_hysteresis)
      ⊎ (i.policy ≡ queue_aware)
      ⊎ ((i.policy ≡ full_adaptive) × (is_cold learn i.cfg ≡ true))

  sticky_in_band :
      (i : Inputs D) → IsInBand i.ewma_size → (sticky_decision i).selected ≡ keep i.current
  unfolding sticky_decision
  sticky_in_band i h = ground arith

  queue_in_band :
      (i : Inputs D) → IsInBand i.ewma_size → (queue_decision i).selected ≡ keep i.current
  unfolding queue_decision
  queue_in_band i h = ground arith

  -- Size hysteresis, and the cold start of FULL_ADAPTIVE.
  abbrev IsSticky : Inputs D → Option (Learn D) → Type 0
  IsSticky i learn =
      (i.policy ≡ size_hysteresis) ⊎ ((i.policy ≡ full_adaptive) × (is_cold learn i.cfg ≡ true))

  decide-sticky :
      (i : Inputs D) (learn : Option (Learn D))
      → IsSticky i learn
      → (decide i learn).0 ≡ sticky_decision i
  unfolding decide
  decide-sticky i learn (inl e) = rw e refl
  decide-sticky i learn (inr (e, c)) = rw (e, c) refl

  decide-queue :
      (i : Inputs D) (learn : Option (Learn D))
      → i.policy ≡ queue_aware
      → (decide i learn).0 ≡ queue_decision i
  unfolding decide
  decide-queue i learn e = rw e refl

  decide_in_band :
      (i : Inputs D) (learn : Option (Learn D))
      → GoesBySize i learn
      → IsInBand i.ewma_size
      → (decide i learn).0.selected ≡ keep i.current
  decide_in_band i learn (inl e) h = rw (decide-sticky i learn (inl e)) (sticky_in_band i h)
  decide_in_band i learn (inr (inl e)) h = rw (decide-queue i learn e) (queue_in_band i h)
  decide_in_band i learn (inr (inr c)) h = rw (decide-sticky i learn (inr c)) (sticky_in_band i h)

  -- Successive decisions: each starts from the route that the one before it took.
  unfoldable pub routes : Route → List (Inputs D × Option (Learn D)) → Route
  routes r [] = r
  routes r ((i, learn) ∷ rest) = routes (decide (record i { current = r }) learn).0.selected rest

  -- Under the policies that go by size, messages that keep the smoothed size inside the band never
  -- move an established route, however many there are and whatever else changes.
  pub band_stable :
      (r : Route) (sends : List (Inputs D × Option (Learn D)))
      → r ≢ undecided
      → All (λ s. GoesBySize s.0 s.1 × IsInBand s.0.ewma_size) sends
      → routes r sends ≡ r
  unfolding routes
  band_stable r [] settled h = refl
  band_stable r ((i, learn) ∷ rest) settled ((g, b), hs) =
      ap (λ x. routes x rest)
        (decide_in_band (record i { current = r }) learn g b ∙ keep_settled r settled)
      ∙ band_stable r rest settled hs

  sticky_fits :
      (i : Inputs D)
      → (tau_high ≼ i.ewma_size) ≡ true
      → (sticky_decision i).selected ≡ uds
      → fits_uds i.payload ≡ true
  unfolding sticky_decision
  sticky_fits i h e = ground arith

  queue_fits :
      (i : Inputs D)
      → (tau_high ≼ i.ewma_size) ≡ true
      → (queue_decision i).selected ≡ uds
      → fits_uds i.payload ≡ true
  unfolding queue_decision
  queue_fits i h e = ground arith

  -- Where the smoothed size calls for SHM and a size policy still decides for UDS, the payload with
  -- its tag fits a datagram.
  pub escape_fits :
      (i : Inputs D) (learn : Option (Learn D))
      → GoesBySize i learn
      → (tau_high ≼ i.ewma_size) ≡ true
      → (decide i learn).0.selected ≡ uds
      → fits_uds i.payload ≡ true
  escape_fits i learn (inl p) h e = sticky_fits i h (rw (decide-sticky i learn (inl p)) at e)
  escape_fits i learn (inr (inl p)) h e = queue_fits i h (rw (decide-queue i learn p) at e)
  escape_fits i learn (inr (inr c)) h e = sticky_fits i h (rw (decide-sticky i learn (inr c)) at e)
