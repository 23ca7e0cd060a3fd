-- ===== src/Cost/Context.antt =====
-- src/runtime_context.c: the estimates that the producer keeps, and the predicted queue wait. The
-- clock reading inside the prediction is an argument.
use adaptipc.Base.{
  ℕ, ◌+◌, ◌-◌, Bool, true, false, ◌&&◌, not, Option, none, some, ltb, leb, ◌==◌, if◌then◌else◌,
  word32,
}
use adaptipc.Double.{Double, ◌⊕◌, ◌⊖◌, ◌⊗◌, ◌⊘◌, ◌≺◌, ◌≼◌, real}
use adaptipc.Cost.Types.{Rtctx}

-- ADAPT_DRAIN_STALE_NS.
abbrev pub drain_stale_ns : ℕ
drain_stale_ns = 5_000_000

-- `++samples` up to UINT_MAX.
abbrev pub bump_samples : ℕ → ℕ
bump_samples samples = if ltb samples (word32 - 1) then samples + 1 else samples

module _ {ℓ} {D : Type ℓ} ⦃dbl : Double D⦄ where
  -- ADAPT_DRAIN_FLOOR_BPS.
  abbrev pub drain_floor_bps : D
  drain_floor_bps = real 50_000_000

  -- One step of an exponentially weighted mean, `alpha * x + (1.0 - alpha) * mean`.
  abbrev pub ewma : D → D → D → D
  ewma alpha x mean = alpha ⊗ x ⊕ (real 1 ⊖ alpha) ⊗ mean

  unfoldable pub init : ℕ → Rtctx D
  init min_samples = record {
    ewma_arrival_bps = real 0;
    ewma_drain_bps = real 0;
    ewma_occ_bytes = real 0;
    ewma_latency_us = real 0;
    prev_occ_bytes = real 0;
    last_ns = 0;
    last_drain_ns = 0;
    samples = 0;
    drain_valid = false;
    min_samples = if min_samples == 0 then 8 else min_samples;
  }

  -- The time since the previous sample, or 0 where there is none or the clock has not advanced.
  elapsed : Rtctx D → ℕ → D
  elapsed rc now_ns =
      if not (rc.last_ns == 0) && ltb rc.last_ns now_ns then real (now_ns - rc.last_ns) else real 0

  -- The drain sample, taken only when the queue is shorter than what the previous send left.
  sample_drain : Rtctx D → ℕ → ℕ → D → D → Rtctx D
  sample_drain rc occ_before_push now_ns alpha dt_ns =
      let drained = rc.prev_occ_bytes ⊖ real occ_before_push in
      let seen = real 0 ≺ drained in
      if real occ_before_push ≺ rc.prev_occ_bytes
      then record rc {
        ewma_drain_bps = ewma alpha (drained ⊘ (dt_ns ⊘ real 1_000_000_000)) rc.ewma_drain_bps;
        samples = bump_samples rc.samples;
        drain_valid = if seen then true else rc.drain_valid;
        last_drain_ns = if seen then now_ns else rc.last_drain_ns;
      }
      else rc

  sample_rates : Rtctx D → ℕ → ℕ → ℕ → D → D → Rtctx D
  unfolding sample_drain
  sample_rates rc payload occ_before_push now_ns alpha dt_ns =
      let a = real payload ⊘ (dt_ns ⊘ real 1_000_000_000) in
      if real 0 ≺ dt_ns
      then sample_drain (record rc { ewma_arrival_bps = ewma alpha a rc.ewma_arrival_bps })
          occ_before_push now_ns alpha dt_ns
      else rc

  -- `adapt_rtctx_sample`.
  unfoldable pub sample : Rtctx D → ℕ → ℕ → ℕ → D → Rtctx D
  unfolding elapsed sample_rates
  sample rc payload occ_before_push now_ns alpha =
      let rated = sample_rates rc payload occ_before_push now_ns alpha (elapsed rc now_ns) in
      let occ_a = alpha ⊗ dbl.num 25 100 in
      record rated {
        ewma_occ_bytes = ewma occ_a (real occ_before_push) rated.ewma_occ_bytes;
        prev_occ_bytes = real occ_before_push ⊕ real payload;
        last_ns = now_ns;
      }

  -- A positive drain was observed, and recently.
  abbrev pub is_fresh : Rtctx D → ℕ → Bool
  is_fresh rc now =
      not (rc.last_drain_ns == 0)
      && leb rc.last_drain_ns now
      && ltb (now - rc.last_drain_ns) drain_stale_ns

  abbrev pub is_reliable : Option (Rtctx D) → ℕ → Bool
  is_reliable none now = false
  is_reliable (some rc) now = leb rc.min_samples rc.samples && rc.drain_valid && is_fresh rc now

  drain_rate : Option (Rtctx D) → ℕ → D
  drain_rate none now = real 0
  drain_rate (some rc) now = if is_reliable (some rc) now then rc.ewma_drain_bps else real 0

  -- `adapt_rtctx_queue_wait_us`.
  unfoldable pub queue_wait_us : Option (Rtctx D) → ℕ → ℕ → ℕ → D
  unfolding drain_rate
  queue_wait_us rc incoming occ_bytes now =
      let bytes = real occ_bytes in
      let rate = drain_rate rc now in
      let used = if rate ≼ drain_floor_bps then drain_floor_bps else rate in
      let us = bytes ⊘ used ⊗ real 1_000_000 in
      if bytes ≼ real 0 then real 0 else if dbl.is_finite us then us else real 0
