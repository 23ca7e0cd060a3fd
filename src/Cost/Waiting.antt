-- ===== src/Cost/Waiting.antt =====
-- The runtime context: what a sample keeps, and when the predicted wait trusts the drain estimate.
use adaptipc.Base.{ℕ, ◌+◌, ◌≤◌, ◌<◌, ◌^◌, ◌≡◌, refl, ◌⊎◌, false, none, some, arith}
use adaptipc.Double.{Double}
use adaptipc.Cost.Types.{Rtctx}
use adaptipc.Cost.Context.{init, sample, queue_wait_us, is_reliable, drain_stale_ns}

module _ {ℓ} {D : Type ℓ} ⦃dbl : Double D⦄ where
  -- The drain estimate cannot be trusted at `now`: too few samples, no drain seen, or none seen in the
  -- 5 ms before, or by a clock that is behind.
  abbrev pub IsUnsure : Rtctx D → ℕ → Type 0
  IsUnsure rc now =
      (rc.samples < rc.min_samples)
      ⊎ (rc.drain_valid ≡ false)
      ⊎ (rc.last_drain_ns ≡ 0)
      ⊎ (now < rc.last_drain_ns)
      ⊎ (rc.last_drain_ns + drain_stale_ns ≤ now)

  -- Then the predicted wait is the one for a consumer of which nothing is known, for any payload and
  -- occupancy.
  pub unsure_wait :
      (rc : Rtctx D) (incoming occ_bytes now : ℕ)
      → IsUnsure rc now
      → queue_wait_us (some rc) incoming occ_bytes now ≡ queue_wait_us none incoming occ_bytes now
  unfolding queue_wait_us
  unsure_wait rc incoming occ_bytes now h = rw (distrusted rc now h) refl
    where
      distrusted : (rc : Rtctx D) (now : ℕ) → IsUnsure rc now → is_reliable (some rc) now ≡ false
      distrusted rc now h = ground arith

  pub record IsValid (rc : Rtctx D) : Type 0 where
    pub drain_past : rc.last_drain_ns ≤ rc.last_ns
    pub word : rc.samples < 2 ^ 32
    pub some_wanted : 0 < rc.min_samples
    pub counted : (rc.drain_valid ≡ false) ⊎ (0 < rc.samples)

  pub init-IsValid : (min_samples : ℕ) → IsValid (init min_samples)
  unfolding init
  init-IsValid min_samples = ground arith

  -- Sampling with a clock that does not run backwards keeps the context valid: the last drain lies
  -- in the past, the count of samples fits 32 bits, and a drain that was seen was counted.
  pub sample-IsValid :
      (rc : Rtctx D) (payload occ now_ns : ℕ) (alpha : D)
      → rc.last_ns ≤ now_ns
      → IsValid rc
      → IsValid (sample rc payload occ now_ns alpha)
  unfolding sample
  sample-IsValid rc payload occ now_ns alpha h v = ground arith
