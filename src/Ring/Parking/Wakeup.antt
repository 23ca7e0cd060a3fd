-- ===== src/Ring/Parking/Wakeup.antt =====
-- No wakeup is lost, where stores reach memory in order: a sleeping producer leaves the consumer
-- something to do, and what the consumer does ends the sleep.
use adaptipc.Base.{ℕ, suc, ◌+◌, ◌*◌, ◌^◌, ◌≤◌, ◌<◌, ◌≡◌, refl, ◌≢◌, ◌⊎◌, inl, inr, arith, sub64}
use native.Mathlib.Decide.{dec_lt}
use adaptipc.Ring.Parking.{
  interleaved, System, used, low, Producer, asleep, loading, outside, arming, rechecking, disarming,
  parking, calling, Consumer, resting, reloading, exchanging, waking, loaded, popped, Consume, load,
  skip, reload, too_long, take, plenty, drained, nobody, claim, wake, Reach,
}
use adaptipc.Ring.Parking.Inv.{IsChecking, Inv, Consume-Inv, Reach-Inv}

-- A step of a consumer whose buffer takes the record.
abbrev pub Takes : {cap : ℕ} {s t : System} → Consume cap s t → Type 0
Takes (too_long h a e) = ⊥
Takes _ = Unit

-- Steps of the consumer alone.
pub data Run (cap : ℕ) (s : System) : ℕ → System → Type 0 where
  stop : Run cap s 0 s
  more :
      {k : ℕ} {t u : System} → Run cap s k t → (m : Consume cap t u) → Takes m → Run cap s (suc k) u

-- What the consumer can still do before it is out of work: five steps for each byte, and the rest of
-- the call that it is in.
abbrev phase : Consumer → ℕ
phase resting = 3
phase (loaded h) = 2
phase reloading = 3
phase (popped h) = 6
phase exchanging = 5
phase waking = 4

abbrev measure : System → ℕ
measure s = 5 * used s + phase s.consumer

module _ {cap : ℕ} (page : 4096 ≤ cap) (small : cap ≤ 2 ^ 31) where
  step-lt : {s t : System} (m : Consume cap s t) → Takes m → Inv cap s → measure t < measure s
  step-lt (load a b e) k i = ground arith
  step-lt (skip h n a b c e) k i = ground arith
  step-lt (reload a e) k i = ground arith
  step-lt (too_long h a e) k i = absurd k
  step-lt (take h n a b c e) k i = ground arith
  step-lt (plenty h a b e) k i = ground arith
  step-lt (drained h a b e) k i = ground arith
  step-lt (nobody a b e) k i = ground arith
  step-lt (claim a b e) k i = ground arith
  step-lt (wake a e) k i = ground arith

  can_step :
      (s : System) (c : Consumer)
      → s.consumer ≡ c
      → Inv cap s
      → s.producer ≡ asleep
      → (t : System) × (m : Consume cap s t) × Takes m
  can_step s resting e i a = (_, load e (ground arith) refl, tt)
  can_step s (loaded h) e i a = (_, take h (sub64 h s.tail) e (ground arith) (omega arith) refl, tt)
  can_step s reloading e i a = (_, reload e refl, tt)
  can_step s (popped h) e i a = elim (dec_lt (sub64 h s.tail) (low cap)) [
    | yes l ↦ (_, drained h e l refl, tt)
    | no l ↦ (_, plenty h e (omega arith) refl, tt)
  ]
  can_step s exchanging e i a = (_, claim e (ground arith) refl, tt)
  can_step s waking e i a = (_, wake e refl, tt)

  -- Where the producer's stores reach memory in order, and on a capacity from one page to 2 ^ 31, a
  -- sleeping producer is never left alone, whatever the two sides have done: the ring holds bytes, or
  -- the consumer has still to look at the flag, or it is about to wake the producer. In each case the
  -- consumer has a step to make.
  pub no_lost_wakeup :
      (s : System)
      → Reach interleaved cap s
      → s.producer ≡ asleep
      → ((0 < used s) ⊎ IsChecking s.consumer ⊎ (s.consumer ≡ waking))
        × ((t : System) × (m : Consume cap s t) × Takes m)
  no_lost_wakeup s r a =
      let i = Reach-Inv page small r in (ground (arith, i.guarded), can_step s s.consumer refl i a)

  Run-Inv : {s t : System} {k : ℕ} → Run cap s k t → Inv cap s → Inv cap t
  Run-Inv stop i = i
  Run-Inv (more r m y) i = Consume-Inv page small m (Run-Inv r i)

  Run-bound : {s t : System} {k : ℕ} → Run cap s k t → Inv cap s → measure t + k ≤ measure s
  Run-bound stop i = omega arith
  Run-bound (more r m y) i = omega (arith, Run-bound r i, step-lt m y (Run-Inv r i))

  -- Where the producer's stores reach memory in order, and on a capacity from one page to 2 ^ 31, those
  -- steps end the sleep: a consumer that goes on taking records, from any state that the two can reach,
  -- makes no more than five steps for each byte in the ring and six more, and until the producer is
  -- awake it always has another one to make.
  pub sleep_ends :
      (s t : System) (k : ℕ)
      → Reach interleaved cap s
      → Run cap s k t
      → (k ≤ 5 * used s + 6)
        × ((t.producer ≢ asleep) ⊎ ((u : System) × (m : Consume cap t u) × Takes m))
  sleep_ends s t k r run =
      let i = Reach-Inv page small r in (ground (arith, Run-bound run i), awake_or t.producer refl)
    where
      awake_or :
          (p : Producer)
          → t.producer ≡ p
          → (t.producer ≢ asleep) ⊎ ((u : System) × (m : Consume cap t u) × Takes m)
      awake_or asleep e = inr (can_step t t.consumer refl (Run-Inv run (Reach-Inv page small r)) e)
      awake_or outside e = inl (ground arith)
      awake_or loading e = inl (ground arith)
      awake_or arming e = inl (ground arith)
      awake_or rechecking e = inl (ground arith)
      awake_or disarming e = inl (ground arith)
      awake_or parking e = inl (ground arith)
      awake_or calling e = inl (ground arith)
