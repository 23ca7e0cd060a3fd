-- ===== src/Ring/Parking/Buffered.antt =====
-- What a release store to the flag leaves open: the store may still be on its way while the producer
-- loads the tail again.
use adaptipc.Base.{ℕ, ◌^◌, ◌≤◌, ◌≡◌, refl, [], arith}
use adaptipc.Ring.Parking.{
  buffered, System, used, asleep, resting, publish, enter, full, arm, stay, count, sleep, drain,
  Consume, load, skip, reload, too_long, take, plenty, drained, nobody, claim, wake, Reach,
  at_start, by_producer, by_consumer,
}

module _ {cap : ℕ} (s : System) where
  idle_stuck : (t : System) → s.consumer ≡ resting → s.head ≡ s.tail → ¬ Consume cap s t
  idle_stuck t c e (load a b f) = b e
  idle_stuck t c e (skip h n a b d f) = ground arith
  idle_stuck t c e (reload a f) = ground arith
  idle_stuck t c e (too_long h a f) = ground arith
  idle_stuck t c e (take h n a b d f) = ground arith
  idle_stuck t c e (plenty h a b f) = ground arith
  idle_stuck t c e (drained h a b f) = ground arith
  idle_stuck t c e (nobody a b f) = ground arith
  idle_stuck t c e (claim a b f) = ground arith
  idle_stuck t c e (wake a f) = ground arith

-- With a store buffer, and a capacity from 4096 to 2^31, a wakeup is lost: a state can be reached in
-- which the producer sleeps, its flag is set, the ring is empty, and the consumer is outside
-- `shm_ring_pop` with no step to make.
pub lost_wakeup :
    (cap : ℕ)
    → 4096 ≤ cap
    → cap ≤ 2 ^ 31
    → (s : System) × Reach buffered cap s
      × (s.producer ≡ asleep)
      × (s.flag ≡ 1)
      × (used s ≡ 0)
      × (s.consumer ≡ resting)
      × ((t : System) → ¬ Consume cap s t)
lost_wakeup cap page small =
    let s1 = by_producer at_start (publish cap refl (ground arith) refl) in
    let s2 = by_producer s1 (enter refl refl) in
    let s3 = by_producer s2 (full refl (ground arith) refl) in
    let s4 = by_producer s3 (arm refl refl) in
    let s5 = by_producer s4 (stay refl (ground arith) refl) in
    let s6 = by_consumer s5 (load refl (ground arith) refl) in
    let s7 = by_consumer s6 (take _ cap refl (omega arith) (ground arith) refl) in
    let s8 = by_consumer s7 (drained _ refl (ground arith) refl) in
    let s9 = by_consumer s8 (nobody refl refl refl) in
    let s10 = by_producer s9 (drain 1 [] refl refl) in
    let s11 = by_producer s10 (count refl refl refl) in
    let s12 = by_producer s11 (sleep refl refl refl) in
    (_, s12, refl, refl, ground arith, refl, λ t. idle_stuck _ t refl refl)
