-- ===== src/Ring/Parking/Inv.antt =====
-- The invariant of the parking protocol, where stores reach memory in order.
use adaptipc.Base.{ℕ, ◌^◌, ◌≤◌, ◌<◌, ◌≡◌, ◌⊎◌, [], arith, sub64}
use adaptipc.Ring.Parking.{
  interleaved, System, used, Producer, parking, calling, asleep, Consumer, reloading, exchanging,
  waking, loaded, popped, start, Produce, publish, enter, pass, full, arm, retreat, stay, disarm,
  count, refused, sleep, stir, signal, drain, Consume, load, skip, reload, too_long, take, plenty,
  drained, nobody, claim, wake, Reach, at_start, by_producer, by_consumer,
}

-- The consumer is past its store of the tail and has still to look at the flag.
abbrev pub IsChecking : Consumer → Type 0
IsChecking (popped h) = Unit
IsChecking exchanging = Unit
IsChecking _ = ⊥

-- The head that the consumer has loaded is at most the producer's.
abbrev IsBehind : System → Consumer → Type 0
IsBehind s (loaded h) = (h < 2 ^ 64) × (0 < sub64 h s.tail) × (sub64 h s.tail ≤ used s)
IsBehind s (popped h) = (h < 2 ^ 64) × (sub64 h s.tail ≤ used s)
IsBehind s reloading = 0 < used s
IsBehind s _ = Unit

-- There is something to take, or the consumer will look at the flag.
abbrev pub IsLively : System → Type 0
IsLively s = (0 < used s) ⊎ IsChecking s.consumer

abbrev IsGuarded : System → Producer → Type 0
IsGuarded s parking = (s.flag ≡ 0) ⊎ IsLively s
IsGuarded s calling = (s.flag ≡ 0) ⊎ IsLively s
IsGuarded s asleep = ((s.flag ≡ 1) × IsLively s) ⊎ (s.consumer ≡ waking)
IsGuarded s _ = Unit

pub record Inv (cap : ℕ) (s : System) : Type 0 where
  pub head_word : s.head < 2 ^ 64
  pub tail_word : s.tail < 2 ^ 64
  pub filled : used s ≤ cap
  pub empty_buffer : s.buffer ≡ []
  pub bit : s.flag ≤ 1
  pub behind : IsBehind s s.consumer
  pub guarded : IsGuarded s s.producer

module _ {cap : ℕ} (page : 4096 ≤ cap) (small : cap ≤ 2 ^ 31) where
  Produce-Inv : {s t : System} → Produce interleaved cap s t → Inv cap s → Inv cap t
  Produce-Inv (publish n a b e) i = ground arith
  Produce-Inv (enter a e) i = ground arith
  Produce-Inv (pass a b e) i = ground arith
  Produce-Inv (full a b e) i = ground arith
  Produce-Inv (arm a e) i = ground arith
  Produce-Inv (retreat a b e) i = ground arith
  Produce-Inv (stay a b e) i = ground arith
  Produce-Inv (disarm a e) i = ground arith
  Produce-Inv (count a b e) i = ground arith
  Produce-Inv (refused a b e) i = ground arith
  Produce-Inv (sleep a b e) i = ground arith
  Produce-Inv (stir a e) i = ground arith
  Produce-Inv (signal a e) i = ground arith
  Produce-Inv (drain v rest a e) i = ground arith

  pub Consume-Inv : {s t : System} → Consume cap s t → Inv cap s → Inv cap t
  Consume-Inv (load a b e) i = ground arith
  Consume-Inv (skip h n a b c e) i = ground arith
  Consume-Inv (reload a e) i = ground arith
  Consume-Inv (too_long h a e) i = ground arith
  Consume-Inv (take h n a b c e) i = ground arith
  Consume-Inv (plenty h a b e) i = ground arith
  Consume-Inv (drained h a b e) i = ground arith
  Consume-Inv (nobody a b e) i = ground arith
  Consume-Inv (claim a b e) i = ground arith
  Consume-Inv (wake a e) i = ground arith

  start-Inv : Inv cap start
  start-Inv = ground arith

  pub Reach-Inv : {s : System} → Reach interleaved cap s → Inv cap s
  Reach-Inv at_start = start-Inv
  Reach-Inv (by_producer r m) = Produce-Inv m (Reach-Inv r)
  Reach-Inv (by_consumer r m) = Consume-Inv m (Reach-Inv r)
