-- ===== src/Ring/Parking/Tests.antt =====
-- The parking protocol on a ring of one page that a producer has filled.
use adaptipc.Base.{◌+◌, ◌*◌, ◌≤◌, ◌<◌, ◌≡◌, refl, ◌≢◌, ◌⊎◌, arith}
use adaptipc.Ring.Parking.{
  interleaved, buffered, System, used, asleep, Consumer, resting, waking, start, publish, enter,
  full, arm, stay, count, sleep, Consume, load, take, Reach, at_start, by_producer,
}
use adaptipc.Ring.Parking.Inv.{IsChecking}
use adaptipc.Ring.Parking.Wakeup.{Takes, Run, stop, more, no_lost_wakeup, sleep_ends}
use adaptipc.Ring.Parking.Buffered.{lost_wakeup}

abbrev sleeping : System
sleeping = record start { head = 4096; flag = 1; parks = 1; producer = asleep }

sleeping-Reach : Reach interleaved 4096 sleeping
sleeping-Reach =
    let s1 = by_producer at_start (publish 4096 refl (omega arith) refl) in
    let s2 = by_producer s1 (enter refl refl) in
    let s3 = by_producer s2 (full refl (omega arith) refl) in
    let s4 = by_producer s3 (arm refl refl) in
    let s5 = by_producer s4 (stay refl (omega arith) refl) in
    let s6 = by_producer s5 (count refl refl refl) in by_producer s6 (sleep refl refl refl)

no_lost_wakeup_example :
    ((0 < used sleeping) ⊎ IsChecking resting ⊎ (resting ≡ waking))
    × ((t : System) × (m : Consume 4096 sleeping t) × Takes m)
no_lost_wakeup_example = no_lost_wakeup (omega arith) (omega arith) sleeping sleeping-Reach refl

-- The consumer takes a record of 100 bytes.
abbrev shorter : System
shorter = record sleeping { tail = 100; consumer = Consumer.popped 4096 }

shorter-Run : Run 4096 sleeping 2 shorter
shorter-Run =
    more (more stop (load refl (omega arith) refl) tt)
      (take 4096 100 refl (omega arith) (omega arith) refl) tt

sleep_ends_example :
    (2 ≤ 5 * used sleeping + 6)
    × ((asleep ≢ asleep) ⊎ ((u : System) × (m : Consume 4096 shorter u) × Takes m))
sleep_ends_example =
    sleep_ends (omega arith) (omega arith) sleeping shorter 2 sleeping-Reach shorter-Run

lost_wakeup_example :
    (s : System) × Reach buffered 4096 s
    × (s.producer ≡ asleep)
    × (s.flag ≡ 1)
    × (used s ≡ 0)
    × (s.consumer ≡ resting)
    × ((t : System) → ¬ Consume 4096 s t)
lost_wakeup_example = lost_wakeup 4096 (omega arith) (omega arith)
