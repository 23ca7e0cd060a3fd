-- ===== src/Showcase/Tests.antt =====
-- A demonstration over a pipe that keeps the last message, and one over the endpoints themselves that
-- ends at the second message.
mod Ends
use adaptipc.Base.{ℕ, ◌≡◌, refl, List, [], leb, if◌then◌else◌, Option, none, some, length, arith}
use adaptipc.Base.Bytes.{u32_bytes}
use adaptipc.Base.Errno.{done}
use adaptipc.Double.Scaled.{Micro, micro_double, plus}
use adaptipc.Cost.Types.{Route, shm, uds}
use adaptipc.Showcase.{Endpoints, Row, Outcome, demonstrate}
use adaptipc.Showcase.Recorded.{recording}

abbrev route_for : ℕ → Route
route_for size = if leb 4096 size then shm else uds

-- The state is the size of the last message.
abbrev pipe : Endpoints Micro ℕ
pipe = record {
  send = λ bytes s. some (done 0, length bytes);
  recv = λ max_size s. some ((done s, []), s);
  last_route = route_for;
  get_ewma = λ s. plus 5_000_000;
  shm_used_bytes = λ s. 0;
  shm_capacity = λ s. 4096;
}

abbrev outcome_of : Option (Outcome Micro × ℕ) → Outcome Micro
outcome_of none = record { exit = 1; rows = []; switches = 0 }
outcome_of (some (out, s)) = out

abbrev piped : Option (Outcome Micro × ℕ)
piped = demonstrate pipe (λ i. i) 6 1 0

is_piped : piped ≡ some (outcome_of piped, 517)
unfolding demonstrate u32_bytes
is_piped = refl

two_switches : (outcome_of piped).switches ≡ 2
unfolding demonstrate u32_bytes
two_switches = refl

abbrev logged : Option (Outcome Micro × (ℕ × List ℕ))
logged = demonstrate (recording pipe) (λ i. i) 6 1 (0, [])
