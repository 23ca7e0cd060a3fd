-- ===== src/Router/Queries.antt =====
-- src/adapt_ipc.c: the queries and `adapt_shutdown`, on a context that is not null.
use adaptipc.Base.{ℕ, ◌&&◌, Option, none, some, List, [], if◌then◌else◌, add64}
use adaptipc.Double.{Double, real}
use adaptipc.Health.{State}
use adaptipc.Cost.Types.{Route, Policy, Decision}
use adaptipc.Cost.Context as Context
use adaptipc.Cost.Log as Log
use adaptipc.World.{World}
use adaptipc.Uds.Open.{uds_close}
use adaptipc.Router.Types.{Stats, Ctx, ring_close, is_producer}
use adaptipc.Router.Classify.{is_mapped, ring_used, ring_free}

-- `uds_close` on the endpoint, which may be null.
abbrev pub close_uds : Option (List ℕ) → World → World
close_uds none w = w
close_uds (some path) w = uds_close path w

module _ {D : Type 0} ⦃dbl : Double D⦄ where
  abbrev pub get_stats : Ctx D → Stats
  get_stats ctx = ctx.st

  abbrev pub last_route : Ctx D → Route
  last_route ctx = ctx.last_route

  abbrev pub get_ewma : Ctx D → D
  get_ewma ctx = ctx.ewma_size

  abbrev pub shm_used_bytes : Ctx D → ℕ
  shm_used_bytes ctx = ring_used ctx.ring

  abbrev pub shm_capacity : Ctx D → ℕ
  shm_capacity ctx =
      if is_mapped ctx.ring then add64 (ring_used ctx.ring) (ring_free ctx.ring) else 0

  -- The argument `now` is the clock that the prediction reads.
  unfoldable pub predicted_wait_us : Ctx D → ℕ → ℕ → D
  unfolding Context.queue_wait_us
  predicted_wait_us ctx incoming now =
      if is_mapped ctx.ring
      then Context.queue_wait_us (some ctx.rt) incoming (ring_used ctx.ring) now
      else real 0

  abbrev pub get_policy : Ctx D → Policy
  get_policy ctx = ctx.policy

  abbrev pub get_crossover : Ctx D → D
  get_crossover ctx = ctx.learn.crossover_b

  abbrev pub shm_health : Ctx D → State
  shm_health ctx = ctx.health.state

  -- The rows that `adapt_shutdown` leaves in the log file.
  unfoldable pub shutdown_rows : Ctx D → List (Decision D)
  unfolding Log.dump
  shutdown_rows ctx = if ctx.declog.enabled && ctx.declog_path then Log.dump ctx.declog else []

  -- `adapt_shutdown` on a context that is not null: the rows that it writes, and what it leaves of the
  -- endpoint.
  unfoldable pub adapt_shutdown : Ctx D → World → List (Decision D) × World
  unfolding shutdown_rows uds_close ring_close
  adapt_shutdown ctx w =
      (shutdown_rows ctx, close_uds ctx.uds (ring_close ctx.ring (is_producer ctx.role) w))
