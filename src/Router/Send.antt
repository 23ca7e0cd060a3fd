-- ===== src/Router/Send.antt =====
-- src/adapt_ipc.c: the second half of `adapt_send`, and the whole.
use adaptipc.Base.{
  ℕ, Bool, true, false, ◌&&◌, not, Option, none, some, List, [], ◌∷◌, if◌then◌else◌, ◌==◌, add64,
  sub64, length,
}
use adaptipc.Double.{Double, ◌⊘◌, real}
use adaptipc.Base.Errno.{Rc, done, fail, einval, eperm, eagain, econnrefused}
use adaptipc.Ring.{Ring, Segment, bytes_at, push_scatter, park_count}
use adaptipc.Ring.Open.{producer, consumer}
use adaptipc.Ring.Flow.{push_blocking}
use adaptipc.Cost.Types.{Route, undecided, shm, uds, cost_aware, at_least}
use adaptipc.Cost.Context.{ewma}
use adaptipc.Cost.Learn.{observe}
use adaptipc.World.{M, ◌>>=◌, return, now_ns}
use adaptipc.Uds as Uds
use adaptipc.Router.Types.{Ctx, Stats, count, now_if}
use adaptipc.Router.Classify.{Verdict, carry, stop, observe_attempt, classify, admit, negotiate}

-- A blocking push, against the rounds that are left.
unfoldable pub blocking : List Segment → Ring → M (Rc × Ring)
unfolding push_blocking
blocking segs r w = elim (push_blocking segs w.rounds r) [
  | none ↦ none
  | some (rc, r', ws) ↦ some ((rc, r'), record w { rounds = ws })
]

-- A push that blocks only after it was refused for want of space.
abbrev pub or_blocking : List Segment → Rc × Ring → M (Rc × Ring)
or_blocking segs (done n, r) = return (done n, r)
or_blocking segs (fail e, r) = if e == eagain then blocking segs r else return (fail e, r)

unfoldable pub ring_push : Bool → Bool → List Segment → Ring → M (Rc × Ring)
unfolding blocking
ring_push nonblocking measure segs r =
    if nonblocking
    then return (push_scatter r segs)
    else if measure
    then or_blocking segs (push_scatter r segs)
    else blocking segs r

-- The tag and the payload.
abbrev pub framed : List ℕ → List Segment
framed bytes = bytes_at (1 ∷ []) ∷ bytes_at bytes ∷ []

abbrev pub ring_parks : Option Ring → ℕ
ring_parks none = 0
ring_parks (some r) = park_count r

abbrev pub is_done : Rc → Bool
is_done (done n) = true
is_done (fail e) = false

module _ {D : Type 0} ⦃dbl : Double D⦄ where
  -- A push on the ring of the endpoint; a null handle is refused.
  abbrev pub push_on : Ctx D → List Segment → M (Rc × Ctx D)
  push_on ctx segs w = elim ctx.ring [
    | none ↦ some ((fail einval, ctx), w)
    | some r ↦ elim (ring_push ctx.nonblocking_send (at_least ctx.policy cost_aware) segs r w) [
      | none ↦ none
      | some ((rc, r'), w') ↦ some ((rc, record ctx { ring = some r' }), w')
    ]
  ]

  -- What a measured send teaches: the cost model of the transport, and the mean latency.
  unfoldable pub calibrate : Ctx D → Route → ℕ → ℕ → ℕ → Ctx D
  unfolding observe
  calibrate ctx route size from until =
      let us = real (sub64 until from) ⊘ real 1000 in
      record ctx {
        learn = observe ctx.learn ctx.cmcfg route size us;
        rt = record ctx.rt { ewma_latency_us = ewma ctx.alpha us ctx.rt.ewma_latency_us };
      }

  -- `if (t_meas)`: a second reading of the clock, and the calibration.
  unfoldable pub calibrated : Bool → Ctx D → Route → ℕ → ℕ → M (Ctx D)
  unfolding calibrate now_ns
  calibrated true ctx route size t = now_ns >>= λ u. return (calibrate ctx route size t u)
  calibrated false ctx route size t = return ctx

  abbrev pub count_copy : Ctx D → ℕ → ℕ → ℕ → Stats
  count_copy ctx size t0 t1 = record ctx.st {
    send_copy_ns = add64 ctx.st.send_copy_ns (sub64 t1 t0);
    send_copy_bytes = add64 ctx.st.send_copy_bytes (add64 size 1);
  }

  -- The end of a send on the ring: only a push that found no space leaves a retry.
  unfoldable pub end_shm : Rc → Ctx D → Rc × Ctx D
  end_shm (done n) ctx = (done n, record ctx { retry_pending = false })
  end_shm (fail e) ctx = (fail e, record ctx { retry_pending = e == eagain })

  unfoldable pub send_shm : Ctx D → List ℕ → M (Rc × Ctx D)
  unfolding calibrated end_shm now_ns ring_push
  send_shm ctx bytes =
      let size = length bytes in
      let counted = count ctx (record ctx.st { sends_shm = add64 ctx.st.sends_shm 1 }) in
      now_if ctx.stats_on >>= λ t0. now_if (at_least ctx.policy cost_aware) >>= λ t.
      push_on counted (framed bytes) >>= λ (rc, pushed).
      calibrated (not (t == 0)) pushed shm size t >>= λ taught. now_if ctx.stats_on >>= λ t1.
      return (
        end_shm rc (
          count taught (record (count_copy taught size t0 t1) {
            backpressure_parks = ring_parks taught.ring;
          })))

  -- The end of a send by datagram: all but a refused connection drop the retry.
  unfoldable pub end_uds : Rc → Ctx D → Rc × Ctx D
  end_uds (done n) ctx = (done n, record ctx { retry_pending = false })
  end_uds (fail e) ctx =
      (fail e, if e == econnrefused then ctx else record ctx { retry_pending = false })

  unfoldable pub send_uds : Ctx D → List ℕ → M (Rc × Ctx D)
  unfolding calibrated end_uds now_ns Uds.send
  send_uds ctx bytes =
      let size = length bytes in
      let counted = count ctx (record ctx.st { sends_uds = add64 ctx.st.sends_uds 1 }) in
      now_if ctx.stats_on >>= λ t0. now_if (at_least ctx.policy cost_aware) >>= λ t.
      now_if ctx.stats_on >>= λ t1.
      let copied = count counted (count_copy counted size t0 t1) in
      Uds.send (2 ∷ bytes) >>= λ rc.
      calibrated (not (t == 0) && is_done rc) copied uds size t >>= λ taught.
      return (end_uds rc taught)

  -- What is left once the verdict is known.
  unfoldable pub transmit : List ℕ → Verdict × Ctx D → M (Rc × Ctx D)
  unfolding send_shm send_uds
  transmit bytes (stop rc, ctx) = return (rc, ctx)
  transmit bytes (carry shm, ctx) = send_shm ctx bytes
  transmit bytes (carry uds, ctx) = send_uds ctx bytes
  transmit bytes (carry undecided, ctx) = send_uds ctx bytes

  abbrev pub count_send : Route × Ctx D → Route × Ctx D
  count_send (route, ctx) = (route, count ctx (record ctx.st { sends = add64 ctx.st.sends 1 }))

  -- `adapt_send`.
  unfoldable pub adapt_send : Ctx D → List ℕ → M (Rc × Ctx D)
  unfolding transmit negotiate admit classify observe_attempt now_ns
  adapt_send ctx bytes =
      let size = length bytes in
      let checked = now_ns >>= λ now.
      classify (observe_attempt ctx size now) size now >>= λ classified.
      let (route, c) = count_send classified in
      negotiate size (admit c size route) >>= transmit bytes in
      if size == 0
      then return (fail einval, ctx)
      else elim ctx.role [ producer ↦ checked | consumer ↦ return (fail eperm, ctx) ]
