-- ===== src/Router/Classify.antt =====
-- src/adapt_ipc.c: the first half of `adapt_send`, up to the choice of the transport that carries the
-- message.
use adaptipc.Base.{
  ℕ, Bool, true, false, ◌&&◌, not, Option, none, some, if◌then◌else◌, ltb, ◌==◌, add64, sub64,
}
use adaptipc.Double.{Double, real}
use adaptipc.Base.Errno.{Rc, done, fail, emsgsize, eagain, etimedout}
use adaptipc.Health.{update_shm}
use adaptipc.Ring.{Ring, used_bytes, free_bytes}
use adaptipc.Cost.Types.{
  Route, undecided, shm, uds, same_route, cost_aware, full_adaptive, is_policy, at_least, Learn,
  Decision,
}
use adaptipc.Cost.Context.{sample, ewma}
use adaptipc.Cost.Decide.{decide}
use adaptipc.Cost.Decide.Size.{Inputs}
use adaptipc.Cost.Log.{log_record}
use adaptipc.World.{M, ◌>>=◌, return, now_ns}
use adaptipc.Router.Types.{Ctx, count, now_if}
use adaptipc.Router.Negotiate.{producer_ensure_shm}

-- UDS_MAX_DGRAM.
abbrev pub max_dgram : ℕ
max_dgram = 4096

-- A size with its tag byte is too large for a datagram, or for the ring.
abbrev pub over_dgram : ℕ → Bool
over_dgram size = ltb max_dgram (add64 size 1)

abbrev pub is_mapped : Option Ring → Bool
is_mapped none = false
is_mapped (some r) = true

-- `shm_ring_used_bytes` and `shm_ring_free_bytes`, with a null handle.
abbrev pub ring_used : Option Ring → ℕ
ring_used none = 0
ring_used (some r) = used_bytes r

abbrev pub ring_free : Option Ring → ℕ
ring_free none = 0
ring_free (some r) = free_bytes r

-- The route that carries a message, or the result of `adapt_send` at once.
pub data Verdict : Type 0 where
  carry : Route → Verdict
  stop : Rc → Verdict

module _ {D : Type 0} ⦃dbl : Double D⦄ where
  -- The health of the transport, observed where the ring is mapped.
  unfoldable pub observe_health : Ctx D → ℕ → Ctx D
  unfolding update_shm
  observe_health ctx occ =
      let cap = add64 occ (ring_free ctx.ring) in
      let (h, moved) =
        update_shm ctx.health occ cap ctx.rt.drain_valid ctx.rt.ewma_arrival_bps
          ctx.rt.ewma_drain_bps in
      let seen = record ctx { health = h } in
      if is_mapped ctx.ring
      then count seen (record ctx.st { health_transitions = h.transitions })
      else ctx

  -- What every attempt observes, retries included.
  unfoldable pub observe_attempt : Ctx D → ℕ → ℕ → Ctx D
  unfolding observe_health sample
  observe_attempt ctx size now =
      let occ = ring_used ctx.ring in
      observe_health (record ctx { rt = sample ctx.rt size occ now ctx.alpha }) occ

  -- The attempt resumes the message whose route is stored.
  abbrev pub is_retry : Ctx D → ℕ → Bool
  is_retry ctx size =
      ctx.retry_pending
      && (ctx.pending_size == size)
      && not (same_route ctx.pending_route undecided)

  -- The arguments of the decision.
  abbrev pub inputs : Ctx D → ℕ → ℕ → ℕ → Inputs D
  inputs ctx size now clock = record {
    policy = ctx.policy;
    cfg = ctx.cmcfg;
    rt = some ctx.rt;
    health = if is_policy ctx.policy full_adaptive then some ctx.health else none;
    shm_mapped = is_mapped ctx.ring;
    ewma_size = ctx.ewma_size;
    current = ctx.last_route;
    payload = size;
    now_ns = now;
    clock = clock;
  }

  abbrev pub learned : Ctx D → Option (Learn D)
  learned ctx = if at_least ctx.policy cost_aware then some ctx.learn else none

  abbrev keep_learn : Learn D → Option (Learn D) → Learn D
  keep_learn old none = old
  keep_learn old (some l) = l

  -- The decision goes into the log where that is on.
  log_decision : Ctx D → Decision D → Ctx D
  unfolding log_record
  log_decision ctx d =
      let seq = add64 ctx.decision_seq 1 in
      if ctx.declog.enabled
      then record ctx {
        decision_seq = seq;
        declog = log_record ctx.declog (record d { seq = seq });
      }
      else ctx

  -- The counters of a decision.
  count_decision : Ctx D → Route → Ctx D
  count_decision ctx route =
      let st = record ctx.st { decisions = add64 ctx.st.decisions 1 } in
      let switched = record st { route_switches = add64 st.route_switches 1 } in
      count ctx (
        if not (same_route ctx.last_route undecided) && not (same_route route ctx.last_route)
        then switched
        else st)

  -- The decision and what is remembered of it: the decided route, and no retry.
  unfoldable pub settle : Ctx D → ℕ → ℕ → ℕ → Route × Ctx D
  unfolding log_decision count_decision decide
  settle ctx size now clock =
      let (d, l) = decide (inputs ctx size now clock) (learned ctx) in
      let logged = log_decision (record ctx { learn = keep_learn ctx.learn l }) d in
      let counted = count_decision logged d.selected in
      (
        d.selected,
        record counted {
          last_route = d.selected;
          retry_pending = false;
          pending_route = undecided;
        },
      )

  -- A retry keeps its route; any other message moves the smoothed size and is classified. The reading
  -- of the clock that the queue-wait prediction may make is made in each decision.
  unfoldable pub classify : Ctx D → ℕ → ℕ → M (Route × Ctx D)
  unfolding settle now_ns
  classify ctx size now =
      let moved = record ctx { ewma_size = ewma ctx.alpha (real size) ctx.ewma_size } in
      let fresh = now_if ctx.stats_on >>= λ t0. now_if ctx.stats_on >>= λ t1. now_ns >>= λ clock.
      return (
        settle (count moved (record ctx.st { router_ns = add64 ctx.st.router_ns (sub64 t1 t0) }))
          size now clock) in
      if is_retry ctx size then return (ctx.pending_route, ctx) else fresh

  -- The guard rails: what no datagram holds goes to the ring, and what the ring cannot hold is
  -- refused. The route that is left is stored for a retry.
  unfoldable pub admit : Ctx D → ℕ → Route → Verdict × Ctx D
  admit ctx size route =
      let escalates = not (same_route route shm) && over_dgram size in
      let taken = if escalates then shm else route in
      let escalated =
        count ctx (record ctx.st { send_escalations = add64 ctx.st.send_escalations 1 }) in
      let counted = if escalates then escalated else ctx in
      if same_route taken shm && ltb ctx.shm_capacity (add64 size 1)
      then (stop (fail emsgsize), counted)
      else (carry taken, record counted { pending_size = size; pending_route = taken })

  -- Behind a handshake: where it failed, a message that fits a datagram takes one, and another one
  -- has to be tried again.
  unfoldable pub fall_back : ℕ → Rc × Ctx D → Verdict × Ctx D
  fall_back size (done n, ctx) = (carry shm, ctx)
  fall_back size (fail e, ctx) =
      if over_dgram size
      then (stop (fail (if e == etimedout then eagain else e)), record ctx { retry_pending = true })
      else (
        carry uds,
        record (count ctx (record ctx.st { send_escalations = add64 ctx.st.send_escalations 1 })) {
          pending_route = uds;
        },
      )

  -- The first message for the ring starts the handshake.
  unfoldable pub negotiate : ℕ → Verdict × Ctx D → M (Verdict × Ctx D)
  unfolding producer_ensure_shm fall_back now_ns
  negotiate size (stop rc, ctx) = return (stop rc, ctx)
  negotiate size (carry route, ctx) =
      if same_route route shm && not (is_mapped ctx.ring)
      then now_ns >>= (λ t. producer_ensure_shm ctx t >>= λ o. return (fall_back size o))
      else return (carry route, ctx)
