-- ===== src/Router/Recv.antt =====
-- src/adapt_ipc.c: `adapt_recv` and `adapt_recv_uds_timeout`. A result comes with the bytes that it
-- delivers. What the producer pushes meanwhile comes from the world: the records that arrive before
-- each poll of the ring.
use adaptipc.Base.{
  ℕ, zero, suc, ◌+◌, ◌-◌, Bool, true, false, Option, none, some, List, [], ◌∷◌, if◌then◌else◌, ltb,
  ◌==◌, add64, sub64, length, drop, get_or,
}
use adaptipc.Base.Errno.{Rc, done, fail, einval, eperm, emsgsize, eagain}
use adaptipc.Ring.{Ring, push, pop}
use adaptipc.Ring.Open.{producer, consumer}
use adaptipc.World.{M, ◌>>=◌, return}
use adaptipc.Uds as Uds
use adaptipc.Router.Types.{Ctx, count, now_if}
use adaptipc.Router.Negotiate.{handle_control, tag_ctrl}

-- ADAPT_UDS_POLL_MS.
abbrev pub uds_poll_ms : ℕ
uds_poll_ms = 2

-- The producer's pushes.
unfoldable pub arrive : Ring → List (List ℕ) → Ring
arrive r [] = r
arrive r (m ∷ ms) = arrive (push r m).1 ms

-- The payload behind the tag, where it fits the caller's buffer.
abbrev pub payload : ℕ → List ℕ → Rc × List ℕ
payload max_size frame =
    if ltb max_size (length frame - 1)
    then (fail emsgsize, [])
    else (done (length frame - 1), drop 1 frame)

abbrev pub is_delivered : Rc × List ℕ → Bool
is_delivered (done n, bytes) = true
is_delivered (fail e, bytes) = false

module _ {D : Type 0} where
  -- One poll of the ring, where there is one.
  unfoldable pub poll_ring : Ctx D → List (List ℕ) → Option (Rc × List ℕ × Ctx D)
  unfolding arrive
  poll_ring ctx ms = elim ctx.ring [
    | none ↦ some (fail eagain, [], ctx)
    | some r ↦ elim (pop (arrive r ms) ctx.rxbuf_cap) [
      | none ↦ none
      | some (rc, frame, r') ↦ some (rc, frame, record ctx { ring = some r' })
    ]
  ]

  -- The counters of a delivery.
  unfoldable pub count_shm : Ctx D → ℕ → Ctx D
  count_shm ctx tmo =
      let st = record ctx.st { recv_msgs = add64 ctx.st.recv_msgs 1 } in
      count ctx (
        if ltb 0 tmo
        then record st { rx_shm_later = add64 st.rx_shm_later 1 }
        else record st { rx_shm_first = add64 st.rx_shm_first 1 })

  unfoldable pub count_uds : Ctx D → ℕ → Ctx D
  count_uds ctx tmo =
      let st = record ctx.st { recv_msgs = add64 ctx.st.recv_msgs 1 } in
      count ctx (
        if ltb 0 tmo
        then record st { rx_uds_later = add64 st.rx_uds_later 1 }
        else record st { rx_uds_prompt = add64 st.rx_uds_prompt 1 })

  -- No message in this round: the next one counts a timeout, where counters are kept.
  unfoldable pub idle_round :
      (Ctx D → ℕ → M ((Rc × List ℕ) × Ctx D)) → Ctx D → ℕ → M ((Rc × List ℕ) × Ctx D)
  idle_round again ctx tmo =
      again (count ctx (record ctx.st { poll_timeouts = add64 ctx.st.poll_timeouts 1 }))
        (if ctx.stats_on then tmo + 1 else tmo)

  -- What the datagram side of a round leads to.
  unfoldable pub from_uds :
      (Ctx D → ℕ → M ((Rc × List ℕ) × Ctx D))
      → Ctx D
      → ℕ
      → ℕ
      → Rc × List ℕ
      → M ((Rc × List ℕ) × Ctx D)
  unfolding idle_round count_uds handle_control
  from_uds again ctx max_size tmo (fail e, frame) =
      if e == eagain then idle_round again ctx tmo else return ((fail e, []), ctx)
  from_uds again ctx max_size tmo (done n, frame) =
      let out = payload max_size frame in
      if n == 0
      then return ((done 0, []), ctx)
      else if n == 1
      then idle_round again ctx tmo
      else if get_or frame 0 1 == tag_ctrl
      then handle_control ctx frame >>= (λ c. again c 0)
      else return (out, if is_delivered out then count_uds ctx tmo else ctx)

  -- A round: the ring first, then the socket for a short while.
  unfoldable pub from_ring :
      (Ctx D → ℕ → M ((Rc × List ℕ) × Ctx D))
      → ℕ
      → ℕ
      → Option (Rc × List ℕ × Ctx D)
      → M ((Rc × List ℕ) × Ctx D)
  unfolding from_uds count_shm Uds.recv_timeout
  from_ring again max_size tmo none w = none
  from_ring again max_size tmo (some (done n, frame, ctx)) w =
      let out = payload max_size frame in
      if n == 0
      then some (((done 0, []), ctx), w)
      else some ((out, if is_delivered out then count_shm ctx tmo else ctx), w)
  from_ring again max_size tmo (some (fail e, frame, ctx)) w =
      let polled = now_if ctx.stats_on >>= λ t0.
      Uds.recv_timeout ctx.rxbuf_cap uds_poll_ms >>= λ got. now_if ctx.stats_on >>= λ t1.
      from_uds again
        (count ctx (record ctx.st {
          poll_calls = add64 ctx.st.poll_calls 1;
          poll_wait_ns = add64 ctx.st.poll_wait_ns (sub64 t1 t0);
        }))
        max_size tmo got in
      if e == eagain then polled w else some (((fail e, []), ctx), w)

  -- `for (;;)`, one round for each entry of the arrivals.
  unfoldable pub recv_rounds : List (List (List ℕ)) → ℕ → Ctx D → ℕ → M ((Rc × List ℕ) × Ctx D)
  unfolding from_ring poll_ring
  recv_rounds [] max_size ctx tmo w = none
  recv_rounds (ms ∷ rest) max_size ctx tmo w =
      let counted =
        count ctx (record ctx.st { recv_loop_iters = add64 ctx.st.recv_loop_iters 1 }) in
      from_ring (λ c t. recv_rounds rest max_size c t) max_size tmo (poll_ring counted ms)
        (record w { arrivals = rest })

  -- `adapt_recv`.
  unfoldable pub adapt_recv : Ctx D → ℕ → M ((Rc × List ℕ) × Ctx D)
  unfolding recv_rounds
  adapt_recv ctx max_size w =
      let received = recv_rounds w.arrivals max_size ctx 0 w in
      if max_size == 0 then some (((fail einval, []), ctx), w) else elim ctx.role [
        | producer ↦ some (((fail eperm, []), ctx), w)
        | consumer ↦ if ltb max_size 2 then some (((fail emsgsize, []), ctx), w) else received
      ]

  -- What one datagram of `adapt_recv_uds_timeout` leads to.
  unfoldable pub from_socket :
      (Ctx D → M ((Rc × List ℕ) × Ctx D)) → Ctx D → ℕ → Rc × List ℕ → M ((Rc × List ℕ) × Ctx D)
  unfolding handle_control
  from_socket again ctx max_size (fail e, frame) = return ((fail e, []), ctx)
  from_socket again ctx max_size (done n, frame) =
      if n == 0
      then return ((done 0, []), ctx)
      else if get_or frame 0 1 == tag_ctrl
      then handle_control ctx frame >>= again
      else return (payload max_size frame, ctx)

  -- `for (;;)`: each round that goes on has used up an answer of `recvfrom`.
  unfoldable pub uds_rounds : ℕ → ℕ → ℕ → Ctx D → M ((Rc × List ℕ) × Ctx D)
  unfolding from_socket Uds.recv_timeout
  uds_rounds zero max_size timeout_ms ctx w = none
  uds_rounds (suc fuel) max_size timeout_ms ctx w =
      let round =
        Uds.recv_timeout max_size timeout_ms
        >>= from_socket (λ c. uds_rounds fuel max_size timeout_ms c) ctx max_size in
      round w

  -- `adapt_recv_uds_timeout`.
  unfoldable pub adapt_recv_uds_timeout : Ctx D → ℕ → ℕ → M ((Rc × List ℕ) × Ctx D)
  unfolding uds_rounds
  adapt_recv_uds_timeout ctx max_size timeout_ms w =
      if max_size == 0
      then some (((fail einval, []), ctx), w)
      else uds_rounds (suc (length w.recvfrom)) max_size timeout_ms ctx w
