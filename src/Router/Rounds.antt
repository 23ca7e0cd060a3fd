-- ===== src/Router/Rounds.antt =====
-- src/adapt_ipc.c: the loop of the handshake and the loop of `adapt_recv_uds_timeout` have fuel enough.
pub mod Answers
pub mod Datagrams
use adaptipc.Base.{
  ℕ, zero, suc, ◌<◌, ◌≡◌, refl, ap, ◌⊎◌, inl, inr, Bool, true, false, ◌==◌, ltb, if◌then◌else◌,
  Option, none, some, List, [], ◌∷◌, arith, length, add64, sub64, get_or,
}
use adaptipc.Base.Errno.{Rc, done, fail, eagain, einval, etimedout}
use adaptipc.World.{World, M, ◌>>=◌, return, now_ns}
use adaptipc.World.Post.{Post, >>=-congr}
use adaptipc.Uds as Uds
use adaptipc.Router.Types.{Ctx, count, now_if}
use adaptipc.Router.Negotiate.{
  poll_ms, is_ack, producer_map_ring, after_map, heard, await_ack, handle_control, tag_ctrl,
}
use adaptipc.Router.Recv.{payload, from_socket, uds_rounds}
use adaptipc.Router.Rounds.Answers.{
  SamePoll, now_if-SamePoll, now_ns-SamePoll, UsesPoll, recv_timeout-UsesPoll, UsesDatagram,
  recv_timeout-UsesDatagram,
}
use adaptipc.Router.Rounds.Datagrams.{SameDatagrams, handle_control-SameDatagrams}

module _ {D : Type 0} where
  heard_same :
      (f g : Ctx D → M (Rc × Ctx D)) (deadline : ℕ) (c : Ctx D) (got : Rc × List ℕ) (w : World)
      → (got.0 ≡ fail einval) ⊎ ((v : World) → length v.poll ≡ length w.poll → f c v ≡ g c v)
      → heard f deadline c got w ≡ heard g deadline c got w
  unfolding heard
  heard_same f g deadline c (done n, frame) w (inl bad) = absurd (ground arith)
  heard_same f g deadline c (done n, frame) w (inr same) = by_ack (is_ack frame)
    where
      acked : Ctx D
      acked = count c (record c.st { shm_setup_acks = add64 c.st.shm_setup_acks 1 })

      by_ack :
          (ack : Bool)
          → (if ack then (producer_map_ring acked >>= λ mapped. return (after_map mapped)) else f c)
              w
            ≡ (if ack
                  then (producer_map_ring acked >>= λ mapped. return (after_map mapped))
                  else g c)
                w
      by_ack true = refl
      by_ack false = same w refl
  heard_same f g deadline c (fail e, frame) w (inl bad) =
      let code : e ≡ einval = ground arith in rw code refl
  heard_same f g deadline c (fail e, frame) w (inr same) = by_code (e == eagain)
    where
      late :
          (b : Bool) (v : World)
          → length v.poll ≡ length w.poll
          → (if b then return (fail etimedout, c) else f c) v
            ≡ (if b then return (fail etimedout, c) else g c) v
      late true v k = refl
      late false v k = same v k

      by_code :
          (again : Bool)
          → (if again
                then (now_ns >>= (λ t. if ltb deadline t then return (fail etimedout, c) else f c))
                else return (fail e, c))
              w
            ≡ (if again
                  then (now_ns
                      >>= (λ t. if ltb deadline t then return (fail etimedout, c) else g c))
                  else return (fail e, c))
                w
      by_code true =
          >>=-congr (SamePoll w) now_ns
            (λ t. if ltb deadline t then return (fail etimedout, c) else f c)
            (λ t. if ltb deadline t then return (fail etimedout, c) else g c) w (now_ns-SamePoll w)
            (λ t v k. late (ltb deadline t) v k)
      by_code false = refl

  -- A round that goes on has used up an answer of `poll`.
  round_same :
      (f g : Ctx D → M (Rc × Ctx D)) (deadline : ℕ) (c : Ctx D) (got : Rc × List ℕ)
      (w0 w1 w2 : World)
      → UsesPoll w0 got w1
      → length w2.poll ≡ length w1.poll
      → ((v : World) → length v.poll < length w0.poll → f c v ≡ g c v)
      → heard f deadline c got w2 ≡ heard g deadline c got w2
  round_same f g deadline c got w0 w1 w2 (inl bad) e same =
      heard_same f g deadline c got w2 (inl bad)
  round_same f g deadline c got w0 w1 w2 (inr used) e same =
      heard_same f g deadline c got w2 (inr (λ v k. same v (omega (arith, used, e, k))))

  -- The wait for the acknowledgement needs one round more than there are answers of `poll`: any two
  -- numbers of rounds above it give the same, so the wait never ends for want of rounds.
  await_enough :
      (fuel other deadline : ℕ) (c : Ctx D) (w : World)
      → length w.poll < fuel
      → length w.poll < other
      → await_ack fuel deadline c w ≡ await_ack other deadline c w
  unfolding await_ack
  await_enough zero other deadline c w enough more = absurd (omega arith)
  await_enough (suc fuel) zero deadline c w enough more = absurd (omega arith)
  await_enough (suc fuel) (suc other) deadline c w enough more =
      >>=-congr (SamePoll w) (now_if c.stats_on) (λ t0. wait fuel t0) (λ t0. wait other t0) w
        (now_if-SamePoll c.stats_on w)
        (λ t0 w0 e0.
          >>=-congr (UsesPoll w0) (Uds.recv_timeout c.rxbuf_cap poll_ms) (rest fuel t0)
            (rest other t0) w0 (recv_timeout-UsesPoll c.rxbuf_cap poll_ms w0 (omega arith))
            (λ got w1 uses.
              >>=-congr (SamePoll w1) (now_if c.stats_on) (last fuel t0 got) (last other t0 got) w1
                (now_if-SamePoll c.stats_on w1)
                (λ t1 w2 e2.
                  round_same (await_ack fuel deadline) (await_ack other deadline) deadline
                    (waited t0 t1) got w0 w1 w2 uses e2
                    (λ v few.
                      await_enough fuel other deadline (waited t0 t1) v
                        (omega (arith, few, enough, e0)) (omega (arith, few, more, e0))))))
    where
      waited : ℕ → ℕ → Ctx D
      waited t0 t1 =
          count c (record c.st { negot_wait_ns = add64 c.st.negot_wait_ns (sub64 t1 t0) })

      last : ℕ → ℕ → Rc × List ℕ → ℕ → M (Rc × Ctx D)
      last n t0 got t1 = heard (await_ack n deadline) deadline (waited t0 t1) got

      rest : ℕ → ℕ → Rc × List ℕ → M (Rc × Ctx D)
      rest n t0 got = now_if c.stats_on >>= last n t0 got

      wait : ℕ → ℕ → M (Rc × Ctx D)
      wait n t0 = Uds.recv_timeout c.rxbuf_cap poll_ms >>= rest n t0

  from_socket_same :
      (f g : Ctx D → M ((Rc × List ℕ) × Ctx D)) (c : Ctx D) (max_size : ℕ) (got : Rc × List ℕ)
      (w0 w : World)
      → UsesDatagram w0 got w
      → ((x : Ctx D) (v : World) → length v.recvfrom < length w0.recvfrom → f x v ≡ g x v)
      → from_socket f c max_size got w ≡ from_socket g c max_size got w
  unfolding from_socket
  from_socket_same f g c max_size (fail e, frame) w0 w used same = refl
  from_socket_same f g c max_size (done n, frame) w0 w used same =
      by_tests (n == 0) (get_or frame 0 1 == tag_ctrl)
    where
      by_tests :
          (closed ctrl : Bool)
          → (if closed
                then return ((done 0, []), c)
                else if ctrl
                then (handle_control c frame >>= f)
                else return (payload max_size frame, c))
              w
            ≡ (if closed
                  then return ((done 0, []), c)
                  else if ctrl
                  then (handle_control c frame >>= g)
                  else return (payload max_size frame, c))
                w
      by_tests true ctrl = refl
      by_tests false true =
          >>=-congr (SameDatagrams w) (handle_control c frame) f g w
            (handle_control-SameDatagrams c frame w)
            (λ x v e. let l = ap length e in same x v (omega (arith, used, l)))
      by_tests false false = refl

  -- `adapt_recv_uds_timeout` needs one round more than there are answers of `recvfrom`: any two numbers
  -- of rounds above it give the same, so it never ends for want of rounds, however many control frames
  -- come before the message.
  uds_rounds_enough :
      (fuel other max_size timeout_ms : ℕ) (c : Ctx D) (w : World)
      → length w.recvfrom < fuel
      → length w.recvfrom < other
      → uds_rounds fuel max_size timeout_ms c w ≡ uds_rounds other max_size timeout_ms c w
  unfolding uds_rounds
  uds_rounds_enough zero other max_size timeout_ms c w enough more = absurd (omega arith)
  uds_rounds_enough (suc fuel) zero max_size timeout_ms c w enough more = absurd (omega arith)
  uds_rounds_enough (suc fuel) (suc other) max_size timeout_ms c w enough more =
      let f = λ (x : Ctx D). uds_rounds fuel max_size timeout_ms x in
      let g = λ (x : Ctx D). uds_rounds other max_size timeout_ms x in
      >>=-congr (UsesDatagram w) (Uds.recv_timeout max_size timeout_ms) (from_socket f c max_size)
        (from_socket g c max_size) w (recv_timeout-UsesDatagram max_size timeout_ms w)
        (λ got v used. from_socket_same f g c max_size got w v used (λ x u few.
          uds_rounds_enough fuel other max_size timeout_ms x u (omega (arith, few, enough))
            (omega (arith, few, more))))
