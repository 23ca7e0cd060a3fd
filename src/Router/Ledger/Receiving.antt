-- ===== src/Router/Ledger/Receiving.antt =====
-- src/adapt_ipc.c: the mapped rings are the rings that contexts have, through `adapt_recv` and
-- `adapt_recv_uds_timeout`.
use adaptipc.Base.{
  ℕ, zero, suc, ◌≡◌, refl, ap, Bool, true, false, ◌==◌, ltb, if◌then◌else◌, Option, none, some,
  List, [], ◌∷◌, arith, length, add64, sub64, get_or,
}
use adaptipc.Base.Errno.{Rc, done, fail, einval, eperm, eagain, emsgsize}
use adaptipc.World.{World, M, ◌>>=◌, return}
use adaptipc.World.Post.{Post}
use adaptipc.Ring.{Ring, pop}
use adaptipc.Ring.Open.{Role, producer, consumer}
use adaptipc.Uds as Uds
use adaptipc.Router.Types.{Ctx, count, now_if, mapped}
use adaptipc.Router.Negotiate.{handle_control, tag_ctrl}
use adaptipc.Router.Recv.{
  uds_poll_ms, arrive, payload, is_delivered, poll_ring, count_shm, count_uds, idle_round, from_uds,
  from_ring, recv_rounds, adapt_recv, from_socket, uds_rounds, adapt_recv_uds_timeout,
}
use adaptipc.Router.Ledger.Still.{now_if-Still, recv_timeout-Still}
use adaptipc.Router.Ledger.Handles.{
  Moves, Via, Moves-Post, >>=-Moves, >>=-Still, Moves-refl, count-Moves, second, whole,
  handle_control-Moves,
}

module _ {D : Type 0} where
  -- A round that may be gone on with, from any context.
  abbrev Goes : (Ctx D → ℕ → M ((Rc × List ℕ) × Ctx D)) → Type 0
  Goes again = (c : Ctx D) (tmo : ℕ) (v : World) → Post (Via second c v) (again c tmo v)

  count_shm-Moves : (a : Ctx D) (tmo : ℕ) (w : World) → Moves a w (count_shm a tmo) w
  unfolding count_shm
  count_shm-Moves a tmo w = count-Moves a _ w

  count_uds-Moves : (a : Ctx D) (tmo : ℕ) (w : World) → Moves a w (count_uds a tmo) w
  unfolding count_uds
  count_uds-Moves a tmo w = count-Moves a _ w

  idle_round-Moves :
      (again : Ctx D → ℕ → M ((Rc × List ℕ) × Ctx D)) (a : Ctx D) (tmo : ℕ) (w : World)
      → Goes again
      → Post (Via second a w) (idle_round again a tmo w)
  unfolding idle_round
  idle_round-Moves again a tmo w go =
      let st = record a.st { poll_timeouts = add64 a.st.poll_timeouts 1 } in
      Moves-Post second a (count a st) w w _ (count-Moves a st w) (go (count a st) _ w)

  from_uds-Moves :
      (again : Ctx D → ℕ → M ((Rc × List ℕ) × Ctx D)) (a : Ctx D) (max_size tmo : ℕ)
      (got : Rc × List ℕ) (w : World)
      → Goes again
      → Post (Via second a w) (from_uds again a max_size tmo got w)
  unfolding from_uds
  from_uds-Moves again a max_size tmo (fail e, frame) w go = by_code (e == eagain)
    where
      by_code :
          (b : Bool)
          → Post
              (Via second a w)
              ((if b then idle_round again a tmo else return ((fail e, []), a)) w)
      by_code true = idle_round-Moves again a tmo w go
      by_code false = Moves-refl a w
  from_uds-Moves again a max_size tmo (done n, frame) w go =
      by_tests (n == 0) (n == 1) (get_or frame 0 1 == tag_ctrl)
        (is_delivered (payload max_size frame))
    where
      counted : (b : Bool) → Moves a w (if b then count_uds a tmo else a) w
      counted true = count_uds-Moves a tmo w
      counted false = Moves-refl a w

      by_tests :
          (closed short ctrl ok : Bool)
          → Post (Via second a w) (
              (if closed
                  then return ((done 0, []), a)
                  else if short
                  then idle_round again a tmo
                  else if ctrl
                  then (handle_control a frame >>= (λ c. again c 0))
                  else return (payload max_size frame, if ok then count_uds a tmo else a))
                w)
      by_tests true short ctrl ok = Moves-refl a w
      by_tests false true ctrl ok = idle_round-Moves again a tmo w go
      by_tests false false true ok =
          >>=-Moves whole second a (handle_control a frame) (λ c. again c 0) w
            (handle_control-Moves a frame w) (λ c v. go c 0 v)
      by_tests false false false ok = counted ok

  -- The poll of the ring keeps the ring.
  Polled : Ctx D → Option (Rc × List ℕ × Ctx D) → Type 0
  Polled a none = Unit
  Polled a (some (rc, frame, c)) = (w : World) → Moves a w c w

  poll_ring-Moves : (a : Ctx D) (ms : List (List ℕ)) → Polled a (poll_ring a ms)
  unfolding poll_ring Polled
  poll_ring-Moves a ms = by_ring a.ring refl
    where
      by_pop :
          (r : Ring) (o : Option (Rc × List ℕ × Ring))
          → a.ring ≡ some r
          → Polled a (elim o as (λ o. Option (Rc × List ℕ × Ctx D)) [
            | none ↦ none
            | some (rc, frame, r') ↦ some (rc, frame, record a { ring = some r' })
          ])
      by_pop r none e = tt
      by_pop r (some (rc, frame, r')) e = λ w. let m = ap mapped e in (refl, refl, omega (arith, m))

      by_ring :
          (ring : Option Ring)
          → a.ring ≡ ring
          → Polled a (elim ring as (λ o. Option (Rc × List ℕ × Ctx D)) [
            | none ↦ some (fail eagain, [], a)
            | some r ↦ elim (pop (arrive r ms) a.rxbuf_cap) [
              | none ↦ none
              | some (rc, frame, r') ↦ some (rc, frame, record a { ring = some r' })
            ]
          ])
      by_ring none e = λ w. Moves-refl a w
      by_ring (some r) e = by_pop r (pop (arrive r ms) a.rxbuf_cap) e

  from_ring-Moves :
      (again : Ctx D → ℕ → M ((Rc × List ℕ) × Ctx D)) (a : Ctx D) (max_size tmo : ℕ)
      (o : Option (Rc × List ℕ × Ctx D)) (w : World)
      → Goes again
      → Polled a o
      → Post (Via second a w) (from_ring again max_size tmo o w)
  unfolding from_ring Polled
  from_ring-Moves again a max_size tmo none w go p = tt
  from_ring-Moves again a max_size tmo (some (done n, frame, c)) w go p =
      Moves-Post second a c w w _ (p w) (by_tests (n == 0) (is_delivered (payload max_size frame)))
    where
      counted : (b : Bool) → Moves c w (if b then count_shm c tmo else c) w
      counted true = count_shm-Moves c tmo w
      counted false = Moves-refl c w

      by_tests :
          (closed ok : Bool)
          → Post (Via second c w) (
              if closed
              then some (((done 0, []), c), w)
              else some ((payload max_size frame, if ok then count_shm c tmo else c), w))
      by_tests true ok = Moves-refl c w
      by_tests false ok = counted ok
  from_ring-Moves again a max_size tmo (some (fail e, frame, c)) w go p =
      Moves-Post second a c w w _ (p w) (by_code (e == eagain))
    where
      polled : M ((Rc × List ℕ) × Ctx D)
      polled = now_if c.stats_on >>= λ t0. Uds.recv_timeout c.rxbuf_cap uds_poll_ms >>= λ got.
          now_if c.stats_on >>= λ t1.
          from_uds again
            (count c (record c.st {
              poll_calls = add64 c.st.poll_calls 1;
              poll_wait_ns = add64 c.st.poll_wait_ns (sub64 t1 t0);
            }))
            max_size tmo got

      polled-Moves : Post (Via second c w) (polled w)
      polled-Moves =
          >>=-Still second c (now_if c.stats_on) _ w (now_if-Still c.stats_on w) (λ t0 w0.
            >>=-Still second c (Uds.recv_timeout c.rxbuf_cap uds_poll_ms) _ w0
              (recv_timeout-Still c.rxbuf_cap uds_poll_ms w0)
              (λ got w1.
                >>=-Still second c (now_if c.stats_on) _ w1 (now_if-Still c.stats_on w1) (λ t1 v.
                  let st = record c.st {
                    poll_calls = add64 c.st.poll_calls 1;
                    poll_wait_ns = add64 c.st.poll_wait_ns (sub64 t1 t0);
                  } in
                  Moves-Post second c (count c st) v v _ (count-Moves c st v)
                    (from_uds-Moves again (count c st) max_size tmo got v go))))

      by_code :
          (b : Bool) → Post (Via second c w) (if b then polled w else some (((fail e, []), c), w))
      by_code true = polled-Moves
      by_code false = Moves-refl c w

  recv_rounds-Moves :
      (arrivals : List (List (List ℕ))) (max_size : ℕ) (a : Ctx D) (tmo : ℕ) (w : World)
      → Post (Via second a w) (recv_rounds arrivals max_size a tmo w)
  unfolding recv_rounds
  recv_rounds-Moves [] max_size a tmo w = tt
  recv_rounds-Moves (ms ∷ rest) max_size a tmo w =
      let st = record a.st { recv_loop_iters = add64 a.st.recv_loop_iters 1 } in
      let v = record w { arrivals = rest } in
      Moves-Post second a (count a st) w v _ (count-Moves a st w) (
        from_ring-Moves (λ c t. recv_rounds rest max_size c t) (count a st) max_size tmo
          (poll_ring (count a st) ms) v (λ c t u. recv_rounds-Moves rest max_size c t u)
          (poll_ring-Moves (count a st) ms))

  pub adapt_recv-Moves :
      (a : Ctx D) (max_size : ℕ) (w : World) → Post (Via second a w) (adapt_recv a max_size w)
  unfolding adapt_recv
  adapt_recv-Moves a max_size w = by_guards (max_size == 0) (ltb max_size 2) a.role
    where
      by_guards :
          (empty small : Bool) (role : Role)
          → Post (Via second a w) (
              if empty
              then some (((fail einval, []), a), w)
              else elim role as (λ x. Option (((Rc × List ℕ) × Ctx D) × World)) [
                | producer ↦ some (((fail eperm, []), a), w)
                | consumer ↦
                    if small
                    then some (((fail emsgsize, []), a), w)
                    else recv_rounds w.arrivals max_size a 0 w
              ])
      by_guards true small role = Moves-refl a w
      by_guards false small producer = Moves-refl a w
      by_guards false true consumer = Moves-refl a w
      by_guards false false consumer = recv_rounds-Moves w.arrivals max_size a 0 w

  from_socket-Moves :
      (again : Ctx D → M ((Rc × List ℕ) × Ctx D)) (a : Ctx D) (max_size : ℕ) (got : Rc × List ℕ)
      (w : World)
      → ((c : Ctx D) (v : World) → Post (Via second c v) (again c v))
      → Post (Via second a w) (from_socket again a max_size got w)
  unfolding from_socket
  from_socket-Moves again a max_size (fail e, frame) w go = Moves-refl a w
  from_socket-Moves again a max_size (done n, frame) w go =
      by_tests (n == 0) (get_or frame 0 1 == tag_ctrl)
    where
      by_tests :
          (closed ctrl : Bool)
          → Post (Via second a w) (
              (if closed
                  then return ((done 0, []), a)
                  else if ctrl
                  then (handle_control a frame >>= again)
                  else return (payload max_size frame, a))
                w)
      by_tests true ctrl = Moves-refl a w
      by_tests false true =
          >>=-Moves whole second a (handle_control a frame) again w (handle_control-Moves a frame w)
            go
      by_tests false false = Moves-refl a w

  uds_rounds-Moves :
      (fuel max_size timeout_ms : ℕ) (a : Ctx D) (w : World)
      → Post (Via second a w) (uds_rounds fuel max_size timeout_ms a w)
  unfolding uds_rounds
  uds_rounds-Moves zero max_size timeout_ms a w = tt
  uds_rounds-Moves (suc fuel) max_size timeout_ms a w =
      >>=-Still second a (Uds.recv_timeout max_size timeout_ms) _ w
        (recv_timeout-Still max_size timeout_ms w)
        (λ got v.
          from_socket-Moves (λ c. uds_rounds fuel max_size timeout_ms c) a max_size got v
            (λ c u. uds_rounds-Moves fuel max_size timeout_ms c u))

  pub adapt_recv_uds_timeout-Moves :
      (a : Ctx D) (max_size timeout_ms : ℕ) (w : World)
      → Post (Via second a w) (adapt_recv_uds_timeout a max_size timeout_ms w)
  unfolding adapt_recv_uds_timeout
  adapt_recv_uds_timeout-Moves a max_size timeout_ms w = by_size (max_size == 0)
    where
      by_size :
          (empty : Bool)
          → Post (Via second a w) (
              if empty
              then some (((fail einval, []), a), w)
              else uds_rounds (suc (length w.recvfrom)) max_size timeout_ms a w)
      by_size true = Moves-refl a w
      by_size false = uds_rounds-Moves (suc (length w.recvfrom)) max_size timeout_ms a w
