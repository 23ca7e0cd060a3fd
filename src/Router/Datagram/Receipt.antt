-- ===== src/Router/Datagram/Receipt.antt =====
-- src/adapt_ipc.c, src/uds_fallback.c: a receive of the datagram that waits, with an idle ring.
use adaptipc.Base.{
  ℕ, zero, suc, ◌+◌, ◌≤◌, ◌<◌, ◌≡◌, refl, sym, ap, ◌∙◌, ◌⊎◌, inl, inr, Bool, true, false, ◌==◌,
  Option, none, some, List, [], ◌∷◌, arith, length, take, add64, sub64,
}
use adaptipc.Base.Errno.{Rc, done, fail, eagain}
use adaptipc.World.{World, M, now_ns, clock_now_from}
use adaptipc.World.Post.{>>=-run}
use adaptipc.Uds as Uds
use adaptipc.Ring.{Ring}
use adaptipc.Ring.Inv.{Holds}
use adaptipc.Ring.Pop.{pop_refines}
use adaptipc.Ring.Open.{consumer}
use mathlib.Core.Path.{subst}
use adaptipc.Router.Types.{Ctx, count, now_if}
use adaptipc.Router.Recv.{adapt_recv, recv_rounds, from_ring, from_uds, poll_ring, uds_poll_ms}
use adaptipc.Router.Delivery.Sent.{count_ring, count_rxbuf}
use adaptipc.Router.Delivery.Poll.{
  pop_of, after_pop, poll-after_pop, received, eqb-ne, suc-ne, payload_fits,
}

take_all : (n : ℕ) (xs : List ℕ) → length xs ≤ n → take n xs ≡ xs
take_all zero [] h = refl
take_all zero (x ∷ xs) h = absurd (omega arith)
take_all (suc n) [] h = refl
take_all (suc n) (x ∷ xs) h = ap (◌∷◌ x) (take_all n xs (omega arith))

-- The ring has nothing to deliver.
abbrev pub IsIdle : Option Ring → Type 0
IsIdle ring = (ring ≡ none) ⊎ ((r : Ring) × (ring ≡ some r) × Holds r [])

loop_frame :
    (frame : List ℕ) (n room : ℕ) (datagrams : List (Rc × List ℕ))
    → 2 ≤ length frame
    → length frame ≤ room
    → Uds.recv_loop room ((done n, frame) ∷ datagrams)
      ≡ some (done (length frame), frame, datagrams)
unfolding Uds.recv_loop
loop_frame frame n room datagrams two fits =
    rw (take_all room frame fits, eqb-ne (length frame) two) refl

recv_frame :
    (frame : List ℕ) (n k room : ℕ) (v : World) (polls : List Rc) (datagrams : List (Rc × List ℕ))
    → 2 ≤ length frame
    → length frame ≤ room
    → v.poll ≡ done (suc k) ∷ polls
    → v.recvfrom ≡ (done n, frame) ∷ datagrams
    → Uds.recv_timeout room uds_poll_ms v
      ≡ some ((done (length frame), frame), record v { poll = polls; recvfrom = datagrams })
unfolding Uds.recv_timeout Uds.poll_loop
recv_frame frame n k room v polls datagrams two fits e f = rw (eqb-ne room (omega arith)) (
    ap (λ x. Uds.after_poll room v (Uds.poll_loop x)) e
    ∙ ap (Uds.finish_recv (record v { poll = polls }))
        (ap (Uds.recv_loop room) f ∙ loop_frame frame n room datagrams two fits))

-- A reading of the clock, where it has one left.
tick :
    (on : Bool) (n : ℕ) (v : World)
    → suc n ≤ length v.clock
    → (t : ℕ) × (v' : World) × (now_if on v ≡ some (t, v'))
      × (n ≤ length v'.clock)
      × (v'.poll ≡ v.poll)
      × (v'.recvfrom ≡ v.recvfrom)
unfolding now_ns
tick false n v h = (0, v, refl, omega arith, refl, refl)
tick true n v h = by_clock v.clock h
  where
    by_clock :
        (ts : List ℕ)
        → suc n ≤ length ts
        → (t : ℕ) × (v' : World) × (clock_now_from ts v ≡ some (t, v'))
          × (n ≤ length v'.clock)
          × (v'.poll ≡ v.poll)
          × (v'.recvfrom ≡ v.recvfrom)
    by_clock [] h = absurd (omega arith)
    by_clock (t ∷ ts) h = (t, record v { clock = ts }, refl, omega arith, refl, refl)

module _ {D : Type 0} where
  poll-IsIdle :
      (c : Ctx D)
      → IsIdle c.ring
      → (c' : Ctx D) × (poll_ring c [] ≡ some (fail eagain, [], c')) × (c'.rxbuf_cap ≡ c.rxbuf_cap)
  poll-IsIdle c (inl e) =
      (c, poll-after_pop c ∙ ap (λ x. after_pop c (pop_of c.rxbuf_cap x)) e, refl)
  poll-IsIdle c (inr (r, e, h)) =
      let (r', popped, h') = pop_refines [] c.rxbuf_cap h in
      (
        record c { ring = some r' },
        poll-after_pop c ∙ ap (after_pop c) (ap (pop_of c.rxbuf_cap) e ∙ ap some popped),
        refl,
      )

  from_frame :
      (again : Ctx D → ℕ → M ((Rc × List ℕ) × Ctx D)) (c : Ctx D) (m : List ℕ) (max_size tmo : ℕ)
      (v : World)
      → 0 < length m
      → length m ≤ max_size
      → (c' : Ctx D) × (from_uds again c max_size tmo (done (suc (length m)), 2 ∷ m) v
          ≡ some (((done (length m), m), c'), v))
  unfolding from_uds
  from_frame again c m max_size tmo v pos fits =
      rw (payload_fits max_size 2 m fits, suc-ne (length m), one (length m) pos) (_, refl)
    where
      one : (n : ℕ) → 0 < n → (suc n == 1) ≡ false
      one n h = ground arith

  waited :
      (again : Ctx D → ℕ → M ((Rc × List ℕ) × Ctx D)) (c : Ctx D) (m : List ℕ) (max_size n k : ℕ)
      (v : World) (polls : List Rc) (datagrams : List (Rc × List ℕ))
      → 0 < length m
      → length m ≤ max_size
      → length m + 1 ≤ c.rxbuf_cap
      → 2 ≤ length v.clock
      → v.poll ≡ done (suc k) ∷ polls
      → v.recvfrom ≡ (done n, 2 ∷ m) ∷ datagrams
      → (c' : Ctx D) × (v' : World) × (from_ring again max_size 0 (some (fail eagain, [], c)) v
          ≡ some (((done (length m), m), c'), v'))
  unfolding from_ring
  waited again c m max_size n k v polls datagrams pos fits room clock e f =
      let (t0, v0, e0, clock0, poll0, recv0) = tick c.stats_on 1 v clock in
      let v1 = record v0 { poll = polls; recvfrom = datagrams } in
      let e1 =
        recv_frame (2 ∷ m) n k c.rxbuf_cap v0 polls datagrams (omega arith) (omega arith)
          (poll0 ∙ e) (recv0 ∙ f) in
      let (t1, v2, e2, clock2, poll2, recv2) = tick c.stats_on 0 v1 clock0 in
      let (c', e3) = from_frame again (polled c t0 t1) m max_size 0 v2 pos fits in
      (
        c',
        v2,
        >>=-run (now_if c.stats_on) _ e0
            ∙ >>=-run (Uds.recv_timeout c.rxbuf_cap uds_poll_ms) _ e1
            ∙ >>=-run (now_if c.stats_on) _ e2
            ∙ e3,
      )
    where
      polled : Ctx D → ℕ → ℕ → Ctx D
      polled c t0 t1 = count c (record c.st {
        poll_calls = add64 c.st.poll_calls 1;
        poll_wait_ns = add64 c.st.poll_wait_ns (sub64 t1 t0);
      })

  -- The consumer's end: with an idle ring, the datagram that waits is delivered.
  pub recv_datagram :
      (c : Ctx D) (m : List ℕ) (max_size n k : ℕ) (v : World) (polls : List Rc)
      (datagrams : List (Rc × List ℕ)) (later : List (List (List ℕ)))
      → c.role ≡ consumer
      → IsIdle c.ring
      → 0 < length m
      → length m ≤ max_size
      → 2 ≤ max_size
      → length m + 1 ≤ c.rxbuf_cap
      → 2 ≤ length v.clock
      → v.arrivals ≡ [] ∷ later
      → v.poll ≡ done (suc k) ∷ polls
      → v.recvfrom ≡ (done n, 2 ∷ m) ∷ datagrams
      → (c' : Ctx D) × (v' : World) × (adapt_recv c max_size v
          ≡ some (((done (length m), m), c'), v'))
  unfolding recv_rounds
  recv_datagram c m max_size n k v polls datagrams later role idle pos fits two room clock arr e f =
      let counted = count c (record c.st { recv_loop_iters = add64 c.st.recv_loop_iters 1 }) in
      let (c1, polled, cap1) = poll-IsIdle counted (subst IsIdle (sym (count_ring c _)) idle) in
      let (c', v', got) =
        waited (λ c' t. recv_rounds later max_size c' t) c1 m max_size n k
          (record v { arrivals = later }) polls datagrams pos fits
          (subst (λ x. length m + 1 ≤ x) (sym (cap1 ∙ count_rxbuf c _)) room) clock e f in
      (
        c',
        v',
        received c max_size v role two
            ∙ ap (λ arrivals. recv_rounds arrivals max_size c 0 v) arr
            ∙ ap
                (λ x.
                  from_ring (λ c' t. recv_rounds later max_size c' t) max_size 0 x
                    (record v { arrivals = later }))
                polled
            ∙ got,
      )
