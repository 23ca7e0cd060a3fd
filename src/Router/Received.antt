-- ===== src/Router/Received.antt =====
-- src/adapt_ipc.c: what `adapt_recv` delivers.
use adaptipc.Base.{
  ℕ, ◌-◌, ◌≤◌, ◌≡◌, refl, sym, Option, none, some, List, [], ◌∷◌, arith, length, drop, ltb, ◌==◌,
  if◌then◌else◌, Bool-cases, inl, inr, get_or, add64,
}
use adaptipc.Base.Errno.{Rc, done, fail, eagain, eperm, emsgsize}
use Prim.{tt}
use mathlib.Core.Path.{subst}
use adaptipc.Uds as Uds
use adaptipc.World.{World, M}
use adaptipc.Ring.Open.{Role, producer, consumer}
use adaptipc.Router.Types.{Ctx, now_if, count}
use adaptipc.Router.Negotiate.{handle_control, tag_ctrl}
use adaptipc.Router.Recv.{
  payload, from_uds, from_ring, recv_rounds, adapt_recv, uds_poll_ms, idle_round, poll_ring,
}

length-rest : (frame : List ℕ) → length (drop 1 frame) ≡ length frame - 1
length-rest [] = refl
length-rest (b ∷ bs) = omega arith

-- What is delivered is as long as the result says, and fits the caller's buffer.
abbrev Delivers : ℕ → Rc × List ℕ → Type 0
Delivers max_size (fail e, bytes) = Unit
Delivers max_size (done n, bytes) = (n ≡ length bytes) × (n ≤ max_size)

payload-Delivers : (max_size : ℕ) (frame : List ℕ) → Delivers max_size (payload max_size frame)
payload-Delivers max_size frame = elim (Bool-cases (ltb max_size (length frame - 1))) [
  | inl long ↦ rw long tt
  | inr fits ↦ rw fits (sym (length-rest frame), ground arith)
]

module _ {D : Type 0} where
  abbrev Fitting : ℕ → Option (((Rc × List ℕ) × Ctx D) × World) → Type 0
  Fitting max_size none = Unit
  Fitting max_size (some ((out, c), w)) = Delivers max_size out

  after-Fitting :
      {A : Type 0} (max_size : ℕ) (o : Option (A × World)) (k : A → M ((Rc × List ℕ) × Ctx D))
      → ((a : A) (w : World) → Fitting max_size (k a w))
      → Fitting max_size (elim o [ none ↦ none | some (a, w) ↦ k a w ])
  after-Fitting max_size none k h = tt
  after-Fitting max_size (some (a, w)) k h = h a w

  from_uds-Fitting :
      (again : Ctx D → ℕ → M ((Rc × List ℕ) × Ctx D)) (ctx : Ctx D) (max_size tmo : ℕ)
      (got : Rc × List ℕ) (w : World)
      → ((c : Ctx D) (t : ℕ) (w : World) → Fitting max_size (again c t w))
      → Fitting max_size (from_uds again ctx max_size tmo got w)
  unfolding from_uds idle_round
  from_uds-Fitting again ctx max_size tmo (fail e, frame) w h = elim (Bool-cases (e == eagain)) [
    | inl y ↦ rw y (h _ _ w)
    | inr y ↦ rw y tt
  ]
  from_uds-Fitting again ctx max_size tmo (done n, frame) w h = elim (Bool-cases (n == 0)) [
    | inl y ↦ rw y (refl, omega arith)
    | inr y ↦ elim (Bool-cases (n == 1)) [
      | inl z ↦ rw (y, z) (h _ _ w)
      | inr z ↦ elim (Bool-cases (get_or frame 0 1 == tag_ctrl)) [
        | inl c ↦
            rw (y, z, c)
              (after-Fitting max_size (handle_control ctx frame w) (λ c. again c 0)
                (λ c w'. h c 0 w'))
        | inr c ↦ rw (y, z, c) (payload-Delivers max_size frame)
      ]
    ]
  ]

  from_ring-Fitting :
      (again : Ctx D → ℕ → M ((Rc × List ℕ) × Ctx D)) (max_size tmo : ℕ)
      (polled : Option (Rc × List ℕ × Ctx D)) (w : World)
      → ((c : Ctx D) (t : ℕ) (w : World) → Fitting max_size (again c t w))
      → Fitting max_size (from_ring again max_size tmo polled w)
  unfolding from_ring
  from_ring-Fitting again max_size tmo none w h = tt
  from_ring-Fitting again max_size tmo (some (done n, frame, ctx)) w h =
      elim (Bool-cases (n == 0)) [
        | inl y ↦ rw y (refl, omega arith)
        | inr y ↦ rw y (payload-Delivers max_size frame)
      ]
  from_ring-Fitting again max_size tmo (some (fail e, frame, ctx)) w h =
      elim (Bool-cases (e == eagain)) [
        | inl y ↦ rw y (
            after-Fitting max_size (now_if ctx.stats_on w) _ (λ t0 w0.
              after-Fitting max_size (Uds.recv_timeout ctx.rxbuf_cap uds_poll_ms w0) _ (λ got w1.
                after-Fitting max_size (now_if ctx.stats_on w1) _
                  (λ t1 w2. from_uds-Fitting again _ max_size tmo got w2 h))))
        | inr y ↦ rw y tt
      ]

  recv_rounds-Fitting :
      (arrivals : List (List (List ℕ))) (max_size : ℕ) (ctx : Ctx D) (tmo : ℕ) (w : World)
      → Fitting max_size (recv_rounds arrivals max_size ctx tmo w)
  unfolding recv_rounds
  recv_rounds-Fitting [] max_size ctx tmo w = tt
  recv_rounds-Fitting (ms ∷ rest) max_size ctx tmo w =
      from_ring-Fitting (recv_rounds rest max_size) max_size tmo
        (poll_ring (count ctx (record ctx.st { recv_loop_iters = add64 ctx.st.recv_loop_iters 1 }))
          ms)
        (record w { arrivals = rest }) (λ c t w'. recv_rounds-Fitting rest max_size c t w')

  adapt_recv-Fitting :
      (ctx : Ctx D) (max_size : ℕ) (w : World) → Fitting max_size (adapt_recv ctx max_size w)
  unfolding adapt_recv
  adapt_recv-Fitting ctx max_size w = elim (Bool-cases (max_size == 0)) [
    | inl y ↦ rw y tt
    | inr y ↦ rw y (by_role ctx.role)
  ]
    where
      by_role :
          (role : Role)
          → Fitting max_size (elim role [
            | producer ↦ some (((fail eperm, []), ctx), w)
            | consumer ↦
                if ltb max_size 2
                then some (((fail emsgsize, []), ctx), w)
                else recv_rounds w.arrivals max_size ctx 0 w
          ])
      by_role producer = tt
      by_role consumer = elim (Bool-cases (ltb max_size 2)) [
        | inl z ↦ rw z tt
        | inr z ↦ rw z (recv_rounds-Fitting w.arrivals max_size ctx 0 w)
      ]

  -- Whatever the ring and the socket hold, and however many control frames and timeouts come first, a
  -- receive that succeeds delivers as many bytes as its result says, and no more than the caller's
  -- buffer has.
  pub adapt_recv_bounds :
      (ctx c : Ctx D) (max_size n : ℕ) (bytes : List ℕ) (w w' : World)
      → adapt_recv ctx max_size w ≡ some (((done n, bytes), c), w')
      → (n ≡ length bytes) × (n ≤ max_size)
  adapt_recv_bounds ctx c max_size n bytes w w' e =
      subst (Fitting max_size) e (adapt_recv-Fitting ctx max_size w)
