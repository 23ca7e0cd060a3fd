-- ===== src/Router/Negotiate.antt =====
-- src/adapt_ipc.c: the handshake by which the ring comes to be, on the producer's side
-- (`producer_ensure_shm`) and on the consumer's (`handle_control`).
use adaptipc.Base.{
  ℕ, zero, suc, ◌%◌, Bool, true, false, ◌&&◌, ◌||◌, not, Option, none, some, List, [], ◌∷◌, ◌++◌,
  ltb, leb, ◌==◌, if◌then◌else◌, length, drop, get_or, add64, sub64, u32,
}
use adaptipc.Base.Bytes.{u32_bytes, u32_at}
use adaptipc.Base.Errno.{Rc, done, fail, eagain, etimedout}
use adaptipc.Ring.{Ring}
use adaptipc.Ring.Open.{producer, consumer}
use adaptipc.World.{M, ◌>>=◌, return, now_ns}
use adaptipc.Uds as Uds
use adaptipc.Router.Types.{Ctx, count, now_if, ring_attach, ring_close, grow_rxbuf}

-- The numbers of the control channel.
abbrev pub tag_ctrl : ℕ
tag_ctrl = 0

abbrev pub setup_req : ℕ
setup_req = 1

abbrev pub setup_ack : ℕ
setup_ack = 2

abbrev pub deadline_ns : ℕ
deadline_ns = 250_000_000

abbrev pub poll_ms : ℕ
poll_ms = 5

abbrev pub resend_ns : ℕ
resend_ns = 100_000_000

-- The bytes of a C string that begins here, and whether it ends.
unfoldable pub c_string : List ℕ → List ℕ
c_string [] = []
c_string (b ∷ bs) = let rest = c_string bs in if b == 0 then [] else b ∷ rest

unfoldable pub has_nul : List ℕ → Bool
has_nul [] = false
has_nul (b ∷ bs) = (b == 0) || has_nul bs

-- A setup acknowledgement with status 0.
abbrev pub is_ack : List ℕ → Bool
is_ack frame =
    leb 3 (length frame)
    && (get_or frame 0 1 == tag_ctrl)
    && (get_or frame 1 0 == setup_ack)
    && (get_or frame 2 1 == 0)

-- The number in four bytes of a frame, from `at` on.
abbrev pub frame_u32 : List ℕ → ℕ → ℕ
frame_u32 frame from = u32_at (λ i. get_or frame i 0) from

module _ {D : Type 0} where
  -- Behind a mapping: the buffer grows with the ring, or the ring is closed again.
  unfoldable pub keep_grown : Rc × Ctx D → M (Rc × Ctx D)
  unfolding ring_close
  keep_grown (done n, ctx) w = some ((done n, ctx), w)
  keep_grown (fail e, ctx) w =
      some ((fail e, record ctx { ring = none }), ring_close ctx.ring false w)

  unfoldable pub keep_mapped : Ctx D → ℕ → Rc × Option Ring → M (Rc × Ctx D)
  unfolding grow_rxbuf keep_grown
  keep_mapped ctx cap (fail e, ring) = return (fail e, ctx)
  keep_mapped ctx cap (done n, ring) = grow_rxbuf (record ctx { ring = ring }) cap >>= keep_grown

  -- `producer_map_ring`.
  unfoldable pub producer_map_ring : Ctx D → M (Rc × Ctx D)
  unfolding keep_mapped ring_attach
  producer_map_ring ctx =
      ring_attach ctx.neg_name ctx.shm_capacity producer >>= keep_mapped ctx ctx.shm_capacity

  -- `generate_shm_name`, where there is no name yet.
  abbrev pub named : Ctx D → M (Ctx D)
  named ctx w =
      some (elim ctx.neg_name [ [] ↦ record ctx { neg_name = w.fresh_name } | c ∷ cs ↦ ctx ], w)

  -- The setup request: the capacity in four bytes, and the name with its final zero.
  abbrev pub request_frame : Ctx D → List ℕ
  request_frame ctx =
      tag_ctrl ∷ setup_req ∷ u32_bytes (u32 ctx.shm_capacity) ++ (ctx.neg_name ++ (0 ∷ []))

  unfoldable pub after_request : Ctx D → ℕ → Rc → Rc × Ctx D
  after_request ctx now (fail e) = (fail e, ctx)
  after_request ctx now (done n) = (
    done 0,
    record (count ctx (record ctx.st { shm_setup_reqs = add64 ctx.st.shm_setup_reqs 1 })) {
      last_req_ns = now;
    },
  )

  unfoldable pub request : Ctx D → ℕ → M (Rc × Ctx D)
  unfolding after_request Uds.send
  request ctx now =
      if ltb resend_ns (sub64 now ctx.last_req_ns)
      then Uds.send (request_frame ctx) >>= (λ rc. return (after_request ctx now rc))
      else return (done 0, ctx)

  unfoldable pub after_map : Rc × Ctx D → Rc × Ctx D
  after_map (fail e, ctx) = (fail e, ctx)
  after_map (done n, ctx) = (done 0, record ctx { negot_done = true })

  -- What one receive of the wait leads to; `again` is the next round.
  unfoldable pub heard : (Ctx D → M (Rc × Ctx D)) → ℕ → Ctx D → Rc × List ℕ → M (Rc × Ctx D)
  unfolding producer_map_ring after_map now_ns
  heard again deadline ctx (fail e, frame) =
      if e == eagain
      then now_ns >>= (λ t. if ltb deadline t then return (fail etimedout, ctx) else again ctx)
      else return (fail e, ctx)
  heard again deadline ctx (done n, frame) =
      let acked = count ctx (record ctx.st { shm_setup_acks = add64 ctx.st.shm_setup_acks 1 }) in
      if is_ack frame
      then producer_map_ring acked >>= (λ mapped. return (after_map mapped))
      else again ctx

  -- `for (;;)`: each round uses up an answer of `poll`, since the timeout is not 0.
  unfoldable pub await_ack : ℕ → ℕ → Ctx D → M (Rc × Ctx D)
  unfolding heard Uds.recv_timeout now_ns
  await_ack zero deadline ctx w = none
  await_ack (suc fuel) deadline ctx w =
      let round = now_if ctx.stats_on >>= λ t0. Uds.recv_timeout ctx.rxbuf_cap poll_ms >>= λ got.
      now_if ctx.stats_on >>= λ t1.
      heard (await_ack fuel deadline) deadline
        (count ctx (record ctx.st { negot_wait_ns = add64 ctx.st.negot_wait_ns (sub64 t1 t0) }))
        got in
      round w

  abbrev await_all : ℕ → Ctx D → M (Rc × Ctx D)
  await_all now ctx w = await_ack (suc (length w.poll)) (add64 now deadline_ns) ctx w

  unfoldable pub after_first : ℕ → Rc × Ctx D → M (Rc × Ctx D)
  unfolding await_ack
  after_first now (fail e, ctx) = return (fail e, ctx)
  after_first now (done n, ctx) = await_all now ctx

  -- `producer_ensure_shm`.
  unfoldable pub producer_ensure_shm : Ctx D → ℕ → M (Rc × Ctx D)
  unfolding after_first request
  producer_ensure_shm ctx now =
      if ctx.negot_done
      then return (done 0, ctx)
      else named ctx >>= λ c. request c now >>= after_first now

  -- The status byte for what a mapping gave; `(uint8_t) -ENOMEM` is 244.
  unfoldable pub grown_status : Rc × Ctx D → M (ℕ × Ctx D)
  unfolding ring_close
  grown_status (done n, ctx) w = some ((0, ctx), w)
  grown_status (fail e, ctx) w =
      some ((244, record ctx { ring = none }), ring_close ctx.ring false w)

  unfoldable pub map_status : Ctx D → ℕ → Rc × Option Ring → M (ℕ × Ctx D)
  unfolding grow_rxbuf grown_status
  map_status ctx cap (fail e, ring) = return (e % 256, ctx)
  map_status ctx cap (done n, ring) = grow_rxbuf (record ctx { ring = ring }) cap >>= grown_status

  unfoldable pub serve_setup : Ctx D → ℕ → List ℕ → M (ℕ × Ctx D)
  unfolding map_status ring_attach
  serve_setup ctx cap name = elim ctx.ring [
    | none ↦ ring_attach name cap consumer >>= map_status ctx cap
    | some r ↦ return (0, ctx)
  ]

  -- The acknowledgement; whether it could be sent is ignored.
  unfoldable pub acknowledge : ℕ × Ctx D → M (Ctx D)
  unfolding Uds.send
  acknowledge (status, ctx) =
      let counted = count ctx (record ctx.st { shm_setup_acks = add64 ctx.st.shm_setup_acks 1 }) in
      Uds.send (tag_ctrl ∷ setup_ack ∷ status ∷ []) >>= λ rc.
      return (if status == 0 then counted else ctx)

  -- `handle_control`.
  unfoldable pub handle_control : Ctx D → List ℕ → M (Ctx D)
  unfolding acknowledge serve_setup c_string has_nul
  handle_control ctx frame =
      let cap = frame_u32 frame 2 in
      let name = drop 6 frame in
      if ltb (length frame) 7 || not (get_or frame 1 0 == setup_req)
      then return ctx
      else if (cap == 0) || ltb 1_073_741_824 cap || not (has_nul name)
      then return ctx
      else serve_setup ctx cap (c_string name) >>= acknowledge
