-- ===== src/Router/Keeps.antt =====
-- src/adapt_ipc.c: what the producer's handshake leaves alone.
use adaptipc.Base.{
  ℕ, zero, suc, ◌≡◌, refl, ◌∙◌, Bool, true, false, ltb, leb, ◌==◌, Bool-cases, inl, inr,
  if◌then◌else◌, Option, List, [], ◌∷◌, arith, length, add64, sub64,
}
use adaptipc.Base.Errno.{Rc, done, fail, eagain, etimedout}
use adaptipc.Ring.{Ring}
use adaptipc.Ring.Open.{producer}
use adaptipc.World.{World, M, ◌>>=◌, return, now_ns}
use adaptipc.World.Post.{Post, Post-map, >>=-Post, >>=-Post_any}
use adaptipc.Uds as Uds
use adaptipc.Router.Types.{Ctx, Stats, count, now_if, ring_attach, grow_with, grow_rxbuf}
use adaptipc.Router.Negotiate.{
  producer_map_ring, keep_mapped, keep_grown, request, request_frame, after_request, named, heard,
  after_map, await_ack, after_first, producer_ensure_shm, is_ack, poll_ms, resend_ns, deadline_ns,
}

module _ {D : Type 0} where
  -- What only a classification changes: the smoothed size, the last route and the log of decisions.
  abbrev pub Keeps : Ctx D → Ctx D → Type 0
  Keeps a b =
      (b.ewma_size ≡ a.ewma_size)
      × (b.last_route ≡ a.last_route)
      × (b.decision_seq ≡ a.decision_seq)
      × (b.declog ≡ a.declog)

  pub Keeps-trans : (a b c : Ctx D) → Keeps a b → Keeps b c → Keeps a c
  Keeps-trans a b c (e, f, g, h) (e', f', g', h') = (e' ∙ e, f' ∙ f, g' ∙ g, h' ∙ h)

  pub count-Keeps : (ctx : Ctx D) (st : Stats) → Keeps ctx (count ctx st)
  count-Keeps ctx st = ground arith

  -- The value of a computation on a context keeps it, with its world or without.
  abbrev pub Kept : {A : Type 0} → Ctx D → A × Ctx D → World → Type 0
  Kept a (x, b) w = Keeps a b

  pub Kept-map :
      {A : Type 0} (a b : Ctx D) (o : Option ((A × Ctx D) × World))
      → Keeps a b
      → Post (Kept b) o
      → Post (Kept a) o
  Kept-map a b o k p = Post-map (Kept b) (Kept a) o p (λ x w q. Keeps-trans a b x.1 k q)

  grow-Keeps : (ctx : Ctx D) (cap : ℕ) (w : World) → Post (Kept ctx) (grow_rxbuf ctx cap w)
  unfolding grow_rxbuf
  grow-Keeps ctx cap w = elim (Bool-cases (leb cap ctx.rxbuf_cap)) [
    | inl y ↦ rw y (refl, refl, refl, refl)
    | inr n ↦ rw n (by_answers w.realloc)
  ]
    where
      by_answers : (answers : List Bool) → Post (Kept ctx) (grow_with answers ctx cap w)
      by_answers [] = tt
      by_answers (true ∷ answers) = (refl, refl, refl, refl)
      by_answers (false ∷ answers) = (refl, refl, refl, refl)

  keep_grown-Keeps :
      (a : Ctx D) (grown : Rc × Ctx D) (w : World)
      → Keeps a grown.1
      → Post (Kept a) (keep_grown grown w)
  unfolding keep_grown
  keep_grown-Keeps a (done n, ctx) w k = k
  keep_grown-Keeps a (fail e, ctx) w k = k

  map_ring-Keeps : (ctx : Ctx D) (w : World) → Post (Kept ctx) (producer_map_ring ctx w)
  unfolding producer_map_ring
  map_ring-Keeps ctx w =
      >>=-Post_any (Kept ctx) (ring_attach ctx.neg_name ctx.shm_capacity producer)
        (keep_mapped ctx ctx.shm_capacity) w kept
    where
      kept :
          (opened : Rc × Option Ring) (w' : World)
          → Post (Kept ctx) (keep_mapped ctx ctx.shm_capacity opened w')
      kept (fail x, ring) w' = (refl, refl, refl, refl)
      kept (done n, ring) w' =
          >>=-Post (Kept ctx) (Kept ctx) (grow_rxbuf (record ctx { ring = ring }) ctx.shm_capacity)
            keep_grown w' (grow-Keeps (record ctx { ring = ring }) ctx.shm_capacity w')
            (keep_grown-Keeps ctx)

  after_request-Keeps : (ctx : Ctx D) (now : ℕ) (rc : Rc) → Keeps ctx (after_request ctx now rc).1
  unfolding after_request
  after_request-Keeps ctx now (fail e) = (refl, refl, refl, refl)
  after_request-Keeps ctx now (done n) = count-Keeps ctx _

  request-Keeps : (ctx : Ctx D) (now : ℕ) (w : World) → Post (Kept ctx) (request ctx now w)
  unfolding request
  request-Keeps ctx now w = elim (Bool-cases (ltb resend_ns (sub64 now ctx.last_req_ns))) [
    | inl y ↦ rw y (
        >>=-Post_any (Kept ctx) (Uds.send (request_frame ctx)) _ w
          (λ rc w'. after_request-Keeps ctx now rc))
    | inr y ↦ rw y (refl, refl, refl, refl)
  ]

  after_map-Keeps : (a : Ctx D) (out : Rc × Ctx D) → Keeps a out.1 → Keeps a (after_map out).1
  unfolding after_map
  after_map-Keeps a (done n, ctx) k = k
  after_map-Keeps a (fail e, ctx) k = k

  heard-Keeps :
      (again : Ctx D → M (Rc × Ctx D)) (deadline : ℕ) (ctx : Ctx D) (got : Rc × List ℕ) (w : World)
      → ((w : World) → Post (Kept ctx) (again ctx w))
      → Post (Kept ctx) (heard again deadline ctx got w)
  unfolding heard
  heard-Keeps again deadline ctx (fail e, frame) w h = elim (Bool-cases (e == eagain)) [
    | inl y ↦ rw y (>>=-Post_any (Kept ctx) now_ns _ w (λ t w'. late (ltb deadline t) w'))
    | inr y ↦ rw y (refl, refl, refl, refl)
  ]
    where
      late :
          (b : Bool) (w' : World)
          → Post (Kept ctx) ((if b then return (fail etimedout, ctx) else again ctx) w')
      late true w' = (refl, refl, refl, refl)
      late false w' = h w'
  heard-Keeps again deadline ctx (done n, frame) w h = elim (Bool-cases (is_ack frame)) [
    | inl y ↦ rw y (
        acked_ring (count ctx (record ctx.st { shm_setup_acks = add64 ctx.st.shm_setup_acks 1 }))
          (count-Keeps ctx _))
    | inr y ↦ rw y (h w)
  ]
    where
      acked_ring :
          (acked : Ctx D)
          → Keeps ctx acked
          → Post (Kept ctx) ((producer_map_ring acked >>= λ mapped. return (after_map mapped)) w)
      acked_ring acked k = Kept-map ctx acked _ k (
          >>=-Post (Kept acked) (Kept acked) (producer_map_ring acked)
            (λ mapped. return (after_map mapped)) w (map_ring-Keeps acked w)
            (λ out w' q. after_map-Keeps acked out q))

  await_ack-Keeps :
      (fuel deadline : ℕ) (ctx : Ctx D) (w : World)
      → Post (Kept ctx) (await_ack fuel deadline ctx w)
  unfolding await_ack
  await_ack-Keeps zero deadline ctx w = tt
  await_ack-Keeps (suc fuel) deadline ctx w =
      >>=-Post_any (Kept ctx) (now_if ctx.stats_on) _ w (λ t0 w0.
        >>=-Post_any (Kept ctx) (Uds.recv_timeout ctx.rxbuf_cap poll_ms) _ w0 (λ got w1.
          >>=-Post_any (Kept ctx) (now_if ctx.stats_on) _ w1 (λ t1 w2.
            let counted =
              count ctx
                (record ctx.st { negot_wait_ns = add64 ctx.st.negot_wait_ns (sub64 t1 t0) }) in
            Kept-map ctx counted _ (count-Keeps ctx _) (
              heard-Keeps (await_ack fuel deadline) deadline counted got w2
                (λ w'. await_ack-Keeps fuel deadline counted w')))))

  named-Keeps : (ctx : Ctx D) (w : World) → Post (λ c w'. Keeps ctx c) (named ctx w)
  named-Keeps ctx w = by_name ctx.neg_name
    where
      by_name :
          (name : List ℕ)
          → Keeps ctx (elim name [ [] ↦ record ctx { neg_name = w.fresh_name } | c ∷ cs ↦ ctx ])
      by_name [] = (refl, refl, refl, refl)
      by_name (c ∷ cs) = (refl, refl, refl, refl)

  after_first-Keeps :
      (now : ℕ) (out : Rc × Ctx D) (w : World) → Post (Kept out.1) (after_first now out w)
  unfolding after_first
  after_first-Keeps now (fail e, ctx) w = (refl, refl, refl, refl)
  after_first-Keeps now (done n, ctx) w =
      await_ack-Keeps (suc (length w.poll)) (add64 now deadline_ns) ctx w

  pub ensure-Keeps :
      (ctx : Ctx D) (now : ℕ) (w : World) → Post (Kept ctx) (producer_ensure_shm ctx now w)
  unfolding producer_ensure_shm
  ensure-Keeps ctx now w = by_done ctx.negot_done
    where
      asked : Post (Kept ctx) ((named ctx >>= λ c. request c now >>= after_first now) w)
      asked =
          >>=-Post (λ c w'. Keeps ctx c) (Kept ctx) (named ctx)
            (λ c. request c now >>= after_first now) w (named-Keeps ctx w)
            (λ c w' k. Kept-map ctx c _ k (
              >>=-Post (Kept c) (Kept c) (request c now) (after_first now) w'
                (request-Keeps c now w')
                (λ out w'' q. Kept-map c out.1 _ q (after_first-Keeps now out w''))))

      by_done :
          (b : Bool)
          → Post (Kept ctx) (
              (if b
                  then return (done 0, ctx)
                  else (named ctx >>= λ c. request c now >>= after_first now))
                w)
      by_done true = (refl, refl, refl, refl)
      by_done false = asked
