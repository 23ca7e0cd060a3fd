-- ===== src/Router/Ledger/Ensure.antt =====
-- src/adapt_ipc.c: the mapped rings are the rings that contexts have, through
-- `producer_ensure_shm`.
use adaptipc.Base.{
  ℕ, zero, suc, ◌≡◌, refl, ◌∙◌, Bool, true, false, ◌==◌, ltb, if◌then◌else◌, none, List, [], ◌∷◌,
  arith, length, add64, sub64,
}
use adaptipc.Base.Errno.{Rc, done, fail, eagain, etimedout}
use adaptipc.World.{World, M, ◌>>=◌, return, now_ns}
use adaptipc.World.Post.{Post, >>=-Post}
use adaptipc.Uds as Uds
use adaptipc.Router.Types.{Ctx, Stats, count, now_if}
use adaptipc.Router.Negotiate.{
  deadline_ns, resend_ns, poll_ms, is_ack, producer_map_ring, named, request_frame, after_request,
  request, after_map, heard, await_ack, after_first, producer_ensure_shm,
}
use adaptipc.Router.Ledger.Still.{Still, now_ns-Still, now_if-Still, send-Still, recv_timeout-Still}
use adaptipc.Router.Ledger.Handles.{
  Moves, Stays, Stays-Moves, Moves-trans, Via, Moves-Post, >>=-Moves, >>=-Still, Moves-refl,
  count-Moves, second, producer_map_ring-Moves,
}

module _ {D : Type 0} where
  after_map-Moves : (out : Rc × Ctx D) (w : World) → Moves out.1 w (after_map out).1 w
  unfolding after_map
  after_map-Moves (done n, c) w = (refl, refl, refl)
  after_map-Moves (fail e, c) w = (refl, refl, refl)

  heard-Moves :
      (again : Ctx D → M (Rc × Ctx D)) (deadline : ℕ) (a : Ctx D) (got : Rc × List ℕ) (w : World)
      → a.ring ≡ none
      → ((v : World) → Post (Via second a v) (again a v))
      → Post (Via second a w) (heard again deadline a got w)
  unfolding heard
  heard-Moves again deadline a (fail e, frame) w bare h = by_code (e == eagain)
    where
      late :
          (b : Bool) (v : World)
          → Post (Via second a v) ((if b then return (fail etimedout, a) else again a) v)
      late true v = Moves-refl a v
      late false v = h v

      by_code :
          (b : Bool)
          → Post (Via second a w) (
              (if b
                  then (now_ns
                      >>= (λ t. if ltb deadline t then return (fail etimedout, a) else again a))
                  else return (fail e, a))
                w)
      by_code true = >>=-Still second a now_ns _ w (now_ns-Still w) (λ t v. late (ltb deadline t) v)
      by_code false = Moves-refl a w
  heard-Moves again deadline a (done n, frame) w bare h = by_ack (is_ack frame)
    where
      acked : Ctx D
      acked = count a (record a.st { shm_setup_acks = add64 a.st.shm_setup_acks 1 })

      bare_ack : acked.ring ≡ none
      bare_ack = ground arith

      by_ack :
          (b : Bool)
          → Post (Via second a w) (
              (if b
                  then (producer_map_ring acked >>= (λ mapped. return (after_map mapped)))
                  else again a)
                w)
      by_ack true = Moves-Post second a acked w w _ (count-Moves a _ w) (
          >>=-Moves second second acked (producer_map_ring acked)
            (λ mapped. return (after_map mapped)) w (producer_map_ring-Moves acked w bare_ack)
            after_map-Moves)
      by_ack false = h w

  await_ack-Moves :
      (fuel deadline : ℕ) (a : Ctx D) (w : World)
      → a.ring ≡ none
      → Post (Via second a w) (await_ack fuel deadline a w)
  unfolding await_ack
  await_ack-Moves zero deadline a w bare = tt
  await_ack-Moves (suc fuel) deadline a w bare =
      >>=-Still second a (now_if a.stats_on) _ w (now_if-Still a.stats_on w) (λ t0 w0.
        >>=-Still second a (Uds.recv_timeout a.rxbuf_cap poll_ms) _ w0
          (recv_timeout-Still a.rxbuf_cap poll_ms w0)
          (λ got w1.
            >>=-Still second a (now_if a.stats_on) _ w1 (now_if-Still a.stats_on w1) (λ t1 w2.
              let st = record a.st { negot_wait_ns = add64 a.st.negot_wait_ns (sub64 t1 t0) } in
              Moves-Post second a (count a st) w2 w2 _ (count-Moves a st w2) (
                heard-Moves (await_ack fuel deadline) deadline (count a st) got w2 (bare_count st)
                  (λ v. await_ack-Moves fuel deadline (count a st) v (bare_count st))))))
    where
      bare_count : (st : Stats) → (count a st).ring ≡ none
      bare_count st = ground arith

  named-Stays : (a : Ctx D) (w : World) → Post (λ c v. Stays a w c v) (named a w)
  named-Stays a w = by_name a.neg_name
    where
      by_name :
          (name : List ℕ)
          → Stays a w (elim name [ [] ↦ record a { neg_name = w.fresh_name } | c ∷ cs ↦ a ]) w
      by_name [] = (refl, refl, refl, refl)
      by_name (c ∷ cs) = (refl, refl, refl, refl)

  request-Stays :
      (a : Ctx D) (now : ℕ) (w : World) → Post (λ out v. Stays a w out.1 v) (request a now w)
  unfolding request after_request
  request-Stays a now w = by_time (ltb resend_ns (sub64 now a.last_req_ns))
    where
      by_answer : (rc : Rc) (v : World) → Still w rc v → Stays a w (after_request a now rc).1 v
      by_answer (fail e) v (held, rings) = (refl, refl, held, rings)
      by_answer (done n) v (held, rings) = (ground arith, ground arith, held, rings)

      by_time :
          (due : Bool)
          → Post
              (λ out v. Stays a w out.1 v)
              ((if due
                  then (Uds.send (request_frame a) >>= (λ rc. return (after_request a now rc)))
                  else return (done 0, a))
                w)
      by_time true =
          >>=-Post (Still w) (λ out v. Stays a w out.1 v) (Uds.send (request_frame a))
            (λ rc. return (after_request a now rc)) w (send-Still (request_frame a) w) by_answer
      by_time false = (refl, refl, refl, refl)

  after_first-Moves :
      (now : ℕ) (out : Rc × Ctx D) (w : World)
      → out.1.ring ≡ none
      → Post (Via second out.1 w) (after_first now out w)
  unfolding after_first
  after_first-Moves now (fail e, c) w bare = Moves-refl c w
  after_first-Moves now (done n, c) w bare =
      await_ack-Moves (suc (length w.poll)) (add64 now deadline_ns) c w bare

  pub ensure-Moves :
      (a : Ctx D) (now : ℕ) (w : World)
      → a.ring ≡ none
      → Post (Via second a w) (producer_ensure_shm a now w)
  unfolding producer_ensure_shm
  ensure-Moves a now w bare = by_done a.negot_done
    where
      asked : Post (Via second a w) ((named a >>= λ c. request c now >>= after_first now) w)
      asked =
          >>=-Post (λ c v. Stays a w c v) (Via second a w) (named a)
            (λ c. request c now >>= after_first now) w (named-Stays a w)
            (λ c v s.
              >>=-Post (λ out u. Stays c v out.1 u) (Via second a w) (request c now)
                (after_first now) v (request-Stays c now v)
                (λ out u q.
                  Moves-Post second a out.1 w u _
                    (Moves-trans a c out.1 w v u (Stays-Moves a w c v s)
                      (Stays-Moves c v out.1 u q))
                    (after_first-Moves now out u (q.1 ∙ s.1 ∙ bare))))

      by_done :
          (b : Bool)
          → Post (Via second a w) (
              (if b
                  then return (done 0, a)
                  else (named a >>= λ c. request c now >>= after_first now))
                w)
      by_done true = Moves-refl a w
      by_done false = asked
