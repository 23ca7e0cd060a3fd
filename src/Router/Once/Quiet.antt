-- ===== src/Router/Once/Quiet.antt =====
-- src/adapt_ipc.c: what each stage of `adapt_send` leaves alone of the ring and the wire.
use adaptipc.Base.{
  ℕ, ◌≡◌, refl, ◌∙◌, Bool, true, false, not, ◌==◌, ◌&&◌, if◌then◌else◌, some, List, ◌∷◌, arith,
  length, add64, sub64,
}
use adaptipc.Base.Errno.{Rc, done, fail}
use adaptipc.Double.{Double, real}
use adaptipc.World.{World, M, ◌>>=◌, return, now_ns}
use adaptipc.World.Post.{Post, >>=-Post, >>=-Post_any}
use adaptipc.Cost.Types.{Route, shm, uds, cost_aware, at_least}
use adaptipc.Cost.Context.{ewma}
use adaptipc.Uds as Uds
use adaptipc.Ring.{Ring}
use adaptipc.Router.Types.{Ctx, count, now_if}
use adaptipc.Router.Classify.{observe_attempt, observe_health, is_retry, settle, classify, admit}
use adaptipc.Router.Send.{
  framed, push_on, ring_push, calibrated, count_copy, is_done, send_shm, end_uds, send_uds,
}
use adaptipc.Router.Delivery.Sent.{
  frames, count_ring, count_mode, Carried, Pushed, send_shm_refines,
}
use adaptipc.Router.Delivery.Sent as Sent
use adaptipc.Router.Datagram.Posting.{Wired, now_ns-Post, now_if-Post, send_uds-Post}
use adaptipc.Router.Datagram.Posting as Posting

module _ {D : Type 0} where
  -- Neither the ring, nor the mode, nor the wire has changed.
  abbrev pub Unmoved : {A : Type 0} → Ctx D → World → A × Ctx D → World → Type 0
  Unmoved a w (x, c) w' =
      (c.ring ≡ a.ring) × (c.nonblocking_send ≡ a.nonblocking_send) × (w'.wire ≡ w.wire)

  module _ ⦃dbl : Double D⦄ where
    push_on-wire :
        (ctx : Ctx D) (r : Ring) (bytes : List ℕ) (w : World)
        → ctx.ring ≡ some r
        → ctx.nonblocking_send ≡ true
        → Post (λ out w'. w'.wire ≡ w.wire) (push_on ctx (framed bytes) w)
    unfolding ring_push
    push_on-wire ctx r bytes w e f = rw (e, f) refl

    pub send_shm-wire :
        (p : Ctx D) (r : Ring) (bytes : List ℕ) (w : World)
        → p.ring ≡ some r
        → p.nonblocking_send ≡ true
        → Post (λ out w'. w'.wire ≡ w.wire) (send_shm p bytes w)
    unfolding send_shm
    send_shm-wire p r bytes w e f =
        let Q = λ (out : Rc × Ctx D) (w' : World). w'.wire ≡ w.wire in
        let counted = count p (record p.st { sends_shm = add64 p.st.sends_shm 1 }) in
        >>=-Post (λ t w'. w'.wire ≡ w.wire) Q (now_if p.stats_on) _ w (now_if-Post p.stats_on w)
          (λ t0 w0 e0.
            >>=-Post (λ t w'. w'.wire ≡ w0.wire) Q (now_if (at_least p.policy cost_aware)) _ w0
              (now_if-Post (at_least p.policy cost_aware) w0)
              (λ t w1 e1.
                >>=-Post (λ out w'. w'.wire ≡ w1.wire) Q (push_on counted (framed bytes)) _ w1
                  (push_on-wire counted r bytes w1 (count_ring p _ ∙ e) (count_mode p _ ∙ f))
                  (λ (rc, pushed) w2 e2.
                    >>=-Post (λ c w'. w'.wire ≡ w2.wire) Q
                      (calibrated (not (t == 0)) pushed shm (length bytes) t) _ w2
                      (Posting.calibrated-Post (not (t == 0)) pushed shm (length bytes) t w2)
                      (λ taught w3 e3.
                        >>=-Post (λ t w'. w'.wire ≡ w3.wire) Q (now_if p.stats_on) _ w3
                          (now_if-Post p.stats_on w3) (λ t1 w4 e4. e4 ∙ e3 ∙ e2 ∙ e1 ∙ e0)))))

    end_uds_ring : (rc : Rc) (ctx : Ctx D) → (end_uds rc ctx).1.ring ≡ ctx.ring
    unfolding end_uds
    end_uds_ring (done n) ctx = refl
    end_uds_ring (fail e) ctx = ground arith

    pub send_uds-ring :
        (p : Ctx D) (bytes : List ℕ) (w : World)
        → Post (λ out w'. out.1.ring ≡ p.ring) (send_uds p bytes w)
    unfolding send_uds
    send_uds-ring p bytes w =
        let Q = λ (out : Rc × Ctx D) (w' : World). out.1.ring ≡ p.ring in
        let counted = count p (record p.st { sends_uds = add64 p.st.sends_uds 1 }) in
        >>=-Post_any Q (now_if p.stats_on) _ w (λ t0 w0.
          >>=-Post_any Q (now_if (at_least p.policy cost_aware)) _ w0 (λ t w1.
            >>=-Post_any Q (now_if p.stats_on) _ w1 (λ t1 w2.
              let copied = count counted (count_copy counted (length bytes) t0 t1) in
              >>=-Post_any Q (Uds.send (2 ∷ bytes)) _ w2 (λ rc w3.
                >>=-Post (λ c w'. c.ring ≡ copied.ring) Q
                  (calibrated (not (t == 0) && is_done rc) copied uds (length bytes) t) _ w3
                  (Sent.calibrated-Post (not (t == 0) && is_done rc) copied uds (length bytes) t w3)
                  (λ taught w4 e.
                    end_uds_ring rc taught ∙ e ∙ count_ring counted _ ∙ count_ring p _)))))

    settle_ring :
        (ctx : Ctx D) (size now clock : ℕ)
        → ((settle ctx size now clock).1.ring ≡ ctx.ring)
          × ((settle ctx size now clock).1.nonblocking_send ≡ ctx.nonblocking_send)
    unfolding settle
    settle_ring ctx size now clock = ground arith

    pub observe_ring :
        (ctx : Ctx D) (size now : ℕ)
        → ((observe_attempt ctx size now).ring ≡ ctx.ring)
          × ((observe_attempt ctx size now).nonblocking_send ≡ ctx.nonblocking_send)
    unfolding observe_attempt observe_health
    observe_ring ctx size now = ground arith

    pub admit_ring :
        (ctx : Ctx D) (size : ℕ) (route : Route)
        → ((admit ctx size route).1.ring ≡ ctx.ring)
          × ((admit ctx size route).1.nonblocking_send ≡ ctx.nonblocking_send)
    unfolding admit
    admit_ring ctx size route = ground arith

    pub classify-Unmoved :
        (ctx : Ctx D) (size now : ℕ) (w : World) → Post (Unmoved ctx w) (classify ctx size now w)
    unfolding classify
    classify-Unmoved ctx size now w = by_retry (is_retry ctx size)
      where
        moved : Ctx D
        moved = record ctx { ewma_size = ewma ctx.alpha (real size) ctx.ewma_size }

        fresh : M (Route × Ctx D)
        fresh = now_if ctx.stats_on >>= λ t0. now_if ctx.stats_on >>= λ t1. now_ns >>= λ clock.
            return (
              settle
                (count moved (record ctx.st { router_ns = add64 ctx.st.router_ns (sub64 t1 t0) }))
                size now clock)

        fresh-Unmoved : Post (Unmoved ctx w) (fresh w)
        fresh-Unmoved =
            >>=-Post (λ t w'. w'.wire ≡ w.wire) (Unmoved ctx w) (now_if ctx.stats_on) _ w
              (now_if-Post ctx.stats_on w)
              (λ t0 w0 e0.
                >>=-Post (λ t w'. w'.wire ≡ w0.wire) (Unmoved ctx w) (now_if ctx.stats_on) _ w0
                  (now_if-Post ctx.stats_on w0)
                  (λ t1 w1 e1.
                    >>=-Post (λ t w'. w'.wire ≡ w1.wire) (Unmoved ctx w) now_ns _ w1
                      (now_ns-Post w1)
                      (λ clock w2 e2.
                        let c =
                          count moved
                            (record ctx.st { router_ns = add64 ctx.st.router_ns (sub64 t1 t0) }) in
                        let (ring, mode) = settle_ring c size now clock in
                        (ring ∙ count_ring moved _, mode ∙ count_mode moved _, e2 ∙ e1 ∙ e0))))

        by_retry :
            (retry : Bool)
            → Post (Unmoved ctx w) ((if retry then return (ctx.pending_route, ctx) else fresh) w)
        by_retry true = (refl, refl, refl)
        by_retry false = fresh-Unmoved
