-- ===== src/Router/Retry.antt =====
-- src/adapt_ipc.c: what a retry of `adapt_send` leaves alone, whatever happens behind the classification.
use adaptipc.Base.{
  ℕ, ◌≡◌, refl, sym, ◌∙◌, Bool, true, false, not, ◌==◌, ◌&&◌, if◌then◌else◌, Option, none, some,
  List, ◌∷◌, arith, length, add64,
}
use adaptipc.Base.Errno.{Rc, done, fail, eperm, einval}
use adaptipc.Double.{Double}
use adaptipc.Ring.{Ring, Segment}
use adaptipc.Ring.Open.{Role, producer, consumer}
use adaptipc.World.{World, M, ◌>>=◌, return, now_ns}
use adaptipc.World.Post.{Post, >>=-Post, >>=-Post_any, Post_of, >>=-run}
use adaptipc.Cost.Types.{Route, undecided, shm, uds, same_route, cost_aware, at_least}
use adaptipc.Uds as Uds
use adaptipc.Router.Types.{Ctx, Stats, count, now_if}
use adaptipc.Router.Negotiate.{producer_ensure_shm}
use adaptipc.Router.Classify.{
  Verdict, carry, stop, observe_attempt, observe_health, is_retry, classify, admit, fall_back,
  negotiate, is_mapped,
}
use adaptipc.Router.Send.{
  framed, ring_push, push_on, calibrate, calibrated, count_copy, count_send, ring_parks, is_done,
  end_shm, send_shm, end_uds, send_uds, transmit, adapt_send,
}
use mathlib.Core.Path.{subst}
use adaptipc.Router.Laws.{classify_retry}
use adaptipc.Router.Keeps.{Keeps, Keeps-trans, count-Keeps, Kept, Kept-map, ensure-Keeps}

module _ {D : Type 0} ⦃dbl : Double D⦄ where
  push_on-Keeps :
      (ctx : Ctx D) (segs : List Segment) (w : World) → Post (Kept ctx) (push_on ctx segs w)
  push_on-Keeps ctx segs w = by_ring ctx.ring
    where
      by_push :
          (o : Option ((Rc × Ring) × World))
          → Post (Kept ctx) (elim o [
            | none ↦ none
            | some ((rc, r'), w') ↦ some ((rc, record ctx { ring = some r' }), w')
          ])
      by_push none = tt
      by_push (some ((rc, r'), w')) = (refl, refl, refl, refl)

      by_ring :
          (ring : Option Ring)
          → Post (Kept ctx) (elim ring [
            | none ↦ some ((fail einval, ctx), w)
            | some r ↦
                elim (ring_push ctx.nonblocking_send (at_least ctx.policy cost_aware) segs r w) [
                  | none ↦ none
                  | some ((rc, r'), w') ↦ some ((rc, record ctx { ring = some r' }), w')
                ]
          ])
      by_ring none = (refl, refl, refl, refl)
      by_ring (some r) =
          by_push (ring_push ctx.nonblocking_send (at_least ctx.policy cost_aware) segs r w)

  calibrated-Keeps :
      (on : Bool) (ctx : Ctx D) (route : Route) (size t : ℕ) (w : World)
      → Post (λ c w'. Keeps ctx c) (calibrated on ctx route size t w)
  unfolding calibrated calibrate
  calibrated-Keeps true ctx route size t w =
      >>=-Post_any (λ c w'. Keeps ctx c) now_ns _ w (λ u w'. (refl, refl, refl, refl))
  calibrated-Keeps false ctx route size t w = (refl, refl, refl, refl)

  end_shm-Keeps : (rc : Rc) (ctx : Ctx D) → Keeps ctx (end_shm rc ctx).1
  unfolding end_shm
  end_shm-Keeps (done n) ctx = (refl, refl, refl, refl)
  end_shm-Keeps (fail e) ctx = (refl, refl, refl, refl)

  end_uds-Keeps : (rc : Rc) (ctx : Ctx D) → Keeps ctx (end_uds rc ctx).1
  unfolding end_uds
  end_uds-Keeps (done n) ctx = (refl, refl, refl, refl)
  end_uds-Keeps (fail e) ctx = ground arith

  send_shm-Keeps :
      (ctx : Ctx D) (bytes : List ℕ) (w : World) → Post (Kept ctx) (send_shm ctx bytes w)
  unfolding send_shm
  send_shm-Keeps ctx bytes w =
      let counted = count ctx (record ctx.st { sends_shm = add64 ctx.st.sends_shm 1 }) in
      >>=-Post_any (Kept ctx) (now_if ctx.stats_on) _ w (λ t0 w0.
        >>=-Post_any (Kept ctx) (now_if (at_least ctx.policy cost_aware)) _ w0 (λ t w1.
          Kept-map ctx counted _ (count-Keeps ctx _) (
            >>=-Post (Kept counted) (Kept counted) (push_on counted (framed bytes)) _ w1
              (push_on-Keeps counted (framed bytes) w1)
              (λ (rc, pushed) w2 k. Kept-map counted pushed _ k (
                >>=-Post (λ c w'. Keeps pushed c) (Kept pushed)
                  (calibrated (not (t == 0)) pushed shm (length bytes) t) _ w2
                  (calibrated-Keeps (not (t == 0)) pushed shm (length bytes) t w2)
                  (λ taught w3 q. >>=-Post_any (Kept pushed) (now_if ctx.stats_on) _ w3 (λ t1 w4.
                    let st = record (count_copy taught (length bytes) t0 t1) {
                      backpressure_parks = ring_parks taught.ring;
                    } in
                    Keeps-trans pushed taught (end_shm rc (count taught st)).1 q
                      (ended rc taught st))))))))
    where
      ended : (rc : Rc) (c : Ctx D) (st : Stats) → Keeps c (end_shm rc (count c st)).1
      ended rc c st =
          Keeps-trans c (count c st) (end_shm rc (count c st)).1 (count-Keeps c st)
            (end_shm-Keeps rc (count c st))

  send_uds-Keeps :
      (ctx : Ctx D) (bytes : List ℕ) (w : World) → Post (Kept ctx) (send_uds ctx bytes w)
  unfolding send_uds
  send_uds-Keeps ctx bytes w =
      let counted = count ctx (record ctx.st { sends_uds = add64 ctx.st.sends_uds 1 }) in
      >>=-Post_any (Kept ctx) (now_if ctx.stats_on) _ w (λ t0 w0.
        >>=-Post_any (Kept ctx) (now_if (at_least ctx.policy cost_aware)) _ w0 (λ t w1.
          >>=-Post_any (Kept ctx) (now_if ctx.stats_on) _ w1 (λ t1 w2.
            let copied = count counted (count_copy counted (length bytes) t0 t1) in
            Kept-map ctx counted _ (count-Keeps ctx _) (
              Kept-map counted copied _ (count-Keeps counted _) (
                >>=-Post_any (Kept copied) (Uds.send (2 ∷ bytes)) _ w2 (λ rc w3.
                  >>=-Post (λ c w'. Keeps copied c) (Kept copied)
                    (calibrated (not (t == 0) && is_done rc) copied uds (length bytes) t) _ w3
                    (calibrated-Keeps (not (t == 0) && is_done rc) copied uds (length bytes) t w3)
                    (λ taught w4 q.
                      Keeps-trans copied taught (end_uds rc taught).1 q
                        (end_uds-Keeps rc taught))))))))

  transmit-Keeps :
      (bytes : List ℕ) (verdict : Verdict × Ctx D) (w : World)
      → Post (Kept verdict.1) (transmit bytes verdict w)
  unfolding transmit
  transmit-Keeps bytes (stop rc, ctx) w = (refl, refl, refl, refl)
  transmit-Keeps bytes (carry shm, ctx) w = send_shm-Keeps ctx bytes w
  transmit-Keeps bytes (carry uds, ctx) w = send_uds-Keeps ctx bytes w
  transmit-Keeps bytes (carry undecided, ctx) w = send_uds-Keeps ctx bytes w

  fall_back-Keeps : (size : ℕ) (out : Rc × Ctx D) → Keeps out.1 (fall_back size out).1
  unfolding fall_back
  fall_back-Keeps size (done n, ctx) = (refl, refl, refl, refl)
  fall_back-Keeps size (fail e, ctx) = ground arith

  negotiate-Keeps :
      (size : ℕ) (verdict : Verdict × Ctx D) (w : World)
      → Post (Kept verdict.1) (negotiate size verdict w)
  unfolding negotiate
  negotiate-Keeps size (stop rc, ctx) w = (refl, refl, refl, refl)
  negotiate-Keeps size (carry route, ctx) w =
      by_need (same_route route shm && not (is_mapped ctx.ring))
    where
      by_need :
          (b : Bool)
          → Post (Kept ctx) (
              (if b
                  then (now_ns
                      >>= (λ t. producer_ensure_shm ctx t >>= λ o. return (fall_back size o)))
                  else return (carry route, ctx))
                w)
      by_need true = >>=-Post_any (Kept ctx) now_ns _ w (λ t w'.
          >>=-Post (Kept ctx) (Kept ctx) (producer_ensure_shm ctx t)
            (λ o. return (fall_back size o)) w' (ensure-Keeps ctx t w')
            (λ out w'' k.
              Keeps-trans ctx out.1 (fall_back size out).1 k (fall_back-Keeps size out)))
      by_need false = (refl, refl, refl, refl)

  admit-Keeps : (ctx : Ctx D) (size : ℕ) (route : Route) → Keeps ctx (admit ctx size route).1
  unfolding admit
  admit-Keeps ctx size route = ground arith

  observe-Keeps : (ctx : Ctx D) (size now : ℕ) → Keeps ctx (observe_attempt ctx size now)
  unfolding observe_attempt observe_health
  observe-Keeps ctx size now = ground arith

  count_send-Keeps :
      (route : Route) (ctx : Ctx D)
      → ((count_send (route, ctx)).0 ≡ route) × Keeps ctx (count_send (route, ctx)).1
  count_send-Keeps route ctx = (refl, count-Keeps ctx _)

  -- What follows the classification.
  carried-Keeps :
      (ctx : Ctx D) (bytes : List ℕ) (size : ℕ) (route : Route) (w : World)
      → Post
          (Kept ctx)
          ((negotiate size (admit (count_send (route, ctx)).1 size route) >>= transmit bytes) w)
  carried-Keeps ctx bytes size route w =
      let c = (count_send (route, ctx)).1 in
      let a = admit c size route in
      Kept-map ctx c _ (count-Keeps ctx _) (
        Kept-map c a.1 _ (admit-Keeps c size route) (
          >>=-Post (Kept a.1) (Kept a.1) (negotiate size a) (transmit bytes) w
            (negotiate-Keeps size a w)
            (λ v w' k. Kept-map a.1 v.1 _ k (transmit-Keeps bytes v w'))))

  -- Sampling the clock leaves the retry to come as it was.
  observe-retry :
      (ctx : Ctx D) (size now : ℕ)
      → is_retry (observe_attempt ctx size now) size ≡ is_retry ctx size
  unfolding observe_attempt observe_health
  observe-retry ctx size now = ground arith

  retried :
      (ctx : Ctx D) (bytes : List ℕ) (now : ℕ) (w : World)
      → is_retry ctx (length bytes) ≡ true
      → Post (Kept ctx) (
          (classify (observe_attempt ctx (length bytes) now) (length bytes) now >>= λ classified.
          let (route, c) = count_send classified in
          negotiate (length bytes) (admit c (length bytes) route) >>= transmit bytes)
            w)
  retried ctx bytes now w retry =
      let seen = observe_attempt ctx (length bytes) now in
      Kept-map ctx seen _ (observe-Keeps ctx (length bytes) now) (
        subst (Post (Kept seen))
          (sym (
            >>=-run (classify seen (length bytes) now) _ (
              classify_retry seen (length bytes) now w
                (observe-retry ctx (length bytes) now ∙ retry))))
          (carried-Keeps seen bytes (length bytes) seen.pending_route w))

  -- A retry of a message is blind to what happened in between: where the size is the one of the message
  -- that found no room and whose route is stored, a send that returns, with whatever result, by
  -- whatever transport and with a handshake or without one, leaves the smoothed size, the last decided
  -- route and the log of decisions with its sequence number as they were.
  pub adapt_send_retry :
      (ctx c : Ctx D) (bytes : List ℕ) (w w' : World) (rc : Rc)
      → is_retry ctx (length bytes) ≡ true
      → adapt_send ctx bytes w ≡ some ((rc, c), w')
      → Keeps ctx c
  unfolding adapt_send
  adapt_send_retry ctx c bytes w w' rc retry e = Post_of (Kept ctx) e (by_size (length bytes == 0))
    where
      checked : M (Rc × Ctx D)
      checked = now_ns >>= λ now.
          classify (observe_attempt ctx (length bytes) now) (length bytes) now >>= λ classified.
          let (route, c) = count_send classified in
          negotiate (length bytes) (admit c (length bytes) route) >>= transmit bytes

      by_role :
          (role : Role)
          → Post (Kept ctx) (
              (elim role as (λ x. M (Rc × Ctx D)) [
                | producer ↦ checked
                | consumer ↦ return (fail eperm, ctx)
              ])
                w)
      by_role producer =
          >>=-Post_any (Kept ctx) now_ns _ w (λ now w1. retried ctx bytes now w1 retry)
      by_role consumer = (refl, refl, refl, refl)

      by_size :
          (empty : Bool)
          → Post (Kept ctx) (
              (if empty then return (fail einval, ctx) else elim ctx.role as (λ x. M (Rc × Ctx D)) [
                | producer ↦ checked
                | consumer ↦ return (fail eperm, ctx)
              ])
                w)
      by_size true = (refl, refl, refl, refl)
      by_size false = by_role ctx.role
