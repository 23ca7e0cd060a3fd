-- ===== src/Router/Ledger/Sending.antt =====
-- src/adapt_ipc.c: the mapped rings are the rings that contexts have, through `adapt_send`.
use adaptipc.Base.{
  ℕ, ◌≡◌, refl, ap, Bool, true, false, not, ◌&&◌, ◌==◌, if◌then◌else◌, Option, none, some, List,
  ◌∷◌, arith, length, add64, sub64,
}
use adaptipc.Base.Errno.{Rc, done, fail, einval, eperm, econnrefused}
use adaptipc.Double.{Double, real}
use adaptipc.World.{World, M, ◌>>=◌, return, now_ns}
use adaptipc.World.Post.{Post}
use adaptipc.Ring.{Ring, Segment}
use adaptipc.Ring.Open.{Role, producer, consumer}
use adaptipc.Cost.Types.{Route, undecided, shm, uds, same_route, cost_aware, at_least}
use adaptipc.Cost.Context.{ewma}
use adaptipc.Uds as Uds
use adaptipc.Router.Types.{Ctx, count, now_if, mapped}
use adaptipc.Router.Negotiate.{producer_ensure_shm}
use adaptipc.Router.Classify.{
  Verdict, carry, stop, observe_attempt, observe_health, is_retry, settle, classify, admit,
  fall_back, negotiate, is_mapped,
}
use adaptipc.Router.Send.{
  framed, ring_push, push_on, calibrate, calibrated, count_copy, count_send, ring_parks, is_done,
  end_shm, send_shm, end_uds, send_uds, transmit, adapt_send,
}
use adaptipc.Router.Ledger.Ensure.{ensure-Moves}
use adaptipc.Router.Ledger.Still.{Still, now_ns-Still, now_if-Still, send-Still, ring_push-Still}
use adaptipc.Router.Ledger.Handles.{
  Moves, Stays-Moves, Moves-trans, Via, Moves-Post, >>=-Moves, >>=-Still, Moves-refl, count-Moves,
  second, whole,
}

module _ {D : Type 0} ⦃dbl : Double D⦄ where
  push_on-Moves :
      (a : Ctx D) (segs : List Segment) (w : World) → Post (Via second a w) (push_on a segs w)
  push_on-Moves a segs w = by_ring a.ring refl
    where
      by_push :
          (r : Ring) (o : Option ((Rc × Ring) × World))
          → a.ring ≡ some r
          → Post (Still w) o
          → Post (Via second a w) (elim o as (λ o. Option ((Rc × Ctx D) × World)) [
            | none ↦ none
            | some ((rc, r'), w') ↦ some ((rc, record a { ring = some r' }), w')
          ])
      by_push r none e p = tt
      by_push r (some ((rc, r'), w')) e (held, rings) =
          let m = ap mapped e in (refl, held, omega (arith, m, rings))

      by_ring :
          (ring : Option Ring)
          → a.ring ≡ ring
          → Post (Via second a w) (elim ring as (λ o. Option ((Rc × Ctx D) × World)) [
            | none ↦ some ((fail einval, a), w)
            | some r ↦ elim (ring_push a.nonblocking_send (at_least a.policy cost_aware) segs r w) [
              | none ↦ none
              | some ((rc, r'), w') ↦ some ((rc, record a { ring = some r' }), w')
            ]
          ])
      by_ring none e = Moves-refl a w
      by_ring (some r) e =
          by_push r (ring_push a.nonblocking_send (at_least a.policy cost_aware) segs r w) e
            (ring_push-Still a.nonblocking_send (at_least a.policy cost_aware) segs r w)

  calibrated-Moves :
      (on : Bool) (a : Ctx D) (route : Route) (size t : ℕ) (w : World)
      → Post (Via whole a w) (calibrated on a route size t w)
  unfolding calibrated calibrate
  calibrated-Moves true a route size t w =
      >>=-Still whole a now_ns _ w (now_ns-Still w) (λ u v. (refl, refl, refl))
  calibrated-Moves false a route size t w = Moves-refl a w

  end_shm-Moves : (rc : Rc) (a : Ctx D) (w : World) → Moves a w (end_shm rc a).1 w
  unfolding end_shm
  end_shm-Moves (done n) a w = (refl, refl, refl)
  end_shm-Moves (fail e) a w = (refl, refl, refl)

  end_uds-Moves : (rc : Rc) (a : Ctx D) (w : World) → Moves a w (end_uds rc a).1 w
  unfolding end_uds
  end_uds-Moves (done n) a w = (refl, refl, refl)
  end_uds-Moves (fail e) a w = by_code (e == econnrefused)
    where
      by_code : (b : Bool) → Moves a w (if b then a else record a { retry_pending = false }) w
      by_code true = (refl, refl, refl)
      by_code false = (refl, refl, refl)

  send_shm-Moves :
      (a : Ctx D) (bytes : List ℕ) (w : World) → Post (Via second a w) (send_shm a bytes w)
  unfolding send_shm
  send_shm-Moves a bytes w =
      let counted = count a (record a.st { sends_shm = add64 a.st.sends_shm 1 }) in
      >>=-Still second a (now_if a.stats_on) _ w (now_if-Still a.stats_on w) (λ t0 w0.
        >>=-Still second a (now_if (at_least a.policy cost_aware)) _ w0
          (now_if-Still (at_least a.policy cost_aware) w0)
          (λ t w1. Moves-Post second a counted w1 w1 _ (count-Moves a _ w1) (
            >>=-Moves second second counted (push_on counted (framed bytes)) _ w1
              (push_on-Moves counted (framed bytes) w1)
              (λ (rc, pushed) w2.
                >>=-Moves whole second pushed
                  (calibrated (not (t == 0)) pushed shm (length bytes) t) _ w2
                  (calibrated-Moves (not (t == 0)) pushed shm (length bytes) t w2)
                  (λ taught w3.
                    >>=-Still second taught (now_if a.stats_on) _ w3 (now_if-Still a.stats_on w3)
                      (λ t1 w4.
                        let st = record (count_copy taught (length bytes) t0 t1) {
                          backpressure_parks = ring_parks taught.ring;
                        } in
                        Moves-trans taught (count taught st) (end_shm rc (count taught st)).1 w4 w4
                          w4 (count-Moves taught st w4)
                          (end_shm-Moves rc (count taught st) w4)))))))

  send_uds-Moves :
      (a : Ctx D) (bytes : List ℕ) (w : World) → Post (Via second a w) (send_uds a bytes w)
  unfolding send_uds
  send_uds-Moves a bytes w =
      let counted = count a (record a.st { sends_uds = add64 a.st.sends_uds 1 }) in
      >>=-Still second a (now_if a.stats_on) _ w (now_if-Still a.stats_on w) (λ t0 w0.
        >>=-Still second a (now_if (at_least a.policy cost_aware)) _ w0
          (now_if-Still (at_least a.policy cost_aware) w0)
          (λ t w1.
            >>=-Still second a (now_if a.stats_on) _ w1 (now_if-Still a.stats_on w1) (λ t1 w2.
              let copied = count counted (count_copy counted (length bytes) t0 t1) in
              Moves-Post second a copied w2 w2 _
                (Moves-trans a counted copied w2 w2 w2 (count-Moves a _ w2)
                  (count-Moves counted _ w2))
                (>>=-Still second copied (Uds.send (2 ∷ bytes)) _ w2 (send-Still (2 ∷ bytes) w2)
                  (λ rc w3.
                    >>=-Moves whole second copied
                      (calibrated (not (t == 0) && is_done rc) copied uds (length bytes) t) _ w3
                      (calibrated-Moves (not (t == 0) && is_done rc) copied uds (length bytes) t w3)
                      (λ taught w4. end_uds-Moves rc taught w4))))))

  transmit-Moves :
      (bytes : List ℕ) (verdict : Verdict × Ctx D) (w : World)
      → Post (Via second verdict.1 w) (transmit bytes verdict w)
  unfolding transmit
  transmit-Moves bytes (stop rc, a) w = Moves-refl a w
  transmit-Moves bytes (carry shm, a) w = send_shm-Moves a bytes w
  transmit-Moves bytes (carry uds, a) w = send_uds-Moves a bytes w
  transmit-Moves bytes (carry undecided, a) w = send_uds-Moves a bytes w

  fall_back-Moves :
      (size : ℕ) (out : Rc × Ctx D) (w : World) → Moves out.1 w (fall_back size out).1 w
  unfolding fall_back
  fall_back-Moves size (done n, a) w = (refl, refl, refl)
  fall_back-Moves size (fail e, a) w =
      Stays-Moves a w (fall_back size (fail e, a)).1 w (ground arith)

  negotiate-Moves :
      (size : ℕ) (verdict : Verdict × Ctx D) (w : World)
      → Post (Via second verdict.1 w) (negotiate size verdict w)
  unfolding negotiate
  negotiate-Moves size (stop rc, a) w = Moves-refl a w
  negotiate-Moves size (carry route, a) w = by_ring (same_route route shm) a.ring refl
    where
      by_ring :
          (wants : Bool) (ring : Option Ring)
          → a.ring ≡ ring
          → Post (Via second a w) (
              (if wants && not (is_mapped ring)
                  then (now_ns
                      >>= (λ t. producer_ensure_shm a t >>= λ o. return (fall_back size o)))
                  else return (carry route, a))
                w)
      by_ring false ring e = Moves-refl a w
      by_ring true (some r) e = Moves-refl a w
      by_ring true none e = >>=-Still second a now_ns _ w (now_ns-Still w) (λ t v.
          >>=-Moves second second a (producer_ensure_shm a t) (λ o. return (fall_back size o)) v
            (ensure-Moves a t v e) (fall_back-Moves size))

  admit-Moves :
      (a : Ctx D) (size : ℕ) (route : Route) (w : World) → Moves a w (admit a size route).1 w
  unfolding admit
  admit-Moves a size route w = Stays-Moves a w (admit a size route).1 w (ground arith)

  observe-Moves : (a : Ctx D) (size now : ℕ) (w : World) → Moves a w (observe_attempt a size now) w
  unfolding observe_attempt observe_health
  observe-Moves a size now w = Stays-Moves a w (observe_attempt a size now) w (ground arith)

  settle-Moves :
      (a : Ctx D) (size now clock : ℕ) (w : World) → Moves a w (settle a size now clock).1 w
  unfolding settle
  settle-Moves a size now clock w = Stays-Moves a w (settle a size now clock).1 w (ground arith)

  classify-Moves :
      (a : Ctx D) (size now : ℕ) (w : World) → Post (Via second a w) (classify a size now w)
  unfolding classify
  classify-Moves a size now w = by_retry (is_retry a size)
    where
      moved : Ctx D
      moved = record a { ewma_size = ewma a.alpha (real size) a.ewma_size }

      fresh : M (Route × Ctx D)
      fresh = now_if a.stats_on >>= λ t0. now_if a.stats_on >>= λ t1. now_ns >>= λ clock. return (
          settle (count moved (record a.st { router_ns = add64 a.st.router_ns (sub64 t1 t0) })) size
            now clock)

      fresh-Moves : Post (Via second a w) (fresh w)
      fresh-Moves = >>=-Still second a (now_if a.stats_on) _ w (now_if-Still a.stats_on w) (λ t0 w0.
          >>=-Still second a (now_if a.stats_on) _ w0 (now_if-Still a.stats_on w0) (λ t1 w1.
            >>=-Still second a now_ns _ w1 (now_ns-Still w1) (λ clock v.
              let st = record a.st { router_ns = add64 a.st.router_ns (sub64 t1 t0) } in
              Moves-trans a (count moved st) (settle (count moved st) size now clock).1 v v v
                (count-Moves moved st v) (settle-Moves (count moved st) size now clock v))))

      by_retry :
          (retry : Bool)
          → Post (Via second a w) ((if retry then return (a.pending_route, a) else fresh) w)
      by_retry true = Moves-refl a w
      by_retry false = fresh-Moves

  pub adapt_send-Moves :
      (a : Ctx D) (bytes : List ℕ) (w : World) → Post (Via second a w) (adapt_send a bytes w)
  unfolding adapt_send
  adapt_send-Moves a bytes w = by_size (length bytes == 0) a.role
    where
      checked : M (Rc × Ctx D)
      checked = now_ns >>= λ now.
          classify (observe_attempt a (length bytes) now) (length bytes) now >>= λ classified.
          let (route, c) = count_send classified in
          negotiate (length bytes) (admit c (length bytes) route) >>= transmit bytes

      checked-Moves : Post (Via second a w) (checked w)
      checked-Moves = >>=-Still second a now_ns _ w (now_ns-Still w) (λ now v.
          let seen = observe_attempt a (length bytes) now in
          Moves-Post second a seen v v _ (observe-Moves a (length bytes) now v) (
            >>=-Moves second second seen (classify seen (length bytes) now) _ v
              (classify-Moves seen (length bytes) now v)
              (λ (route, b) u.
                let c = (count_send (route, b)).1 in
                let admitted = admit c (length bytes) route in
                Moves-Post second b admitted.1 u u _
                  (Moves-trans b c admitted.1 u u u (count-Moves b _ u)
                    (admit-Moves c (length bytes) route u))
                  (>>=-Moves second second admitted.1 (negotiate (length bytes) admitted)
                    (transmit bytes) u (negotiate-Moves (length bytes) admitted u)
                    (transmit-Moves bytes)))))

      by_size :
          (empty : Bool) (role : Role)
          → Post (Via second a w) (
              (if empty then return (fail einval, a) else elim role as (λ x. M (Rc × Ctx D)) [
                | producer ↦ checked
                | consumer ↦ return (fail eperm, a)
              ])
                w)
      by_size true role = Moves-refl a w
      by_size false producer = checked-Moves
      by_size false consumer = Moves-refl a w
