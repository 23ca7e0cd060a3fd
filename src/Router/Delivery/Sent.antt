-- ===== src/Router/Delivery/Sent.antt =====
-- src/adapt_ipc.c: a nonblocking send on the ring and the queue of messages that the ring holds.
use adaptipc.Base.{
  ℕ, ◌^◌, ◌<◌, ◌≡◌, refl, sym, ap, ◌∙◌, ◌≢◌, ◌⊎◌, inl, inr, Bool, true, false, not, ◌==◌, some,
  List, [], ◌∷◌, ◌++◌, arith, length, add64,
}
use adaptipc.Base.Errno.{Rc, done, fail}
use adaptipc.Double.{Double}
use adaptipc.World.{World, now_ns}
use adaptipc.World.Post.{Post, >>=-Post, >>=-Post_any}
use adaptipc.Cost.Types.{Route, shm, cost_aware, at_least}
use adaptipc.Ring.{Ring, push_scatter}
use adaptipc.Ring.Inv.{Holds}
use adaptipc.Ring.Scatter.{push_scatter_refines}
use mathlib.Core.Path.{subst}
use adaptipc.Router.Types.{Ctx, Stats, count, now_if}
use adaptipc.Router.Send.{
  framed, push_on, ring_push, count_copy, ring_parks, calibrate, calibrated, end_shm, send_shm,
}

append_nil : (bytes : List ℕ) → bytes ++ [] ≡ bytes
append_nil [] = refl
append_nil (b ∷ bs) = ap (◌∷◌ b) (append_nil bs)

-- The records in which messages travel.
abbrev pub frames : List (List ℕ) → List (List ℕ)
frames [] = []
frames (m ∷ ms) = (1 ∷ m) ∷ frames ms

frames-append :
    (ms : List (List ℕ)) (m : List ℕ) → frames (ms ++ (m ∷ [])) ≡ frames ms ++ ((1 ∷ m) ∷ [])
frames-append [] m = refl
frames-append (x ∷ ms) m = ap (◌∷◌ (1 ∷ x)) (frames-append ms m)

-- A push of a framed message adds the message to the queue of messages, or changes nothing.
abbrev pub Pushed : Ring → List (List ℕ) → List ℕ → Rc → Ring → Type 0
Pushed r ms bytes rc r' =
    ((rc ≡ done 0) × Holds r' (frames (ms ++ (bytes ∷ [])))) ⊎ ((rc ≢ done 0) × (r' ≡ r))

push-Pushed :
    (r : Ring) (ms : List (List ℕ)) (bytes : List ℕ)
    → Holds r (frames ms)
    → length bytes < 2 ^ 62
    → let (rc, r') = push_scatter r (framed bytes) in Pushed r ms bytes rc r'
push-Pushed r ms bytes h small =
    elim (push_scatter_refines (framed bytes) h (refl, (refl, tt))
        (rw (append_nil bytes) (omega arith)))
      as (λ x. let (rc, r') = push_scatter r (framed bytes) in Pushed r ms bytes rc r') [
        | inl (fits, e, holds) ↦ inl (
          e,
          subst (Holds (push_scatter r (framed bytes)).1)
              (ap (λ b. frames ms ++ ((1 ∷ b) ∷ [])) (append_nil bytes)
                ∙ sym (frames-append ms bytes))
              holds,
        )
        | inr (over, e, same) ↦ inr (e, same)
      ]

module _ {D : Type 0} where
  pub count_ring : (ctx : Ctx D) (st : Stats) → (count ctx st).ring ≡ ctx.ring
  count_ring ctx st = ground arith

  pub count_rxbuf : (ctx : Ctx D) (st : Stats) → (count ctx st).rxbuf_cap ≡ ctx.rxbuf_cap
  count_rxbuf ctx st = ground arith

  pub count_mode :
      (ctx : Ctx D) (st : Stats) → (count ctx st).nonblocking_send ≡ ctx.nonblocking_send
  count_mode ctx st = ground arith

  abbrev pub Carried : Ring → List (List ℕ) → List ℕ → Rc × Ctx D → World → Type 0
  Carried r ms bytes (rc, ctx) w = (r' : Ring) × (ctx.ring ≡ some r') × Pushed r ms bytes rc r'

  module _ ⦃dbl : Double D⦄ where
    push_on-Post :
        (ctx : Ctx D) (r : Ring) (ms : List (List ℕ)) (bytes : List ℕ) (w : World)
        → ctx.ring ≡ some r
        → ctx.nonblocking_send ≡ true
        → Holds r (frames ms)
        → length bytes < 2 ^ 62
        → Post (Carried r ms bytes) (push_on ctx (framed bytes) w)
    unfolding ring_push
    push_on-Post ctx r ms bytes w e f h small = rw (e, f) (_, refl, push-Pushed r ms bytes h small)

    pub calibrated-Post :
        (on : Bool) (ctx : Ctx D) (route : Route) (size t : ℕ) (w : World)
        → Post (λ c w'. c.ring ≡ ctx.ring) (calibrated on ctx route size t w)
    unfolding calibrated calibrate
    calibrated-Post true ctx route size t w = >>=-Post_any _ now_ns _ w (λ u w'. refl)
    calibrated-Post false ctx route size t w = refl

    end_shm-Carried :
        (r r' : Ring) (ms : List (List ℕ)) (bytes : List ℕ) (rc : Rc) (ctx : Ctx D) (st : Stats)
        (w : World)
        → ctx.ring ≡ some r'
        → Pushed r ms bytes rc r'
        → Carried r ms bytes (end_shm rc (count ctx st)) w
    unfolding end_shm
    end_shm-Carried r r' ms bytes (done n) ctx st w e ok = (r', count_ring ctx st ∙ e, ok)
    end_shm-Carried r r' ms bytes (fail x) ctx st w e ok = (r', count_ring ctx st ∙ e, ok)

    -- A nonblocking send on the ring, if the calls that it makes are answered, adds the message to the
    -- queue of messages that the ring holds, or fails and leaves the ring as it was.
    pub send_shm_refines :
        (p : Ctx D) (r : Ring) (ms : List (List ℕ)) (bytes : List ℕ) (w : World)
        → p.ring ≡ some r
        → p.nonblocking_send ≡ true
        → Holds r (frames ms)
        → length bytes < 2 ^ 62
        → Post (Carried r ms bytes) (send_shm p bytes w)
    unfolding send_shm
    send_shm_refines p r ms bytes w e f h small =
        let counted = count p (record p.st { sends_shm = add64 p.st.sends_shm 1 }) in
        >>=-Post_any (Carried r ms bytes) (now_if p.stats_on) _ w (λ t0 w0.
          >>=-Post_any (Carried r ms bytes) (now_if (at_least p.policy cost_aware)) _ w0 (λ t w1.
            >>=-Post (Carried r ms bytes) (Carried r ms bytes) (push_on counted (framed bytes)) _ w1
              (push_on-Post counted r ms bytes w1 (count_ring p _ ∙ e) (count_mode p _ ∙ f) h small)
              (λ (rc, pushed) w2 (r', has, ok).
                >>=-Post (λ c w'. c.ring ≡ pushed.ring) (Carried r ms bytes)
                  (calibrated (not (t == 0)) pushed shm (length bytes) t) _ w2
                  (calibrated-Post (not (t == 0)) pushed shm (length bytes) t w2)
                  (λ taught w3 same.
                    >>=-Post_any (Carried r ms bytes) (now_if p.stats_on) _ w3 (λ t1 w4.
                      end_shm-Carried r r' ms bytes rc taught
                        (record (count_copy taught (length bytes) t0 t1) {
                          backpressure_parks = ring_parks taught.ring;
                        })
                        w4 (same ∙ has) ok)))))
