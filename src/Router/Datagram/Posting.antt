-- ===== src/Router/Datagram/Posting.antt =====
-- src/adapt_ipc.c, src/uds_fallback.c: what a send by datagram puts on the wire.
use adaptipc.Base.{
  ℕ, ◌≤◌, ◌<◌, ◌≡◌, refl, ap, ◌∙◌, ◌≢◌, ◌⊎◌, inl, inr, Bool, true, false, not, ◌==◌, ◌&&◌, List, [],
  ◌∷◌, ◌++◌, length, add64,
}
use adaptipc.Base.Errno.{Rc, done, fail}
use adaptipc.Double.{Double}
use adaptipc.World.{World, ◌>>=◌, return, now_ns, clock_now_from}
use adaptipc.World.Post.{Post, >>=-Post, Post-intro}
use adaptipc.Cost.Types.{Route, uds, cost_aware, at_least}
use adaptipc.Uds as Uds
use adaptipc.Uds.Laws.{send_once}
use adaptipc.Router.Types.{Ctx, count, now_if}
use adaptipc.Router.Send.{calibrate, calibrated, count_copy, is_done, end_uds, send_uds}

-- What a send that succeeds has put on the wire.
abbrev pub Wired : List (List ℕ) → List ℕ → Rc → World → Type 0
Wired before frame rc w = (rc ≢ done 0) ⊎ (w.wire ≡ before ++ (frame ∷ []))

send-Wired :
    (frame : List ℕ) (w : World) → Post (λ rc w'. Wired w.wire frame rc w') (Uds.send frame w)
send-Wired frame w =
    Post-intro _ (Uds.send frame w) (λ rc w' e. by_outcome rc w' (send_once frame w w' rc e))
  where
    by_outcome :
        (rc : Rc) (w' : World)
        → ((rc ≡ done 0)
            × (w'.wire ≡ w.wire ++ (frame ∷ []))
            × (0 < length frame)
            × (length frame ≤ 4096))
          ⊎ ((rc ≢ done 0) × ((w'.wire ≡ w.wire) ⊎ (rc ≡ fail 5)))
        → Wired w.wire frame rc w'
    by_outcome rc w' (inl (ok, e, pos, small)) = inr e
    by_outcome rc w' (inr (bad, rest)) = inl bad

pub now_ns-Post : (w : World) → Post (λ t w'. w'.wire ≡ w.wire) (now_ns w)
unfolding now_ns
now_ns-Post w = by_clock w.clock
  where
    by_clock : (ts : List ℕ) → Post (λ t w'. w'.wire ≡ w.wire) (clock_now_from ts w)
    by_clock [] = tt
    by_clock (t ∷ ts) = refl

pub now_if-Post : (on : Bool) (w : World) → Post (λ t w'. w'.wire ≡ w.wire) (now_if on w)
now_if-Post true w = now_ns-Post w
now_if-Post false w = refl

module _ {D : Type 0} where
  module _ ⦃dbl : Double D⦄ where
    pub calibrated-Post :
        (on : Bool) (ctx : Ctx D) (route : Route) (size t : ℕ) (w : World)
        → Post (λ c w'. w'.wire ≡ w.wire) (calibrated on ctx route size t w)
    unfolding calibrated
    calibrated-Post true ctx route size t w =
        >>=-Post (λ u w'. w'.wire ≡ w.wire) (λ c w'. w'.wire ≡ w.wire) now_ns
          (λ u. return (calibrate ctx route size t u)) w (now_ns-Post w) (λ u w' e. e)
    calibrated-Post false ctx route size t w = refl

    end_uds-Wired :
        (before : List (List ℕ)) (frame : List ℕ) (rc : Rc) (ctx : Ctx D) (w : World)
        → Wired before frame rc w
        → Wired before frame (end_uds rc ctx).0 w
    unfolding end_uds
    end_uds-Wired before frame (done n) ctx w h = h
    end_uds-Wired before frame (fail e) ctx w h = h

    pub send_uds-Post :
        (p : Ctx D) (bytes : List ℕ) (w : World)
        → Post (λ out w'. Wired w.wire (2 ∷ bytes) out.0 w') (send_uds p bytes w)
    unfolding send_uds
    send_uds-Post p bytes w =
        let P = λ (out : Rc × Ctx D) (w' : World). Wired w.wire (2 ∷ bytes) out.0 w' in
        let frame = 2 ∷ bytes in
        >>=-Post (λ t w'. w'.wire ≡ w.wire) P (now_if p.stats_on) _ w (now_if-Post p.stats_on w)
          (λ t0 w0 e0.
            >>=-Post (λ t w'. w'.wire ≡ w0.wire) P (now_if (at_least p.policy cost_aware)) _ w0
              (now_if-Post (at_least p.policy cost_aware) w0)
              (λ t w1 e1.
                >>=-Post (λ t w'. w'.wire ≡ w1.wire) P (now_if p.stats_on) _ w1
                  (now_if-Post p.stats_on w1)
                  (λ t1 w2 e2.
                    >>=-Post (λ rc w'. Wired w2.wire frame rc w') P (Uds.send frame) _ w2
                      (send-Wired frame w2)
                      (λ rc w3 sent.
                        taught rc w2 w3 t
                          (count (counted p) (count_copy (counted p) (length bytes) t0 t1))
                          (e2 ∙ e1 ∙ e0) sent))))
      where
        counted : Ctx D → Ctx D
        counted p = count p (record p.st { sends_uds = add64 p.st.sends_uds 1 })

        moved :
            (rc : Rc) (w2 w3 w4 : World)
            → w2.wire ≡ w.wire
            → w4.wire ≡ w3.wire
            → Wired w2.wire (2 ∷ bytes) rc w3
            → Wired w.wire (2 ∷ bytes) rc w4
        moved rc w2 w3 w4 e f (inl bad) = inl bad
        moved rc w2 w3 w4 e f (inr g) = inr (f ∙ g ∙ ap (λ x. x ++ ((2 ∷ bytes) ∷ [])) e)

        taught :
            (rc : Rc) (w2 w3 : World) (t : ℕ) (copied : Ctx D)
            → w2.wire ≡ w.wire
            → Wired w2.wire (2 ∷ bytes) rc w3
            → Post
                (λ (out : Rc × Ctx D) w'. Wired w.wire (2 ∷ bytes) out.0 w')
                ((calibrated (not (t == 0) && is_done rc) copied uds (length bytes) t >>= λ c.
                    return (end_uds rc c))
                  w3)
        taught rc w2 w3 t copied e sent =
            >>=-Post (λ c w'. w'.wire ≡ w3.wire)
              (λ (out : Rc × Ctx D) w'. Wired w.wire (2 ∷ bytes) out.0 w')
              (calibrated (not (t == 0) && is_done rc) copied uds (length bytes) t) _ w3
              (calibrated-Post (not (t == 0) && is_done rc) copied uds (length bytes) t w3)
              (λ c w4 f. end_uds-Wired w.wire (2 ∷ bytes) rc c w4 (moved rc w2 w3 w4 e f sent))
