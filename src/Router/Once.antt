-- ===== src/Router/Once.antt =====
-- src/adapt_ipc.c: where a message of a producer with a ring goes in one `adapt_send`.
pub mod Quiet
use adaptipc.Base.{
  ℕ, ◌≡◌, ◌≢◌, refl, sym, ap, ◌∙◌, ◌⊎◌, inl, inr, ◌<◌, ◌^◌, Bool, true, false, not, ltb, ◌==◌, ◌&&◌,
  if◌then◌else◌, Option, none, some, List, [], ◌∷◌, ◌++◌, arith, length, add64, sub64,
}
use adaptipc.Base.Errno.{Rc, done, fail, einval, eperm}
use adaptipc.Double.{Double, real}
use adaptipc.World.{World, M, ◌>>=◌, return, now_ns}
use adaptipc.World.Post.{Post, Post-map, >>=-Post, >>=-Post_any, Post_of, Post-and, >>=-run}
use adaptipc.Cost.Types.{Route, undecided, shm, uds, same_route, cost_aware, at_least}
use adaptipc.Cost.Context.{ewma}
use adaptipc.Uds as Uds
use adaptipc.Ring.{Ring}
use adaptipc.Ring.Inv.{Holds}
use adaptipc.Ring.Open.{Role, producer, consumer}
use mathlib.Core.Path.{subst}
use adaptipc.Router.Types.{Ctx, Stats, count, now_if}
use adaptipc.Router.Classify.{
  Verdict, carry, stop, observe_attempt, observe_health, is_retry, settle, classify, admit,
  fall_back, negotiate, is_mapped,
}
use adaptipc.Router.Send.{
  framed, push_on, ring_push, calibrated, count_copy, count_send, ring_parks, is_done, end_shm,
  send_shm, end_uds, send_uds, transmit, adapt_send,
}
use adaptipc.Router.Delivery.Sent.{
  frames, count_ring, count_mode, Carried, Pushed, send_shm_refines,
}
use adaptipc.Router.Delivery.Sent as Sent
use adaptipc.Router.Datagram.Posting.{Wired, now_ns-Post, now_if-Post, send_uds-Post}
use adaptipc.Router.Datagram.Posting as Posting
use adaptipc.Router.Once.Quiet.{
  Unmoved, send_shm-wire, send_uds-ring, admit_ring, observe_ring, classify-Unmoved,
}

outcome : (rc : Rc) → (rc ≡ done 0) ⊎ (rc ≢ done 0)
outcome rc = ground arith

-- A verdict that stops a send is a failure.
abbrev Refuses : Verdict → Type 0
Refuses (stop (done n)) = ⊥
Refuses _ = Unit

module _ {D : Type 0} where
  module _ ⦃dbl : Double D⦄ where
    -- The message is in the ring, or on the wire, or was refused and in neither.
    abbrev Placed : Ring → List (List ℕ) → List ℕ → World → Rc × Ctx D → World → Type 0
    Placed r ms bytes w (rc, c) w' =
        (r' : Ring) × (c.ring ≡ some r')
        × (((rc ≡ done 0) × Holds r' (frames (ms ++ (bytes ∷ []))) × (w'.wire ≡ w.wire))
            ⊎ ((rc ≡ done 0) × (r' ≡ r) × (w'.wire ≡ w.wire ++ ((2 ∷ bytes) ∷ [])))
            ⊎ ((rc ≢ done 0) × (r' ≡ r)))

    admit-Refuses : (ctx : Ctx D) (size : ℕ) (route : Route) → Refuses (admit ctx size route).0
    unfolding admit
    admit-Refuses ctx size route = ground arith

    module _ (r : Ring) (ms : List (List ℕ)) (bytes : List ℕ) (h : Holds r (frames ms))
        (small : length bytes < 2 ^ 62) where
      shm-Placed :
          (c : Ctx D) (w0 w : World)
          → c.ring ≡ some r
          → c.nonblocking_send ≡ true
          → w.wire ≡ w0.wire
          → Post (Placed r ms bytes w0) (send_shm c bytes w)
      shm-Placed c w0 w e f g =
          Post-map _ (Placed r ms bytes w0) (send_shm c bytes w)
            (Post-and (Carried r ms bytes) (λ out w'. w'.wire ≡ w.wire) (send_shm c bytes w)
              (send_shm_refines c r ms bytes w e f h small) (send_shm-wire c r bytes w e f))
            (λ out w' (carried, wire). placed out w' carried (wire ∙ g))
        where
          placed :
              (out : Rc × Ctx D) (w' : World)
              → Carried r ms bytes out w'
              → w'.wire ≡ w0.wire
              → Placed r ms bytes w0 out w'
          placed out w' (r', has, inl (ok, holds)) wire = (r', has, inl (ok, holds, wire))
          placed out w' (r', has, inr (bad, same)) wire = (r', has, inr (inr (bad, same)))

      uds-Placed :
          (c : Ctx D) (w0 w : World)
          → c.ring ≡ some r
          → w.wire ≡ w0.wire
          → Post (Placed r ms bytes w0) (send_uds c bytes w)
      uds-Placed c w0 w e g =
          Post-map _ (Placed r ms bytes w0) (send_uds c bytes w)
            (Post-and (λ out w'. Wired w.wire (2 ∷ bytes) out.0 w') (λ out w'. out.1.ring ≡ c.ring)
              (send_uds c bytes w) (send_uds-Post c bytes w) (send_uds-ring c bytes w))
            (λ out w' (wired, ring). (r, ring ∙ e, placed out.0 w' wired (outcome out.0)))
        where
          placed :
              (rc : Rc) (w' : World)
              → Wired w.wire (2 ∷ bytes) rc w'
              → (rc ≡ done 0) ⊎ (rc ≢ done 0)
              → ((rc ≡ done 0) × Holds r (frames (ms ++ (bytes ∷ []))) × (w'.wire ≡ w0.wire))
                ⊎ ((rc ≡ done 0) × (r ≡ r) × (w'.wire ≡ w0.wire ++ ((2 ∷ bytes) ∷ [])))
                ⊎ ((rc ≢ done 0) × (r ≡ r))
          placed rc w' wired (inr bad) = inr (inr (bad, refl))
          placed rc w' (inl bad) (inl ok) = absurd (bad ok)
          placed rc w' (inr put) (inl ok) =
              inr (inl (ok, refl, put ∙ ap (λ x. x ++ ((2 ∷ bytes) ∷ [])) g))

      transmit-Placed :
          (verdict : Verdict × Ctx D) (w0 w : World)
          → Refuses verdict.0
          → verdict.1.ring ≡ some r
          → verdict.1.nonblocking_send ≡ true
          → w.wire ≡ w0.wire
          → Post (Placed r ms bytes w0) (transmit bytes verdict w)
      unfolding transmit
      transmit-Placed (stop (done n), c) w0 w bad e f g = absurd bad
      transmit-Placed (stop (fail x), c) w0 w bad e f g = (r, e, inr (inr (ground arith, refl)))
      transmit-Placed (carry shm, c) w0 w bad e f g = shm-Placed c w0 w e f g
      transmit-Placed (carry uds, c) w0 w bad e f g = uds-Placed c w0 w e g
      transmit-Placed (carry undecided, c) w0 w bad e f g = uds-Placed c w0 w e g

      -- With a ring mapped there is nothing to negotiate.
      negotiate_mapped :
          (size : ℕ) (verdict : Verdict × Ctx D) (w : World)
          → verdict.1.ring ≡ some r
          → negotiate size verdict w ≡ some (verdict, w)
      unfolding negotiate
      negotiate_mapped size (stop rc, c) w e = refl
      negotiate_mapped size (carry route, c) w e = ground arith

      classified-Placed :
          (p : Ctx D) (classified : Route × Ctx D) (w0 w : World)
          → p.ring ≡ some r
          → p.nonblocking_send ≡ true
          → Unmoved p w0 classified w
          → Post (Placed r ms bytes w0) (
              (let (route, c) = count_send classified in
                  negotiate (length bytes) (admit c (length bytes) route) >>= transmit bytes)
                w)
      classified-Placed p (route, ctx) w0 w e f (ring, mode, wire) =
          let c = (count_send (route, ctx)).1 in
          let a = admit c (length bytes) route in
          let (ring', mode') = admit_ring c (length bytes) route in
          let has = ring' ∙ count_ring ctx _ ∙ ring ∙ e in
          subst (Post (Placed r ms bytes w0))
            (sym (
              >>=-run (negotiate (length bytes) a) (transmit bytes)
                (negotiate_mapped (length bytes) a w has)))
            (transmit-Placed a w0 w (admit-Refuses c (length bytes) route) has
              (mode' ∙ count_mode ctx _ ∙ mode ∙ f) wire)

    -- A message goes one way or none. A nonblocking producer whose ring holds the messages `ms` and whose
    -- send of one shorter than 2 ^ 62 bytes has returned is left in one of three ways: the send
    -- succeeded, the ring holds the message behind the others and the wire has nothing new; it
    -- succeeded, the ring is as it was and the wire has the message's datagram and nothing else new; or it
    -- failed, and the ring is as it was.
    pub adapt_send_once :
        (p c : Ctx D) (r : Ring) (ms : List (List ℕ)) (bytes : List ℕ) (w w' : World) (rc : Rc)
        → p.ring ≡ some r
        → p.nonblocking_send ≡ true
        → Holds r (frames ms)
        → length bytes < 2 ^ 62
        → adapt_send p bytes w ≡ some ((rc, c), w')
        → (r' : Ring) × (c.ring ≡ some r')
          × (((rc ≡ done 0) × Holds r' (frames (ms ++ (bytes ∷ []))) × (w'.wire ≡ w.wire))
              ⊎ ((rc ≡ done 0) × (r' ≡ r) × (w'.wire ≡ w.wire ++ ((2 ∷ bytes) ∷ [])))
              ⊎ ((rc ≢ done 0) × (r' ≡ r)))
    unfolding adapt_send
    adapt_send_once p c r ms bytes w w' rc e f h small sent =
        Post_of (Placed r ms bytes w) sent (by_size (length bytes == 0))
      where
        checked : M (Rc × Ctx D)
        checked = now_ns >>= λ now.
            classify (observe_attempt p (length bytes) now) (length bytes) now >>= λ classified.
            let (route, c) = count_send classified in
            negotiate (length bytes) (admit c (length bytes) route) >>= transmit bytes

        checked-Placed : Post (Placed r ms bytes w) (checked w)
        checked-Placed =
            >>=-Post (λ t w'. w'.wire ≡ w.wire) (Placed r ms bytes w) now_ns _ w (now_ns-Post w)
              (λ now w1 e1.
                let seen = observe_attempt p (length bytes) now in
                let (ring, mode) = observe_ring p (length bytes) now in
                >>=-Post (Unmoved seen w1) (Placed r ms bytes w) (classify seen (length bytes) now)
                  _ w1 (classify-Unmoved seen (length bytes) now w1)
                  (λ classified w2 (ring2, mode2, wire2).
                    classified-Placed r ms bytes h small p classified w w2 e f
                      (ring2 ∙ ring, mode2 ∙ mode, wire2 ∙ e1)))

        by_role :
            (role : Role)
            → Post (Placed r ms bytes w) (
                (elim role as (λ x. M (Rc × Ctx D)) [
                  | producer ↦ checked
                  | consumer ↦ return (fail eperm, p)
                ])
                  w)
        by_role producer = checked-Placed
        by_role consumer = (r, e, inr (inr (ground arith, refl)))

        by_size :
            (empty : Bool)
            → Post (Placed r ms bytes w) (
                (if empty then return (fail einval, p) else elim p.role as (λ x. M (Rc × Ctx D)) [
                  | producer ↦ checked
                  | consumer ↦ return (fail eperm, p)
                ])
                  w)
        by_size true = (r, e, inr (inr (ground arith, refl)))
        by_size false = by_role p.role
