-- ===== src/Router/Delivery.antt =====
-- src/adapt_ipc.c: a message on the ring from `adapt_send` to `adapt_recv`.
pub mod Sent
pub mod Poll
use adaptipc.Base.{
  ℕ, suc, ◌+◌, ◌^◌, ◌≤◌, ◌<◌, ◌≡◌, refl, sym, ap, ◌∙◌, ◌≢◌, ◌⊎◌, inl, inr, Bool, true, false, not,
  ◌==◌, Option, none, some, List, [], ◌∷◌, ◌++◌, arith, length, add64, le→ltb,
}
use adaptipc.Base.Errno.{Rc, done, fail, eagain}
use adaptipc.Double.{Double}
use adaptipc.World.{World, M, now_ns}
use adaptipc.World.Post.{Post, >>=-Post, >>=-Post_any, Post_of}
use adaptipc.Cost.Types.{Route, shm, cost_aware, at_least}
use adaptipc.Ring.{Ring, push_scatter, pop}
use adaptipc.Ring.Inv.{Holds}
use adaptipc.Ring.Scatter.{push_scatter_refines}
use adaptipc.Ring.Pop.{pop_refines, fifo_pop}
use adaptipc.Ring.Open.{consumer}
use mathlib.Core.Path.{subst}
use adaptipc.Router.Types.{Ctx, Stats, count, now_if}
use adaptipc.Router.Send.{
  framed, push_on, ring_push, count_copy, ring_parks, calibrate, calibrated, end_shm, send_shm,
}
use adaptipc.Router.Recv.{adapt_recv, poll_ring, recv_rounds, from_ring, payload}
use adaptipc.Router.Delivery.Sent.{frames, Pushed, Carried, send_shm_refines}
use adaptipc.Router.Delivery.Poll.{recv_front}

module _ {D : Type 0} where
  module _ ⦃dbl : Double D⦄ where
    -- The ring keeps messages in order and whole, end to end. Where the ring holds the messages `ms`,
    -- a nonblocking producer's send on it of one more, shorter than 2 ^ 62 bytes, has succeeded, and
    -- nothing else arrives before the first poll, a receive on that ring always returns, with the
    -- oldest message, the new one where there was none: all its bytes and its length, where they fit
    -- the caller's buffer, of at least two bytes, and the scratch buffer with the tag. The ring holds
    -- the other messages then.
    pub sent_in_order :
        (p p' c : Ctx D) (r at_p : Ring) (ms rest : List (List ℕ)) (bytes m : List ℕ) (max_size : ℕ)
        (w w' v : World) (later : List (List (List ℕ)))
        → p.ring ≡ some r
        → p.nonblocking_send ≡ true
        → Holds r (frames ms)
        → length bytes < 2 ^ 62
        → send_shm p bytes w ≡ some ((done 0, p'), w')
        → p'.ring ≡ some at_p
        → c.role ≡ consumer
        → c.ring ≡ some at_p
        → ms ++ (bytes ∷ []) ≡ m ∷ rest
        → length m ≤ max_size
        → 2 ≤ max_size
        → length m + 1 ≤ c.rxbuf_cap
        → v.arrivals ≡ [] ∷ later
        → (c' : Ctx D) × (v' : World) × (r' : Ring) × (adapt_recv c max_size v
            ≡ some (((done (length m), m), c'), v'))
          × (c'.ring ≡ some r')
          × Holds r' (frames rest)
    sent_in_order p p' c r at_p ms rest bytes m max_size w w' v later e f h small sent at role has
          order fits two room arr =
        recv_front c at_p m rest max_size v later role has
          (subst (λ q. Holds at_p (frames q)) order
            (stored
              (Post_of (Carried r ms bytes) sent (send_shm_refines p r ms bytes w e f h small))))
          fits two room arr
      where
        stored : Carried r ms bytes (done 0, p') w' → Holds at_p (frames (ms ++ (bytes ∷ [])))
        stored (r', has_r, inl (ok, holds)) =
            subst (λ x. Holds x (frames (ms ++ (bytes ∷ [])))) same holds
          where
            same : r' ≡ at_p
            same = ground arith
        stored (r', has_r, inr (bad, same)) = absurd (bad refl)
