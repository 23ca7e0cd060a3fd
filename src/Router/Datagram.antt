-- ===== src/Router/Datagram.antt =====
-- src/adapt_ipc.c, src/uds_fallback.c: a message in a datagram from `adapt_send` to `adapt_recv`.
pub mod Posting
pub mod Receipt
use adaptipc.Base.{
  ℕ, zero, suc, ◌+◌, ◌≤◌, ◌<◌, ◌≡◌, refl, sym, ap, ◌∙◌, ◌≢◌, ◌⊎◌, inl, inr, Bool, true, false, not,
  ◌==◌, ◌&&◌, Option, none, some, List, [], ◌∷◌, ◌++◌, arith, length, take, add64, sub64,
}
use adaptipc.Base.Errno.{Rc, done, fail, eagain}
use adaptipc.Double.{Double}
use adaptipc.World.{World, M, ◌>>=◌, return, now_ns, clock_now_from}
use adaptipc.World.Post.{Post, >>=-Post, Post_of, Post-intro, >>=-run}
use adaptipc.Cost.Types.{Route, uds, cost_aware, at_least}
use adaptipc.Uds as Uds
use adaptipc.Uds.Laws.{send_once}
use adaptipc.Ring.{Ring}
use adaptipc.Ring.Inv.{Holds}
use adaptipc.Ring.Pop.{pop_refines}
use adaptipc.Ring.Open.{consumer}
use mathlib.Core.Path.{subst}
use adaptipc.Router.Types.{Ctx, count, now_if}
use adaptipc.Router.Send.{calibrate, calibrated, count_copy, is_done, end_uds, send_uds}
use adaptipc.Router.Recv.{adapt_recv, recv_rounds, from_ring, from_uds, poll_ring, uds_poll_ms}
use adaptipc.Router.Datagram.Posting.{Wired, send_uds-Post}
use adaptipc.Router.Datagram.Receipt.{IsIdle, recv_datagram}

append-last : (xs : List (List ℕ)) (a b : List ℕ) → xs ++ (a ∷ []) ≡ xs ++ (b ∷ []) → a ≡ b
append-last [] a b e = cc
append-last (x ∷ xs) a b e = append-last xs a b cc

module _ {D : Type 0} where
  module _ ⦃dbl : Double D⦄ where
    -- What a send by datagram puts on the wire, a receive delivers. Where the send has succeeded and the
    -- frame that it put on the wire, the only one, waits at the socket of a consumer whose ring is idle, a
    -- receive that can read the clock twice returns the message, all its bytes and its length, where
    -- they are at least one and fit the caller's buffer, of at least two bytes, and the scratch buffer
    -- with the tag.
    pub datagram_roundtrip :
        (p p' c : Ctx D) (bytes frame : List ℕ) (max_size n k : ℕ) (w w' v : World)
        (polls : List Rc) (datagrams : List (Rc × List ℕ)) (later : List (List (List ℕ)))
        → send_uds p bytes w ≡ some ((done 0, p'), w')
        → w'.wire ≡ w.wire ++ (frame ∷ [])
        → c.role ≡ consumer
        → IsIdle c.ring
        → 0 < length bytes
        → length bytes ≤ max_size
        → 2 ≤ max_size
        → length bytes + 1 ≤ c.rxbuf_cap
        → 2 ≤ length v.clock
        → v.arrivals ≡ [] ∷ later
        → v.poll ≡ done (suc k) ∷ polls
        → v.recvfrom ≡ (done n, frame) ∷ datagrams
        → (c' : Ctx D) × (v' : World) × (adapt_recv c max_size v
            ≡ some (((done (length bytes), bytes), c'), v'))
    datagram_roundtrip p p' c bytes frame max_size n k w w' v polls datagrams later sent wire role
          idle pos fits two room clock arr e f =
        recv_datagram c bytes max_size n k v polls datagrams later role idle pos fits two room clock
          arr e
          (f ∙ ap (λ x. (done n, x) ∷ datagrams) (same (Post_of _ sent (send_uds-Post p bytes w))))
      where
        same : Wired w.wire (2 ∷ bytes) (done 0) w' → frame ≡ 2 ∷ bytes
        same (inl bad) = absurd (bad refl)
        same (inr put) = append-last w.wire frame (2 ∷ bytes) (sym wire ∙ put)
