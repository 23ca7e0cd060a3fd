-- ===== src/Router/Laws.antt =====
-- src/adapt_ipc.c: what `adapt_send` and `handle_control` promise.
use adaptipc.Base.{
  ℕ, ◌+◌, ◌≤◌, ◌<◌, ◌^◌, ◌≡◌, refl, ◌⊎◌, ◌≢◌, inl, inr, Bool, true, false, ◌||◌, not, ltb, ◌==◌,
  if◌then◌else◌, some, List, arith, length, drop, get_or, Bool-cases,
}
use adaptipc.Base.Errno.{done, fail, eagain}
use adaptipc.Double.{Double}
use adaptipc.Cost.Types.{Route, undecided, uds}
use adaptipc.World.{World}
use adaptipc.Router.Types.{Ctx}
use adaptipc.Router.Negotiate.{setup_req, has_nul, frame_u32, handle_control}
use adaptipc.Cost.Stability.{decide-settled}
use adaptipc.Router.Classify.{
  inputs, learned, carry, stop, is_retry, settle, classify, admit, fall_back,
}
use adaptipc.Router.Send.{end_shm}

bad_setup :
    (cap : ℕ) (ends : Bool)
    → ((cap ≡ 0) ⊎ (2 ^ 30 < cap) ⊎ (ends ≡ false))
    → ((cap == 0) || ltb 1_073_741_824 cap || not ends) ≡ true
bad_setup cap ends bad = ground arith

module _ {D : Type 0} ⦃dbl : Double D⦄ where
  -- A retry keeps its route and changes nothing that a decision goes by: not the smoothed size, not
  -- the last route, not the log, whatever the clock says.
  pub classify_retry :
      (ctx : Ctx D) (size now : ℕ) (w : World)
      → is_retry ctx size ≡ true
      → classify ctx size now w ≡ some ((ctx.pending_route, ctx), w)
  unfolding classify
  classify_retry ctx size now w e = rw e refl

  -- A handshake that failed never loses the message: one that fits a datagram is carried by it, and
  -- one that does not is refused with a retry pending, by -EAGAIN where the peer took too long and
  -- by the failure itself elsewhere. The decided route stays.
  pub fall_back_lem :
      (ctx : Ctx D) (size e : ℕ)
      → size + 1 < 2 ^ 64
      → let (v, ctx') = fall_back size (fail e, ctx) in
        (ctx'.last_route ≡ ctx.last_route)
        × (((size + 1 ≤ 4096) × (v ≡ carry uds) × (ctx'.pending_route ≡ uds))
            ⊎ ((4096 < size + 1)
                × (v ≡ stop (fail (if e == 110 then eagain else e)))
                × (ctx'.retry_pending ≡ true)
                × (ctx'.pending_route ≡ ctx.pending_route)))
  unfolding fall_back
  fall_back_lem ctx size e small = ground arith

  -- A control frame that is not a well-formed setup request changes nothing: it is shorter than seven
  -- bytes, of another type, with a capacity of 0 or above 2 ^ 30, or with a name that does not end.
  pub malformed_ignored :
      (ctx : Ctx D) (frame : List ℕ) (w : World)
      → ((length frame < 7)
          ⊎ (get_or frame 1 0 ≢ setup_req)
          ⊎ (frame_u32 frame 2 ≡ 0)
          ⊎ (2 ^ 30 < frame_u32 frame 2)
          ⊎ (has_nul (drop 6 frame) ≡ false))
      → handle_control ctx frame w ≡ some (ctx, w)
  unfolding handle_control
  malformed_ignored ctx frame w bad =
      elim (Bool-cases (ltb (length frame) 7 || not (get_or frame 1 0 == setup_req))) [
        | inl e ↦ rw e refl
        | inr e ↦ rw (e, bad_setup (frame_u32 frame 2) (has_nul (drop 6 frame)) (ground arith)) refl
      ]

  -- A decision always names a transport, which becomes the last route; it ends any retry, so that the
  -- next attempt is classified, and it leaves the smoothed size as it was.
  pub settle_lem :
      (ctx : Ctx D) (size now clock : ℕ)
      → let (route, ctx') = settle ctx size now clock in
        (route ≢ undecided)
        × (ctx'.last_route ≡ route)
        × (is_retry ctx' size ≡ false)
        × (ctx'.ewma_size ≡ ctx.ewma_size)
  unfolding settle
  settle_lem ctx size now clock =
      (decide-settled (inputs ctx size now clock) (learned ctx), refl, refl, ground arith)

  -- A message that was admitted for a transport and that the full ring then refuses is resumed by the
  -- next attempt of its size, by the same route; once it is pushed, the next attempt is classified.
  pub refused_resumes :
      (ctx c : Ctx D) (size : ℕ) (route r : Route)
      → admit ctx size route ≡ (carry r, c)
      → r ≢ undecided
      → (is_retry (end_shm (fail eagain) c).1 size ≡ true)
        × ((end_shm (fail eagain) c).1.pending_route ≡ r)
        × (is_retry (end_shm (done 0) c).1 size ≡ false)
  unfolding admit end_shm
  refused_resumes ctx c size route r e settled = ground arith
