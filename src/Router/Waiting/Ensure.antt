-- ===== src/Router/Waiting/Ensure.antt =====
-- src/adapt_ipc.c: what `producer_ensure_shm` waits for, and how the wait ends.
use adaptipc.Base.{
  ℕ, suc, ◌+◌, ◌^◌, ◌≤◌, ◌<◌, ◌≡◌, ◌≢◌, refl, ap, ◌∙◌, Bool, true, false, some, List, [], ◌∷◌,
  arith, length, All, ltb, if◌then◌else◌, add64, sub64,
}
use adaptipc.Base.Errno.{Rc, done}
use adaptipc.World.{World, ◌>>=◌, return}
use adaptipc.World.Post.{>>=-run}
use adaptipc.Router.Types.{Ctx}
use adaptipc.Router.Negotiate.{await_ack, producer_ensure_shm, named, request, after_first}
use adaptipc.Router.Waiting.{Beat, Ending, GoesOn, IsEnd, Verdict, answering, length-polls}
use adaptipc.Router.Waiting.Hearing.{awaited}

module _ {D : Type 0} where
  -- A name that is there stays.
  named_same : (c : Ctx D) (w : World) → c.neg_name ≢ [] → named c w ≡ some (c, w)
  named_same c w there = ap (λ x. some (x, w)) (by_name c.neg_name there)
    where
      by_name :
          (name : List ℕ)
          → name ≢ []
          → elim name as (λ n. Ctx D) [ [] ↦ record c { neg_name = w.fresh_name } | b ∷ bs ↦ c ] ≡ c
      by_name [] h = absurd (h refl)
      by_name (b ∷ bs) h = refl

  -- A request sent a short while ago is not sent again.
  request_pending :
      (c : Ctx D) (now : ℕ) (w : World)
      → sub64 now c.last_req_ns ≤ 100_000_000
      → request c now w ≡ some ((done 0, c), w)
  unfolding request
  request_pending c now w h =
      let b : ltb 100_000_000 (sub64 now c.last_req_ns) ≡ false = ground arith in rw b refl

  -- The wait for the acknowledgement, where a name is there, a request is pending (sent at most 100 ms
  -- ago), no ring has been negotiated, counters are off, the buffer is not empty and the clock is 250 ms
  -- below its wrap. Whatever rounds come first, of silence up to 250 ms after the start and of datagrams
  -- that are not empty, fit the buffer and do not begin as an acknowledgement (0, 2, 0), they change
  -- nothing, and the round that ends them decides: silence past the 250 ms gives -ETIMEDOUT (110), and a
  -- failure of `poll` other than EINTR and EAGAIN (4 and 11) is the result, both with the context as it
  -- was; an acknowledgement that fits the buffer maps the ring, and marks it as negotiated where the
  -- mapping succeeds. Each answer is used once, and the clock is not read for a datagram.
  pub ensure_waits :
      (beats : List Beat) (last : Ending) (c : Ctx D) (now : ℕ) (w : World) (ps : List Rc)
      (ts : List ℕ) (ds : List (Rc × List ℕ))
      → c.negot_done ≡ false
      → c.neg_name ≢ []
      → sub64 now c.last_req_ns ≤ 100_000_000
      → c.stats_on ≡ false
      → 0 < c.rxbuf_cap
      → now + 250_000_000 < 2 ^ 64
      → All (GoesOn (now + 250_000_000) c.rxbuf_cap) beats
      → IsEnd (now + 250_000_000) c.rxbuf_cap last
      → Verdict last c
          (record w { poll = ps; clock = ts; recvfrom = ds })
          (producer_ensure_shm c now (answering beats last ps ts ds w))
  unfolding producer_ensure_shm after_first
  ensure_waits beats last c now w ps ts ds fresh there pending off room small on ends =
      let v = answering beats last ps ts ds w in
      let deadline : add64 now 250_000_000 ≡ now + 250_000_000 = ground arith in
      rw
        (by_done c.negot_done fresh v
          ∙ >>=-run (named c) (λ d. request d now >>= after_first now) (named_same c v there)
          ∙ >>=-run (request c now) (after_first now) (request_pending c now v pending)
          ∙ ap (λ d. await_ack (suc (length v.poll)) d c v) deadline)
        (awaited beats last (suc (length v.poll)) (now + 250_000_000) c w ps ts ds off room on ends
          (let l = length-polls beats last ps in omega (arith, l)))
    where
      by_done :
          (d : Bool)
          → d ≡ false
          → (v : World)
          → (if d then return (done 0, c) else (named c >>= λ c. request c now >>= after_first now))
              v
            ≡ (named c >>= λ c. request c now >>= after_first now) v
      by_done true h v = absurd (ground arith)
      by_done false h v = refl
