-- ===== src/Ring/Flow.antt =====
-- src/shm_ringbuffer.c: watermark flow control. What the consumer does meanwhile, and what the futex
-- answers, is a list of rounds, one for each pass through the loop of `shm_ring_wait_writable`.
use adaptipc.Base.{
  ℕ, zero, suc, ◌*◌, ◌/◌, Option, none, some, List, [], ◌∷◌, ltb, ◌==◌, if◌then◌else◌, add64,
  length,
}
use adaptipc.Base.Errno.{Rc, done, fail, eagain, einval}
use adaptipc.Ring.{Ring, used, hw_pct, Segment, push_scatter}

-- What one pass sees: the tail at the first load, the tail after the flag is armed, what `flow_wait`
-- answers, and the flag when it has returned.
pub record Round : Type 0 where
  pub tail : ℕ
  pub tail2 : ℕ
  pub wait : Rc
  pub flag : ℕ

abbrev pub hw_bytes : Ring → ℕ
hw_bytes r = r.capacity * hw_pct / 100

-- The record of a sleep: the park count goes up, and the flag is what the wait leaves.
abbrev pub parked : Ring → Round → Ring
parked r w = record r { tail = w.tail2; flow_flag = w.flag; parks = add64 r.parks 1 }

-- `shm_ring_wait_writable`: the result, the ring, and the rounds not used. `none` is a producer that
-- still waits when the rounds end.
unfoldable pub wait_writable : List Round → Ring → Option (Rc × Ring × List Round)
wait_writable [] r = none
wait_writable (w ∷ ws) r =
    let seen = record r { tail = w.tail } in
    let armed = record r { tail = w.tail2; flow_flag = 1 } in
    let again = wait_writable ws (parked r w) in
    if ltb (used seen) (hw_bytes r)
    then some (done 0, seen, ws)
    else if ltb (used armed) (hw_bytes r)
    then some (done 0, record armed { flow_flag = 0 }, ws)
    else elim w.wait [
      | done n ↦ again
      | fail e ↦ if e == eagain then again else some (fail e, parked r w, ws)
    ]

-- The rest of a pass behind the wait: `go` is the next pass.
abbrev pub resume :
    (List Round → Ring → Option (Rc × Ring × List Round))
    → Option (Rc × Ring × List Round)
    → Option (Rc × Ring × List Round)
resume go none = none
resume go (some (done n, r, ws)) = go ws r
resume go (some (fail e, r, ws)) = some (fail e, r, ws)

-- One pass behind its push.
abbrev pub pass :
    (List Round → Ring → Option (Rc × Ring × List Round))
    → List Round
    → Rc × Ring
    → Option (Rc × Ring × List Round)
pass go ws (done n, r) = some (done n, r, ws)
pass go ws (fail e, r) =
    if e == eagain then resume go (wait_writable ws r) else some (fail e, r, ws)

-- The retry loop of `shm_ring_push_scatter_blocking`. A pass that goes on has used up a round.
unfoldable pub retry : ℕ → List Segment → List Round → Ring → Option (Rc × Ring × List Round)
retry zero segs ws r = none
retry (suc fuel) segs ws r = pass (retry fuel segs) ws (push_scatter r segs)

-- `shm_ring_push_scatter_blocking` on a handle that is not null.
unfoldable pub push_blocking : List Segment → List Round → Ring → Option (Rc × Ring × List Round)
unfolding retry
push_blocking segs ws r = elim (wait_writable ws r) [
  | none ↦ none
  | some (rc, r', ws') ↦
      let go = retry (suc (length ws')) segs ws' r' in
      elim rc [ done n ↦ go | fail e ↦ if e == einval then go else some (fail e, r', ws') ]
]
