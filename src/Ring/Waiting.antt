-- ===== src/Ring/Waiting.antt =====
-- src/shm_ringbuffer.c: what a producer that has waited knows, and why the retry loop needs no more
-- passes than there are rounds.
use adaptipc.Base.{
  ℕ, zero, suc, ◌<◌, ◌≡◌, refl, ap, Option, none, some, List, [], ◌∷◌, arith, length, if◌then◌else◌,
  ◌==◌,
}
use adaptipc.Base.Errno.{Rc, done, fail, eagain}
use adaptipc.Ring.{Ring, used, Segment, push_scatter}
use adaptipc.Ring.Flow.{Round, hw_bytes, parked, pass, resume, wait_writable, retry}

-- A producer that has waited with result 0 sees the ring below the high watermark, has written
-- nothing, and has used up at least one round.
pub wait_writable_lem :
    (ws ws' : List Round) (r r' : Ring) (n : ℕ)
    → wait_writable ws r ≡ some (done n, r', ws')
    → (used r' < hw_bytes r')
      × (r'.mem ≡ r.mem)
      × (r'.head ≡ r.head)
      × (r'.capacity ≡ r.capacity)
      × (length ws' < length ws)
unfolding wait_writable
wait_writable_lem [] ws' r r' n e = ground arith
wait_writable_lem (w ∷ ws) ws' r r' n e = ground (arith, wait_writable_lem ws ws' (parked r w) r' n)

resume_same :
    (f g : List Round → Ring → Option (Rc × Ring × List Round)) (ws : List Round) (r : Ring)
    (o : Option (Rc × Ring × List Round))
    → wait_writable ws r ≡ o
    → ((ws' : List Round) (r' : Ring) → length ws' < length ws → f ws' r' ≡ g ws' r')
    → resume f o ≡ resume g o
resume_same f g ws r none e same = refl
resume_same f g ws r (some (done n, r', ws')) e same =
    let (a, b, c, d, shorter) = wait_writable_lem ws ws' r r' n e in same ws' r' shorter
resume_same f g ws r (some (fail x, r', ws')) e same = refl

pass_same :
    (f g : List Round → Ring → Option (Rc × Ring × List Round)) (ws : List Round) (o : Rc × Ring)
    → ((ws' : List Round) (r' : Ring) → length ws' < length ws → f ws' r' ≡ g ws' r')
    → pass f ws o ≡ pass g ws o
pass_same f g ws (done n, r) same = refl
pass_same f g ws (fail e, r) same =
    ap (λ o. if e == eagain then o else some (fail e, r, ws))
      (resume_same f g ws r (wait_writable ws r) refl same)

-- The retry loop of a blocking push needs one pass more than there are rounds: any two numbers of
-- passes above the number of rounds give the same, so it never ends for want of passes.
pub retry_enough :
    (fuel other : ℕ) (segs : List Segment) (ws : List Round) (r : Ring)
    → length ws < fuel
    → length ws < other
    → retry fuel segs ws r ≡ retry other segs ws r
unfolding retry
retry_enough zero other segs ws r enough same = ground arith
retry_enough (suc fuel) zero segs ws r enough same = ground arith
retry_enough (suc fuel) (suc other) segs ws r enough same =
    pass_same (retry fuel segs) (retry other segs) ws (push_scatter r segs)
      (λ ws' r' shorter. retry_enough fuel other segs ws' r' (omega arith) (omega arith))
