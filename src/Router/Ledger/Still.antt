-- ===== src/Router/Ledger/Still.antt =====
-- src/adapt_ipc.c, src/uds_fallback.c: the calls that leave what the process holds alone.
use adaptipc.Base.{
  ℕ, ◌≡◌, refl, Bool, true, false, zero, suc, ltb, ◌==◌, if◌then◌else◌, Option, none, some, List,
  [], ◌∷◌, length,
}
use adaptipc.Base.Errno.{Rc, done, fail, einval, emsgsize, eagain}
use adaptipc.World.{World, return, now_ns, clock_now_from}
use adaptipc.World.Post.{Post}
use adaptipc.Ring.{Ring, Segment, push_scatter}
use adaptipc.Ring.Flow.{Round, push_blocking}
use adaptipc.Uds as Uds
use adaptipc.Uds.{max_dgram, send_loop, finish_send, poll_loop, after_poll, recv_loop, finish_recv}
use adaptipc.Router.Types.{now_if}
use adaptipc.Router.Send.{blocking, or_blocking, ring_push}

-- Neither a socket nor a ring was opened or closed.
abbrev pub Still : {A : Type 0} → World → A → World → Type 0
Still w x w' = (w'.held ≡ w.held) × (w'.rings ≡ w.rings)

pub now_ns-Still : (w : World) → Post (Still w) (now_ns w)
unfolding now_ns
now_ns-Still w = by_clock w.clock
  where
    by_clock : (ts : List ℕ) → Post (Still w) (clock_now_from ts w)
    by_clock [] = tt
    by_clock (t ∷ ts) = (refl, refl)

pub now_if-Still : (on : Bool) (w : World) → Post (Still w) (now_if on w)
now_if-Still true w = now_ns-Still w
now_if-Still false w = (refl, refl)

pub send-Still : (bytes : List ℕ) (w : World) → Post (Still w) (Uds.send bytes w)
unfolding Uds.send
send-Still bytes w = by_size (length bytes == 0) (ltb max_dgram (length bytes))
  where
    by_answer : (o : Option (Rc × List Rc)) → Post (Still w) (finish_send bytes w o)
    by_answer none = tt
    by_answer (some (rc, answers)) = (refl, refl)

    by_size :
        (empty long : Bool)
        → Post (Still w) (
            if empty
            then some (fail einval, w)
            else if long
            then some (fail emsgsize, w)
            else finish_send bytes w (send_loop w.sendto))
    by_size true long = (refl, refl)
    by_size false true = (refl, refl)
    by_size false false = by_answer (send_loop w.sendto)

pub recv_timeout-Still :
    (size timeout_ms : ℕ) (w : World) → Post (Still w) (Uds.recv_timeout size timeout_ms w)
unfolding Uds.recv_timeout
recv_timeout-Still size timeout_ms w = by_size (size == 0) (ltb 0 timeout_ms)
  where
    by_datagram :
        (v : World) (o : Option (Rc × List ℕ × List (Rc × List ℕ)))
        → (v.held ≡ w.held) × (v.rings ≡ w.rings)
        → Post (Still w) (finish_recv v o)
    by_datagram v none e = tt
    by_datagram v (some (rc, bytes, answers)) e = e

    by_poll : (o : Option (Rc × List Rc)) → Post (Still w) (after_poll size w o)
    by_poll none = tt
    by_poll (some (fail e, answers)) = (refl, refl)
    by_poll (some (done zero, answers)) = (refl, refl)
    by_poll (some (done (suc n), answers)) =
        by_datagram (record w { poll = answers }) (recv_loop size w.recvfrom) (refl, refl)

    by_size :
        (empty waits : Bool)
        → Post (Still w) (
            if empty
            then some ((fail einval, []), w)
            else if waits
            then after_poll size w (poll_loop w.poll)
            else finish_recv w (recv_loop size w.recvfrom))
    by_size true waits = (refl, refl)
    by_size false true = by_poll (poll_loop w.poll)
    by_size false false = by_datagram w (recv_loop size w.recvfrom) (refl, refl)

blocking-Still : (segs : List Segment) (r : Ring) (w : World) → Post (Still w) (blocking segs r w)
unfolding blocking
blocking-Still segs r w = by_answer (push_blocking segs w.rounds r)
  where
    by_answer :
        (o : Option (Rc × Ring × List Round))
        → Post (Still w) (elim o as (λ o. Option ((Rc × Ring) × World)) [
          | none ↦ none
          | some (rc, r', ws) ↦ some ((rc, r'), record w { rounds = ws })
        ])
    by_answer none = tt
    by_answer (some (rc, r', ws)) = (refl, refl)

pub ring_push-Still :
    (nonblocking measure : Bool) (segs : List Segment) (r : Ring) (w : World)
    → Post (Still w) (ring_push nonblocking measure segs r w)
unfolding ring_push
ring_push-Still true measure segs r w = (refl, refl)
ring_push-Still false false segs r w = blocking-Still segs r w
ring_push-Still false true segs r w = by_push (push_scatter r segs)
  where
    by_code :
        (e : ℕ) (r' : Ring) (again : Bool)
        → Post (Still w) ((if again then blocking segs r' else return (fail e, r')) w)
    by_code e r' true = blocking-Still segs r' w
    by_code e r' false = (refl, refl)

    by_push : (pushed : Rc × Ring) → Post (Still w) (or_blocking segs pushed w)
    by_push (done n, r') = (refl, refl)
    by_push (fail e, r') = by_code e r' (e == eagain)
