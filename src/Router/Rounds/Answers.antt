-- ===== src/Router/Rounds/Answers.antt =====
-- src/adapt_ipc.c, src/uds_fallback.c: which answers of the system a round uses up.
use adaptipc.Base.{
  ℕ, zero, suc, ◌<◌, ◌≡◌, refl, ◌⊎◌, inl, inr, Bool, true, false, ◌==◌, ltb, if◌then◌else◌, Option,
  none, some, List, [], ◌∷◌, arith, length, lt→ltb,
}
use adaptipc.Base.Errno.{Rc, done, fail, einval, eintr}
use adaptipc.World.{World, now_ns, clock_now_from}
use adaptipc.World.Post.{Post}
use adaptipc.Uds as Uds
use adaptipc.Uds.{max_dgram, send_loop, finish_send, poll_loop, after_poll, recv_loop, finish_recv}
use adaptipc.Router.Types.{now_if}

abbrev pub SamePoll : {A : Type 0} → World → A → World → Type 0
SamePoll w x v = length v.poll ≡ length w.poll

pub now_ns-SamePoll : (w : World) → Post (SamePoll w) (now_ns w)
unfolding now_ns
now_ns-SamePoll w = by_clock w.clock
  where
    by_clock : (ts : List ℕ) → Post (SamePoll w) (clock_now_from ts w)
    by_clock [] = tt
    by_clock (t ∷ ts) = refl

pub now_if-SamePoll : (on : Bool) (w : World) → Post (SamePoll w) (now_if on w)
now_if-SamePoll true w = now_ns-SamePoll w
now_if-SamePoll false w = refl

-- What a loop over answers leaves is shorter.
abbrev Shorter : {A B : Type 0} → List B → Option (A × List B) → Type 0
Shorter answers none = Unit
Shorter answers (some (x, left)) = length left < length answers

poll_loop-Shorter : (answers : List Rc) → Shorter answers (poll_loop answers)
unfolding poll_loop
poll_loop-Shorter [] = tt
poll_loop-Shorter (done n ∷ answers) = omega arith
poll_loop-Shorter (fail e ∷ answers) =
    by_code (e == eintr) (poll_loop answers) (poll_loop-Shorter answers)
  where
    by_code :
        (again : Bool) (o : Option (Rc × List Rc))
        → Shorter answers o
        → Shorter (fail e ∷ answers) (if again then o else some (Rc.fail e, answers))
    by_code true none h = tt
    by_code true (some (rc, left)) h = omega (arith, h)
    by_code false o h = omega arith

-- The same for `recvfrom`.
abbrev ShorterAnswers : List (Rc × List ℕ) → Option (Rc × List ℕ × List (Rc × List ℕ)) → Type 0
ShorterAnswers answers none = Unit
ShorterAnswers answers (some (rc, bytes, left)) = length left < length answers

recv_loop-Shorter :
    (size : ℕ) (answers : List (Rc × List ℕ)) → ShorterAnswers answers (recv_loop size answers)
unfolding recv_loop
recv_loop-Shorter size [] = tt
recv_loop-Shorter size ((done n, bytes) ∷ answers) = omega arith
recv_loop-Shorter size ((fail e, bytes) ∷ answers) =
    by_code (e == eintr) (recv_loop size answers) (recv_loop-Shorter size answers)
  where
    by_code :
        (again : Bool) (o : Option (Rc × List ℕ × List (Rc × List ℕ)))
        → ShorterAnswers answers o
        → ShorterAnswers
            ((fail e, bytes) ∷ answers)
            (if again then o else some (Rc.fail e, [], answers))
    by_code true none h = tt
    by_code true (some (rc, got, left)) h = omega (arith, h)
    by_code false o h = omega arith

-- A receive that waits has used up an answer of `poll`, but where it was given no room.
abbrev pub UsesPoll : World → Rc × List ℕ → World → Type 0
UsesPoll w got v = (got.0 ≡ fail einval) ⊎ (length v.poll < length w.poll)

pub recv_timeout-UsesPoll :
    (size timeout_ms : ℕ) (w : World)
    → 0 < timeout_ms
    → Post (UsesPoll w) (Uds.recv_timeout size timeout_ms w)
unfolding Uds.recv_timeout
recv_timeout-UsesPoll size timeout_ms w pos = rw (lt→ltb 0 timeout_ms pos) (by_size (size == 0))
  where
    by_datagram :
        (v : World) (o : Option (Rc × List ℕ × List (Rc × List ℕ)))
        → length v.poll < length w.poll
        → Post (UsesPoll w) (finish_recv v o)
    by_datagram v none h = tt
    by_datagram v (some (rc, bytes, left)) h = inr h

    by_poll :
        (o : Option (Rc × List Rc)) → Shorter w.poll o → Post (UsesPoll w) (after_poll size w o)
    by_poll none h = tt
    by_poll (some (fail e, left)) h = inr h
    by_poll (some (done zero, left)) h = inr h
    by_poll (some (done (suc n), left)) h =
        by_datagram (record w { poll = left }) (recv_loop size w.recvfrom) h

    by_size :
        (empty : Bool)
        → Post
            (UsesPoll w)
            (if empty then some ((fail einval, []), w) else after_poll size w (poll_loop w.poll))
    by_size true = inl refl
    by_size false = by_poll (poll_loop w.poll) (poll_loop-Shorter w.poll)

-- A receive that gives a datagram has used up an answer of `recvfrom`.
abbrev pub UsesDatagram : World → Rc × List ℕ → World → Type 0
UsesDatagram w (fail e, bytes) v = Unit
UsesDatagram w (done n, bytes) v = length v.recvfrom < length w.recvfrom

pub recv_timeout-UsesDatagram :
    (size timeout_ms : ℕ) (w : World) → Post (UsesDatagram w) (Uds.recv_timeout size timeout_ms w)
unfolding Uds.recv_timeout
recv_timeout-UsesDatagram size timeout_ms w = by_size (size == 0) (ltb 0 timeout_ms)
  where
    by_datagram :
        (v : World) (o : Option (Rc × List ℕ × List (Rc × List ℕ)))
        → ShorterAnswers w.recvfrom o
        → Post (UsesDatagram w) (finish_recv v o)
    by_datagram v none h = tt
    by_datagram v (some (done n, bytes, left)) h = h
    by_datagram v (some (fail e, bytes, left)) h = tt

    by_poll : (o : Option (Rc × List Rc)) → Post (UsesDatagram w) (after_poll size w o)
    by_poll none = tt
    by_poll (some (fail e, left)) = tt
    by_poll (some (done zero, left)) = tt
    by_poll (some (done (suc n), left)) =
        by_datagram (record w { poll = left }) (recv_loop size w.recvfrom)
          (recv_loop-Shorter size w.recvfrom)

    by_size :
        (empty waits : Bool)
        → Post (UsesDatagram w) (
            if empty
            then some ((fail einval, []), w)
            else if waits
            then after_poll size w (poll_loop w.poll)
            else finish_recv w (recv_loop size w.recvfrom))
    by_size true waits = tt
    by_size false true = by_poll (poll_loop w.poll)
    by_size false false =
        by_datagram w (recv_loop size w.recvfrom) (recv_loop-Shorter size w.recvfrom)
