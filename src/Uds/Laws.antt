-- ===== src/Uds/Laws.antt =====
-- src/uds_fallback.c: what the kernel's answers make of a send and of a receive.
use adaptipc.Base.{
  ℕ, zero, suc, ◌≤◌, ◌<◌, ◌≡◌, refl, ap, ◌∙◌, ◌⊎◌, ◌≢◌, Option, none, some, List, [], ◌∷◌, ◌++◌,
  arith, length, take, All,
}
use adaptipc.Base.Errno.{Rc, done, fail, eio}
use adaptipc.World.{World}
use adaptipc.Uds.{
  send_loop, send, recv_loop, poll_loop, finish_send, finish_recv, after_poll, recv_timeout,
}

-- Failures, as answers.
unfoldable pub failures : List ℕ → List Rc → List Rc
failures [] answers = answers
failures (e ∷ es) answers = fail e ∷ failures es answers

-- EINTR, ENOBUFS and ETIMEDOUT, the failures after which the send is tried again.
abbrev pub IsTransient : ℕ → Type 0
IsTransient e = (e ≡ 4) ⊎ (e ≡ 105) ⊎ (e ≡ 110)

-- An answer that ends the loop of a send: a size, or a failure of another kind.
abbrev pub IsFinal : Rc → Type 0
IsFinal (done n) = Unit
IsFinal (fail e) = (e ≢ 4) × (e ≢ 105) × (e ≢ 110)

-- What a send makes of the answer that ends its loop: 0 where the kernel took the whole datagram, -EIO
-- where it took another size, and the failure itself, with nothing on the wire.
abbrev pub Settles : Rc → List Rc → List ℕ → World → Option (Rc × World) → Type 0
Settles (done n) rest bytes w o =
    let out = record w { sendto = rest; wire = w.wire ++ (bytes ∷ []) } in
    ((n ≡ length bytes) × (o ≡ some (done 0, out)))
    ⊎ ((n ≢ length bytes) × (o ≡ some (fail 5, out)))
Settles (fail e) rest bytes w o = o ≡ some (fail e, record w { sendto = rest })

send_loop_last :
    (last : Rc) (rest : List Rc) → IsFinal last → send_loop (last ∷ rest) ≡ some (last, rest)
unfolding send_loop
send_loop_last (done n) rest l = refl
send_loop_last (fail e) rest l = ground arith

send_loop_tries :
    (tries : List ℕ) (last : Rc) (rest : List Rc)
    → All IsTransient tries
    → IsFinal last
    → send_loop (failures tries (last ∷ rest)) ≡ some (last, rest)
unfolding send_loop failures
send_loop_tries [] last rest t l = send_loop_last last rest l
send_loop_tries (e ∷ es) last rest (t, ts) l =
    let rest_lem = send_loop_tries es last rest ts l in ground arith

send_in_range :
    (bytes : List ℕ) (w : World)
    → 0 < length bytes
    → length bytes ≤ 4096
    → send bytes w ≡ finish_send bytes w (send_loop w.sendto)
unfolding send
send_in_range bytes w pos small = ground arith

finish_send-Settles :
    (last : Rc) (rest : List Rc) (bytes : List ℕ) (w : World)
    → Settles last rest bytes w (finish_send bytes w (some (last, rest)))
finish_send-Settles (done n) rest bytes w = ground arith
finish_send-Settles (fail e) rest bytes w = refl

-- Whatever number of attempts fail with EINTR, ENOBUFS or ETIMEDOUT (4, 105 and 110) first, a datagram of
-- 1 to 4096 bytes is tried until the kernel gives another answer, and that answer decides: the whole
-- size is success, another size is -EIO (5), and a failure of another kind is the result and leaves the
-- wire as it was. Each answer is used once.
pub send_retries :
    (tries : List ℕ) (last : Rc) (rest : List Rc) (bytes : List ℕ) (w : World)
    → 0 < length bytes
    → length bytes ≤ 4096
    → All IsTransient tries
    → IsFinal last
    → w.sendto ≡ failures tries (last ∷ rest)
    → Settles last rest bytes w (send bytes w)
send_retries tries last rest bytes w pos small t l e =
    rw
      (send_in_range bytes w pos small
        ∙ ap (finish_send bytes w) (ap send_loop e ∙ send_loop_tries tries last rest t l))
      (finish_send-Settles last rest bytes w)

-- What a send that returns has done to the wire.
pub send_once :
    (bytes : List ℕ) (w w' : World) (rc : Rc)
    → send bytes w ≡ some (rc, w')
    → ((rc ≡ done 0)
        × (w'.wire ≡ w.wire ++ (bytes ∷ []))
        × (0 < length bytes)
        × (length bytes ≤ 4096))
      ⊎ ((rc ≢ done 0) × ((w'.wire ≡ w.wire) ⊎ (rc ≡ fail eio)))
unfolding send
send_once bytes w w' rc e = ground arith

take_short : (n : ℕ) (bytes : List ℕ) → length (take n bytes) ≤ n
take_short zero bytes = ground arith
take_short (suc n) [] = ground arith
take_short (suc n) (b ∷ bs) = let i = take_short n bs in omega (arith, i)

recv_loop_bounds :
    (max_size : ℕ) (answers rest : List (Rc × List ℕ)) (n : ℕ) (got : List ℕ)
    → recv_loop max_size answers ≡ some (done n, got, rest)
    → (n ≡ length got) × (0 < n) × (n ≤ max_size)
unfolding recv_loop
recv_loop_bounds max_size [] rest n got e = ground arith
recv_loop_bounds max_size ((done m, bytes) ∷ answers) rest n got e =
    ground (arith, take_short max_size bytes)
recv_loop_bounds max_size ((fail x, bytes) ∷ answers) rest n got e =
    ground (arith, recv_loop_bounds max_size answers rest n got)

finished_bounds :
    (max_size : ℕ) (w w' : World) (n : ℕ) (got : List ℕ)
    → finish_recv w (recv_loop max_size w.recvfrom) ≡ some ((done n, got), w')
    → (n ≡ length got) × (0 < n) × (n ≤ max_size) × (w'.wire ≡ w.wire)
unfolding recv_loop
finished_bounds max_size w w' n got e = finished (recv_loop max_size w.recvfrom) refl e
  where
    finished :
        (o : Option (Rc × List ℕ × List (Rc × List ℕ)))
        → recv_loop max_size w.recvfrom ≡ o
        → finish_recv w o ≡ some ((done n, got), w')
        → (n ≡ length got) × (0 < n) × (n ≤ max_size) × (w'.wire ≡ w.wire)
    finished none e' f = ground arith
    finished (some (rc, bytes, rest)) e' f =
        ground (arith, recv_loop_bounds max_size w.recvfrom rest n got)

polled_bounds :
    (max_size : ℕ) (w w' : World) (n : ℕ) (got : List ℕ) (o : Option (Rc × List Rc))
    → after_poll max_size w o ≡ some ((done n, got), w')
    → (n ≡ length got) × (0 < n) × (n ≤ max_size) × (w'.wire ≡ w.wire)
polled_bounds max_size w w' n got none e = ground arith
polled_bounds max_size w w' n got (some (fail x, answers)) e = ground arith
polled_bounds max_size w w' n got (some (done zero, answers)) e = ground arith
polled_bounds max_size w w' n got (some (done (suc m), answers)) e =
    finished_bounds max_size (record w { poll = answers }) w' n got e

-- A receive that succeeds has between 1 and `max_size` bytes, as many as its result says, and sends
-- nothing.
pub recv_timeout_bounds :
    (max_size timeout_ms : ℕ) (w w' : World) (n : ℕ) (got : List ℕ)
    → recv_timeout max_size timeout_ms w ≡ some ((done n, got), w')
    → (n ≡ length got) × (0 < n) × (n ≤ max_size) × (w'.wire ≡ w.wire)
unfolding recv_timeout
recv_timeout_bounds max_size timeout_ms w w' n got e = ground (
  arith,
  finished_bounds max_size w w' n got,
  polled_bounds max_size w w' n got (poll_loop w.poll),
)
