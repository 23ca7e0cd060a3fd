-- ===== src/Uds.antt =====
-- src/uds_fallback.c: the datagram transport, over the answers of `sendto`, `poll` and `recvfrom`.
-- Null pointers have no counterpart.
pub mod Open
pub mod Laws
mod Tests
use adaptipc.Base.{
  ℕ, zero, suc, ◌+◌, Bool, true, false, ◌||◌, Option, none, some, List, [], ◌∷◌, ◌++◌, ltb, ◌==◌,
  if◌then◌else◌, length, take,
}
use adaptipc.Base.Errno.{
  Rc, done, fail, einval, emsgsize, eintr, enobufs, etimedout, eio, eagain, econnreset,
}
use adaptipc.World.{World, M}

-- UDS_MAX_DGRAM.
abbrev pub max_dgram : ℕ
max_dgram = 4096

-- The failures of `sendto` that are tried again.
abbrev pub is_retried : ℕ → Bool
is_retried e = e == eintr || e == enobufs || e == etimedout

-- The `do ... while` around `sendto`: its last answer, and the answers that are left.
unfoldable pub send_loop : List Rc → Option (Rc × List Rc)
send_loop [] = none
send_loop (done n ∷ answers) = some (done n, answers)
send_loop (fail e ∷ answers) =
    let again = send_loop answers in if is_retried e then again else some (fail e, answers)

-- What `uds_send` makes of the last answer.
abbrev pub send_result : Rc → ℕ → Rc
send_result (done n) size = if n == size then done 0 else fail eio
send_result (fail e) size = fail e

abbrev pub on_wire : Rc → List ℕ → List (List ℕ) → List (List ℕ)
on_wire (done n) bytes wire = wire ++ (bytes ∷ [])
on_wire (fail e) bytes wire = wire

abbrev pub finish_send : List ℕ → World → Option (Rc × List Rc) → Option (Rc × World)
finish_send bytes w none = none
finish_send bytes w (some (rc, answers)) =
    some
      (send_result rc (length bytes), record w { sendto = answers; wire = on_wire rc bytes w.wire })

-- `uds_send`.
unfoldable pub send : List ℕ → M Rc
unfolding send_loop
send bytes w =
    if length bytes == 0
    then some (fail einval, w)
    else if ltb max_dgram (length bytes)
    then some (fail emsgsize, w)
    else finish_send bytes w (send_loop w.sendto)

-- The `do ... while` around `recvfrom`: at most `max_size` bytes of the datagram, the rest is lost.
unfoldable pub recv_loop : ℕ → List (Rc × List ℕ) → Option (Rc × List ℕ × List (Rc × List ℕ))
recv_loop max_size [] = none
recv_loop max_size ((done n, bytes) ∷ answers) =
    let got = take max_size bytes in
    some (if length got == 0 then fail econnreset else done (length got), got, answers)
recv_loop max_size ((fail e, bytes) ∷ answers) =
    let again = recv_loop max_size answers in
    if e == eintr then again else some (fail e, [], answers)

abbrev pub finish_recv :
    World → Option (Rc × List ℕ × List (Rc × List ℕ)) → Option ((Rc × List ℕ) × World)
finish_recv w none = none
finish_recv w (some (rc, bytes, answers)) = some ((rc, bytes), record w { recvfrom = answers })

-- `uds_recv`.
unfoldable pub recv : ℕ → M (Rc × List ℕ)
unfolding recv_loop
recv max_size w =
    if max_size == 0
    then some ((fail einval, []), w)
    else finish_recv w (recv_loop max_size w.recvfrom)

-- The `do ... while` around `poll`.
unfoldable pub poll_loop : List Rc → Option (Rc × List Rc)
poll_loop [] = none
poll_loop (done n ∷ answers) = some (done n, answers)
poll_loop (fail e ∷ answers) =
    let again = poll_loop answers in if e == eintr then again else some (fail e, answers)

abbrev pub after_poll : ℕ → World → Option (Rc × List Rc) → Option ((Rc × List ℕ) × World)
after_poll max_size w none = none
after_poll max_size w (some (fail e, answers)) = some ((fail e, []), record w { poll = answers })
after_poll max_size w (some (done zero, answers)) =
    some ((fail eagain, []), record w { poll = answers })
after_poll max_size w (some (done (suc n), answers)) =
    finish_recv (record w { poll = answers }) (recv_loop max_size w.recvfrom)

-- `uds_recv_timeout`.
unfoldable pub recv_timeout : ℕ → ℕ → M (Rc × List ℕ)
unfolding recv_loop poll_loop
recv_timeout max_size timeout_ms w =
    if max_size == 0
    then some ((fail einval, []), w)
    else if ltb 0 timeout_ms
    then after_poll max_size w (poll_loop w.poll)
    else finish_recv w (recv_loop max_size w.recvfrom)
