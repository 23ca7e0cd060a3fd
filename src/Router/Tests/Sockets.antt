-- ===== src/Router/Tests/Sockets.antt =====
-- A control frame that is cut short, and a message of three bytes read into a buffer of three; a
-- handshake that is not answered in time.
use Prim.{tt}
use adaptipc.Base.{
  ℕ, ◌-◌, ◌≡◌, refl, ◌≢◌, some, false, List, [], ◌∷◌, arith, length, take, drop, get_or,
}
use adaptipc.Base.Errno.{Rc, done, fail}
use adaptipc.Double.Scaled.{Micro, micro_double}
use adaptipc.Ring.Open.{producer, consumer}
use adaptipc.World.{World}
use adaptipc.Router.Types.{Ctx}
use adaptipc.Router.Negotiate.{producer_ensure_shm}
use adaptipc.Router.Recv.{adapt_recv_uds_timeout}
use adaptipc.Router.Waiting.{Beat, silence, chatter, late, answering}
use adaptipc.Router.Waiting.Ensure.{ensure_waits}
use adaptipc.Router.Socket.{Answered, adapt_recv_uds_payload}
use adaptipc.Router.Tests.{endpoint, quiet}

abbrev reader : Ctx Micro
reader = record (endpoint consumer) { stats_on = false; rxbuf_cap = 4096 }

abbrev answered : List (Rc × List ℕ)
answered = (done 2, 0 ∷ 1 ∷ []) ∷ (done 4, 2 ∷ 7 ∷ 8 ∷ 9 ∷ []) ∷ []

abbrev got : List ℕ
got = 7 ∷ 8 ∷ []

abbrev waiting : World
waiting = record quiet { poll = done 1 ∷ done 1 ∷ []; recvfrom = answered }

is_cut :
    adapt_recv_uds_timeout reader 3 5 waiting
    ≡ some (((done 2, got), reader), record waiting { poll = []; recvfrom = [] })
unfolding adapt_recv_uds_timeout
is_cut = refl

adapt_recv_uds_payload_example :
    (d : List ℕ) × (left : List (Rc × List ℕ)) × Answered answered d left
    × (get_or d 0 1 ≢ 0)
    × (got ≡ take (3 - 1) (drop 1 d))
    × (2 ≡ length (got))
adapt_recv_uds_payload_example =
    adapt_recv_uds_payload reader reader 3 5 2 (got) waiting
      (record waiting { poll = []; recvfrom = [] }) is_cut

-- A producer with a request pending: it hears nothing, then a refusal, and at 261 ms still nothing.
abbrev asking : Ctx Micro
asking = record (endpoint producer) {
  stats_on = false;
  rxbuf_cap = 4096;
  neg_name = b'/' ∷ b'r' ∷ [];
  last_req_ns = 10_000_000;
}

abbrev heard_first : List Beat
heard_first = silence 200_000_000 ∷ chatter (0 ∷ 2 ∷ 12 ∷ []) ∷ []

ensure_waits_example :
    producer_ensure_shm asking 10_000_000
      (answering heard_first (late 261_000_000) (done 1 ∷ []) [] answered quiet)
    ≡ some
        ((fail 110, asking), record quiet { poll = done 1 ∷ []; clock = []; recvfrom = answered })
unfolding adaptipc.Router.Init.blank
ensure_waits_example =
    ensure_waits heard_first (late 261_000_000) asking 10_000_000 quiet (done 1 ∷ []) [] answered
      refl (λ e. absurd (ground arith)) (omega arith) refl (omega arith) (omega arith)
      (omega arith, ((omega arith, omega arith, λ more e. absurd (ground arith)), tt)) (omega arith)
