-- ===== src/Uds/Tests.antt =====
-- The theorems about the datagram transport, on answers of the kernel.
use Prim.{tt}
use adaptipc.Base.{ℕ, ◌≡◌, refl, inl, inr, some, List, [], ◌∷◌, arith}
use adaptipc.Base.Errno.{done, fail}
use adaptipc.World.{World}
use adaptipc.Uds.{send, recv_timeout}
use adaptipc.Uds.Laws.{failures, Settles, send_retries}

-- A send that is interrupted, then out of buffers, then taken; a poll that finds two bytes.
abbrev before : World
before = record {
  clock = [];
  sendto = fail 4 ∷ fail 105 ∷ done 2 ∷ fail 111 ∷ [];
  poll = fail 4 ∷ done 1 ∷ [];
  recvfrom = (done 2, 8 ∷ 9 ∷ []) ∷ [];
  realloc = [];
  wire = [];
  maps = [];
  fresh_name = [];
  arrivals = [];
  rounds = [];
  openings = [];
  held = record { endpoints = 0; sockets = 0; files = [] };
  rings = 0;
  objects = [];
}

abbrev message : List ℕ
message = 2 ∷ 7 ∷ []

abbrev sent : World
sent = record before { sendto = fail 111 ∷ []; wire = message ∷ [] }

before_tries : before.sendto ≡ failures (4 ∷ 105 ∷ []) (done 2 ∷ fail 111 ∷ [])
unfolding failures
before_tries = refl

send_retries_example : Settles (done 2) (fail 111 ∷ []) message before (send message before)
send_retries_example =
    send_retries (4 ∷ 105 ∷ []) (done 2) (fail 111 ∷ []) message before (omega arith) (omega arith)
      (inl refl, (inr (inl refl), tt)) tt before_tries

is_sent : send message before ≡ some (done 0, sent)
unfolding send
is_sent = refl

abbrev read_out : World
read_out = record before { poll = []; recvfrom = [] }

is_received : recv_timeout 100 5 before ≡ some ((done 2, 8 ∷ 9 ∷ []), read_out)
unfolding recv_timeout
is_received = refl
