-- ===== src/Router/Tests.antt =====
-- The theorems about the endpoint, on a producer and a consumer with default settings.
mod Wire
mod Starts
mod Life
mod Sockets
use adaptipc.Base.{
  ℕ, List, length, ◌≤◌, ◌≡◌, refl, inl, true, false, none, some, [], ◌∷◌, ◌==◌, if◌then◌else◌,
}
use adaptipc.Base.Errno.{done, eagain}
use adaptipc.Double.Scaled.{Micro, plus, micro_double}
use adaptipc.Ring.Open.{Role, producer, consumer}
use adaptipc.Cost.Types.{undecided, full_adaptive, balanced}
use adaptipc.World.{World}
use adaptipc.Router.Types.{Config, Ctx}
use adaptipc.Router.Negotiate.{handle_control}
use adaptipc.Router.Classify.{is_retry, classify, settle, fall_back}
use adaptipc.Router.Send.{end_shm}
use adaptipc.Router.Recv.{adapt_recv}
use adaptipc.Router.Received.{adapt_recv_bounds}
use adaptipc.Router.Init.{Env, blank}
use adaptipc.Router.Laws.{
  classify_retry, fall_back_lem, malformed_ignored, settle_lem, refused_resumes,
}

abbrev config : Config Micro
config = record {
  shm_name = none;
  local_sock = b'/' ∷ b's' ∷ [];
  shm_capacity = 0;
  nonblocking_send = true;
  policy = full_adaptive;
  qos = balanced;
  latency_budget_us = plus 0;
}

abbrev environment : Env Micro
environment = record {
  stats = true;
  eager_shm = false;
  latency_weight = false;
  decision_log = true;
  alpha = none;
  policy = none;
  cost = λ v. none;
  calloc = true;
}

abbrev endpoint : Role → Ctx Micro
endpoint role = blank role config environment

abbrev quiet : World
quiet = record {
  clock = 5 ∷ [];
  sendto = [];
  poll = [];
  recvfrom = [];
  realloc = [];
  wire = [];
  maps = [];
  fresh_name = [];
  arrivals = [];
  rounds = [];
  openings = [];
  held = record { endpoints = 0; sockets = 0; files = [] };
  rings = 0;
  objects = [];
}

-- 5000 bytes, classified for a datagram, on a ring of 65536.
abbrev sized : Ctx Micro
sized = record (endpoint producer) { shm_capacity = 65536 }

-- One datagram of two bytes waits, behind a control frame that is cut short.
abbrev listening : Ctx Micro
listening = record (endpoint consumer) {
  role = consumer;
  ring = none;
  stats_on = false;
  rxbuf_cap = 4096;
}

abbrev waiting : World
waiting = record quiet {
  poll = done 1 ∷ done 1 ∷ [];
  recvfrom = (done 2, 0 ∷ 1 ∷ []) ∷ (done 3, 2 ∷ 7 ∷ 8 ∷ []) ∷ [];
  arrivals = [] ∷ [] ∷ [];
}

abbrev delivered : List ℕ
delivered = 7 ∷ 8 ∷ []

abbrev read_out : World
read_out = record quiet { clock = 5 ∷ [] }

is_delivered : adapt_recv listening 10 waiting ≡ some (((done 2, delivered), listening), read_out)
unfolding adapt_recv
is_delivered = refl

adapt_recv_bounds_example : (2 ≡ length delivered) × (2 ≤ 10)
adapt_recv_bounds_example =
    adapt_recv_bounds listening listening 10 2 delivered waiting read_out is_delivered
