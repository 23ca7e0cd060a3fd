-- ===== src/Showcase/Tests/Ends.antt =====
-- The endpoints themselves: the first message goes by datagram, the send of the second is refused.
use adaptipc.Base.{ℕ, ◌≡◌, refl, List, [], ◌∷◌, Option, none, some, length, arith, true, false}
use adaptipc.Base.Bytes.{u32_bytes}
use adaptipc.Base.Errno.{Rc, done, fail}
use adaptipc.Cost.Decide.Size.{sticky_decision}
use adaptipc.Ring.{pop, pop_loop}
use adaptipc.Double.Scaled.{Micro, micro_double}
use adaptipc.World.{World}
use adaptipc.Ring.Open.{Os, Object, create, attach}
use adaptipc.Ring.Capacity.{round_pow2}
use adaptipc.Router.Init.{Env}
use adaptipc.Showcase.{Outcome}
use adaptipc.Showcase.Pair.{Kernel, main}
use adaptipc.Showcase.Pair.Release.{Ends, main-Ends}

abbrev object : Os × Object
object = (
  record { shm_open = done 5; fstat = done 0; ftruncate = done 0; mmap = done 0; calloc = true },
  record {
    head = 0;
    tail = 0;
    parks = 0;
    hdr_capacity = 0;
    magic = 0;
    initialized = 0;
    flow_flag = 0;
    mem = λ i. 0;
  },
)

abbrev environment : Env Micro
environment = record {
  stats = false;
  eager_shm = false;
  latency_weight = false;
  decision_log = false;
  alpha = none;
  policy = none;
  cost = λ v. none;
  calloc = true;
}

abbrev before : World
before = record {
  clock = 1 ∷ 2 ∷ 3 ∷ 4 ∷ 5 ∷ 6 ∷ [];
  sendto = done 513 ∷ fail 13 ∷ [];
  poll = [];
  recvfrom = [];
  realloc = true ∷ [];
  wire = [];
  maps = object ∷ [];
  fresh_name = [];
  arrivals = [] ∷ [] ∷ [];
  rounds = [];
  openings = record { calloc = true; socket = done 3; bind = done 0 } ∷ [];
  held = record { endpoints = 0; sockets = 0; files = [] };
  rings = 0;
  objects = [];
}

abbrev datagrams : List (List ℕ) → List (Rc × List ℕ)
datagrams [] = []
datagrams (d ∷ ds) = (done (length d), d) ∷ datagrams ds

abbrev kernel : Kernel
kernel w v = (done 1 ∷ [], datagrams w.wire)

abbrev ran : Option (Outcome Micro × World × World)
ran = main kernel (λ i. 0) 6 1 true (b'p' ∷ []) (b'c' ∷ []) environment before before

abbrev outcome_of : Option (Outcome Micro × World × World) → Outcome Micro × World × World
outcome_of none = (record { exit = 1; rows = []; switches = 0 }, before, before)
outcome_of (some out) = out

is_run : ran ≡ some (outcome_of ran)
unfolding main round_pow2 create attach u32_bytes sticky_decision pop pop_loop
is_run = refl

stops : (outcome_of ran).0.exit ≡ 5
unfolding main round_pow2 create attach u32_bytes sticky_decision pop pop_loop
stops = refl

main-Ends_example :
    Ends
      (b'p' ∷ [])
      (b'c' ∷ [])
      before
      before
      (outcome_of ran).0.exit
      (outcome_of ran).1
      (outcome_of ran).2
main-Ends_example =
    main-Ends kernel (λ i. 0) 6 1 true (b'p' ∷ []) (b'c' ∷ []) environment before before
      (outcome_of ran).1 (outcome_of ran).2 (outcome_of ran).0 (ground arith) (ground arith) is_run
