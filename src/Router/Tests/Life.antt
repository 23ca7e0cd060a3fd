-- ===== src/Router/Tests/Life.antt =====
-- A consumer that maps its ring at once, reads a datagram and ends; and a ring by a long name.
use adaptipc.Base.{ℕ, ◌≡◌, refl, true, false, some, List, [], ◌∷◌, arith, tabulate}
use adaptipc.Base.Errno.{done}
use adaptipc.Double.Scaled.{Micro, micro_double}
use adaptipc.Ring.{Ring}
use adaptipc.Ring.Capacity.{round_pow2}
use adaptipc.Ring.Open.{producer, consumer, Os, Object, attach, create}
use adaptipc.World.{World}
use adaptipc.Uds.Open.{unlink}
use adaptipc.Router.Types.{Ctx, ring_create, ring_close}
use adaptipc.Router.Init.{Env, adapt_init, default_name, blank}
use adaptipc.Router.Queries.{adapt_shutdown}
use adaptipc.Router.Ledger.{recv_uds, run, life_cycle}
use adaptipc.Router.Ledger.Names.{Unlinked, close_unlinks}
use adaptipc.Router.Tests.{config, environment, quiet}

abbrev kind_os : Os
kind_os = record {
  shm_open = done 5;
  fstat = done 100_000;
  ftruncate = done 0;
  mmap = done 0;
  calloc = true;
}

abbrev fresh : Object
fresh = record {
  head = 0;
  tail = 0;
  parks = 0;
  hdr_capacity = 0;
  magic = 0;
  initialized = 0;
  flow_flag = 0;
  mem = λ i. 0;
}

abbrev eager : Env Micro
eager = record environment { stats = false; eager_shm = true }

abbrev opening : World
opening = record quiet {
  maps = (kind_os, fresh) ∷ [];
  openings = record { calloc = true; socket = done 3; bind = done 0 } ∷ [];
  realloc = true ∷ [];
  poll = done 1 ∷ [];
  recvfrom = (done 3, 2 ∷ 7 ∷ 8 ∷ []) ∷ [];
}

abbrev mapped : Ring
mapped = record {
  head = 0;
  tail = 0;
  parks = 0;
  hdr_capacity = 0;
  magic = 0;
  initialized = 0;
  flow_flag = 0;
  mem = λ i. 0;
  capacity = 65536;
  name = default_name;
  fd = 5;
}

abbrev started : Ctx Micro
started = record (blank consumer config eager) {
  ring = some mapped;
  negot_done = true;
  uds = some config.local_sock;
  rxbuf_cap = 65536;
}

abbrev opened : World
opened = record opening {
  maps = [];
  openings = [];
  realloc = [];
  held = record { endpoints = 1; sockets = 1; files = config.local_sock ∷ [] };
  rings = 1;
  objects = default_name ∷ [];
}

is_started : adapt_init consumer config eager opening ≡ some ((done 0, some started), opened)
unfolding adapt_init attach round_pow2
is_started = refl

is_run :
    run (recv_uds 10 5 ∷ []) started opened
    ≡ some (started, record opened { poll = []; recvfrom = [] })
unfolding run
is_run = refl

life_cycle_example :
    let after = (adapt_shutdown started (record opened { poll = []; recvfrom = [] })).1 in
    (after.held ≡ record opening.held { files = unlink config.local_sock [] }) × (after.rings ≡ 0)
life_cycle_example =
    life_cycle consumer config eager (recv_uds 10 5 ∷ []) (done 0) started started opening opened
      (record opened { poll = []; recvfrom = [] }) (ground arith) is_started is_run

-- 71 bytes.
abbrev long_text : List ℕ
long_text = tabulate (λ i. b'a') 0 70

abbrev created : Ring
created = record mapped {
  hdr_capacity = 65536;
  magic = 0x52494752;
  initialized = 1;
  name = b'/' ∷ tabulate (λ i. b'a') 0 62;
}

is_created :
    ring_create (b'/' ∷ long_text) 65536 producer opening
    ≡ some (
      (done 0, some created),
      record opening { maps = []; rings = 1; objects = (b'/' ∷ long_text) ∷ [] },
    )
unfolding ring_create create round_pow2
is_created = refl

close_unlinks_example :
    Unlinked
      (b'/' ∷ long_text)
      []
      (ring_close
        (some created)
        true
        (record opening { maps = []; rings = 1; objects = (b'/' ∷ long_text) ∷ [] })).objects
close_unlinks_example =
    close_unlinks long_text 65536 (done 0) created opening
      (record opening { maps = []; rings = 1; objects = (b'/' ∷ long_text) ∷ [] }) (omega arith)
      is_created
