-- ===== src/Router/Tests/Wire.antt =====
-- A producer and a consumer that agree on a ring, and messages between them.
use adaptipc.Base.{
  ℕ, ◌^◌, ◌≤◌, ◌≡◌, refl, inl, true, false, Option, none, some, List, [], ◌∷◌, ◌++◌, ◌⊎◌, ◌≢◌,
  arith,
}
use adaptipc.Base.Errno.{Rc, done}
use adaptipc.Double.Scaled.{Micro, micro_double}
use adaptipc.Ring.{Ring, push_scatter, push_body, body_of, scatter, copy_segs, copy_seg}
use adaptipc.Ring.Inv.{IsCapacity, Holds}
use adaptipc.Ring.Open.{producer, consumer, Os, Object, ring_magic, attach}
use adaptipc.Base.Bytes.{u32_bytes, u32_at}
use adaptipc.Ring.Capacity.{round_pow2}
use adaptipc.Router.Init.{blank}
use adaptipc.Cost.Types.{uds, size_hysteresis}
use adaptipc.World.{World}
use adaptipc.Router.Types.{Ctx}
use adaptipc.Router.Negotiate.{request_frame, handle_control, producer_map_ring}
use adaptipc.Router.Handshake.{handshake}
use adaptipc.Router.Send.{framed, send_shm, send_uds, adapt_send}
use adaptipc.Router.Recv.{adapt_recv}
use adaptipc.Router.Delivery.{sent_in_order}
use adaptipc.Router.Delivery.Sent.{frames}
use adaptipc.Router.Datagram.{datagram_roundtrip}
use adaptipc.Router.Keeps.{Keeps}
use adaptipc.Router.Retry.{adapt_send_retry}
use adaptipc.Router.Once.{adapt_send_once}
use adaptipc.Router.Tests.{endpoint, quiet}

-- "/r"
abbrev name : List ℕ
name = b'/' ∷ b'r' ∷ []

abbrev asking : Ctx Micro
asking = record (endpoint producer) {
  neg_name = name;
  shm_capacity = 65536;
  stats_on = false;
  policy = size_hysteresis;
}

abbrev serving : Ctx Micro
serving = record (endpoint consumer) { stats_on = false }

abbrev os : Os
os = record {
  shm_open = done 3;
  fstat = done 65712;
  ftruncate = done 0;
  mmap = done 0;
  calloc = true;
}

abbrev fresh : Object
fresh = record {
  head = 0;
  tail = 0;
  parks = 0;
  hdr_capacity = 0;
  magic = 0;
  initialized = 0;
  flow_flag = 0;
  mem = λ i. 0;
}

abbrev ready : World
ready = record quiet { sendto = done 3 ∷ []; realloc = true ∷ []; maps = (os, fresh) ∷ [] }

abbrev their_ring : Ring
their_ring = record {
  head = 0;
  tail = 0;
  parks = 0;
  hdr_capacity = 0;
  magic = 0;
  initialized = 0;
  flow_flag = 0;
  mem = λ i. 0;
  capacity = 65536;
  name = name;
  fd = 3;
}

abbrev our_ring : Ring
our_ring = record their_ring { hdr_capacity = 65536; magic = ring_magic; initialized = 1 }

abbrev served : Ctx Micro
served = record serving { ring = some their_ring; rxbuf_cap = 65536 }

abbrev mapped : Ctx Micro
mapped = record asking { ring = some our_ring; rxbuf_cap = 65536 }

abbrev after_mapping : World
after_mapping = record ready { realloc = []; maps = []; rings = 1; objects = name ∷ [] }

abbrev after_serving : World
after_serving = record after_mapping { sendto = []; wire = (0 ∷ 2 ∷ 0 ∷ []) ∷ [] }

is_served : handle_control serving (request_frame asking) ready ≡ some (served, after_serving)
unfolding handle_control u32_bytes u32_at blank attach round_pow2
is_served = refl

is_mapped : producer_map_ring asking ready ≡ some ((done 0, mapped), after_mapping)
unfolding producer_map_ring attach round_pow2 blank
is_mapped = refl

handshake_example :
    (their_ring.capacity ≡ our_ring.capacity)
    × (their_ring.name ≡ our_ring.name)
    × (65536 ≤ our_ring.capacity)
    × Holds our_ring []
unfolding blank
handshake_example =
    handshake asking serving mapped served (b'r' ∷ []) ready after_mapping ready after_serving
      (done 0) our_ring their_ring refl (ground arith) (omega arith) (omega arith) refl refl
      is_served refl is_mapped refl

abbrev hello : List ℕ
hello = 104 ∷ 101 ∷ 121 ∷ []

our_shape : IsCapacity 65536
our_shape = record { page = omega arith; small = omega arith; blocks = 2 ^ 48; divides = refl }

empty_ring : Holds our_ring []
empty_ring = record {
  shape = our_shape;
  head_word = omega arith;
  tail_word = omega arith;
  filled = omega arith;
  records = omega arith;
}

abbrev filled_ring : Ring
filled_ring = (push_scatter our_ring (framed hello)).1

is_sent :
    send_shm mapped hello quiet
    ≡ some ((done 0, record mapped { ring = some filled_ring; retry_pending = false }), quiet)
unfolding send_shm blank push_scatter push_body body_of scatter copy_segs copy_seg
is_sent = refl

abbrev peer : Ctx Micro
peer = record served { ring = some filled_ring }

sent_in_order_example :
    (c' : Ctx Micro) × (v' : World) × (r' : Ring) × (adapt_recv peer 10
        (record quiet { arrivals = [] ∷ [] })
      ≡ some (((done 3, hello), c'), v'))
    × (c'.ring ≡ some r')
    × Holds r' (frames [])
unfolding blank
sent_in_order_example =
    sent_in_order mapped (record mapped { ring = some filled_ring; retry_pending = false }) peer
      our_ring filled_ring [] [] hello hello 10 quiet quiet (record quiet { arrivals = [] ∷ [] }) []
      refl refl empty_ring (omega arith) is_sent refl refl refl refl (omega arith) (omega arith)
      (omega arith) refl

abbrev outgoing : World
outgoing = record quiet { sendto = done 4 ∷ [] }

is_posted :
    send_uds asking hello outgoing
    ≡ some (
      (done 0, record asking { retry_pending = false }),
      record outgoing { sendto = []; wire = (2 ∷ hello) ∷ [] },
    )
unfolding send_uds blank
is_posted = refl

abbrev incoming : World
incoming = record quiet {
  clock = 1 ∷ 2 ∷ [];
  poll = done 1 ∷ [];
  recvfrom = (done 4, 2 ∷ hello) ∷ [];
  arrivals = [] ∷ [];
}

datagram_roundtrip_example :
    (c' : Ctx Micro) × (v' : World) × (adapt_recv (record serving { rxbuf_cap = 4096 }) 10 incoming
      ≡ some (((done 3, hello), c'), v'))
unfolding blank
datagram_roundtrip_example =
    datagram_roundtrip asking (record asking { retry_pending = false })
      (record serving { rxbuf_cap = 4096 }) hello (2 ∷ hello) 10 4 0 outgoing
      (record outgoing { sendto = []; wire = (2 ∷ hello) ∷ [] }) incoming [] [] [] is_posted refl
      refl (inl refl) (omega arith) (omega arith) (omega arith) (omega arith) (omega arith) refl
      refl refl

abbrev retrying : Ctx Micro
retrying = record mapped { retry_pending = true; pending_size = 3; pending_route = uds }

abbrev posted : World
posted = record outgoing { clock = []; sendto = []; wire = (2 ∷ hello) ∷ [] }

abbrev left : Option ((Rc × Ctx Micro) × World) → Ctx Micro
left none = retrying
left (some ((rc, c), w)) = c

is_retried :
    adapt_send retrying hello outgoing
    ≡ some (
      (done 0, left (adapt_send retrying hello outgoing)),
      record outgoing { clock = []; sendto = []; wire = (2 ∷ hello) ∷ [] },
    )
unfolding adapt_send blank
is_retried = refl

adapt_send_retry_example : Keeps retrying (left (adapt_send retrying hello outgoing))
adapt_send_retry_example =
    adapt_send_retry retrying (left (adapt_send retrying hello outgoing)) hello outgoing
      (record outgoing { clock = []; sendto = []; wire = (2 ∷ hello) ∷ [] }) (done 0) refl
      is_retried

adapt_send_once_example :
    (r' : Ring) × ((left (adapt_send retrying hello outgoing)).ring ≡ some r')
    × (((done 0 ≡ done 0) × Holds r' (frames ([] ++ (hello ∷ []))) × (posted.wire ≡ outgoing.wire))
        ⊎ ((done 0 ≡ done 0)
            × (r' ≡ our_ring)
            × (posted.wire ≡ outgoing.wire ++ ((2 ∷ hello) ∷ [])))
        ⊎ ((done 0 ≢ done 0) × (r' ≡ our_ring)))
unfolding blank
adapt_send_once_example =
    adapt_send_once retrying (left (adapt_send retrying hello outgoing)) our_ring [] hello outgoing
      posted (done 0) refl refl empty_ring (omega arith) is_retried
