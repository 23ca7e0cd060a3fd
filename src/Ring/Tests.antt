-- ===== src/Ring/Tests.antt =====
-- The theorems about the ring, on a ring of one page.
mod Blocking
use Prim.{tt}
use adaptipc.Base.{
  ℕ, zero, suc, ◌+◌, ◌^◌, ◌≤◌, ◌≡◌, refl, ◌⊎◌, inl, inr, ◌≢◌, true, none, some, List, [], ◌∷◌, ◌++◌,
  arith, length,
}
use adaptipc.Base.Errno.{done, fail, eagain}
use adaptipc.Ring.{Ring, push, push_scatter, pop, Segment, bytes_at}
use adaptipc.Ring.Inv.{IsCapacity, Holds}
use adaptipc.Ring.Push.{Fits, push_refines}
use adaptipc.Ring.Pop.{fifo_pop, pop_refines}
use adaptipc.Ring.Scatter.{flat, ScatterFits, push_scatter-eq-push, push_scatter_refines}
use adaptipc.Ring.Fifo.{Call, send, send_segments, receive, Trace, run, IsFifo, run-IsFifo}
use adaptipc.Ring.Capacity.{pow2_loop, round_pow2, IsRounded, round_pow2_lem, round_pow2_beyond}
use adaptipc.Ring.Open.{producer, Os, Object, attach, attach_lem}
use adaptipc.Ring.Progress.{empty_stuck}
use adaptipc.Ring.Flow.{Round, wait_writable, retry}
use adaptipc.Ring.Waiting.{retry_enough}

abbrev at_cursor : ℕ → Ring
at_cursor n = record {
  head = n;
  tail = n;
  parks = 0;
  hdr_capacity = 4096;
  magic = 0;
  initialized = 1;
  flow_flag = 0;
  mem = λ i. 0;
  capacity = 4096;
  name = [];
  fd = 3;
}

one_page : IsCapacity 4096
one_page = record { page = omega arith; small = omega arith; blocks = 2 ^ 52; divides = refl }

at_start : Holds (at_cursor 0) []
at_start = record {
  shape = one_page;
  head_word = omega arith;
  tail_word = omega arith;
  filled = omega arith;
  records = omega arith;
}

at_middle : Holds (at_cursor 1024) []
at_middle = record {
  shape = one_page;
  head_word = omega arith;
  tail_word = omega arith;
  filled = omega arith;
  records = omega arith;
}

abbrev hello : List ℕ
hello = 104 ∷ 101 ∷ 121 ∷ []

abbrev tagged : List Segment
tagged = bytes_at (1 ∷ []) ∷ bytes_at hello ∷ []

abbrev script : List Call
script = receive 10 ∷ send hello ∷ send_segments tagged ∷ receive 2 ∷ receive 10 ∷ []

run-IsFifo_example :
    (t : Trace) × (run (record { ring = at_cursor 0; accepted = []; delivered = [] }) script
      ≡ some t)
    × IsFifo t
run-IsFifo_example =
    run-IsFifo (at_cursor 0) script at_start
      (tt, (tt, (((refl, (refl, tt)), omega arith), (tt, (tt, tt)))))

push_refines_example :
    let (rc, r') = push (at_cursor 0) hello in
    (Fits (at_cursor 0) hello × (rc ≡ done 0) × Holds r' ([] ++ (hello ∷ [])))
    ⊎ ((¬ Fits (at_cursor 0) hello) × (rc ≢ done 0) × (r' ≡ at_cursor 0))
push_refines_example = push_refines hello at_start

hello_pushed : (push (at_cursor 0) hello).0 ≡ done 0
unfolding push
hello_pushed = refl

-- The ring with one record.
abbrev greeting : Ring
greeting = (push (at_cursor 0) hello).1

greeting-Holds : Holds greeting (hello ∷ [])
greeting-Holds = elim (push_refines hello at_start) [
  | inl (fits, ok, h) ↦ h
  | inr (no_room, bad, same) ↦ absurd (bad hello_pushed)
]

pop_refines_example :
    let (rc, out, q') = fifo_pop (hello ∷ []) 10 in
    (r' : Ring) × (pop greeting 10 ≡ some (rc, out, r')) × Holds r' q'
pop_refines_example = pop_refines (hello ∷ []) 10 greeting-Holds

push_scatter_refines_example :
    let (rc, r') = push_scatter (at_cursor 0) tagged in
    (ScatterFits (at_cursor 0) tagged × (rc ≡ done 0) × Holds r' ([] ++ (flat tagged ∷ [])))
    ⊎ ((¬ ScatterFits (at_cursor 0) tagged) × (rc ≢ done 0) × (r' ≡ at_cursor 0))
push_scatter_refines_example = push_scatter_refines tagged at_start (refl, (refl, tt)) (omega arith)

push_scatter-eq-push_example : push_scatter (at_cursor 0) tagged ≡ push (at_cursor 0) (flat tagged)
push_scatter-eq-push_example =
    push_scatter-eq-push tagged at_start (refl, (refl, tt)) (omega arith) (omega arith)

round_pow2_lem_example : (c : ℕ) × (round_pow2 5000 ≡ some c) × IsRounded 5000 c
round_pow2_lem_example = round_pow2_lem 5000 (omega arith)

round_pow2_beyond_example : pow2_loop 100 (2 ^ 63 + 1) 4096 ≡ none
round_pow2_beyond_example = round_pow2_beyond 100 (2 ^ 63 + 1) (omega arith)

unfoldable zeros : ℕ → List ℕ
zeros zero = []
zeros (suc n) = 0 ∷ zeros n

length-zeros : (n : ℕ) → length (zeros n) ≡ n
unfolding zeros
length-zeros zero = refl
length-zeros (suc n) = let i = length-zeros n in omega (arith, i)

-- 3496 bytes at offset 1024 of an empty page.
empty_stuck_example :
    (push (at_cursor 1024) (zeros 3496) ≡ (fail eagain, at_cursor 1024))
    × (pop (at_cursor 1024) 8192 ≡ some (fail eagain, [], at_cursor 1024))
empty_stuck_example =
    empty_stuck (zeros 3496) 8192 at_middle (rw (length-zeros 3496) (omega arith))
      (rw (length-zeros 3496) (omega arith)) (rw (length-zeros 3496) (omega arith))

abbrev kind_os : Os
kind_os = record {
  shm_open = done 3;
  fstat = done 0;
  ftruncate = done 0;
  mmap = done 0;
  calloc = true;
}

abbrev stale : Object
stale = record {
  head = 77;
  tail = 5;
  parks = 1;
  hdr_capacity = 0;
  magic = 0;
  initialized = 0;
  flow_flag = 1;
  mem = λ i. i;
}

abbrev attached : Ring
attached = record {
  head = 0;
  tail = 0;
  parks = 0;
  hdr_capacity = 8192;
  magic = 0x52494752;
  initialized = 1;
  flow_flag = 0;
  mem = λ i. i;
  capacity = 8192;
  name = b'/' ∷ 97 ∷ [];
  fd = 3;
}

is_attached : attach kind_os (b'/' ∷ 97 ∷ []) 5000 producer stale ≡ some (done 0, some attached)
unfolding attach round_pow2
is_attached = refl

attach_lem_example : (done 0 ≡ done 0) × (5000 ≤ attached.capacity) × Holds attached []
attach_lem_example =
    attach_lem kind_os (97 ∷ []) 5000 stale (done 0) attached (omega arith) is_attached

-- 3500 bytes used, and 500 after one sleep.
abbrev full_ring : Ring
full_ring = record (at_cursor 0) { head = 3500 }

abbrev slept : Round
slept = record { tail = 0; tail2 = 0; wait = done 0; flag = 0 }

abbrev drained : Round
drained = record { tail = 3000; tail2 = 3000; wait = done 0; flag = 0 }

abbrev writable : Ring
writable = record full_ring { tail = 3000; parks = 1 }

has_waited : wait_writable (slept ∷ drained ∷ []) full_ring ≡ some (done 0, writable, [])
unfolding wait_writable
has_waited = refl
