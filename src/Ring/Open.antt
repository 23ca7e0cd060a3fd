-- ===== src/Ring/Open.antt =====
-- src/shm_ringbuffer.c: `ring_map`, behind `shm_ring_create` and `shm_ring_attach`. What the operating
-- system answers is an argument, and so is what the shared object holds.
use adaptipc.Base.{
  ℕ, ◌+◌, ◌≤◌, ◌^◌, ◌≡◌, sym, ◌∙◌, Bool, true, false, ◌&&◌, Option, none, some, List, [], ◌∷◌,
  arith, ltb, ◌==◌, if◌then◌else◌, take, add64, ◌≢◌,
}
use adaptipc.Base.Bytes.{Memory}
use adaptipc.Base.Errno.{Rc, done, fail, einval, enomem}
use adaptipc.Ring.{Ring}
use adaptipc.Ring.Inv.{IsCapacity, Holds}
use adaptipc.Ring.Capacity.{round_pow2, round_pow2_lem, IsRounded-IsCapacity}

pub data Role : Type 0 where
  producer consumer : Role

-- The results of `shm_open` (the descriptor), `fstat` (the size), `ftruncate` and `mmap`, and whether
-- `calloc` finds memory.
pub record Os : Type 0 where
  pub shm_open : Rc
  pub fstat : Rc
  pub ftruncate : Rc
  pub mmap : Rc
  pub calloc : Bool

-- The object as it stands when it is mapped.
pub record Object : Type 0 where
  pub head : ℕ
  pub tail : ℕ
  pub parks : ℕ
  pub hdr_capacity : ℕ
  pub magic : ℕ
  pub initialized : ℕ
  pub flow_flag : ℕ
  pub mem : Memory

-- SHM_RING_MAGIC, and the size of the header with SHM_HDR_PAD on a 64-bit Linux.
abbrev pub ring_magic : ℕ
ring_magic = 0x52494752

abbrev pub hdr_size : ℕ
hdr_size = 48 + 128

-- `while (!initialized) sched_yield ()`: ended at once, or still waiting (`none`).
abbrev await_init : Bool → Object → Ring → Option (Rc × Option Ring)
await_init wait_init o r = if wait_init && (o.initialized == 0) then none else some (done 0, some r)

abbrev handle : Object → List ℕ → ℕ → ℕ → Ring
handle o name cap fd = record {
  head = o.head;
  tail = o.tail;
  parks = o.parks;
  hdr_capacity = o.hdr_capacity;
  magic = o.magic;
  initialized = o.initialized;
  flow_flag = o.flow_flag;
  mem = o.mem;
  capacity = cap;
  name = take 63 name;
  fd = fd;
}

-- What the producer stores into the header, and what the consumer waits for.
set_up : Role → Bool → Object → List ℕ → ℕ → ℕ → Option (Rc × Option Ring)
set_up producer wait_init o name cap fd = some (
  done 0,
  some (record (handle o name cap fd) {
    head = 0;
    tail = 0;
    parks = 0;
    flow_flag = 0;
    hdr_capacity = cap;
    magic = ring_magic;
    initialized = 1;
  }),
)
set_up consumer wait_init o name cap fd = await_init wait_init o (handle o name cap fd)

map_object : Os → Role → Bool → Object → List ℕ → ℕ → ℕ → Option (Rc × Option Ring)
unfolding set_up
map_object os role wait_init o name cap fd = elim os.mmap [
  | fail e ↦ some (fail e, none)
  | done _ ↦ if os.calloc then set_up role wait_init o name cap fd else some (fail enomem, none)
]

grow_object : Os → Role → Bool → Object → List ℕ → ℕ → ℕ → ℕ → Option (Rc × Option Ring)
unfolding map_object
grow_object os role wait_init o name cap fd size =
    let mapped = map_object os role wait_init o name cap fd in
    if ltb size (add64 hdr_size cap)
    then elim os.ftruncate [ fail e ↦ some (fail e, none) | done _ ↦ mapped ]
    else mapped

unfoldable pub stat_object : Os → Role → Bool → Object → List ℕ → ℕ → ℕ → Option (Rc × Option Ring)
unfolding grow_object
stat_object os role wait_init o name cap fd = elim os.fstat [
  | fail e ↦ some (fail e, none)
  | done size ↦ grow_object os role wait_init o name cap fd size
]

abbrev pub open_sized : Os → Role → Bool → Object → List ℕ → ℕ → Option (Rc × Option Ring)
open_sized os role wait_init o name cap = elim os.shm_open [
  | fail e ↦ some (fail e, none)
  | done fd ↦ stat_object os role wait_init o name cap fd
]

-- `ring_map`: the result and the handle. `none` is a call that does not return. A name that does not
-- begin with `/` is refused.
ring_map : Os → List ℕ → ℕ → Role → Bool → Object → Option (Rc × Option Ring)
unfolding stat_object
ring_map os [] capacity role wait_init o = some (fail einval, none)
ring_map os (c ∷ cs) capacity role wait_init o =
    if c == b'/'
    then elim (round_pow2 (if capacity == 0 then 65536 else capacity)) [
      | none ↦ none
      | some cap ↦ open_sized os role wait_init o (c ∷ cs) cap
    ]
    else some (fail einval, none)

-- `shm_ring_create` waits for the header, `shm_ring_attach` does not.
unfoldable pub create : Os → List ℕ → ℕ → Role → Object → Option (Rc × Option Ring)
unfolding ring_map
create os name capacity role o = ring_map os name capacity role true o

unfoldable pub attach : Os → List ℕ → ℕ → Role → Object → Option (Rc × Option Ring)
unfolding ring_map
attach os name capacity role o = ring_map os name capacity role false o

-- A producer that gets a handle has written the header of an empty ring.
opened :
    (os : Os) (wait : Bool) (o : Object) (name : List ℕ) (cap : ℕ) {rc : Rc} {r : Ring}
    → open_sized os producer wait o name cap ≡ some (rc, some r)
    → (rc ≡ done 0) × (r.head ≡ 0) × (r.tail ≡ 0) × (r.capacity ≡ cap)
unfolding stat_object
opened os wait o name cap e = ground arith

open_sized-ne-none :
    (os : Os) (o : Object) (role : Role) (name : List ℕ) (cap : ℕ)
    → open_sized os role false o name cap ≢ none
unfolding stat_object
open_sized-ne-none os o role name cap = ground arith

empty-Holds : (r : Ring) → r.head ≡ 0 → r.tail ≡ 0 → IsCapacity r.capacity → Holds r []
empty-Holds r h t shape = record {
  shape = shape;
  head_word = omega arith;
  tail_word = omega arith;
  filled = omega arith;
  records = omega arith;
}

pub attach_sized :
    (os : Os) (cs : List ℕ) (capacity c : ℕ) (role : Role) (o : Object)
    → round_pow2 (if capacity == 0 then 65536 else capacity) ≡ some c
    → attach os (b'/' ∷ cs) capacity role o ≡ open_sized os role false o (b'/' ∷ cs) c
unfolding attach
attach_sized os cs capacity c role o e = rw e

abbrev pub size_of : ℕ → ℕ
size_of capacity = if capacity == 0 then 65536 else capacity

pub size_small : (capacity : ℕ) → capacity ≤ 2 ^ 30 → size_of capacity ≤ 2 ^ 30
size_small capacity small = ground arith

size_holds : (capacity : ℕ) → capacity ≤ size_of capacity
size_holds capacity = ground arith

-- Attaching by a name that begins with `/`, at a size of at most 2 ^ 30 bytes, returns, whatever the
-- object holds and whatever the system answers.
pub attach_returns :
    (os : Os) (cs : List ℕ) (capacity : ℕ) (role : Role) (o : Object)
    → capacity ≤ 2 ^ 30
    → attach os (b'/' ∷ cs) capacity role o ≢ none
attach_returns os cs capacity role o small =
    let (c, e, rounded) =
      round_pow2_lem (size_of capacity) (let b = size_small capacity small in omega (arith, b)) in
    rw (attach_sized os cs capacity c role o e) (open_sized-ne-none os o role (b'/' ∷ cs) c)

-- Where a producer that attaches by a name that begins with `/`, at a size of at most 2 ^ 30 bytes, is
-- given a handle, the result is 0 and the ring holds nothing, whatever the object held before, in a
-- capacity of at least that size.
pub attach_lem :
    (os : Os) (cs : List ℕ) (capacity : ℕ) (o : Object) (rc : Rc) (r : Ring)
    → capacity ≤ 2 ^ 30
    → attach os (b'/' ∷ cs) capacity producer o ≡ some (rc, some r)
    → (rc ≡ done 0) × (capacity ≤ r.capacity) × Holds r []
attach_lem os cs capacity o rc r small got =
    let few = size_small capacity small in
    let enough = size_holds capacity in
    let (c, e, rounded) = round_pow2_lem (size_of capacity) (omega (arith, few)) in
    let (ok, h, t, same) =
      opened os false o (b'/' ∷ cs) c (sym (attach_sized os cs capacity c producer o e) ∙ got) in
    (
      ok,
      let m = rounded.holds in omega (arith, enough),
      empty-Holds r h t (rw same (IsRounded-IsCapacity few rounded)),
    )
