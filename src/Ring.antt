-- ===== src/Ring.antt =====
-- src/shm_ringbuffer.c: the data path of the ring, that is `shm_ring_push`, `shm_ring_push_scatter`,
-- `shm_ring_pop`, and the queries. A handle and the shared object that it maps are one record; an
-- operation returns the record that it leaves. `x & (capacity - 1)` is written `x % capacity`, the
-- same number for the powers of two that `round_pow2` makes. Offsets past `capacity` are the rest of
-- the last page of the mapping.
pub mod Cursor
pub mod Records
pub mod Write
pub mod Inv
pub mod Push
pub mod Pop
pub mod Scatter
pub mod Fifo
pub mod Progress
pub mod Capacity
pub mod Open
pub mod Attach
pub mod Flow
pub mod Blocking
pub mod Waiting
pub mod Parking
pub mod Futex
mod Tests
use adaptipc.Base.{
  ℕ, zero, suc, ◌+◌, ◌-◌, ◌*◌, ◌/◌, ◌%◌, Bool, true, false, Option, none, some, List, [], ◌∷◌, ◌++◌,
  ltb, ◌==◌, if◌then◌else◌, length, take, drop, add64, sub64, u32,
}
use adaptipc.Base.Bytes.{Memory, write_bytes, read_bytes, u32_bytes, u32_at}
use adaptipc.Base.Errno.{Rc, done, fail, eagain, einval, emsgsize}

-- `struct shm_ring_header` and `struct shm_ring`. `mem` is what `data` points to.
pub record Ring : Type 0 where
  pub head : ℕ
  pub tail : ℕ
  pub parks : ℕ
  pub hdr_capacity : ℕ
  pub magic : ℕ
  pub initialized : ℕ
  pub flow_flag : ℕ
  pub mem : Memory
  pub capacity : ℕ
  pub name : List ℕ
  pub fd : ℕ

-- SHM_RING_MSG_HDR_SIZE, WRAP_SENTINEL_LEN, SHM_HW_PCT and SHM_LW_PCT.
abbrev pub msg_hdr_size : ℕ
msg_hdr_size = 4

abbrev pub wrap_sentinel_len : ℕ
wrap_sentinel_len = 0

abbrev pub hw_pct : ℕ
hw_pct = 80

abbrev pub lw_pct : ℕ
lw_pct = 20

-- The quantities that both pushes compute before they write.
abbrev pub used : Ring → ℕ
used r = sub64 r.head r.tail

abbrev pub head_pos : Ring → ℕ
head_pos r = r.head % r.capacity

abbrev pub contiguous : Ring → ℕ
contiguous r = sub64 r.capacity (head_pos r)

abbrev pub required : Ring → ℕ → ℕ
required r need = if ltb (contiguous r) need then add64 (contiguous r) need else need

abbrev pub no_space : Ring → ℕ → Bool
no_space r need = ltb (sub64 r.capacity (used r)) (required r need)

-- The two `memcpy` sequences of `shm_ring_push`, with the store that publishes `head`.
pub push_wrapped : Ring → List ℕ → ℕ → Ring
push_wrapped r bytes need =
    let sentinel = write_bytes r.mem (head_pos r) (u32_bytes wrap_sentinel_len) in
    let header = write_bytes sentinel 0 (u32_bytes (u32 (length bytes))) in
    record r {
      mem = write_bytes header msg_hdr_size bytes;
      head = add64 (add64 (r.head - head_pos r) r.capacity) need;
    }

pub push_straight : Ring → List ℕ → ℕ → Ring
push_straight r bytes need =
    let header = write_bytes r.mem (head_pos r) (u32_bytes (u32 (length bytes))) in
    record r {
      mem = write_bytes header (head_pos r + msg_hdr_size) bytes;
      head = add64 r.head need;
    }

-- `shm_ring_push`.
pub push : Ring → List ℕ → Rc × Ring
push r bytes =
    let need = add64 (length bytes) msg_hdr_size in
    if length bytes == 0
    then (fail einval, r)
    else if ltb (sub64 r.capacity msg_hdr_size) (length bytes)
    then (fail emsgsize, r)
    else if no_space r need
    then (fail eagain, r)
    else if ltb (contiguous r) need
    then (done 0, push_wrapped r bytes need)
    else (done 0, push_straight r bytes need)

-- `shm_segment_t`: the bytes at `base`, or a null `base` with its `len`.
pub data Segment : Type 0 where
  bytes_at : List ℕ → Segment
  null_base : ℕ → Segment

abbrev pub is_bad : Segment → Bool
is_bad (bytes_at bs) = false
is_bad (null_base n) = ltb 0 n

abbrev pub seg_bytes : Segment → List ℕ
seg_bytes (bytes_at bs) = bs
seg_bytes (null_base n) = []

-- The loop over the segments that adds up `body` and refuses a null base.
unfoldable pub body_of : List Segment → ℕ → Rc
body_of [] body = done body
body_of (s ∷ segs) body =
    let rest = body_of segs (add64 body (length (seg_bytes s))) in
    if is_bad s then fail einval else rest

-- Where a copy stands: the memory and the physical write position `p`.
pub record Copy : Type 0 where
  pub mem : Memory
  pub p : ℕ

-- `while (len > 0)`: the copy of one segment, in chunks that end at the capacity.
unfoldable pub copy_seg : ℕ → ℕ → Copy → List ℕ → Copy
copy_seg zero capacity c bs = c
copy_seg (suc fuel) capacity c [] = c
copy_seg (suc fuel) capacity c (b ∷ bs) =
    let len = length (b ∷ bs) in
    let chunk = if ltb len (capacity - c.p) then len else capacity - c.p in
    copy_seg fuel capacity
      (record { mem = write_bytes c.mem c.p (take chunk (b ∷ bs)); p = (c.p + chunk) % capacity })
      (drop chunk (b ∷ bs))

-- A chunk is at least one byte, so a segment takes no more rounds than it has bytes.
unfoldable pub copy_segs : ℕ → Copy → List Segment → Copy
copy_segs capacity c [] = c
copy_segs capacity c (s ∷ segs) =
    copy_segs capacity (copy_seg (length (seg_bytes s)) capacity c (seg_bytes s)) segs

-- Where the record of a scatter push begins: at offset 0 behind a sentinel, or at the head.
abbrev pub start_of : Ring → Bool → Copy
start_of r true = record {
  mem = write_bytes r.mem (head_pos r) (u32_bytes wrap_sentinel_len);
  p = 0;
}
start_of r false = record { mem = r.mem; p = head_pos r }

-- What `shm_ring_push_scatter` does once there is space.
unfoldable pub scatter : Ring → List Segment → ℕ → ℕ → Bool → Ring
scatter r segs body need wrap =
    let start = start_of r wrap in
    let header = write_bytes start.mem start.p (u32_bytes (u32 body)) in
    let copied =
      copy_segs r.capacity (record { mem = header; p = (start.p + 4) % r.capacity }) segs in
    record r { mem = copied.mem; head = add64 r.head (if wrap then required r need else need) }

-- `shm_ring_push_scatter` behind its check of the segments.
unfoldable pub push_body : Ring → List Segment → Rc → Rc × Ring
push_body r segs (fail e) = (fail e, r)
push_body r segs (done body) =
    let need = add64 body msg_hdr_size in
    if body == 0
    then (fail emsgsize, r)
    else if ltb (sub64 r.capacity msg_hdr_size) need
    then (fail emsgsize, r)
    else if no_space r need
    then (fail eagain, r)
    else (done 0, scatter r segs body need (ltb (contiguous r) need))

-- `shm_ring_push_scatter`.
unfoldable pub push_scatter : Ring → List Segment → Rc × Ring
push_scatter r [] = (fail einval, r)
push_scatter r (s ∷ segs) = push_body r (s ∷ segs) (body_of (s ∷ segs) 0)

-- `flow_wake` on Linux: an exchange of the flag with 0; the system call that follows a flag that was
-- set changes nothing in memory.
pub flow_wake : Ring → Ring
flow_wake r = record r { flow_flag = 0 }

-- The low watermark in bytes.
abbrev pub lw_bytes : Ring → ℕ
lw_bytes r = r.capacity * lw_pct / 100

-- The end of `shm_ring_pop`: `tail` moves past the record, and a parked producer is released once
-- usage is below the low watermark.
pub take_record : Ring → ℕ → ℕ → Rc × List ℕ × Ring
take_record r pos len32 =
    let new_tail = add64 (add64 r.tail len32) msg_hdr_size in
    let moved = record r { tail = new_tail } in
    (
      done len32,
      read_bytes r.mem (pos + msg_hdr_size) len32,
      if ltb (sub64 r.head new_tail) (lw_bytes r) then flow_wake moved else moved,
    )

-- `shm_ring_pop`, by rounds of its loop: the result, the bytes that land in the buffer, and the ring.
-- `none` is a loop that has not ended within the rounds.
unfoldable pub pop_loop : ℕ → Ring → ℕ → Option (Rc × List ℕ × Ring)
pop_loop zero r max_size = none
pop_loop (suc fuel) r max_size =
    let pos = r.tail % r.capacity in
    let len32 = u32_at r.mem pos in
    let next = pop_loop fuel (record r { tail = add64 (r.tail - pos) r.capacity }) max_size in
    if r.head == r.tail
    then some (fail eagain, [], r)
    else if len32 == wrap_sentinel_len
    then next
    else if ltb max_size len32
    then some (fail emsgsize, [], r)
    else some (take_record r pos len32)

-- In two rounds, since a push never leaves a sentinel behind a sentinel.
unfoldable pub pop : Ring → ℕ → Option (Rc × List ℕ × Ring)
pop r max_size = pop_loop 2 r max_size

-- `shm_ring_used_bytes`, `shm_ring_free_bytes`, `shm_ring_park_count` on a handle that is not null.
pub used_bytes : Ring → ℕ
used_bytes r = used r

pub free_bytes : Ring → ℕ
unfolding used_bytes
free_bytes r = sub64 r.capacity (used_bytes r)

pub park_count : Ring → ℕ
park_count r = r.parks
