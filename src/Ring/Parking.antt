-- ===== src/Ring/Parking.antt =====
-- src/shm_ringbuffer.c: `shm_ring_wait_writable` against `shm_ring_pop`, one shared access at a time.
-- Bytes are counted, not stored: what matters is the cursors, the flag and the futex.
pub mod Inv
pub mod Wakeup
pub mod Buffered
mod Tests
use adaptipc.Base.{ℕ, ◌+◌, ◌*◌, ◌/◌, ◌≤◌, ◌<◌, ◌≡◌, ◌≢◌, List, [], ◌∷◌, ◌++◌, add64, sub64}
use adaptipc.Ring.{hw_pct, lw_pct}

-- How the producer's stores to the flag reach memory: at once, or through a store buffer, which a plain
-- load passes and which an atomic update and a system call empty first. The store is a release store,
-- which promises no more than the second.
pub data Order : Type 0 where
  interleaved buffered : Order

-- Where the producer stands: outside `shm_ring_wait_writable`, or before an access of its loop.
pub data Producer : Type 0 where
  outside loading arming rechecking disarming parking calling asleep : Producer

-- Where the consumer stands: outside `shm_ring_pop`, or inside it with the head that it has loaded.
pub data Consumer : Type 0 where
  resting reloading exchanging waking : Consumer
  loaded : ℕ → Consumer
  popped : ℕ → Consumer

pub record System : Type 0 where
  pub head : ℕ
  pub tail : ℕ
  pub parks : ℕ
  pub flag : ℕ
  pub buffer : List ℕ  -- the producer's stores to the flag on their way, oldest first
  pub producer : Producer
  pub consumer : Consumer

abbrev pub used : System → ℕ
used s = sub64 s.head s.tail

abbrev pub high : ℕ → ℕ
high cap = cap * hw_pct / 100

abbrev pub low : ℕ → ℕ
low cap = cap * lw_pct / 100

abbrev pub store_flag : Order → System → ℕ → System
store_flag interleaved s v = record s { flag = v }
store_flag buffered s v = record s { buffer = s.buffer ++ (v ∷ []) }

-- A wake reaches the producer only in its sleep.
abbrev pub woken : Producer → Producer
woken asleep = loading
woken p = p

-- A step of the producer. `signal` is a wait that ends with another error than -EAGAIN, which
-- `shm_ring_wait_writable` returns; `stir` a wait that ends early with 0.
pub data Produce (order : Order) (cap : ℕ) (s t : System) : Type 0 where
  publish :
      (n : ℕ)
      → s.producer ≡ outside
      → used s + n ≤ cap
      → t ≡ record s { head = add64 s.head n }
      → Produce order cap s t
  enter : s.producer ≡ outside → t ≡ record s { producer = loading } → Produce order cap s t
  pass :
      s.producer ≡ loading
      → used s < high cap
      → t ≡ record s { producer = outside }
      → Produce order cap s t
  full :
      s.producer ≡ loading
      → high cap ≤ used s
      → t ≡ record s { producer = arming }
      → Produce order cap s t
  arm :
      s.producer ≡ arming
      → t ≡ record (store_flag order s 1) { producer = rechecking }
      → Produce order cap s t
  retreat :
      s.producer ≡ rechecking
      → used s < high cap
      → t ≡ record s { producer = disarming }
      → Produce order cap s t
  stay :
      s.producer ≡ rechecking
      → high cap ≤ used s
      → t ≡ record s { producer = parking }
      → Produce order cap s t
  disarm :
      s.producer ≡ disarming
      → t ≡ record (store_flag order s 0) { producer = outside }
      → Produce order cap s t
  count :
      s.producer ≡ parking
      → s.buffer ≡ []
      → t ≡ record s { parks = add64 s.parks 1; producer = calling }
      → Produce order cap s t
  refused :
      s.producer ≡ calling
      → s.flag ≢ 1
      → t ≡ record s { producer = loading }
      → Produce order cap s t
  sleep :
      s.producer ≡ calling → s.flag ≡ 1 → t ≡ record s { producer = asleep } → Produce order cap s t
  stir : s.producer ≡ asleep → t ≡ record s { producer = loading } → Produce order cap s t
  signal : s.producer ≡ asleep → t ≡ record s { producer = outside } → Produce order cap s t
  drain :
      (v : ℕ) (rest : List ℕ)
      → s.buffer ≡ v ∷ rest
      → t ≡ record s { flag = v; buffer = rest }
      → Produce order cap s t

-- A step of the consumer. Behind a wrap sentinel stands a record, so `skip` leaves bytes; `too_long` is
-- a record that the caller's buffer cannot take.
pub data Consume (cap : ℕ) (s t : System) : Type 0 where
  load :
      s.consumer ≡ resting
      → s.head ≢ s.tail
      → t ≡ record s { consumer = loaded s.head }
      → Consume cap s t
  skip :
      (h n : ℕ)
      → s.consumer ≡ loaded h
      → 0 < n
      → n < sub64 h s.tail
      → t ≡ record s { tail = add64 s.tail n; consumer = reloading }
      → Consume cap s t
  reload : s.consumer ≡ reloading → t ≡ record s { consumer = loaded s.head } → Consume cap s t
  too_long : (h : ℕ) → s.consumer ≡ loaded h → t ≡ record s { consumer = resting } → Consume cap s t
  take :
      (h n : ℕ)
      → s.consumer ≡ loaded h
      → 0 < n
      → n ≤ sub64 h s.tail
      → t ≡ record s { tail = add64 s.tail n; consumer = popped h }
      → Consume cap s t
  plenty :
      (h : ℕ)
      → s.consumer ≡ popped h
      → low cap ≤ sub64 h s.tail
      → t ≡ record s { consumer = resting }
      → Consume cap s t
  drained :
      (h : ℕ)
      → s.consumer ≡ popped h
      → sub64 h s.tail < low cap
      → t ≡ record s { consumer = exchanging }
      → Consume cap s t
  nobody :
      s.consumer ≡ exchanging → s.flag ≡ 0 → t ≡ record s { consumer = resting } → Consume cap s t
  claim :
      s.consumer ≡ exchanging
      → s.flag ≢ 0
      → t ≡ record s { flag = 0; consumer = waking }
      → Consume cap s t
  wake :
      s.consumer ≡ waking
      → t ≡ record s { producer = woken s.producer; consumer = resting }
      → Consume cap s t

abbrev pub start : System
start = record {
  head = 0;
  tail = 0;
  parks = 0;
  flag = 0;
  buffer = [];
  producer = outside;
  consumer = resting;
}

pub data Reach (order : Order) (cap : ℕ) : System → Type 0 where
  at_start : Reach order cap start
  by_producer : {s t : System} → Reach order cap s → Produce order cap s t → Reach order cap t
  by_consumer : {s t : System} → Reach order cap s → Consume cap s t → Reach order cap t
