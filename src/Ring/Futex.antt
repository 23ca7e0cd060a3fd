-- ===== src/Ring/Futex.antt =====
-- src/shm_ringbuffer.c: the futex that other Unixes emulate by a mutex and a condition variable,
-- `futex_compat_emu_wait` against `futex_compat_emu_wake`, one shared access at a time, and
-- `futex_compat_emu_init`. Of the threads library: a lock of the mutex is taken by one caller at a time
-- and succeeds, `pthread_cond_wait` releases the mutex and sleeps in one step, may wake without cause,
-- and takes the mutex again before it returns, and a broadcast wakes who sleeps.
pub mod Init
pub mod Laws
mod Tests
use adaptipc.Base.{ℕ, suc, ◌≡◌, ◌≢◌}
use adaptipc.Base.Errno.{Rc, done, fail, eagain}

pub data Owner : Type 0 where
  free waiter_has waker_has : Owner

-- Where the waiter stands: outside, before the lock, before the look at the flag, before
-- `pthread_cond_wait`, in its sleep, before it has the lock again, and before the unlock with the result.
pub data Waiter : Type 0 where
  away entering checking settled sleeping stirred : Waiter
  leaving : Rc → Waiter

-- Where the waker stands: outside, behind the exchange that found the flag set, with the lock, and behind
-- the broadcast.
pub data Waker : Type 0 where
  idle claimed holding finished : Waker

pub record Emu : Type 0 where
  pub flag : ℕ
  pub owner : Owner
  pub waiter : Waiter
  pub waker : Waker

-- A step of the waiter; `arm` and `disarm` are the stores of the ring around its waits.
pub data Wait (s t : Emu) : Type 0 where
  arm : s.waiter ≡ away → t ≡ record s { flag = 1 } → Wait s t
  disarm : s.waiter ≡ away → t ≡ record s { flag = 0 } → Wait s t
  call : s.waiter ≡ away → t ≡ record s { waiter = entering } → Wait s t
  lock :
      s.waiter ≡ entering
      → s.owner ≡ free
      → t ≡ record s { waiter = checking; owner = waiter_has }
      → Wait s t
  changed :
      s.waiter ≡ checking → s.flag ≢ 1 → t ≡ record s { waiter = leaving (fail eagain) } → Wait s t
  unchanged : s.waiter ≡ checking → s.flag ≡ 1 → t ≡ record s { waiter = settled } → Wait s t
  sleep : s.waiter ≡ settled → t ≡ record s { waiter = sleeping; owner = free } → Wait s t
  stir : s.waiter ≡ sleeping → t ≡ record s { waiter = stirred } → Wait s t
  relock :
      s.waiter ≡ stirred
      → s.owner ≡ free
      → t ≡ record s { waiter = leaving (done 0); owner = waiter_has }
      → Wait s t
  unlock :
      (rc : Rc) → s.waiter ≡ leaving rc → t ≡ record s { waiter = away; owner = free } → Wait s t

-- A broadcast reaches the waiter only in its sleep.
abbrev pub roused : Waiter → Waiter
roused sleeping = stirred
roused w = w

-- A step of the waker.
pub data Wake (s t : Emu) : Type 0 where
  nobody : s.waker ≡ idle → s.flag ≡ 0 → t ≡ s → Wake s t
  claim : s.waker ≡ idle → s.flag ≢ 0 → t ≡ record s { flag = 0; waker = claimed } → Wake s t
  grab :
      s.waker ≡ claimed
      → s.owner ≡ free
      → t ≡ record s { waker = holding; owner = waker_has }
      → Wake s t
  broadcast :
      s.waker ≡ holding → t ≡ record s { waiter = roused s.waiter; waker = finished } → Wake s t
  release : s.waker ≡ finished → t ≡ record s { waker = idle; owner = free } → Wake s t

abbrev pub start : Emu
start = record { flag = 0; owner = free; waiter = away; waker = idle }

pub data Reach : Emu → Type 0 where
  at_start : Reach start
  by_waiter : {s t : Emu} → Reach s → Wait s t → Reach t
  by_waker : {s t : Emu} → Reach s → Wake s t → Reach t

-- Steps of the waker alone.
pub data Wakes : Emu → ℕ → Emu → Type 0 where
  stop : {s : Emu} → Wakes s 0 s
  more : {s t u : Emu} {n : ℕ} → Wake s t → Wakes t n u → Wakes s (suc n) u
