-- ===== src/Ring/Futex/Laws.antt =====
-- What the emulated futex promises: no wakeup is lost between the look at the flag and the sleep.
use adaptipc.Base.{ℕ, ◌≤◌, ◌≡◌, refl, ap, ◌≢◌, ◌⊎◌, arith}
use adaptipc.Ring.Futex.{
  Owner, free, waiter_has, waker_has, Waiter, checking, settled, sleeping, stirred, leaving, Waker,
  idle, claimed, holding, finished, Emu, Wait, arm, disarm, call, lock, changed, unchanged, sleep,
  stir, relock, unlock, roused, Wake, nobody, claim, grab, broadcast, release, start, Reach,
  at_start, by_waiter, by_waker, Wakes, stop, more,
}

-- Who stands behind a lock has it.
abbrev WaiterOwns : Owner → Waiter → Type 0
WaiterOwns o checking = o ≡ waiter_has
WaiterOwns o settled = o ≡ waiter_has
WaiterOwns o (leaving rc) = o ≡ waiter_has
WaiterOwns o _ = o ≢ waiter_has

abbrev WakerOwns : Owner → Waker → Type 0
WakerOwns o holding = o ≡ waker_has
WakerOwns o finished = o ≡ waker_has
WakerOwns o _ = o ≢ waker_has

-- A waker is on its way to the broadcast.
abbrev pub IsComing : Waker → Type 0
IsComing claimed = Unit
IsComing holding = Unit
IsComing _ = ⊥

abbrev IsHeard : Emu → Waiter → Type 0
IsHeard s settled = (s.flag ≡ 1) ⊎ (s.waker ≡ claimed)
IsHeard s sleeping = (s.flag ≡ 1) ⊎ IsComing s.waker
IsHeard s _ = Unit

record Inv (s : Emu) : Type 0 where
  bit : s.flag ≤ 1
  waiter_lock : WaiterOwns s.owner s.waiter
  waker_lock : WakerOwns s.owner s.waker
  heard : IsHeard s s.waiter

Wait-Inv : {s t : Emu} → Wait s t → Inv s → Inv t
Wait-Inv (arm a e) i = ground arith
Wait-Inv (disarm a e) i = ground arith
Wait-Inv (call a e) i = ground arith
Wait-Inv (lock a b e) i = ground arith
Wait-Inv (changed a b e) i = ground arith
Wait-Inv (unchanged a b e) i = ground arith
Wait-Inv (sleep a e) i = ground arith
Wait-Inv (stir a e) i = ground arith
Wait-Inv (relock a b e) i = ground arith
Wait-Inv (unlock rc a e) i = ground arith

Wake-Inv : {s t : Emu} → Wake s t → Inv s → Inv t
Wake-Inv (nobody a b e) i = ground arith
Wake-Inv (claim a b e) i = ground arith
Wake-Inv (grab a b e) i = ground arith
Wake-Inv (broadcast a e) i = ground arith
Wake-Inv (release a e) i = ground arith

start-Inv : Inv start
start-Inv = ground arith

Reach-Inv : {s : Emu} → Reach s → Inv s
Reach-Inv at_start = start-Inv
Reach-Inv (by_waiter r m) = Wait-Inv m (Reach-Inv r)
Reach-Inv (by_waker r m) = Wake-Inv m (Reach-Inv r)

-- The mutex keeps the two sides apart, and whoever sleeps is heard: while the waiter sleeps, the flag is
-- set or a waker is between its exchange and its broadcast; while the waiter is between its look at the
-- flag and its sleep, no waker is behind the lock.
pub emu_no_lost_wakeup :
    (s : Emu)
    → Reach s
    → ((s.waiter ≢ sleeping) ⊎ (s.flag ≡ 1) ⊎ IsComing s.waker)
      × ((s.waiter ≢ settled) ⊎ ((s.waker ≢ holding) × (s.waker ≢ finished)))
emu_no_lost_wakeup s r = by_state s (Reach-Inv r)
  where
    by_state :
        (s : Emu)
        → Inv s
        → ((s.waiter ≢ sleeping) ⊎ (s.flag ≡ 1) ⊎ IsComing s.waker)
          × ((s.waiter ≢ settled) ⊎ ((s.waker ≢ holding) × (s.waker ≢ finished)))
    by_state s i = ground arith

abbrev IsRoused : Emu → Type 0
IsRoused s = (n : ℕ) × (t : Emu) × Wakes s n t × (n ≤ 4) × (t.waiter ≡ stirred)

rouse : (s : Emu) → Inv s → s.waiter ≡ sleeping → (k : Waker) → s.waker ≡ k → IsRoused s
rouse s i asleep idle e =
    let set : s.flag ≡ 1 = ground arith in
    let unlocked : s.owner ≡ free = ground arith in
    (
      3,
      _,
      more (claim e (omega arith) refl)
          (more (grab refl unlocked refl) (more (broadcast refl refl) stop)),
      omega arith,
      ap roused asleep,
    )
rouse s i asleep claimed e =
    let unlocked : s.owner ≡ free = ground arith in
    (
      2,
      _,
      more (grab e unlocked refl) (more (broadcast refl refl) stop),
      omega arith,
      ap roused asleep,
    )
rouse s i asleep holding e = (1, _, more (broadcast e refl) stop, omega arith, ap roused asleep)
rouse s i asleep finished e =
    let set : s.flag ≡ 1 = ground arith in
    (
      4,
      _,
      more (release e refl) (
          more (claim refl (omega arith) refl)
            (more (grab refl refl refl) (more (broadcast refl refl) stop))),
      omega arith,
      ap roused asleep,
    )

-- A waker that goes on ends the sleep: from any state in which the waiter sleeps, at most four steps of the
-- waker alone lead to one in which the waiter is awake and on its way to the lock.
pub emu_delivers :
    (s : Emu)
    → Reach s
    → s.waiter ≡ sleeping
    → (n : ℕ) × (t : Emu) × Wakes s n t × (n ≤ 4) × (t.waiter ≡ stirred)
emu_delivers s r asleep = rouse s (Reach-Inv r) asleep s.waker refl
