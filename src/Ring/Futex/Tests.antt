-- ===== src/Ring/Futex/Tests.antt =====
-- The emulated futex at work: a waiter that sleeps, and an initialization without memory.
use adaptipc.Base.{◌≡◌, refl, ◌≢◌, ◌⊎◌, true}
use adaptipc.Base.Errno.{done, fail}
use adaptipc.Ring.Futex.{
  sleeping, settled, holding, finished, Emu, arm, call, lock, unchanged, sleep, start, Reach,
  at_start, by_waiter,
}
use adaptipc.Ring.Futex.Laws.{IsComing, emu_no_lost_wakeup}
use adaptipc.Ring.Futex.Init.{Answers, bare, first_error, in_order, emu_init, emu_init_lem}

abbrev dozing : Emu
dozing = record start { flag = 1; waiter = sleeping }

dozing-Reach : Reach dozing
dozing-Reach =
    let s1 = by_waiter at_start (arm refl refl) in
    let s2 = by_waiter s1 (call refl refl) in
    let s3 = by_waiter s2 (lock refl refl refl) in
    let s4 = by_waiter s3 (unchanged refl refl refl) in by_waiter s4 (sleep refl refl)

emu_no_lost_wakeup_example :
    ((sleeping ≢ sleeping) ⊎ (dozing.flag ≡ 1) ⊎ IsComing dozing.waker)
    × ((sleeping ≢ settled) ⊎ ((dozing.waker ≢ holding) × (dozing.waker ≢ finished)))
emu_no_lost_wakeup_example = emu_no_lost_wakeup dozing dozing-Reach

abbrev poor : Answers
poor = record {
  mutexattr_init = 0;
  mutexattr_setpshared = 0;
  mutex_init = 0;
  condattr_init = 0;
  condattr_setpshared = 0;
  cond_init = 12;
}

emu_init_lem_example :
    let (rc, f) = emu_init poor (record bare { flag = 9 }) in
    let e = first_error (in_order poor) in
    ((e ≡ 0) × (rc ≡ done 0) × (f ≡ record bare { mutex = true; cond = true; ready = true }))
    ⊎ ((e ≢ 0) × (rc ≡ fail e) × (f ≡ record bare { flag = 9 }))
emu_init_lem_example = emu_init_lem poor 9
