-- ===== src/Ring/Futex/Init.antt =====
-- src/shm_ringbuffer.c: `futex_compat_emu_init`, over the answers of the threads library, 0 or an error
-- number each, and what stands initialized.
use adaptipc.Base.{ℕ, ◌≡◌, ◌≢◌, ◌⊎◌, Bool, true, false, List, [], ◌∷◌, ◌==◌, if◌then◌else◌, arith}
use adaptipc.Base.Errno.{Rc, done, fail}

pub record Answers : Type 0 where
  pub mutexattr_init : ℕ
  pub mutexattr_setpshared : ℕ
  pub mutex_init : ℕ
  pub condattr_init : ℕ
  pub condattr_setpshared : ℕ
  pub cond_init : ℕ

pub record Parts : Type 0 where
  pub mutexattr : Bool
  pub condattr : Bool
  pub mutex : Bool
  pub cond : Bool
  pub flag : ℕ
  pub ready : Bool

-- The second half, behind an initialized mutex.
abbrev init_cond : Answers → Parts → Rc × Parts
init_cond a f =
    if a.condattr_init == 0
    then (let attr = record f { condattr = true } in
        if a.condattr_setpshared == 0
        then (let tried = record attr { cond = a.cond_init == 0; condattr = false } in
            if a.cond_init == 0
            then (done 0, record tried { flag = 0; ready = true })
            else (fail a.cond_init, record tried { mutex = false }))
        else (fail a.condattr_setpshared, record attr { condattr = false; mutex = false }))
    else (fail a.condattr_init, record f { mutex = false })

-- `futex_compat_emu_init`.
unfoldable pub emu_init : Answers → Parts → Rc × Parts
emu_init a f =
    if a.mutexattr_init == 0
    then (let attr = record f { mutexattr = true } in
        if a.mutexattr_setpshared == 0
        then (let tried = record attr { mutex = a.mutex_init == 0; mutexattr = false } in
            if a.mutex_init == 0 then init_cond a tried else (fail a.mutex_init, tried))
        else (fail a.mutexattr_setpshared, record attr { mutexattr = false }))
    else (fail a.mutexattr_init, f)

-- Nothing is initialized yet.
abbrev pub bare : Parts
bare = record {
  mutexattr = false;
  condattr = false;
  mutex = false;
  cond = false;
  flag = 0;
  ready = false;
}

-- The first error number of a row of answers, 0 if there is none.
abbrev pub first_error : List ℕ → ℕ
first_error [] = 0
first_error (e ∷ es) = if e == 0 then first_error es else e

-- The answers in the order of the calls.
abbrev pub in_order : Answers → List ℕ
in_order a =
    a.mutexattr_init ∷ a.mutexattr_setpshared ∷ a.mutex_init ∷ a.condattr_init
    ∷ a.condattr_setpshared ∷ a.cond_init ∷ []

-- On an object in which nothing is initialized, with any flag in its memory, the initialization succeeds
-- exactly if all six calls of the threads library do, and leaves the mutex, the condition variable, a flag
-- of 0 and the mark that lets waits and wakes in, and neither attribute. Otherwise it fails with the
-- error number of the first call that failed, and the object is as it was: whatever had been initialized
-- is destroyed again.
pub emu_init_lem :
    (a : Answers) (k : ℕ)
    → let (rc, f) = emu_init a (record bare { flag = k }) in
      let e = first_error (in_order a) in
      ((e ≡ 0) × (rc ≡ done 0) × (f ≡ record bare { mutex = true; cond = true; ready = true }))
      ⊎ ((e ≢ 0) × (rc ≡ fail e) × (f ≡ record bare { flag = k }))
unfolding emu_init
emu_init_lem a k = ground arith
