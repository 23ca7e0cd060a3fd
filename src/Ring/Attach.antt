-- ===== src/Ring/Attach.antt =====
-- src/shm_ringbuffer.c: two attachments to one object agree on its size and its name.
use adaptipc.Base.{ℕ, ◌≤◌, ◌^◌, ◌≡◌, refl, sym, ap, ◌∙◌, false, some, List, [], ◌∷◌, arith, take}
use adaptipc.Base.Errno.{Rc, done, fail}
use adaptipc.Ring.{Ring}
use adaptipc.Ring.Capacity.{round_pow2, round_pow2_lem}
use adaptipc.Ring.Open.{
  Role, producer, Os, Object, create, attach, open_sized, attach_sized, stat_object, size_of,
  size_small,
}

opened_at :
    (os : Os) (role : Role) (o : Object) (name : List ℕ) (cap : ℕ) (rc : Rc) (r : Ring)
    → open_sized os role false o name cap ≡ some (rc, some r)
    → (r.capacity ≡ cap) × (r.name ≡ take 63 name)
unfolding stat_object
opened_at os role o name cap rc r e = ground arith

-- The capacity of a ring that was attached is the rounded size, and its name the start of the name.
pub attach_capacity :
    (os : Os) (cs : List ℕ) (capacity : ℕ) (role : Role) (o : Object) (rc : Rc) (r : Ring)
    → capacity ≤ 2 ^ 30
    → attach os (b'/' ∷ cs) capacity role o ≡ some (rc, some r)
    → (round_pow2 (size_of capacity) ≡ some r.capacity) × (r.name ≡ take 63 (b'/' ∷ cs))
attach_capacity os cs capacity role o rc r small got =
    let (c, e, rounded) =
      round_pow2_lem (size_of capacity) (let b = size_small capacity small in omega (arith, b)) in
    let (same, named) =
      opened_at os role o (b'/' ∷ cs) c rc r (sym (attach_sized os cs capacity c role o e) ∙ got) in
    (e ∙ ap some (sym same), named)

opened_from :
    (os : Os) (role : Role) (o : Object) (name : List ℕ) (cap : ℕ) (rc : Rc) (r : Ring)
    → open_sized os role false o name cap ≡ some (rc, some r)
    → (fd : ℕ) × (os.shm_open ≡ done fd)
opened_from os role o name cap rc r e = by_answer os.shm_open refl
  where
    by_answer : (answer : Rc) → os.shm_open ≡ answer → (fd : ℕ) × (os.shm_open ≡ done fd)
    by_answer (done fd) k = (fd, k)
    by_answer (fail x) k = absurd (ground arith)

-- A ring that was attached stands behind a descriptor that `shm_open` gave.
pub attach_from :
    (os : Os) (cs : List ℕ) (capacity : ℕ) (role : Role) (o : Object) (rc : Rc) (r : Ring)
    → capacity ≤ 2 ^ 30
    → attach os (b'/' ∷ cs) capacity role o ≡ some (rc, some r)
    → (fd : ℕ) × (os.shm_open ≡ done fd)
attach_from os cs capacity role o rc r small got =
    let (c, e, rounded) =
      round_pow2_lem (size_of capacity) (let b = size_small capacity small in omega (arith, b)) in
    opened_from os role o (b'/' ∷ cs) c rc r (sym (attach_sized os cs capacity c role o e) ∙ got)

-- A producer does not wait for the header, whichever way it opens the ring.
pub create_producer :
    (os : Os) (name : List ℕ) (capacity : ℕ) (o : Object)
    → create os name capacity producer o ≡ attach os name capacity producer o
unfolding create attach
create_producer os [] capacity o = refl
create_producer os (c ∷ cs) capacity o = refl
