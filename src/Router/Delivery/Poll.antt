-- ===== src/Router/Delivery/Poll.antt =====
-- src/adapt_ipc.c: a receive from a ring that holds messages.
use adaptipc.Base.{
  ℕ, suc, ◌+◌, ◌≤◌, ◌≡◌, refl, sym, ap, ◌∙◌, false, ◌==◌, Option, none, some, List, [], ◌∷◌, arith,
  length, add64, le→ltb,
}
use adaptipc.Base.Errno.{Rc, done, fail, eagain}
use adaptipc.World.{World, M}
use adaptipc.Ring.{Ring, pop}
use adaptipc.Ring.Inv.{Holds}
use adaptipc.Ring.Pop.{pop_refines, fifo_pop}
use adaptipc.Ring.Open.{consumer}
use mathlib.Core.Path.{subst}
use adaptipc.Router.Types.{Ctx, count}
use adaptipc.Router.Recv.{adapt_recv, poll_ring, recv_rounds, from_ring, payload}
use adaptipc.Router.Delivery.Sent.{frames, count_ring, count_rxbuf}

pub payload_fits :
    (max_size b : ℕ) (m : List ℕ)
    → length m ≤ max_size
    → payload max_size (b ∷ m) ≡ (done (length m), m)
payload_fits max_size b m fits = ground arith

pub eqb-ne : (n : ℕ) → 2 ≤ n → (n == 0) ≡ false
eqb-ne n h = ground arith

pub suc-ne : (n : ℕ) → (suc n == 0) ≡ false
suc-ne n = ground arith

pop_front :
    (r : Ring) (m : List ℕ) (ms : List (List ℕ)) (cap : ℕ)
    → Holds r (frames (m ∷ ms))
    → length m + 1 ≤ cap
    → (r' : Ring) × (pop r cap ≡ some (done (suc (length m)), 1 ∷ m, r')) × Holds r' (frames ms)
pop_front r m ms cap h room =
    subst (λ x. let (rc, out, q) = x in (r' : Ring) × (pop r cap ≡ some (rc, out, r')) × Holds r' q)
      whole (pop_refines (frames (m ∷ ms)) cap h)
  where
    whole : fifo_pop (frames (m ∷ ms)) cap ≡ (done (suc (length m)), 1 ∷ m, frames ms)
    whole = rw (le→ltb cap (suc (length m)) (omega arith)) refl

-- `poll_ring` in two parts.
abbrev pub pop_of : ℕ → Option Ring → Option (Option (Rc × List ℕ × Ring))
pop_of room none = none
pop_of room (some r) = some (pop r room)

module _ {D : Type 0} where
  abbrev pub after_pop : Ctx D → Option (Option (Rc × List ℕ × Ring)) → Option (Rc × List ℕ × Ctx D)
  after_pop c none = some (fail eagain, [], c)
  after_pop c (some none) = none
  after_pop c (some (some (rc, frame, r))) = some (rc, frame, record c { ring = some r })

  pub poll-after_pop : (c : Ctx D) → poll_ring c [] ≡ after_pop c (pop_of c.rxbuf_cap c.ring)
  unfolding poll_ring
  poll-after_pop c = by_ring c.ring
    where
      by_pop :
          (o : Option (Rc × List ℕ × Ring))
          → (elim o as (λ x. Option (Rc × List ℕ × Ctx D)) [
            | none ↦ none
            | some (rc, frame, r') ↦ some (rc, frame, record c { ring = some r' })
          ])
            ≡ after_pop c (some o)
      by_pop none = refl
      by_pop (some (rc, frame, r)) = refl

      by_ring :
          (ring : Option Ring)
          → (elim ring as (λ x. Option (Rc × List ℕ × Ctx D)) [
            | none ↦ some (fail eagain, [], c)
            | some r ↦ elim (pop r c.rxbuf_cap) [
              | none ↦ none
              | some (rc, frame, r') ↦ some (rc, frame, record c { ring = some r' })
            ]
          ])
            ≡ after_pop c (pop_of c.rxbuf_cap ring)
      by_ring none = refl
      by_ring (some r) = by_pop (pop r c.rxbuf_cap)

  -- A poll that finds the record of a message.
  poll_front :
      (c : Ctx D) (r : Ring) (m : List ℕ) (ms : List (List ℕ))
      → c.ring ≡ some r
      → Holds r (frames (m ∷ ms))
      → length m + 1 ≤ c.rxbuf_cap
      → (r' : Ring) × (poll_ring c []
          ≡ some (done (suc (length m)), 1 ∷ m, record c { ring = some r' }))
        × Holds r' (frames ms)
  poll_front c r m ms ring h room =
      let (r', popped, h') = pop_front r m ms c.rxbuf_cap h room in
      (r', poll-after_pop c ∙ ap (after_pop c) (ap (pop_of c.rxbuf_cap) ring ∙ ap some popped), h')

  from_front :
      (again : Ctx D → ℕ → M ((Rc × List ℕ) × Ctx D)) (c : Ctx D) (m : List ℕ) (max_size : ℕ)
      (v : World)
      → length m ≤ max_size
      → (c' : Ctx D) × (v' : World) × (from_ring again max_size 0
            (some (done (suc (length m)), 1 ∷ m, c))
            v
          ≡ some (((done (length m), m), c'), v'))
        × (c'.ring ≡ c.ring)
  unfolding from_ring
  from_front again c m max_size v fits =
      rw (payload_fits max_size 1 m fits, suc-ne (length m)) (_, _, refl, count_ring c _)

  pub received :
      (c : Ctx D) (max_size : ℕ) (v : World)
      → c.role ≡ consumer
      → 2 ≤ max_size
      → adapt_recv c max_size v ≡ recv_rounds v.arrivals max_size c 0 v
  unfolding adapt_recv
  received c max_size v role two = simp (eqb-ne max_size two, role, le→ltb max_size 2 two)

  -- The consumer's end: the oldest message is delivered at the first poll, and leaves the queue.
  pub recv_front :
      (c : Ctx D) (r : Ring) (m : List ℕ) (ms : List (List ℕ)) (max_size : ℕ) (v : World)
      (later : List (List (List ℕ)))
      → c.role ≡ consumer
      → c.ring ≡ some r
      → Holds r (frames (m ∷ ms))
      → length m ≤ max_size
      → 2 ≤ max_size
      → length m + 1 ≤ c.rxbuf_cap
      → v.arrivals ≡ [] ∷ later
      → (c' : Ctx D) × (v' : World) × (r' : Ring) × (adapt_recv c max_size v
          ≡ some (((done (length m), m), c'), v'))
        × (c'.ring ≡ some r')
        × Holds r' (frames ms)
  unfolding recv_rounds
  recv_front c r m ms max_size v later role ring h fits two room arr =
      let counted = count c (record c.st { recv_loop_iters = add64 c.st.recv_loop_iters 1 }) in
      let (r', polled, h') =
        poll_front counted r m ms (count_ring c _ ∙ ring) h
          (subst (λ n. length m + 1 ≤ n) (sym (count_rxbuf c _)) room) in
      let (c', v', e, same) =
        from_front (λ c' t. recv_rounds later max_size c' t) (record counted { ring = some r' }) m
          max_size (record v { arrivals = later }) fits in
      (
        c',
        v',
        r',
        received c max_size v role two
            ∙ ap (λ arrivals. recv_rounds arrivals max_size c 0 v) arr
            ∙ ap
                (λ x.
                  from_ring (λ c' t. recv_rounds later max_size c' t) max_size 0 x
                    (record v { arrivals = later }))
                polled
            ∙ e,
        same,
        h',
      )
