-- ===== src/Ring/Pop.antt =====
-- `shm_ring_pop` takes the oldest record of the queue that the ring holds.
use native.Mathlib.Nat.{mod-lt, mod-le, mod_self, add-mod_left}
use native.Mathlib.Decide.{dec_lt}
use mathlib.Core.Path.{subst}
use adaptipc.Base.{
  ℕ, suc, ◌+◌, ◌-◌, ◌%◌, ◌^◌, ◌≤◌, ◌<◌, ◌≡◌, refl, sym, ap, ◌∙◌, some, Bool, true, false, List, [],
  ◌∷◌, arith, length, ltb, add64, sub64, if◌then◌else◌, lt→ltb, le→ltb,
}
use adaptipc.Base.Bytes.{u32_at}
use adaptipc.Base.Errno.{Rc, done, fail, emsgsize, eagain}
use adaptipc.Ring.{Ring, used, pop, pop_loop, take_record, flow_wake, lw_bytes}
use adaptipc.Ring.Cursor.{sub64-tail, cursor_pos}
use adaptipc.Ring.Records.{IsRecord, straight, wrapped, Records}
use adaptipc.Ring.Inv.{Holds}

-- The ring whose consumer cursor has moved on by `k` bytes.
abbrev moved : Ring → ℕ → Ring
moved r k = record r { tail = add64 r.tail k }

Holds-moved :
    {r : Ring} {q q' : List (List ℕ)} (k : ℕ)
    → Holds r q
    → k ≤ used r
    → Records r.mem r.capacity ((r.tail % r.capacity + k) % r.capacity) (used r - k) q'
    → Holds (moved r k) q'
Holds-moved {r} {q} {q'} k h hk rest = record {
  shape = h.shape;
  head_word = h.head_word;
  tail_word = omega arith;
  filled = let f = h.filled in omega (arith, less);
  records =
      subst (λ n. Records r.mem r.capacity (add64 r.tail k % r.capacity) n q') (sym less)
        (subst (λ p. Records r.mem r.capacity p (used r - k) q')
          (sym (cursor_pos r.tail k r.capacity h.shape.blocks h.shape.divides)) rest);
}
  where
    less : sub64 r.head (add64 r.tail k) ≡ used r - k
    less = sub64-tail r.head r.tail k h.head_word h.tail_word hk

-- A ring differs from another only in what the queue does not depend on.
flow_wake-Holds : {r : Ring} {q : List (List ℕ)} → Holds r q → Holds (flow_wake r) q
unfolding flow_wake
flow_wake-Holds h = record {
  shape = h.shape;
  head_word = h.head_word;
  tail_word = h.tail_word;
  filled = h.filled;
  records = h.records;
}

wake_if-Holds :
    {r : Ring} {q : List (List ℕ)} (b : Bool) → Holds r q → Holds (if b then flow_wake r else r) q
wake_if-Holds true h = flow_wake-Holds h
wake_if-Holds false h = h

-- A record stands at the tail itself, with no sentinel before it.
record Front (r : Ring) (m : List ℕ) (q : List (List ℕ)) : Type 0 where
  holds : Holds r (m ∷ q)
  stored : IsRecord r.mem r.capacity (r.tail % r.capacity) m
  within : 4 + length m ≤ used r
  behind :
      Records r.mem r.capacity
        ((r.tail % r.capacity + (4 + length m)) % r.capacity)
        (used r - (4 + length m))
        q

take_record-Front :
    {r : Ring} {m : List ℕ} {q : List (List ℕ)}
    → Front r m q
    → (r' : Ring) × (take_record r (r.tail % r.capacity) (length m) ≡ (done (length m), m, r'))
      × Holds r' q
unfolding take_record
take_record-Front {r} {m} {q} f = (
  (take_record r pos (length m)).2,
  ap (λ b. (done (length m), b, (take_record r pos (length m)).2)) f.stored.stored_bytes,
  wake_if-Holds (ltb (sub64 r.head new_tail) (lw_bytes r)) (
      subst (λ t. Holds (record r { tail = t }) q) one_step
        (Holds-moved (4 + length m) f.holds f.within f.behind)),
)
  where
    pos : ℕ
    pos = r.tail % r.capacity

    new_tail : ℕ
    new_tail = add64 (add64 r.tail (length m)) 4

    one_step : add64 r.tail (4 + length m) ≡ new_tail
    one_step = omega arith

pop-Front :
    {r : Ring} {m : List ℕ} {q : List (List ℕ)} (fuel max_size : ℕ)
    → Front r m q
    → length m ≤ max_size
    → pop_loop (suc fuel) r max_size ≡ some (take_record r (r.tail % r.capacity) (length m))
unfolding pop_loop
pop-Front {r} {m} fuel max_size f l =
    rw f.stored.stored_length
      (ground (arith, f.within, f.stored.nonempty, f.holds.head_word, f.holds.tail_word))

pop-Front_short :
    {r : Ring} {m : List ℕ} {q : List (List ℕ)} (fuel max_size : ℕ)
    → Front r m q
    → max_size < length m
    → pop_loop (suc fuel) r max_size ≡ some (fail emsgsize, [], r)
unfolding pop_loop
pop-Front_short {r} {m} fuel max_size f l =
    rw f.stored.stored_length
      (ground (arith, f.within, f.stored.nonempty, f.holds.head_word, f.holds.tail_word))

-- Behind a sentinel the record stands at offset 0, where the tail moves.
skip_sentinel :
    {r : Ring} {m : List ℕ} {q : List (List ℕ)} (size : ℕ)
    → Holds r (m ∷ q)
    → IsRecord r.mem r.capacity 0 m
    → size + r.tail % r.capacity ≡ r.capacity + (4 + length m)
    → size ≤ used r
    → Records r.mem r.capacity ((r.tail % r.capacity + size) % r.capacity) (used r - size) q
    → Front (moved r (r.capacity - r.tail % r.capacity)) m q
skip_sentinel {r} {m} {q} size h rec e le rest = record {
  holds = Holds-moved k h (omega arith) (
      subst (λ p. Records r.mem r.capacity p (used r - k) (m ∷ q)) (sym around)
        (4 + length m, straight rec refl, omega arith, rest'));
  stored = subst (λ p. IsRecord r.mem r.capacity p m) (sym at_zero) rec;
  within = omega (arith, less);
  behind =
      subst
        (λ p.
          Records r.mem r.capacity ((p + (4 + length m)) % r.capacity)
            (used (moved r k) - (4 + length m)) q)
        (sym at_zero)
        (subst
          (λ n. Records r.mem r.capacity ((0 + (4 + length m)) % r.capacity) (n - (4 + length m)) q)
          (sym less) rest');
}
  where
    pos : ℕ
    pos = r.tail % r.capacity

    k : ℕ
    k = r.capacity - pos

    in_buffer : pos < r.capacity
    in_buffer = mod-lt r.tail (let a = h.shape.page in omega arith)

    around : (pos + k) % r.capacity ≡ 0
    around = rw (← mod_self r.capacity) (ap (λ x. x % r.capacity) (omega arith))

    at_zero : add64 r.tail k % r.capacity ≡ 0
    at_zero = cursor_pos r.tail k r.capacity h.shape.blocks h.shape.divides ∙ around

    less : sub64 r.head (add64 r.tail k) ≡ used r - k
    less = sub64-tail r.head r.tail k h.head_word h.tail_word (omega arith)

    behind_pos : (pos + size) % r.capacity ≡ (0 + (4 + length m)) % r.capacity
    behind_pos =
        ap (λ x. x % r.capacity) (omega arith)
        ∙ add-mod_left r.capacity (4 + length m)
        ∙ ap (λ x. x % r.capacity) (omega arith)

    rest' :
        Records r.mem r.capacity ((0 + (4 + length m)) % r.capacity) (used r - k - (4 + length m)) q
    rest' =
        subst (λ p. Records r.mem r.capacity p (used r - k - (4 + length m)) q) behind_pos
          (subst (λ n. Records r.mem r.capacity ((pos + size) % r.capacity) n q) (omega arith) rest)

-- `shm_ring_pop` as a queue sees it: the result, the bytes handed over, and the queue that is left.
abbrev pub fifo_pop : List (List ℕ) → ℕ → Rc × List ℕ × List (List ℕ)
fifo_pop [] max_size = (fail eagain, [], [])
fifo_pop (m ∷ q) max_size =
    if ltb max_size (length m) then (fail emsgsize, [], m ∷ q) else (done (length m), m, q)

pop_full :
    {r : Ring} {m : List ℕ} {q : List (List ℕ)} (fuel max_size : ℕ)
    → Front r m q
    → let (rc, out, q') = fifo_pop (m ∷ q) max_size in
      (r' : Ring) × (pop_loop (suc fuel) r max_size ≡ some (rc, out, r')) × Holds r' q'
pop_full {r} {m} {q} fuel max_size f = elim (dec_lt max_size (length m)) [
  | yes short ↦ rw (lt→ltb _ _ short) (r, pop-Front_short fuel max_size f short, f.holds)
  | no fits ↦
      let (r', e, h) = take_record-Front f in
      rw (le→ltb max_size (length m) (omega arith))
        (r', pop-Front fuel max_size f (omega arith) ∙ ap some e, h)
]

pub pop_empty :
    (r : Ring) (fuel max_size : ℕ)
    → r.head ≡ r.tail
    → pop_loop (suc fuel) r max_size ≡ some (fail eagain, [], r)
unfolding pop_loop
pop_empty r fuel max_size e = ground arith

pop_sentinel :
    (r : Ring) (fuel max_size : ℕ)
    → 0 < used r
    → 0 < r.capacity
    → r.head < 2 ^ 64
    → r.tail < 2 ^ 64
    → u32_at r.mem (r.tail % r.capacity) ≡ 0
    → pop_loop (suc fuel) r max_size
      ≡ pop_loop fuel (moved r (r.capacity - r.tail % r.capacity)) max_size
unfolding pop_loop
pop_sentinel r fuel max_size a z b c e = rw (e, ← jump) (ground (arith, a, b, c))
  where
    jump :
        add64 (r.tail - r.tail % r.capacity) r.capacity
        ≡ add64 r.tail (r.capacity - r.tail % r.capacity)
    jump = omega (arith, mod-le r.tail r.capacity, mod-lt r.tail z)

-- A pop does to the ring what it does to the queue that the ring holds, and two rounds of its loop are
-- enough: on an empty queue it answers -EAGAIN and changes nothing, a record longer than the buffer is
-- answered by -EMSGSIZE and stays the oldest, and any other record is handed over whole, with its
-- length as the result, and leaves the queue.
pub pop_refines :
    {r : Ring} (q : List (List ℕ)) (max_size : ℕ)
    → Holds r q
    → let (rc, out, q') = fifo_pop q max_size in
      (r' : Ring) × (pop r max_size ≡ some (rc, out, r')) × Holds r' q'
unfolding pop
pop_refines {r} [] max_size h = (r, pop_empty r 1 max_size same_cursors, h)
  where
    same_cursors : r.head ≡ r.tail
    same_cursors = let e = h.records in let a = h.head_word in let b = h.tail_word in omega arith
pop_refines {r} (m ∷ q) max_size h = split h.records
  where
    split :
        Records r.mem r.capacity (r.tail % r.capacity) (used r) (m ∷ q)
        → let (rc, out, q') = fifo_pop (m ∷ q) max_size in
          (r' : Ring) × (pop_loop 2 r max_size ≡ some (rc, out, r')) × Holds r' q'
    split (size, straight rec e, le, rest) = pop_full 1 max_size (record {
      holds = h;
      stored = rec;
      within = omega arith;
      behind =
          subst
            (λ s. Records r.mem r.capacity ((r.tail % r.capacity + s) % r.capacity) (used r - s) q)
            e rest;
    })
    split (size, wrapped p s rec e, le, rest) =
        rw (pop_sentinel r 1 max_size (omega arith) (omega arith) h.head_word h.tail_word s)
          (pop_full 0 max_size (skip_sentinel size h rec e le rest))
