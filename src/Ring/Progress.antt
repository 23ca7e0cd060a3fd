-- ===== src/Ring/Progress.antt =====
-- When a push to an empty ring succeeds, and when it never will.
use adaptipc.Base.{ℕ, ◌+◌, ◌*◌, ◌≤◌, ◌<◌, ◌≡◌, inl, inr, some, List, [], ◌∷◌, arith, length}
use adaptipc.Base.Errno.{done, fail, eagain}
use adaptipc.Ring.{Ring, used, head_pos, push, pop}
use adaptipc.Ring.Inv.{Holds}
use adaptipc.Ring.Push.{
  room, push_refines, pos_lt, need_plain, small_plain, required_plain, free_plain,
}
use adaptipc.Ring.Pop.{pop_empty}

-- A record of at most half the capacity, header included, always goes into an empty ring.
pub push_empty :
    {r : Ring} (bytes : List ℕ)
    → Holds r []
    → 0 < length bytes
    → 2 * (length bytes + 4) ≤ r.capacity
    → ((push r bytes).0 ≡ done 0) × Holds (push r bytes).1 (bytes ∷ [])
push_empty {r} bytes h pos half = elim (push_refines bytes h) [
  | inl (f, e, kept) ↦ (e, kept)
  | inr (unfit, e, same) ↦ absurd (unfit (pos, omega arith, fits))
]
  where
    fits : used r + room r (length bytes + 4) ≤ r.capacity
    fits = let e = h.records in let p = pos_lt h in ground arith

-- A larger record is refused by an empty ring for ever where it fits neither behind the head nor,
-- after the wrap, before it: the push answers -EAGAIN and changes nothing, the consumer has nothing
-- to take and changes nothing either.
pub empty_stuck :
    {r : Ring} (bytes : List ℕ) (max_size : ℕ)
    → Holds r []
    → length bytes + 4 ≤ r.capacity
    → head_pos r < length bytes + 4
    → r.capacity < head_pos r + (length bytes + 4)
    → (push r bytes ≡ (fail eagain, r)) × (pop r max_size ≡ some (fail eagain, [], r))
unfolding push pop
empty_stuck {r} bytes max_size h most before behind = (
  rw
      (
        need_plain h bytes most,
        small_plain h,
        required_plain h (length bytes + 4) most,
        free_plain h,
      )
      (ground (arith, pos_lt h, h.records)),
  pop_empty r 1 max_size
      (let e = h.records in let a = h.head_word in let b = h.tail_word in omega arith),
)
