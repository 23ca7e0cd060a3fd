-- ===== src/Ring/Inv.antt =====
-- The representation invariant of the ring, with the queue that it holds.
use adaptipc.Base.{ℕ, ◌+◌, ◌*◌, ◌%◌, ◌^◌, ◌≤◌, ◌<◌, ◌≡◌, ◌∙◌, ap, List, arith, add64}
use adaptipc.Ring.{Ring, used, head_pos}
use adaptipc.Ring.Cursor.{cursor_pos}
use adaptipc.Ring.Records.{Records}

-- The shape of a capacity that `round_pow2` makes and that 32-bit lengths can describe: `blocks` of it
-- make up the range of a 64-bit cursor.
pub record IsCapacity (cap : ℕ) : Type 0 where
  pub page : 4096 ≤ cap
  pub small : cap ≤ 2 ^ 31
  pub blocks : ℕ
  pub divides : cap * blocks ≡ 2 ^ 64

pub record Holds (r : Ring) (q : List (List ℕ)) : Type 0 where
  pub shape : IsCapacity r.capacity
  pub head_word : r.head < 2 ^ 64
  pub tail_word : r.tail < 2 ^ 64
  pub filled : used r ≤ r.capacity
  pub records : Records r.mem r.capacity (r.tail % r.capacity) (used r) q

-- The producer's position is the consumer's, moved on by the used bytes.
pub head_at :
    {r : Ring} {q : List (List ℕ)}
    → Holds r q
    → head_pos r ≡ (r.tail % r.capacity + used r) % r.capacity
head_at {r} {q} h =
    ap (λ x. x % r.capacity) same
    ∙ cursor_pos r.tail (used r) r.capacity h.shape.blocks h.shape.divides
  where
    same : r.head ≡ add64 r.tail (used r)
    same = let a = h.head_word in let b = h.tail_word in omega arith
