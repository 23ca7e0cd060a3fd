-- ===== src/Ring/Push.antt =====
-- `shm_ring_push` appends to the queue that the ring holds.
use native.Mathlib.Nat.{mod-lt, mod-le}
use mathlib.Core.Path.{subst}
use native.Mathlib.Decide.{dec_le, dec_lt}
use adaptipc.Base.{
  ℕ, ◌+◌, ◌-◌, ◌%◌, ◌≤◌, ◌<◌, ◌≡◌, refl, sym, ◌∙◌, ◌⊎◌, inl, inr, ◌≢◌, List, [], ◌∷◌, ◌++◌, arith,
  length, ltb, add64, sub64, if◌then◌else◌,
}
use adaptipc.Base.Bytes.{Memory, write_bytes, u32_bytes, u32_at_congr, u32_at-write_bytes}
use adaptipc.Base.Errno.{done}
use adaptipc.Ring.{Ring, used, head_pos, contiguous, required, push, push_wrapped, push_straight}
use adaptipc.Ring.Cursor.{sub64-add64, round_up}
use adaptipc.Ring.Records.{Entry, straight, wrapped, IsLive, Records, Records-congr, Records-snoc}
use adaptipc.Ring.Write.{
  write_record, write_record_outside, write_record-IsRecord, sentinel_outside, straight_room,
  wrapped_room,
}
use adaptipc.Ring.Inv.{Holds, head_at}

pub pos_lt : {r : Ring} {q : List (List ℕ)} → Holds r q → head_pos r < r.capacity
pos_lt {r} h = mod-lt r.head (let a = h.shape.page in omega arith)

-- An entry of `k` bytes written behind the live ones, and the head moved past it, is one more record.
pub Holds-grown :
    {r : Ring} {q : List (List ℕ)} (mem : Memory) (k : ℕ) (m : List ℕ)
    → Holds r q
    → used r + k ≤ r.capacity
    → Entry mem r.capacity (head_pos r) k m
    → ((i : ℕ) → IsLive r.capacity (r.tail % r.capacity) (used r) i → r.mem i ≡ mem i)
    → Holds (record r { mem = mem; head = add64 r.head k }) (q ++ (m ∷ []))
Holds-grown {r} {q} mem k m h fits entry same = record {
  shape = h.shape;
  head_word = omega arith;
  tail_word = h.tail_word;
  filled = let s = h.shape.small in omega (arith, grown);
  records =
      subst (λ n. Records mem r.capacity (r.tail % r.capacity) n (q ++ (m ∷ []))) (sym grown)
        (Records-snoc r.capacity (r.tail % r.capacity) (used r) (head_pos r) k q tail_in fits
          (head_at h) entry
          (Records-congr r.capacity (r.tail % r.capacity) (used r) q tail_in h.filled same
            h.records));
}
  where
    grown : sub64 (add64 r.head k) r.tail ≡ used r + k
    grown =
        sub64-add64 r.head r.tail k h.head_word h.tail_word (let s = h.shape.small in omega arith)

    tail_in : r.tail % r.capacity < r.capacity
    tail_in = mod-lt r.tail (let a = h.shape.page in omega arith)

-- The room that a record of `need` bytes takes, in plain numbers.
abbrev pub room : Ring → ℕ → ℕ
room r need = if ltb (r.capacity - head_pos r) need then r.capacity - head_pos r + need else need

Dec_and : {A B C : Type 0} → Dec A → Dec B → Dec C → Dec (A × B × C)
Dec_and (no a) b c = no (λ t. a t.0)
Dec_and (yes a) (no b) c = no (λ t. b t.1)
Dec_and (yes a) (yes b) (no c) = no (λ t. c t.2)
Dec_and (yes a) (yes b) (yes c) = yes (a, b, c)

-- When a push of these bytes succeeds.
abbrev pub Fits : Ring → List ℕ → Type 0
Fits r bytes =
    (0 < length bytes)
    × (length bytes + 4 ≤ r.capacity)
    × (used r + room r (length bytes + 4) ≤ r.capacity)

Fits-dec : (r : Ring) (bytes : List ℕ) → Dec (Fits r bytes)
Fits-dec r bytes =
    Dec_and (dec_lt 0 (length bytes)) (dec_le (length bytes + 4) r.capacity)
      (dec_le (used r + room r (length bytes + 4)) r.capacity)

module _ {r : Ring} {q : List (List ℕ)} (h : Holds r q) where
  pub contiguous_plain : contiguous r ≡ r.capacity - head_pos r
  contiguous_plain = let a = pos_lt h in let s = h.shape.small in omega arith

  pub required_plain : (need : ℕ) → need ≤ r.capacity → required r need ≡ room r need
  required_plain need hn = let s = h.shape.small in rw contiguous_plain (ground arith)

  pub free_plain : sub64 r.capacity (used r) ≡ r.capacity - used r
  free_plain = let f = h.filled in let s = h.shape.small in omega arith

  pub push_straight-Holds :
      (bytes : List ℕ)
      → 0 < length bytes
      → head_pos r + (length bytes + 4) ≤ r.capacity
      → used r + (length bytes + 4) ≤ r.capacity
      → Holds (push_straight r bytes (length bytes + 4)) (q ++ (bytes ∷ []))
  unfolding push_straight
  push_straight-Holds bytes pos inside fits =
      Holds-grown (write_record r.mem (head_pos r) bytes) (length bytes + 4) bytes h fits
        (straight
          (write_record-IsRecord r.mem (head_pos r) bytes r.capacity pos
            (let s = h.shape.small in omega arith) (omega arith))
          (omega arith))
        (λ i live. sym (
          write_record_outside r.mem (head_pos r) bytes i (
            omega (
              arith,
              straight_room r.capacity (r.tail % r.capacity) (used r) (head_pos r)
                  (length bytes + 4) i (mod-lt r.tail (let a = h.shape.page in omega arith)) fits
                  (head_at h) inside live,
            ))))

  pub push_wrapped-Holds :
      (bytes : List ℕ)
      → 0 < length bytes
      → length bytes + 4 ≤ r.capacity
      → r.capacity < head_pos r + (length bytes + 4)
      → used r + (r.capacity - head_pos r + (length bytes + 4)) ≤ r.capacity
      → Holds (push_wrapped r bytes (length bytes + 4)) (q ++ (bytes ∷ []))
  unfolding push_wrapped
  push_wrapped-Holds bytes pos most over fits =
      subst (λ x. Holds (record r { mem = after; head = x }) (q ++ (bytes ∷ [])))
        (sym (round_up r.head hp r.capacity (length bytes + 4) (mod-le r.head r.capacity) hp_le))
        (Holds-grown after (r.capacity - hp + (length bytes + 4)) bytes h fits entry (λ i live.
          sym (
            outside i (
              wrapped_room r.capacity (r.tail % r.capacity) (used r) hp (length bytes + 4) i tail_in
                (omega arith) (head_at h) live))))
    where
      hp : ℕ
      hp = head_pos r

      hp_le : hp ≤ r.capacity
      hp_le = let a = pos_lt h in omega arith

      tail_in : r.tail % r.capacity < r.capacity
      tail_in = mod-lt r.tail (let a = h.shape.page in omega arith)

      marked : Memory
      marked = write_bytes r.mem hp (u32_bytes 0)

      after : Memory
      after = write_record marked 0 bytes

      outside : (i : ℕ) → (i < hp) × (length bytes + 4 ≤ i) → after i ≡ r.mem i
      outside i o =
          write_record_outside marked 0 bytes i (omega arith)
          ∙ sentinel_outside r.mem hp i (omega arith)

      entry : Entry after r.capacity hp (r.capacity - hp + (length bytes + 4)) bytes
      entry =
          wrapped (omega arith)
            (u32_at_congr after marked hp
                (λ i lo hi. write_record_outside marked 0 bytes i (omega arith))
              ∙ u32_at-write_bytes r.mem hp 0 (omega arith))
            (write_record-IsRecord marked 0 bytes r.capacity pos
              (let s = h.shape.small in omega arith) (omega arith))
            (omega arith)

  pub need_plain :
      (bytes : List ℕ) → length bytes + 4 ≤ r.capacity → add64 (length bytes) 4 ≡ length bytes + 4
  need_plain bytes l = let s = h.shape.small in omega arith

  pub small_plain : sub64 r.capacity 4 ≡ r.capacity - 4
  small_plain = let s = h.shape.small in let p = h.shape.page in omega arith

  push_wraps :
      (bytes : List ℕ)
      → Fits r bytes
      → r.capacity - head_pos r < length bytes + 4
      → push r bytes ≡ (done 0, push_wrapped r bytes (length bytes + 4))
  unfolding push
  push_wraps bytes f w =
      rw
        (
          need_plain bytes f.1,
          small_plain,
          required_plain (length bytes + 4) f.1,
          free_plain,
          contiguous_plain,
        )
        (ground arith)

  push-Fits :
      (bytes : List ℕ)
      → Fits r bytes
      → length bytes + 4 ≤ r.capacity - head_pos r
      → push r bytes ≡ (done 0, push_straight r bytes (length bytes + 4))
  unfolding push
  push-Fits bytes f w =
      rw
        (
          need_plain bytes f.1,
          small_plain,
          required_plain (length bytes + 4) f.1,
          free_plain,
          contiguous_plain,
        )
        (ground arith)

  push_unfit :
      (bytes : List ℕ) → ¬ Fits r bytes → ((push r bytes).0 ≢ done 0) × ((push r bytes).1 ≡ r)
  unfolding push
  push_unfit bytes f = ground (
    arith,
    need_plain bytes,
    small_plain,
    required_plain (length bytes + 4),
    free_plain,
    contiguous_plain,
  )

-- A push either appends the bytes to the queue that the ring holds and returns 0, which it does
-- exactly when the bytes are at least one, are no more than the capacity less 4, and fit with their
-- header (and the rest of the buffer, where they must wrap) between the used bytes and the capacity;
-- or it fails and leaves the ring as it was.
pub push_refines :
    {r : Ring} {q : List (List ℕ)} (bytes : List ℕ)
    → Holds r q
    → let (rc, r') = push r bytes in
      (Fits r bytes × (rc ≡ done 0) × Holds r' (q ++ (bytes ∷ [])))
      ⊎ ((¬ Fits r bytes) × (rc ≢ done 0) × (r' ≡ r))
push_refines {r} {q} bytes h = elim (Fits-dec r bytes) [
  | no unfit ↦ inr (unfit, (push_unfit h bytes unfit).0, (push_unfit h bytes unfit).1)
  | yes f ↦ elim (dec_le (length bytes + 4) (r.capacity - head_pos r)) [
    | yes inside ↦
        rw (push-Fits h bytes f inside)
          (inl (f, refl, push_straight-Holds h bytes f.0 (omega arith) (ground arith)))
    | no over ↦
        rw (push_wraps h bytes f (omega arith))
          (inl (f, refl, push_wrapped-Holds h bytes f.0 f.1 (omega arith) (ground arith)))
  ]
]
