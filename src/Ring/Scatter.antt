-- ===== src/Ring/Scatter.antt =====
-- `shm_ring_push_scatter` does what `shm_ring_push` does with the segments joined.
use native.Mathlib.Nat.{mod-eq_of_lt, mod_self, mod-le}
use native.Mathlib.Decide.{dec_lt, dec_le}
use mathlib.Core.Path.{fun_ext, ap₂}
use mathlib.Core.List.{append-nil}
use adaptipc.Base.{
  ℕ, zero, suc, ◌+◌, ◌-◌, ◌%◌, ◌≤◌, ◌<◌, ◌^◌, ◌≡◌, refl, sym, ap, ◌∙◌, ◌⊎◌, inl, inr, ◌≢◌, List, [],
  ◌∷◌, ◌++◌, arith, length, take, drop, ltb, if◌then◌else◌, length-append, add64, u32, true, Bool,
  ltb→lt, ltb→le, All, false,
}
use adaptipc.Base.Bytes.{Memory, write_bytes, u32_bytes, write_bytes-append, write_bytes-nil}
use adaptipc.Base.Errno.{done, fail, emsgsize}
use adaptipc.Ring.{
  Ring, Segment, bytes_at, null_base, is_bad, seg_bytes, body_of, Copy, copy_seg, copy_segs,
  scatter, push_straight, push_wrapped, head_pos, contiguous, push_body, push_scatter, push,
  required,
}
use adaptipc.Ring.Cursor.{round_up}
use adaptipc.Ring.Inv.{Holds}
use adaptipc.Ring.Push.{
  Fits, push_refines, contiguous_plain, need_plain, small_plain, pos_lt, required_plain,
}

-- The bytes of the segments, joined.
abbrev pub flat : List Segment → List ℕ
flat [] = []
flat (s ∷ segs) = seg_bytes s ++ flat segs

take-length : (bs : List ℕ) → take (length bs) bs ≡ bs
take-length [] = refl
take-length (b ∷ bs) = ap (◌∷◌ b) (take-length bs)

drop-length : (bs : List ℕ) → drop (length bs) bs ≡ []
drop-length [] = refl
drop-length (b ∷ bs) = drop-length bs

nil_of_length : (bs : List ℕ) → length bs ≡ 0 → bs ≡ []
nil_of_length [] e = refl
nil_of_length (b ∷ bs) e = absurd (omega arith)

copy_seg-nil : (fuel capacity : ℕ) (c : Copy) → copy_seg fuel capacity c [] ≡ c
unfolding copy_seg
copy_seg-nil zero capacity c = refl
copy_seg-nil (suc fuel) capacity c = refl

-- A segment that ends inside the buffer is copied in one chunk.
copy_seg_once :
    (capacity : ℕ) (c : Copy) (bs : List ℕ)
    → 0 < length bs
    → c.p + length bs ≤ capacity
    → copy_seg (length bs) capacity c bs
      ≡ record { mem = write_bytes c.mem c.p bs; p = (c.p + length bs) % capacity }
unfolding copy_seg
copy_seg_once capacity c [] pos fits = absurd (omega arith)
copy_seg_once capacity c (b ∷ bs) pos fits =
    ap (after (b ∷ bs)) chunk
    ∙ rw (take-length (b ∷ bs), drop-length (b ∷ bs)) (copy_seg-nil (length bs) capacity _)
  where
    after : List ℕ → ℕ → Copy
    after xs k =
        copy_seg (length bs) capacity
          (record { mem = write_bytes c.mem c.p (take k xs); p = (c.p + k) % capacity }) (drop k xs)

    chunk :
        (if ltb (length (b ∷ bs)) (capacity - c.p) then length (b ∷ bs) else capacity - c.p)
        ≡ length (b ∷ bs)
    chunk = ground arith

-- Segments that end inside the buffer leave the memory that one write of their bytes leaves.
copy_segs_lem :
    (capacity : ℕ) (c : Copy) (segs : List Segment)
    → c.p < capacity
    → c.p + length (flat segs) ≤ capacity
    → (i : ℕ) → (copy_segs capacity c segs).mem i ≡ write_bytes c.mem c.p (flat segs) i
unfolding copy_segs
copy_segs_lem capacity c [] lt fits i = sym (write_bytes-nil c.mem c.p i)
copy_segs_lem capacity c (null_base n ∷ segs) lt fits i =
    rw (copy_segs, copy_seg-nil 0 capacity c) (copy_segs_lem capacity c segs lt fits i)
copy_segs_lem capacity c (bytes_at [] ∷ segs) lt fits i =
    rw (copy_segs, copy_seg-nil 0 capacity c) (copy_segs_lem capacity c segs lt fits i)
copy_segs_lem capacity c (bytes_at (b ∷ bs) ∷ segs) lt fits i =
    ap (λ k. (copy_segs capacity k segs).mem i)
      (copy_seg_once capacity c (b ∷ bs) (omega arith)
        (omega (arith, length-append bs (flat segs))))
    ∙ elim (dec_lt (c.p + length (b ∷ bs)) capacity) [
      | yes inside ↦ rw (mod-eq_of_lt inside) (
          copy_segs_lem capacity (next (c.p + length (b ∷ bs))) segs inside
            (omega (arith, length-append bs (flat segs))) i
          ∙ write_bytes-append c.mem c.p (b ∷ bs) (flat segs) i)
      | no over ↦
          let full : c.p + length (b ∷ bs) ≡ capacity =
            omega (arith, length-append bs (flat segs)) in
          let last : flat segs ≡ [] =
            nil_of_length (flat segs) (omega (arith, length-append bs (flat segs))) in
          rw (full, mod_self)
            (copy_segs_lem capacity (next 0) segs (omega arith) (rw last (omega arith)) i
              ∙ rw (last, append-nil) (write_bytes-nil (write_bytes c.mem c.p (b ∷ bs)) 0 i))
    ]
  where
    next : ℕ → Copy
    next k = record { mem = write_bytes c.mem c.p (b ∷ bs); p = k }

-- No segment has a null base with a length.
abbrev pub IsGood : List Segment → Type 0
IsGood segs = All (λ s. is_bad s ≡ false) segs

body_of_lem :
    (segs : List Segment) (body : ℕ)
    → IsGood segs
    → body + length (flat segs) < 2 ^ 64
    → body_of segs body ≡ done (body + length (flat segs))
unfolding body_of
body_of_lem [] body g l = ap done (omega arith)
body_of_lem (s ∷ segs) body g l =
    rw
      (
        g.0,
        body_of_lem segs (add64 body (length (seg_bytes s))) g.1
            (omega (arith, length-append (seg_bytes s) (flat segs))),
      )
      (ap done (omega (arith, length-append (seg_bytes s) (flat segs))))

-- The segments' bytes land where `shm_ring_push` puts them.
module _ {r : Ring} {q : List (List ℕ)} (h : Holds r q) (segs : List Segment) where
  abbrev total : ℕ
  total = length (flat segs)

  scatter_straight :
      0 < total
      → head_pos r + (total + 4) ≤ r.capacity
      → scatter r segs total (total + 4) false ≡ push_straight r (flat segs) (total + 4)
  unfolding scatter push_straight
  scatter_straight pos inside =
      rw (mod-eq_of_lt {n = head_pos r + 4} {m = r.capacity} (omega arith)) (
        ap (λ (m : Memory). record r { mem = m; head = add64 r.head (total + 4) })
          (fun_ext (
            copy_segs_lem r.capacity (record { mem = header; p = head_pos r + 4 }) segs
              (omega arith) (omega arith))))
    where
      header : Memory
      header = write_bytes r.mem (head_pos r) (u32_bytes (u32 total))

  scatter_wrapped :
      0 < total
      → total + 4 ≤ r.capacity
      → r.capacity < head_pos r + (total + 4)
      → scatter r segs total (total + 4) true ≡ push_wrapped r (flat segs) (total + 4)
  unfolding scatter push_wrapped
  scatter_wrapped pos most over = rw (mod-eq_of_lt {n = 4} {m = r.capacity} (omega arith)) (
      ap₂ (λ (m : Memory) (x : ℕ). record r { mem = m; head = x })
        (fun_ext (
          copy_segs_lem r.capacity (record { mem = header; p = 4 }) segs (omega arith)
            (omega arith)))
        same_head)
    where
      header : Memory
      header = write_bytes (write_bytes r.mem (head_pos r) (u32_bytes 0)) 0 (u32_bytes (u32 total))

      same_head :
          add64 r.head (required r (total + 4))
          ≡ add64 (add64 (r.head - head_pos r) r.capacity) (total + 4)
      same_head =
          ap (add64 r.head) (required_plain h (total + 4) most ∙ ground arith)
          ∙ sym (
              round_up r.head (head_pos r) r.capacity (total + 4) (mod-le r.head r.capacity)
                (let a = pos_lt h in omega arith))

  scatter-eq :
      (wrap : Bool)
      → 0 < total
      → total + 4 ≤ r.capacity
      → ltb (contiguous r) (total + 4) ≡ wrap
      → scatter r segs total (total + 4) wrap ≡ (
          if wrap
          then push_wrapped r (flat segs) (total + 4)
          else push_straight r (flat segs) (total + 4))
  scatter-eq true pos most w =
      scatter_wrapped pos most
        (omega (arith, ltb→lt (contiguous r) (total + 4) w, contiguous_plain h, pos_lt h))
  scatter-eq false pos most w =
      scatter_straight pos
        (omega (arith, ltb→le (contiguous r) (total + 4) w, contiguous_plain h, pos_lt h))

  push_body-eq-push :
      0 < total → total + 8 ≤ r.capacity → push_body r segs (done total) ≡ push r (flat segs)
  unfolding push_body push
  push_body-eq-push pos most =
      rw
        (
          need_plain h (flat segs) (omega arith),
          small_plain h,
          scatter-eq (ltb (contiguous r) (total + 4)) pos (omega arith) refl,
        )
        (ground arith)

-- The bytes that a scatter push takes: as for a plain push, but for four bytes less.
abbrev pub ScatterFits : Ring → List Segment → Type 0
ScatterFits r segs = Fits r (flat segs) × (length (flat segs) + 8 ≤ r.capacity)

push_scatter_body :
    (r : Ring) (segs : List Segment)
    → IsGood segs
    → length (flat segs) < 2 ^ 63
    → 0 < length (flat segs)
    → push_scatter r segs ≡ push_body r segs (done (length (flat segs)))
unfolding push_scatter
push_scatter_body r [] g small pos = absurd (omega arith)
push_scatter_body r (s ∷ segs) g small pos =
    ap (push_body r (s ∷ segs)) (body_of_lem (s ∷ segs) 0 g (omega arith) ∙ ap done (omega arith))

push_body_long :
    {r : Ring} {q : List (List ℕ)} (segs : List Segment) (n : ℕ)
    → Holds r q
    → n < 2 ^ 63
    → r.capacity < n + 8
    → push_body r segs (done n) ≡ (fail emsgsize, r)
unfolding push_body
push_body_long {r} segs n h small over = ground (arith, small_plain h)

-- On a ring that holds a queue, segments with no null base, of 1 byte to the capacity less 8 bytes in
-- all, are pushed as `shm_ring_push` pushes their concatenation: the same result and the same ring.
pub push_scatter-eq-push :
    {r : Ring} {q : List (List ℕ)} (segs : List Segment)
    → Holds r q
    → IsGood segs
    → 0 < length (flat segs)
    → length (flat segs) + 8 ≤ r.capacity
    → push_scatter r segs ≡ push r (flat segs)
push_scatter-eq-push {r} segs h g pos most =
    push_scatter_body r segs g (let s = h.shape.small in omega arith) pos
    ∙ push_body-eq-push h segs pos most

push_scatter_none :
    (r : Ring) (segs : List Segment)
    → IsGood segs
    → length (flat segs) ≡ 0
    → ((push_scatter r segs).0 ≢ done 0) × ((push_scatter r segs).1 ≡ r)
unfolding push_scatter push_body
push_scatter_none r [] g e = ground arith
push_scatter_none r (s ∷ segs) g e = rw (body_of_lem (s ∷ segs) 0 g (omega arith), e) (ground arith)

push_scatter_long :
    {r : Ring} {q : List (List ℕ)} (segs : List Segment)
    → Holds r q
    → IsGood segs
    → length (flat segs) < 2 ^ 63
    → r.capacity < length (flat segs) + 8
    → push_scatter r segs ≡ (fail emsgsize, r)
push_scatter_long {r} segs h g small over =
    push_scatter_body r segs g small (let s = h.shape.page in omega arith)
    ∙ push_body_long segs (length (flat segs)) h small over

-- A scatter push either appends the joined bytes to the queue and returns 0, which it does exactly
-- when they fit, or it fails and leaves the ring as it was.
pub push_scatter_refines :
    {r : Ring} {q : List (List ℕ)} (segs : List Segment)
    → Holds r q
    → IsGood segs
    → length (flat segs) < 2 ^ 63
    → let (rc, r') = push_scatter r segs in
      (ScatterFits r segs × (rc ≡ done 0) × Holds r' (q ++ (flat segs ∷ [])))
      ⊎ ((¬ ScatterFits r segs) × (rc ≢ done 0) × (r' ≡ r))
push_scatter_refines {r} {q} segs h g small = elim (dec_lt 0 (length (flat segs))) [
  | no none_left ↦
      let (f, e) = push_scatter_none r segs g (omega arith) in
      inr (λ fits. none_left fits.0.0, f, e)
  | yes pos ↦ elim (dec_le (length (flat segs) + 8) r.capacity) [
    | no over ↦
        rw (push_scatter_long segs h g small (omega arith))
          (inr (λ fits. over fits.1, ground arith, refl))
    | yes most ↦ rw (push_scatter-eq-push segs h g pos most) (elim (push_refines (flat segs) h) [
      | inl (f, e, kept) ↦ inl ((f, most), e, kept)
      | inr (f, e, same) ↦ inr (λ fits. f fits.0, e, same)
    ])
  ]
]
