-- ===== src/Ring/Records.antt =====
-- The abstract view of the buffer: `n` used bytes from position `p` hold a queue of records.
use native.Mathlib.Nat.{mod-lt, mod-add-mod}
use mathlib.Core.Path.{subst}
use adaptipc.Base.{
  ℕ, ◌+◌, ◌-◌, ◌%◌, ◌≤◌, ◌<◌, ◌≡◌, sym, ap, ◌∙◌, ◌⊎◌, inl, inr, List, [], ◌∷◌, ◌++◌, arith, length,
}
use adaptipc.Base.Bytes.{Memory, read_bytes, u32_at, read_bytes_congr, u32_at_congr}
use adaptipc.Ring.Cursor.{mod_step}

-- A record with payload `m` at `pos`, ending inside the buffer.
pub record IsRecord (mem : Memory) (cap pos : ℕ) (m : List ℕ) : Type 0 where
  pub nonempty : 0 < length m
  pub inside : pos + 4 + length m ≤ cap
  pub stored_length : u32_at mem pos ≡ length m
  pub stored_bytes : read_bytes mem (pos + 4) (length m) ≡ m

-- An entry of `size` bytes: a record, or a wrap sentinel with the record at offset 0 behind it.
pub data Entry (mem : Memory) (cap pos size : ℕ) (m : List ℕ) : Type 0 where
  straight : IsRecord mem cap pos m → size ≡ 4 + length m → Entry mem cap pos size m
  wrapped :
      0 < pos
      → u32_at mem pos ≡ 0
      → IsRecord mem cap 0 m
      → size + pos ≡ cap + (4 + length m)
      → Entry mem cap pos size m

-- The entries from `p` on take up exactly `n` bytes and carry the queue, oldest first.
abbrev pub Records : Memory → ℕ → ℕ → ℕ → List (List ℕ) → Type 0
Records mem cap p n [] = n ≡ 0
Records mem cap p n (m ∷ q) =
    (size : ℕ) × Entry mem cap p size m
    × (size ≤ n)
    × Records mem cap ((p + size) % cap) (n - size) q

-- The offsets that `n` bytes from `p` on stand at, round the end of the buffer.
abbrev pub IsLive : ℕ → ℕ → ℕ → ℕ → Type 0
IsLive cap p n i = ((p ≤ i) × (i < p + n)) ⊎ (i + cap < p + n)

IsRecord-congr :
    {f g : Memory} {cap pos : ℕ} {m : List ℕ}
    → ((i : ℕ) → pos ≤ i → i < pos + 4 + length m → f i ≡ g i)
    → IsRecord f cap pos m
    → IsRecord g cap pos m
IsRecord-congr {f} {g} {cap} {pos} {m} same r = record {
  nonempty = r.nonempty;
  inside = r.inside;
  stored_length = sym (u32_at_congr f g pos (λ i lo hi. same i lo (omega arith))) ∙ r.stored_length;
  stored_bytes =
      sym (read_bytes_congr f g (pos + 4) (length m) (λ i lo hi. same i (omega arith) hi))
      ∙ r.stored_bytes;
}

Entry-congr :
    {f g : Memory} (cap pos size n : ℕ) {m : List ℕ}
    → pos < cap
    → size ≤ n
    → ((i : ℕ) → IsLive cap pos n i → f i ≡ g i)
    → Entry f cap pos size m
    → Entry g cap pos size m
Entry-congr cap pos size n hp hs same (straight r e) =
    straight (IsRecord-congr (λ i lo hi. same i (inl (lo, omega arith))) r) e
Entry-congr {f} {g} cap pos size n hp hs same (wrapped pp sentinel r e) =
    wrapped pp
      (sym (u32_at_congr f g pos (λ i lo hi. same i (inl (lo, omega (arith, r.nonempty)))))
        ∙ sentinel)
      (IsRecord-congr (λ i lo hi. same i (inr (omega arith))) r) e

-- An entry takes at most the buffer, and leaves a position inside it.
pub Entry-bounds :
    {mem : Memory} {cap pos size : ℕ} {m : List ℕ}
    → pos < cap
    → Entry mem cap pos size m
    → (4 < size) × (pos + size ≤ cap + cap)
Entry-bounds hp (straight r e) = let a = r.nonempty in let b = r.inside in omega arith
Entry-bounds hp (wrapped pp s r e) = let a = r.nonempty in let b = r.inside in omega arith

-- A valid step leaves a position inside the buffer, and its live bytes were live before.
IsLive-step :
    (cap p size n i : ℕ)
    → p < cap
    → size ≤ n
    → n ≤ cap
    → IsLive cap ((p + size) % cap) (n - size) i
    → IsLive cap p n i
IsLive-step cap p size n i hp hs hn (inl (lo, hi)) = elim (mod_step p size cap hp (omega arith)) [
  | inl (a, e) ↦ inl (omega arith, omega arith)
  | inr (a, e) ↦ inr (omega arith)
]
IsLive-step cap p size n i hp hs hn (inr h) = elim (mod_step p size cap hp (omega arith)) [
  | inl (a, e) ↦ inr (omega arith)
  | inr (a, e) ↦ inr (omega arith)
]

-- The queue depends only on the live bytes.
pub Records-congr :
    {f g : Memory} (cap p n : ℕ) (q : List (List ℕ))
    → p < cap
    → n ≤ cap
    → ((i : ℕ) → IsLive cap p n i → f i ≡ g i)
    → Records f cap p n q
    → Records g cap p n q
Records-congr cap p n [] hp hn same r = r
Records-congr {f} {g} cap p n (m ∷ q) hp hn same (size, entry, le, rest) = (
  size,
  Entry-congr cap p size n hp le same entry,
  le,
  Records-congr cap ((p + size) % cap) (n - size) q (mod-lt (p + size) (omega arith)) (omega arith)
      (λ i live. same i (IsLive-step cap p size n i hp le hn live)) rest,
)

-- An entry written just behind the used bytes is the newest of the queue.
pub Records-snoc :
    {f : Memory} (cap p n e size : ℕ) (q : List (List ℕ)) {m : List ℕ}
    → p < cap
    → n + size ≤ cap
    → e ≡ (p + n) % cap
    → Entry f cap e size m
    → Records f cap p n q
    → Records f cap p (n + size) (q ++ (m ∷ []))
Records-snoc {f} cap p n e size [] {m} hp hn he entry r = (
  size,
  subst (λ x. Entry f cap x size m) (omega (arith, mod_step p n cap)) entry,
  omega arith,
  omega arith,
)
Records-snoc {f} cap p n e size (x ∷ q) {m} hp hn he entry (s, first, le, rest) = (
  s,
  first,
  omega arith,
  subst (λ k. Records f cap ((p + s) % cap) k (q ++ (m ∷ []))) (omega arith)
      (Records-snoc cap ((p + s) % cap) (n - s) e size q (mod-lt (p + s) (omega arith))
        (omega arith) (he ∙ shift) entry rest),
)
  where
    shift : (p + n) % cap ≡ ((p + s) % cap + (n - s)) % cap
    shift = rw mod-add-mod (ap (λ k. k % cap) (omega arith))
