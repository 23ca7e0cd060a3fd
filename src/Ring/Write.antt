-- ===== src/Ring/Write.antt =====
-- What the `memcpy` calls of a push leave in memory, and which bytes they leave alone.
use adaptipc.Base.{ℕ, ◌+◌, ◌%◌, ◌≤◌, ◌<◌, ◌≡◌, ◌∙◌, ◌⊎◌, inl, inr, List, arith, length, u32}
use adaptipc.Base.Bytes.{
  Memory, u32_bytes, write_bytes, write_bytes_outside, u32_at_congr, u32_at-write_bytes,
  read_bytes-write_bytes,
}
use native.Mathlib.Nat.{mod-lt}
use adaptipc.Ring.Cursor.{mod_step}
use adaptipc.Ring.Records.{IsRecord, IsLive}

-- The length at `e` and the payload behind it.
abbrev pub write_record : Memory → ℕ → List ℕ → Memory
write_record mem e bytes =
    write_bytes (write_bytes mem e (u32_bytes (u32 (length bytes)))) (e + 4) bytes

module _ (mem : Memory) (e : ℕ) (bytes : List ℕ) where
  header_outside : (n i : ℕ) → (i < e) ⊎ (e + 4 ≤ i) → write_bytes mem e (u32_bytes n) i ≡ mem i
  unfolding u32_bytes
  header_outside n i h = write_bytes_outside mem e (u32_bytes n) i h

  pub write_record_outside :
      (i : ℕ) → (i < e) ⊎ (e + 4 + length bytes ≤ i) → write_record mem e bytes i ≡ mem i
  write_record_outside i h =
      write_bytes_outside (write_bytes mem e (u32_bytes (u32 (length bytes)))) (e + 4) bytes i
        (omega arith)
      ∙ header_outside (u32 (length bytes)) i (omega arith)

  pub write_record-IsRecord :
      (cap : ℕ)
      → 0 < length bytes
      → length bytes < 4294967296
      → e + 4 + length bytes ≤ cap
      → IsRecord (write_record mem e bytes) cap e bytes
  write_record-IsRecord cap pos small inside = record {
    nonempty = pos;
    inside = inside;
    stored_length =
        u32_at_congr (write_record mem e bytes) header e
          (λ i lo hi. write_bytes_outside header (e + 4) bytes i (omega arith))
        ∙ u32_at-write_bytes mem e (u32 (length bytes)) (omega arith)
        ∙ omega arith;
    stored_bytes = read_bytes-write_bytes header (e + 4) bytes;
  }
    where
      header : Memory
      header = write_bytes mem e (u32_bytes (u32 (length bytes)))

pub sentinel_outside :
    (mem : Memory) (e i : ℕ) → (i < e) ⊎ (e + 4 ≤ i) → write_bytes mem e (u32_bytes 0) i ≡ mem i
unfolding u32_bytes
sentinel_outside mem e i h = write_bytes_outside mem e (u32_bytes 0) i h

-- The room of a straight write holds no live byte.
pub straight_room :
    (cap p n e need i : ℕ)
    → p < cap
    → n + need ≤ cap
    → e ≡ (p + n) % cap
    → e + need ≤ cap
    → IsLive cap p n i
    → (i < e) ⊎ (e + need ≤ i)
straight_room cap p n e need i hp room he inside (inl (lo, hi)) =
    elim (mod_step p n cap hp (omega arith)) [
      | inl (a, b) ↦ inl (omega arith)
      | inr (a, b) ↦ inr (omega arith)
    ]
straight_room cap p n e need i hp room he inside (inr h) =
    elim (mod_step p n cap hp (omega arith)) [
      | inl (a, b) ↦ inl (omega arith)
      | inr (a, b) ↦ inl (omega arith)
    ]

-- A push that wraps finds no live byte behind the head, and none in the room at offset 0.
pub wrapped_room :
    (cap p n e need i : ℕ)
    → p < cap
    → n + (cap + need) ≤ cap + e
    → e ≡ (p + n) % cap
    → IsLive cap p n i
    → (i < e) × (need ≤ i)
wrapped_room cap p n e need i hp room he (inl (lo, hi)) =
    omega (arith, mod_step p n cap hp (omega (arith, mod-lt (p + n) {m = cap} (omega arith))))
wrapped_room cap p n e need i hp room he (inr h) =
    omega (arith, mod_step p n cap hp (omega (arith, mod-lt (p + n) {m = cap} (omega arith))))
