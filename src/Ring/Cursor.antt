-- ===== src/Ring/Cursor.antt =====
-- Arithmetic of the cursors: 64-bit wrap-around, and positions in the buffer.
use mathlib.Core.Logic.{◌⊎◌, inl, inr}
use native.Mathlib.Nat.{
  mod-eq_of_lt, mod-eq-sub-mod, mod-mod_of_dvd, mod-add-mod, dvd_of_mod-eq-zero, mul-mod_right,
}
use native.Mathlib.Decide.{dec_lt}
use adaptipc.Base.{ℕ, ◌+◌, ◌-◌, ◌*◌, ◌%◌, ◌^◌, ◌≤◌, ◌<◌, ◌≡◌, ◌∙◌, sym, arith, add64, sub64}

-- One step round a buffer of `cap` bytes.
pub mod_step :
    (p k cap : ℕ)
    → p < cap
    → k ≤ cap
    → ((p + k < cap) × ((p + k) % cap ≡ p + k)) ⊎ ((cap ≤ p + k) × ((p + k) % cap ≡ p + k - cap))
mod_step p k cap hp hk = elim (dec_lt (p + k) cap) [
  | yes h ↦ inl (h, mod-eq_of_lt h)
  | no h ↦ inr (
    omega arith,
    mod-eq-sub-mod {n = p + k} {m = cap} (omega arith)
        ∙ mod-eq_of_lt {n = p + k - cap} {m = cap} (omega arith),
  )
]

-- A capacity that divides the range of the cursors makes their wrap-around invisible.
pub wrap-mod : (x cap blocks : ℕ) → cap * blocks ≡ 2 ^ 64 → x % 2 ^ 64 % cap ≡ x % cap
wrap-mod x cap blocks h = mod-mod_of_dvd cap x (dvd_of_mod-eq-zero cap divides)
  where
    divides : 2 ^ 64 % cap ≡ 0
    divides = rw (← h) (mul-mod_right cap blocks)

-- The cursor that is `n` bytes past another stands `n` bytes further in the buffer.
pub cursor_pos :
    (tail n cap blocks : ℕ) → cap * blocks ≡ 2 ^ 64 → add64 tail n % cap ≡ (tail % cap + n) % cap
cursor_pos tail n cap blocks h = wrap-mod (tail + n) cap blocks h ∙ sym (mod-add-mod tail cap n)

-- Moving the head on adds to the used bytes.
pub sub64-add64 :
    (head tail k : ℕ)
    → head < 2 ^ 64
    → tail < 2 ^ 64
    → sub64 head tail + k < 2 ^ 64
    → sub64 (add64 head k) tail ≡ sub64 head tail + k
sub64-add64 head tail k hh ht hk = omega arith

-- Rounding the head up to the next capacity multiple skips what is left of the buffer.
pub round_up :
    (head pos cap need : ℕ)
    → pos ≤ head
    → pos ≤ cap
    → add64 (add64 (head - pos) cap) need ≡ add64 head (cap - pos + need)
round_up head pos cap need h1 h2 = omega arith

-- Moving the tail on by no more than the used bytes takes them away.
pub sub64-tail :
    (head tail k : ℕ)
    → head < 2 ^ 64
    → tail < 2 ^ 64
    → k ≤ sub64 head tail
    → sub64 head (add64 tail k) ≡ sub64 head tail - k
sub64-tail head tail k hh ht hk = omega arith
