-- ===== src/Ring/Capacity.antt =====
-- `round_pow2`: the capacity that a ring gets.
use native.Mathlib.Nat.{two-pow-succ, mod-eq_of_lt}
use adaptipc.Base.{
  ℕ, zero, suc, ◌*◌, ◌%◌, ◌^◌, ◌≤◌, ◌<◌, ◌≡◌, refl, ap, ◌∙◌, ◌⊎◌, inl, inr, Option, none, some,
  arith, ltb, if◌then◌else◌, lt→ltb,
}
use adaptipc.Ring.Inv.{IsCapacity}
use native.Mathlib.Decide.{dec_lt}

-- `while (p < v) p <<= 1` on a 64-bit `size_t`, by rounds; `none` is a loop that has not ended.
pub pow2_loop : ℕ → ℕ → ℕ → Option ℕ
pow2_loop zero v p = none
pow2_loop (suc fuel) v p =
    let rest = pow2_loop fuel v (p * 2 % 2 ^ 64) in if ltb p v then rest else some p

-- Between 4096 and 2 ^ 64 there are 51 doublings and 52 tests.
unfoldable pub round_pow2 : ℕ → Option ℕ
unfolding pow2_loop
round_pow2 v = pow2_loop 52 v 4096

-- A power of two between 4096 and 2 ^ 63 that holds `v`, and no larger than needed.
pub record IsRounded (v c : ℕ) : Type 0 where
  pub page : 4096 ≤ c
  pub holds : v ≤ c
  pub rest : ℕ
  pub power : c * 2 ^ rest ≡ 2 ^ 63
  pub least : (c ≡ 4096) ⊎ (c < 2 * v)

pos_pow : (f : ℕ) → 1 ≤ 2 ^ f
pos_pow zero = omega arith
pos_pow (suc f) = omega (arith, two-pow-succ f, pos_pow f)

double : (p f : ℕ) → p * 2 ^ suc f ≡ 2 ^ 63 → p * 2 * 2 ^ f ≡ 2 ^ 63
double p f e = omega (arith, e, ap (λ (x : ℕ). p * x) (two-pow-succ f))

no_overflow : (p f : ℕ) → p * 2 ^ f ≡ 2 ^ 63 → p ≤ 2 ^ 63
no_overflow p f e = let h = pos_pow f in grind arith

round_done : (fuel v p : ℕ) → v ≤ p → pow2_loop (suc fuel) v p ≡ some p
unfolding pow2_loop
round_done fuel v p h = ground arith

round_more :
    (fuel v p : ℕ) → p < v → p * 2 < 2 ^ 64 → pow2_loop (suc fuel) v p ≡ pow2_loop fuel v (p * 2)
unfolding pow2_loop
round_more fuel v p h small = rw (lt→ltb p v h) (ap (pow2_loop fuel v) (mod-eq_of_lt small))

pow2_loop_lem :
    (f v p : ℕ)
    → p * 2 ^ f ≡ 2 ^ 63
    → 4096 ≤ p
    → (p ≡ 4096) ⊎ (p < 2 * v)
    → v ≤ 2 ^ 63
    → (c : ℕ) × (pow2_loop (suc f) v p ≡ some c) × IsRounded v c
pow2_loop_lem zero v p e page least small = (
  p,
  round_done zero v p (omega arith),
  record { page = page; holds = omega arith; rest = 0; power = e; least = least },
)
pow2_loop_lem (suc f) v p e page least small = elim (dec_lt p v) [
  | no enough ↦ (
    p,
    round_done (suc f) v p (omega arith),
    record { page = page; holds = omega arith; rest = suc f; power = e; least = least },
  )
  | yes more ↦
      let next = double p f e in
      let (c, found, rounded) =
        pow2_loop_lem f v (p * 2) next (omega arith) (inr (omega arith)) small in
      (c, round_more (suc f) v p more (omega (arith, no_overflow (p * 2) f next)) ∙ found, rounded)
]

-- For a size up to 2 ^ 63 the loop ends, within its 64-bit range, at the least power of two that is
-- at least a page and holds the size.
pub round_pow2_lem : (v : ℕ) → v ≤ 2 ^ 63 → (c : ℕ) × (round_pow2 v ≡ some c) × IsRounded v c
unfolding round_pow2
round_pow2_lem v small = pow2_loop_lem 51 v 4096 refl (omega arith) (inl refl) small

pow2_zero : (fuel v : ℕ) → 0 < v → pow2_loop fuel v 0 ≡ none
unfolding pow2_loop
pow2_zero zero v h = refl
pow2_zero (suc fuel) v h = rw (lt→ltb 0 v h) (pow2_zero fuel v h)

pow2_beyond : (fuel f v p : ℕ) → p * 2 ^ f ≡ 2 ^ 63 → 2 ^ 63 < v → pow2_loop fuel v p ≡ none
unfolding pow2_loop
pow2_beyond zero f v p e h = refl
pow2_beyond (suc fuel) zero v p e h =
    rw (lt→ltb p v (omega arith)) (ap (pow2_loop fuel v) full ∙ pow2_zero fuel v (omega arith))
  where
    full : p * 2 % 2 ^ 64 ≡ 0
    full = omega arith
pow2_beyond (suc fuel) (suc f) v p e h =
    round_more fuel v p (omega (arith, no_overflow p (suc f) e))
      (omega (arith, no_overflow (p * 2) f (double p f e)))
    ∙ pow2_beyond fuel f v (p * 2) (double p f e) h

-- For a larger size the loop never ends: after 2 ^ 63 the shift gives 0, and stays there.
pub round_pow2_beyond : (fuel v : ℕ) → 2 ^ 63 < v → pow2_loop fuel v 4096 ≡ none
round_pow2_beyond fuel v h = pow2_beyond fuel 51 v 4096 refl h

-- What negotiation accepts, up to 2 ^ 30 bytes, gives a capacity that the ring's arithmetic needs.
pub IsRounded-IsCapacity : {v c : ℕ} → v ≤ 2 ^ 30 → IsRounded v c → IsCapacity c
IsRounded-IsCapacity {v} {c} small h = record {
  page = h.page;
  small = let l = h.least in omega arith;
  blocks = 2 ^ h.rest * 2;
  divides = let p = h.power in omega (arith, p);
}
