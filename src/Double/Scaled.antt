-- ===== src/Double/Scaled.antt =====
-- A concrete arithmetic that the theorems are tried on: signed whole millionths.
use adaptipc.Base.{ℕ, suc, ◌+◌, ◌-◌, ◌*◌, ◌/◌, true, ltb, leb, if◌then◌else◌}
use adaptipc.Double.{Double}

-- `minus n` is -(n + 1) millionths.
pub data Micro : Type 0 where
  plus : ℕ → Micro
  minus : ℕ → Micro

abbrev above : Micro → ℕ
above (plus n) = n
above (minus n) = 0

abbrev below : Micro → ℕ
below (plus n) = 0
below (minus n) = suc n

abbrev difference : ℕ → ℕ → Micro
difference a b = if leb b a then plus (a - b) else minus (b - a - 1)

abbrev scale : ℕ
scale = 1_000_000

abbrev quotient : Micro → Micro → Micro
quotient x (plus n) = difference (above x * scale / n) (below x * scale / n)
quotient x (minus n) = difference (below x * scale / suc n) (above x * scale / suc n)

instance abbrev pub micro_double : Double Micro
micro_double = record {
  num = λ n d. plus (n * scale / d);
  add = λ x y. difference (above x + above y) (below x + below y);
  sub = λ x y. difference (above x + below y) (below x + above y);
  mul = λ x y.
      difference ((above x * above y + below x * below y) / scale)
        ((above x * below y + below x * above y) / scale);
  div = quotient;
  minus_one = minus 999_999;
  lt = λ x y. ltb (above x + below y) (above y + below x);
  le = λ x y. leb (above x + below y) (above y + below x);
  fabs = λ x. plus (above x + below x);
  is_finite = λ x. true;
  to_size = λ x. above x / scale;
}
