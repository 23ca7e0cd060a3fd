-- ===== src/Double.antt =====
-- What the code does with a `double`. The type is a parameter: its operations are those of the C
-- library's floating point, and the laws that a theorem needs are hypotheses of their own.
pub mod Scaled
use adaptipc.Base.{ℕ, ◌≡◌, Bool, true, ◌⊎◌}

-- `num n d` is the constant or conversion n / d, and `to_size` the cast to `size_t`.
pub record Double {ℓ} (D : Type ℓ) : Type ℓ where
  pub num : ℕ → ℕ → D
  pub add : D → D → D
  pub sub : D → D → D
  pub mul : D → D → D
  pub div : D → D → D
  pub minus_one : D
  pub lt : D → D → Bool
  pub le : D → D → Bool
  pub fabs : D → D
  pub is_finite : D → Bool
  pub to_size : D → ℕ

infixl 65 ◌⊕◌ ◌⊖◌
infixl 70 ◌⊗◌ ◌⊘◌
infix 50 ◌≺◌ ◌≼◌
abbrev pub ◌⊕◌ {ℓ} : {D : Type ℓ} ⦃d : Double D⦄ → D → D → D
◌⊕◌ ⦃d⦄ = d.add

abbrev pub ◌⊖◌ {ℓ} : {D : Type ℓ} ⦃d : Double D⦄ → D → D → D
◌⊖◌ ⦃d⦄ = d.sub

abbrev pub ◌⊗◌ {ℓ} : {D : Type ℓ} ⦃d : Double D⦄ → D → D → D
◌⊗◌ ⦃d⦄ = d.mul

abbrev pub ◌⊘◌ {ℓ} : {D : Type ℓ} ⦃d : Double D⦄ → D → D → D
◌⊘◌ ⦃d⦄ = d.div

-- `x < y` and `x <= y`; `x > y` is `y < x`, also where one of them is NaN.
abbrev pub ◌≺◌ {ℓ} : {D : Type ℓ} ⦃d : Double D⦄ → D → D → Bool
◌≺◌ ⦃d⦄ = d.lt

abbrev pub ◌≼◌ {ℓ} : {D : Type ℓ} ⦃d : Double D⦄ → D → D → Bool
◌≼◌ ⦃d⦄ = d.le

-- `(double) n`.
abbrev pub real {ℓ} : {D : Type ℓ} ⦃d : Double D⦄ → ℕ → D
real ⦃d⦄ n = d.num n 1
