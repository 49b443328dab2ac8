-- ===== src/Types/Double.antt =====
-- `double` as the code uses it: `<`, `==`, `+` and `*`. IEEE 754 values are not modelled; the type
-- and its operations are a parameter, and IsOrdered holds what IEEE 754 says of the comparisons.
use consolidated_book.Common.{
  ℕ, ◌+◌, ◌*◌, ◌≡◌, ◌⊎◌, Bool, true, false, Option, none, some, arith, ltb, ◌==◌,
}

pub record Double (W : Type 0) : Type 0 where
  pub lt : W → W → Bool
  pub eq : W → W → Bool
  pub add : W → W → W
  pub mul : W → W → W

-- Every value but NaN is `==` itself.
abbrev pub IsNumber : {W : Type 0} ⦃d : Double W⦄ → W → Type 0
IsNumber ⦃d⦄ x = d.eq x x ≡ true

-- Comparisons order the numbers up to `==`, which is no identity (0.0 == -0.0), and every
-- comparison with a NaN is false.
pub record IsOrdered (W : Type 0) ⦃d : Double W⦄ : Type 0 where
  pub lt-number : (x y : W) → d.lt x y ≡ true → IsNumber x × IsNumber y
  pub eq-number : (x y : W) → d.eq x y ≡ true → IsNumber x × IsNumber y
  pub lt_irrefl : (x : W) → d.lt x x ≡ false
  pub lt_trans : (x y z : W) → d.lt x y ≡ true → d.lt y z ≡ true → d.lt x z ≡ true
  pub lt_total :
      (x y : W)
      → IsNumber x
      → IsNumber y
      → (d.lt x y ≡ true) ⊎ (d.eq x y ≡ true) ⊎ (d.lt y x ≡ true)
  pub eq_symm : (x y : W) → d.eq x y ≡ true → d.eq y x ≡ true
  pub eq-lt : (x y z : W) → d.eq x y ≡ true → d.lt y z ≡ true → d.lt x z ≡ true
  pub lt-eq : (x y z : W) → d.lt x y ≡ true → d.eq y z ≡ true → d.lt x z ≡ true

-- The laws can be met: whole amounts, with `none` for NaN.
abbrev pub Amount : Type 0
Amount = Option ℕ

abbrev pub compared : (ℕ → ℕ → Bool) → Amount → Amount → Bool
compared f (some a) (some b) = f a b
compared f _ _ = false

abbrev pub combined : (ℕ → ℕ → ℕ) → Amount → Amount → Amount
combined f (some a) (some b) = some (f a b)
combined f _ _ = none

instance abbrev pub amount_double : Double Amount
amount_double = record {
  lt = compared ltb;
  eq = compared ◌==◌;
  add = combined ◌+◌;
  mul = combined ◌*◌;
}

pub Amount-IsOrdered : IsOrdered Amount
Amount-IsOrdered = ground arith
