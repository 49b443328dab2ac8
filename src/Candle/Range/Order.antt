-- ===== src/Candle/Range/Order.antt =====
-- The order of the numbers among the values of a `double`.
use consolidated_book.Common.{◌≡◌, ◌⊎◌, true, false, arith}
use consolidated_book.Types.Double.{Double, IsNumber, IsOrdered}
use consolidated_book.Candle.Manager.{max_double, min_double}

abbrev pub IsAtLeast : {W : Type 0} ⦃d : Double W⦄ → W → W → Type 0
IsAtLeast ⦃d⦄ x y = IsNumber x × IsNumber y × (d.lt x y ≡ false)

module _ {W : Type 0} ⦃d : Double W⦄ (o : IsOrdered W) where
  open o use {lt-number, eq-number, lt_irrefl, lt_trans, lt_total, eq_symm, eq-lt, lt-eq}

  pub ge_refl : (x : W) → IsNumber x → IsAtLeast x x
  ge_refl x h = (h, h, lt_irrefl x)

  pub ge_trans : (x y z : W) → IsAtLeast x y → IsAtLeast y z → IsAtLeast x z
  ge_trans x y z h k =
      ground (arith, lt_total x y h.0 h.1, eq_symm x y, eq-lt y x z, lt_trans y x z)

  pub ge_of_lt : (x y : W) → d.lt x y ≡ true → IsAtLeast y x
  ge_of_lt x y h = ground (arith, lt-number x y h, lt_trans x y x h, lt_irrefl x)

  pub ge_of_eq : (x y : W) → d.eq x y ≡ true → IsAtLeast x y
  ge_of_eq x y h = ground (arith, eq-number x y h, lt-eq x y x, eq_symm x y h, lt_irrefl x)

  pub max_bounds :
      (a b : W)
      → IsNumber a
      → IsNumber b
      → IsAtLeast (max_double a b) a
        × IsAtLeast (max_double a b) b
        × ((max_double a b ≡ a) ⊎ (max_double a b ≡ b))
  max_bounds a b h k = ground (arith, ge_refl a h, ge_refl b k, ge_of_lt a b)

  pub min_bounds :
      (a b : W)
      → IsNumber a
      → IsNumber b
      → IsAtLeast a (min_double a b)
        × IsAtLeast b (min_double a b)
        × ((min_double a b ≡ a) ⊎ (min_double a b ≡ b))
  min_bounds a b h k = ground (arith, ge_refl a h, ge_refl b k, ge_of_lt b a)
