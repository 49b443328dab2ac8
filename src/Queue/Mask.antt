-- ===== src/Queue/Mask.antt =====
-- message_queue.h: which cell a position falls on, for a capacity that is a power of two.
use Prim.Native.Nat.{bit_and, min, digits, bit_and-bitwise}
use native.Mathlib.Nat.{
  two-pow-succ, zero-mod, mod-eq_of_lt, div-add-mod, mod-lt, mul-add-mod_self_left,
}
use consolidated_book.Common.{
  ℕ, zero, suc, ◌+◌, ◌-◌, ◌*◌, ◌/◌, ◌%◌, ◌^◌, ◌≤◌, ◌<◌, ◌≡◌, ◌∙◌, ap, sym, arith,
}

pub pow_pos : (k : ℕ) → 0 < 2 ^ k
pow_pos zero = omega arith
pow_pos (suc k) = omega (arith, two-pow-succ k, pow_pos k)

halve-mod : (p a : ℕ) → 0 < p → a % (p + p) ≡ a / 2 % p * 2 + a % 2
halve-mod p a h =
    let q = a / 2 / p in
    let r = a / 2 % p * 2 + a % 2 in
    let small : r < p + p = omega (arith, mod-lt (a / 2) h) in
    let whole : a ≡ (p + p) * q + r =
      omega (arith, ap (λ (t : ℕ). t + t) (div-add-mod (a / 2) p)) in
    ap (λ t. t % (p + p)) whole ∙ mul-add-mod_self_left (p + p) q r ∙ mod-eq_of_lt small

-- The digits of a number under a mask of `k` ones.
digits-mask : (r a k : ℕ) → a ≤ r → digits (λ c. 0) min r a (2 ^ k - 1) ≡ a % 2 ^ k
digits-mask zero zero k h = sym (zero-mod (2 ^ k))
digits-mask zero (suc a) k h = absurd (omega arith)
digits-mask (suc r) zero k h = sym (zero-mod (2 ^ k))
digits-mask (suc r) (suc a) zero h = omega (arith, digits-mask r (suc a / 2) 0 (omega arith))
digits-mask (suc r) (suc a) (suc k) h =
    rw (two-pow-succ k, halve-mod (2 ^ k) (suc a) (pow_pos k))
      (low_digit (2 ^ k) (pow_pos k) (digits-mask r (suc a / 2) k (omega arith)))
  where
    low_digit :
        (p : ℕ)
        → 0 < p
        → digits (λ c. 0) min r (suc a / 2) (p - 1) ≡ suc a / 2 % p
        → digits (λ c. 0) min (suc r) (suc a) (p + p - 1) ≡ suc a / 2 % p * 2 + suc a % 2
    low_digit p pos e =
        let half : (p + p - 1) / 2 ≡ p - 1 = omega arith in
        let odd : (p + p - 1) % 2 ≡ 1 = omega arith in rw (half, odd) (omega (arith, e))

pub bit_and_mask : (a k : ℕ) → bit_and a (2 ^ k - 1) ≡ a % 2 ^ k
bit_and_mask a k = bit_and-bitwise a (2 ^ k - 1) ∙ digits-mask a a k (omega arith)
