-- ===== src/Queue/Cells.antt =====
-- message_queue.h: the cell of a position and the sign of diff, as the proofs use them.
use native.Mathlib.Nat.{
  div-add-mod, mod-lt, mul-add-mod_self_left, add-mod_right, pow-le-pow_right, mod-mod,
  mul-le-mul_left, mul-suc,
}
use mathlib.Core.Path.{ap₂}
use consolidated_book.Common.{
  ℕ, suc, ◌+◌, ◌-◌, ◌*◌, ◌/◌, ◌%◌, ◌^◌, ◌≤◌, ◌<◌, ◌≡◌, ◌⊎◌, inl, inr, ◌∙◌, sym, lt→ltb, arith,
  dec_lt,
}
use consolidated_book.Common.Int.{pos, negsuc, ◌-ℤ◌, sub_ℕ}
use consolidated_book.Queue.{cell_of, size_mod, diff}
use consolidated_book.Queue.Mask.{bit_and_mask, pow_pos}

module _ (c : ℕ) (positive : 0 < c) where
  same-mod-gap : (p q : ℕ) → p < q → p % c ≡ q % c → p + c ≤ q
  same-mod-gap p q lt e = elim (dec_lt (p / c) (q / c)) [
    | yes h ↦
        omega (arith, e, div-add-mod p c, div-add-mod q c, mul-le-mul_left c h, mul-suc c (p / c))
    | no h ↦
        let down : q / c ≤ p / c = omega arith in
        absurd (omega (arith, e, div-add-mod p c, div-add-mod q c, mul-le-mul_left c down))
  ]

  find-mod : (x t : ℕ) → (p : ℕ) × (t ≤ p) × (p < t + c) × (p % c ≡ x % c)
  find-mod x t = elim (dec_lt (x % c) (t % c)) [
    | yes h ↦ (t + (c + x % c - t % c), omega arith, omega (arith, mod-lt t positive), high h)
    | no h ↦ (t + (x % c - t % c), omega arith, omega (arith, mod-lt x positive), low h)
  ]
    where
      high : x % c < t % c → (t + (c + x % c - t % c)) % c ≡ x % c
      high h =
          let whole : t + (c + x % c - t % c) ≡ c * (t / c) + (x % c + c) =
            omega (arith, div-add-mod t c, h, mod-lt t positive) in
          rw whole
            (mul-add-mod_self_left c (t / c) (x % c + c) ∙ add-mod_right (x % c) c ∙ mod-mod x c)

      low : ¬ (x % c < t % c) → (t + (x % c - t % c)) % c ≡ x % c
      low h =
          let whole : t + (x % c - t % c) ≡ c * (t / c) + x % c =
            omega (arith, div-add-mod t c, h) in
          rw whole (mul-add-mod_self_left c (t / c) (x % c) ∙ mod-mod x c)

small-diff : (s p : ℕ) → s < 2 ^ 63 → p < 2 ^ 63 → diff s p ≡ sub_ℕ s p
unfolding diff ◌-ℤ◌
small-diff s p hs hp =
    rw (lt→ltb s (2 ^ 63) hs, lt→ltb p (2 ^ 63) hp) (ap₂ sub_ℕ (omega arith) (omega arith))

-- With positions below 2^63 the sign of diff compares them.
pub diff_cases :
    (s p : ℕ)
    → s < 2 ^ 63
    → p < 2 ^ 63
    → ((s ≡ p) × (diff s p ≡ pos 0))
      ⊎ ((s < p) × (n : ℕ) × (diff s p ≡ negsuc n))
      ⊎ ((p < s) × (n : ℕ) × (diff s p ≡ pos (suc n)))
diff_cases s p hs hp = elim (dec_lt s p) [
  | yes below ↦ inr (inl (below, p - s - 1, rw (small-diff s p hs hp) (ground arith)))
  | no nb ↦ elim (dec_lt p s) [
    | yes above ↦ inr (inr (above, s - p - 1, rw (small-diff s p hs hp) (ground arith)))
    | no na ↦ inl (omega arith, rw (small-diff s p hs hp) (ground arith))
  ]
]

-- A capacity of 2^k cells, k < 64.
module _ (k : ℕ) (small : k < 64) where
  abbrev pub capacity : ℕ
  capacity = 2 ^ k

  capacity-lt : capacity < size_mod
  capacity-lt =
      let bound : 2 ^ k ≤ 2 ^ 63 = pow-le-pow_right (omega arith) {i = k} {j = 63} (omega arith) in
      omega (arith, bound)

  pub cell-mod : (p : ℕ) → cell_of capacity p ≡ p % capacity
  unfolding cell_of
  cell-mod p =
      let mask : (capacity + size_mod - 1) % size_mod ≡ capacity - 1 =
        omega (arith, pow_pos k, capacity-lt) in
      rw mask (bit_and_mask p k)

  -- Two positions on one cell are at least the capacity apart.
  pub cell-gap : (p q : ℕ) → p < q → cell_of capacity p ≡ cell_of capacity q → p + capacity ≤ q
  cell-gap p q lt e = same-mod-gap capacity (pow_pos k) p q lt (sym (cell-mod p) ∙ e ∙ cell-mod q)

  -- Every window of `capacity` positions meets every cell.
  pub cell-find :
      (x t : ℕ) → (p : ℕ) × (t ≤ p) × (p < t + capacity) × (cell_of capacity p ≡ cell_of capacity x)
  cell-find x t =
      let (p, lo, hi, e) = find-mod capacity (pow_pos k) x t in
      (p, lo, hi, cell-mod p ∙ e ∙ sym (cell-mod x))

  pub cell-next : (p : ℕ) → cell_of capacity (p + capacity) ≡ cell_of capacity p
  cell-next p = cell-mod (p + capacity) ∙ add-mod_right p capacity ∙ sym (cell-mod p)
