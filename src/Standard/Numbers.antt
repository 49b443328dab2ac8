-- ===== src/Standard/Numbers.antt =====
-- std::stoi and std::stoll on decimal digits.
use mathlib.Core.List.{foldl}
use consolidated_book.Common.{
  ℕ, zero, suc, inl, inr, ◌≤◌, ltb, ◌/◌, ◌%◌, ◌+◌, ◌-◌, ◌*◌, ◌^◌, ◌<◌, ◌≡◌, refl, ◌∙◌, ap, sym,
  Bool-cases, [], ◌∷◌, Bool, true, false, Option, none, some, Text, All, arith,
}
use consolidated_book.Common.Int.{ℤ, pos, negsuc, pos_part, neg_part}
use consolidated_book.Standard.{
  ok, is_digit, skip_space, read_digits, in_int, read_int, stoi, stoll, write_digits, to_string,
}

-- The number that decimal digits stand for, read from the left.
abbrev pub decimal : Text → ℕ
decimal = foldl (λ n c. n * 10 + (c - 48)) 0

read_digits-decimal :
    (acc : ℕ) (s : Text)
    → All (λ c. is_digit c ≡ true) s
    → read_digits acc true s ≡ some (foldl (λ n c. n * 10 + (c - 48)) acc s)
unfolding read_digits
read_digits-decimal acc [] h = refl
read_digits-decimal acc (c ∷ s) h = rw h.0 (read_digits-decimal (acc * 10 + (c - 48)) s h.1)

skip_space-digit : (c : ℕ) (s : Text) → is_digit c ≡ true → skip_space (c ∷ s) ≡ c ∷ s
unfolding skip_space
skip_space-digit c s h = ground arith

module _ (limit : ℕ) where
  -- From -limit to limit - 1.
  abbrev pub Within : ℤ → Type 0
  Within n = (pos_part n < limit) × (neg_part n ≤ limit)

  in_int-range :
      (negative : Bool) (v : Option ℕ) (n : ℤ)
      → in_int limit negative v ≡ ok n
      → 0 < limit
      → Within n
  unfolding in_int
  in_int-range negative none n h lt = cc
  in_int-range true (some m) n h lt = ground arith
  in_int-range false (some m) n h lt = ground arith

  pub read_int-range : (s : Text) (n : ℤ) → read_int limit s ≡ ok n → 0 < limit → Within n
  unfolding read_int
  read_int-range [] n h lt = cc
  read_int-range (c ∷ s) n h lt = ground (
    arith,
    in_int-range true (read_digits 0 false s) n,
    in_int-range false (read_digits 0 false s) n,
    in_int-range false (read_digits 0 false (c ∷ s)) n,
  )

  read_int-digits :
      (c : ℕ) (s : Text)
      → is_digit c ≡ true
      → read_int limit (c ∷ s) ≡ in_int limit false (read_digits 0 false (c ∷ s))
  unfolding read_int
  read_int-digits c s h = ground arith

  in_int-small : (n : ℕ) → n < limit → in_int limit false (some n) ≡ ok (pos n)
  unfolding in_int
  in_int-small n h = ground arith

  in_int-negative : (n : ℕ) → suc n ≤ limit → in_int limit true (some (suc n)) ≡ ok (negsuc n)
  unfolding in_int
  in_int-negative n h = ground arith

  read_int-skip :
      (c : ℕ) (s : Text)
      → is_digit c ≡ true
      → read_int limit (skip_space (c ∷ s)) ≡ in_int limit false (read_digits 0 false (c ∷ s))
  read_int-skip c s h = ap (read_int limit) (skip_space-digit c s h) ∙ read_int-digits c s h

read_digits-first :
    (c : ℕ) (s : Text)
    → is_digit c ≡ true
    → read_digits 0 false (c ∷ s) ≡ read_digits (0 * 10 + (c - 48)) true s
unfolding read_digits
read_digits-first c s h = rw h refl

-- A non-empty text of decimal digits that stand for a number below 2^31 is read as that number.
pub stoi-decimal :
    (c : ℕ) (s : Text)
    → All (λ x. is_digit x ≡ true) (c ∷ s)
    → decimal (c ∷ s) < 2 ^ 31
    → stoi (c ∷ s) ≡ ok (pos (decimal (c ∷ s)))
unfolding stoi
stoi-decimal c s h lt =
    read_int-skip (2 ^ 31) c s h.0
    ∙ ap (in_int (2 ^ 31) false)
        (read_digits-first c s h.0 ∙ read_digits-decimal (0 * 10 + (c - 48)) s h.1)
    ∙ in_int-small (2 ^ 31) (decimal (c ∷ s)) lt

digit_of : (n : ℕ) → n < 10 → (is_digit (48 + n) ≡ true) × (48 + n - 48 ≡ n)
digit_of n h = ground arith

read_digit :
    (acc d : ℕ) (seen : Bool) (rest : Text)
    → d < 10
    → read_digits acc seen ((48 + d) ∷ rest) ≡ read_digits (acc * 10 + d) true rest
unfolding read_digits
read_digit acc d seen rest h =
    rw (digit_of d h).0 (ap (λ k. read_digits (acc * 10 + k) true rest) (digit_of d h).1)

-- What write_digits writes begins with a digit and is read back.
write_digits-read :
    (fuel n : ℕ) (rest : Text)
    → n < fuel
    → read_digits 0 false (write_digits fuel n rest) ≡ read_digits n true rest
unfolding write_digits
write_digits-read zero n rest h = absurd (omega arith)
write_digits-read (suc fuel) n rest h = elim (Bool-cases (ltb n 10)) [
  | inl e ↦
      rw e
        (read_digit 0 n false rest (ground arith) ∙ ap (λ k. read_digits k true rest) (omega arith))
  | inr e ↦ rw e (
      write_digits-read fuel (n / 10) ((48 + n % 10) ∷ rest) (ground arith)
      ∙ read_digit (n / 10) (n % 10) true rest (omega arith)
      ∙ ap (λ k. read_digits k true rest) (omega arith))
]

write_digits-first :
    (fuel n : ℕ) (rest : Text)
    → n < fuel
    → (c : ℕ) × (s : Text) × (write_digits fuel n rest ≡ c ∷ s) × (is_digit c ≡ true)
unfolding write_digits
write_digits-first zero n rest h = absurd (omega arith)
write_digits-first (suc fuel) n rest h = elim (Bool-cases (ltb n 10)) [
  | inl e ↦ (48 + n, rest, rw e refl, (digit_of n (ground arith)).0)
  | inr e ↦ rw e (write_digits-first fuel (n / 10) ((48 + n % 10) ∷ rest) (ground arith))
]

-- stoll reads back what to_string writes, for every integer of 64 bits.
pub stoll-to_string : (n : ℤ) → Within (2 ^ 63) n → stoll (to_string n) ≡ ok n
unfolding stoll to_string read_int skip_space read_digits
stoll-to_string (pos n) h =
    let (c, s, e, digit) = write_digits-first (suc n) n [] (omega arith) in
    ap stoll e
    ∙ read_int-skip (2 ^ 63) c s digit
    ∙ ap (in_int (2 ^ 63) false)
        (ap (read_digits 0 false) (sym e) ∙ write_digits-read (suc n) n [] (omega arith))
    ∙ in_int-small (2 ^ 63) n h.0
stoll-to_string (negsuc n) h =
    ap (in_int (2 ^ 63) true) (write_digits-read (suc (suc n)) (suc n) [] (omega arith))
    ∙ in_int-negative (2 ^ 63) n h.1
