-- ===== src/Standard.antt =====
-- The functions of the C++ standard library that read and write integers, as the standard describes
-- them, and its exceptions as values. The locale is "C".
pub mod Numbers
pub mod Tests
use consolidated_book.Common.{
  ℕ, ◌≡◌, refl, ◌⊎◌, inl, inr, zero, suc, ◌+◌, ◌-◌, ◌*◌, ◌/◌, ◌%◌, ◌^◌, List, [], ◌∷◌, ◌++◌, Option,
  none, some, Bool, true, false, ◌==◌, ltb, leb, ◌&&◌, ◌||◌, if◌then◌else◌, Text, codes,
}
use consolidated_book.Common.Int.{ℤ, pos, negsuc}

-- std::invalid_argument and std::out_of_range.
pub data Exception : Type 0 where
  invalid_argument out_of_range : Exception

pub data Result (A : Type 0) : Type 0 where
  ok : A → Result A
  err : Exception → Result A

infixl 5 ◌>>=◌
abbrev pub ◌>>=◌ : {A B : Type 0} → Result A → (A → Result B) → Result B
ok a >>= f = f a
err e >>= f = err e

pub Result-cases :
    {A : Type 0} (r : Result A) → ((a : A) × (r ≡ ok a)) ⊎ ((x : Exception) × (r ≡ err x))
Result-cases (ok a) = inl (a, refl)
Result-cases (err x) = inr (x, refl)

abbrev pub is_space : ℕ → Bool
is_space c = c == 32 || leb 9 c && leb c 13

abbrev pub is_digit : ℕ → Bool
is_digit c = leb 48 c && leb c 57

unfoldable pub skip_space : Text → Text
skip_space [] = []
skip_space (c ∷ s) = let rest = skip_space s in if is_space c then rest else c ∷ s

-- The value of the leading digits after `acc`; `none` where there is no digit at all.
unfoldable pub read_digits : ℕ → Bool → Text → Option ℕ
read_digits acc seen [] = if seen then some acc else none
read_digits acc seen (c ∷ s) =
    let rest = read_digits (acc * 10 + (c - 48)) true s in
    if is_digit c then rest else if seen then some acc else none

unfoldable pub in_int : ℕ → Bool → Option ℕ → Result ℤ
in_int limit negative none = err invalid_argument
in_int limit negative (some n) =
    if negative
    then if ltb limit n
      then err out_of_range
      else if n == 0
      then ok (pos 0)
      else ok (negsuc (n - 1))
    else if leb limit n
    then err out_of_range
    else ok (pos n)

unfoldable pub read_int : ℕ → Text → Result ℤ
read_int limit [] = err invalid_argument
read_int limit (c ∷ s) =
    if c == b'-'
    then in_int limit true (read_digits 0 false s)
    else if c == b'+'
    then in_int limit false (read_digits 0 false s)
    else in_int limit false (read_digits 0 false (c ∷ s))

-- std::stoi
unfoldable pub stoi : Text → Result ℤ
stoi s = read_int (2 ^ 31) (skip_space s)

-- std::stoll
unfoldable pub stoll : Text → Result ℤ
stoll s = read_int (2 ^ 63) (skip_space s)

-- The decimal digits of a number, in front of `rest`; the fuel is a bound on the number.
unfoldable pub write_digits : ℕ → ℕ → Text → Text
write_digits zero n rest = rest
write_digits (suc fuel) n rest =
    let more = write_digits fuel (n / 10) ((48 + n % 10) ∷ rest) in
    if ltb n 10 then (48 + n) ∷ rest else more

-- std::to_string
unfoldable pub to_string : ℤ → Text
to_string (pos n) = write_digits (suc n) n []
to_string (negsuc n) = b'-' ∷ write_digits (suc (suc n)) (suc n) []

-- duration_cast to milliseconds of a duration in ticks: towards zero.
unfoldable pub duration_cast_ms : ℕ → ℤ → ℤ
duration_cast_ms ticks_per_ms (pos n) = pos (n / ticks_per_ms)
duration_cast_ms ticks_per_ms (negsuc n) =
    let q = suc n / ticks_per_ms in if q == 0 then pos 0 else negsuc (q - 1)
