-- ===== src/Utilities/Objects.antt =====
-- utilities.h: which lines of a file ReadNextJsonObject reads.
use mathlib.Core.List.{append_assoc}
use consolidated_book.Common.{
  ℕ, ◌+◌, ◌-◌, ◌^◌, ◌≤◌, ◌<◌, ◌≡◌, ◌≢◌, refl, Bool-cases, inl, inr, ap, ◌∙◌, List, [], ◌∷◌, ◌++◌,
  Option, some, true, false, ◌==◌, if◌then◌else◌, Text, All, arith, Empty,
}
use consolidated_book.Common.Int.{ℤ, sub_ℕ, ◌+ℤ◌, ◌-ℤ◌}
use consolidated_book.Utilities.{
  increment, decrement, is_zero, count_braces, object_part, read_lines,
}

abbrev pub occurrences : ℕ → Text → ℕ
occurrences b [] = 0
occurrences b (c ∷ s) = (if c == b then 1 else 0) + occurrences b s

abbrev pub opens : Text → ℕ
opens = occurrences b'{'

abbrev pub closes : Text → ℕ
closes = occurrences b'}'

-- After `a` opening and `b` closing braces, these lines have as many of both at the end of the last line,
-- and at the end of no line before.
abbrev pub Balances : ℕ → ℕ → List Text → Type 0
Balances a b [] = Empty
Balances a b (l ∷ []) = a + opens l ≡ b + closes l
Balances a b (l ∷ k ∷ ls) =
    (a + opens l ≢ b + closes l) × Balances (a + opens l) (b + closes l) (k ∷ ls)

-- A count of braces that an int holds.
abbrev pub int_max : ℕ
int_max = 2 ^ 31 - 1

-- The braces of these lines, of either kind, are no more than an int holds.
abbrev pub total : (Text → ℕ) → List Text → ℕ
total f [] = 0
total f (l ∷ ls) = f l + total f ls

abbrev pub Fits : ℕ → ℕ → List Text → Type 0
Fits a b ls = (a + total opens ls ≤ int_max) × (b + total closes ls ≤ int_max)

abbrev pub NoBrace : Text → Type 0
NoBrace s = All (λ c. c ≢ b'{') s

abbrev pub unlines : List Text → Text
unlines [] = []
unlines (l ∷ ls) = l ++ 10 ∷ unlines ls

same_sub : {a a' b b' : ℕ} → a ≡ a' → b ≡ b' → sub_ℕ a b ≡ sub_ℕ a' b'
same_sub {a'} {b} e f = ap (λ n. sub_ℕ n b) e ∙ ap (sub_ℕ a') f

increment-sub_ℕ : (a b : ℕ) → a < int_max → increment (sub_ℕ a b) ≡ sub_ℕ (a + 1) b
unfolding ◌+ℤ◌
increment-sub_ℕ a b h = ground arith

decrement-sub_ℕ : (a b : ℕ) → b < int_max → decrement (sub_ℕ a b) ≡ sub_ℕ a (b + 1)
unfolding ◌-ℤ◌
decrement-sub_ℕ a b h = ground arith

brace-sub_ℕ :
    (a b c : ℕ)
    → a + (if c == b'{' then 1 else 0) ≤ int_max
    → b + (if c == b'}' then 1 else 0) ≤ int_max
    → (if c == b'{'
        then increment (sub_ℕ a b)
        else if c == b'}'
        then decrement (sub_ℕ a b)
        else sub_ℕ a b)
      ≡ sub_ℕ (a + (if c == b'{' then 1 else 0)) (b + (if c == b'}' then 1 else 0))
brace-sub_ℕ a b c h k = elim (Bool-cases (c == b'{')) [
  | inl opening ↦
      let e : c ≡ b'{' = ground arith in
      rw e (increment-sub_ℕ a b (ground arith) ∙ same_sub refl (omega arith))
  | inr other ↦ elim (Bool-cases (c == b'}')) [
    | inl closing ↦
        let e : c ≡ b'}' = ground arith in
        rw e (decrement-sub_ℕ a b (ground arith) ∙ same_sub (omega arith) refl)
    | inr neither ↦ rw (other, neither) (same_sub (omega arith) (omega arith))
  ]
]

count_braces-sub_ℕ :
    (a b : ℕ) (line : Text)
    → a + opens line ≤ int_max
    → b + closes line ≤ int_max
    → count_braces (sub_ℕ a b) line ≡ sub_ℕ (a + opens line) (b + closes line)
unfolding count_braces
count_braces-sub_ℕ a b [] h k = same_sub (omega arith) (omega arith)
count_braces-sub_ℕ a b (c ∷ line) h k =
    ap (λ d. count_braces d line) (brace-sub_ℕ a b c (omega arith) (omega arith))
    ∙ count_braces-sub_ℕ (a + (if c == b'{' then 1 else 0)) (b + (if c == b'}' then 1 else 0)) line
        (omega arith) (omega arith)
    ∙ same_sub (omega arith) (omega arith)

is_zero-sub_ℕ : (a b : ℕ) → is_zero (sub_ℕ a b) ≡ (a == b)
is_zero-sub_ℕ a b = ground arith

one_more : (json l r : Text) → (json ++ l ++ 10 ∷ []) ++ r ≡ json ++ (l ++ 10 ∷ r)
one_more json l r = append_assoc (json ++ l) (10 ∷ []) r ∙ append_assoc json l (10 ∷ r)

-- What follows a line of an object, by the depth behind it.
abbrev pub continued : Text → List Text → ℤ → Option Text × List Text
continued json ls depth = elim (is_zero depth) [
  | true ↦ (some json, ls)
  | false ↦ read_lines json depth true ls
]

pub read_lines-continued :
    (json : Text) (a b : ℕ) (l : Text) (ls : List Text)
    → a + opens l ≤ int_max
    → b + closes l ≤ int_max
    → read_lines json (sub_ℕ a b) true (l ∷ ls)
      ≡ continued (json ++ l ++ 10 ∷ []) ls (sub_ℕ (a + opens l) (b + closes l))
unfolding read_lines object_part
read_lines-continued json a b l ls h k =
    ap (continued (json ++ l ++ 10 ∷ []) ls) (count_braces-sub_ℕ a b l h k)

continued_last :
    (json : Text) (ls : List Text) (a b : ℕ)
    → a ≡ b
    → continued json ls (sub_ℕ a b) ≡ (some json, ls)
continued_last json ls a b h =
    ap (λ t. elim t [ true ↦ (some json, ls) | false ↦ read_lines json (sub_ℕ a b) true ls ])
      {x = is_zero (sub_ℕ a b)} {y = true} (is_zero-sub_ℕ a b ∙ ground (arith, h))

pub continued_on :
    (json : Text) (ls : List Text) (a b : ℕ)
    → a ≢ b
    → continued json ls (sub_ℕ a b) ≡ read_lines json (sub_ℕ a b) true ls
continued_on json ls a b h =
    ap (λ t. elim t [ true ↦ (some json, ls) | false ↦ read_lines json (sub_ℕ a b) true ls ])
      {x = is_zero (sub_ℕ a b)} {y = false} (is_zero-sub_ℕ a b ∙ ground (arith, h))

pub read_lines-Balances :
    (json : Text) (a b : ℕ) (ls rest : List Text)
    → Balances a b ls
    → Fits a b ls
    → read_lines json (sub_ℕ a b) true (ls ++ rest) ≡ (some (json ++ unlines ls), rest)
read_lines-Balances json a b [] rest h k = elim h [ ]
read_lines-Balances json a b (l ∷ []) rest h k =
    read_lines-continued json a b l rest (omega (arith, k.0)) (omega (arith, k.1))
    ∙ continued_last (json ++ l ++ 10 ∷ []) rest (a + opens l) (b + closes l) h
    ∙ ap (λ t. (some t, rest)) (append_assoc json l (10 ∷ []))
read_lines-Balances json a b (l ∷ m ∷ ls) rest h k =
    read_lines-continued json a b l (m ∷ ls ++ rest) (omega (arith, k.0)) (omega (arith, k.1))
    ∙ continued_on (json ++ l ++ 10 ∷ []) (m ∷ ls ++ rest) (a + opens l) (b + closes l) h.0
    ∙ read_lines-Balances (json ++ l ++ 10 ∷ []) (a + opens l) (b + closes l) (m ∷ ls) rest h.1
        (omega (arith, k.0), omega (arith, k.1))
    ∙ ap (λ t. (some t, rest)) (one_more json l (unlines (m ∷ ls)))
