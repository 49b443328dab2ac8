-- ===== src/Json/Print.antt =====
-- The text of a JSON document without spaces.
use consolidated_book.Common.{
  ℕ, zero, suc, ◌+◌, ◌/◌, ◌%◌, ◌≤◌, ◌≡◌, ◌≢◌, refl, ap, List, [], ◌∷◌, ◌++◌, true, false, Text,
  codes, map, All, take, drop, ◌==◌, ◌||◌, ltb, if◌then◌else◌, arith,
}
use consolidated_book.Standard.{to_string}
use consolidated_book.Config.Items.{join}
use consolidated_book.Json.Values.{Value, Items, Members, list_items}

abbrev hex_digit : ℕ → ℕ
hex_digit n = if ltb n 10 then 48 + n else 87 + n

-- A quote and a backslash have a backslash before them, and the control characters are numbers.
abbrev escaped : ℕ → Text
escaped c =
    if c == b'"' || c == 92
    then 92 ∷ c ∷ []
    else if ltb c 32
    then 92 ∷ b'u' ∷ b'0' ∷ b'0' ∷ hex_digit (c / 16) ∷ hex_digit (c % 16) ∷ []
    else c ∷ []

abbrev pub escape : Text → Text
escape [] = []
escape (c ∷ s) = escaped c ++ escape s

-- No character of the text is escaped.
abbrev pub IsPlain : Text → Type 0
IsPlain s = All (λ c. (c ≢ b'"') × (c ≢ 92) × (32 ≤ c)) s

pub escape-IsPlain : (s : Text) → IsPlain s → escape s ≡ s
escape-IsPlain [] h = refl
escape-IsPlain (c ∷ s) h = ground (arith, h.0, escape-IsPlain s h.1)

pub append-IsPlain : (s t : Text) → IsPlain s → IsPlain t → IsPlain (s ++ t)
append-IsPlain [] t h k = k
append-IsPlain (c ∷ s) t h k = (h.0, append-IsPlain s t h.1 k)

pub take-IsPlain : (n : ℕ) (s : Text) → IsPlain s → IsPlain (take n s)
take-IsPlain zero s h = tt
take-IsPlain (suc n) [] h = tt
take-IsPlain (suc n) (c ∷ s) h = (h.0, take-IsPlain n s h.1)

pub drop-IsPlain : (n : ℕ) (s : Text) → IsPlain s → IsPlain (drop n s)
drop-IsPlain zero s h = h
drop-IsPlain (suc n) [] h = tt
drop-IsPlain (suc n) (c ∷ s) h = drop-IsPlain n s h.1

abbrev pub quoted : Text → Text
quoted s = codes "\"" ++ escape s ++ codes "\""

unfoldable mutual
  pub print : Value → Text
  print (Value.string s) = quoted s
  print (Value.number n) = to_string n
  print (Value.boolean true) = codes "true"
  print (Value.boolean false) = codes "false"
  print (Value.array vs) = codes "[" ++ print_items vs ++ codes "]"
  print (Value.object ms) = codes "{" ++ print_members ms ++ codes "}"

  pub print_items : Items → Text
  print_items Items.no_items = []
  print_items (Items.item v Items.no_items) = print v
  print_items (Items.item v (Items.item w vs)) = print v ++ b',' ∷ print_items (Items.item w vs)

  pub print_members : Members → Text
  print_members Members.no_members = []
  print_members (Members.member k v Members.no_members) = quoted k ++ b':' ∷ print v
  print_members (Members.member k v (Members.member l w ms)) =
      quoted k ++ b':' ∷ (print v ++ b',' ∷ print_members (Members.member l w ms))

pub print_items-join :
    (f : Text → Value) (xs : List Text)
    → print_items (list_items (map f xs)) ≡ join b',' (map (λ x. print (f x)) xs)
unfolding print print_items print_members
print_items-join f [] = refl
print_items-join f (x ∷ []) = refl
print_items-join f (x ∷ y ∷ xs) = ap (λ r. print (f x) ++ b',' ∷ r) (print_items-join f (y ∷ xs))
