-- ===== src/Config/Items.antt =====
-- config.cpp: the comma-separated lists of --exchanges and --instruments.
use consolidated_book.Common.{
  ℕ, ◌≡◌, ◌≢◌, refl, ◌∙◌, sym, ap, List, [], ◌∷◌, ◌++◌, true, false, ◌==◌, Text, All, arith,
}
use mathlib.Core.List.{append-nil, append_assoc}
use consolidated_book.Config.{getlines}

-- The items of a list, with the delimiter between them.
abbrev pub join : ℕ → List Text → Text
join d [] = []
join d (x ∷ []) = x
join d (x ∷ y ∷ ys) = x ++ d ∷ join d (y ∷ ys)

-- An item has a character, and the delimiter is none of its characters.
abbrev pub IsItem : ℕ → Text → Type 0
IsItem d [] = ⊥
IsItem d (c ∷ s) = All (λ x. x ≢ d) (c ∷ s)

==_ne : (c d : ℕ) → c ≢ d → (c == d) ≡ false
==_ne c d n = ground arith

==_refl : (d : ℕ) → (d == d) ≡ true
==_refl d = ground arith

IsItem-All : (d : ℕ) (x : Text) → IsItem d x → All (λ c. c ≢ d) x
IsItem-All d [] h = absurd h
IsItem-All d (c ∷ s) h = h

getlines-end : (d : ℕ) (x : Text) → IsItem d x → getlines d x [] ≡ x ∷ []
unfolding getlines
getlines-end d [] h = absurd h
getlines-end d (c ∷ s) h = refl

getlines-walk :
    (d : ℕ) (line s rest : Text)
    → All (λ x. x ≢ d) s
    → getlines d line (s ++ rest) ≡ getlines d (line ++ s) rest
unfolding getlines
getlines-walk d line [] rest h = rw append-nil
getlines-walk d line (c ∷ s) rest h = rw (==_ne c d h.0) (
    getlines-walk d (line ++ c ∷ []) s rest h.1
    ∙ ap (λ l. getlines d l rest) (append_assoc line (c ∷ []) s))

-- Items without the delimiter, none of them empty, are read back from the text that joins them.
pub getlines-join : (d : ℕ) (xs : List Text) → All (IsItem d) xs → getlines d [] (join d xs) ≡ xs
unfolding getlines
getlines-join d [] h = refl
getlines-join d (x ∷ []) h =
    ap (getlines d []) (sym (append-nil x))
    ∙ getlines-walk d [] x [] (IsItem-All d x h.0)
    ∙ getlines-end d x h.0
getlines-join d (x ∷ y ∷ ys) h =
    getlines-walk d [] x (d ∷ join d (y ∷ ys)) (IsItem-All d x h.0)
    ∙ rw (==_refl d) (ap (λ r. x ∷ r) (getlines-join d (y ∷ ys) h.1))
