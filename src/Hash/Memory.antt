-- ===== src/Hash/Memory.antt =====
-- hash_manager.cpp: membership in the hash set and in the backup array.
use consolidated_book.Common.{
  ℕ, zero, suc, ◌+◌, ◌≤◌, ◌≡◌, refl, ◌⊎◌, inl, inr, List, [], ◌∷◌, true, ◌==◌, ◌||◌, length, set,
  replicate, get_elem?, some, arith, ℕ_discrete, Bool-cases,
}
use consolidated_book.Hash.{contains, insert, insert_all}

pub contains-insert : (x h : ℕ) (m : List ℕ) → contains x (insert h m).0 ≡ (h == x || contains x m)
unfolding insert
contains-insert x h m = elim (Bool-cases (contains h m)) [
  | inl old ↦ rw old (elim (ℕ_discrete h x) [ yes e ↦ ground (arith, old) | no n ↦ ground arith ])
  | inr new ↦ rw new refl
]

pub contains-insert_all :
    (x : ℕ) (xs m : List ℕ) → contains x (insert_all xs m) ≡ (contains x xs || contains x m)
unfolding insert_all contains
contains-insert_all x [] m = refl
contains-insert_all x (y ∷ ys) m =
    ground (arith, contains-insert_all x ys (insert y m).0, contains-insert x y m)

pub length-insert : (h : ℕ) (m : List ℕ) → length (insert h m).0 ≤ suc (length m)
unfolding insert
length-insert h m = ground arith

pub length-insert_all : (xs m : List ℕ) → length (insert_all xs m) ≤ length xs + length m
unfolding insert_all
length-insert_all [] m = omega arith
length-insert_all (x ∷ xs) m = omega (arith, length-insert_all xs (insert x m).0, length-insert x m)

pub contains-get_elem? :
    (x : ℕ) (xs : List ℕ) (i : ℕ) → get_elem? xs i ≡ some x → contains x xs ≡ true
unfolding contains
contains-get_elem? x [] i h = cc
contains-get_elem? x (y ∷ ys) zero h = ground arith
contains-get_elem? x (y ∷ ys) (suc i) h = ground (arith, contains-get_elem? x ys i)

pub contains-set :
    (x h : ℕ) (xs : List ℕ) (i : ℕ)
    → contains x (set xs i h) ≡ true
    → (h ≡ x) ⊎ (contains x xs ≡ true)
unfolding contains
contains-set x h [] i e = cc
contains-set x h (y ∷ ys) zero e = ground arith
contains-set x h (y ∷ ys) (suc i) e = ground (arith, contains-set x h ys i)

pub contains-replicate : (x n : ℕ) → contains x (replicate n 0) ≡ true → x ≡ 0
unfolding contains
contains-replicate x zero e = cc
contains-replicate x (suc n) e = ground (arith, contains-replicate x n)
