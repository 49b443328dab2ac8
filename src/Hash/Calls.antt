-- ===== src/Hash/Calls.antt =====
-- hash_manager.cpp: a HashIDManager under any sequence of calls of Init and UpdateHash, where Init may be
-- called again with another number of connections.
use consolidated_book.Common.{
  ℕ, ◌+◌, ◌-◌, ◌%◌, ◌≤◌, ◌<◌, ◌≡◌, refl, ◌∙◌, List, [], ◌∷◌, ◌++◌, Option, none, some, Bool, true,
  false, length, take, length-take, replicate, length-replicate, length-append, set, length-set,
  All, arith, inl, inr, Bool-cases,
}
use consolidated_book.Hash.{
  max_hash_size, HashIdManager, hash_id_manager, contains, insert, check_back_up, update_back_up,
  resize, memset_zero, init, update_hash,
}
use native.Mathlib.Nat.{mod-lt}
use consolidated_book.Hash.Memory.{length-insert_all}

pub data Call : Type 0 where
  init_with : ℕ → Call  -- Init
  update_with : ℕ → Call  -- UpdateHash

-- A call, with the answer of UpdateHash.
unfoldable pub call : HashIdManager → Call → Option (HashIdManager × List Bool)
call m (Call.init_with n) = some (init m n, [])
call m (Call.update_with h) = elim (update_hash m h) [
  | none ↦ none
  | some (m', is_new) ↦ some (m', is_new ∷ [])
]

unfoldable pub calls : HashIdManager → List Call → Option (HashIdManager × List Bool)
calls m [] = some (m, [])
calls m (c ∷ cs) = elim (call m c) [
  | none ↦ none
  | some (m', now) ↦ elim (calls m' cs) [
    | none ↦ none
    | some (m'', later) ↦ some (m'', now ++ later)
  ]
]

-- Init is called for at least one connection, and for at most `most`.
abbrev pub IsWithin : ℕ → Call → Type 0
IsWithin most (Call.init_with n) = (0 < n) × (n ≤ most)
IsWithin most (Call.update_with h) = Unit

pub record IsSized (most : ℕ) (m : HashIdManager) : Type 0 where
  pub positive : 0 < m.backup_arr_capacity
  pub fits : m.backup_arr_capacity ≤ most
  pub sized : length m.backup_arr ≡ m.backup_arr_capacity
  pub counted : m.counter < max_hash_size
  pub bounded : length m.hash_memory ≤ m.counter + most

length-memset : (b : ℕ) (xs : List ℕ) → length (memset_zero b xs) ≡ length xs
unfolding memset_zero
length-memset b [] = refl
length-memset b (x ∷ xs) = omega (arith, length-memset (b - 8) xs)

length-resize : (n : ℕ) (xs : List ℕ) → length (resize n xs) ≡ n
unfolding resize
length-resize n xs = omega (
  arith,
  length-append (take n xs) (replicate (n - length xs) 0),
  length-take n xs,
  length-replicate {A = ℕ} (n - length xs) 0,
)

-- What does not depend on the ring: Init may come first or again.
init-IsSized :
    (most n : ℕ) (m : HashIdManager)
    → 0 < n
    → n ≤ most
    → m.counter < max_hash_size
    → length m.hash_memory ≤ m.counter + most
    → IsSized most (init m n)
unfolding init
init-IsSized most n m lo hi counted bounded = record {
  positive = lo;
  fits = hi;
  sized = length-memset n (resize n m.backup_arr) ∙ length-resize n m.backup_arr;
  counted = counted;
  bounded = bounded;
}

module _ (most h : ℕ) (m : HashIdManager) (v : IsSized most m) where
  -- With the hash in the set and in the next slot of the ring.
  abbrev written : HashIdManager
  written = record m {
    hash_memory = h ∷ m.hash_memory;
    back_up_index = (m.back_up_index + 1) % m.backup_arr_capacity;
    backup_arr = set m.backup_arr ((m.back_up_index + 1) % m.backup_arr_capacity) h;
  }

  update_back_up-written :
      update_back_up (record m { hash_memory = h ∷ m.hash_memory }) h ≡ some written
  unfolding update_back_up
  update_back_up-written =
      let slot : (m.back_up_index + 1) % m.backup_arr_capacity < m.backup_arr_capacity =
        mod-lt (m.back_up_index + 1) v.positive in
      ground (arith, slot)

  check_back_up-IsSized : IsSized most (check_back_up written)
  unfolding check_back_up
  check_back_up-IsSized =
      let kept = length-set m.backup_arr ((m.back_up_index + 1) % m.backup_arr_capacity) h in
      let back = length-insert_all written.backup_arr [] in ground (arith, kept, back)

  update_hash-IsSized :
      (m' : HashIdManager) × (b : Bool) × (update_hash m h ≡ some (m', b)) × IsSized most m'
  unfolding update_hash insert
  update_hash-IsSized = elim (Bool-cases (contains h m.hash_memory)) [
    | inl old ↦ (m, false, ground (arith, old), v)
    | inr new ↦ (
      check_back_up written,
      true,
      rw new (rw update_back_up-written refl),
      check_back_up-IsSized,
    )
  ]

calls_step :
    (m m1 m' : HashIdManager) (c : Call) (cs : List Call) (now later : List Bool)
    → call m c ≡ some (m1, now)
    → calls m1 cs ≡ some (m', later)
    → calls m (c ∷ cs) ≡ some (m', now ++ later)
unfolding calls
calls_step m m1 m' c cs now later one rest = ground (arith, one, rest)

call-update :
    (m m' : HashIdManager) (h : ℕ) (b : Bool)
    → update_hash m h ≡ some (m', b)
    → call m (Call.update_with h) ≡ some (m', b ∷ [])
unfolding call
call-update m m' h b one = ground (arith, one)

calls-IsSized :
    (most : ℕ) (m : HashIdManager) (cs : List Call)
    → IsSized most m
    → All (IsWithin most) cs
    → (m' : HashIdManager) × (answers : List Bool) × (calls m cs ≡ some (m', answers))
      × IsSized most m'
unfolding calls call
calls-IsSized most m [] v within = (m, [], refl, v)
calls-IsSized most m (Call.init_with n ∷ cs) v within =
    let (m', answers, rest, v') =
      calls-IsSized most (init m n) cs
        (init-IsSized most n m within.0.0 within.0.1 v.counted v.bounded) within.1 in
    (m', answers, calls_step m (init m n) m' (Call.init_with n) cs [] answers refl rest, v')
calls-IsSized most m (Call.update_with h ∷ cs) v within =
    let (m1, b, one, v1) = update_hash-IsSized most h m v in
    let (m', answers, rest, v') = calls-IsSized most m1 cs v1 within.1 in
    (
      m',
      b ∷ answers,
      calls_step m m1 m' (Call.update_with h) cs (b ∷ []) answers (call-update m m1 h b one) rest,
      v',
    )

-- From a new manager, an Init and then any calls of UpdateHash and of Init again, each Init for at least
-- one connection and at most so many: no call divides by zero or writes past the array, the array has
-- as many elements as its capacity, the counter stays below MAX_HASH_SIZE, and the set holds fewer than
-- MAX_HASH_SIZE hashes and so many.
pub calls-total :
    (most n : ℕ) (cs : List Call)
    → 0 < n
    → n ≤ most
    → All (IsWithin most) cs
    → (m : HashIdManager) × (answers : List Bool) × (calls hash_id_manager (Call.init_with n ∷ cs)
        ≡ some (m, answers))
      × (length m.backup_arr ≡ m.backup_arr_capacity)
      × (m.counter < max_hash_size)
      × (length m.hash_memory < max_hash_size + most)
unfolding calls call hash_id_manager
calls-total most n cs lo hi within =
    let (m, answers, done, v) =
      calls-IsSized most (init hash_id_manager n) cs
        (init-IsSized most n hash_id_manager lo hi (omega arith) (omega arith)) within in
    (
      m,
      answers,
      calls_step hash_id_manager (init hash_id_manager n) m (Call.init_with n) cs [] answers refl
          done,
      v.sized,
      v.counted,
      omega (arith, v.bounded, v.counted),
    )
