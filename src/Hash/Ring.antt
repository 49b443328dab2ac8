-- ===== src/Hash/Ring.antt =====
-- hash_manager.cpp: what the ring buffer, the set and the counter hold, against the list `recent` of
-- the new hashes so far, the last one first.
use native.Mathlib.Nat.{mod-eq_of_lt, mod_self}
use consolidated_book.Common.{
  ℕ, zero, suc, ◌+◌, ◌-◌, ◌%◌, ◌≤◌, ◌<◌, ◌≡◌, ◌≢◌, refl, ◌∙◌, ap, subst, ◌⊎◌, inl, inr, List, [],
  ◌∷◌, true, false, ltb, leb, if◌then◌else◌, length, set, get_elem?, some, arith, Bool-cases, not,
  length-set, get_elem?-set_self, get_elem?-set_ne, dec_lt,
}
use consolidated_book.Hash.{
  max_hash_size, HashIdManager, contains, insert, insert_all, check_back_up, update_back_up,
  update_hash,
}
use consolidated_book.Hash.Memory.{
  contains-insert_all, length-insert_all, contains-get_elem?, contains-set,
}

-- The slot that was written `d` new hashes ago, when slot `i` is the last one written.
abbrev pub slot : ℕ → ℕ → ℕ → ℕ
slot n i d = if leb d i then i - d else i + n - d

pub bump : ℕ → ℕ → ℕ
bump n i = if ltb (i + 1) n then i + 1 else 0

next_index : (n i : ℕ) → i < n → (i + 1) % n ≡ bump n i
unfolding bump
next_index n i h = elim (dec_lt (i + 1) n) [
  | yes p ↦ ground (arith, mod-eq_of_lt p)
  | no p ↦ let e : i + 1 ≡ n = omega arith in rw e (ground (arith, mod_self n))
]

bump-lt : (n i : ℕ) → i < n → bump n i < n
unfolding bump
bump-lt n i h = ground arith

-- After a write the older entries keep their slots, which the write does not touch.
slot-bump :
    (n i d : ℕ)
    → i < n
    → suc d < n
    → (slot n (bump n i) (suc d) ≡ slot n i d) × (bump n i ≢ slot n i d)
unfolding bump
slot-bump n i d h k = ground arith

slot-zero : (n i : ℕ) → slot n i 0 ≡ i
slot-zero n i = ground arith

pub record Inv (n : ℕ) (recent : List ℕ) (m : HashIdManager) : Type 0 where
  pub positive : 0 < n
  pub capacity : m.backup_arr_capacity ≡ n
  pub sized : length m.backup_arr ≡ n
  pub index : m.back_up_index < n
  pub counted : m.counter < max_hash_size
  pub bounded : length m.hash_memory ≤ n + m.counter
  pub ring :
      (d x : ℕ)
      → d < n
      → get_elem? recent d ≡ some x
      → get_elem? m.backup_arr (slot n m.back_up_index d) ≡ some x
  pub kept : (d x : ℕ) → d < n → get_elem? recent d ≡ some x → contains x m.hash_memory ≡ true
  pub stored : (x : ℕ) → contains x m.backup_arr ≡ true → (contains x recent ≡ true) ⊎ (x ≡ 0)
  pub known : (x : ℕ) → contains x m.hash_memory ≡ true → (contains x recent ≡ true) ⊎ (x ≡ 0)

module _ {n : ℕ} {recent : List ℕ} {m : HashIdManager} (v : Inv n recent m) (h : ℕ) where
  -- The state after UpdateBackUp, with the hash in the set.
  abbrev pub backed_up : HashIdManager
  backed_up = record m {
    hash_memory = h ∷ m.hash_memory;
    back_up_index = bump n m.back_up_index;
    backup_arr = set m.backup_arr (bump n m.back_up_index) h;
  }

  pub update_back_up-eq :
      update_back_up (record m { hash_memory = h ∷ m.hash_memory }) h ≡ some backed_up
  unfolding update_back_up
  update_back_up-eq =
      rw (v.capacity, next_index n m.back_up_index v.index)
        (ground (arith, v.sized, v.positive, bump-lt n m.back_up_index v.index))

  ring_next :
      (d x : ℕ)
      → d < n
      → get_elem? (h ∷ recent) d ≡ some x
      → get_elem? (set m.backup_arr (bump n m.back_up_index) h) (slot n (bump n m.back_up_index) d)
        ≡ some x
  ring_next zero x lt e = rw (slot-zero n (bump n m.back_up_index)) (
      get_elem?-set_self m.backup_arr (bump n m.back_up_index) h
        (omega (arith, bump-lt n m.back_up_index v.index, v.sized))
      ∙ e)
  ring_next (suc d) x lt e =
      let (same, apart) = slot-bump n m.back_up_index d v.index lt in
      rw same (get_elem?-set_ne m.backup_arr h apart ∙ v.ring d x (omega arith) e)

  stored_next :
      (x : ℕ) → contains x backed_up.backup_arr ≡ true → (contains x (h ∷ recent) ≡ true) ⊎ (x ≡ 0)
  unfolding contains
  stored_next x e =
      ground (arith, contains-set x h m.backup_arr (bump n m.back_up_index) e, v.stored x)

  -- While the counter is below its limit the set just grows.
  grown_Inv :
      m.counter + 1 < max_hash_size
      → Inv n (h ∷ recent) (record backed_up { counter = m.counter + 1 })
  unfolding contains
  grown_Inv lt = record {
    positive = v.positive;
    capacity = v.capacity;
    sized = length-set m.backup_arr (bump n m.back_up_index) h ∙ v.sized;
    index = bump-lt n m.back_up_index v.index;
    counted = lt;
    bounded = omega (arith, v.bounded);
    ring = ring_next;
    kept = kept_next;
    stored = stored_next;
    known = λ x e. ground (arith, v.known x);
  }
    where
      kept_next :
          (d x : ℕ)
          → d < n
          → get_elem? (h ∷ recent) d ≡ some x
          → contains x (h ∷ m.hash_memory) ≡ true
      kept_next zero x k e = ground arith
      kept_next (suc d) x k e = ground (arith, v.kept d x)

  -- At the limit the set is rebuilt from the ring.
  reset_Inv :
      Inv n
        (h ∷ recent)
        (record backed_up { hash_memory = insert_all backed_up.backup_arr []; counter = 0 })
  unfolding contains
  reset_Inv = record {
    positive = v.positive;
    capacity = v.capacity;
    sized = sized_next;
    index = bump-lt n m.back_up_index v.index;
    counted = omega arith;
    bounded = omega (arith, length-insert_all backed_up.backup_arr [], sized_next);
    ring = ring_next;
    kept = λ d x k e. ground (
      arith,
      contains-insert_all x backed_up.backup_arr [],
      contains-get_elem? x backed_up.backup_arr _ (ring_next d x k e),
    );
    stored = stored_next;
    known = λ x e. ground (arith, contains-insert_all x backed_up.backup_arr [], stored_next x);
  }
    where
      sized_next : length backed_up.backup_arr ≡ n
      sized_next = length-set m.backup_arr (bump n m.back_up_index) h ∙ v.sized

  pub check_back_up-Inv : Inv n (h ∷ recent) (check_back_up backed_up)
  unfolding check_back_up
  check_back_up-Inv = elim (dec_lt (m.counter + 1) max_hash_size) [
    | yes p ↦ subst (Inv n (h ∷ recent)) (ground arith) (grown_Inv p)
    | no p ↦ subst (Inv n (h ∷ recent)) (ground arith) reset_Inv
  ]

  -- In a state that satisfies the invariant UpdateHash never faults, its answer is whether the hash is missing from
  -- the set, and it keeps the invariant, a new hash being the last of the recent ones.
  pub update_hash-Inv :
      (m' : HashIdManager) × (update_hash m h ≡ some (m', not (contains h m.hash_memory)))
      × Inv n (if contains h m.hash_memory then recent else h ∷ recent) m'
  unfolding update_hash insert
  update_hash-Inv = elim (Bool-cases (contains h m.hash_memory)) [
    | inl old ↦ (m, rw old refl, rw old v)
    | inr new ↦
        (check_back_up backed_up, rw new (rw update_back_up-eq refl), rw new check_back_up-Inv)
  ]

  pub check_back_up-full :
      m.counter + 1 ≡ max_hash_size
      → check_back_up backed_up
        ≡ record backed_up { hash_memory = insert_all backed_up.backup_arr []; counter = 0 }
  unfolding check_back_up
  check_back_up-full full = ground (arith, full)

  pub contains-rebuilt : (x : ℕ) (xs : List ℕ) → contains x (insert_all xs []) ≡ contains x xs
  unfolding contains
  contains-rebuilt x xs = ground (arith, contains-insert_all x xs [])

  -- In a state that satisfies the invariant, a new hash that brings the counter to its limit is
  -- answered as new, the count starts again, and the set is left with exactly the hashes of the backup array, the new one among them.
  pub update_hash-reset :
      m.counter + 1 ≡ max_hash_size
      → contains h m.hash_memory ≡ false
      → (m' : HashIdManager) × (update_hash m h ≡ some (m', true))
        × (m'.counter ≡ 0)
        × (contains h m'.hash_memory ≡ true)
        × ((x : ℕ) → contains x m'.hash_memory ≡ contains x m'.backup_arr)
  unfolding update_hash insert
  update_hash-reset full new = (
    check_back_up backed_up,
    rw new (rw update_back_up-eq refl),
    ap (λ m'. m'.counter) (check_back_up-full full),
    check_back_up-Inv.kept 0 h v.positive refl,
    λ x. rw (check_back_up-full full) (contains-rebuilt x backed_up.backup_arr),
  )
