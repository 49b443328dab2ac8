-- ===== src/Hash/Dedup.antt =====
-- hash_manager.cpp: what a client of UpdateHash can rely on after Init and any stream of messages.
use mathlib.Core.Option.{some-injective}
use consolidated_book.Common.{
  ℕ, zero, suc, ◌+◌, ◌-◌, ◌<◌, ◌≡◌, ◌≢◌, refl, ap, subst, ◌∙◌, ◌⊎◌, inl, inr, List, [], ◌∷◌, Bool,
  true, false, if◌then◌else◌, length, get_elem?, replicate, none, some, arith, sym, Option-cases,
  not, length-replicate,
}
use consolidated_book.Hash.{
  max_hash_size, HashIdManager, hash_id_manager, contains, insert, memset_zero, init,
  update_back_up, update_hash, update_hashes,
}
use consolidated_book.Hash.Memory.{contains-replicate}
use consolidated_book.Hash.Ring.{Inv, update_hash-Inv}

memset-replicate : (b n : ℕ) → memset_zero b (replicate n 0) ≡ replicate n 0
unfolding memset_zero
memset-replicate b zero = refl
memset-replicate b (suc n) = ground (arith, memset-replicate (b - 8) n)

init-arr : (n : ℕ) → (init hash_id_manager n).backup_arr ≡ replicate n 0
unfolding init hash_id_manager
init-arr zero = refl
init-arr (suc n) =
    let e : suc n - 0 ≡ suc n = omega arith in rw e (memset-replicate (suc n) (suc n))

pub init-Inv : (n : ℕ) → 0 < n → Inv n [] (init hash_id_manager n)
unfolding init hash_id_manager contains
init-Inv n h = record {
  positive = h;
  capacity = refl;
  sized = ap length (init-arr n) ∙ length-replicate n 0;
  index = h;
  counted = omega arith;
  bounded = omega arith;
  ring = λ d x k e. cc;
  kept = λ d x k e. cc;
  stored = λ x e. inr (contains-replicate x n (subst (λ xs. contains x xs ≡ true) (init-arr n) e));
  known = λ x e. cc;
}

length-answers :
    (hs : List ℕ) (m : HashIdManager) {m' : HashIdManager} {answers : List Bool}
    → update_hashes m hs ≡ some (m', answers)
    → length answers ≡ length hs
unfolding update_hashes
length-answers [] m e = ground arith
length-answers (h ∷ hs) m {m'} {answers} e = elim (Option-cases (update_hash m h)) [
  | inl none_one ↦ ground arith
  | inr ((m1, b), one) ↦ elim (Option-cases (update_hashes m1 hs)) [
    | inl none_rest ↦ ground arith
    | inr ((m2, bs), rest) ↦ ground (arith, length-answers hs m1 rest)
  ]
]

-- The new hashes of a stream, the last one first, in front of those before it.
abbrev pub recent_after : List ℕ → List ℕ → List Bool → List ℕ
recent_after recent [] answers = recent
recent_after recent (h ∷ hs) [] = recent
recent_after recent (h ∷ hs) (b ∷ bs) = recent_after (if b then h ∷ recent else recent) hs bs

pub update_hashes-Inv :
    (n : ℕ) (recent : List ℕ) (m : HashIdManager) (hs : List ℕ)
    → Inv n recent m
    → (m' : HashIdManager) × (answers : List Bool) × (update_hashes m hs ≡ some (m', answers))
      × Inv n (recent_after recent hs answers) m'
unfolding update_hashes
update_hashes-Inv n recent m [] v = (m, [], refl, v)
update_hashes-Inv n recent m (h ∷ hs) v =
    let is_new = not (contains h m.hash_memory) in
    let (m1, one, v1) = update_hash-Inv v h in
    let (m2, answers, rest, v2) =
      update_hashes-Inv n (if contains h m.hash_memory then recent else h ∷ recent) m1 hs v1 in
    (
      m2,
      is_new ∷ answers,
      ground (arith, one, rest),
      subst (λ r. Inv n (recent_after r hs answers) m2) (ground arith) v2,
    )

contains-recent_after :
    (x : ℕ) (recent hs : List ℕ) (answers : List Bool)
    → contains x (recent_after recent hs answers) ≡ true
    → (contains x recent ≡ true) ⊎ (contains x hs ≡ true)
unfolding contains
contains-recent_after x recent [] answers e = inl e
contains-recent_after x recent (h ∷ hs) [] e = inl e
contains-recent_after x recent (h ∷ hs) (b ∷ bs) e =
    ground (arith, contains-recent_after x (if b then h ∷ recent else recent) hs bs e)

seen :
    (m : HashIdManager) (x : ℕ)
    → contains x m.hash_memory ≡ true
    → update_hash m x ≡ some (m, false)
unfolding update_hash insert
seen m x e = ground arith

unseen :
    {n : ℕ} (hs : List ℕ) (answers : List Bool) {m : HashIdManager} (x : ℕ)
    → Inv n (recent_after [] hs answers) m
    → x ≢ 0
    → contains x hs ≡ false
    → contains x m.hash_memory ≡ false
unfolding contains
unseen hs answers x v nonzero fresh =
    ground (arith, v.known x, contains-recent_after x [] hs answers)

-- After Init for at least one connection, any stream of messages is answered without a fault, and the
-- set ends with fewer than n + MAX_HASH_SIZE hashes.
pub update_hashes-total :
    (n : ℕ) (hs : List ℕ)
    → 0 < n
    → (m : HashIdManager) × (answers : List Bool) × (update_hashes (init hash_id_manager n) hs
        ≡ some (m, answers))
      × (length answers ≡ length hs)
      × (length m.hash_memory < n + max_hash_size)
update_hashes-total n hs h =
    let (m, answers, done, v) = update_hashes-Inv n [] (init hash_id_manager n) hs (init-Inv n h) in
    (
      m,
      answers,
      done,
      length-answers hs (init hash_id_manager n) done,
      omega (arith, v.bounded, v.counted),
    )

module _ (n : ℕ) (hs : List ℕ) (h : 0 < n) {m : HashIdManager} {answers : List Bool}
    (ran : update_hashes (init hash_id_manager n) hs ≡ some (m, answers)) where
  ran-Inv : Inv n (recent_after [] hs answers) m
  ran-Inv =
      let (m', answers', done, v) =
        update_hashes-Inv n [] (init hash_id_manager n) hs (init-Inv n h) in
      subst (λ r. Inv n (recent_after [] hs r.1) r.0) (some-injective _ _ (sym done ∙ ran)) v

  -- After Init for n > 0 connections and any stream, each of the last n new hashes is answered as a
  -- duplicate and changes nothing, whatever resets of the set the stream has caused.
  pub update_hash-duplicate :
      (d x : ℕ)
      → d < n
      → get_elem? (recent_after [] hs answers) d ≡ some x
      → update_hash m x ≡ some (m, false)
  update_hash-duplicate d x k e = seen m x (ran-Inv.kept d x k e)

  -- After Init for n > 0 connections and any stream, a hash that is not 0 and not in the stream is
  -- answered as new.
  pub update_hash-fresh :
      (x : ℕ)
      → x ≢ 0
      → contains x hs ≡ false
      → (m' : HashIdManager) × (update_hash m x ≡ some (m', true))
  update_hash-fresh x nonzero fresh =
      let (m', one, _) = update_hash-Inv ran-Inv x in
      (m', one ∙ rw (unseen hs answers x ran-Inv nonzero fresh) refl)

-- Without Init, or after Init with no connection, the first hash already divides by 0.
pub update_hash-uninitialised :
    (h : ℕ)
    → (update_hash hash_id_manager h ≡ none) × (update_hash (init hash_id_manager 0) h ≡ none)
unfolding update_hash hash_id_manager init insert contains update_back_up
update_hash-uninitialised h = (refl, refl)
