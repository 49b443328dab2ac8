-- ===== src/Hash/Contract.antt =====
-- hash_manager.h and hash_manager.cpp: the answers of UpdateHash without the ring buffer. The comments of
-- both files count messages, the code new messages only.
use consolidated_book.Common.{
  ℕ, zero, suc, ◌+◌, ◌-◌, ◌≤◌, ◌<◌, ◌≡◌, refl, ◌∙◌, sym, ap, subst, inl, inr, List, [], ◌∷◌, Bool,
  true, false, ltb, leb, if◌then◌else◌, length, get_elem?, take, length-take, ℕ_discrete, some,
  arith, All, Bool-cases, dec_lt,
}
use consolidated_book.Hash.{
  max_hash_size, HashIdManager, hash_id_manager, init, contains, insert, check_back_up, update_hash,
  update_hashes,
}
use consolidated_book.Hash.Memory.{contains-get_elem?}
use consolidated_book.Hash.Ring.{
  Inv, slot, backed_up, check_back_up-Inv, check_back_up-full, contains-rebuilt, update_back_up-eq,
}
use consolidated_book.Hash.Dedup.{init-Inv}

-- The set is cleared with the MAX_HASH_SIZE-th new message since it was last cleared, and the messages of
-- the last n new ones stay in it.
pub record Contract : Type 0 where
  pub seen : List ℕ
  pub recent : List ℕ  -- all new messages, the last one first
  pub counted : ℕ  -- since the set was cleared

abbrev pub contract : Contract
contract = record { seen = []; recent = []; counted = 0 }

unfoldable pub accept : ℕ → Contract → ℕ → Contract
accept n s h =
    if ltb (s.counted + 1) max_hash_size
    then record { seen = h ∷ s.seen; recent = h ∷ s.recent; counted = s.counted + 1 }
    else record { seen = take n (h ∷ s.recent); recent = h ∷ s.recent; counted = 0 }

unfoldable pub answer_all : ℕ → Contract → List ℕ → List Bool
answer_all n s [] = []
answer_all n s (h ∷ hs) =
    let old = answer_all n s hs in
    let new = answer_all n (accept n s h) hs in
    if contains h s.seen then false ∷ old else true ∷ new

-- The cleanup as the comments have it, where every message counts.
unfoldable pub promised_all : ℕ → Contract → List ℕ → Contract
promised_all n s [] = s
promised_all n s (h ∷ hs) = promised_all n (accept n s h) hs

-- What the contract comes to, where a duplicate changes nothing.
unfoldable pub accept_all : ℕ → Contract → List ℕ → Contract
accept_all n s [] = s
accept_all n s (h ∷ hs) =
    let old = accept_all n s hs in
    let new = accept_all n (accept n s h) hs in if contains h s.seen then old else new

-- The two agree where no message is a duplicate.
pub accept_all-promised_all :
    (n : ℕ) (s : Contract) (hs : List ℕ)
    → All (λ b. b ≡ true) (answer_all n s hs)
    → accept_all n s hs ≡ promised_all n s hs
unfolding accept_all promised_all answer_all
accept_all-promised_all n s [] all = refl
accept_all-promised_all n s (h ∷ hs) all = elim (Bool-cases (contains h s.seen)) [
  | inl old ↦ ground (arith, old, all)
  | inr new ↦
      let later : All (λ b. b ≡ true) (answer_all n (accept n s h) hs) =
        (subst
          (λ b.
            All (λ c. c ≡ true)
              (if b then false ∷ answer_all n s hs else true ∷ answer_all n (accept n s h) hs))
          new all).1 in
      rw new (accept_all-promised_all n (accept n s h) hs later)
]

-- Membership in a list, by position.
position :
    (x : ℕ) (xs : List ℕ)
    → contains x xs ≡ true
    → (i : ℕ) × (i < length xs) × (get_elem? xs i ≡ some x)
unfolding contains
position x [] h = cc
position x (y ∷ ys) h = elim (ℕ_discrete y x) [
  | yes e ↦ (0, omega arith, ap some e)
  | no ne ↦ let (i, lt, at) = position x ys (ground (arith, h)) in (suc i, omega (arith, lt), at)
]

element : (xs : List ℕ) (i : ℕ) → i < length xs → (x : ℕ) × (get_elem? xs i ≡ some x)
element [] i h = absurd (omega arith)
element (x ∷ xs) zero h = (x, refl)
element (x ∷ xs) (suc i) h = element xs i (omega arith)

get_elem?-take : (n : ℕ) (xs : List ℕ) (i : ℕ) → i < n → get_elem? (take n xs) i ≡ get_elem? xs i
get_elem?-take zero xs i h = absurd (omega arith)
get_elem?-take (suc n) [] i h = refl
get_elem?-take (suc n) (x ∷ xs) zero h = refl
get_elem?-take (suc n) (x ∷ xs) (suc i) h = get_elem?-take n xs i (omega arith)

-- How many new hashes ago the slot was written.
abbrev age : ℕ → ℕ → ℕ → ℕ
age n i j = if leb j i then i - j else i + n - j

slot-age : (n i j : ℕ) → i < n → j < n → (slot n i (age n i j) ≡ j) × (age n i j < n)
slot-age n i j h k = ground arith

agree : (a b : Bool) → (a ≡ true → b ≡ true) → (b ≡ true → a ≡ true) → a ≡ b
agree true b f g = sym (f refl)
agree false true f g = g refl
agree false false f g = refl

-- A full ring holds exactly the last n new hashes.
ring-recent :
    {n : ℕ} {recent : List ℕ} {m : HashIdManager}
    → Inv n recent m
    → n ≤ length recent
    → (x : ℕ) → contains x m.backup_arr ≡ contains x (take n recent)
ring-recent {n} {recent} {m} v full x = agree _ _ forward backward
  where
    forward : contains x m.backup_arr ≡ true → contains x (take n recent) ≡ true
    forward h =
        let (j, lt, at) = position x m.backup_arr h in
        let (same, young) = slot-age n m.back_up_index j v.index (omega (arith, lt, v.sized)) in
        let (y, there) = element recent (age n m.back_up_index j) (omega (arith, young)) in
        let held = v.ring (age n m.back_up_index j) y young there in
        let one : some y ≡ some x = sym held ∙ ap (get_elem? m.backup_arr) same ∙ at in
        contains-get_elem? x (take n recent) (age n m.back_up_index j)
          (get_elem?-take n recent (age n m.back_up_index j) young ∙ there ∙ one)

    backward : contains x (take n recent) ≡ true → contains x m.backup_arr ≡ true
    backward h =
        let (d, lt, at) = position x (take n recent) h in
        let young : d < n = omega (arith, lt, length-take n recent) in
        contains-get_elem? x m.backup_arr (slot n m.back_up_index d)
          (v.ring d x young (sym (get_elem?-take n recent d young) ∙ at))

pub record Refines (n : ℕ) (s : Contract) (m : HashIdManager) : Type 0 where
  pub inv : Inv n s.recent m
  pub same_count : m.counter ≡ s.counted
  pub enough : s.counted ≤ length s.recent
  pub same_seen : (x : ℕ) → contains x m.hash_memory ≡ contains x s.seen

module _ {n : ℕ} {s : Contract} {m : HashIdManager} (h : ℕ) (small : n ≤ max_hash_size)
    (v : Refines n s m) where
  abbrev after : HashIdManager
  after = check_back_up (backed_up v.inv h)

  below :
      m.counter + 1 < max_hash_size → after ≡ record (backed_up v.inv h) { counter = m.counter + 1 }
  unfolding check_back_up
  below lt = ground (arith, lt)

  same_element : (x : ℕ) → contains x (h ∷ m.hash_memory) ≡ contains x (h ∷ s.seen)
  unfolding contains
  same_element x = ground (arith, v.same_seen x)

  grown :
      s.counted + 1 < max_hash_size
      → Refines n
          (record { seen = h ∷ s.seen; recent = h ∷ s.recent; counted = s.counted + 1 })
          after
  grown lt =
      let e = below (omega (arith, lt, v.same_count)) in
      record {
        inv = check_back_up-Inv v.inv h;
        same_count = ap (λ k. k.counter) e ∙ ap (λ c. c + 1) v.same_count;
        enough = omega (arith, v.enough);
        same_seen = λ x. ap (λ k. contains x k.hash_memory) e ∙ same_element x;
      }

  cleared :
      s.counted + 1 ≡ max_hash_size
      → Refines n
          (record { seen = take n (h ∷ s.recent); recent = h ∷ s.recent; counted = 0 })
          after
  cleared full =
      let e = check_back_up-full v.inv h (omega (arith, full, v.same_count)) in
      let later = check_back_up-Inv v.inv h in
      record {
        inv = later;
        same_count = ap (λ k. k.counter) e;
        enough = omega arith;
        same_seen = λ x.
            ap (λ k. contains x k.hash_memory) e
            ∙ contains-rebuilt v.inv h x (backed_up v.inv h).backup_arr
            ∙ sym (ap (λ k. contains x k.backup_arr) e)
            ∙ ring-recent later (omega (arith, full, v.enough, small)) x;
      }

  accept-Refines : Refines n (accept n s h) after
  unfolding accept
  accept-Refines = elim (dec_lt (s.counted + 1) max_hash_size) [
    | yes p ↦ subst (λ k. Refines n k after) (ground (arith, p)) (grown p)
    | no p ↦
        let full : s.counted + 1 ≡ max_hash_size = omega (arith, p, v.inv.counted, v.same_count) in
        subst (λ k. Refines n k after) (ground (arith, full)) (cleared full)
  ]

update_hashes-Refines :
    (n : ℕ) (s : Contract) (m : HashIdManager) (hs : List ℕ)
    → n ≤ max_hash_size
    → Refines n s m
    → (m' : HashIdManager) × (update_hashes m hs ≡ some (m', answer_all n s hs))
unfolding update_hashes answer_all update_hash insert
update_hashes-Refines n s m [] small v = (m, refl)
update_hashes-Refines n s m (h ∷ hs) small v = elim (Bool-cases (contains h m.hash_memory)) [
  | inl old ↦
      let (m', e) = update_hashes-Refines n s m hs small v in
      (m', ground (arith, old, v.same_seen h, e))
  | inr new ↦
      let (m', e) =
        update_hashes-Refines n (accept n s h) (check_back_up (backed_up v.inv h)) hs small
          (accept-Refines h small v) in
      (m', ground (arith, new, v.same_seen h, update_back_up-eq v.inv h, e))
]

-- After Init for at least one and at most MAX_HASH_SIZE connections, any stream of messages, the hash 0
-- included, is answered without a fault as the contract answers it: a message is a duplicate if it is
-- among the new ones since the set was last cleared, or was then among the last n new ones. The set is
-- cleared with each MAX_HASH_SIZE-th new message; duplicates are not counted.
pub update_hashes-answer_all :
    (n : ℕ) (hs : List ℕ)
    → 0 < n
    → n ≤ max_hash_size
    → (m : HashIdManager) × (update_hashes (init hash_id_manager n) hs
        ≡ some (m, answer_all n contract hs))
unfolding init hash_id_manager
update_hashes-answer_all n hs positive small =
    update_hashes-Refines n contract (init hash_id_manager n) hs small (record {
      inv = init-Inv n positive;
      same_count = refl;
      enough = omega arith;
      same_seen = λ x. refl;
    })
