-- ===== src/Hash.antt =====
-- md_provider/provider/hash_manager.h and hash_manager.cpp: HashIDManager, which tells new message
-- hashes from duplicates. `hashMemory` is a list without order; a fault (a remainder by 0, a write
-- past the array) is `none`. An element of `backupArr` is 8 bytes, little-endian.
pub mod Memory
pub mod Ring
pub mod Dedup
pub mod Contract
pub mod Calls
pub mod Tests
use Prim.Native.Nat.{compare}
use consolidated_book.Common.{
  ℕ, zero, suc, ◌+◌, ◌-◌, ◌*◌, ◌%◌, ◌^◌, List, [], ◌∷◌, Option, none, some, Bool, true, false, ◌==◌,
  ltb, ◌||◌, if◌then◌else◌, length, set, replicate, take, ◌++◌,
}

-- MAX_HASH_SIZE
abbrev pub max_hash_size : ℕ
max_hash_size = 120000

abbrev pub MemoryHashSet : Type 0
MemoryHashSet = List ℕ

abbrev pub MemoryHashArray : Type 0
MemoryHashArray = List ℕ

pub record HashIdManager : Type 0 where
  pub hash_memory : MemoryHashSet
  pub backup_arr : MemoryHashArray
  pub back_up_index : ℕ  -- size_t
  pub counter : ℕ  -- size_t
  pub backup_arr_capacity : ℕ  -- size_t

unfoldable pub hash_id_manager : HashIdManager
hash_id_manager = record {
  hash_memory = [];
  backup_arr = [];
  back_up_index = 0;
  counter = 0;
  backup_arr_capacity = 0;
}

unfoldable pub contains : ℕ → List ℕ → Bool
contains h [] = false
contains h (x ∷ xs) = x == h || contains h xs

-- insert of an unordered_set: the set, and whether the element is new
unfoldable pub insert : ℕ → List ℕ → List ℕ × Bool
unfolding contains
insert h m = if contains h m then (m, false) else (h ∷ m, true)

unfoldable pub insert_all : List ℕ → List ℕ → List ℕ
unfolding insert
insert_all [] m = m
insert_all (x ∷ xs) m = insert_all xs (insert x m).0

unfoldable pub check_back_up : HashIdManager → HashIdManager
unfolding insert_all
check_back_up m =
    let counter = (m.counter + 1) % 2 ^ 64 in
    if ltb counter max_hash_size
    then record m { counter = counter }
    else record m { hash_memory = insert_all m.backup_arr []; counter = 0 }

unfoldable pub update_back_up : HashIdManager → ℕ → Option HashIdManager
update_back_up m hash =
    let index = (m.back_up_index + 1) % m.backup_arr_capacity in
    if m.backup_arr_capacity == 0
    then none
    else if ltb index (length m.backup_arr)
    then some (record m { back_up_index = index; backup_arr = set m.backup_arr index hash })
    else none

-- vector::resize: new elements are 0
unfoldable pub resize : ℕ → List ℕ → List ℕ
resize n xs = take n xs ++ replicate (n - length xs) 0

-- memset(data, 0, bytes)
unfoldable pub memset_zero : ℕ → List ℕ → List ℕ
memset_zero bytes [] = []
memset_zero bytes (x ∷ xs) =
    (if ltb bytes 8 then x - x % 2 ^ (8 * bytes) else 0) ∷ memset_zero (bytes - 8) xs

unfoldable pub init : HashIdManager → ℕ → HashIdManager
unfolding resize memset_zero
init m size = record m {
  backup_arr_capacity = size;
  backup_arr = memset_zero size (resize size m.backup_arr);
}

unfoldable pub update_hash : HashIdManager → ℕ → Option (HashIdManager × Bool)
update_hash m hash =
    let (memory, is_new) = insert hash m.hash_memory in
    if is_new
    then elim (update_back_up (record m { hash_memory = memory }) hash) [
      | none ↦ none
      | some m' ↦ some (check_back_up m', true)
    ]
    else some (m, false)

-- A stream of messages, with the answer to each.
unfoldable pub update_hashes : HashIdManager → List ℕ → Option (HashIdManager × List Bool)
update_hashes m [] = some (m, [])
update_hashes m (h ∷ hs) = elim (update_hash m h) [
  | none ↦ none
  | some (m', is_new) ↦ elim (update_hashes m' hs) [
    | none ↦ none
    | some (m'', answers) ↦ some (m'', is_new ∷ answers)
  ]
]
