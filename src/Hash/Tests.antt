-- ===== src/Hash/Tests.antt =====
-- hash_manager.cpp: two connections and a few messages.
use consolidated_book.Common.{
  ◌≡◌, ◌<◌, ◌+◌, refl, inl, List, [], ◌∷◌, Bool, true, false, some, length, arith,
}
use consolidated_book.Hash.{
  max_hash_size, HashIdManager, hash_id_manager, contains, insert, resize, memset_zero, init,
  update_back_up, check_back_up, update_hash, update_hashes,
}
use consolidated_book.Hash.Ring.{Inv}
use consolidated_book.Hash.Contract.{accept, answer_all, update_hashes-answer_all}
use consolidated_book.Hash.Calls.{Call, calls, calls-total}
use consolidated_book.Hash.Dedup.{update_hash-duplicate}

abbrev two : HashIdManager
two = init hash_id_manager 2

abbrev answered : HashIdManager
answered = record {
  hash_memory = 6 ∷ 5 ∷ [];
  backup_arr = 6 ∷ 5 ∷ [];
  back_up_index = 0;
  counter = 2;
  backup_arr_capacity = 2;
}

-- One new hash before the set is emptied.
abbrev nearly_full : HashIdManager
nearly_full = record {
  hash_memory = 6 ∷ 5 ∷ [];
  backup_arr = 6 ∷ 5 ∷ [];
  back_up_index = 0;
  counter = 119999;
  backup_arr_capacity = 2;
}

ran : update_hashes two (5 ∷ 6 ∷ 5 ∷ []) ≡ some (answered, true ∷ true ∷ false ∷ [])
unfolding update_hashes update_hash insert contains update_back_up check_back_up init resize
    memset_zero hash_id_manager
ran = refl

nearly_full-Inv : Inv 2 (6 ∷ 5 ∷ []) nearly_full
unfolding contains
nearly_full-Inv = record {
  positive = omega arith;
  capacity = refl;
  sized = refl;
  index = omega arith;
  counted = omega arith;
  bounded = omega arith;
  ring = λ d x k e. ground arith;
  kept = λ d x k e. ground arith;
  stored = λ x e. inl e;
  known = λ x e. inl e;
}

new_7 : contains 7 nearly_full.hash_memory ≡ false
unfolding contains
new_7 = refl

update_hash-duplicate_example : update_hash answered 5 ≡ some (answered, false)
update_hash-duplicate_example =
    update_hash-duplicate 2 (5 ∷ 6 ∷ 5 ∷ []) (omega arith) ran 1 5 (omega arith) refl

update_hashes-answer_all_example :
    (m : HashIdManager) × (update_hashes two (5 ∷ 0 ∷ 5 ∷ []) ≡ some (m, true ∷ true ∷ false ∷ []))
unfolding answer_all accept contains
update_hashes-answer_all_example =
    update_hashes-answer_all 2 (5 ∷ 0 ∷ 5 ∷ []) (omega arith) (omega arith)

-- Init for three connections comes after one for two.
abbrev renewed : List Call
renewed = Call.update_with 5 ∷ Call.init_with 3 ∷ Call.update_with 5 ∷ []

calls-total_example :
    (m : HashIdManager) × (answers : List Bool) × (calls hash_id_manager
        (Call.init_with 2 ∷ renewed)
      ≡ some (m, answers))
    × (length m.backup_arr ≡ m.backup_arr_capacity)
    × (m.counter < max_hash_size)
    × (length m.hash_memory < max_hash_size + 3)
calls-total_example =
    calls-total 3 2 renewed (omega arith) (omega arith) (tt, ((omega arith, omega arith), (tt, tt)))
