-- ===== src/Queue.antt =====
-- server/consolidate_candle_manager/message_queue.h: MPSCQueue<T, Capacity>, one access to shared
-- memory at a time. Atomics are taken as sequentially consistent. A size_t is a number below 2^64.
pub mod Mask
pub mod Cells
pub mod System
pub mod Invariant
pub mod Ownership
pub mod Produce
pub mod Push
pub mod Consume
pub mod Release
pub mod Reachable
pub mod Safety
pub mod Alone
pub mod Awaiting
pub mod Awaited
pub mod Drain
pub mod Tests
use Prim.Native.Nat.{bit_and}
use consolidated_book.Common.{
  ℕ, zero, suc, ◌+◌, ◌-◌, ◌%◌, ◌^◌, Bool, true, false, ◌==◌, ltb, ◌&&◌, if◌then◌else◌, Option, none,
  some,
}
use consolidated_book.Common.Int.{ℤ, pos, negsuc, ◌-ℤ◌}

abbrev pub size_mod : ℕ
size_mod = 2 ^ 64

-- (intptr_t)w
abbrev pub to_intptr : ℕ → ℤ
to_intptr w = if ltb w (2 ^ 63) then pos w else negsuc (size_mod - w - 1)

-- (intptr_t)seq - (intptr_t)pos
unfoldable pub diff : ℕ → ℕ → ℤ
unfolding ◌-ℤ◌
diff seq at = to_intptr seq -ℤ to_intptr at

-- The static_assert on Capacity.
unfoldable pub capacity_ok : ℕ → Bool
capacity_ok c = bit_and c ((c + size_mod - 1) % size_mod) == 0

-- pos & (Capacity - 1)
unfoldable pub cell_of : ℕ → ℕ → ℕ
cell_of c at = bit_and at ((c + size_mod - 1) % size_mod)

-- Cell::sequence and Cell::data of each slot, and the two counters.
pub record MpscQueue (A : Type 0) : Type 0 where
  pub enqueue_pos : ℕ
  pub dequeue_pos : ℕ
  pub sequence : ℕ → ℕ
  pub item : ℕ → A

abbrev pub update : {A : Type 0} → (ℕ → A) → ℕ → A → ℕ → A
update f i a j = if i == j then a else f j

-- The constructor; `blank` is a default T.
unfoldable pub mpsc_queue : {A : Type 0} → A → MpscQueue A
mpsc_queue blank = record { enqueue_pos = 0; dequeue_pos = 0; sequence = λ i. i; item = λ i. blank }

-- Where a call of Push stands, with its live locals.
pub data Producer (A : Type 0) : Type 0 where
  calling : A → Producer A  -- before a load of enqueuePos
  loaded : ℕ → A → Producer A  -- before the load of the sequence
  checked : ℕ → A → Producer A  -- diff was 0, before the compare-exchange
  claimed : ℕ → A → Producer A  -- before the write of the data
  written : ℕ → Producer A  -- before the store of the sequence
  returned : Bool → Producer A  -- not in a call

-- Where the consumer stands in Pop.
pub data Consumer (A : Type 0) : Type 0 where
  idle : Option A → Consumer A  -- not in a call, with the last result
  loaded : ℕ → Consumer A  -- before the load of the sequence
  ready : ℕ → Consumer A  -- diff was 0, before the move of the data
  taken : ℕ → A → Consumer A  -- before the store of the sequence
  released : ℕ → A → Consumer A  -- before the store of dequeuePos

module _ {A : Type 0} (capacity : ℕ) where
  -- The branch on diff.
  unfoldable pub branch_push : ℤ → ℕ → A → Producer A
  branch_push (pos zero) at v = Producer.checked at v
  branch_push (pos (suc n)) at v = Producer.calling v
  branch_push (negsuc n) at v = Producer.returned false

  -- One step of push_impl. `lucky` is false where compare_exchange_weak fails spuriously.
  unfoldable pub push_step : MpscQueue A → Producer A → Bool → MpscQueue A × Producer A
  unfolding branch_push
  push_step q (Producer.calling v) lucky = (q, Producer.loaded q.enqueue_pos v)
  push_step q (Producer.loaded at v) lucky =
      (q, branch_push (diff (q.sequence (cell_of capacity at)) at) at v)
  push_step q (Producer.checked at v) lucky =
      if (q.enqueue_pos == at) && lucky
      then (record q { enqueue_pos = (at + 1) % size_mod }, Producer.claimed at v)
      else (q, Producer.loaded q.enqueue_pos v)
  push_step q (Producer.claimed at v) lucky =
      (record q { item = update q.item (cell_of capacity at) v }, Producer.written at)
  push_step q (Producer.written at) lucky = (
    record q { sequence = update q.sequence (cell_of capacity at) ((at + 1) % size_mod) },
    Producer.returned true,
  )
  push_step q (Producer.returned b) lucky = (q, Producer.returned b)

  -- `if (diff != 0) return nullopt`
  unfoldable pub branch_pop : ℤ → ℕ → Consumer A
  branch_pop (pos zero) at = Consumer.ready at
  branch_pop (pos (suc n)) at = Consumer.idle none
  branch_pop (negsuc n) at = Consumer.idle none

  -- One step of Pop; from `idle` it begins a call. A move leaves `moved` of the data behind.
  unfoldable pub pop_step : (A → A) → MpscQueue A → Consumer A → MpscQueue A × Consumer A
  unfolding branch_pop
  pop_step moved q (Consumer.idle r) = (q, Consumer.loaded q.dequeue_pos)
  pop_step moved q (Consumer.loaded at) =
      (q, branch_pop (diff (q.sequence (cell_of capacity at)) ((at + 1) % size_mod)) at)
  pop_step moved q (Consumer.ready at) =
      let cell = cell_of capacity at in
      (
        record q { item = update q.item cell (moved (q.item cell)) },
        Consumer.taken at (q.item cell),
      )
  pop_step moved q (Consumer.taken at v) = (
    record q { sequence = update q.sequence (cell_of capacity at) ((at + capacity) % size_mod) },
    Consumer.released at v,
  )
  pop_step moved q (Consumer.released at v) =
      (record q { dequeue_pos = (at + 1) % size_mod }, Consumer.idle (some v))
