-- ===== src/Queue/Alone.antt =====
-- message_queue.h: a call of Push or Pop that no other step interrupts, and the capacity of one cell.
use consolidated_book.Common.{
  ℕ, zero, suc, ◌+◌, ◌%◌, ◌^◌, ◌<◌, ◌≡◌, refl, ◌∙◌, sym, subst, ◌⊎◌, inl, inr, List, true, false,
  Option, none, some, arith, length, get_elem?, dec_lt, ◌==◌,
}
use consolidated_book.Common.Int.{pos, negsuc, ◌-ℤ◌}
use consolidated_book.Queue.{
  MpscQueue, mpsc_queue, Producer, Consumer, capacity_ok, cell_of, size_mod, diff, branch_push,
  branch_pop, push_step, pop_step, update,
}
use consolidated_book.Queue.Cells.{diff_cases}
use consolidated_book.Queue.Invariant.{given_back, Inv, update_self}
use consolidated_book.Queue.Push.{sequence-full}

module _ {A : Type 0} (c : ℕ) where
  -- So many steps of one call of Push, with no step of anybody else between them, where
  -- compare_exchange_weak fails only if the position has changed.
  pub push_run : ℕ → MpscQueue A → Producer A → MpscQueue A × Producer A
  push_run zero q p = (q, p)
  push_run (suc n) q p = let (q', p') = push_step c q p true in push_run n q' p'

  unfoldable pub pop_run : (A → A) → ℕ → MpscQueue A → Consumer A → MpscQueue A × Consumer A
  pop_run moved zero q k = (q, k)
  pop_run moved (suc n) q k = let (q', k') = pop_step c moved q k in pop_run moved n q' k'

==_refl : (n : ℕ) → (n == n) ≡ true
==_refl n = ground arith

-- Where the next cell is free, five steps claim it, write it and publish it.
push_run-free :
    {A : Type 0} (c : ℕ) (q : MpscQueue A) (x : A)
    → diff (q.sequence (cell_of c q.enqueue_pos)) q.enqueue_pos ≡ pos 0
    → push_run c 5 q (Producer.calling x) ≡ (
      record q {
        enqueue_pos = (q.enqueue_pos + 1) % size_mod;
        sequence = update q.sequence (cell_of c q.enqueue_pos) ((q.enqueue_pos + 1) % size_mod);
        item = update q.item (cell_of c q.enqueue_pos) x;
      },
      Producer.returned true,
    )
unfolding push_run push_step branch_push
push_run-free c q x d = rw d (rw (==_refl q.enqueue_pos) refl)

push_run-full :
    {A : Type 0} (c : ℕ) (q : MpscQueue A) (x : A) (n : ℕ)
    → diff (q.sequence (cell_of c q.enqueue_pos)) q.enqueue_pos ≡ negsuc n
    → push_run c 2 q (Producer.calling x) ≡ (q, Producer.returned false)
unfolding push_run push_step branch_push
push_run-full c q x n d = rw d refl

-- Where the cell of dequeuePos is published, five steps take its value and give it back.
pop_run-published :
    {A : Type 0} (c : ℕ) (moved : A → A) (q : MpscQueue A) (r : Option A)
    → diff (q.sequence (cell_of c q.dequeue_pos)) ((q.dequeue_pos + 1) % size_mod) ≡ pos 0
    → pop_run c moved 5 q (Consumer.idle r) ≡ (
      record q {
        dequeue_pos = (q.dequeue_pos + 1) % size_mod;
        sequence = update q.sequence (cell_of c q.dequeue_pos) ((q.dequeue_pos + c) % size_mod);
        item = update q.item (cell_of c q.dequeue_pos) (moved (q.item (cell_of c q.dequeue_pos)));
      },
      Consumer.idle (some (q.item (cell_of c q.dequeue_pos))),
    )
unfolding pop_run pop_step branch_pop
pop_run-published c moved q r d = rw d refl

module _ {A : Type 0} (k : ℕ) (small : k < 64) (two : 1 < 2 ^ k) {q : MpscQueue A}
    {ps : ℕ → Producer A} {consumer : Consumer A} {log done : List A}
    (v : Inv (2 ^ k) q ps consumer log done) (bound : length log + 2 ^ k < 2 ^ 63) where
  diff_same : (s p : ℕ) → p < 2 ^ 63 → s ≡ p → diff s p ≡ pos 0
  diff_same s p h e = elim (diff_cases s p (omega arith) h) [
    | inl (_, d) ↦ d
    | inr (inl (lt, n, d)) ↦ absurd (omega arith)
    | inr (inr (gt, n, d)) ↦ absurd (omega arith)
  ]

  free_run :
      (x : A)
      → length log < given_back consumer q.dequeue_pos + 2 ^ k
      → push_run (2 ^ k) 5 q (Producer.calling x) ≡ (
        record q {
          enqueue_pos = length log + 1;
          sequence = update q.sequence (cell_of (2 ^ k) (length log)) (length log + 1);
          item = update q.item (cell_of (2 ^ k) (length log)) x;
        },
        Producer.returned true,
      )
  free_run x lt =
      let e : q.sequence (cell_of (2 ^ k) q.enqueue_pos) ≡ q.enqueue_pos =
        v.free q.enqueue_pos (omega (arith, v.enqueued)) (omega (arith, v.enqueued, lt)) in
      let next : (q.enqueue_pos + 1) % size_mod ≡ q.enqueue_pos + 1 =
        omega (arith, v.enqueued, bound) in
      rw (← v.enqueued) (
        rw next at (push_run-free (2 ^ k) q x (diff_same _ _ (omega (arith, v.enqueued, bound)) e)))

  full_run :
      (x : A)
      → length log ≡ given_back consumer q.dequeue_pos + 2 ^ k
      → push_run (2 ^ k) 2 q (Producer.calling x) ≡ (q, Producer.returned false)
  full_run x all =
      let below = sequence-full k small two v q.enqueue_pos v.enqueued all in
      elim (diff_cases (q.sequence (cell_of (2 ^ k) q.enqueue_pos)) q.enqueue_pos
        (omega (arith, below, v.enqueued, bound)) (omega (arith, v.enqueued, bound))) [
          | inl (e, d) ↦ absurd (omega (arith, e, below))
          | inr (inl (lt, n, d)) ↦ push_run-full (2 ^ k) q x n d
          | inr (inr (gt, n, d)) ↦ absurd (omega (arith, gt, below))
        ]

  -- In a state that satisfies the invariant, with a capacity of 2^k >= 2 and fewer than 2^63 - Capacity
  -- claimed positions, a call of Push that runs alone and whose compare_exchange_weak does not fail
  -- spuriously takes two steps to return false where all cells
  -- are in use, and otherwise five to return true, with its value published in the next cell.
  pub push-alone :
      (x : A)
      → ((length log ≡ given_back consumer q.dequeue_pos + 2 ^ k)
          × (push_run (2 ^ k) 2 q (Producer.calling x) ≡ (q, Producer.returned false)))
        ⊎ ((length log < given_back consumer q.dequeue_pos + 2 ^ k)
            × (push_run (2 ^ k) 5 q (Producer.calling x) ≡ (
              record q {
                enqueue_pos = length log + 1;
                sequence = update q.sequence (cell_of (2 ^ k) (length log)) (length log + 1);
                item = update q.item (cell_of (2 ^ k) (length log)) x;
              },
              Producer.returned true,
            )))
  push-alone x = elim (dec_lt (length log) (given_back consumer q.dequeue_pos + 2 ^ k)) [
    | yes lt ↦ inr (lt, free_run x lt)
    | no n ↦
        let all : length log ≡ given_back consumer q.dequeue_pos + 2 ^ k = omega (arith, v.room) in
        inl (all, full_run x all)
  ]

  -- In a state that satisfies the invariant, with a capacity of 2^k >= 2 and fewer than 2^63 - Capacity
  -- claimed positions, a call of Pop that runs alone on a published cell takes five steps to return the value that was
  -- claimed for the position of dequeuePos, and gives the cell back for the next round.
  pub pop-alone :
      (moved : A → A) (r : Option A)
      → consumer ≡ Consumer.idle r
      → q.dequeue_pos < length log
      → q.sequence (cell_of (2 ^ k) q.dequeue_pos) ≡ q.dequeue_pos + 1
      → (q' : MpscQueue A) × (x : A) × (pop_run (2 ^ k) moved 5 q (Consumer.idle r)
          ≡ (q', Consumer.idle (some x)))
        × (get_elem? log q.dequeue_pos ≡ some x)
        × (q'.dequeue_pos ≡ q.dequeue_pos + 1)
        × (q'.sequence (cell_of (2 ^ k) q.dequeue_pos) ≡ q.dequeue_pos + 2 ^ k)
  pop-alone moved r e lt published =
      let next : (q.dequeue_pos + 1) % size_mod ≡ q.dequeue_pos + 1 = omega (arith, bound, lt) in
      let round : (q.dequeue_pos + 2 ^ k) % size_mod ≡ q.dequeue_pos + 2 ^ k =
        omega (arith, bound, lt) in
      let w = subst (λ c. Inv (2 ^ k) q ps c log done) e v in
      (
        _,
        _,
        pop_run-published (2 ^ k) moved q r
            (diff_same _ _ (omega (arith, next, bound, lt)) (published ∙ sym next)),
        w.full q.dequeue_pos (omega arith) lt published,
        next,
        update_self q.sequence (cell_of (2 ^ k) q.dequeue_pos) _ ∙ round,
      )

-- The static_assert admits a capacity of one cell. There a second Push succeeds on the first one's
-- unread value and overwrites it, and Pop, which would return either, returns nullopt.
pub one_cell :
    {A : Type 0} (moved : A → A) (blank x y : A)
    → (capacity_ok 1 ≡ true)
      × (q : MpscQueue A) × (q' : MpscQueue A) × (push_run 1 5
            (mpsc_queue blank)
            (Producer.calling x)
          ≡ (q, Producer.returned true))
      × (push_run 1 5 q (Producer.calling y) ≡ (q', Producer.returned true))
      × (q'.item 0 ≡ y)
      × ((pop_run 1 moved 2 q' (Consumer.idle none)).1 ≡ Consumer.idle none)
unfolding push_run pop_run push_step pop_step branch_push branch_pop mpsc_queue capacity_ok cell_of
    diff ◌-ℤ◌
one_cell moved blank x y = (refl, _, _, refl, refl, refl, refl)
