-- ===== src/Queue/Tests.antt =====
-- message_queue.h: runs of a queue of two cells.
use consolidated_book.Common.{
  ℕ, zero, suc, ◌+◌, ◌^◌, ◌≤◌, ◌<◌, ◌≡◌, ◌≢◌, refl, ◌⊎◌, [], ◌∷◌, Bool, true, false, none, arith,
  length, take,
}
use consolidated_book.Common.Int.{◌-ℤ◌}
use consolidated_book.Queue.{
  mpsc_queue, Producer, Consumer, cell_of, diff, branch_push, branch_pop, push_step, pop_step,
  update,
}
use consolidated_book.Queue.Alone.{push_run, push-alone}
use consolidated_book.Queue.Awaiting.{SystemAwaited}
use consolidated_book.Queue.Awaited.{Reach-Awaited}
use consolidated_book.Queue.Drain.{consumes, drain, IsQuiet, drain-popped}
use consolidated_book.Queue.Invariant.{given_back}
use consolidated_book.Queue.Push.{SystemInv}
use consolidated_book.Queue.Reachable.{Reach-Inv}
use consolidated_book.Queue.Safety.{popped-prefix, producers-apart, consumer-apart}
use consolidated_book.Queue.System.{System, initial, claim, result, produce, consume, Step, Reach}

abbrev kept : ℕ → ℕ
kept x = x

abbrev Run : System ℕ → Type 0
Run s = Reach (2 ^ 1) kept 0 s

-- Producer `i` calls Push(v) and takes `n` steps; the consumer takes `n` steps.
pushing : ℕ → ℕ → System ℕ → System ℕ
pushing zero i s = s
pushing (suc n) i s = pushing n i (produce (2 ^ 1) kept s i true)

push : ℕ → ℕ → ℕ → System ℕ → System ℕ
unfolding pushing
push n i v s = pushing n i (record s { producers = update s.producers i (Producer.calling v) })

popping : ℕ → System ℕ → System ℕ
popping zero s = s
popping (suc n) s = popping n (consume (2 ^ 1) kept s)

pushing-Run : (n i : ℕ) {s : System ℕ} → Run s → Run (pushing n i s)
unfolding pushing
pushing-Run zero i r = r
pushing-Run (suc n) i r = pushing-Run n i (Reach.later r (Step.push i true))

push-Run :
    (n i v : ℕ) {s : System ℕ} (b : Bool)
    → s.producers i ≡ Producer.returned b
    → Run s
    → Run (push n i v s)
unfolding push
push-Run n i v b e r = pushing-Run n i (Reach.later r (Step.call i b v e))

popping-Run : (n : ℕ) {s : System ℕ} → Run s → Run (popping n s)
unfolding popping
popping-Run zero r = r
popping-Run (suc n) r = popping-Run n (Reach.later r Step.pop)

-- One value pushed and popped.
abbrev passed : System ℕ
passed = popping 5 (push 5 0 7 (initial 0))

passed-Run : Run passed
unfolding initial
passed-Run = popping-Run 5 (push-Run 5 0 7 true refl Reach.start)

-- Two producers have claimed a cell each, and the consumer waits for the first one.
abbrev racing : System ℕ
racing = popping 1 (push 3 1 8 (push 3 0 7 (initial 0)))

racing-Run : Run racing
unfolding initial push pushing produce
racing-Run = popping-Run 1 (push-Run 3 1 8 true refl (push-Run 3 0 7 true refl Reach.start))

-- The first value is published and about to be read, the second cell is claimed, and a third call has
-- loaded its position.
abbrev crowded : System ℕ
crowded = popping 2 (push 1 2 9 (push 3 1 8 (push 5 0 7 (initial 0))))

crowded-Run : Run crowded
unfolding initial push pushing produce
crowded-Run =
    popping-Run 2
      (push-Run 1 2 9 true refl (push-Run 3 1 8 true refl (push-Run 5 0 7 true refl Reach.start)))

passed-popped : passed.popped ≡ 7 ∷ []
unfolding popping push pushing produce consume push_step pop_step branch_push branch_pop initial
    mpsc_queue cell_of diff claim result ◌-ℤ◌
passed-popped = refl

popped-prefix_example :
    (passed.popped ≡ take (length passed.popped) passed.claims)
    × (length passed.claims ≤ length passed.popped + 1 + 2 ^ 1)
unfolding popping push pushing produce consume push_step pop_step branch_push branch_pop initial
    mpsc_queue cell_of diff claim result ◌-ℤ◌
popped-prefix_example = popped-prefix 1 (omega arith) (omega arith) kept passed-Run (omega arith)

producers-apart_example : cell_of (2 ^ 1) 0 ≢ cell_of (2 ^ 1) 1
unfolding popping push pushing produce consume push_step pop_step branch_push branch_pop initial
    mpsc_queue cell_of diff claim result ◌-ℤ◌
producers-apart_example =
    producers-apart 1 (omega arith) (omega arith) kept racing-Run (omega arith) 0 1 0 1
      (λ e. omega arith) refl refl

consumer-apart_example : cell_of (2 ^ 1) 1 ≢ cell_of (2 ^ 1) 0
unfolding popping push pushing produce consume push_step pop_step branch_push branch_pop initial
    mpsc_queue cell_of diff claim result ◌-ℤ◌
consumer-apart_example =
    consumer-apart 1 (omega arith) (omega arith) kept crowded-Run (omega arith) 1 1 0 refl refl

Reach-Inv_example : SystemInv (2 ^ 1) crowded
unfolding popping push pushing produce consume push_step pop_step branch_push branch_pop initial
    mpsc_queue cell_of diff claim result ◌-ℤ◌
Reach-Inv_example = Reach-Inv 1 (omega arith) (omega arith) kept crowded-Run (omega arith)

-- The queue in which only the second value is left.
abbrev second : System ℕ
second = popping 5 (push 5 1 8 (push 5 0 7 (initial 0)))

second-Run : Run second
unfolding initial push pushing produce
second-Run = popping-Run 5 (push-Run 5 1 8 true refl (push-Run 5 0 7 true refl Reach.start))

second-Inv : SystemInv (2 ^ 1) second
unfolding popping push pushing produce consume push_step pop_step branch_push branch_pop initial
    mpsc_queue cell_of diff claim result ◌-ℤ◌
second-Inv = Reach-Inv 1 (omega arith) (omega arith) kept second-Run (omega arith)

push-alone_example :
    ((length second.claims ≡ given_back second.consumer second.queue.dequeue_pos + 2 ^ 1)
      × (push_run (2 ^ 1) 2 second.queue (Producer.calling 9)
          ≡ (second.queue, Producer.returned false)))
    ⊎ ((length second.claims < given_back second.consumer second.queue.dequeue_pos + 2 ^ 1)
        × (push_run (2 ^ 1) 5 second.queue (Producer.calling 9) ≡ (
          record second.queue {
            enqueue_pos = length second.claims + 1;
            sequence =
                update second.queue.sequence
                  (cell_of (2 ^ 1) (length second.claims))
                  (length second.claims + 1);
            item = update second.queue.item (cell_of (2 ^ 1) (length second.claims)) 9;
          },
          Producer.returned true,
        )))
unfolding popping push pushing produce consume push_step pop_step branch_push branch_pop initial
    mpsc_queue cell_of diff claim result ◌-ℤ◌
push-alone_example = push-alone 1 (omega arith) (omega arith) second-Inv (omega arith) 9

-- Both values are published, and nobody has called Pop.
abbrev both : System ℕ
both = push 5 1 8 (push 5 0 7 (initial 0))

both-IsQuiet : IsQuiet 1 (omega arith) (omega arith) kept 0 both
unfolding popping push pushing produce consume push_step pop_step branch_push branch_pop initial
    mpsc_queue cell_of diff claim result ◌-ℤ◌
both-IsQuiet = record {
  reached = push-Run 5 1 8 true refl (push-Run 5 0 7 true refl Reach.start);
  fits = omega arith;
  through = λ i. ground arith;
  last = none;
  resting = refl;
}

drain-popped_example :
    ((drain (2 ^ 1) kept 2 both).popped ≡ 7 ∷ 8 ∷ [])
    × ((drain (2 ^ 1) kept 2 both).claims ≡ 7 ∷ 8 ∷ [])
    × ((consumes (2 ^ 1) kept 2 (drain (2 ^ 1) kept 2 both)).consumer ≡ Consumer.idle none)
unfolding popping push pushing produce consume push_step pop_step branch_push branch_pop initial
    mpsc_queue cell_of diff claim result ◌-ℤ◌
drain-popped_example = drain-popped 1 (omega arith) (omega arith) kept 0 both both-IsQuiet

racing-fits : length racing.claims + 2 ^ 1 < 2 ^ 63
unfolding popping push pushing produce consume push_step pop_step branch_push branch_pop initial
    mpsc_queue cell_of diff claim result ◌-ℤ◌
racing-fits = omega arith

Reach-Awaited_example : SystemAwaited (2 ^ 1) racing
Reach-Awaited_example = Reach-Awaited 1 (omega arith) (omega arith) kept racing-Run racing-fits
