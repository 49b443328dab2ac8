-- ===== src/Queue/Awaited.antt =====
-- message_queue.h: a position that is claimed and not published belongs to a call of Push that is under
-- way.
use consolidated_book.Common.{
  ℕ, zero, suc, ◌+◌, ◌%◌, ◌^◌, ◌<◌, ◌≡◌, ◌≢◌, refl, ◌∙◌, sym, subst, arith, length,
}
use consolidated_book.Common.Int.{ℤ, pos, negsuc}
use consolidated_book.Queue.{
  mpsc_queue, Producer, Consumer, cell_of, size_mod, update, diff, branch_pop, pop_step,
}
use consolidated_book.Queue.Ownership.{same-position}
use consolidated_book.Queue.Invariant.{given_back, Inv, update-ne}
use consolidated_book.Queue.Push.{SystemInv}
use consolidated_book.Queue.Reachable.{Step-claims, Reach-Inv}
use consolidated_book.Queue.System.{System, initial, result, consume, Step, Reach}
use consolidated_book.Queue.Awaiting.{Awaited, SystemAwaited, moves-Awaited, produce-Awaited}

given_back-branch_pop :
    (A : Type 0) (c : ℕ) (d : ℤ) (at t : ℕ) → given_back (branch_pop {A = A} c d at) t ≡ t
unfolding branch_pop
given_back-branch_pop A c (pos zero) at t = refl
given_back-branch_pop A c (pos (suc n)) at t = refl
given_back-branch_pop A c (negsuc n) at t = refl

module _ {A : Type 0} (k : ℕ) (small : k < 64) (two : 1 < 2 ^ k) (moved : A → A) where
  -- The consumer gives a cell back: the positions behind it are on other cells.
  released-Awaited :
      (s : System A) (at : ℕ) (x : A)
      → s.consumer ≡ Consumer.taken at x
      → SystemInv (2 ^ k) s
      → SystemAwaited (2 ^ k) s
      → Awaited
          (2 ^ k)
          (s.queue.dequeue_pos + 1)
          (record s.queue {
            sequence = update s.queue.sequence (cell_of (2 ^ k) at) ((at + 2 ^ k) % size_mod);
          })
          s.producers
          (length s.claims)
  released-Awaited s at x e v w p lo hi waits =
      let v' = subst (λ c. Inv (2 ^ k) s.queue s.producers c s.claims s.popped) e v in
      let w' =
        subst
          (λ c.
            Awaited (2 ^ k) (given_back c s.queue.dequeue_pos) s.queue s.producers
              (length s.claims))
          e w in
      let apart : cell_of (2 ^ k) at ≢ cell_of (2 ^ k) p = λ h. absurd (
        omega (
          arith,
          lo,
          v'.consumer.0,
          same-position k small s.queue.dequeue_pos at p (omega (arith, v'.consumer.0))
              (omega (arith, v'.consumer.0, two)) (omega (arith, lo)) (omega (arith, v'.room, hi))
              h,
        )) in
      w' p (omega (arith, lo)) hi
        (sym (update-ne s.queue.sequence ((at + 2 ^ k) % size_mod) apart) ∙ waits)

  consume-Awaited :
      (s : System A) (c : Consumer A)
      → s.consumer ≡ c
      → SystemInv (2 ^ k) s
      → length s.claims + 2 ^ k < 2 ^ 63
      → SystemAwaited (2 ^ k) s
      → SystemAwaited (2 ^ k) (consume (2 ^ k) moved s)
  unfolding consume pop_step result
  consume-Awaited s (Consumer.idle r) e v bound w = rw e (rw e at w)
  consume-Awaited s (Consumer.loaded at) e v bound w =
      rw
        (
          e,
          given_back-branch_pop A (2 ^ k)
              (diff (s.queue.sequence (cell_of (2 ^ k) at)) ((at + 1) % size_mod)) at
              s.queue.dequeue_pos,
        )
        (rw e at w)
  consume-Awaited s (Consumer.ready at) e v bound w = rw e (rw e at w)
  consume-Awaited s (Consumer.taken at x) e v bound w = rw e (released-Awaited s at x e v w)
  consume-Awaited s (Consumer.released at x) e v bound w =
      let v' = subst (λ c. Inv (2 ^ k) s.queue s.producers c s.claims s.popped) e v in
      let moved_on : (at + 1) % size_mod ≡ s.queue.dequeue_pos + 1 =
        omega (arith, bound, v'.consumer.0, v'.consumer.1) in
      rw (e, moved_on) (rw e at w)

  Step-Awaited :
      {s t : System A}
      → Step (2 ^ k) moved s t
      → length s.claims + 2 ^ k < 2 ^ 63
      → SystemInv (2 ^ k) s
      → SystemAwaited (2 ^ k) s
      → SystemAwaited (2 ^ k) t
  Step-Awaited {s} (Step.call i b x e) bound v w =
      moves-Awaited (2 ^ k) _ _ s.queue s.queue s.producers i (Producer.calling x) refl
        (λ y h. ground (arith, e)) w
  Step-Awaited {s} (Step.push i lucky) bound v w =
      produce-Awaited k small two moved s i lucky (s.producers i) refl v bound w
  Step-Awaited {s} Step.pop bound v w = consume-Awaited s s.consumer refl v bound w

  -- With a capacity of 2^k >= 2 and fewer than 2^63 - Capacity claimed positions, in every state that is
  -- reachable, whatever the interleaving: no claimed value is stranded. A position that is claimed, not given back and not
  -- published is owned by a call of Push that is still under way.
  pub Reach-Awaited :
      {blank : A} {s : System A}
      → Reach (2 ^ k) moved blank s
      → length s.claims + 2 ^ k < 2 ^ 63
      → SystemAwaited (2 ^ k) s
  unfolding initial mpsc_queue
  Reach-Awaited Reach.start bound = λ p lo hi e. absurd (omega arith)
  Reach-Awaited (Reach.later {s} r step) bound =
      let before : length s.claims + 2 ^ k < 2 ^ 63 =
        omega (arith, bound, Step-claims k small two moved step) in
      Step-Awaited step before (Reach-Inv k small two moved r before) (Reach-Awaited r before)
