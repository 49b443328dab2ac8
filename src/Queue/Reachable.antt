-- ===== src/Queue/Reachable.antt =====
-- message_queue.h: the invariant holds in every reachable state, as long as fewer than 2^63 - Capacity
-- calls of Push have claimed a position.
use consolidated_book.Common.{ℕ, ◌+◌, ◌^◌, ◌≤◌, ◌<◌, ◌≡◌, refl, ◌∙◌, arith, length}
use mathlib.Core.List.{append-nil}
use consolidated_book.Queue.{mpsc_queue, Producer, Consumer, pop_step}
use consolidated_book.Queue.Cells.{cell-mod}
use native.Mathlib.Nat.{mod-eq_of_lt}
use consolidated_book.Queue.Invariant.{Inv}
use consolidated_book.Queue.Produce.{local-Inv}
use consolidated_book.Queue.Consume.{begin-Inv, load-Inv, take-Inv}
use consolidated_book.Queue.Release.{release-Inv, finish-Inv}
use consolidated_book.Queue.Push.{SystemInv, produce-Inv, claims-produce}
use consolidated_book.Queue.System.{System, initial, result, consume, Step, Reach}

module _ {A : Type 0} (k : ℕ) (small : k < 64) (two : 1 < 2 ^ k) (moved : A → A) where
  consume-Inv :
      (s : System A) (c : Consumer A)
      → s.consumer ≡ c
      → Inv (2 ^ k) s.queue s.producers c s.claims s.popped
      → length s.claims + 2 ^ k < 2 ^ 63
      → SystemInv (2 ^ k) (consume (2 ^ k) moved s)
  unfolding consume pop_step result
  consume-Inv s (Consumer.idle r) e v bound = rw (e, append-nil s.popped) (begin-Inv k small two v)
  consume-Inv s (Consumer.loaded at) e v bound =
      rw (e, append-nil s.popped) (load-Inv k small two bound v)
  consume-Inv s (Consumer.ready at) e v bound =
      rw (e, append-nil s.popped) (take-Inv k small two moved v)
  consume-Inv s (Consumer.taken at x) e v bound =
      rw (e, append-nil s.popped) (release-Inv k small two bound v)
  consume-Inv s (Consumer.released at x) e v bound = rw e (finish-Inv k small two bound v)

  pub Step-claims : {s t : System A} → Step (2 ^ k) moved s t → length s.claims ≤ length t.claims
  unfolding consume
  Step-claims (Step.call i b x e) = omega arith
  Step-claims {s} (Step.push i lucky) = claims-produce k small two moved s i lucky
  Step-claims Step.pop = omega arith

  pub Step-Inv :
      {s t : System A}
      → Step (2 ^ k) moved s t
      → length t.claims + 2 ^ k < 2 ^ 63
      → SystemInv (2 ^ k) s
      → SystemInv (2 ^ k) t
  unfolding consume
  Step-Inv (Step.call i b x e) bound v = local-Inv k small two v i (Producer.calling x) tt refl
  Step-Inv {s} (Step.push i lucky) bound v =
      produce-Inv k small two moved s i lucky (s.producers i) refl v bound
  Step-Inv {s} Step.pop bound v = consume-Inv s s.consumer refl v bound

  initial-Inv : (blank : A) → SystemInv (2 ^ k) (initial blank)
  unfolding initial mpsc_queue
  initial-Inv blank = record {
    enqueued = refl;
    behind = omega arith;
    room = omega arith;
    prefix = refl;
    free =
        λ p lo hi. let lt : p < 2 ^ k = omega (arith, hi) in cell-mod k small p ∙ mod-eq_of_lt lt;
    busy = λ p lo hi. absurd (omega arith);
    full = λ p lo hi e. absurd (omega arith);
    producer = λ i. tt;
    consumer = tt;
    sole = λ i j p ei ej. cc;
  }

  -- With a capacity of 2^k >= 2 and fewer than 2^63 - Capacity claimed positions, every state that the
  -- producers and the consumer reach, whatever the interleaving, satisfies the invariant on the
  -- counters, the cells and the locals of all calls.
  pub Reach-Inv :
      {blank : A} {s : System A}
      → Reach (2 ^ k) moved blank s
      → length s.claims + 2 ^ k < 2 ^ 63
      → SystemInv (2 ^ k) s
  Reach-Inv {blank} Reach.start bound = initial-Inv blank
  Reach-Inv (Reach.later r step) bound =
      Step-Inv step bound (Reach-Inv r (omega (arith, bound, Step-claims step)))
