-- ===== src/Queue/System.antt =====
-- message_queue.h: any number of producers and one consumer over one queue, interleaved in any order.
use consolidated_book.Common.{ℕ, ◌≡◌, List, [], ◌∷◌, ◌++◌, Bool, true, none}
use consolidated_book.Queue.{MpscQueue, mpsc_queue, Producer, Consumer, update, push_step, pop_step}

-- `claims` holds the values in the order in which their calls of Push won the compare-exchange, and
-- `popped` those that calls of Pop have returned. The program has neither.
pub record System (A : Type 0) : Type 0 where
  pub queue : MpscQueue A
  pub producers : ℕ → Producer A
  pub consumer : Consumer A
  pub claims : List A
  pub popped : List A

unfoldable pub initial : {A : Type 0} → A → System A
initial blank = record {
  queue = mpsc_queue blank;
  producers = λ i. Producer.returned true;
  consumer = Consumer.idle none;
  claims = [];
  popped = [];
}

-- The value that a step claims, and the value that a step returns.
unfoldable pub claim : {A : Type 0} → Producer A → Producer A → List A
claim (Producer.checked at v) (Producer.claimed at' v') = v ∷ []
claim p p' = []

unfoldable pub result : {A : Type 0} → Consumer A → List A
result (Consumer.released at v) = v ∷ []
result c = []

module _ {A : Type 0} (capacity : ℕ) (moved : A → A) where
  unfoldable pub produce : System A → ℕ → Bool → System A
  produce s i lucky =
      let (q, p) = push_step capacity s.queue (s.producers i) lucky in
      record s {
        queue = q;
        producers = update s.producers i p;
        claims = s.claims ++ claim (s.producers i) p;
      }

  unfoldable pub consume : System A → System A
  consume s =
      let (q, c) = pop_step capacity moved s.queue s.consumer in
      record s { queue = q; consumer = c; popped = s.popped ++ result s.consumer }

  -- A producer that is not in a call may begin one with any value.
  pub data Step (s : System A) : System A → Type 0 where
    call :
        (i : ℕ) (b : Bool) (v : A)
        → s.producers i ≡ Producer.returned b
        → Step s (record s { producers = update s.producers i (Producer.calling v) })
    push : (i : ℕ) (lucky : Bool) → Step s (produce s i lucky)
    pop : Step s (consume s)

  pub data Reach (blank : A) : System A → Type 0 where
    start : Reach blank (initial blank)
    later : {s t : System A} → Reach blank s → Step s t → Reach blank t
