-- ===== src/Queue/Consume.antt =====
-- message_queue.h: the steps of Pop up to the move of the value keep the invariant.
use consolidated_book.Common.{
  ℕ, ◌+◌, ◌%◌, ◌^◌, ◌<◌, ◌≡◌, ◌≢◌, refl, ◌∙◌, sym, ap, inl, inr, List, Option, none, some, arith,
  length, dec_lt,
}
use consolidated_book.Queue.{
  MpscQueue, Producer, Consumer, cell_of, update, size_mod, diff, branch_pop,
}
use consolidated_book.Queue.Cells.{diff_cases}
use consolidated_book.Queue.Ownership.{same-position, awaiting-ne-published, claimed_by}
use consolidated_book.Queue.Invariant.{owned, Inv, update-ne, ProducerOk-frame}
use consolidated_book.Queue.Push.{sequence-lt}

abbrev pub moved_queue : {A : Type 0} → ℕ → MpscQueue A → (A → A) → ℕ → MpscQueue A
moved_queue k q moved at = record q {
  item = update q.item (cell_of (2 ^ k) at) (moved (q.item (cell_of (2 ^ k) at)));
}

module _ {A : Type 0} (k : ℕ) (small : k < 64) (two : 1 < 2 ^ k) {q : MpscQueue A}
    {ps : ℕ → Producer A} {log done : List A} where
  -- A step of the consumer that touches nothing shared, where the window stays.
  pub begin-Inv :
      {r : Option A}
      → Inv (2 ^ k) q ps (Consumer.idle r) log done
      → Inv (2 ^ k) q ps (Consumer.loaded q.dequeue_pos) log done
  begin-Inv v = record {
    enqueued = v.enqueued;
    behind = v.behind;
    room = v.room;
    prefix = v.prefix;
    free = v.free;
    busy = v.busy;
    full = v.full;
    producer = v.producer;
    consumer = refl;
    sole = v.sole;
  }

  ready-Inv :
      {at : ℕ}
      → Inv (2 ^ k) q ps (Consumer.loaded at) log done
      → q.sequence (cell_of (2 ^ k) at) ≡ at + 1
      → at < length log
      → Inv (2 ^ k) q ps (Consumer.ready at) log done
  ready-Inv v e lt = record {
    enqueued = v.enqueued;
    behind = v.behind;
    room = v.room;
    prefix = v.prefix;
    free = v.free;
    busy = v.busy;
    full = v.full;
    producer = v.producer;
    consumer = (v.consumer, lt, e);
    sole = v.sole;
  }

  nothing-Inv :
      {at : ℕ}
      → Inv (2 ^ k) q ps (Consumer.loaded at) log done
      → Inv (2 ^ k) q ps (Consumer.idle none) log done
  nothing-Inv v = record {
    enqueued = v.enqueued;
    behind = v.behind;
    room = v.room;
    prefix = v.prefix;
    free = v.free;
    busy = v.busy;
    full = v.full;
    producer = v.producer;
    consumer = tt;
    sole = v.sole;
  }

  published-lt :
      {at : ℕ}
      → Inv (2 ^ k) q ps (Consumer.loaded at) log done
      → q.sequence (cell_of (2 ^ k) at) ≡ at + 1
      → at < length log
  published-lt {at} v e = elim (dec_lt at (length log)) [
    | yes lt ↦ lt
    | no n ↦ absurd (
        omega (arith, e, v.consumer, two, v.free at (omega arith) (omega (arith, v.consumer, two))))
  ]

  -- The cell of dequeuePos is published exactly where its sequence says so.
  pub load-Inv :
      {at : ℕ}
      → length log + 2 ^ k < 2 ^ 63
      → Inv (2 ^ k) q ps (Consumer.loaded at) log done
      → Inv
          (2 ^ k)
          q
          ps
          (branch_pop (2 ^ k) (diff (q.sequence (cell_of (2 ^ k) at)) ((at + 1) % size_mod)) at)
          log
          done
  unfolding branch_pop
  load-Inv {at} bound v =
      let next : (at + 1) % size_mod ≡ at + 1 = omega (arith, v.consumer, v.behind, bound) in
      elim (diff_cases (q.sequence (cell_of (2 ^ k) at)) ((at + 1) % size_mod)
        (sequence-lt k small two v at bound) (omega (arith, v.consumer, v.behind, bound, two))) [
          | inl (e, d) ↦ rw d (ready-Inv v (e ∙ next) (published-lt v (e ∙ next)))
          | inr (inl (lt, n, d)) ↦ rw d (nothing-Inv v)
          | inr (inr (gt, n, d)) ↦ rw d (nothing-Inv v)
        ]

  pub apart :
      {consumer : Consumer A}
      → Inv (2 ^ k) q ps consumer log done
      → (at p : ℕ) → q.sequence (cell_of (2 ^ k) at) ≡ at + 1
      → (i : ℕ) → owned (ps i) ≡ some p
      → cell_of (2 ^ k) at ≢ cell_of (2 ^ k) p
  apart v at p e i mine same =
      let (_, _, waits) = claimed_by k small v i i p mine in
      awaiting-ne-published k small two q.sequence p at waits e (sym same)

  -- The value is moved out of the published cell.
  pub take-Inv :
      (moved : A → A) {at : ℕ}
      → Inv (2 ^ k) q ps (Consumer.ready at) log done
      → Inv
          (2 ^ k)
          (moved_queue k q moved at)
          ps
          (Consumer.taken at (q.item (cell_of (2 ^ k) at)))
          log
          done
  take-Inv moved {at} v = record {
    enqueued = v.enqueued;
    behind = v.behind;
    room = v.room;
    prefix = v.prefix;
    free = v.free;
    busy = v.busy;
    full = λ p lo hi e.
        v.full p (omega arith) hi e
        ∙ ap some (
            sym (
              update-ne q.item _ λ same. absurd (
                omega (
                  arith,
                  lo,
                  here,
                  same-position k small q.dequeue_pos at p (omega (arith, here))
                      (omega (arith, here, two)) (omega (arith, lo)) (omega (arith, v.room, hi))
                      same,
                ))));
    producer = λ j.
        ProducerOk-frame (2 ^ k) q.dequeue_pos (length log) q.dequeue_pos (length log) q
          (moved_queue k q moved at) log log (ps j) (v.producer j) (omega arith) (omega arith)
          λ b eb. (
            (claimed_by k small v j j b eb).0,
            refl,
            update-ne q.item _ (apart v at b v.consumer.2 j eb),
            refl,
          );
    consumer = (
      here,
      v.consumer.1,
      v.consumer.2,
      v.full at (omega (arith, here)) v.consumer.1 v.consumer.2,
    );
    sole = v.sole;
  }
    where
      here : at ≡ q.dequeue_pos
      here = v.consumer.0
