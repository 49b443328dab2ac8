-- ===== src/Queue/Release.antt =====
-- message_queue.h: the steps of Pop that give its cell back keep the invariant.
use native.Mathlib.Numerals.{add-one}
use consolidated_book.Common.{
  ℕ, ◌+◌, ◌%◌, ◌^◌, ◌≤◌, ◌<◌, ◌≡◌, ◌≢◌, refl, ◌∙◌, sym, ap, subst, List, [], ◌∷◌, ◌++◌, some, arith,
  length, get_elem?, dec_lt, ℕ_discrete, take-suc_of_get,
}
use consolidated_book.Queue.{MpscQueue, Producer, Consumer, cell_of, update, size_mod}
use consolidated_book.Queue.Cells.{cell-next}
use consolidated_book.Queue.Ownership.{same-position, claimed_by}
use consolidated_book.Queue.Invariant.{owned, Inv, update-ne, update_self, ProducerOk-frame}
use consolidated_book.Queue.Consume.{apart}

abbrev pub released_queue : {A : Type 0} → ℕ → MpscQueue A → ℕ → MpscQueue A
released_queue k q at = record q {
  sequence = update q.sequence (cell_of (2 ^ k) at) ((at + 2 ^ k) % size_mod);
}

module _ {A : Type 0} (k : ℕ) (small : k < 64) (two : 1 < 2 ^ k) {q : MpscQueue A}
    {ps : ℕ → Producer A} {log done : List A} where
  -- The cell goes back to the producers, for the position one round later.
  pub release-Inv :
      {at : ℕ} {x : A}
      → length log + 2 ^ k < 2 ^ 63
      → Inv (2 ^ k) q ps (Consumer.taken at x) log done
      → Inv (2 ^ k) (released_queue k q at) ps (Consumer.released at x) log done
  release-Inv {at} {x} bound v = record {
    enqueued = v.enqueued;
    behind = omega (arith, here, v.consumer.1);
    room = omega (arith, v.room);
    prefix = v.prefix;
    free = λ p lo hi. elim (dec_lt p (q.dequeue_pos + 2 ^ k)) [
      | yes old ↦
          update-ne q.sequence _ (later p (omega (arith, lo, here, v.consumer.1)) old)
          ∙ v.free p lo old
      | no new ↦
          let e : p ≡ at + 2 ^ k = omega (arith, here, hi) in
          rw (e, cell-next k small at) (update_self q.sequence _ _ ∙ round)
    ];
    busy = λ p lo hi.
        rw
          (update-ne q.sequence ((at + 2 ^ k) % size_mod)
            (later p (omega (arith, lo, here)) (omega (arith, v.room, hi))))
          (v.busy p (omega (arith, lo)) hi);
    full = λ p lo hi e. v.full p lo hi (
        sym (update-ne q.sequence _ (later p (omega (arith, lo, here)) (omega (arith, v.room, hi))))
        ∙ e);
    producer = λ j.
        ProducerOk-frame (2 ^ k) q.dequeue_pos (length log) (q.dequeue_pos + 1) (length log) q
          (released_queue k q at) log log (ps j) (v.producer j) (omega arith) (omega arith)
          λ b eb. (
            owned_later j b eb,
            update-ne q.sequence _ (apart k small two v at b v.consumer.2 j eb),
            refl,
            refl,
          );
    consumer = (here, v.consumer.1, v.consumer.3);
    sole = v.sole;
  }
    where
      here : at ≡ q.dequeue_pos
      here = v.consumer.0

      round : (at + 2 ^ k) % size_mod ≡ at + 2 ^ k
      round = omega (arith, bound, v.consumer.1)

      later : (p : ℕ) → at < p → p < q.dequeue_pos + 2 ^ k → cell_of (2 ^ k) at ≢ cell_of (2 ^ k) p
      later p lt hi same = absurd (
          omega (
            arith,
            lt,
            same-position k small q.dequeue_pos at p (omega (arith, here))
                (omega (arith, here, two)) (omega (arith, lt, here)) hi same,
          ))

      owned_later : (j b : ℕ) → owned (ps j) ≡ some b → q.dequeue_pos + 1 ≤ b
      owned_later j b eb =
          let (lo, _, _) = claimed_by k small v j j b eb in
          elim (ℕ_discrete at b) [
            | yes e ↦ absurd (apart k small two v at b v.consumer.2 j eb (ap (cell_of (2 ^ k)) e))
            | no n ↦ omega (arith, lo, n, here)
          ]

  -- dequeuePos moves on, and the value is returned.
  pub finish-Inv :
      {at : ℕ} {x : A}
      → length log + 2 ^ k < 2 ^ 63
      → Inv (2 ^ k) q ps (Consumer.released at x) log done
      → Inv
          (2 ^ k)
          (record q { dequeue_pos = (at + 1) % size_mod })
          ps
          (Consumer.idle (some x))
          log
          (done ++ x ∷ [])
  finish-Inv {at} {x} bound v = rw moved_on (record {
    enqueued = v.enqueued;
    behind = v.behind;
    room = v.room;
    prefix =
        rw add-one
          (ap (λ l. l ++ x ∷ []) v.prefix ∙ sym (take-suc_of_get q.dequeue_pos log x last));
    free = v.free;
    busy = v.busy;
    full = v.full;
    producer = λ j.
        ProducerOk-frame (2 ^ k) (q.dequeue_pos + 1) (length log) (q.dequeue_pos + 1) (length log) q
          (record q { dequeue_pos = q.dequeue_pos + 1 }) log log (ps j) (v.producer j) (omega arith)
          (omega arith) λ b eb. ((claimed_by k small v j j b eb).0, refl, refl, refl);
    consumer = tt;
    sole = v.sole;
  })
    where
      last : get_elem? log q.dequeue_pos ≡ some x
      last = subst (λ n. get_elem? log n ≡ some x) v.consumer.0 v.consumer.2

      moved_on : (at + 1) % size_mod ≡ q.dequeue_pos + 1
      moved_on = omega (arith, bound, v.consumer.0, v.consumer.1)
