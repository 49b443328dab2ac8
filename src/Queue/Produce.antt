-- ===== src/Queue/Produce.antt =====
-- message_queue.h: each step of Push keeps the invariant.
use consolidated_book.Common.{
  ℕ, ◌+◌, ◌%◌, ◌^◌, ◌≤◌, ◌<◌, ◌≡◌, ◌≢◌, refl, ◌∙◌, sym, ap, subst, inl, inr, List, [], ◌∷◌, ◌++◌,
  true, none, some, arith, length, get_elem?, dec_lt, ℕ_discrete, length-append,
  get_elem?-append_left, get_elem?-append_length, take-append_of_le,
}
use native.Mathlib.Nat.{le_trans}
use consolidated_book.Queue.{MpscQueue, Producer, Consumer, cell_of, update, size_mod}
use consolidated_book.Queue.Ownership.{same-position, claimed_by, own-cell, awaiting-ne-published}
use consolidated_book.Queue.Invariant.{
  given_back, owned, ProducerOk, Inv, update_cases, ProducerOk-frame, ConsumerOk-frame, update-ne,
  update_self, given_back-le, dequeue-le-given_back,
}

module _ {A : Type 0} (k : ℕ) (small : k < 64) (two : 1 < 2 ^ k) {q : MpscQueue A}
    {ps : ℕ → Producer A} {consumer : Consumer A} {log done : List A}
    (v : Inv (2 ^ k) q ps consumer log done) (i : ℕ) where
  abbrev window : ℕ
  window = given_back consumer q.dequeue_pos

  abbrev pub written_queue : ℕ → A → MpscQueue A
  written_queue at x = record q { item = update q.item (cell_of (2 ^ k) at) x }

  abbrev pub published_queue : ℕ → MpscQueue A
  published_queue at = record q {
    sequence = update q.sequence (cell_of (2 ^ k) at) ((at + 1) % size_mod);
  }

  abbrev pub claimed_queue : ℕ → MpscQueue A
  claimed_queue at = record q { enqueue_pos = (at + 1) % size_mod }

  -- A step that touches nothing shared and owns no cell.
  pub local-Inv :
      (p : Producer A)
      → ProducerOk (2 ^ k) window (length log) q log p
      → owned p ≡ none
      → Inv (2 ^ k) q (update ps i p) consumer log done
  local-Inv p fine none_owned = record {
    enqueued = v.enqueued;
    behind = v.behind;
    room = v.room;
    prefix = v.prefix;
    free = v.free;
    busy = v.busy;
    full = v.full;
    producer = λ j.
        update_cases (ProducerOk (2 ^ k) window (length log) q log) ps i p j fine λ n. v.producer j;
    consumer = v.consumer;
    sole = λ a b x ea eb. ground (arith, v.sole a b x);
  }

  -- The value is written to the claimed cell.
  pub write-Inv :
      (at : ℕ) (x : A)
      → ps i ≡ Producer.claimed at x
      → Inv (2 ^ k) (written_queue at x) (update ps i (Producer.written at)) consumer log done
  write-Inv at x e = record {
    enqueued = v.enqueued;
    behind = v.behind;
    room = v.room;
    prefix = v.prefix;
    free = v.free;
    busy = v.busy;
    full = λ p lo hi done_p.
        rw (update-ne q.item x (awaiting-ne-published k small two q.sequence at p own.2 done_p))
          (v.full p lo hi done_p);
    producer = λ j.
        update_cases (ProducerOk (2 ^ k) window (length log) (written_queue at x) log) ps i
          (Producer.written at) j
          (own.0, own.1, own.2, own.3 ∙ ap some (sym (update_self q.item (cell_of (2 ^ k) at) x)))
          λ n.
            ProducerOk-frame (2 ^ k) window (length log) window (length log) q (written_queue at x)
              log log (ps j) (v.producer j) (omega arith) (omega arith)
              λ b eb. (
                (claimed_by k small v i j b eb).0,
                refl,
                update-ne q.item x (own-cell k small v i j at b n mine eb),
                refl,
              );
    consumer =
        ConsumerOk-frame (2 ^ k) (length log) (length log) q (written_queue at x) log log consumer
          v.consumer (omega arith) refl λ a lt ea. (refl, λ s. s);
    sole = λ a b y ea eb. ground (arith, v.sole a b y, mine);
  }
    where
      own : ProducerOk (2 ^ k) window (length log) q log (Producer.claimed at x)
      own = subst (ProducerOk (2 ^ k) window (length log) q log) e (v.producer i)

      mine : owned (ps i) ≡ some at
      mine = ap owned e

  -- The sequence of a claimed cell with its value written is set to the next position.
  pub publish-Inv :
      (at : ℕ)
      → length log + 2 ^ k < 2 ^ 63
      → ps i ≡ Producer.written at
      → Inv (2 ^ k) (published_queue at) (update ps i (Producer.returned true)) consumer log done
  publish-Inv at bound e = record {
    enqueued = v.enqueued;
    behind = v.behind;
    room = v.room;
    prefix = v.prefix;
    free = λ p lo hi.
        update-ne q.sequence _ (apart p (omega (arith, v.behind, lo)) hi (omega (arith, own.1, lo)))
        ∙ v.free p lo hi;
    busy = λ p lo hi. elim (ℕ_discrete at p) [
      | yes same ↦ inr (rw (← same) published)
      | no n ↦
          rw (update-ne q.sequence ((at + 1) % size_mod) (apart p lo (omega (arith, v.room)) n))
            (v.busy p lo hi)
    ];
    full = λ p lo hi done_p. elim (ℕ_discrete at p) [
      | yes same ↦ rw (← same) own.3
      | no n ↦ v.full p lo hi (
          sym (
            update-ne q.sequence _ (
              apart p (le_trans (given_back-le consumer q.dequeue_pos) lo) (omega (arith, v.room))
                n))
          ∙ done_p)
    ];
    producer = λ j.
        update_cases (ProducerOk (2 ^ k) window (length log) (published_queue at) log) ps i
          (Producer.returned true) j tt
          λ n.
            ProducerOk-frame (2 ^ k) window (length log) window (length log) q (published_queue at)
              log log (ps j) (v.producer j) (omega arith) (omega arith)
              λ b eb. (
                (claimed_by k small v i j b eb).0,
                update-ne q.sequence _ (own-cell k small v i j at b n mine eb),
                refl,
                refl,
              );
    consumer =
        ConsumerOk-frame (2 ^ k) (length log) (length log) q (published_queue at) log log consumer
          v.consumer (omega arith) refl
          λ a lt ea. (
            refl,
            λ s.
                update-ne q.sequence _ (awaiting-ne-published k small two q.sequence at a own.2 s)
                ∙ s,
          );
    sole = λ a b y ea eb. ground (arith, v.sole a b y);
  }
    where
      own : ProducerOk (2 ^ k) window (length log) q log (Producer.written at)
      own = subst (ProducerOk (2 ^ k) window (length log) q log) e (v.producer i)

      mine : owned (ps i) ≡ some at
      mine = ap owned e

      apart :
          (p : ℕ)
          → window ≤ p
          → p < window + 2 ^ k
          → at ≢ p
          → cell_of (2 ^ k) at ≢ cell_of (2 ^ k) p
      apart p lo hi n same =
          n (same-position k small window at p own.0 (omega (arith, own.1, v.room)) lo hi same)

      published :
          update q.sequence (cell_of (2 ^ k) at) ((at + 1) % size_mod) (cell_of (2 ^ k) at) ≡ at + 1
      published =
          let e : (at + 1) % size_mod ≡ at + 1 = omega (arith, own.1) in
          update_self q.sequence _ _ ∙ e

  log-get : (x : A) (p : ℕ) → p < length log → get_elem? (log ++ x ∷ []) p ≡ get_elem? log p
  log-get x p lt = get_elem?-append_left log (x ∷ []) p lt

  length-log : (x : A) → length (log ++ x ∷ []) ≡ length log + 1
  length-log x = length-append log (x ∷ [])

  -- The compare-exchange claims the next position, whose cell is free.
  pub claim-Inv :
      (at : ℕ) (x : A)
      → length log + 1 + 2 ^ k < 2 ^ 63
      → q.enqueue_pos ≡ at
      → ps i ≡ Producer.checked at x
      → Inv
          (2 ^ k)
          (claimed_queue at)
          (update ps i (Producer.claimed at x))
          consumer
          (log ++ x ∷ [])
          done
  claim-Inv at x bound won e = record {
    enqueued = omega (arith, v.enqueued, length-log x);
    behind = omega (arith, v.behind, length-log x);
    room = omega (arith, own, v.enqueued, length-log x);
    prefix =
        v.prefix
        ∙ sym (
            take-append_of_le q.dequeue_pos log (x ∷ [])
              (omega (arith, v.behind, dequeue-le-given_back consumer q.dequeue_pos)));
    free = λ p lo hi. v.free p (omega (arith, lo, length-log x)) hi;
    busy = λ p lo hi. elim (dec_lt p (length log)) [
      | yes old ↦ v.busy p lo old
      | no new ↦ inl (v.free p (omega arith) (omega (arith, length-log x, own, v.enqueued)))
    ];
    full = λ p lo hi done_p. elim (dec_lt p (length log)) [
      | yes old ↦ log-get x p old ∙ v.full p lo old done_p
      | no new ↦
          absurd (omega (arith, done_p, length-log x, own, v.enqueued, v.free p (omega arith)))
    ];
    producer = λ j.
        update_cases
          (ProducerOk (2 ^ k) window (length (log ++ x ∷ [])) (claimed_queue at) (log ++ x ∷ [])) ps
          i (Producer.claimed at x) j
          (
            omega (arith, next, v.behind),
            omega (arith, next, length-log x),
            v.free at (omega (arith, next)) own.1,
            rw next (get_elem?-append_length log x),
          )
          λ n.
            ProducerOk-frame (2 ^ k) window (length log) window (length (log ++ x ∷ [])) q
              (claimed_queue at) log (log ++ x ∷ []) (ps j) (v.producer j) (omega arith)
              (omega (arith, length-log x))
              λ b eb.
                let (lo, hi, _) = claimed_by k small v i j b eb in (lo, refl, refl, log-get x b hi);
    consumer =
        ConsumerOk-frame (2 ^ k) (length log) (length (log ++ x ∷ [])) q (claimed_queue at) log
          (log ++ x ∷ []) consumer v.consumer (omega (arith, length-log x)) refl
          λ a lt ea. (log-get x a lt, λ s. s);
    sole = λ a b p ea eb.
        ground (arith, next, v.sole a b p, claimed_by k small v i a p, claimed_by k small v i b p);
  }
    where
      own : (at ≤ length log) × (at < window + 2 ^ k)
      own = subst (ProducerOk (2 ^ k) window (length log) q log) e (v.producer i)

      next : at ≡ length log
      next = sym won ∙ v.enqueued
