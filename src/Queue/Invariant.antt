-- ===== src/Queue/Invariant.antt =====
-- message_queue.h: what every cell, producer and consumer hold between two steps.
use consolidated_book.Common.{
  ◌==◌, ◌≢◌, refl, arith, Bool-cases, inl, inr, ℕ, ◌+◌, ◌≤◌, ◌<◌, ◌≡◌, ◌⊎◌, List, Option, none,
  some, length, get_elem?, take,
}
use consolidated_book.Queue.{MpscQueue, Producer, Consumer, cell_of, update}

-- The number of positions whose cells the consumer has given back, and the number whose data it has
-- taken, at dequeuePos `t`.
abbrev pub given_back : {A : Type 0} → Consumer A → ℕ → ℕ
given_back (Consumer.released at v) t = t + 1
given_back c t = t

abbrev pub emptied : {A : Type 0} → Consumer A → ℕ → ℕ
emptied (Consumer.released at v) t = t + 1
emptied (Consumer.taken at v) t = t + 1
emptied c t = t

-- The position whose cell a producer may write.
abbrev pub owned : {A : Type 0} → Producer A → Option ℕ
owned (Producer.claimed at v) = some at
owned (Producer.written at) = some at
owned p = none

module _ {A : Type 0} (c : ℕ) where
  -- What a producer's locals say, with the positions [t, h) claimed and not given back.
  abbrev pub ProducerOk : ℕ → ℕ → MpscQueue A → List A → Producer A → Type 0
  ProducerOk t h q log (Producer.loaded at v) = at ≤ h
  ProducerOk t h q log (Producer.checked at v) = (at ≤ h) × (at < t + c)
  ProducerOk t h q log (Producer.claimed at v) =
      (t ≤ at) × (at < h) × (q.sequence (cell_of c at) ≡ at) × (get_elem? log at ≡ some v)
  ProducerOk t h q log (Producer.written at) =
      (t ≤ at)
      × (at < h)
      × (q.sequence (cell_of c at) ≡ at)
      × (get_elem? log at ≡ some (q.item (cell_of c at)))
  ProducerOk t h q log p = Unit

  abbrev pub ConsumerOk : ℕ → MpscQueue A → List A → Consumer A → Type 0
  ConsumerOk h q log (Consumer.idle r) = Unit
  ConsumerOk h q log (Consumer.loaded at) = at ≡ q.dequeue_pos
  ConsumerOk h q log (Consumer.ready at) =
      (at ≡ q.dequeue_pos) × (at < h) × (q.sequence (cell_of c at) ≡ at + 1)
  ConsumerOk h q log (Consumer.taken at v) =
      (at ≡ q.dequeue_pos)
      × (at < h)
      × (q.sequence (cell_of c at) ≡ at + 1)
      × (get_elem? log at ≡ some v)
  ConsumerOk h q log (Consumer.released at v) =
      (at ≡ q.dequeue_pos) × (at < h) × (get_elem? log at ≡ some v)

  -- `log` holds the claimed values, the one of position `p` at index `p`.
  pub record Inv (q : MpscQueue A) (ps : ℕ → Producer A) (k : Consumer A) (log done : List A)
      : Type 0 where
    pub enqueued : q.enqueue_pos ≡ length log
    pub behind : given_back k q.dequeue_pos ≤ length log
    pub room : length log ≤ given_back k q.dequeue_pos + c
    pub prefix : done ≡ take q.dequeue_pos log
    pub free :
        (p : ℕ) → length log ≤ p → p < given_back k q.dequeue_pos + c → q.sequence (cell_of c p) ≡ p
    pub busy :
        (p : ℕ)
        → given_back k q.dequeue_pos ≤ p
        → p < length log
        → (q.sequence (cell_of c p) ≡ p) ⊎ (q.sequence (cell_of c p) ≡ p + 1)
    pub full :
        (p : ℕ)
        → emptied k q.dequeue_pos ≤ p
        → p < length log
        → q.sequence (cell_of c p) ≡ p + 1
        → get_elem? log p ≡ some (q.item (cell_of c p))
    pub producer : (i : ℕ) → ProducerOk (given_back k q.dequeue_pos) (length log) q log (ps i)
    pub consumer : ConsumerOk (length log) q log k
    pub sole : (i j p : ℕ) → owned (ps i) ≡ some p → owned (ps j) ≡ some p → i ≡ j

pub update_cases :
    {A : Type 0} (P : A → Type 0) (f : ℕ → A) (i : ℕ) (a : A) (j : ℕ)
    → P a
    → (i ≢ j → P (f j))
    → P (update f i a j)
update_cases P f i a j here there = elim (Bool-cases (i == j)) [
  | inl e ↦ rw e here
  | inr e ↦ rw e (there (ground arith))
]

pub update-ne : {A : Type 0} (f : ℕ → A) {i j : ℕ} (a : A) → i ≢ j → update f i a j ≡ f j
update-ne f a n = ground arith

pub update_self : {A : Type 0} (f : ℕ → A) (i : ℕ) (a : A) → update f i a i ≡ a
update_self f i a = ground arith

pub given_back-le : {A : Type 0} (k : Consumer A) (t : ℕ) → given_back k t ≤ emptied k t
given_back-le (Consumer.idle r) t = omega arith
given_back-le (Consumer.loaded at) t = omega arith
given_back-le (Consumer.ready at) t = omega arith
given_back-le (Consumer.taken at v) t = omega arith
given_back-le (Consumer.released at v) t = omega arith

pub dequeue-le-given_back : {A : Type 0} (k : Consumer A) (t : ℕ) → t ≤ given_back k t
dequeue-le-given_back (Consumer.idle r) t = omega arith
dequeue-le-given_back (Consumer.loaded at) t = omega arith
dequeue-le-given_back (Consumer.ready at) t = omega arith
dequeue-le-given_back (Consumer.taken at v) t = omega arith
dequeue-le-given_back (Consumer.released at v) t = omega arith

module _ {A : Type 0} (c : ℕ) where
  -- An owned cell is claimed and not published.
  pub owned-claimed :
      (t h : ℕ) (q : MpscQueue A) (log : List A) (p : Producer A) (at : ℕ)
      → ProducerOk c t h q log p
      → owned p ≡ some at
      → (t ≤ at) × (at < h) × (q.sequence (cell_of c at) ≡ at)
  owned-claimed t h q log (Producer.calling v) at ok e = cc
  owned-claimed t h q log (Producer.loaded a v) at ok e = cc
  owned-claimed t h q log (Producer.checked a v) at ok e = cc
  owned-claimed t h q log (Producer.claimed a v) at ok e = ground arith
  owned-claimed t h q log (Producer.written a) at ok e = ground arith
  owned-claimed t h q log (Producer.returned b) at ok e = cc

  -- What a producer knows outlives a step that leaves alone the cell that it owns.
  pub ProducerOk-frame :
      (t h t' h' : ℕ) (q q' : MpscQueue A) (log log' : List A) (p : Producer A)
      → ProducerOk c t h q log p
      → t ≤ t'
      → h ≤ h'
      → ((at : ℕ)
          → owned p ≡ some at
          → (t' ≤ at)
            × (q'.sequence (cell_of c at) ≡ q.sequence (cell_of c at))
            × (q'.item (cell_of c at) ≡ q.item (cell_of c at))
            × (get_elem? log' at ≡ get_elem? log at))
      → ProducerOk c t' h' q' log' p
  ProducerOk-frame t h t' h' q q' log log' (Producer.calling v) ok lt lh keep = tt
  ProducerOk-frame t h t' h' q q' log log' (Producer.loaded at v) ok lt lh keep = omega arith
  ProducerOk-frame t h t' h' q q' log log' (Producer.checked at v) ok lt lh keep = omega arith
  ProducerOk-frame t h t' h' q q' log log' (Producer.claimed at v) ok lt lh keep =
      ground (arith, keep at refl)
  ProducerOk-frame t h t' h' q q' log log' (Producer.written at) ok lt lh keep =
      ground (arith, keep at refl)
  ProducerOk-frame t h t' h' q q' log log' (Producer.returned b) ok lt lh keep = tt

  -- What the consumer knows outlives a step that leaves alone the sequence of the next cell, if that
  -- is published.
  pub ConsumerOk-frame :
      (h h' : ℕ) (q q' : MpscQueue A) (log log' : List A) (k : Consumer A)
      → ConsumerOk c h q log k
      → h ≤ h'
      → q'.dequeue_pos ≡ q.dequeue_pos
      → ((at : ℕ)
          → at < h
          → at ≡ q.dequeue_pos
          → (get_elem? log' at ≡ get_elem? log at)
            × (q.sequence (cell_of c at) ≡ at + 1 → q'.sequence (cell_of c at) ≡ at + 1))
      → ConsumerOk c h' q' log' k
  ConsumerOk-frame h h' q q' log log' (Consumer.idle r) ok lh same keep = tt
  ConsumerOk-frame h h' q q' log log' (Consumer.loaded at) ok lh same keep = omega arith
  ConsumerOk-frame h h' q q' log log' (Consumer.ready at) ok lh same keep =
      ground (arith, keep at ok.1 ok.0)
  ConsumerOk-frame h h' q q' log log' (Consumer.taken at v) ok lh same keep =
      ground (arith, keep at ok.1 ok.0)
  ConsumerOk-frame h h' q q' log log' (Consumer.released at v) ok lh same keep =
      ground (arith, keep at ok.1 ok.0)
