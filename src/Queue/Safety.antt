-- ===== src/Queue/Safety.antt =====
-- message_queue.h: what the clients of the queue rely on, in every reachable state.
use consolidated_book.Common.{
  ℕ, ◌+◌, ◌%◌, ◌^◌, ◌≤◌, ◌<◌, ◌≡◌, ◌≢◌, refl, ◌∙◌, ap, subst, ◌⊎◌, inl, inr, ◌↔◌, Bool, false, none,
  some, arith, length, take, length-take, dec_lt,
}
use consolidated_book.Queue.{
  Producer, Consumer, cell_of, size_mod, diff, branch_push, branch_pop, push_step, pop_step,
}
use consolidated_book.Queue.Cells.{diff_cases}
use consolidated_book.Queue.Invariant.{
  given_back, owned, ProducerOk, ConsumerOk, Inv, dequeue-le-given_back, update_self,
}
use consolidated_book.Queue.Ownership.{own-cell, claimed_by, awaiting-ne-published}
use consolidated_book.Queue.Push.{SystemInv, full-window, sequence-full, sequence-lt}
use consolidated_book.Queue.Reachable.{Reach-Inv}
use consolidated_book.Queue.System.{System, produce, consume, Reach}

given_back-le_suc : {A : Type 0} (c : Consumer A) (t : ℕ) → given_back c t ≤ t + 1
given_back-le_suc (Consumer.idle r) t = omega arith
given_back-le_suc (Consumer.loaded at) t = omega arith
given_back-le_suc (Consumer.ready at) t = omega arith
given_back-le_suc (Consumer.taken at v) t = omega arith
given_back-le_suc (Consumer.released at v) t = omega arith

module _ {A : Type 0} (k : ℕ) (small : k < 64) (two : 1 < 2 ^ k) (moved : A → A) {blank : A}
    {s : System A} (r : Reach (2 ^ k) moved blank s)
    (bound : length s.claims + 2 ^ k < 2 ^ 63) where
  v : SystemInv (2 ^ k) s
  v = Reach-Inv k small two moved r bound

  -- With a capacity of 2^k >= 2 and fewer than 2^63 - Capacity claimed positions, whatever the
  -- interleaving: the values that calls of Pop returned are
  -- the first of those that calls of Push claimed a position for, in the same order, none of them lost
  -- or doubled, and at most Capacity + 1 claimed values are not returned yet.
  pub popped-prefix :
      (s.popped ≡ take (length s.popped) s.claims) × (length s.claims ≤ length s.popped + 1 + 2 ^ k)
  popped-prefix =
      let count : length s.popped ≡ s.queue.dequeue_pos =
        ap length v.prefix
        ∙ length-take s.queue.dequeue_pos s.claims
        ∙ omega (arith, v.behind, dequeue-le-given_back s.consumer s.queue.dequeue_pos) in
      (
        rw count v.prefix,
        omega (arith, count, v.room, given_back-le_suc s.consumer s.queue.dequeue_pos),
      )

  -- In a reachable state, with a capacity of 2^k >= 2 and fewer than 2^63 - Capacity claimed positions,
  -- two calls of Push that have claimed a position and not published it yet write different cells.
  pub producers-apart :
      (i j a b : ℕ)
      → i ≢ j
      → owned (s.producers i) ≡ some a
      → owned (s.producers j) ≡ some b
      → cell_of (2 ^ k) a ≢ cell_of (2 ^ k) b
  producers-apart i j a b n mine theirs = own-cell k small v i j a b n mine theirs

  -- In a reachable state, with a capacity of 2^k >= 2 and fewer than 2^63 - Capacity claimed positions,
  -- a cell that a call of Push has claimed and not published yet is not the one whose data the consumer
  -- is about to move out.
  pub consumer-apart :
      (i a at : ℕ)
      → owned (s.producers i) ≡ some a
      → s.consumer ≡ Consumer.ready at
      → cell_of (2 ^ k) a ≢ cell_of (2 ^ k) at
  consumer-apart i a at mine e =
      let (_, _, waits) = claimed_by k small v i i a mine in
      let reads = subst (ConsumerOk (2 ^ k) (length s.claims) s.queue s.claims) e v.consumer in
      awaiting-ne-published k small two s.queue.sequence a at waits reads.2

  loaded-branch :
      (i at : ℕ) (x : A) (lucky : Bool)
      → s.producers i ≡ Producer.loaded at x
      → (produce (2 ^ k) moved s i lucky).producers i
        ≡ branch_push (2 ^ k) (diff (s.queue.sequence (cell_of (2 ^ k) at)) at) at x
  unfolding produce push_step
  loaded-branch i at x lucky e = update_self s.producers i _ ∙ rw e refl

  at-le : (i at : ℕ) (x : A) → s.producers i ≡ Producer.loaded at x → at ≤ length s.claims
  at-le i at x e =
      subst
        (ProducerOk (2 ^ k) (given_back s.consumer s.queue.dequeue_pos) (length s.claims) s.queue
          s.claims)
        e (v.producer i)

  branch-false :
      (at : ℕ) (x : A)
      → at ≤ length s.claims
      → (branch_push (2 ^ k) (diff (s.queue.sequence (cell_of (2 ^ k) at)) at) at x
          ≡ Producer.returned false)
        ↔ (s.queue.sequence (cell_of (2 ^ k) at) < at)
  unfolding branch_push
  branch-false at x le =
      elim (diff_cases (s.queue.sequence (cell_of (2 ^ k) at)) at
        (sequence-lt k small two v at bound) (omega (arith, bound))) [
          | inl (e, d) ↦ rw d (λ h. cc, λ lt. absurd (omega arith))
          | inr (inl (lt, n, d)) ↦ rw d (λ h. lt, λ h. refl)
          | inr (inr (gt, n, d)) ↦ rw d (λ h. cc, λ lt. absurd (omega arith))
        ]

  -- In a reachable state, with a capacity of 2^k >= 2 and fewer than 2^63 - Capacity claimed positions,
  -- the load of a sequence makes Push return false exactly when its position is the next one to be
  -- claimed and all cells hold claimed positions that the consumer has not given back.
  pub push-full :
      (i at : ℕ) (x : A) (lucky : Bool)
      → s.producers i ≡ Producer.loaded at x
      → ((produce (2 ^ k) moved s i lucky).producers i ≡ Producer.returned false) ↔ (
          (at ≡ length s.claims)
          × (length s.claims ≡ given_back s.consumer s.queue.dequeue_pos + 2 ^ k))
  push-full i at x lucky e = rw (loaded-branch i at x lucky e) (
    λ h. full-window k small two v at (at-le i at x e) ((branch-false at x (at-le i at x e)).0 h),
    λ h. (branch-false at x (at-le i at x e)).1 (sequence-full k small two v at h.0 h.1),
  )

  awaited :
      (at : ℕ)
      → Inv (2 ^ k) s.queue s.producers (Consumer.loaded at) s.claims s.popped
      → s.queue.sequence (cell_of (2 ^ k) at) ≢ at + 1
      → (at ≡ length s.claims)
        ⊎ ((at < length s.claims) × (s.queue.sequence (cell_of (2 ^ k) at) ≡ at))
  awaited at w n = elim (dec_lt at (length s.claims)) [
    | yes lt ↦ elim (w.busy at (omega (arith, w.consumer)) lt) [
      | inl waits ↦ inr (lt, waits)
      | inr published ↦ absurd (n published)
    ]
    | no nlt ↦ inl (omega (arith, w.consumer, w.behind))
  ]

  published-not :
      (at : ℕ)
      → Inv (2 ^ k) s.queue s.producers (Consumer.loaded at) s.claims s.popped
      → s.queue.sequence (cell_of (2 ^ k) at) ≡ at + 1
      → ¬ (
          (at ≡ length s.claims)
          ⊎ ((at < length s.claims) × (s.queue.sequence (cell_of (2 ^ k) at) ≡ at)))
  published-not at w e (inl last) =
      omega (arith, e, w.free at (omega arith) (omega (arith, w.consumer, two)))
  published-not at w e (inr (lt, waits)) = omega (arith, e, waits)

  -- In a reachable state, with a capacity of 2^k >= 2 and fewer than 2^63 - Capacity claimed positions,
  -- the load of a sequence makes Pop return nullopt exactly when its position is not claimed yet, or
  -- is claimed by a call of Push that has not published its value.
  pub pop-empty :
      (at : ℕ)
      → s.consumer ≡ Consumer.loaded at
      → ((consume (2 ^ k) moved s).consumer ≡ Consumer.idle none) ↔ (
          (at ≡ length s.claims)
          ⊎ ((at < length s.claims) × (s.queue.sequence (cell_of (2 ^ k) at) ≡ at)))
  unfolding consume pop_step branch_pop
  pop-empty at e =
      let w = subst (λ c. Inv (2 ^ k) s.queue s.producers c s.claims s.popped) e v in
      let next : (at + 1) % size_mod ≡ at + 1 = omega (arith, w.consumer, w.behind, bound) in
      let fits : (at + 1) % size_mod < 2 ^ 63 = omega (arith, w.consumer, w.behind, bound, two) in
      elim (diff_cases (s.queue.sequence (cell_of (2 ^ k) at)) ((at + 1) % size_mod)
        (sequence-lt k small two v at bound) fits) [
          | inl (same, d) ↦ rw (e, d) (λ h. cc, λ h. absurd (published-not at w (same ∙ next) h))
          | inr (inl (lt, n, d)) ↦
              rw (e, d) (λ h. awaited at w (omega (arith, lt, next)), λ h. refl)
          | inr (inr (gt, n, d)) ↦
              rw (e, d) (λ h. awaited at w (omega (arith, gt, next)), λ h. refl)
        ]
