-- ===== src/Queue/Awaiting.antt =====
-- message_queue.h: the steps of Push, and the claimed positions that await their values.
use consolidated_book.Common.{
  ℕ, ◌+◌, ◌%◌, ◌^◌, ◌≤◌, ◌<◌, ◌≡◌, ◌≢◌, refl, ◌∙◌, sym, ap, subst, [], ◌∷◌, ◌++◌, Bool, true, some,
  arith, length, length-append, dec_lt, ℕ_discrete, Bool-cases, inl, inr, ◌==◌, ◌&&◌,
}
use mathlib.Core.List.{append-nil}
use consolidated_book.Queue.{
  MpscQueue, Producer, cell_of, size_mod, update, diff, branch_push, push_step,
}
use consolidated_book.Queue.Ownership.{same-position}
use consolidated_book.Queue.Invariant.{given_back, owned, ProducerOk, update-ne, update_self}
use consolidated_book.Queue.Push.{SystemInv}
use consolidated_book.Queue.System.{System, claim, produce}

-- Every claimed position from `t` on that awaits its value is owned by a call of Push.
abbrev pub Awaited : {A : Type 0} → ℕ → ℕ → MpscQueue A → (ℕ → Producer A) → ℕ → Type 0
Awaited c t q ps h =
    (p : ℕ) → t ≤ p → p < h → q.sequence (cell_of c p) ≡ p → (i : ℕ) × (owned (ps i) ≡ some p)

module _ {A : Type 0} (c : ℕ) where
  -- Producer `i` moves on, and what it owned it still owns.
  pub moves-Awaited :
      (t h : ℕ) (q q' : MpscQueue A) (ps : ℕ → Producer A) (i : ℕ) (next : Producer A)
      → q'.sequence ≡ q.sequence
      → ((p : ℕ) → owned (ps i) ≡ some p → owned next ≡ some p)
      → Awaited c t q ps h
      → Awaited c t q' (update ps i next) h
  moves-Awaited t h q q' ps i next same keeps w p lo hi e =
      let (j, mine) = w p lo hi (ap (λ s. s (cell_of c p)) (sym same) ∙ e) in
      elim (ℕ_discrete i j) [
        | yes here ↦
            (i, ap owned (update_self ps i next) ∙ keeps p (ap (λ n. owned (ps n)) here ∙ mine))
        | no there ↦ (j, ap owned (update-ne ps next there) ∙ mine)
      ]

abbrev pub SystemAwaited : {A : Type 0} → ℕ → System A → Type 0
SystemAwaited c s =
    Awaited c (given_back s.consumer s.queue.dequeue_pos) s.queue s.producers (length s.claims)

module _ {A : Type 0} (k : ℕ) (small : k < 64) (two : 1 < 2 ^ k) (moved : A → A) where
  claimed-Awaited :
      (s : System A) (i at : ℕ) (x : A)
      → SystemInv (2 ^ k) s
      → s.queue.enqueue_pos ≡ at
      → s.producers i ≡ Producer.checked at x
      → SystemAwaited (2 ^ k) s
      → Awaited
          (2 ^ k)
          (given_back s.consumer s.queue.dequeue_pos)
          (record s.queue { enqueue_pos = (at + 1) % size_mod })
          (update s.producers i (Producer.claimed at x))
          (length (s.claims ++ x ∷ []))
  claimed-Awaited s i at x v won e w p lo hi waits = elim (dec_lt p (length s.claims)) [
    | yes old ↦
        moves-Awaited (2 ^ k) _ _ s.queue (record s.queue { enqueue_pos = (at + 1) % size_mod })
          s.producers i (Producer.claimed at x) refl (λ y h. cc) w p lo old waits
    | no new ↦
        let last : at ≡ p = omega (arith, length-append s.claims (x ∷ []), v.enqueued) in
        (i, ap owned (update_self s.producers i (Producer.claimed at x)) ∙ ap some last)
  ]

  -- A cell that is published awaits nothing, and no other position of the window is on it.
  published-Awaited :
      (s : System A) (i at : ℕ)
      → SystemInv (2 ^ k) s
      → s.producers i ≡ Producer.written at
      → length s.claims + 2 ^ k < 2 ^ 63
      → SystemAwaited (2 ^ k) s
      → Awaited
          (2 ^ k)
          (given_back s.consumer s.queue.dequeue_pos)
          (record s.queue {
            sequence = update s.queue.sequence (cell_of (2 ^ k) at) ((at + 1) % size_mod);
          })
          (update s.producers i (Producer.returned true))
          (length s.claims)
  published-Awaited s i at v e bound w p lo hi waits =
      let window = given_back s.consumer s.queue.dequeue_pos in
      let own =
        subst (ProducerOk (2 ^ k) window (length s.claims) s.queue s.claims) e (v.producer i) in
      let next : (at + 1) % size_mod ≡ at + 1 = omega (arith, own.1, bound) in
      elim (ℕ_discrete at p) [
        | yes same ↦ absurd (
            omega (
              arith,
              next,
              same,
              sym (update_self s.queue.sequence (cell_of (2 ^ k) at) ((at + 1) % size_mod))
                  ∙ ap
                      (λ y.
                        update s.queue.sequence (cell_of (2 ^ k) at) ((at + 1) % size_mod)
                          (cell_of (2 ^ k) y))
                      same
                  ∙ waits,
            ))
        | no n ↦
            let apart : cell_of (2 ^ k) at ≢ cell_of (2 ^ k) p = λ h. n (
              same-position k small window at p own.0 (omega (arith, own.1, v.room)) lo
                (omega (arith, hi, v.room)) h) in
            let (j, mine) =
              w p lo hi (sym (update-ne s.queue.sequence ((at + 1) % size_mod) apart) ∙ waits) in
            (
              j,
              ap owned
                    (update-ne s.producers (Producer.returned true) (not-owner i j at p e n mine))
                  ∙ mine,
            )
      ]
    where
      not-owner :
          (a b x y : ℕ)
          → s.producers a ≡ Producer.written x
          → x ≢ y
          → owned (s.producers b) ≡ some y
          → a ≢ b
      not-owner a b x y here n mine same = ground (arith, ap (λ c. owned (s.producers c)) same)

  pub produce-Awaited :
      (s : System A) (i : ℕ) (lucky : Bool) (p : Producer A)
      → s.producers i ≡ p
      → SystemInv (2 ^ k) s
      → length s.claims + 2 ^ k < 2 ^ 63
      → SystemAwaited (2 ^ k) s
      → SystemAwaited (2 ^ k) (produce (2 ^ k) moved s i lucky)
  unfolding produce push_step claim
  produce-Awaited s i lucky (Producer.calling x) e v bound w =
      rw (e, append-nil s.claims)
        (moves-Awaited (2 ^ k) _ _ s.queue s.queue s.producers i
          (Producer.loaded s.queue.enqueue_pos x) refl (λ y h. ground (arith, e)) w)
  produce-Awaited s i lucky (Producer.loaded at x) e v bound w =
      rw (e, append-nil s.claims)
        (moves-Awaited (2 ^ k) _ _ s.queue s.queue s.producers i
          (branch_push (2 ^ k) (diff (s.queue.sequence (cell_of (2 ^ k) at)) at) at x) refl
          (λ y h. ground (arith, e)) w)
  produce-Awaited s i lucky (Producer.checked at x) e v bound w =
      elim (Bool-cases ((s.queue.enqueue_pos == at) && lucky)) [
        | inl won ↦ rw (e, won) (claimed-Awaited s i at x v (ground arith) e w)
        | inr lost ↦
            rw (e, lost, append-nil s.claims)
              (moves-Awaited (2 ^ k) _ _ s.queue s.queue s.producers i
                (Producer.loaded s.queue.enqueue_pos x) refl (λ y h. ground (arith, e)) w)
      ]
  produce-Awaited s i lucky (Producer.claimed at x) e v bound w =
      rw (e, append-nil s.claims)
        (moves-Awaited (2 ^ k) _ _ s.queue
          (record s.queue { item = update s.queue.item (cell_of (2 ^ k) at) x }) s.producers i
          (Producer.written at) refl (λ y h. ground (arith, e)) w)
  produce-Awaited s i lucky (Producer.written at) e v bound w =
      rw (e, append-nil s.claims) (published-Awaited s i at v e bound w)
  produce-Awaited s i lucky (Producer.returned b) e v bound w =
      rw (e, append-nil s.claims)
        (moves-Awaited (2 ^ k) _ _ s.queue s.queue s.producers i (Producer.returned b) refl
          (λ y h. ground (arith, e)) w)
