-- ===== src/Queue/Drain.antt =====
-- message_queue.h: the consumer empties the queue once the producers are through.
use consolidated_book.Common.{
  ℕ, zero, suc, ◌+◌, ◌-◌, ◌^◌, ◌≤◌, ◌<◌, ◌≡◌, refl, ◌∙◌, sym, ap, subst, List, [], ◌∷◌, Option,
  none, some, arith, length, take, length-take, inl, inr,
}
use consolidated_book.Queue.{Consumer, cell_of, pop_step}
use consolidated_book.Queue.Alone.{pop_run, pop-alone}
use consolidated_book.Queue.Awaiting.{Awaited}
use consolidated_book.Queue.Awaited.{Reach-Awaited}
use consolidated_book.Queue.Invariant.{given_back, owned, Inv}
use consolidated_book.Queue.Reachable.{Reach-Inv}
use consolidated_book.Queue.Safety.{pop-empty}
use consolidated_book.Queue.System.{System, consume, Step, Reach}

module _ {A : Type 0} (c : ℕ) (moved : A → A) where
  -- So many steps of the consumer.
  unfoldable pub consumes : ℕ → System A → System A
  consumes zero s = s
  consumes (suc n) s = consumes n (consume c moved s)

  -- So many calls of Pop that find a value: five steps each.
  unfoldable pub drain : ℕ → System A → System A
  drain zero s = s
  drain (suc n) s = drain n (consumes 5 s)

  consumes-pop_run :
      (n : ℕ) (s : System A)
      → ((consumes n s).queue ≡ (pop_run c moved n s.queue s.consumer).0)
        × ((consumes n s).consumer ≡ (pop_run c moved n s.queue s.consumer).1)
        × ((consumes n s).producers ≡ s.producers)
        × ((consumes n s).claims ≡ s.claims)
  unfolding consumes pop_run consume
  consumes-pop_run zero s = (refl, refl, refl, refl)
  consumes-pop_run (suc n) s = consumes-pop_run n (consume c moved s)

  consumes-Reach :
      {blank : A} (n : ℕ) (s : System A)
      → Reach c moved blank s
      → Reach c moved blank (consumes n s)
  unfolding consumes
  consumes-Reach zero s r = r
  consumes-Reach (suc n) s r = consumes-Reach n (consume c moved s) (Reach.later r Step.pop)

take_all : {A : Type 0} (n : ℕ) (xs : List A) → length xs ≤ n → take n xs ≡ xs
take_all zero [] h = refl
take_all zero (x ∷ xs) h = absurd (omega arith)
take_all (suc n) [] h = refl
take_all (suc n) (x ∷ xs) h = rw (take_all n xs (omega arith))

module _ {A : Type 0} (k : ℕ) (small : k < 64) (two : 1 < 2 ^ k) (moved : A → A) (blank : A) where
  -- No call of Push is between its claim and the end of its publication, and no call of Pop is under
  -- way.
  pub record IsQuiet (s : System A) : Type 0 where
    pub reached : Reach (2 ^ k) moved blank s
    pub fits : length s.claims + 2 ^ k < 2 ^ 63
    pub through : (i : ℕ) → owned (s.producers i) ≡ none
    pub last : Option A
    pub resting : s.consumer ≡ Consumer.idle last

  published :
      (s : System A)
      → IsQuiet s
      → s.queue.dequeue_pos < length s.claims
      → s.queue.sequence (cell_of (2 ^ k) s.queue.dequeue_pos) ≡ s.queue.dequeue_pos + 1
  published s h lt =
      let v = Reach-Inv k small two moved h.reached h.fits in
      let v' = subst (λ c. Inv (2 ^ k) s.queue s.producers c s.claims s.popped) h.resting v in
      elim (v'.busy s.queue.dequeue_pos (omega arith) lt) [
        | inl waits ↦
            let w =
              subst
                (λ c.
                  Awaited (2 ^ k) (given_back c s.queue.dequeue_pos) s.queue s.producers
                    (length s.claims))
                h.resting (Reach-Awaited k small two moved h.reached h.fits) in
            let (i, mine) = w s.queue.dequeue_pos (omega arith) lt waits in
            ground (arith, h.through i, mine)
        | inr done ↦ done
      ]

  consumes-IsQuiet :
      (s : System A)
      → IsQuiet s
      → s.queue.dequeue_pos < length s.claims
      → IsQuiet (consumes (2 ^ k) moved 5 s)
        × ((consumes (2 ^ k) moved 5 s).queue.dequeue_pos ≡ s.queue.dequeue_pos + 1)
        × ((consumes (2 ^ k) moved 5 s).claims ≡ s.claims)
  consumes-IsQuiet s h lt =
      let v = Reach-Inv k small two moved h.reached h.fits in
      let (q', x, ran, got, next, given) =
        pop-alone k small two v h.fits moved h.last h.resting lt (published s h lt) in
      let (eq, ec, ep, el) = consumes-pop_run (2 ^ k) moved 5 s in
      let whole : pop_run (2 ^ k) moved 5 s.queue s.consumer ≡ (q', Consumer.idle (some x)) =
        ap (pop_run (2 ^ k) moved 5 s.queue) h.resting ∙ ran in
      (
        record {
          reached = consumes-Reach (2 ^ k) moved 5 s h.reached;
          fits = subst (λ l. length l + 2 ^ k < 2 ^ 63) (sym el) h.fits;
          through = λ i. ap (λ ps. owned (ps i)) ep ∙ h.through i;
          last = some x;
          resting = ec ∙ ap (λ r. r.1) whole;
        },
        ap (λ q. q.dequeue_pos) (eq ∙ ap (λ r. r.0) whole) ∙ next,
        el,
      )

  drain-IsQuiet :
      (n : ℕ) (s : System A)
      → IsQuiet s
      → n + s.queue.dequeue_pos ≡ length s.claims
      → IsQuiet (drain (2 ^ k) moved n s)
        × ((drain (2 ^ k) moved n s).queue.dequeue_pos ≡ length s.claims)
        × ((drain (2 ^ k) moved n s).claims ≡ s.claims)
  unfolding drain
  drain-IsQuiet zero s h e = (h, omega (arith, e), refl)
  drain-IsQuiet (suc n) s h e =
      let (h', next, same) = consumes-IsQuiet s h (omega arith) in
      let (q, all, kept) =
        drain-IsQuiet n (consumes (2 ^ k) moved 5 s) h' (omega (arith, next, ap length same)) in
      (q, all ∙ ap length same, kept ∙ same)

  popped-dequeued :
      (s : System A)
      → IsQuiet s
      → (s.popped ≡ take s.queue.dequeue_pos s.claims) × (length s.popped ≡ s.queue.dequeue_pos)
  popped-dequeued s h =
      let v = Reach-Inv k small two moved h.reached h.fits in
      let v' = subst (λ c. Inv (2 ^ k) s.queue s.producers c s.claims s.popped) h.resting v in
      (
        v.prefix,
        ap length v.prefix ∙ length-take s.queue.dequeue_pos s.claims ∙ omega (arith, v'.behind),
      )

  begun :
      (s : System A) (r : Option A)
      → s.consumer ≡ Consumer.idle r
      → (consume (2 ^ k) moved s).consumer ≡ Consumer.loaded s.queue.dequeue_pos
  unfolding consume pop_step
  begun s r e = rw e refl

  -- In a reachable state, with a capacity of 2^k >= 2 and fewer than 2^63 - Capacity claimed positions,
  -- once no call of Push is between its claim and the end of its publication and no call of Pop is
  -- under way: as many calls of Pop as there are claimed values that are not returned yet, of five
  -- steps each, return all of them. All claimed values have then been returned, each once and in the
  -- order of their claims, and two more steps make the next call of Pop return nullopt.
  pub drain-popped :
      (s : System A)
      → IsQuiet s
      → let t = drain (2 ^ k) moved (length s.claims - length s.popped) s in
        (t.popped ≡ s.claims)
        × (t.claims ≡ s.claims)
        × ((consumes (2 ^ k) moved 2 t).consumer ≡ Consumer.idle none)
  unfolding consumes consume
  drain-popped s h =
      let (prefix, count) = popped-dequeued s h in
      let n = length s.claims - length s.popped in
      let v = Reach-Inv k small two moved h.reached h.fits in
      let v' = subst (λ c. Inv (2 ^ k) s.queue s.producers c s.claims s.popped) h.resting v in
      let (h', all, same) = drain-IsQuiet n s h (omega (arith, count, v'.behind)) in
      let t = drain (2 ^ k) moved n s in
      let (prefix', count') = popped-dequeued t h' in
      (
        prefix' ∙ take_all t.queue.dequeue_pos t.claims (omega (arith, all, ap length same)) ∙ same,
        same,
        (pop-empty k small two moved (Reach.later h'.reached Step.pop) h'.fits t.queue.dequeue_pos
              (begun t h'.last h'.resting)).1
            (inl (all ∙ sym (ap length same))),
      )
