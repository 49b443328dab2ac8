-- ===== src/Queue/Push.antt =====
-- message_queue.h: the loop of push_impl, and every step of a producer, keep the invariant.
use consolidated_book.Common.{
  ℕ, ◌+◌, ◌^◌, ◌≤◌, ◌<◌, ◌≡◌, refl, ◌∙◌, sym, ap, subst, ◌⊎◌, inl, inr, List, [], ◌∷◌, Bool, false,
  ◌==◌, ◌&&◌, arith, length, dec_lt, Bool-cases, length-append,
}
use mathlib.Core.List.{append-nil}
use consolidated_book.Queue.{
  MpscQueue, Producer, Consumer, cell_of, update, diff, branch_push, push_step,
}
use consolidated_book.Queue.Cells.{cell-gap, cell-find, cell-next, diff_cases}
use consolidated_book.Queue.Invariant.{given_back, ProducerOk, Inv}
use consolidated_book.Queue.Produce.{local-Inv, write-Inv, publish-Inv, claim-Inv}
use consolidated_book.Queue.System.{System, produce, claim}

module _ {A : Type 0} (k : ℕ) (small : k < 64) (two : 1 < 2 ^ k) {q : MpscQueue A}
    {ps : ℕ → Producer A} {consumer : Consumer A} {log done : List A}
    (v : Inv (2 ^ k) q ps consumer log done) where
  abbrev window : ℕ
  window = given_back consumer q.dequeue_pos

  -- Each cell's sequence tells the position of the window that it stands for.
  pub sequence_cases :
      (at : ℕ)
      → (p : ℕ) × (window ≤ p)
        × (p < window + 2 ^ k)
        × (cell_of (2 ^ k) p ≡ cell_of (2 ^ k) at)
        × ((q.sequence (cell_of (2 ^ k) at) ≡ p)
            ⊎ ((p < length log) × (q.sequence (cell_of (2 ^ k) at) ≡ p + 1)))
  sequence_cases at =
      let (p, lo, hi, same) = cell-find k small at window in
      (
        p,
        lo,
        hi,
        same,
        elim (dec_lt p (length log)) [
          | yes old ↦ elim (v.busy p lo old) [
            | inl e ↦ inl (ap q.sequence (sym same) ∙ e)
            | inr e ↦ inr (old, ap q.sequence (sym same) ∙ e)
          ]
          | no new ↦ inl (ap q.sequence (sym same) ∙ v.free p (omega arith) hi)
        ],
      )

  -- A position not past enqueuePos whose cell has its number as the sequence lies in the window.
  pub checked-window :
      (at : ℕ) → at ≤ length log → q.sequence (cell_of (2 ^ k) at) ≡ at → at < window + 2 ^ k
  checked-window at le e =
      let (p, lo, hi, same, value) = sequence_cases at in
      elim (dec_lt at (window + 2 ^ k)) [
        | yes lt ↦ lt
        | no n ↦
            let gap : p + 2 ^ k ≤ at = cell-gap k small p at (omega arith) same in
            absurd (omega (arith, gap, value, e))
      ]

  -- A sequence below a position that is not past enqueuePos means that the window is full.
  pub full-window :
      (at : ℕ)
      → at ≤ length log
      → q.sequence (cell_of (2 ^ k) at) < at
      → (at ≡ length log) × (length log ≡ window + 2 ^ k)
  full-window at le lt =
      let (p, lo, hi, same, value) = sequence_cases at in
      let below : p < at = omega (arith, value, lt) in
      let gap : p + 2 ^ k ≤ at = cell-gap k small p at below same in
      omega (arith, gap, le, lo, v.room)

  -- And conversely, at the next position to be claimed.
  pub sequence-full :
      (at : ℕ)
      → at ≡ length log
      → length log ≡ window + 2 ^ k
      → q.sequence (cell_of (2 ^ k) at) < at
  sequence-full at last all =
      let same : cell_of (2 ^ k) at ≡ cell_of (2 ^ k) window =
        ap (cell_of (2 ^ k)) (last ∙ all) ∙ cell-next k small window in
      rw same (omega (arith, last, all, v.busy window (omega arith) (omega (arith, all, two)), two))

  pub sequence-lt :
      (at : ℕ) → length log + 2 ^ k < 2 ^ 63 → q.sequence (cell_of (2 ^ k) at) < 2 ^ 63
  sequence-lt at bound =
      let (p, lo, hi, same, value) = sequence_cases at in omega (arith, value, hi, v.behind, bound)

  load-Inv :
      (i at : ℕ) (x : A)
      → length log + 2 ^ k < 2 ^ 63
      → at ≤ length log
      → Inv
          (2 ^ k)
          q
          (update ps i (branch_push (2 ^ k) (diff (q.sequence (cell_of (2 ^ k) at)) at) at x))
          consumer
          log
          done
  unfolding branch_push
  load-Inv i at x bound le =
      elim (diff_cases (q.sequence (cell_of (2 ^ k) at)) at (sequence-lt at bound) (omega arith)) [
        | inl (e, d) ↦
            rw d
              (local-Inv k small two v i (Producer.checked at x) (le, checked-window at le e) refl)
        | inr (inl (lt, n, d)) ↦ rw d (local-Inv k small two v i (Producer.returned false) tt refl)
        | inr (inr (gt, n, d)) ↦ rw d (local-Inv k small two v i (Producer.calling x) tt refl)
      ]

abbrev pub SystemInv : {A : Type 0} → ℕ → System A → Type 0
SystemInv c s = Inv c s.queue s.producers s.consumer s.claims s.popped

module _ {A : Type 0} (k : ℕ) (small : k < 64) (two : 1 < 2 ^ k) (moved : A → A) where
  pub claims-produce :
      (s : System A) (i : ℕ) (lucky : Bool)
      → length s.claims ≤ length (produce (2 ^ k) moved s i lucky).claims
  unfolding produce
  claims-produce s i lucky = omega (
    arith,
    length-append s.claims
        (claim (s.producers i) (push_step (2 ^ k) s.queue (s.producers i) lucky).1),
  )

  module _ (s : System A) (i : ℕ) (v : SystemInv (2 ^ k) s) where
    produce-loaded :
        (at : ℕ) (x : A) (lucky : Bool)
        → s.producers i ≡ Producer.loaded at x
        → length s.claims + 2 ^ k < 2 ^ 63
        → SystemInv (2 ^ k) (produce (2 ^ k) moved s i lucky)
    unfolding produce push_step claim
    produce-loaded at x lucky e bound =
        rw (e, append-nil s.claims)
          (load-Inv k small two v i at x bound (
            subst
              (ProducerOk (2 ^ k) (given_back s.consumer s.queue.dequeue_pos) (length s.claims)
                s.queue s.claims)
              e (v.producer i)))

    produce-checked :
        (at : ℕ) (x : A) (lucky : Bool)
        → s.producers i ≡ Producer.checked at x
        → length (produce (2 ^ k) moved s i lucky).claims + 2 ^ k < 2 ^ 63
        → SystemInv (2 ^ k) (produce (2 ^ k) moved s i lucky)
    unfolding produce push_step claim
    produce-checked at x lucky e bound = elim (Bool-cases ((s.queue.enqueue_pos == at) && lucky)) [
      | inl won ↦
          rw (e, won)
            (let larger = rw (e, won) at bound in
              claim-Inv k small two v i at x
                (omega (arith, larger, length-append s.claims (x ∷ []))) (ground arith) e)
      | inr lost ↦
          rw (e, lost, append-nil s.claims)
            (local-Inv k small two v i (Producer.loaded s.queue.enqueue_pos x)
              (omega (arith, v.enqueued)) refl)
    ]

  pub produce-Inv :
      (s : System A) (i : ℕ) (lucky : Bool) (p : Producer A)
      → s.producers i ≡ p
      → SystemInv (2 ^ k) s
      → length (produce (2 ^ k) moved s i lucky).claims + 2 ^ k < 2 ^ 63
      → SystemInv (2 ^ k) (produce (2 ^ k) moved s i lucky)
  unfolding produce push_step claim
  produce-Inv s i lucky (Producer.calling x) e v bound =
      rw (e, append-nil s.claims)
        (local-Inv k small two v i (Producer.loaded s.queue.enqueue_pos x)
          (omega (arith, v.enqueued)) refl)
  produce-Inv s i lucky (Producer.loaded at x) e v bound =
      produce-loaded s i v at x lucky e (omega (arith, bound, claims-produce s i lucky))
  produce-Inv s i lucky (Producer.checked at x) e v bound = produce-checked s i v at x lucky e bound
  produce-Inv s i lucky (Producer.claimed at x) e v bound =
      rw (e, append-nil s.claims) (write-Inv k small two v i at x e)
  produce-Inv s i lucky (Producer.written at) e v bound =
      rw (e, append-nil s.claims)
        (publish-Inv k small two v i at (omega (arith, bound, claims-produce s i lucky)) e)
  produce-Inv s i lucky (Producer.returned b) e v bound =
      rw (e, append-nil s.claims) (local-Inv k small two v i (Producer.returned b) tt refl)
