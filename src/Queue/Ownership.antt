-- ===== src/Queue/Ownership.antt =====
-- message_queue.h: which cells the calls of Push may write.
use consolidated_book.Common.{
  ℕ, ◌+◌, ◌^◌, ◌≤◌, ◌<◌, ◌≡◌, ◌≢◌, ◌∙◌, sym, ap, List, some, arith, length, dec_lt,
}
use consolidated_book.Queue.{MpscQueue, Producer, Consumer, cell_of}
use consolidated_book.Queue.Cells.{cell-gap}
use consolidated_book.Queue.Invariant.{given_back, owned, Inv, owned-claimed}

module _ (k : ℕ) (small : k < 64) where
  -- Two positions of the window on one cell are one position.
  pub same-position :
      (t p q : ℕ)
      → t ≤ p
      → p < t + 2 ^ k
      → t ≤ q
      → q < t + 2 ^ k
      → cell_of (2 ^ k) p ≡ cell_of (2 ^ k) q
      → p ≡ q
  same-position t p q lp hp lq hq e = elim (dec_lt p q) [
    | yes lt ↦ absurd (omega (arith, cell-gap k small p q lt e))
    | no np ↦ elim (dec_lt q p) [
      | yes lt ↦ absurd (omega (arith, cell-gap k small q p lt (sym e)))
      | no nq ↦ omega arith
    ]
  ]

module _ (k : ℕ) (small : k < 64) (two : 1 < 2 ^ k) where
  -- With two cells or more, a cell that awaits its value is no published one.
  pub awaiting-ne-published :
      (s : ℕ → ℕ) (a p : ℕ)
      → s (cell_of (2 ^ k) a) ≡ a
      → s (cell_of (2 ^ k) p) ≡ p + 1
      → cell_of (2 ^ k) a ≢ cell_of (2 ^ k) p
  awaiting-ne-published s a p ea ep same =
      let e : a ≡ p + 1 = sym ea ∙ ap s same ∙ ep in
      absurd (omega (arith, e, cell-gap k small p a (omega (arith, e)) (sym same)))

module _ {A : Type 0} (k : ℕ) (small : k < 64) {q : MpscQueue A} {ps : ℕ → Producer A}
    {consumer : Consumer A} {log done : List A} (v : Inv (2 ^ k) q ps consumer log done)
    (i : ℕ) where
  abbrev pub window : ℕ
  window = given_back consumer q.dequeue_pos

  pub claimed_by :
      (j a : ℕ)
      → owned (ps j) ≡ some a
      → (window ≤ a) × (a < length log) × (q.sequence (cell_of (2 ^ k) a) ≡ a)
  claimed_by j a e = owned-claimed (2 ^ k) window (length log) q log (ps j) a (v.producer j) e

  -- Nobody else owns the cell that producer `i` owns.
  pub own-cell :
      (j a b : ℕ)
      → i ≢ j
      → owned (ps i) ≡ some a
      → owned (ps j) ≡ some b
      → cell_of (2 ^ k) a ≢ cell_of (2 ^ k) b
  own-cell j a b n ea eb same =
      let (la, ha, _) = claimed_by i a ea in
      let (lb, hb, _) = claimed_by j b eb in
      let e : a ≡ b =
        same-position k small window a b la (omega (arith, v.room)) lb (omega (arith, v.room))
          same in
      n (v.sole i j a ea (rw e eb))
