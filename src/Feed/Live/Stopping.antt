-- ===== src/Feed/Live/Stopping.antt =====
-- base_provider.cpp: a call of Stop against the worker, to its end.
use consolidated_book.Common.{
  ℕ, ◌+◌, ◌-◌, ◌≤◌, ◌≡◌, ◌≢◌, refl, ◌∙◌, List, [], ◌∷◌, true, false, length, arith,
}
use consolidated_book.Session.{ErrorCode}
use consolidated_book.Feed.Trades.{TradeFeed}
use consolidated_book.Feed.Providers.{ExchangeProvider}
use consolidated_book.Feed.Live.{
  Worker, Caller, Live, Outcome, stop_step, run_step, run_steps, Reach,
}
use consolidated_book.Provider.Lifetime
use consolidated_book.Feed.Live.View.{joinable-worker_view, IsSimulated}
use consolidated_book.Feed.Live.Simulation.{Reach-IsSimulated}
use consolidated_book.Feed.Live.Halting.{
  rank, in_handler, rank_past, IsStopping, stop_step-IsStopping, run_step-IsStopping,
  run_step-IsQuiet, run_steps-quiet,
}

-- A bound on the rounds until Stop returns, with `n` the rank of the worker.
abbrev pub bound : Caller → ℕ → ℕ
bound Caller.outside n = 0
bound Caller.exchanged n = 8
bound Caller.halting n = 7
bound Caller.joining n = n + 1

bound-outside : (c : Caller) (n : ℕ) → bound c n ≤ 0 → c ≡ Caller.outside
bound-outside Caller.outside n h = refl
bound-outside Caller.exchanged n h = absurd (omega arith)
bound-outside Caller.halting n h = absurd (omega arith)
bound-outside Caller.joining n h = absurd (omega arith)

module _ {M : Type 0} where
  abbrev pub left : Live M → ℕ
  left p = bound p.caller (rank p.worker)

module _ {M : Type 0} (x : ExchangeProvider M) where
  -- The worker takes some steps, at least one, and then Stop one.
  abbrev pub Round : Type 0
  Round = Outcome × List Outcome × ErrorCode

  unfoldable pub rounds : Live M → List Round → Live M
  rounds p [] = p
  rounds p ((o, os, ec) ∷ rs) = rounds (stop_step (run_steps x (run_step x p o) os) ec) rs

  joining-left :
      (p : Live M) (ec : ErrorCode) (w : Worker)
      → p.worker ≡ w
      → p.caller ≡ Caller.joining
      → IsStopping p
      → (left (stop_step p ec) ≤ rank w + 1) × (rank w ≡ 0 → left (stop_step p ec) ≡ 0)
  unfolding stop_step
  joining-left p ec Worker.ended here at v = ground arith
  joining-left p ec Worker.absent here at v = ground (arith, v.held (ground arith))
  joining-left p ec w here at v = ground arith

  -- What one step of Stop leaves to do.
  stop_step-left :
      (p : Live M) (ec : ErrorCode) (c : Caller) (n : ℕ)
      → p.caller ≡ c
      → IsStopping p
      → (c ≡ Caller.joining → rank p.worker ≤ n - 1)
      → left (stop_step p ec) ≤ bound c n - 1
  unfolding stop_step
  stop_step-left p ec Caller.outside n at v h = ground arith
  stop_step-left p ec Caller.exchanged n at v h = ground arith
  stop_step-left p ec Caller.halting n at v h =
      ground (arith, v.held (ground arith), rank_past p.worker v.past)
  stop_step-left p ec Caller.joining n at v h =
      let (most, none_left) = joining-left p ec p.worker refl at v in
      ground (arith, h refl, most, none_left)

  round-left :
      (p : Live M) (o : Outcome) (os : List Outcome) (ec : ErrorCode)
      → IsStopping p
      → IsStopping (stop_step (run_steps x (run_step x p o) os) ec)
        × (left (stop_step (run_steps x (run_step x p o) os) ec) ≤ left p - 1)
  round-left p o os ec v =
      let one = run_step-IsQuiet x p o v in
      let (v', waits, later) =
        run_steps-quiet x (run_step x p o) os (run_step-IsStopping x p o v) in
      let q = run_steps x (run_step x p o) os in
      (
        stop_step-IsStopping q ec q.caller refl v',
        stop_step-left q ec p.caller (rank p.worker) (waits ∙ one.waits) v'
            (λ h. omega (arith, one.ranked (v.halted h), (later (one.waits ∙ h)).0)),
      )

  rounds-left :
      (p : Live M) (rs : List Round)
      → IsStopping p
      → IsStopping (rounds p rs) × (left (rounds p rs) ≤ left p - length rs)
  unfolding rounds
  rounds-left p [] v = (v, omega arith)
  rounds-left p ((o, os, ec) ∷ rs) v =
      let (v', less) = round-left p o os ec v in
      let (v'', rest) = rounds-left (stop_step (run_steps x (run_step x p o) os) ec) rs v' in
      (v'', omega (arith, less, rest))

  stop-IsStopping :
      (p : Live M) (ec : ErrorCode)
      → IsSimulated p
      → p.running ≡ true
      → p.caller ≡ Caller.outside
      → p.worker ≢ Worker.entered
      → IsStopping (stop_step p ec) × (left (stop_step p ec) ≡ 8)
  unfolding stop_step
  stop-IsStopping p ec v on at past =
      let thread = (Lifetime.Reach-IsConsistent v.reached).started on in
      let same = joinable-worker_view p.worker in (ground (arith, thread, same), ground arith)

  -- A call of Stop on a provider that a program has reached and that runs, whose worker is not between
  -- its test of `running` and ioc.restart(): within eight rounds, in each of which the worker takes at
  -- least one step and then Stop one, whatever the network does, Stop has joined the worker and
  -- returned, and the destructor has nothing to join.
  pub stop-returns :
      {f : TradeFeed M} {p : Live M} (ec : ErrorCode) (rs : List Round)
      → Reach x f p
      → p.running ≡ true
      → p.caller ≡ Caller.outside
      → p.worker ≢ Worker.entered
      → 8 ≤ length rs
      → ((rounds (stop_step p ec) rs).caller ≡ Caller.outside)
        × ((rounds (stop_step p ec) rs).worker ≡ Worker.absent)
        × ((rounds (stop_step p ec) rs).running ≡ false)
  stop-returns {f} {p} ec rs r on at past many =
      let (v, eight) = stop-IsStopping p ec (Reach-IsSimulated x r) on at past in
      let (v', less) = rounds-left (stop_step p ec) rs v in
      let q = rounds (stop_step p ec) rs in
      let out = bound-outside q.caller (rank q.worker) (omega (arith, less, eight)) in
      (out, v'.gone out, v'.off)

  -- Any steps of the worker, and then one of Stop, any number of times.
  unfoldable pub turns : Live M → List (List Outcome × ErrorCode) → Live M
  turns p [] = p
  turns p ((os, ec) ∷ ts) = turns (stop_step (run_steps x p os) ec) ts

  turns-IsStopping :
      (p : Live M) (ts : List (List Outcome × ErrorCode)) → IsStopping p → IsStopping (turns p ts)
  unfolding turns
  turns-IsStopping p [] v = v
  turns-IsStopping p ((os, ec) ∷ ts) v =
      let q = run_steps x p os in
      let (v', waits, later) = run_steps-quiet x p os v in
      turns-IsStopping (stop_step q ec) ts (stop_step-IsStopping q ec q.caller refl v')

  -- A call of Stop on a provider that a program has reached and that runs, whose worker is not between
  -- its test of `running` and ioc.restart(): when, after any further steps of Stop and of the worker,
  -- Stop waits in join, the worker finishes the handler that it is in, if it is in one, and handles
  -- nothing further, in any number of steps and whatever the network does: the feed changes in the first
  -- of them at most, and stays as it is if the worker is in no handler.
  pub join-silent :
      {f : TradeFeed M} {p : Live M} (ec : ErrorCode) (ts : List (List Outcome × ErrorCode))
      (o : Outcome) (os : List Outcome)
      → Reach x f p
      → p.running ≡ true
      → p.caller ≡ Caller.outside
      → p.worker ≢ Worker.entered
      → (turns (stop_step p ec) ts).caller ≡ Caller.joining
      → let q = turns (stop_step p ec) ts in
        ((run_steps x q (o ∷ os)).feed ≡ (run_step x q o).feed)
        × (in_handler q.worker ≡ false → (run_steps x q (o ∷ os)).feed ≡ q.feed)
  unfolding run_steps
  join-silent {f} {p} ec ts o os r on at past waits =
      let (v, eight) = stop-IsStopping p ec (Reach-IsSimulated x r) on at past in
      let v' = turns-IsStopping (stop_step p ec) ts v in
      let q = turns (stop_step p ec) ts in
      let one = run_step-IsQuiet x q o v' in
      let (v'', still, later) =
        run_steps-quiet x (run_step x q o) os (run_step-IsStopping x q o v') in
      let halted = v'.halted waits in
      let after = (later (one.waits ∙ waits)).1 (one.leaves halted) in
      (after, λ out. after ∙ one.silent halted out)
