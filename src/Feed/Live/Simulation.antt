-- ===== src/Feed/Live/Simulation.antt =====
-- base_provider.cpp: the whole provider does what the life of its worker in module Provider says, for
-- every interleaving of the two threads.
use consolidated_book.Common.{◌≡◌, refl, true, false, arith, Bool-cases, inl, inr}
use consolidated_book.Provider
use consolidated_book.Provider.Lifetime
use consolidated_book.Provider.{BaseProvider, base_provider, max_reconnect_attempts}
use consolidated_book.Feed.Trades.{TradeFeed}
use consolidated_book.Feed.Providers.{ExchangeProvider}
use consolidated_book.Feed.Live.{
  Worker, Handler, Live, live, in_try, Outcome, handle_reconnection, count_reconnection, finish,
  serve, advance, no_handler, run_step, Step, Reach,
}
use consolidated_book.Feed.Live.Handlers.{IsKept, finish-IsKept, serve-cases}
use consolidated_book.Feed.Live.View.{
  worker_view-in_try, IsSimulated, IsSimulated-eq, hidden_step, shown_step, start-IsSimulated,
  stop-at,
}

module _ {M : Type 0} (x : ExchangeProvider M) where
  dropped-IsSimulated :
      (p : Live M)
      → in_try p.worker ≡ true
      → IsSimulated p
      → IsSimulated (record p { worker = Worker.dropped })
  unfolding Provider.run_step
  dropped-IsSimulated p at v =
      let tried = worker_view-in_try p.worker at in
      shown_step p (record p { worker = Worker.dropped }) v v.session Lifetime.Step.runs
        (ground (arith, tried)) (λ i. ground arith)

  kept-IsSimulated :
      (p q : Live M) → in_try p.worker ≡ true → IsKept p q → IsSimulated p → IsSimulated q
  kept-IsSimulated p q at k v =
      let before = worker_view-in_try p.worker at in
      let after = worker_view-in_try q.worker k.tried in
      hidden_step p q v (ground (arith, k.runs, k.counted, k.calls)) (λ i. ground (arith, k.tried))

  serve-IsSimulated :
      (p : Live M) (h : Handler)
      → p.worker ≡ Worker.serving
      → IsSimulated p
      → IsSimulated (serve x p h)
  serve-IsSimulated p h at v = elim (serve-cases x p h at) [
    | inl over ↦
        IsSimulated-eq (serve x p h) (record p { worker = Worker.dropped }) over
          (dropped-IsSimulated p (ground arith) v)
    | inr (runs, kept, silent) ↦ kept-IsSimulated p (serve x p h) (ground arith) kept v
  ]

  advance-at :
      (p : Live M) (h : Handler) (w : Worker)
      → p.worker ≡ w
      → IsSimulated p
      → IsSimulated (advance x p h)
  unfolding advance handle_reconnection count_reconnection Provider.run_step
      Provider.handle_reconnection Provider.count_reconnection
  advance-at p h Worker.absent at v =
      hidden_step p (advance x p h) v (ground arith) (λ i. ground (arith, v.held (ground arith)))
  advance-at p h Worker.looping at v = elim (Bool-cases p.running) [
    | inl on ↦
        shown_step p (advance x p h) v true Lifetime.Step.runs (ground arith) (λ i. ground arith)
    | inr off ↦
        shown_step p (advance x p h) v v.session Lifetime.Step.runs (ground arith)
          (λ i. ground arith)
  ]
  advance-at p h Worker.entered at v =
      hidden_step p (advance x p h) v (ground arith) (λ i. ground arith)
  advance-at p h Worker.restarted at v =
      hidden_step p (advance x p h) v (ground arith) (λ i. ground arith)
  advance-at p h Worker.made at v =
      hidden_step p (advance x p h) v (ground arith) (λ i. ground arith)
  advance-at p h Worker.serving at v =
      IsSimulated-eq (advance x p h) (serve x p h) (ground arith) (serve-IsSimulated p h at v)
  advance-at p h (Worker.handling h') at v =
      IsSimulated-eq (advance x p h) (finish x p h') (ground arith)
        (kept-IsSimulated p (finish x p h') (ground arith) (finish-IsKept x p h').0 v)
  advance-at p h Worker.dropped at v =
      shown_step p (advance x p h) v v.session Lifetime.Step.runs (ground arith) (λ i. ground arith)
  advance-at p h Worker.reconnecting at v =
      shown_step p (advance x p h) v v.session Lifetime.Step.runs (ground arith) (λ i. ground arith)
  advance-at p h Worker.counting at v =
      shown_step p (advance x p h) v v.session Lifetime.Step.runs (ground arith) (λ i. ground arith)
  advance-at p h (Worker.sleeping d) at v =
      shown_step p (advance x p h) v v.session Lifetime.Step.runs (ground arith) (λ i. ground arith)
  advance-at p h Worker.ended at v =
      hidden_step p (advance x p h) v (ground arith) (λ i. ground arith)

  throws-IsSimulated : (p : Live M) → IsSimulated p → IsSimulated (run_step x p Outcome.throws)
  unfolding run_step
  throws-IsSimulated p v = elim (Bool-cases (in_try p.worker)) [
    | inl at ↦ rw at (dropped-IsSimulated p at v)
    | inr out ↦ rw out (advance-at p no_handler p.worker refl v)
  ]

  step-IsSimulated : (p : Live M) {q : Live M} → Step x p q → IsSimulated p → IsSimulated q
  unfolding run_step
  step-IsSimulated p (Step.starts out e) v = start-IsSimulated p out e v
  step-IsSimulated p (Step.stops ec) v = stop-at p ec p.caller refl v
  step-IsSimulated p (Step.runs (Outcome.ends w ec sni bytes)) v =
      advance-at p (record { whose = w; ec = ec; sni = sni; bytes = bytes }) p.worker refl v
  step-IsSimulated p (Step.runs Outcome.throws) v = throws-IsSimulated p v

  -- Every state that a provider reaches, however the steps of Start, Stop and Run interleave and
  -- whatever the network does, shows a state that Provider.Lifetime reaches with Stop as one step, and
  -- while a call of Stop is under way there is a thread.
  pub Reach-IsSimulated : {f : TradeFeed M} {p : Live M} → Reach x f p → IsSimulated p
  unfolding live base_provider
  Reach-IsSimulated Reach.built = record {
    session = false;
    reached = Lifetime.Reach.built;
    held = λ h. ground arith;
  }
  Reach-IsSimulated (Reach.later {p} r st) = step-IsSimulated p st (Reach-IsSimulated r)
