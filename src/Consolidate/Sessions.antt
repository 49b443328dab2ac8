-- ===== src/Consolidate/Sessions.antt =====
-- consolidate_candle_manager.cpp: the two threads, in any order of their steps.
use mathlib.Core.List.{append-nil}
use consolidated_book.Common.{
  ◌≡◌, refl, ◌∙◌, sym, ap, List, [], ◌∷◌, ◌++◌, Option, none, some, Bool, true, false, not, map,
  arith,
}
use consolidated_book.Types.Market.{Trade, Candle}
use consolidated_book.Consolidate.{
  CandleBuilder, ConsolidateCandleManager, process_trade, emit, emit_final, get_or_create_builder,
  run, stop,
}
use consolidated_book.Consolidate.Worker.{Consumer, Threads, has_thread, begin_stop, end_stop, work}

-- What the step of the worker takes from the pipe.
abbrev pub taken : {W : Type 0} → Consumer → Option (Trade W) → List (Option (Trade W))
taken Consumer.absent p = []
taken Consumer.looping p = []
taken Consumer.popping p = p ∷ []
taken Consumer.ended p = []

module _ {W B : Type 0} ⦃o : CandleBuilder W B⦄ where
  abbrev pub with_running : Bool → ConsolidateCandleManager W B → ConsolidateCandleManager W B
  with_running b m = record m { running = b }

  -- From Start on a manager without a thread: what PopTrade has returned, and the state.
  pub data Running (m : ConsolidateCandleManager W B)
      : List (Option (Trade W)) → Threads W B → Type 0 where
    starts :
        Running m []
          (record { manager = with_running true m; worker = Consumer.looping; joining = false })
    works :
        {ps : List (Option (Trade W))} {s : Threads W B} (p : Option (Trade W))
        → Running m ps s
        → Running m (ps ++ taken s.worker p) (work s p)
    stops :
        {ps : List (Option (Trade W))} {s : Threads W B}
        → Running m ps s
        → Running m ps (begin_stop s)

  abbrev processed :
      ConsolidateCandleManager W B → List (Option (Trade W)) → ConsolidateCandleManager W B
  processed m [] = m
  processed m (none ∷ ps) = processed m ps
  processed m (some t ∷ ps) = processed (process_trade m t) ps

  processed-append :
      (m : ConsolidateCandleManager W B) (ps qs : List (Option (Trade W)))
      → processed m (ps ++ qs) ≡ processed (processed m ps) qs
  processed-append m [] qs = refl
  processed-append m (none ∷ ps) qs = processed-append m ps qs
  processed-append m (some t ∷ ps) qs = processed-append (process_trade m t) ps qs

  pub emit-running :
      (b : Bool) (m : ConsolidateCandleManager W B) (c : Option (Candle W))
      → emit (with_running b m) c ≡ with_running b (emit m c)
  unfolding emit
  emit-running b m none = refl
  emit-running b m (some c) = ground arith

  -- ProcessTrade neither reads nor writes `running`.
  pub process_trade-running :
      (b : Bool) (m : ConsolidateCandleManager W B) (t : Trade W)
      → process_trade (with_running b m) t ≡ with_running b (process_trade m t)
  unfolding process_trade get_or_create_builder
  process_trade-running b m t = emit-running b _ _

  run-processed :
      (m : ConsolidateCandleManager W B) (ps : List (Option (Trade W)))
      → run (with_running true m) (map (λ p. (true, p)) ps) ≡ with_running true (processed m ps)
  unfolding run
  run-processed m [] = refl
  run-processed m (none ∷ ps) = run-processed m ps
  run-processed m (some t ∷ ps) =
      ap (λ m'. run m' (map (λ p. (true, p)) ps)) (process_trade-running true m t)
      ∙ run-processed (process_trade m t) ps

  record Tracks (m : ConsolidateCandleManager W B) (ps : List (Option (Trade W))) (s : Threads W B)
      : Type 0 where
    done : s.manager ≡ with_running s.manager.running (processed m ps)
    threaded : has_thread s.worker ≡ true
    waits : s.joining ≡ not s.manager.running
    left : s.worker ≡ Consumer.ended → s.manager.running ≡ false

  processing :
      (m : ConsolidateCandleManager W B) (ps : List (Option (Trade W)))
      (n : ConsolidateCandleManager W B) (t : Trade W)
      → n ≡ with_running n.running (processed m ps)
      → (process_trade n t ≡ with_running n.running (processed m (ps ++ some t ∷ [])))
  processing m ps n t h =
      ap (λ k. process_trade k t) h
      ∙ process_trade-running n.running (processed m ps) t
      ∙ sym (ap (with_running n.running) (processed-append m ps (some t ∷ [])))

  work-at :
      (m : ConsolidateCandleManager W B) (ps : List (Option (Trade W))) (s : Threads W B)
      (p : Option (Trade W)) (w : Consumer)
      → s.worker ≡ w
      → Tracks m ps s
      → Tracks m (ps ++ taken w p) (work s p)
  unfolding work
  work-at m ps s p Consumer.absent e v = absurd (ground arith)
  work-at m ps s p Consumer.looping e v = ground (arith, append-nil ps)
  work-at m ps s none Consumer.popping e v = ground (arith, processed-append m ps (none ∷ []))
  work-at m ps s (some t) Consumer.popping e v =
      let next = processing m ps s.manager t v.done in
      ground (arith, next, ap (λ n. n.running) next)
  work-at m ps s p Consumer.ended e v = ground (arith, append-nil ps)

  begin_stop-Tracks :
      (m : ConsolidateCandleManager W B) (ps : List (Option (Trade W))) (s : Threads W B)
      → Tracks m ps s
      → Tracks m ps (begin_stop s)
  unfolding begin_stop
  begin_stop-Tracks m ps s v = ground arith

  Running-Tracks :
      {m : ConsolidateCandleManager W B} {ps : List (Option (Trade W))} {s : Threads W B}
      → Running m ps s
      → Tracks m ps s
  Running-Tracks {m} Running.starts = record {
    done = refl;
    threaded = refl;
    waits = refl;
    left = λ e. cc;
  }
  Running-Tracks {m} (Running.works {ps} {s} p r) =
      work-at m ps s p s.worker refl (Running-Tracks r)
  Running-Tracks {m} (Running.stops {ps} {s} r) = begin_stop-Tracks m ps s (Running-Tracks r)

  abbrev joined : ConsolidateCandleManager W B → Threads W B
  joined n = record { manager = n; worker = Consumer.absent; joining = false }

  -- However the steps of the worker, and Stop, are interleaved from Start on: when the worker has
  -- returned, Stop joins it and leaves the manager as one loop of Run over everything that was popped,
  -- and then Stop, leave it. The trade that was popped when Stop was called is among them.
  pub Running-run :
      {m : ConsolidateCandleManager W B} {ps : List (Option (Trade W))} {s : Threads W B}
      → Running m ps s
      → s.worker ≡ Consumer.ended
      → end_stop s ≡ record {
        manager = stop (run (record m { running = true }) (map (λ p. (true, p)) ps));
        worker = Consumer.absent;
        joining = false;
      }
  unfolding end_stop stop
  Running-run {m} {ps} {s} r e =
      let v = Running-Tracks r in
      let same : s.manager ≡ with_running false (processed m ps) =
        ground (arith, v.done, v.left e) in
      let ends : end_stop s ≡ joined (emit_final s.manager s.manager.builders) =
        ground (arith, v.waits, v.left e) in
      ends
      ∙ ap (λ n. joined (emit_final n n.builders)) same
      ∙ sym (ap (λ n. joined (stop n)) (run-processed m ps))
