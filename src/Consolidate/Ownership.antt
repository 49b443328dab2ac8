-- ===== src/Consolidate/Ownership.antt =====
-- consolidate_candle_manager.cpp: who owns the thread, over calls of all operations.
use consolidated_book.Common.{
  ◌≡◌, ◌≢◌, refl, ◌∙◌, ap, List, [], ◌∷◌, Option, none, some, true, false, Text, arith,
}
use consolidated_book.Common.Int.{ℤ}
use consolidated_book.Consolidate.Sessions.{emit-running, process_trade-running}
use consolidated_book.Types.Market.{Trade}
use consolidated_book.Consolidate.{
  CandleBuilder, ConsolidateCandleManager, consolidate_candle_manager, process_trade, emit,
  emit_final,
}
use consolidated_book.Consolidate.Worker.{
  Consumer, Threads, has_thread, set_candle_callback, start, begin_stop, end_stop, destroy, work,
}

-- Calls of SetCandleCallback, Start and Stop from one thread, and steps of the worker. While Stop waits in
-- join, its caller makes no other call.
module _ {W B : Type 0} ⦃o : CandleBuilder W B⦄ where
  pub data Reach : Threads W B → Type 0 where
    built :
        (interval_ms : ℤ) (instruments : List Text)
        → Reach (record {
          manager = consolidate_candle_manager interval_ms instruments;
          worker = Consumer.absent;
          joining = false;
        })
    sets : {s : Threads W B} → Reach s → s.joining ≡ false → Reach (set_candle_callback s)
    starts : {s s' : Threads W B} → Reach s → s.joining ≡ false → start s ≡ some s' → Reach s'
    stops : {s : Threads W B} → Reach s → s.joining ≡ false → Reach (begin_stop s)
    joins : {s : Threads W B} → Reach s → Reach (end_stop s)
    works : {s : Threads W B} (p : Option (Trade W)) → Reach s → Reach (work s p)

  -- There is a thread while the manager runs or Stop waits, and no other.
  record IsOwned (s : Threads W B) : Type 0 where
    runs : s.manager.running ≡ true → (has_thread s.worker ≡ true) × (s.joining ≡ false)
    waits : s.joining ≡ true → has_thread s.worker ≡ true
    rests : s.manager.running ≡ false → s.joining ≡ false → s.worker ≡ Consumer.absent
    left : s.worker ≡ Consumer.ended → s.manager.running ≡ false

  process_trade-keeps :
      (m : ConsolidateCandleManager W B) (t : Trade W) → (process_trade m t).running ≡ m.running
  process_trade-keeps m t = ap (λ n. n.running) (process_trade-running m.running m t)

  emit_final-keeps :
      (m : ConsolidateCandleManager W B) (bs : List (Text × B))
      → (emit_final m bs).running ≡ m.running
  unfolding emit_final
  emit_final-keeps m [] = refl
  emit_final-keeps m ((k, b) ∷ bs) =
      emit_final-keeps (emit m (o.current_candle b)) bs
      ∙ ap (λ n. n.running) (emit-running m.running m (o.current_candle b))

  work-IsOwned :
      (s : Threads W B) (p : Option (Trade W)) (w : Consumer)
      → s.worker ≡ w
      → IsOwned s
      → IsOwned (work s p)
  unfolding work
  work-IsOwned s p Consumer.absent e v = ground arith
  work-IsOwned s p Consumer.looping e v = ground arith
  work-IsOwned s none Consumer.popping e v = ground arith
  work-IsOwned s (some t) Consumer.popping e v = ground (arith, process_trade-keeps s.manager t)
  work-IsOwned s p Consumer.ended e v = ground arith

  end_stop-IsOwned :
      (s : Threads W B) (w : Consumer) → s.worker ≡ w → IsOwned s → IsOwned (end_stop s)
  unfolding end_stop
  end_stop-IsOwned s Consumer.absent e v = ground arith
  end_stop-IsOwned s Consumer.looping e v = ground arith
  end_stop-IsOwned s Consumer.popping e v = ground arith
  end_stop-IsOwned s Consumer.ended e v =
      ground (arith, emit_final-keeps s.manager s.manager.builders)

  Reach-IsOwned : {s : Threads W B} → Reach s → IsOwned s
  unfolding consolidate_candle_manager set_candle_callback start begin_stop
  Reach-IsOwned (Reach.built interval_ms instruments) = ground arith
  Reach-IsOwned (Reach.sets r idle) = let v = Reach-IsOwned r in ground arith
  Reach-IsOwned (Reach.starts r idle e) = let v = Reach-IsOwned r in ground arith
  Reach-IsOwned (Reach.stops r idle) = let v = Reach-IsOwned r in ground arith
  Reach-IsOwned (Reach.joins {s} r) = end_stop-IsOwned s s.worker refl (Reach-IsOwned r)
  Reach-IsOwned (Reach.works {s} p r) = work-IsOwned s p s.worker refl (Reach-IsOwned r)

  begin_stop-off : (s : Threads W B) → (begin_stop s).manager.running ≡ false
  unfolding begin_stop
  begin_stop-off s = ground arith

  begin_stop-IsOwned : (s : Threads W B) → IsOwned s → IsOwned (begin_stop s)
  unfolding begin_stop
  begin_stop-IsOwned s v = ground arith

  leaves :
      (s : Threads W B) (p q : Option (Trade W)) (w : Consumer)
      → s.worker ≡ w
      → s.manager.running ≡ false
      → IsOwned s
      → has_thread (end_stop (work (work s p) q)).worker ≡ false
  unfolding work end_stop
  leaves s p q Consumer.absent e off v = ground arith
  leaves s p q Consumer.looping e off v = ground arith
  leaves s none q Consumer.popping e off v = ground arith
  leaves s (some t) q Consumer.popping e off v = ground (arith, process_trade-keeps s.manager t)
  leaves s p q Consumer.ended e off v = ground arith

  -- In every state that is reached while no call waits, Start does not terminate the program; and after
  -- Stop and two steps of the worker, whatever is popped, Stop returns and the destructor does not
  -- terminate the program.
  pub Reach-destroy :
      {s : Threads W B} (p q : Option (Trade W))
      → Reach s
      → s.joining ≡ false
      → (start s ≢ none) × (destroy (end_stop (work (work (begin_stop s) p) q)) ≢ none)
  unfolding start destroy
  Reach-destroy {s} p q r idle =
      let v = Reach-IsOwned r in
      let off : (begin_stop s).manager.running ≡ false = begin_stop-off s in
      let gone =
        leaves (begin_stop s) p q (begin_stop s).worker refl off (begin_stop-IsOwned s v) in
      (ground arith, ground (arith, gone))
