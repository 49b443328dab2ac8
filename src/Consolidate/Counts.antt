-- ===== src/Consolidate/Counts.antt =====
-- consolidate_candle_manager.cpp: the counters, and the last candles.
use consolidated_book.Common.{
  ◌+◌, ◌≡◌, refl, ap, ◌∙◌, List, [], ◌∷◌, ◌++◌, Option, none, some, Bool, true, false, Text, arith,
  length, assign,
}
use mathlib.Core.List.{append-nil, append_assoc}
use consolidated_book.Types.Market.{Trade, Candle}
use consolidated_book.Consolidate.{
  CandleBuilder, ConsolidateCandleManager, emit, get_or_create_builder, process_trade, run,
  emit_final, stop,
}
use consolidated_book.Consolidate.Builders.{popped_trades, to_list, emit-calls, emit-rest}

length_snoc : {A : Type 0} (cs : List A) (c : A) → length (cs ++ c ∷ []) ≡ length cs + 1
length_snoc [] c = refl
length_snoc (b ∷ cs) c = omega (arith, length_snoc cs c)

module _ {W B : Type 0} ⦃o : CandleBuilder W B⦄ where
  -- The counter of candles is the number of calls of the callback.
  abbrev pub IsCounted : ConsolidateCandleManager W B → Type 0
  IsCounted m = m.candles_emitted ≡ length m.calls

  emit-IsCounted :
      (m : ConsolidateCandleManager W B) (c : Option (Candle W))
      → IsCounted m
      → IsCounted (emit m c)
  unfolding emit
  emit-IsCounted m none v = v
  emit-IsCounted m (some c) v = ground (arith, length_snoc m.calls c)

  emit-processed :
      (m : ConsolidateCandleManager W B) (c : Option (Candle W))
      → ((emit m c).trades_processed ≡ m.trades_processed)
        × ((emit m c).has_callback ≡ m.has_callback)
  unfolding emit
  emit-processed m none = (refl, refl)
  emit-processed m (some c) = ground arith

  -- The state of ProcessTrade before it emits.
  abbrev touched : ConsolidateCandleManager W B → Trade W → ConsolidateCandleManager W B
  touched m t = record m {
    trades_processed = m.trades_processed + 1;
    builders =
        assign t.instrument (o.add_trade (get_or_create_builder m t.instrument) t).0 m.builders;
  }

  -- Run counts each trade that it pops once, and each call of the callback once.
  pub run-counts :
      (m : ConsolidateCandleManager W B) (reads : List (Bool × Option (Trade W)))
      → IsCounted m
      → ((run m reads).trades_processed ≡ m.trades_processed + length (popped_trades reads))
        × IsCounted (run m reads)
  unfolding run process_trade
  run-counts m [] v = (omega arith, v)
  run-counts m ((false, popped) ∷ rest) v = (omega arith, v)
  run-counts m ((true, none) ∷ rest) v = run-counts m rest v
  run-counts m ((true, some t) ∷ rest) v =
      let made = o.add_trade (get_or_create_builder m t.instrument) t in
      let rest_counts = run-counts (process_trade m t) rest (emit-IsCounted _ made.1 v) in
      (omega (arith, rest_counts.0, (emit-processed (touched m t) made.1).0), rest_counts.1)

  -- The candles that the builders have open.
  abbrev pub open_candles : List (Text × B) → List (Candle W)
  open_candles [] = []
  open_candles ((k, b) ∷ rest) = to_list (o.current_candle b) ++ open_candles rest

  emit_final-calls :
      (m : ConsolidateCandleManager W B) (bs : List (Text × B))
      → m.has_callback ≡ true
      → ((emit_final m bs).calls ≡ m.calls ++ open_candles bs)
        × ((emit_final m bs).builders ≡ m.builders)
        × ((emit_final m bs).running ≡ m.running)
        × (IsCounted m → IsCounted (emit_final m bs))
  unfolding emit_final
  emit_final-calls m [] on = ground (arith, append-nil m.calls)
  emit_final-calls m ((k, b) ∷ bs) on =
      let one = emit-calls m (o.current_candle b) on in
      let rest = emit_final-calls (emit m (o.current_candle b)) bs one.1 in
      let kept = emit-rest m (o.current_candle b) in
      (
        rest.0
            ∙ ap (λ cs. cs ++ open_candles bs) one.0
            ∙ append_assoc m.calls (to_list (o.current_candle b)) (open_candles bs),
        rest.1 ∙ kept.0,
        rest.2 ∙ kept.2,
        λ v. rest.3 (emit-IsCounted m (o.current_candle b) v),
      )

  -- Stop of a running manager with a callback, whose counter of candles is right, calls it once more for each builder with an open candle,
  -- counts these calls, and keeps the builders.
  pub stop-calls :
      (m : ConsolidateCandleManager W B)
      → m.running ≡ true
      → m.has_callback ≡ true
      → IsCounted m
      → ((stop m).calls ≡ m.calls ++ open_candles m.builders)
        × ((stop m).builders ≡ m.builders)
        × ((stop m).running ≡ false)
        × IsCounted (stop m)
  unfolding stop
  stop-calls m on set v =
      let last = emit_final-calls (record m { running = false }) m.builders set in
      rw on (last.0, last.1, last.2, last.3 v)
