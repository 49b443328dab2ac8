-- ===== src/Consolidate/Pipeline.antt =====
-- consolidate_candle_manager.cpp on top of message_queue.h: what the consumer makes of the trades that the
-- producers push. MessagePipeManager::PopTrade, which stands between the two and is not in the
-- repository, is taken to hand on what Pop returns.
use mathlib.Core.List.{foldl}
use consolidated_book.Common.{
  ℕ, ◌-◌, ◌^◌, ◌<◌, ◌≡◌, ◌∙◌, ap, List, ◌++◌, Option, Bool, true, Text, length, lookup,
}
use consolidated_book.Types.Market.{Trade}
use consolidated_book.Queue.System.{System}
use consolidated_book.Queue.Drain.{IsQuiet, drain, drain-popped}
use consolidated_book.Consolidate.{CandleBuilder, ConsolidateCandleManager, run}
use consolidated_book.Consolidate.Builders.{
  popped_trades, trades_of, advance, completions, run-lookup, run-calls,
}

module _ {W B : Type 0} ⦃o : CandleBuilder W B⦄ (k : ℕ) (small : k < 64) (two : 1 < 2 ^ k)
    (moved : Trade W → Trade W) (blank : Trade W) where
  -- Any producers have pushed trades into a queue of 2^k >= 2 cells, with any interleaving with the
  -- consumer and fewer than 2^63 - Capacity claimed positions; no call of Push is between its claim and
  -- the end of its publication, and no call of Pop is under way. If Run, with a callback, is handed what
  -- Pop has returned when it has emptied the queue, then each instrument's builder has been given exactly
  -- the trades of that instrument whose calls of Push claimed a position, each once and in the order of
  -- the claims, and the callback has been called with exactly the candles that the builders complete on
  -- them, in that order.
  pub drained-run :
      (s : System (Trade W)) (m : ConsolidateCandleManager W B)
      (reads : List (Bool × Option (Trade W)))
      → IsQuiet k small two moved blank s
      → m.has_callback ≡ true
      → popped_trades reads ≡ (drain (2 ^ k) moved (length s.claims - length s.popped) s).popped
      → ((key : Text)
          → lookup key (run m reads).builders
            ≡ foldl (advance key m.interval_ms) (lookup key m.builders) (trades_of key s.claims))
        × ((run m reads).calls
            ≡ m.calls ++ completions m.interval_ms (λ key. lookup key m.builders) s.claims)
  drained-run s m reads quiet on handed =
      let all = handed ∙ (drain-popped k small two moved blank s quiet).0 in
      (
        λ key.
            run-lookup m reads key
            ∙ ap
                (λ ts. foldl (advance key m.interval_ms) (lookup key m.builders) (trades_of key ts))
                all,
        run-calls m reads on
            ∙ ap (λ ts. m.calls ++ completions m.interval_ms (λ key. lookup key m.builders) ts) all,
      )
