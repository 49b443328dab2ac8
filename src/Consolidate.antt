-- ===== src/Consolidate.antt =====
-- server/consolidate_candle_manager/consolidate_candle_manager.h and .cpp: ConsolidateCandleManager,
-- the consumer of the pipe of trades. CandleBuilder and the pipe are not in the repository: the builder
-- is a parameter, and what PopTrade returns is an input. Log lines and the sleep are left out.
pub mod Builders
pub mod Pipeline
pub mod Counts
pub mod Worker
pub mod Sessions
pub mod Ownership
pub mod Tests
use consolidated_book.Common.{
  ℕ, suc, ◌+◌, List, [], ◌∷◌, ◌++◌, Option, none, some, Bool, true, false, if◌then◌else◌, Text,
  lookup, assign,
}
use consolidated_book.Common.Int.{ℤ}
use consolidated_book.Types.Market.{Trade, Candle}

-- CandleBuilder as the manager calls it.
pub record CandleBuilder (W B : Type 0) : Type 0 where
  pub make : Text → ℤ → B
  pub add_trade : B → Trade W → B × Option (Candle W)  -- CandleBuilder::ProcessTrade
  pub current_candle : B → Option (Candle W)  -- GetCurrentCandle

pub record ConsolidateCandleManager (W B : Type 0) : Type 0 where
  pub interval_ms : ℤ
  pub builders : List (Text × B)
  pub running : Bool
  pub trades_processed : ℕ
  pub candles_emitted : ℕ
  pub has_callback : Bool  -- candle_callback is set
  pub calls : List (Candle W)  -- the candles that candle_callback was called with

-- The loop of the constructor.
unfoldable pub make_builders :
    {B : Type 0} → (Text → ℤ → B) → ℤ → List Text → List (Text × B) → List (Text × B)
make_builders make interval_ms [] m = m
make_builders make interval_ms (k ∷ ks) m =
    make_builders make interval_ms ks (assign k (make k interval_ms) m)

module _ {W B : Type 0} ⦃o : CandleBuilder W B⦄ where
  unfoldable pub consolidate_candle_manager : ℤ → List Text → ConsolidateCandleManager W B
  consolidate_candle_manager interval_ms instruments = record {
    interval_ms = interval_ms;
    builders = make_builders o.make interval_ms instruments [];
    running = false;
    trades_processed = 0;
    candles_emitted = 0;
    has_callback = false;
    calls = [];
  }

  -- `if (candle && candle_callback) { candle_callback(*candle); candles_emitted++; }`
  unfoldable pub emit :
      ConsolidateCandleManager W B → Option (Candle W) → ConsolidateCandleManager W B
  emit m none = m
  emit m (some c) =
      if m.has_callback
      then record m { calls = m.calls ++ c ∷ []; candles_emitted = m.candles_emitted + 1 }
      else m

  -- The builder that GetOrCreateBuilder returns; the map holds it afterwards in both cases.
  unfoldable pub get_or_create_builder : ConsolidateCandleManager W B → Text → B
  get_or_create_builder m k = elim (lookup k m.builders) [
    | some b ↦ b
    | none ↦ o.make k m.interval_ms
  ]

  -- The builder is changed through the pointer.
  unfoldable pub process_trade :
      ConsolidateCandleManager W B → Trade W → ConsolidateCandleManager W B
  unfolding get_or_create_builder
  process_trade m t =
      let (b, completed) = o.add_trade (get_or_create_builder m t.instrument) t in
      emit
        (record m {
          trades_processed = m.trades_processed + 1;
          builders = assign t.instrument b m.builders;
        })
        completed

  -- Run, with what each iteration finds: the value of `running`, and what PopTrade returns.
  unfoldable pub run :
      ConsolidateCandleManager W B → List (Bool × Option (Trade W)) → ConsolidateCandleManager W B
  run m [] = m
  run m ((false, popped) ∷ rest) = m
  run m ((true, none) ∷ rest) = run m rest
  run m ((true, some t) ∷ rest) = run (process_trade m t) rest

  -- The loop of Stop over the builders.
  unfoldable pub emit_final :
      ConsolidateCandleManager W B → List (Text × B) → ConsolidateCandleManager W B
  emit_final m [] = m
  emit_final m ((k, b) ∷ rest) = emit_final (emit m (o.current_candle b)) rest

  -- Stop, after the worker has been joined.
  unfoldable pub stop : ConsolidateCandleManager W B → ConsolidateCandleManager W B
  stop m = if m.running then emit_final (record m { running = false }) m.builders else m
