-- ===== src/Candle/Messages.antt =====
-- candle_manager.cpp: CandleManager<BinanceSpotParser> and CandleManager<BybitSpotParser>. An exception
-- of the parser ends the program, and is a fault like a division by zero: `none`.
use mathlib.Core.List.{foldl}
use consolidated_book.Common.{
  ℕ, suc, ◌^◌, ◌<◌, ◌≡◌, refl, ap, ◌∙◌, List, [], ◌∷◌, Option, some, if◌then◌else◌, Text, All,
  arith, text_eq,
}
use consolidated_book.Common.Int.{ℤ}
use consolidated_book.Json.Values.{Value}
use consolidated_book.Types.Double.{Double}
use consolidated_book.Types.Market.{Trade}
use consolidated_book.Utilities.{get_current_time_ms}
use consolidated_book.Candle.Manager.{CandleManager, find_candle, handle_trades, handle_message}
use consolidated_book.Candle.Lookup.{trades_of, advance, handle_trades-find}
use consolidated_book.Candle.Parsers.{Reader, accepted, binance_parse, bybit_parse}
use consolidated_book.Candle.Parsers.Documents.{
  BybitItem, bybit_document, reader, item_trades, bybit_parse-document,
}

module _ {V W : Type 0} ⦃d : Double W⦄ (r : Reader V W) (ticks_per_ms : ℕ) where
  unfoldable pub binance_handle_message : ℤ → CandleManager W → Text → Option (CandleManager W)
  binance_handle_message since_epoch m message =
      handle_message (binance_parse r (get_current_time_ms ticks_per_ms since_epoch)) m message

  unfoldable pub bybit_handle_message : (ℕ → ℤ) → CandleManager W → Text → Option (CandleManager W)
  bybit_handle_message since_epoch m message =
      handle_message (bybit_parse r (λ n. get_current_time_ms ticks_per_ms (since_epoch n))) m
        message

module _ {W : Type 0} ⦃d : Double W⦄ (iterate : Text → Option Value) (from_double : Text → Option W)
    (from_uint64 : Text → Option ℕ) (any_double : W) (any_uint64 : ℕ) where
  abbrev made : (ℕ → ℕ) → Text → ℕ → List BybitItem → List (Trade W)
  made = item_trades iterate from_double from_uint64 any_double any_uint64

  trades_of-items :
      (clock : ℕ → ℕ) (symbol : Text) (ts : ℕ) (xs : List BybitItem) (k : Text)
      → trades_of k (made clock symbol ts xs)
        ≡ (if text_eq symbol k then made clock symbol ts xs else [])
  trades_of-items clock symbol ts [] k = ground arith
  trades_of-items clock symbol ts (x ∷ xs) k =
      ground (arith, trades_of-items (λ n. clock (suc n)) symbol ts xs k)

  handled :
      (ticks_per_ms : ℕ) (since_epoch : ℕ → ℤ) (m : CandleManager W) (message : Text)
      (ts : List (Trade W))
      → bybit_parse
          (reader iterate from_double from_uint64 any_double any_uint64)
          (λ n. get_current_time_ms ticks_per_ms (since_epoch n))
          message
        ≡ accepted ts
      → bybit_handle_message
          (reader iterate from_double from_uint64 any_double any_uint64)
          ticks_per_ms
          since_epoch
          m
          message
        ≡ handle_trades m ts
  unfolding bybit_handle_message handle_message bybit_parse
  handled ticks_per_ms since_epoch m message ts h = rw h refl

  -- A message in the form that the comment of BybitSpotParser shows, with times below 2^64, is handled if
  -- the interval is positive: the candle of its symbol is then what the trades of its items, in order,
  -- make of the candle before, and the candles of all other instruments are as they were.
  pub bybit_handle_message-document :
      (ticks_per_ms : ℕ) (since_epoch : ℕ → ℤ) (m : CandleManager W) (message symbol : Text)
      (ts : ℕ) (xs : List BybitItem)
      → iterate message ≡ some (bybit_document symbol ts xs)
      → ts < 2 ^ 64
      → All (λ x. x.trade_time < 2 ^ 64) xs
      → 0 < m.interval_ms
      → (m' : CandleManager W) × (bybit_handle_message
            (reader iterate from_double from_uint64 any_double any_uint64)
            ticks_per_ms
            since_epoch
            m
            message
          ≡ some m')
        × ((k : Text)
            → find_candle k m'.candles
              ≡ foldl (advance m.interval_ms) (find_candle k m.candles) (
                  if text_eq symbol k
                  then made (λ n. get_current_time_ms ticks_per_ms (since_epoch n)) symbol ts xs
                  else []))
  bybit_handle_message-document ticks_per_ms since_epoch m message symbol ts xs e h all positive =
      let clock : ℕ → ℕ = λ n. get_current_time_ms ticks_per_ms (since_epoch n) in
      let parsed =
        bybit_parse-document iterate from_double from_uint64 any_double any_uint64 clock message
          symbol ts xs e h all in
      let (m', done, same, at) = handle_trades-find m (made clock symbol ts xs) positive in
      (
        m',
        handled ticks_per_ms since_epoch m message (made clock symbol ts xs) parsed ∙ done,
        λ k.
            at k
            ∙ ap (foldl (advance m.interval_ms) (find_candle k m.candles))
                (trades_of-items clock symbol ts xs k),
      )
