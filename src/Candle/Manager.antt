-- ===== src/Candle/Manager.antt =====
-- candle_manager/include/candle_manager.h and src/candle_manager.cpp. The parser is a parameter, as
-- in the template; `double` is the parameter W. A division by zero (interval_ms == 0) is `none`.
-- `has_current_candle` is written once and never read.
use consolidated_book.Common.{
  ℕ, ◌-◌, ◌%◌, List, [], ◌∷◌, Option, none, some, Bool, false, ◌==◌, if◌then◌else◌, Text, text_eq,
}
use consolidated_book.Candle.Parsers.{Parsed, accepted, refused, terminated}
use consolidated_book.Types.Exchange.{to_instrument_id}
use consolidated_book.Types.Double.{Double}
use consolidated_book.Types.Market.{Trade, Candle}

-- std::max(a, b) is `(a < b) ? b : a`, std::min(a, b) is `(b < a) ? b : a`.
abbrev pub max_double : {W : Type 0} ⦃d : Double W⦄ → W → W → W
max_double ⦃d⦄ a b = if d.lt a b then b else a

abbrev pub min_double : {W : Type 0} ⦃d : Double W⦄ → W → W → W
min_double ⦃d⦄ a b = if d.lt b a then b else a

-- `candles`, an unordered map, as an association list without a promised order.
abbrev pub Candles : Type 0 → Type 0
Candles W = List (Text × Candle W)

pub record CandleManager (W : Type 0) : Type 0 where
  pub instruments : List Text
  pub interval_ms : ℕ
  pub has_current_candle : Bool
  pub candles : Candles W

unfoldable pub candle_manager : {W : Type 0} → List Text → ℕ → CandleManager W
candle_manager instruments interval_ms = record {
  instruments = instruments;
  interval_ms = interval_ms;
  has_current_candle = false;
  candles = [];
}

module _ {W : Type 0} where
  -- candles.find
  unfoldable pub find_candle : Text → Candles W → Option (Candle W)
  find_candle k [] = none
  find_candle k ((j, c) ∷ m) = if text_eq j k then some c else find_candle k m

  -- Writes through the reference that `find` gave.
  unfoldable pub replace_candle : Text → Candle W → Candles W → Candles W
  replace_candle k c [] = []
  replace_candle k c ((j, b) ∷ m) =
      if text_eq j k then (j, c) ∷ m else (j, b) ∷ replace_candle k c m

module _ {W : Type 0} ⦃d : Double W⦄ where
  unfoldable pub update_candle : Candle W → Trade W → Candle W
  update_candle c t =
      let priced : Candle W = if d.eq c.close t.price then c else record c {
        high = max_double c.high t.price;
        low = min_double c.low t.price;
        close = t.price;
      } in
      record priced {
        base_volume = d.add c.base_volume t.qty;
        quote_volume = d.add c.quote_volume (d.mul t.price t.qty);
      }

  -- The candle that CreateCandle returns, where the remainder is defined.
  unfoldable pub opened_candle : ℕ → Trade W → Candle W
  opened_candle interval_ms t = record {
    instrument_id = to_instrument_id t.instrument;
    exchange = t.exchange;
    interval_ms = interval_ms;
    window_start_ms = t.event_ts - t.event_ts % interval_ms;
    window_end_ms = 0;
    open_price = t.price;
    high = t.price;
    low = t.price;
    close = t.price;
    base_volume = t.qty;
    quote_volume = d.mul t.price t.qty;
  }

  -- `event_ts % 0` is a fault.
  unfoldable pub create_candle : ℕ → Trade W → Option (Candle W)
  create_candle interval_ms t =
      if interval_ms == 0 then none else some (opened_candle interval_ms t)

  unfoldable pub handle_trade : CandleManager W → Trade W → Option (CandleManager W)
  unfolding find_candle replace_candle update_candle create_candle
  handle_trade m t = elim (find_candle t.instrument m.candles) [
    | some c ↦
        some (record m { candles = replace_candle t.instrument (update_candle c t) m.candles })
    | none ↦ elim (create_candle m.interval_ms t) [
      | none ↦ none
      | some c ↦ some (record m { candles = (t.instrument, c) ∷ m.candles })
    ]
  ]

  -- The loop of HandleMessage.
  unfoldable pub handle_trades : CandleManager W → List (Trade W) → Option (CandleManager W)
  unfolding handle_trade
  handle_trades m [] = some m
  handle_trades m (t ∷ ts) = elim (handle_trade m t) [ none ↦ none | some m' ↦ handle_trades m' ts ]

  -- A message that the parser refuses changes nothing. An exception of a parser that is noexcept ends the
  -- program: `none`.
  unfoldable pub handle_message :
      (Text → Parsed (List (Trade W))) → CandleManager W → Text → Option (CandleManager W)
  unfolding handle_trades
  handle_message parse m message = elim (parse message) [
    | refused ↦ some m
    | accepted trades ↦ handle_trades m trades
    | terminated ↦ none
  ]

module _ {W : Type 0} where
  unfoldable pub snapshot : Candles W → List (Candle W)
  snapshot [] = []
  snapshot ((k, c) ∷ m) = c ∷ snapshot m

  unfoldable pub get_candles_snapshot : CandleManager W → List (Candle W)
  unfolding snapshot
  get_candles_snapshot m = snapshot m.candles
