-- ===== src/Types/Market.antt =====
-- types/trade.h and types/candle.h. A `double` is a value of the parameter W.
use consolidated_book.Common.{ℕ}
use consolidated_book.Common.{Text}
use consolidated_book.Types.Exchange.{Exchange, InstrumentId}

pub record Trade (W : Type 0) : Type 0 where
  pub exchange : Exchange
  pub instrument : Text
  pub trade_id : ℕ  -- uint64_t
  pub price : W
  pub qty : W
  pub event_ts : ℕ  -- uint64_t
  pub trade_ts : ℕ  -- uint64_t
  pub recv_ts : ℕ  -- uint64_t

pub record Candle (W : Type 0) : Type 0 where
  pub instrument_id : InstrumentId
  pub exchange : Exchange
  pub interval_ms : ℕ  -- uint64_t
  pub window_start_ms : ℕ  -- uint64_t
  pub window_end_ms : ℕ  -- uint64_t
  pub open_price : W
  pub high : W
  pub low : W
  pub close : W
  pub base_volume : W
  pub quote_volume : W
