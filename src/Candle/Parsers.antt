-- ===== src/Candle/Parsers.antt =====
-- candle_manager/include/binance_spot_parser.h and bybit_spot_parser.h. simdjson and fast_float are
-- parameters. The two operator() are noexcept: an exception of value() is `terminated`.
pub mod Accepted
pub mod Documents
pub mod Tests
use consolidated_book.Common.{ℕ, suc, List, [], ◌∷◌, Option, none, some, Text, codes}
use consolidated_book.Feed.{extract_symbol}
use consolidated_book.Json.{Json, read_field}
use consolidated_book.Types.Exchange.{Exchange}
use consolidated_book.Types.Market.{Trade}
use consolidated_book.Utilities.{parse_double, parse_uint64}

-- The reader of JSON, and the two calls of from_chars.
pub record Reader (V W : Type 0) : Type 0 where
  pub json : Json V
  pub open json use *
  pub double_from_chars : Text → Option W
  pub uint64_from_chars : Text → Option ℕ
  pub any_double : W  -- what a local variable without a value reads
  pub any_uint64 : ℕ

pub data Parsed (A : Type 0) : Type 0 where
  accepted : A → Parsed A
  refused : Parsed A  -- nullopt
  terminated : Parsed A

infixl 5 ◌>>=◌
abbrev pub ◌>>=◌ : {A B : Type 0} → Parsed A → (A → Parsed B) → Parsed B
accepted a >>= f = f a
refused >>= f = refused
terminated >>= f = terminated

-- `if (res.error()) return std::nullopt`, and `res.value()`.
abbrev pub checked : {A : Type 0} → Option A → Parsed A
checked none = refused
checked (some a) = accepted a

abbrev pub required : {A : Type 0} → Option A → Parsed A
required none = terminated
required (some a) = accepted a

module _ {V W : Type 0} (r : Reader V W) where
  -- The fields of `data`; `now` is GetCurrentTimeMs().
  unfoldable pub binance_trade : ℕ → V → Parsed (Trade W)
  binance_trade now v = required (read_field r.json r.json.get_uint64 v (codes "E")) >>= λ event_ts.
      required (read_field r.json r.json.get_string v (codes "s")) >>= λ symbol.
      required (read_field r.json r.json.get_uint64 v (codes "t")) >>= λ trade_id.
      required (read_field r.json r.json.get_uint64 v (codes "T")) >>= λ trade_ts.
      required (read_field r.json r.json.get_string v (codes "p")) >>= λ p.
      required (read_field r.json r.json.get_string v (codes "q")) >>= λ q. accepted (record {
        exchange = Exchange.binance;
        instrument = symbol;
        trade_id = trade_id;
        price = parse_double r.double_from_chars r.any_double p;
        qty = parse_double r.double_from_chars r.any_double q;
        event_ts = event_ts;
        trade_ts = trade_ts;
        recv_ts = now;
      })

  unfoldable pub binance_parse : ℕ → Text → Parsed (List (Trade W))
  binance_parse now msg = checked (r.json.iterate msg) >>= λ doc.
      checked (r.json.get_object doc) >>= λ root.
      checked (read_field r.json r.json.get_object root (codes "data")) >>= λ v.
      binance_trade now v >>= λ t. accepted (t ∷ [])

  -- One item of `data`.
  unfoldable pub bybit_trade : ℕ → Text → ℕ → V → Parsed (Trade W)
  bybit_trade now symbol event_ts item = checked (r.json.get_object item) >>= λ v.
      required (read_field r.json r.json.get_uint64 v (codes "T")) >>= λ trade_ts.
      required (read_field r.json r.json.get_string v (codes "i")) >>= λ i.
      required (read_field r.json r.json.get_string v (codes "p")) >>= λ p.
      required (read_field r.json r.json.get_string v (codes "v")) >>= λ q. accepted (record {
        exchange = Exchange.bybit;
        instrument = symbol;
        trade_id = parse_uint64 r.uint64_from_chars r.any_uint64 i;
        price = parse_double r.double_from_chars r.any_double p;
        qty = parse_double r.double_from_chars r.any_double q;
        event_ts = event_ts;
        trade_ts = trade_ts;
        recv_ts = now;
      })

  -- `clock n` is what call n of GetCurrentTimeMs() returns: there is one for each item.
  unfoldable pub bybit_trades : (ℕ → ℕ) → Text → ℕ → List V → Parsed (List (Trade W))
  bybit_trades clock symbol event_ts [] = accepted []
  bybit_trades clock symbol event_ts (item ∷ items) =
      bybit_trade (clock 0) symbol event_ts item >>= λ t.
      bybit_trades (λ n. clock (suc n)) symbol event_ts items >>= λ ts. accepted (t ∷ ts)

  unfoldable pub bybit_parse : (ℕ → ℕ) → Text → Parsed (List (Trade W))
  bybit_parse clock msg = checked (r.json.iterate msg) >>= λ doc.
      checked (r.json.get_object doc) >>= λ root.
      checked (read_field r.json r.json.get_string root (codes "topic")) >>= λ topic.
      checked (read_field r.json r.json.get_string root (codes "type")) >>= λ kind.
      checked (read_field r.json r.json.get_uint64 root (codes "ts")) >>= λ event_ts.
      checked (read_field r.json r.json.get_array root (codes "data")) >>= λ items.
      bybit_trades clock (extract_symbol topic) event_ts items
