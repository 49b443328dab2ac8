-- ===== src/Candle/Parsers/Tests.antt =====
-- bybit_spot_parser.h: a message with one trade, its values numbered.
use consolidated_book.Common.{
  ℕ, ◌≡◌, refl, List, [], ◌∷◌, none, some, Text, codes, length, lookup, text_eq,
}
use consolidated_book.Types.Exchange.{Exchange}
use consolidated_book.Types.Market.{Trade}
use consolidated_book.Utilities.{parse_double, parse_uint64}
use consolidated_book.Feed.{extract_symbol}
use consolidated_book.Candle.Parsers.{Reader, accepted, bybit_parse, bybit_trades, bybit_trade}

-- Every key is read from the same table, whatever the object.
abbrev members : List (Text × ℕ)
members =
    (codes "topic", 1)
    ∷ (codes "type", 2)
    ∷ (codes "ts", 3)
    ∷ (codes "data", 4)
    ∷ (codes "T", 3)
    ∷ (codes "i", 6)
    ∷ (codes "p", 6)
    ∷ (codes "v", 6)
    ∷ []

reader : Reader ℕ ℕ
reader = record {
  json = record {
    iterate = λ msg. some 0;
    get_object = λ v. some v;
    get_array = λ v. some (5 ∷ []);
    get_string = λ v. some (codes "publicTrade.ETHUSDT");
    get_uint64 = λ v. some 77;
    get_int64 = λ v. none;
    field = λ v key. lookup key members;
  };
  double_from_chars = λ s. some (length s);
  uint64_from_chars = λ s. some (length s);
  any_double = 0;
  any_uint64 = 0;
}

abbrev eth : Trade ℕ
eth = record {
  exchange = Exchange.bybit;
  instrument = codes "ETHUSDT";
  trade_id = 19;
  price = 19;
  qty = 19;
  event_ts = 77;
  trade_ts = 77;
  recv_ts = 80;
}

parsed : bybit_parse reader (λ n. 80) (codes "{}") ≡ accepted (eth ∷ [])
unfolding parse_double parse_uint64 bybit_parse bybit_trades bybit_trade reader lookup text_eq
    extract_symbol
parsed = refl
