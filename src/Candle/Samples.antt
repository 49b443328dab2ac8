-- ===== src/Candle/Samples.antt =====
-- The messages in the comments of binance_spot_parser.h and bybit_spot_parser.h.
use mathlib.Core.List.{foldl}
use consolidated_book.Common.{
  ℕ, ◌≡◌, refl, List, [], ◌∷◌, Option, none, some, true, false, if◌then◌else◌, Text, codes, length,
  arith, text_eq,
}
use consolidated_book.Common.Int.{pos}
use consolidated_book.Json.Values.{Value}
use consolidated_book.Types.Double.{Amount, amount_double}
use consolidated_book.Types.Exchange.{Exchange}
use consolidated_book.Utilities.{get_current_time_ms, parse_double}
use consolidated_book.Candle.Manager.{CandleManager, candle_manager, find_candle}
use consolidated_book.Candle.Lookup.{advance}
use consolidated_book.Candle.Parsers.{accepted, binance_parse}
use consolidated_book.Candle.Parsers.Documents.{
  BybitItem, bybit_document, BinanceData, binance_document, reader, item_trades,
  binance_parse-document,
}
use consolidated_book.Candle.Messages.{bybit_handle_message, bybit_handle_message-document}

abbrev first : BybitItem
first = record {
  id = codes "2280000001559930510";
  trade_time = 1770197572743;
  price = codes "2260.15";
  volume = codes "0.09464";
  side = codes "Sell";
  seq = 159851600390;
  block_trade = false;
  rpi = false;
}

abbrev second : BybitItem
second = record first { id = codes "2280000001559930511"; volume = codes "0.11" }

abbrev eth : Text
eth = codes "ETHUSDT"

abbrev btc_trade : BinanceData
btc_trade = record {
  event_time = 1770003054104;
  symbol = codes "BTCUSDT";
  trade_id = 5858430819;
  price = codes "75019.99000000";
  quantity = codes "0.03713000";
  trade_time = 1770003054103;
  buyer_is_maker = false;
  ignored = true;
}

abbrev amount : Text → Option Amount
amount s = some (some (length s))

abbrev number : Text → Option ℕ
number s = some (length s)

abbrev items : List BybitItem
items = first ∷ second ∷ []

abbrev snapshot : Text → Option Value
snapshot message = some (bybit_document eth 1770197572744 items)

abbrev stream : Text → Option Value
stream message = some (binance_document (codes "btcusdt@trade") btc_trade)

binance_parse-document_example :
    binance_parse (reader stream amount number none 0) 5 (codes "{}")
    ≡ accepted (
        record {
          exchange = Exchange.binance;
          instrument = codes "BTCUSDT";
          trade_id = 5858430819;
          price = some 14;
          qty = some 10;
          event_ts = 1770003054104;
          trade_ts = 1770003054103;
          recv_ts = 5;
        }
        ∷ [])
unfolding parse_double
binance_parse-document_example =
    binance_parse-document stream amount number none 0 5 (codes "{}") (codes "btcusdt@trade")
      btc_trade refl (omega arith) (omega arith) (omega arith)

bybit_handle_message-document_example :
    (m' : CandleManager Amount) × (bybit_handle_message
        (reader snapshot amount number none 0)
        1000
        (λ n. pos 7)
        (candle_manager (eth ∷ []) 1000)
        (codes "{}")
      ≡ some m')
    × ((k : Text)
        → find_candle k m'.candles
          ≡ foldl (advance 1000) none (
              if text_eq eth k
              then item_trades snapshot amount number none 0
                  (λ n. get_current_time_ms 1000 (pos 7))
                  eth
                  1770197572744
                  items
              else []))
unfolding candle_manager find_candle
bybit_handle_message-document_example =
    bybit_handle_message-document snapshot amount number none 0 1000 (λ n. pos 7)
      (candle_manager (eth ∷ []) 1000) (codes "{}") eth 1770197572744 items refl (omega arith)
      (omega arith, (omega arith, tt)) (omega arith)
