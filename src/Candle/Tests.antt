-- ===== src/Candle/Tests.antt =====
-- candle_manager.cpp: three trades, with whole amounts for `double`.
use consolidated_book.Common.{
  ℕ, ◌≡◌, refl, List, [], ◌∷◌, true, false, some, Text, codes, arith, text_eq,
}
use consolidated_book.Types.Double.{Amount, amount_double, Amount-IsOrdered}
use consolidated_book.Types.Exchange.{Exchange}
use consolidated_book.Types.Market.{Trade, Candle}
use consolidated_book.Candle.Manager.{CandleManager, candle_manager, find_candle, opened_candle}
use consolidated_book.Candle.Range.{last_price}
use consolidated_book.Candle.History.{candle_of, prices, IsHighest, IsLowest, candle_of-range}
use consolidated_book.Candle.Parsers.{Parsed}
use consolidated_book.Candle.Calls.{Call, calls, Answers, calls-Answers}

abbrev trade : Text → Amount → ℕ → Trade Amount
trade instrument price at = record {
  exchange = Exchange.binance;
  instrument = instrument;
  trade_id = 1;
  price = price;
  qty = some 2;
  event_ts = at;
  trade_ts = at;
  recv_ts = at;
}

abbrev interval : ℕ
interval = 1000

abbrev btc : Text
btc = codes "BTCUSDT"

abbrev first : Trade Amount
first = trade btc (some 50) 1234

abbrev rest : List (Trade Amount)
rest = trade btc (some 70) 1300 ∷ trade btc (some 40) 9999 ∷ []

abbrev manager : CandleManager Amount
manager = record {
  instruments = btc ∷ [];
  interval_ms = 1000;
  has_current_candle = false;
  candles = (btc, opened_candle 1000 first) ∷ [];
}

candle_of-range_example :
    ((candle_of 1000 first rest).open_price ≡ some 50)
    × (amount_double.eq (candle_of 1000 first rest).close (last_price (some 50) rest) ≡ true)
    × IsHighest (candle_of 1000 first rest).high (prices (first ∷ rest))
    × IsLowest (candle_of 1000 first rest).low (prices (first ∷ rest))
candle_of-range_example =
    candle_of-range Amount-IsOrdered 1000 first rest (refl, (refl, (refl, tt)))

manager-btc : find_candle btc manager.candles ≡ some (opened_candle 1000 first)
unfolding find_candle text_eq
manager-btc = refl

-- A parser that refuses the empty text.
abbrev parse : Text → Parsed (List (Trade Amount))
parse [] = Parsed.refused
parse (c ∷ message) = Parsed.accepted rest

abbrev asked : List (Call Amount)
asked = Call.trade first ∷ Call.ask ∷ Call.message (codes "{}") ∷ Call.message [] ∷ Call.ask ∷ []

calls-Answers_example :
    (m : CandleManager Amount) × (shown : List (List (Candle Amount))) × (calls parse
        (candle_manager (btc ∷ []) 1000)
        asked
      ≡ some (m, shown))
    × Answers parse 1000 [] asked shown
calls-Answers_example =
    calls-Answers parse 1000 (omega arith) (btc ∷ []) asked ((λ e. cc), ((λ e. cc), tt))
