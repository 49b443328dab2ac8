-- ===== src/Candle/Parsers/Documents.antt =====
-- binance_spot_parser.h and bybit_spot_parser.h: the messages that their first comments describe.
use consolidated_book.Common.{
  suc, ℕ, ◌^◌, ◌<◌, ◌≡◌, refl, ap, List, [], ◌∷◌, Option, none, some, Bool, ltb, if◌then◌else◌,
  Text, codes, map, All, arith, text_eq,
}
use consolidated_book.Common.Int.{pos}
use consolidated_book.Feed.{bybit_topic}
use consolidated_book.Feed.Symbols.{extract_symbol-bybit_topic}
use consolidated_book.Json.Values.{Value, Members, list_items, items_list, find_member, values}
use consolidated_book.Types.Exchange.{Exchange}
use consolidated_book.Types.Market.{Trade}
use consolidated_book.Utilities.{parse_double, parse_uint64}
use consolidated_book.Candle.Parsers.{
  Reader, accepted, binance_trade, binance_parse, bybit_trade, bybit_trades, bybit_parse,
}

-- The values of one item of `data`; "S" is its side.
pub record BybitItem : Type 0 where
  pub id : Text
  pub trade_time : ℕ
  pub price : Text
  pub volume : Text
  pub side : Text
  pub seq : ℕ
  pub block_trade : Bool
  pub rpi : Bool

unfoldable pub bybit_item : Text → BybitItem → Value
bybit_item symbol x = Value.object (
    Members.member (codes "i") (Value.string x.id) (
      Members.member (codes "T") (Value.number (pos x.trade_time)) (
        Members.member (codes "p") (Value.string x.price) (
          Members.member (codes "v") (Value.string x.volume) (
            Members.member (codes "S") (Value.string x.side) (
              Members.member (codes "seq") (Value.number (pos x.seq)) (
                Members.member (codes "s") (Value.string symbol) (
                  Members.member (codes "BT") (Value.boolean x.block_trade)
                    (Members.member (codes "RPI") (Value.boolean x.rpi) Members.no_members)))))))))

unfoldable pub bybit_document : Text → ℕ → List BybitItem → Value
bybit_document symbol ts xs = Value.object (
    Members.member (codes "topic") (Value.string (bybit_topic symbol)) (
      Members.member (codes "ts") (Value.number (pos ts)) (
        Members.member (codes "type") (Value.string (codes "snapshot")) (
          Members.member (codes "data") (Value.array (list_items (map (bybit_item symbol) xs)))
            Members.no_members))))

pub record BinanceData : Type 0 where
  pub event_time : ℕ
  pub symbol : Text
  pub trade_id : ℕ
  pub price : Text
  pub quantity : Text
  pub trade_time : ℕ
  pub buyer_is_maker : Bool
  pub ignored : Bool

unfoldable pub binance_document : Text → BinanceData → Value
binance_document stream x = Value.object (
    Members.member (codes "stream") (Value.string stream) (
      Members.member (codes "data")
        (Value.object (
          Members.member (codes "e") (Value.string (codes "trade")) (
            Members.member (codes "E") (Value.number (pos x.event_time)) (
              Members.member (codes "s") (Value.string x.symbol) (
                Members.member (codes "t") (Value.number (pos x.trade_id)) (
                  Members.member (codes "p") (Value.string x.price) (
                    Members.member (codes "q") (Value.string x.quantity) (
                      Members.member (codes "T") (Value.number (pos x.trade_time)) (
                        Members.member (codes "m") (Value.boolean x.buyer_is_maker) (
                          Members.member (codes "M") (Value.boolean x.ignored)
                            Members.no_members))))))))))
        Members.no_members))

in_uint64 : (n : ℕ) → n < 2 ^ 64 → (if ltb n (2 ^ 64) then some n else none) ≡ some n
in_uint64 n h = ground arith

items-list : (vs : List Value) → items_list (list_items vs) ≡ vs
items-list [] = refl
items-list (v ∷ vs) = ap (λ r. v ∷ r) (items-list vs)

module _ {W : Type 0} (iterate : Text → Option Value) (from_double : Text → Option W)
    (from_uint64 : Text → Option ℕ) (any_double : W) (any_uint64 : ℕ) where
  -- simdjson on documents, and any functions from_chars.
  abbrev pub reader : Reader Value W
  reader = record {
    json = values iterate;
    double_from_chars = from_double;
    uint64_from_chars = from_uint64;
    any_double = any_double;
    any_uint64 = any_uint64;
  }

  -- The trade of an item.
  abbrev pub item_trade : ℕ → Text → ℕ → BybitItem → Trade W
  item_trade now symbol ts x = record {
    exchange = Exchange.bybit;
    instrument = symbol;
    trade_id = parse_uint64 from_uint64 any_uint64 x.id;
    price = parse_double from_double any_double x.price;
    qty = parse_double from_double any_double x.volume;
    event_ts = ts;
    trade_ts = x.trade_time;
    recv_ts = now;
  }

  bybit_trade-item :
      (now : ℕ) (symbol : Text) (ts : ℕ) (x : BybitItem)
      → x.trade_time < 2 ^ 64
      → bybit_trade reader now symbol ts (bybit_item symbol x)
        ≡ accepted (item_trade now symbol ts x)
  unfolding bybit_trade bybit_item find_member text_eq
  bybit_trade-item now symbol ts x h = rw (in_uint64 x.trade_time h) refl

  -- Each item with its reading of the clock.
  abbrev pub item_trades : (ℕ → ℕ) → Text → ℕ → List BybitItem → List (Trade W)
  item_trades clock symbol ts [] = []
  item_trades clock symbol ts (x ∷ xs) =
      item_trade (clock 0) symbol ts x ∷ item_trades (λ n. clock (suc n)) symbol ts xs

  bybit_trades-items :
      (clock : ℕ → ℕ) (symbol : Text) (ts : ℕ) (xs : List BybitItem)
      → All (λ x. x.trade_time < 2 ^ 64) xs
      → bybit_trades reader clock symbol ts (map (bybit_item symbol) xs)
        ≡ accepted (item_trades clock symbol ts xs)
  unfolding bybit_trades
  bybit_trades-items clock symbol ts [] h = refl
  bybit_trades-items clock symbol ts (x ∷ xs) h =
      rw
        (
          bybit_trade-item (clock 0) symbol ts x h.0,
          bybit_trades-items (λ n. clock (suc n)) symbol ts xs h.1,
        )
        refl

  -- A message in the form that the comment of BybitSpotParser shows, for any symbol, number of trades and
  -- values with times below 2^64, is accepted, and gives one trade per item, in order, with the symbol of
  -- the topic, the time of the message and the item's own number, price, volume and time.
  pub bybit_parse-document :
      (clock : ℕ → ℕ) (msg symbol : Text) (ts : ℕ) (xs : List BybitItem)
      → iterate msg ≡ some (bybit_document symbol ts xs)
      → ts < 2 ^ 64
      → All (λ x. x.trade_time < 2 ^ 64) xs
      → bybit_parse reader clock msg ≡ accepted (item_trades clock symbol ts xs)
  unfolding bybit_parse bybit_document find_member text_eq
  bybit_parse-document clock msg symbol ts xs e h all =
      rw
        (
          e,
          in_uint64 ts h,
          items-list (map (bybit_item symbol) xs),
          (extract_symbol-bybit_topic symbol []).0,
          bybit_trades-items clock symbol ts xs all,
        )
        refl

  -- A message in the form that the comment of BinanceSpotParser shows, within an object and with numbers
  -- below 2^64, is accepted, and gives the one trade with the values of its data.
  pub binance_parse-document :
      (now : ℕ) (msg stream : Text) (x : BinanceData)
      → iterate msg ≡ some (binance_document stream x)
      → x.event_time < 2 ^ 64
      → x.trade_id < 2 ^ 64
      → x.trade_time < 2 ^ 64
      → binance_parse reader now msg
        ≡ accepted (
            record {
              exchange = Exchange.binance;
              instrument = x.symbol;
              trade_id = x.trade_id;
              price = parse_double from_double any_double x.price;
              qty = parse_double from_double any_double x.quantity;
              event_ts = x.event_time;
              trade_ts = x.trade_time;
              recv_ts = now;
            }
            ∷ [])
  unfolding binance_parse binance_trade binance_document find_member text_eq
  binance_parse-document now msg stream x e event id trade =
      rw (e, in_uint64 x.event_time event, in_uint64 x.trade_id id, in_uint64 x.trade_time trade)
        refl
