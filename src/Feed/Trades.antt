-- ===== src/Feed/Trades.antt =====
-- md_provider/provider/: OnMessage and ParseTrade of BinanceProvider, BybitProvider and OKXProvider, and
-- PushTrade of BaseProvider. simdjson, std::stod, the clock and the pipe of trades are parameters.
pub mod Contents
pub mod Pushes
pub mod Names
pub mod Errors
pub mod Tests
use consolidated_book.Common.{
  ℕ, suc, List, [], ◌∷◌, Option, none, some, Bool, true, if◌then◌else◌, Text, codes, map, find,
  text_eq,
}
use consolidated_book.Common.Int.{ℤ}
use consolidated_book.Feed.{to_upper, remove_hyphens}
use consolidated_book.Json.{Json, read_field}
use consolidated_book.Standard.{Result, ok, err, ◌>>=◌, stoll, to_string, duration_cast_ms}

-- Trade with the fields that the providers set; `none` is a number that has not been set.
pub record ProviderTrade (W : Type 0) : Type 0 where
  pub exchange : Text
  pub instrument : Text
  pub trade_id : Text
  pub price : Option W
  pub qty : Option W
  pub ts_exchange_ms : Option ℤ
  pub ts_recv_ms : ℤ

-- A trade but for ts_recv_ms, which is set last.
abbrev pub Unstamped : Type 0 → Type 0
Unstamped W = ℤ → ProviderTrade W

-- What the providers call: simdjson, std::stod, the n-th reading of the system clock, and
-- MessagePipeManager::PushTrade.
pub record Platform (V W M : Type 0) : Type 0 where
  pub json : Json V
  pub stod : Text → Result W
  pub ticks_per_ms : ℕ
  pub system_clock : ℕ → ℤ  -- ticks since the epoch
  pub push : M → ProviderTrade W → M × Bool

pub record TradeFeed (M : Type 0) : Type 0 where
  pub pipe_manager : Option M  -- none is the null pointer
  pub readings : ℕ  -- how often the clock has been read
  pub warnings : ℕ  -- the lines "Trade dropped" written

-- `if (!res.error()) field = convert(res.value())`
abbrev pub converted : {A B : Type 0} → Option A → B → (A → Result B) → Result B
converted none unset convert = ok unset
converted (some a) unset convert = convert a

-- A number of the trade that `stod` or a similar function reads.
abbrev pub numbered : {A B : Type 0} → Option A → (A → Result B) → Result (Option B)
numbered none convert = ok none
numbered (some a) convert = convert a >>= λ b. ok (some b)

module _ {V W M : Type 0} (e : Platform V W M) where
  abbrev pub text : V → Text → Option Text
  text v key = read_field e.json e.json.get_string v key

  abbrev pub int64 : V → Text → Option ℤ
  int64 v key = read_field e.json e.json.get_int64 v key

  -- BaseProvider::GetCurrentTimeMs, called for the n-th time.
  unfoldable pub clock : ℕ → ℤ
  clock n = duration_cast_ms e.ticks_per_ms (e.system_clock n)

  -- BaseProvider::PushTrade
  unfoldable pub push_trade : TradeFeed M → ProviderTrade W → TradeFeed M
  push_trade f t = elim f.pipe_manager [
    | none ↦ f
    | some m ↦
        let (m', pushed) = e.push m t in
        if pushed
        then record f { pipe_manager = some m' }
        else record f { pipe_manager = some m'; warnings = suc f.warnings }
  ]

  -- `trade.ts_recv_ms = GetCurrentTimeMs(); PushTrade(std::move(trade))`
  unfoldable pub receive : TradeFeed M → Unstamped W → TradeFeed M
  receive f t = push_trade (record f { readings = suc f.readings }) (t (clock f.readings))

  unfoldable pub binance_fill : V → Result (Unstamped W)
  binance_fill doc =
      converted (text doc (codes "s")) [] (λ s. ok (map to_upper s)) >>= λ instrument.
      converted (int64 doc (codes "t")) [] (λ i. ok (to_string i)) >>= λ trade_id.
      numbered (text doc (codes "p")) e.stod >>= λ price.
      numbered (text doc (codes "q")) e.stod >>= λ qty. ok (λ now. record {
        exchange = codes "BINANCE";
        instrument = instrument;
        trade_id = trade_id;
        price = price;
        qty = qty;
        ts_exchange_ms = int64 doc (codes "T");
        ts_recv_ms = now;
      })

  -- An exception leaves the try block.
  unfoldable pub receive_filled : TradeFeed M → Result (Unstamped W) → TradeFeed M
  receive_filled f (ok t) = receive f t
  receive_filled f (err x) = f

  -- BinanceProvider::ParseTrade
  unfoldable pub binance_parse_trade : TradeFeed M → Text → TradeFeed M
  binance_parse_trade f message = elim (e.json.iterate message) [
    | none ↦ f
    | some doc ↦ elim (text doc (codes "e")) [
      | none ↦ f
      | some event_type ↦
          if text_eq event_type (codes "trade") then receive_filled f (binance_fill doc) else f
    ]
  ]

  unfoldable pub bybit_fill : V → Result (Unstamped W)
  bybit_fill item = converted (text item (codes "s")) [] (λ s. ok s) >>= λ instrument.
      converted (text item (codes "i")) [] (λ i. ok i) >>= λ trade_id.
      numbered (text item (codes "p")) e.stod >>= λ price.
      numbered (text item (codes "v")) e.stod >>= λ qty. ok (λ now. record {
        exchange = codes "BYBIT";
        instrument = instrument;
        trade_id = trade_id;
        price = price;
        qty = qty;
        ts_exchange_ms = int64 item (codes "T");
        ts_recv_ms = now;
      })

  unfoldable pub okx_fill : V → Result (Unstamped W)
  okx_fill item =
      converted (text item (codes "instId")) [] (λ s. ok (remove_hyphens s)) >>= λ instrument.
      converted (text item (codes "tradeId")) [] (λ i. ok i) >>= λ trade_id.
      numbered (text item (codes "px")) e.stod >>= λ price.
      numbered (text item (codes "sz")) e.stod >>= λ qty.
      numbered (text item (codes "ts")) stoll >>= λ ts. ok (λ now. record {
        exchange = codes "OKX";
        instrument = instrument;
        trade_id = trade_id;
        price = price;
        qty = qty;
        ts_exchange_ms = ts;
        ts_recv_ms = now;
      })

  -- The loop over data_array. An exception ends it; the trades pushed before stay pushed.
  unfoldable pub receive_items : (V → Result (Unstamped W)) → TradeFeed M → List V → TradeFeed M
  receive_items fill f [] = f
  receive_items fill f (item ∷ items) = elim (fill item) [
    | ok t ↦ receive_items fill (receive f t) items
    | err x ↦ f
  ]

  -- BybitProvider::ParseTrade
  unfoldable pub bybit_parse_trade : TradeFeed M → Text → TradeFeed M
  bybit_parse_trade f message = elim (e.json.iterate message) [
    | none ↦ f
    | some doc ↦ elim (text doc (codes "topic")) [
      | none ↦ f
      | some topic ↦ elim (find topic (codes "publicTrade")) [
        | none ↦ f
        | some i ↦ elim (read_field e.json e.json.get_array doc (codes "data")) [
          | none ↦ f
          | some items ↦ receive_items bybit_fill f items
        ]
      ]
    ]
  ]

  -- `doc["arg"]["channel"].get_string()`, and whether it lets the message pass.
  unfoldable pub okx_channel : V → Option Text
  okx_channel doc = elim (e.json.field doc (codes "arg")) [
    | none ↦ none
    | some arg ↦ text arg (codes "channel")
  ]

  unfoldable pub okx_passes : V → Bool
  unfolding okx_channel
  okx_passes doc = elim (okx_channel doc) [
    | none ↦ true
    | some channel ↦ text_eq channel (codes "trades")
  ]

  -- OKXProvider::ParseTrade
  unfoldable pub okx_parse_trade : TradeFeed M → Text → TradeFeed M
  okx_parse_trade f message = elim (e.json.iterate message) [
    | none ↦ f
    | some doc ↦ elim (read_field e.json e.json.get_array doc (codes "data")) [
      | none ↦ f
      | some items ↦ if okx_passes doc then receive_items okx_fill f items else f
    ]
  ]
