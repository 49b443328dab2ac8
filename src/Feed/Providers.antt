-- ===== src/Feed/Providers.antt =====
-- md_provider/provider/: BinanceProvider, BybitProvider and OKXProvider as objects, with their
-- configuration and endpoints.
use consolidated_book.Common.{ℕ, List, [], ◌∷◌, Option, Text, codes}
use consolidated_book.Feed.{binance_subscription, bybit_subscription, okx_subscription}
use consolidated_book.Feed.Trades.{
  Platform, TradeFeed, binance_parse_trade, bybit_parse_trade, okx_parse_trade,
}

pub record ProviderConfig (M : Type 0) : Type 0 where
  pub exchange_names : Text
  pub exchange_endpoint : Text
  pub instruments : List Text
  pub pipe_manager : Option M
  pub candle_timeframe_ms : ℕ  -- uint32_t

-- The feed of a new provider: the pipe that its config points to.
unfoldable pub trade_feed : {M : Type 0} → ProviderConfig M → TradeFeed M
trade_feed config = record { pipe_manager = config.pipe_manager; readings = 0; warnings = 0 }

-- GetHost, GetPort and GetPath.
pub record Endpoint : Type 0 where
  pub get_host : Text
  pub get_port : Text
  pub get_path : Text

abbrev pub binance_endpoint : Endpoint
binance_endpoint = record {
  get_host = codes "fstream.binance.com";
  get_port = codes "443";
  get_path = codes "/ws";
}

abbrev pub bybit_endpoint : Endpoint
bybit_endpoint = record {
  get_host = codes "stream.bybit.com";
  get_port = codes "443";
  get_path = codes "/v5/public/linear";
}

abbrev pub okx_endpoint : Endpoint
okx_endpoint = record {
  get_host = codes "ws.okx.com";
  get_port = codes "8443";
  get_path = codes "/ws/v5/public";
}

-- The virtual functions of a provider.
pub record ExchangeProvider (M : Type 0) : Type 0 where
  pub endpoint : Endpoint
  pub get_subscription_message : Text
  pub on_message : TradeFeed M → Text → TradeFeed M

module _ {V W M : Type 0} (e : Platform V W M) (config : ProviderConfig M) where
  abbrev pub binance_provider : ExchangeProvider M
  binance_provider = record {
    endpoint = binance_endpoint;
    get_subscription_message = binance_subscription config.instruments;
    on_message = binance_parse_trade e;
  }

  abbrev pub bybit_provider : ExchangeProvider M
  bybit_provider = record {
    endpoint = bybit_endpoint;
    get_subscription_message = bybit_subscription config.instruments;
    on_message = bybit_parse_trade e;
  }

  abbrev pub okx_provider : ExchangeProvider M
  okx_provider = record {
    endpoint = okx_endpoint;
    get_subscription_message = okx_subscription config.instruments;
    on_message = okx_parse_trade e;
  }

-- The three classes.
pub data Venue : Type 0 where
  binance bybit okx : Venue

abbrev pub provider :
    {V W M : Type 0} → Platform V W M → ProviderConfig M → Venue → ExchangeProvider M
provider e config Venue.binance = binance_provider e config
provider e config Venue.bybit = bybit_provider e config
provider e config Venue.okx = okx_provider e config

-- The messages of a connection, one after the other.
unfoldable pub on_messages :
    {M : Type 0} → ExchangeProvider M → TradeFeed M → List Text → TradeFeed M
on_messages p f [] = f
on_messages p f (message ∷ messages) = on_messages p (p.on_message f message) messages

-- BinanceMessageParser, which is declared and never defined or used: all that a client of it could call,
-- for a type of trades.
pub record BinanceMessageParser (T : Type 0) : Type 0 where
  pub parse_trade : Text → T  -- of a message that is moved in
  pub parse_trade_of : Text → T  -- of a message by reference, private
