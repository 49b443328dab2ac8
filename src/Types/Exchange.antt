-- ===== src/Types/Exchange.antt =====
-- types/exchange.h: the two enumerations and the static functions of ExchangeConverter.
pub mod Laws
pub mod Converter
use consolidated_book.Common.{Text, codes, text_eq, if◌then◌else◌}

pub data InstrumentId : Type 0 where
  unknown btcusdt ethusdt solusdt : InstrumentId

pub data Exchange : Type 0 where
  unknown binance bybit okx : Exchange

unfoldable pub to_exchange_string : Exchange → Text
to_exchange_string Exchange.binance = codes "BINANCE"
to_exchange_string Exchange.bybit = codes "BYBIT"
to_exchange_string Exchange.okx = codes "OKX"
to_exchange_string Exchange.unknown = codes "UNKNOWN"

unfoldable pub to_exchange : Text → Exchange
to_exchange s =
    if text_eq s (codes "BINANCE")
    then Exchange.binance
    else if text_eq s (codes "BYBIT")
    then Exchange.bybit
    else if text_eq s (codes "OKX")
    then Exchange.okx
    else Exchange.unknown

unfoldable pub to_instrument_string : InstrumentId → Text
to_instrument_string InstrumentId.btcusdt = codes "BTCUSDT"
to_instrument_string InstrumentId.ethusdt = codes "ETHUSDT"
to_instrument_string InstrumentId.solusdt = codes "SOLUSDT"
to_instrument_string InstrumentId.unknown = codes "UNKNOWN"

unfoldable pub to_instrument_id : Text → InstrumentId
to_instrument_id s =
    if text_eq s (codes "BTCUSDT")
    then InstrumentId.btcusdt
    else if text_eq s (codes "ETHUSDT")
    then InstrumentId.ethusdt
    else if text_eq s (codes "SOLUSDT")
    then InstrumentId.solusdt
    else InstrumentId.unknown
