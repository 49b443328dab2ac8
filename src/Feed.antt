-- ===== src/Feed.antt =====
-- md_provider/provider/: the instruments in the words of each exchange, and the subscription messages of
-- binance_provider.cpp, bybit_provider.cpp and okx_provider.cpp. Texts are ASCII, in the C locale.
pub mod Symbols
pub mod Subscription
pub mod Trades
pub mod Providers
pub mod Connection
pub mod Live
pub mod Tests
use consolidated_book.Common.{
  ℕ, ◌+◌, ◌-◌, List, [], ◌∷◌, ◌++◌, Option, none, some, Bool, true, false, ◌==◌, leb, ◌&&◌,
  if◌then◌else◌, Text, codes, find, length, take, drop, map,
}

-- std::tolower and std::toupper
unfoldable pub to_lower : ℕ → ℕ
to_lower c = if leb 65 c && leb c 90 then c + 32 else c

unfoldable pub to_upper : ℕ → ℕ
to_upper c = if leb 97 c && leb c 122 then c - 32 else c

-- ExtractSymbol of bybit_spot_parser.h
unfoldable pub extract_symbol : Text → Text
extract_symbol topic = elim (find topic (codes "publicTrade.")) [
  | none ↦ []
  | some i ↦ drop (i + 12) topic
]

-- BTCUSDT becomes BTC-USDT.
unfoldable pub okx_inst_id : Text → Text
okx_inst_id instrument = elim (find instrument (codes "USDT")) [
  | none ↦ instrument
  | some i ↦ take i instrument ++ codes "-" ++ drop i instrument
]

-- erase(remove(begin, end, '-'), end)
unfoldable pub remove_hyphens : Text → Text
remove_hyphens [] = []
remove_hyphens (c ∷ s) = let rest = remove_hyphens s in if c == b'-' then rest else c ∷ rest

-- The loop over config.instruments from index `i`.
unfoldable pub entries : (Text → Text) → ℕ → List Text → Text
entries entry i [] = []
entries entry i (x ∷ xs) = (if i == 0 then [] else codes ",") ++ entry x ++ entries entry (i + 1) xs

abbrev pub quote : Text
quote = b'"' ∷ []

unfoldable pub binance_entry : Text → Text
binance_entry x = quote ++ map to_lower x ++ codes "@trade" ++ quote

unfoldable pub bybit_topic : Text → Text
bybit_topic x = codes "publicTrade." ++ x

unfoldable pub bybit_entry : Text → Text
bybit_entry x = quote ++ bybit_topic x ++ quote

unfoldable pub okx_entry : Text → Text
okx_entry x = codes "{\"channel\":\"trades\",\"instId\":\"" ++ okx_inst_id x ++ codes "\"}"

unfoldable pub binance_subscription : List Text → Text
binance_subscription xs =
    codes "{\"method\":\"SUBSCRIBE\",\"params\":["
    ++ entries binance_entry 0 xs
    ++ codes "],\"id\":1}"

unfoldable pub bybit_subscription : List Text → Text
bybit_subscription xs =
    codes "{\"op\":\"subscribe\",\"args\":[" ++ entries bybit_entry 0 xs ++ codes "]}"

unfoldable pub okx_subscription : List Text → Text
okx_subscription xs =
    codes "{\"op\":\"subscribe\",\"args\":[" ++ entries okx_entry 0 xs ++ codes "]}"
