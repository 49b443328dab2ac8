-- ===== src/Feed/Tests.antt =====
-- md_provider/provider/: two instruments at the three exchanges.
use consolidated_book.Common.{◌≡◌, refl, List, [], ◌∷◌, Text, codes, arith}
use consolidated_book.Feed.{
  okx_inst_id, entries, okx_entry, binance_subscription, bybit_subscription, okx_subscription,
}
use consolidated_book.Json.Print.{print}
use consolidated_book.Feed.Subscription.{
  binance_document, bybit_document, okx_document, subscription-print,
}

abbrev btc : Text
btc = codes "BTCUSDT"

abbrev both : List Text
both = btc ∷ codes "ETHUSDT" ∷ []

okx-btc : okx_inst_id btc ≡ codes "BTC-USDT"
unfolding okx_inst_id
okx-btc = refl

okx-both :
    okx_subscription both
    ≡ codes
        "{\"op\":\"subscribe\",\"args\":[{\"channel\":\"trades\",\"instId\":\"BTC-USDT\"},{\"channel\":\"trades\",\"instId\":\"ETH-USDT\"}]}"
unfolding okx_subscription entries okx_entry okx_inst_id
okx-both = refl

subscription-print_example :
    (binance_subscription both ≡ print (binance_document both))
    × (bybit_subscription both ≡ print (bybit_document both))
    × (okx_subscription both ≡ print (okx_document both))
subscription-print_example = subscription-print both (ground arith)
