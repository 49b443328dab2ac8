-- ===== src/Types/Exchange/Laws.antt =====
-- types/exchange.h: names and values of the enumerations correspond.
use consolidated_book.Common.{Text, codes, text_eq, text_eq_iff, ◌≡◌, ◌≢◌, ◌↔◌, refl, arith}
use consolidated_book.Types.Exchange.{
  Exchange, InstrumentId, to_exchange, to_exchange_string, to_instrument_id, to_instrument_string,
}

to_exchange-eq :
    (s : Text) (e : Exchange) → e ≢ Exchange.unknown → to_exchange s ≡ e → s ≡ to_exchange_string e
unfolding to_exchange to_exchange_string
to_exchange-eq s e h q = ground (
  arith,
  text_eq_iff s (codes "BINANCE"),
  text_eq_iff s (codes "BYBIT"),
  text_eq_iff s (codes "OKX"),
)

read_back : (e : Exchange) → to_exchange (to_exchange_string e) ≡ e
unfolding to_exchange to_exchange_string text_eq
read_back Exchange.unknown = refl
read_back e = refl

-- An exchange that is not unknown is what ToExchange reads from a text exactly if the text is the
-- name that ToExchangeString gives it.
pub to_exchange-to_exchange_string :
    (e : Exchange) (s : Text)
    → e ≢ Exchange.unknown
    → (to_exchange s ≡ e) ↔ (s ≡ to_exchange_string e)
to_exchange-to_exchange_string e s h = (to_exchange-eq s e h, λ q. rw q (read_back e))

to_instrument_id-eq :
    (s : Text) (i : InstrumentId)
    → i ≢ InstrumentId.unknown
    → to_instrument_id s ≡ i
    → s ≡ to_instrument_string i
unfolding to_instrument_id to_instrument_string
to_instrument_id-eq s i h q = ground (
  arith,
  text_eq_iff s (codes "BTCUSDT"),
  text_eq_iff s (codes "ETHUSDT"),
  text_eq_iff s (codes "SOLUSDT"),
)

instrument_read_back : (i : InstrumentId) → to_instrument_id (to_instrument_string i) ≡ i
unfolding to_instrument_id to_instrument_string text_eq
instrument_read_back InstrumentId.unknown = refl
instrument_read_back i = refl

-- An instrument that is not unknown is what ToInstrumentId reads from a text exactly if the text is the
-- name that ToInstrumentString gives it.
pub to_instrument_id-to_instrument_string :
    (i : InstrumentId) (s : Text)
    → i ≢ InstrumentId.unknown
    → (to_instrument_id s ≡ i) ↔ (s ≡ to_instrument_string i)
to_instrument_id-to_instrument_string i s h =
    (to_instrument_id-eq s i h, λ q. rw q (instrument_read_back i))
