-- ===== src/Types/Exchange/Converter.antt =====
-- types/exchange.h: ExchangeConverter as one interface, and what its clients may rely on.
use consolidated_book.Common.{Text, ◌≡◌, ◌≢◌, ◌↔◌, refl, sym, ◌∙◌}
use consolidated_book.Types.Exchange.{
  Exchange, InstrumentId, to_exchange, to_exchange_string, to_instrument_id, to_instrument_string,
}
use consolidated_book.Types.Exchange.Laws.{
  to_exchange-to_exchange_string, to_instrument_id-to_instrument_string,
}

-- The four static functions. There are no objects of the class.
pub record ExchangeConverter : Type 0 where
  pub exchange_string : Exchange → Text
  pub exchange_of : Text → Exchange
  pub instrument_string : InstrumentId → Text
  pub instrument_of : Text → InstrumentId

unfoldable pub exchange_converter : ExchangeConverter
exchange_converter = record {
  exchange_string = to_exchange_string;
  exchange_of = to_exchange;
  instrument_string = to_instrument_string;
  instrument_of = to_instrument_id;
}

-- A text is read as a known value exactly if it is that value's name, and as the unknown one exactly if
-- it is the name of no known value.
pub record IsFaithful (c : ExchangeConverter) : Type 0 where
  pub known_exchange :
      (e : Exchange) (s : Text)
      → e ≢ Exchange.unknown
      → (c.exchange_of s ≡ e) ↔ (s ≡ c.exchange_string e)
  pub unknown_exchange :
      (s : Text)
      → (c.exchange_of s ≡ Exchange.unknown)
        ↔ ((e : Exchange) → e ≢ Exchange.unknown → s ≢ c.exchange_string e)
  pub known_instrument :
      (i : InstrumentId) (s : Text)
      → i ≢ InstrumentId.unknown
      → (c.instrument_of s ≡ i) ↔ (s ≡ c.instrument_string i)
  pub unknown_instrument :
      (s : Text)
      → (c.instrument_of s ≡ InstrumentId.unknown)
        ↔ ((i : InstrumentId) → i ≢ InstrumentId.unknown → s ≢ c.instrument_string i)

Exchange-not-unknown :
    (e : Exchange) → ((e' : Exchange) → e' ≢ Exchange.unknown → e ≢ e') → e ≡ Exchange.unknown
Exchange-not-unknown Exchange.unknown h = refl
Exchange-not-unknown Exchange.binance h = absurd (h Exchange.binance (λ e. cc) refl)
Exchange-not-unknown Exchange.bybit h = absurd (h Exchange.bybit (λ e. cc) refl)
Exchange-not-unknown Exchange.okx h = absurd (h Exchange.okx (λ e. cc) refl)

InstrumentId-not-unknown :
    (i : InstrumentId)
    → ((i' : InstrumentId) → i' ≢ InstrumentId.unknown → i ≢ i')
    → i ≡ InstrumentId.unknown
InstrumentId-not-unknown InstrumentId.unknown h = refl
InstrumentId-not-unknown InstrumentId.btcusdt h = absurd (h InstrumentId.btcusdt (λ e. cc) refl)
InstrumentId-not-unknown InstrumentId.ethusdt h = absurd (h InstrumentId.ethusdt (λ e. cc) refl)
InstrumentId-not-unknown InstrumentId.solusdt h = absurd (h InstrumentId.solusdt (λ e. cc) refl)

-- ExchangeConverter reads a text as a known exchange or instrument exactly if the text is the name that it
-- gives to that value, and as the unknown one exactly if it is the name of no known value: on all texts,
-- both pairs of functions are inverse to each other but for the unknown values.
pub exchange_converter-IsFaithful : IsFaithful exchange_converter
unfolding exchange_converter
exchange_converter-IsFaithful = record {
  known_exchange = λ e s h. to_exchange-to_exchange_string e s h;
  unknown_exchange = λ s. (
    λ h e known same. known (sym ((to_exchange-to_exchange_string e s known).1 same) ∙ h),
    λ h.
        Exchange-not-unknown (to_exchange s)
          (λ e known same. h e known ((to_exchange-to_exchange_string e s known).0 same)),
  );
  known_instrument = λ i s h. to_instrument_id-to_instrument_string i s h;
  unknown_instrument = λ s. (
    λ h i known same. known (sym ((to_instrument_id-to_instrument_string i s known).1 same) ∙ h),
    λ h.
        InstrumentId-not-unknown (to_instrument_id s)
          (λ i known same. h i known ((to_instrument_id-to_instrument_string i s known).0 same)),
  );
}
