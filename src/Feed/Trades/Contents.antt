-- ===== src/Feed/Trades/Contents.antt =====
-- The trades of a message, as values, and the providers' handlers as pushes of them.
use consolidated_book.Common.{
  ◌≡◌, refl, ◌∙◌, sym, ap, inl, inr, List, [], ◌∷◌, ◌++◌, none, some, Bool, true, false,
  if◌then◌else◌, Text, codes, find, text_eq, arith, Option-cases,
}
use consolidated_book.Json.{read_field}
use consolidated_book.Standard.{Result, ok, err, Result-cases}
use consolidated_book.Feed.Trades.{
  Unstamped, Platform, TradeFeed, text, receive, receive_filled, receive_items, binance_fill,
  bybit_fill, okx_fill, okx_passes, binance_parse_trade, bybit_parse_trade, okx_parse_trade,
}
use consolidated_book.Feed.Providers.{ProviderConfig, on_messages, Venue, provider}

-- The items that can be read, up to the first that cannot.
abbrev pub good : {V A : Type 0} → (V → Result A) → List V → List A
good fill [] = []
good fill (v ∷ vs) = elim (fill v) [ ok a ↦ a ∷ good fill vs | err x ↦ [] ]

module _ {V W M : Type 0} (e : Platform V W M) where
  -- The items of the document that a message holds, if it holds one.
  abbrev pub document_items : (V → List V) → Text → List V
  document_items items message = elim (e.json.iterate message) [ none ↦ [] | some doc ↦ items doc ]

  abbrev pub is_binance_trade : V → Bool
  is_binance_trade doc = elim (text e doc (codes "e")) [
    | none ↦ false
    | some event_type ↦ text_eq event_type (codes "trade")
  ]

  abbrev pub is_bybit_topic : V → Bool
  is_bybit_topic doc = elim (text e doc (codes "topic")) [
    | none ↦ false
    | some topic ↦ elim (find topic (codes "publicTrade")) [ none ↦ false | some i ↦ true ]
  ]

  abbrev pub data_items : V → List V
  data_items doc = elim (read_field e.json e.json.get_array doc (codes "data")) [
    | none ↦ []
    | some items ↦ items
  ]

  -- The trades that a message of each exchange holds, but for the time of their receipt.
  unfoldable pub binance_trades : Text → List (Unstamped W)
  binance_trades message =
      good (binance_fill e)
        (document_items (λ doc. if is_binance_trade doc then doc ∷ [] else []) message)

  unfoldable pub bybit_trades : Text → List (Unstamped W)
  bybit_trades message =
      good (bybit_fill e)
        (document_items (λ doc. if is_bybit_topic doc then data_items doc else []) message)

  unfoldable pub okx_trades : Text → List (Unstamped W)
  okx_trades message =
      good (okx_fill e)
        (document_items (λ doc. if okx_passes e doc then data_items doc else []) message)

  abbrev pub receives : TradeFeed M → List (Unstamped W) → TradeFeed M
  receives f [] = f
  receives f (t ∷ ts) = receives (receive e f t) ts

  receive_items-good :
      (fill : V → Result (Unstamped W)) (f : TradeFeed M) (items : List V)
      → receive_items e fill f items ≡ receives f (good fill items)
  unfolding receive_items
  receive_items-good fill f [] = refl
  receive_items-good fill f (item ∷ items) = elim (Result-cases (fill item)) [
    | inl (t, h) ↦ ground (arith, h, receive_items-good fill (receive e f t) items)
    | inr (x, h) ↦ ground (arith, h)
  ]

  pub binance_parse_trade-trades :
      (f : TradeFeed M) (message : Text)
      → binance_parse_trade e f message ≡ receives f (binance_trades message)
  unfolding binance_parse_trade binance_trades receive_filled
  binance_parse_trade-trades f message = elim (Option-cases (e.json.iterate message)) [
    | inl h ↦ ground (arith, h)
    | inr (doc, h) ↦ elim (Result-cases (binance_fill e doc)) [
      | inl (t, k) ↦ ground (arith, h, k)
      | inr (x, k) ↦ ground (arith, h, k)
    ]
  ]

  pub bybit_parse_trade-trades :
      (f : TradeFeed M) (message : Text)
      → bybit_parse_trade e f message ≡ receives f (bybit_trades message)
  unfolding bybit_parse_trade bybit_trades
  bybit_parse_trade-trades f message = elim (Option-cases (e.json.iterate message)) [
    | inl h ↦ ground (arith, h)
    | inr (doc, h) ↦ ground (arith, h, receive_items-good (bybit_fill e) f (data_items doc))
  ]

  pub okx_parse_trade-trades :
      (f : TradeFeed M) (message : Text)
      → okx_parse_trade e f message ≡ receives f (okx_trades message)
  unfolding okx_parse_trade okx_trades
  okx_parse_trade-trades f message = elim (Option-cases (e.json.iterate message)) [
    | inl h ↦ ground (arith, h)
    | inr (doc, h) ↦ ground (arith, h, receive_items-good (okx_fill e) f (data_items doc))
  ]

  abbrev pub trades : Venue → Text → List (Unstamped W)
  trades Venue.binance = binance_trades
  trades Venue.bybit = bybit_trades
  trades Venue.okx = okx_trades

  pub on_message-trades :
      (config : ProviderConfig M) (x : Venue) (f : TradeFeed M) (message : Text)
      → (provider e config x).on_message f message ≡ receives f (trades x message)
  on_message-trades config Venue.binance = binance_parse_trade-trades
  on_message-trades config Venue.bybit = bybit_parse_trade-trades
  on_message-trades config Venue.okx = okx_parse_trade-trades

  abbrev pub all_trades : Venue → List Text → List (Unstamped W)
  all_trades x [] = []
  all_trades x (message ∷ messages) = trades x message ++ all_trades x messages

  receives-append :
      (f : TradeFeed M) (ts us : List (Unstamped W))
      → receives f (ts ++ us) ≡ receives (receives f ts) us
  receives-append f [] us = refl
  receives-append f (t ∷ ts) us = receives-append (receive e f t) ts us

  pub on_messages-trades :
      (config : ProviderConfig M) (x : Venue) (f : TradeFeed M) (messages : List Text)
      → on_messages (provider e config x) f messages ≡ receives f (all_trades x messages)
  unfolding on_messages
  on_messages-trades config x f [] = refl
  on_messages-trades config x f (message ∷ messages) =
      on_messages-trades config x ((provider e config x).on_message f message) messages
      ∙ ap (λ g. receives g (all_trades x messages)) (on_message-trades config x f message)
      ∙ sym (receives-append f (trades x message) (all_trades x messages))
