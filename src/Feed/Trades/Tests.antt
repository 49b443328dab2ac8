-- ===== src/Feed/Trades/Tests.antt =====
-- bybit_provider.cpp: a message of three trades, the last one without a price, and a pipe for two trades.
-- JSON values are numbered.
use consolidated_book.Common.{
  ℕ, ◌+◌, ◌*◌, ◌≡◌, refl, inl, inr, List, [], ◌∷◌, ◌++◌, some, Bool, true, false, ◌==◌, ltb,
  if◌then◌else◌, Text, codes, length, lookup, text_eq, arith, Bool-cases, All,
}
use consolidated_book.Common.Int.{ℤ, pos}
use consolidated_book.Standard.{Result, ok, err, Exception, is_digit, duration_cast_ms}
use consolidated_book.Session.{
  ErrorCode, Event, web_socket_session, run, complete, guarded, on_resolve, on_connect,
  on_ssl_handshake, on_handshake, on_read, deliver, step, steps,
}
use consolidated_book.Feed.Connection.{handshakes, session, connect}
use consolidated_book.Feed.Trades.{
  ProviderTrade, Platform, TradeFeed, clock, receive, receive_items, push_trade, bybit_fill,
  okx_fill, bybit_parse_trade,
}
use consolidated_book.Feed.Providers.{ProviderConfig, trade_feed, on_messages, Venue, provider}
use consolidated_book.Feed.Trades.Contents.{all_trades}
use consolidated_book.Feed.Trades.Pushes.{PipeLaws, Kept, messages-Kept}
use consolidated_book.Feed.Trades.Names.{IsNamed, messages-IsNamed}
use consolidated_book.Feed.Trades.Errors.{okx_fill-cut}

-- 0 is the document, 1 its topic, 2 its data; 10 and 11 are items with a price, and 12 one without.
abbrev members : ℕ → List (Text × ℕ)
members v =
    if v == 0
    then (codes "topic", 1) ∷ (codes "data", 2) ∷ []
    else if v == 12
    then (codes "s", 3) ∷ (codes "p", 3) ∷ (codes "px", 3) ∷ []
    else (codes "instId", 6)
      ∷ (codes "px", 4)
      ∷ (codes "s", 3)
      ∷ (codes "i", v)
      ∷ (codes "p", 4)
      ∷ (codes "v", 4)
      ∷ (codes "T", 5)
      ∷ []

abbrev strings : ℕ → Text
strings v =
    if v == 1
    then codes "publicTrade.BTCUSDT"
    else if v == 3
    then codes "BTCUSDT"
    else if v == 6
    then codes "BTC-USDT"
    else codes "61000.5"

abbrev stod : Text → Result Text
stod [] = err Exception.invalid_argument
stod (c ∷ s) = if is_digit c then ok (c ∷ s) else err Exception.invalid_argument

abbrev push : List (ProviderTrade Text) → ProviderTrade Text → List (ProviderTrade Text) × Bool
push m t = if ltb (length m) 2 then (m ++ t ∷ [], true) else (m, false)

unfoldable pub platform : Platform ℕ Text (List (ProviderTrade Text))
platform = record {
  json = record {
    iterate = λ message. some 0;
    get_object = λ v. some v;
    get_array = λ v. some (10 ∷ 11 ∷ 12 ∷ []);
    get_string = λ v. some (strings v);
    get_uint64 = λ v. some v;
    get_int64 = λ v. some (pos v);
    field = λ v key. lookup key (members v);
  };
  stod = stod;
  ticks_per_ms = 1000000;
  system_clock = λ n. pos ((1000 + n) * 1000000 + 7);
  push = push;
}

pub platform-PipeLaws : PipeLaws platform (λ m. m)
unfolding platform clock duration_cast_ms
platform-PipeLaws = record {
  push-held = λ m t. elim (Bool-cases (ltb (length m) 2)) [
    | inl h ↦ inl (ground (arith, h))
    | inr h ↦ inr (ground (arith, h))
  ];
}

abbrev pub config : ProviderConfig (List (ProviderTrade Text))
config = record {
  exchange_names = codes "BYBIT";
  exchange_endpoint = [];
  instruments = codes "BTCUSDT" ∷ [];
  pipe_manager = some [];
  candle_timeframe_ms = 1000;
}

abbrev pub feed : TradeFeed (List (ProviderTrade Text))
feed = record { pipe_manager = some []; readings = 0; warnings = 0 }

new_feed : trade_feed config ≡ feed
unfolding trade_feed
new_feed = refl

abbrev trade : ℤ → ProviderTrade Text
trade now = record {
  exchange = codes "BYBIT";
  instrument = codes "BTCUSDT";
  trade_id = codes "61000.5";
  price = some (codes "61000.5");
  qty = some (codes "61000.5");
  ts_exchange_ms = some (pos 5);
  ts_recv_ms = now;
}

one_message :
    (on_messages (provider platform config Venue.bybit) feed (codes "{}" ∷ [])).pipe_manager
    ≡ some (trade (pos 1000) ∷ trade (pos 1001) ∷ [])
unfolding platform clock duration_cast_ms on_messages bybit_parse_trade receive_items receive
    push_trade bybit_fill lookup text_eq
one_message = refl

two_messages :
    on_messages (provider platform config Venue.bybit) feed (codes "{}" ∷ codes "{}" ∷ [])
    ≡ record {
      pipe_manager = some (trade (pos 1000) ∷ trade (pos 1001) ∷ []);
      readings = 4;
      warnings = 2;
    }
unfolding platform clock duration_cast_ms on_messages bybit_parse_trade receive_items receive
    push_trade bybit_fill lookup text_eq
two_messages = refl

messages-Kept_example :
    Kept platform
      (λ m. m)
      []
      feed
      (on_messages (provider platform config Venue.bybit) feed (codes "{}" ∷ codes "{}" ∷ []))
      (all_trades platform Venue.bybit (codes "{}" ∷ codes "{}" ∷ []))
messages-Kept_example =
    messages-Kept platform-PipeLaws config Venue.bybit feed [] (codes "{}" ∷ codes "{}" ∷ []) refl

messages-IsNamed_example :
    (m' : List (ProviderTrade Text)) × ((on_messages
        (provider platform config Venue.okx)
        feed
        (codes "{}" ∷ [])).pipe_manager
      ≡ some m')
    × All (IsNamed Venue.okx) m'
messages-IsNamed_example =
    messages-IsNamed platform-PipeLaws config Venue.okx feed [] (codes "{}" ∷ []) refl tt

okx_fill-cut_example :
    receive_items platform (okx_fill platform) feed (10 ∷ 12 ∷ 11 ∷ [])
    ≡ receive_items platform (okx_fill platform) feed (10 ∷ [])
unfolding platform clock duration_cast_ms lookup text_eq
okx_fill-cut_example =
    okx_fill-cut platform feed (10 ∷ []) 12 (11 ∷ [])
      (inl (codes "BTCUSDT", refl, (Exception.invalid_argument, refl)))

abbrev reads : Event
reads = Event.completes ErrorCode.success true (codes "{}")

abbrev closes : Event
closes = Event.completes ErrorCode.closed true []

connect_quiet :
    (connect
      (provider platform config Venue.bybit)
      feed
      (handshakes ++ reads ∷ closes ∷ reads ∷ [])).warnings
    ≡ 0
unfolding connect session run web_socket_session steps step complete on_resolve on_connect
    on_ssl_handshake on_handshake on_read deliver guarded platform on_messages bybit_parse_trade
    receive_items receive push_trade bybit_fill lookup text_eq
connect_quiet = refl
