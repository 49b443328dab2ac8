-- ===== src/Feed/Connection.antt =====
-- md_provider/provider/base_provider.cpp: one connection of Run, a session with OnMessage as its
-- callback. The callback is called inside OnRead; here it runs over the calls that the session has made,
-- in their order.
use consolidated_book.Common.{
  ◌≡◌, ◌≤◌, refl, ◌∙◌, sym, ap, List, [], ◌∷◌, ◌++◌, some, true, length, arith,
}
use consolidated_book.Session.{
  ErrorCode, WebSocketSession, Event, web_socket_session, run, complete, guarded, on_resolve,
  on_connect, on_ssl_handshake, on_handshake, step, steps,
}
use consolidated_book.Session.Handshakes.{successes, steps-successes}
use consolidated_book.Session.Messages.{IsReading, received, calls-received}
use consolidated_book.Feed.Trades.{ProviderTrade, Platform, TradeFeed}
use consolidated_book.Feed.Providers.{
  ProviderConfig, ExchangeProvider, on_messages, Venue, provider,
}
use consolidated_book.Feed.Trades.Contents.{all_trades}
use consolidated_book.Feed.Trades.Pushes.{PipeLaws, stamped, messages-all}

-- `ws_session->Run(GetHost(), GetPort(), GetPath())`, and what then happens to it.
unfoldable pub session : {M : Type 0} → ExchangeProvider M → List Event → WebSocketSession
session p es =
    steps
      (run (web_socket_session true) p.endpoint.get_host p.endpoint.get_port p.endpoint.get_path) es

unfoldable pub connect : {M : Type 0} → ExchangeProvider M → TradeFeed M → List Event → TradeFeed M
unfolding session
connect p f es = on_messages p f (session p es).calls

-- The four operations before the first read, each with a success.
abbrev pub handshakes : List Event
handshakes =
    let ends : Event = Event.completes ErrorCode.success true [] in ends ∷ ends ∷ ends ∷ ends ∷ []

no_elements : {A : Type 0} (xs : List A) → length xs ≤ 0 → xs ≡ []
no_elements [] h = refl
no_elements (x ∷ xs) h = absurd (omega arith)

module _ {M : Type 0} (p : ExchangeProvider M) where
  session-handshakes : IsReading (session p handshakes) × ((session p handshakes).calls ≡ [])
  unfolding session run web_socket_session steps step complete on_resolve on_connect
      on_ssl_handshake on_handshake guarded
  session-handshakes =
      (record { reads = refl; emptied = refl; calls_back = refl; runs = refl }, refl)

  session-append :
      (es : List Event) → session p (handshakes ++ es) ≡ steps (session p handshakes) es
  unfolding session steps
  session-append es = refl

  -- A connection with at most four operations that succeed leaves the pipe, the clock and the warnings
  -- as they are.
  pub connect-successes :
      (f : TradeFeed M) (es : List Event) → successes es ≤ 4 → connect p f es ≡ f
  unfolding connect session on_messages
  connect-successes f es h = ap (on_messages p f) (
      no_elements (session p es).calls (
        omega (
          arith,
          steps-successes true p.endpoint.get_host p.endpoint.get_port p.endpoint.get_path es,
        )))

  connect-received :
      (f : TradeFeed M) (es : List Event)
      → connect p f (handshakes ++ es) ≡ on_messages p f (received es)
  unfolding connect
  connect-received f es =
      let (reading, none_yet) = session-handshakes in
      ap (on_messages p f) (
        ap (λ s. s.calls) (session-append es)
        ∙ calls-received (session p handshakes) es reading
        ∙ ap (λ cs. cs ++ received es) none_yet)

module _ {V W M : Type 0} {e : Platform V W M} {held : M → List (ProviderTrade W)}
    (laws : PipeLaws e held) where
  -- With a pipe that keeps PipeLaws, after the four handshakes, and if no warning is written, the pipe
  -- ends with exactly the trades of the messages that are read before the first error or Stop behind
  -- those that it held, in their order and stamped with the readings of the clock.
  pub connect-all :
      (config : ProviderConfig M) (x : Venue) (f : TradeFeed M) (m : M) (es : List Event)
      → f.pipe_manager ≡ some m
      → (connect (provider e config x) f (handshakes ++ es)).warnings ≡ f.warnings
      → (m' : M) × ((connect (provider e config x) f (handshakes ++ es)).pipe_manager ≡ some m')
        × (held m' ≡ held m ++ stamped e f.readings (all_trades e x (received es)))
  connect-all config x f m es h quiet =
      let whole = connect-received (provider e config x) f es in
      let (m', leads, all) =
        messages-all laws config x f m (received es) h (sym (ap (λ g. g.warnings) whole) ∙ quiet) in
      (m', ap (λ g. g.pipe_manager) whole ∙ leads, all)
