-- ===== src/Feed/Live/Tests.antt =====
-- base_provider.cpp: a BybitProvider that is started, reads a message and is stopped.
use consolidated_book.Common.{
  ◌≡◌, ◌≢◌, refl, List, [], ◌∷◌, ◌++◌, true, false, some, Text, codes, lookup, text_eq, arith,
}
use consolidated_book.Session.{
  ErrorCode, WebSocketSession, Event, web_socket_session, complete, guarded, on_resolve, on_connect,
  on_ssl_handshake, on_handshake, on_read, deliver, step, steps, fail,
}
use consolidated_book.Session
use consolidated_book.Feed.Trades.{
  bybit_parse_trade, receive_items, receive, push_trade, bybit_fill, ProviderTrade,
}
use consolidated_book.Feed.Trades.Contents.{all_trades}
use consolidated_book.Feed.Trades.Pushes.{stamped}
use consolidated_book.Feed.Live.Contents.{run_steps-all}
use consolidated_book.Feed.Trades.Tests.{platform, platform-PipeLaws, config}
use consolidated_book.Feed.Providers.{ExchangeProvider, on_messages, Venue, trade_feed}
use consolidated_book.Feed.Connection.{session, connect}
use consolidated_book.Feed.Live.{
  Worker, Caller, Live, live, new_bybit_provider, Outcome, Handler, Whose, start, stop_step, handle,
  finish, serve, advance, run_step, run_steps, Step, Reach,
}
use consolidated_book.Feed.Live.View.{IsSimulated}
use consolidated_book.Feed.Live.Simulation.{Reach-IsSimulated}
use consolidated_book.Feed.Live.Messages.{Reply, events, outcomes, opens, IsFree, run_steps-connect}
use consolidated_book.Feed.Live.Stopping.{rounds, Round, turns, stop-returns, join-silent}
use consolidated_book.Feed.Live.Halting.{in_handler}

abbrev Pipe : Type 0
Pipe = List (ProviderTrade Text)

abbrev bybit : ExchangeProvider Pipe
bybit = (new_bybit_provider platform config).0

abbrev new : Live Pipe
new = (new_bybit_provider platform config).1

abbrev started : Live Pipe
started = record new { running = true; worker = Worker.looping }

new_started : start new ≡ some started
unfolding start live
new_started = refl

abbrev goes : Outcome
goes = Outcome.ends Whose.current ErrorCode.success true []

abbrev entered : Live Pipe
entered = record started { worker = Worker.entered }

abbrev shakes : Reply
shakes = (ErrorCode.success, true, [])

abbrev reads : Reply
reads = (ErrorCode.success, true, codes "{}")

abbrev handshakes : List Reply
handshakes = shakes ∷ shakes ∷ shakes ∷ shakes ∷ []

run_steps-Reach :
    (p : Live Pipe) (os : List Outcome)
    → Reach bybit (trade_feed config) p
    → Reach bybit (trade_feed config) (run_steps bybit p os)
unfolding run_steps
run_steps-Reach p [] r = r
run_steps-Reach p (o ∷ os) r = run_steps-Reach (run_step bybit p o) os (Reach.later r (Step.runs o))

started-Reach : Reach bybit (trade_feed config) started
unfolding live
started-Reach = Reach.later Reach.built (Step.starts refl new_started)

-- Connected, with the handshakes done.
abbrev connected : Live Pipe
connected = run_steps bybit started (goes ∷ goes ∷ goes ∷ goes ∷ outcomes handshakes)

connected-Reach : Reach bybit (trade_feed config) connected
connected-Reach =
    run_steps-Reach started (goes ∷ goes ∷ goes ∷ goes ∷ outcomes handshakes) started-Reach

Reach-IsSimulated_example : IsSimulated (stop_step connected ErrorCode.success)
Reach-IsSimulated_example =
    Reach-IsSimulated bybit (Reach.later connected-Reach (Step.stops ErrorCode.success))

entered-IsFree : IsFree bybit entered
unfolding live
entered-IsFree = refl

run_steps-connect_example :
    ((run_steps bybit (opens bybit entered) (outcomes (handshakes ++ reads ∷ []))).worker
      ≡ Worker.serving)
    × ((run_steps bybit (opens bybit entered) (outcomes (handshakes ++ reads ∷ []))).ws_session
        ≡ some (session bybit (events (handshakes ++ reads ∷ []))))
    × ((run_steps bybit (opens bybit entered) (outcomes (handshakes ++ reads ∷ []))).feed
        ≡ connect bybit entered.feed (events (handshakes ++ reads ∷ [])))
unfolding session Session.run web_socket_session steps step complete on_resolve on_connect
    on_ssl_handshake on_handshake guarded
run_steps-connect_example =
    run_steps-connect bybit entered handshakes ErrorCode.success true (codes "{}") refl
      entered-IsFree refl

abbrev one_each : Round bybit
one_each = (Outcome.ends Whose.current ErrorCode.success true (codes "{}"), [], ErrorCode.closed)

abbrev eight : List (Round bybit)
eight = one_each ∷ one_each ∷ one_each ∷ one_each ∷ one_each ∷ one_each ∷ one_each ∷ one_each ∷ []

serving-ne-entered : Worker.serving ≢ Worker.entered
serving-ne-entered h = cc

stop-returns_example :
    ((rounds bybit (stop_step connected ErrorCode.success) eight).caller ≡ Caller.outside)
    × ((rounds bybit (stop_step connected ErrorCode.success) eight).worker ≡ Worker.absent)
    × ((rounds bybit (stop_step connected ErrorCode.success) eight).running ≡ false)
unfolding live run_steps run_step advance serve finish handle Session.run web_socket_session step
    complete on_resolve on_connect on_ssl_handshake on_handshake guarded
stop-returns_example =
    stop-returns bybit ErrorCode.success eight connected-Reach refl refl serving-ne-entered
      (omega arith)

-- Stopped while its worker is in the handler of a read.
abbrev in_read : Live Pipe
in_read = run_step bybit connected (Outcome.ends Whose.current ErrorCode.success true (codes "{}"))

in_read-Reach : Reach bybit (trade_feed config) in_read
in_read-Reach =
    Reach.later connected-Reach
      (Step.runs (Outcome.ends Whose.current ErrorCode.success true (codes "{}")))

handling-ne-entered : (h : Handler) → Worker.handling h ≢ Worker.entered
handling-ne-entered h e = cc

abbrev reaches_join : List (List Outcome × ErrorCode)
reaches_join = ([], ErrorCode.closed) ∷ ([], ErrorCode.closed) ∷ []

join-silent_example :
    let q = turns bybit (stop_step in_read ErrorCode.success) reaches_join in
    ((run_steps bybit q (goes ∷ goes ∷ [])).feed ≡ (run_step bybit q goes).feed)
    × (in_handler q.worker ≡ false → (run_steps bybit q (goes ∷ goes ∷ [])).feed ≡ q.feed)
unfolding live run_steps run_step advance serve finish handle Session.run web_socket_session step
    complete on_resolve on_connect on_ssl_handshake on_handshake on_read deliver guarded stop_step
    turns Session.stop fail
join-silent_example =
    join-silent bybit ErrorCode.success reaches_join goes (goes ∷ []) in_read-Reach refl refl
      (handling-ne-entered _) refl

abbrev closes : Reply
closes = (ErrorCode.closed, true, [])

abbrev read_once : Live Pipe
read_once = run_steps bybit (opens bybit entered) (outcomes (handshakes ++ reads ∷ closes ∷ []))

read_once-quiet : read_once.feed.warnings ≡ 0
unfolding live trade_feed run_steps run_step advance serve finish handle Session.run
    web_socket_session step complete on_resolve on_connect on_ssl_handshake on_handshake on_read
    deliver guarded platform on_messages bybit_parse_trade receive_items receive push_trade
    bybit_fill lookup text_eq
read_once-quiet = refl

run_steps-all_example :
    (m' : Pipe) × (read_once.feed.pipe_manager ≡ some m')
    × (m' ≡ stamped platform 0 (all_trades platform Venue.bybit (codes "{}" ∷ [])))
unfolding live trade_feed session Session.run web_socket_session steps step complete on_resolve
    on_connect on_ssl_handshake on_handshake on_read deliver guarded
run_steps-all_example =
    run_steps-all platform-PipeLaws config Venue.bybit entered [] (reads ∷ []) ErrorCode.closed true
      [] refl refl refl refl read_once-quiet
