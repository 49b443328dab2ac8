-- ===== src/Feed/Live.antt =====
-- md_provider/provider/base_provider.cpp: a whole provider. The thread that calls Start and Stop and the
-- worker take steps in any order, each between two accesses to what they share: `running`, ws_session,
-- and whether `ioc` has been stopped. The worker handles each message as it is read. A session whose
-- handlers `ioc` still holds when the next one is made is kept, and its handlers run on with those of the
-- new one. A handler tests `stopped` in one step and does the rest in another. Log lines are left out.
pub mod View
pub mod Handlers
pub mod Simulation
pub mod Messages
pub mod Halting
pub mod Stopping
pub mod Race
pub mod Contents
pub mod Tests
use consolidated_book.Common.{
  ℕ, zero, suc, ◌+◌, ◌%◌, ◌^◌, ◌≡◌, List, [], ◌∷◌, Option, none, some, Bool, true, false, ltb, not,
  ◌||◌, if◌then◌else◌, Text, length, drop,
}
use consolidated_book.Session.{ErrorCode, Pending, WebSocketSession, Event, web_socket_session}
use consolidated_book.Session
use consolidated_book.Provider.{delay_ms, max_reconnect_attempts}
use consolidated_book.Feed.Trades.{Platform, TradeFeed}
use consolidated_book.Feed.Providers.{
  ProviderConfig, trade_feed, ExchangeProvider, on_messages, binance_provider, bybit_provider,
  okx_provider,
}

-- A null pointer is `none`.
abbrev pub WebSocketSessionSslPtr : Type 0
WebSocketSessionSslPtr = Option WebSocketSession

-- Whose handler it is: the session's of ws_session, or that of an earlier one.
pub data Whose : Type 0 where
  current : Whose
  earlier : ℕ → Whose

-- A handler of the session, with what it is given.
pub record Handler : Type 0 where
  pub whose : Whose
  pub ec : ErrorCode
  pub sni : Bool
  pub bytes : Text

-- worker_thread: not joinable (`absent`), or at a point of Run.
pub data Worker : Type 0 where
  absent : Worker
  looping : Worker  -- before `while (running)`
  entered : Worker  -- before ioc.restart()
  restarted : Worker  -- before make_shared
  made : Worker  -- before ws_session->Run
  serving : Worker  -- in ioc.run(), between two handlers
  handling : Handler → Worker  -- in a handler, past its test of `stopped`
  dropped : Worker  -- before `if (running)`, after ioc.run() or in the handler of an exception
  reconnecting : Worker  -- at the start of HandleReconnection
  counting : Worker  -- past its test of `running`
  sleeping : ℕ → Worker  -- in sleep_for, with the delay in ms
  ended : Worker  -- returned from Run, not joined

-- The thread that calls Start and Stop.
pub data Caller : Type 0 where
  outside : Caller  -- not in a call
  exchanged : Caller  -- in Stop, before `if (ws_session)`
  halting : Caller  -- before ioc.stop()
  joining : Caller  -- in worker_thread.join()

pub record Live (M : Type 0) : Type 0 where
  pub running : Bool
  pub reconnect_count : ℕ  -- uint32_t
  pub ws_session : WebSocketSessionSslPtr
  pub earlier : List WebSocketSession  -- the sessions before it: `ioc` holds those with a pending operation
  pub ioc_stopped : Bool
  pub worker : Worker
  pub caller : Caller
  pub feed : TradeFeed M

unfoldable pub live : {M : Type 0} → TradeFeed M → Live M
live f = record {
  running = false;
  reconnect_count = 0;
  ws_session = none;
  earlier = [];
  ioc_stopped = false;
  worker = Worker.absent;
  caller = Caller.outside;
  feed = f;
}

-- The constructors of the three classes, with the virtual functions that each of them has.
module _ {V W M : Type 0} (e : Platform V W M) (config : ProviderConfig M) where
  abbrev pub new_binance_provider : ExchangeProvider M × Live M
  new_binance_provider = (binance_provider e config, live (trade_feed config))

  abbrev pub new_bybit_provider : ExchangeProvider M × Live M
  new_bybit_provider = (bybit_provider e config, live (trade_feed config))

  abbrev pub new_okx_provider : ExchangeProvider M × Live M
  new_okx_provider = (okx_provider e config, live (trade_feed config))

abbrev pub has_thread : Worker → Bool
has_thread Worker.absent = false
has_thread w = true

abbrev pub no_handler : Handler
no_handler = record { whose = Whose.current; ec = ErrorCode.success; sni = true; bytes = [] }

-- What comes of the next step of the worker: in ioc.run() a pending operation ends, with what its
-- handler is given; in the try block an exception may be thrown.
pub data Outcome : Type 0 where
  ends : Whose → ErrorCode → Bool → Text → Outcome
  throws : Outcome

-- `if (ws_session) ws_session->Stop()`
abbrev pub stop_session : WebSocketSessionSslPtr → ErrorCode → WebSocketSessionSslPtr
stop_session none ec = none
stop_session (some s) ec = some (Session.stop s ec)

module _ {M : Type 0} where
  -- Assigning to a joinable std::thread terminates.
  unfoldable pub start : Live M → Option (Live M)
  start p =
      if p.running
      then some p
      else if has_thread p.worker
      then none
      else some (record p { running = true; worker = Worker.looping })

  -- One step of Stop; from `outside` it begins a call. `ec` is what a blocking close returns.
  unfoldable pub stop_step : Live M → ErrorCode → Live M
  stop_step p ec = elim p.caller [
    | outside ↦ if p.running then record p { running = false; caller = Caller.exchanged } else p
    | exchanged ↦ record p { ws_session = stop_session p.ws_session ec; caller = Caller.halting }
    | halting ↦ record p {
      ioc_stopped = true;
      caller = if has_thread p.worker then Caller.joining else Caller.outside;
    }
    | joining ↦ elim p.worker [
      | ended ↦ record p { worker = Worker.absent; caller = Caller.outside }
      | _ ↦ p
    ]
  ]

  -- HandleReconnection tests `running`, and then counts.
  unfoldable pub handle_reconnection : Live M → Live M
  handle_reconnection p = record p {
    worker = if p.running then Worker.counting else Worker.looping;
  }

  unfoldable pub count_reconnection : Live M → Live M
  count_reconnection p =
      let count = (p.reconnect_count + 1) % 2 ^ 32 in
      if ltb max_reconnect_attempts count
      then record p { reconnect_count = count; running = false; worker = Worker.looping }
      else record p { reconnect_count = count; worker = Worker.sleeping (delay_ms count) }

abbrev pub has_work : Pending → Bool
has_work Pending.idle = false
has_work p = true

abbrev pub any_work : List WebSocketSession → Bool
any_work [] = false
any_work (s ∷ ss) = has_work s.pending || any_work ss

-- make_shared lets go of the session before: its handlers keep it.
abbrev pub let_go : WebSocketSessionSslPtr → List WebSocketSession → List WebSocketSession
let_go none ss = ss
let_go (some s) ss = s ∷ ss

abbrev pub nth_session : ℕ → List WebSocketSession → WebSocketSessionSslPtr
nth_session n [] = none
nth_session zero (s ∷ ss) = some s
nth_session (suc n) (s ∷ ss) = nth_session n ss

abbrev pub put_session : ℕ → WebSocketSession → List WebSocketSession → List WebSocketSession
put_session n s' [] = []
put_session zero s' (s ∷ ss) = s' ∷ ss
put_session (suc n) s' (s ∷ ss) = s ∷ put_session n s' ss

module _ {M : Type 0} where
  abbrev pub session_of : Live M → Whose → WebSocketSessionSslPtr
  session_of p Whose.current = p.ws_session
  session_of p (Whose.earlier n) = nth_session n p.earlier

  abbrev pub put : Live M → Whose → WebSocketSession → Live M
  put p Whose.current s = record p { ws_session = some s }
  put p (Whose.earlier n) s = record p { earlier = put_session n s p.earlier }

-- Inside the try block.
abbrev pub in_try : Worker → Bool
in_try Worker.entered = true
in_try Worker.restarted = true
in_try Worker.made = true
in_try Worker.serving = true
in_try (Worker.handling h) = true
in_try w = false

module _ {M : Type 0} (x : ExchangeProvider M) where
  -- `ws_session->Run(GetHost(), GetPort(), GetPath())`
  abbrev pub run_session : WebSocketSessionSslPtr → WebSocketSessionSslPtr
  run_session none = none
  run_session (some s) =
      some (Session.run s x.endpoint.get_host x.endpoint.get_port x.endpoint.get_path)

  -- A handler of a session that is stopped returns at once. Another goes on, whatever becomes of
  -- `stopped`, to the end, with OnMessage for each call of the callback.
  unfoldable pub handle : Live M → WebSocketSession → Handler → Live M
  handle p s h =
      let s' = Session.step (record s { stopped = false }) (Event.completes h.ec h.sni h.bytes) in
      record (put p h.whose (record s' { stopped = s.stopped })) {
        worker = Worker.serving;
        feed = on_messages x p.feed (drop (length s.calls) s'.calls);
      }

  unfoldable pub finish : Live M → Handler → Live M
  unfolding handle
  finish p h = elim (session_of p h.whose) [
    | none ↦ record p { worker = Worker.serving }
    | some s ↦ handle p s h
  ]

  -- One round of ioc.run(): it returns where `ioc` is stopped or no session has an operation pending.
  -- Otherwise an operation that is pending ends.
  unfoldable pub serve : Live M → Handler → Live M
  serve p h =
      if p.ioc_stopped || not (any_work (let_go p.ws_session p.earlier))
      then record p { worker = Worker.dropped }
      else elim (session_of p h.whose) [
        | none ↦ p
        | some s ↦
            if not (has_work s.pending)
            then p
            else if s.stopped
            then put p h.whose (Session.step s (Event.completes h.ec h.sni h.bytes))
            else record p { worker = Worker.handling h }
      ]

  -- One step of Run, where nothing is thrown.
  unfoldable pub advance : Live M → Handler → Live M
  unfolding serve finish handle_reconnection count_reconnection
  advance p h = elim p.worker [
    | absent ↦ p
    | looping ↦ record p { worker = if p.running then Worker.entered else Worker.ended }
    | entered ↦ record p { ioc_stopped = false; worker = Worker.restarted }
    | restarted ↦ record p {
      ws_session = some (web_socket_session true);
      earlier = let_go p.ws_session p.earlier;
      worker = Worker.made;
    }
    | made ↦ record p { ws_session = run_session p.ws_session; worker = Worker.serving }
    | serving ↦ serve p h
    | handling h' ↦ finish p h'
    | dropped ↦ record p { worker = if p.running then Worker.reconnecting else Worker.looping }
    | reconnecting ↦ handle_reconnection p
    | counting ↦ count_reconnection p
    | sleeping d ↦ record p { worker = Worker.looping }
    | ended ↦ p
  ]

  unfoldable pub run_step : Live M → Outcome → Live M
  unfolding advance
  run_step p (Outcome.ends whose ec sni bytes) =
      advance p (record { whose = whose; ec = ec; sni = sni; bytes = bytes })
  run_step p Outcome.throws =
      if in_try p.worker then record p { worker = Worker.dropped } else advance p no_handler

  unfoldable pub run_steps : Live M → List Outcome → Live M
  run_steps p [] = p
  run_steps p (o ∷ os) = run_steps (run_step p o) os

  -- The callers' and the worker's steps. A caller that is in Stop makes no other call.
  pub data Step (p : Live M) : Live M → Type 0 where
    starts : {q : Live M} → p.caller ≡ Caller.outside → start p ≡ some q → Step p q
    stops : (ec : ErrorCode) → Step p (stop_step p ec)
    runs : (o : Outcome) → Step p (run_step p o)

  pub data Reach (f : TradeFeed M) : Live M → Type 0 where
    built : Reach f (live f)
    later : {p q : Live M} → Reach f p → Step p q → Reach f q
