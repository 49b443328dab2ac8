-- ===== src/Feed/Live/Messages.antt =====
-- base_provider.cpp: a connection of Run in a whole provider, where each message is handled as it is
-- read.
use mathlib.Core.List.{append-nil}
use consolidated_book.Common.{
  ◌≡◌, refl, sym, subst, ap, ◌∙◌, List, [], ◌∷◌, ◌++◌, Bool, true, false, some, Text, length, drop,
  arith, ◌⊎◌, ltb, not, ◌&&◌, ◌||◌, if◌then◌else◌, inl, inr,
}
use consolidated_book.Session.{
  ErrorCode, Pending, WebSocketSession, Event, complete, guarded, fail, on_resolve, on_connect,
  on_ssl_handshake, on_handshake, on_read, deliver, step, steps, web_socket_session,
}
use consolidated_book.Session
use consolidated_book.Session.Stopping.{idle-IsOver}
use consolidated_book.Feed.Trades.{TradeFeed}
use consolidated_book.Feed.Providers.{ExchangeProvider, on_messages}
use consolidated_book.Feed.Connection.{session, connect}
use consolidated_book.Feed.Live.{
  Worker, Whose, Handler, Live, has_work, any_work, let_go, Outcome, handle, finish, serve, advance,
  run_step, run_steps,
}

-- How an operation of the session ends.
abbrev pub Reply : Type 0
Reply = ErrorCode × Bool × Text

abbrev pub events : List Reply → List Event
events [] = []
events ((ec, sni, bytes) ∷ rs) = Event.completes ec sni bytes ∷ events rs

-- A step in which the worker waits for nothing.
abbrev pub goes_on : Outcome
goes_on = Outcome.ends Whose.current ErrorCode.success true []

-- Each handler takes two steps: its test of `stopped`, and the rest.
abbrev pub outcomes : List Reply → List Outcome
outcomes [] = []
outcomes ((ec, sni, bytes) ∷ rs) = Outcome.ends Whose.current ec sni bytes ∷ goes_on ∷ outcomes rs

guarded-calls :
    (ec : ErrorCode) (what : Text) (s rest : WebSocketSession)
    → rest.calls ≡ s.calls
    → (guarded ec what s rest).calls ≡ s.calls
unfolding guarded fail
guarded-calls ErrorCode.success what s rest h = ground arith
guarded-calls ErrorCode.closed what s rest h = refl
guarded-calls ErrorCode.failure what s rest h = refl

-- The calls of the callback that a handler makes come behind those before it.
complete-calls :
    (o : Pending) (s : WebSocketSession) (ec : ErrorCode) (sni : Bool) (bytes : Text)
    → (new : List Text) × ((complete o s ec sni bytes).calls ≡ s.calls ++ new)
unfolding complete on_resolve on_connect on_ssl_handshake on_handshake on_read fail guarded deliver
complete-calls Pending.reading s ErrorCode.success sni bytes = (
  if s.stopped || not (ltb 0 (length bytes) && s.has_callback)
      then []
      else (s.buffer ++ bytes) ∷ [],
  ground (arith, append-nil s.calls),
)
complete-calls o s ec sni bytes = ([], ground (arith, append-nil s.calls))

guarded-stopped :
    (ec : ErrorCode) (what : Text) (s rest : WebSocketSession)
    → rest.stopped ≡ s.stopped
    → (guarded ec what s rest).stopped ≡ s.stopped
unfolding guarded fail
guarded-stopped ErrorCode.success what s rest h = ground arith
guarded-stopped ErrorCode.closed what s rest h = refl
guarded-stopped ErrorCode.failure what s rest h = refl

-- Only Stop sets `stopped`.
complete-stopped :
    (o : Pending) (s : WebSocketSession) (ec : ErrorCode) (sni : Bool) (bytes : Text)
    → (complete o s ec sni bytes).stopped ≡ s.stopped
unfolding complete on_resolve on_connect on_ssl_handshake on_handshake on_read fail guarded deliver
complete-stopped o s ErrorCode.success sni bytes = ground arith
complete-stopped o s ErrorCode.closed sni bytes = ground arith
complete-stopped o s ErrorCode.failure sni bytes = ground arith

step-stopped :
    (s : WebSocketSession) (ec : ErrorCode) (sni : Bool) (bytes : Text)
    → (step s (Event.completes ec sni bytes)).stopped ≡ s.stopped
unfolding step
step-stopped s ec sni bytes =
    complete-stopped s.pending (record s { pending = Pending.idle }) ec sni bytes

with_stopped : (s : WebSocketSession) (b : Bool) → s.stopped ≡ b → record s { stopped = b } ≡ s
with_stopped s b h = cc

drop-append : {A : Type 0} (xs ys : List A) → drop (length xs) (xs ++ ys) ≡ ys
drop-append [] ys = refl
drop-append (x ∷ xs) ys = drop-append xs ys

-- Nothing is lost between two looks at the calls.
step-calls :
    (s : WebSocketSession) (ec : ErrorCode) (sni : Bool) (bytes : Text)
    → s.calls ++ drop (length s.calls) (step s (Event.completes ec sni bytes)).calls
      ≡ (step s (Event.completes ec sni bytes)).calls
unfolding step
step-calls s ec sni bytes =
    let (new, grown) =
      complete-calls s.pending (record s { pending = Pending.idle }) ec sni bytes in
    rw grown (ap (λ cs. s.calls ++ cs) (drop-append s.calls new))

Pending-cases : (o : Pending) → (o ≡ Pending.idle) ⊎ (has_work o ≡ true)
Pending-cases Pending.idle = inl refl
Pending-cases o = inr refl

module _ {M : Type 0} (x : ExchangeProvider M) where
  on_messages-append :
      (f : TradeFeed M) (xs ys : List Text)
      → on_messages x f (xs ++ ys) ≡ on_messages x (on_messages x f xs) ys
  unfolding on_messages
  on_messages-append f [] ys = refl
  on_messages-append f (m ∷ xs) ys = on_messages-append (x.on_message f m) xs ys

  -- A worker in ioc.run() with the session `s`, which has made all its calls on the feed `f`. No other
  -- session has an operation pending.
  pub record IsServing (f : TradeFeed M) (s : WebSocketSession) (p : Live M) : Type 0 where
    pub at : p.worker ≡ Worker.serving
    pub opened : p.ws_session ≡ some s
    pub unstopped : p.ioc_stopped ≡ false
    pub runs : s.stopped ≡ false
    pub alone : any_work p.earlier ≡ false
    pub handled : p.feed ≡ on_messages x f s.calls

  -- What a handler leaves.
  abbrev after : Live M → WebSocketSession → Event → Live M
  after p s e = record p {
    ws_session = some (step s e);
    worker = Worker.serving;
    feed = on_messages x p.feed (drop (length s.calls) (step s e).calls);
  }

  abbrev reply : ErrorCode → Bool → Text → Handler
  reply ec sni bytes = record { whose = Whose.current; ec = ec; sni = sni; bytes = bytes }

  first-step :
      {f : TradeFeed M} {s : WebSocketSession} {p : Live M} (ec : ErrorCode) (sni : Bool)
      (bytes : Text)
      → IsServing f s p
      → has_work s.pending ≡ true
      → run_step x p (Outcome.ends Whose.current ec sni bytes)
        ≡ record p { worker = Worker.handling (reply ec sni bytes) }
  unfolding run_step advance serve
  first-step ec sni bytes v works = ground arith

  second-step :
      {f : TradeFeed M} {s : WebSocketSession} {p : Live M} (ec : ErrorCode) (sni : Bool)
      (bytes : Text)
      → IsServing f s p
      → run_step x (record p { worker = Worker.handling (reply ec sni bytes) }) goes_on
        ≡ handle x
            (record p { worker = Worker.handling (reply ec sni bytes) })
            s
            (reply ec sni bytes)
  unfolding run_step advance finish
  second-step ec sni bytes v = ground arith

  handle-after :
      (p : Live M) (s : WebSocketSession) (ec : ErrorCode) (sni : Bool) (bytes : Text)
      → s.stopped ≡ false
      → handle x (record p { worker = Worker.handling (reply ec sni bytes) }) s (reply ec sni bytes)
        ≡ after p s (Event.completes ec sni bytes)
  unfolding handle
  handle-after p s ec sni bytes runs =
      let e = Event.completes ec sni bytes in
      ap
        (λ r. record p {
          ws_session = some (record (step r e) { stopped = s.stopped });
          worker = Worker.serving;
          feed = on_messages x p.feed (drop (length s.calls) (step r e).calls);
        })
        (with_stopped s false runs)
      ∙ ap
          (λ r. record p {
            ws_session = some r;
            worker = Worker.serving;
            feed = on_messages x p.feed (drop (length s.calls) (step s e).calls);
          })
          (with_stopped (step s e) s.stopped (step-stopped s ec sni bytes))

  after-eq :
      {f : TradeFeed M} {s : WebSocketSession} {p : Live M} (ec : ErrorCode) (sni : Bool)
      (bytes : Text)
      → IsServing f s p
      → has_work s.pending ≡ true
      → run_steps x p (outcomes ((ec, sni, bytes) ∷ [])) ≡ after p s (Event.completes ec sni bytes)
  unfolding run_steps
  after-eq {f} {s} {p} ec sni bytes v works =
      ap (λ q. run_step x q goes_on) (first-step ec sni bytes v works)
      ∙ second-step ec sni bytes v
      ∙ handle-after p s ec sni bytes v.runs

  after-IsServing :
      {f : TradeFeed M} {s : WebSocketSession} {p : Live M} (ec : ErrorCode) (sni : Bool)
      (bytes : Text)
      → IsServing f s p
      → IsServing f
          (step s (Event.completes ec sni bytes))
          (after p s (Event.completes ec sni bytes))
  after-IsServing {f} {s} {p} ec sni bytes v = record {
    at = refl;
    opened = refl;
    unstopped = v.unstopped;
    runs = step-stopped s ec sni bytes ∙ v.runs;
    alone = v.alone;
    handled =
        ap
          (λ g.
            on_messages x g (drop (length s.calls) (step s (Event.completes ec sni bytes)).calls))
          v.handled
        ∙ sym (
            on_messages-append f s.calls
              (drop (length s.calls) (step s (Event.completes ec sni bytes)).calls))
        ∙ ap (on_messages x f) (step-calls s ec sni bytes);
  }

  serve-IsServing :
      {f : TradeFeed M} {s : WebSocketSession} {p : Live M} (ec : ErrorCode) (sni : Bool)
      (bytes : Text)
      → IsServing f s p
      → has_work s.pending ≡ true
      → IsServing f
          (step s (Event.completes ec sni bytes))
          (run_steps x p (outcomes ((ec, sni, bytes) ∷ [])))
  serve-IsServing {f} {s} ec sni bytes v works =
      subst (λ q. IsServing f (step s (Event.completes ec sni bytes)) q)
        (sym (after-eq ec sni bytes v works)) (after-IsServing ec sni bytes v)

  steps-has_work :
      (s : WebSocketSession) (es : List Event)
      → has_work (steps s es).pending ≡ true
      → has_work s.pending ≡ true
  steps-has_work s es h = elim (Pending-cases s.pending) [
    | inl idle ↦ let (over, same) = idle-IsOver s es idle in ground (arith, over)
    | inr works ↦ works
  ]

  serves :
      {f : TradeFeed M} (s : WebSocketSession) (p : Live M) (rs : List Reply)
      → IsServing f s p
      → has_work (steps s (events rs)).pending ≡ true
      → IsServing f (steps s (events rs)) (run_steps x p (outcomes rs))
  unfolding steps run_steps
  serves s p [] v h = v
  serves s p ((ec, sni, bytes) ∷ rs) v h =
      let e = Event.completes ec sni bytes in
      serves (step s e) (run_steps x p (outcomes ((ec, sni, bytes) ∷ []))) rs
        (serve-IsServing ec sni bytes v (steps-has_work s (e ∷ events rs) h)) h

  steps-append :
      (s : WebSocketSession) (rs : List Reply) (ec : ErrorCode) (sni : Bool) (bytes : Text)
      → steps s (events (rs ++ (ec, sni, bytes) ∷ []))
        ≡ step (steps s (events rs)) (Event.completes ec sni bytes)
  unfolding steps
  steps-append s [] ec sni bytes = refl
  steps-append s ((ec', sni', bytes') ∷ rs) ec sni bytes =
      steps-append (step s (Event.completes ec' sni' bytes')) rs ec sni bytes

  run_steps-append :
      (p : Live M) (rs : List Reply) (ec : ErrorCode) (sni : Bool) (bytes : Text)
      → run_steps x p (outcomes (rs ++ (ec, sni, bytes) ∷ []))
        ≡ run_steps x (run_steps x p (outcomes rs)) (outcomes ((ec, sni, bytes) ∷ []))
  unfolding run_steps
  run_steps-append p [] ec sni bytes = refl
  run_steps-append p ((ec', sni', bytes') ∷ rs) ec sni bytes =
      run_steps-append (run_steps x p (outcomes ((ec', sni', bytes') ∷ []))) rs ec sni bytes

  -- The worker restarts `ioc`, makes a session and runs it: it waits for nothing.
  abbrev pub opens : Live M → Live M
  opens p = run_steps x p (goes_on ∷ goes_on ∷ goes_on ∷ [])

  -- `ioc` holds no handler.
  abbrev pub IsFree : Live M → Type 0
  IsFree p = any_work (let_go p.ws_session p.earlier) ≡ false

  opens-IsServing :
      (p : Live M)
      → p.worker ≡ Worker.entered
      → IsFree p
      → IsServing p.feed (session x []) (opens p)
  unfolding run_steps run_step advance session on_messages steps web_socket_session Session.run
  opens-IsServing p at free = record {
    at = ground arith;
    opened = ground arith;
    unstopped = ground arith;
    runs = ground arith;
    alone = ground arith;
    handled = ground arith;
  }

  -- A worker that goes on from `while (running)` while `ioc` holds no handler of an earlier session opens a
  -- connection. For as long as the connection has an operation to wait for, and for the handler of the
  -- last one, with no step of Stop in between, its session is that of Feed.Connection, and the feed is what `connect` gives: handling each
  -- message when it is read is the same as handling all of them in the order in which they were read.
  pub run_steps-connect :
      (p : Live M) (rs : List Reply) (ec : ErrorCode) (sni : Bool) (bytes : Text)
      → p.worker ≡ Worker.entered
      → IsFree p
      → has_work (session x (events rs)).pending ≡ true
      → let q = run_steps x (opens p) (outcomes (rs ++ (ec, sni, bytes) ∷ [])) in
        let es = events (rs ++ (ec, sni, bytes) ∷ []) in
        (q.worker ≡ Worker.serving)
        × (q.ws_session ≡ some (session x es))
        × (q.feed ≡ connect x p.feed es)
  unfolding session connect steps Session.run
  run_steps-connect p rs ec sni bytes at free works =
      let before = serves (session x []) (opens p) rs (opens-IsServing p at free) works in
      let v = serve-IsServing ec sni bytes before works in
      let same = run_steps-append (opens p) rs ec sni bytes in
      rw (same, steps-append) (v.at, v.opened, v.handled)
