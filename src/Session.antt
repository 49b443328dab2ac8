-- ===== src/Session.antt =====
-- md_provider/ws/ws.h and ws.cpp: WebSocketSessionSSL, one handler at a time. The network and Boost.Beast
-- decide how each asynchronous operation ends; at most one is pending. A call of Stop comes before or
-- behind a handler, here; Feed.Live has it in between as well. The lines written to cout are
-- left out.
pub mod Stopping
pub mod Handshakes
pub mod Messages
pub mod Tests
use consolidated_book.Common.{
  ℕ, zero, suc, List, [], ◌∷◌, ◌++◌, Option, none, some, Bool, true, false, not, ◌&&◌, ltb,
  if◌then◌else◌, Text, codes, length, drop,
}

-- WS_TIMER_RATE
abbrev pub ws_timer_rate : ℕ
ws_timer_rate = 30

-- beast::error_code, as far as the handlers look at it.
pub data ErrorCode : Type 0 where
  success closed failure : ErrorCode

-- The asynchronous operation that has been started and has not ended.
pub data Pending : Type 0 where
  idle : Pending
  resolving : Text → Text → Pending  -- of a host and a port
  connecting : Pending
  ssl_handshaking : Pending
  handshaking : Text → Text → Pending  -- with a host and a target
  reading : Pending

pub record WebSocketSession : Type 0 where
  pub pending : Pending
  pub buffer : Text
  pub host : Text
  pub target : Text
  pub has_callback : Bool  -- onMessageCallback is set
  pub stopped : Bool
  pub timer : Option ℕ  -- expires_after, in seconds; `none` is expires_never
  pub calls : List Text  -- the messages that onMessageCallback was called with
  pub failures : List Text  -- the operations that `fail` has reported

unfoldable pub web_socket_session : Bool → WebSocketSession
web_socket_session has_callback = record {
  pending = Pending.idle;
  buffer = [];
  host = [];
  target = [];
  has_callback = has_callback;
  stopped = false;
  timer = none;
  calls = [];
  failures = [];
}

unfoldable pub fail : WebSocketSession → Text → WebSocketSession
fail s what = record s { failures = s.failures ++ what ∷ [] }

unfoldable pub run : WebSocketSession → Text → Text → Text → WebSocketSession
run s host port target =
    if s.stopped
    then s
    else record s { host = host; target = target; pending = Pending.resolving host port }

-- What a handler does with an error code, and then with `stopped`: the rest runs only past both.
unfoldable pub guarded : ErrorCode → Text → WebSocketSession → WebSocketSession → WebSocketSession
unfolding fail
guarded ErrorCode.success what s rest = if s.stopped then s else rest
guarded ErrorCode.closed what s rest = fail s what
guarded ErrorCode.failure what s rest = fail s what

unfoldable pub on_resolve : WebSocketSession → ErrorCode → WebSocketSession
unfolding guarded
on_resolve s ec =
    guarded ec (codes "resolve") s
      (record s { timer = some ws_timer_rate; pending = Pending.connecting })

-- `sni` is whether SSL_set_tlsext_host_name succeeds.
unfoldable pub on_connect : WebSocketSession → ErrorCode → Bool → WebSocketSession
unfolding guarded fail
on_connect s ec sni =
    let timed : WebSocketSession = record s { timer = some ws_timer_rate } in
    guarded ec (codes "connect") s (
      if sni
      then record timed { pending = Pending.ssl_handshaking }
      else fail timed (codes "SSL SNI"))

unfoldable pub on_ssl_handshake : WebSocketSession → ErrorCode → WebSocketSession
unfolding guarded
on_ssl_handshake s ec =
    guarded ec (codes "ssl_handshake") s
      (record s { timer = none; pending = Pending.handshaking s.host s.target })

unfoldable pub on_handshake : WebSocketSession → ErrorCode → WebSocketSession
unfolding guarded
on_handshake s ec = guarded ec (codes "handshake") s (record s { pending = Pending.reading })

-- The message is the whole buffer, of which the bytes of the last read are then consumed.
unfoldable pub deliver : WebSocketSession → ℕ → WebSocketSession
deliver s bytes_transferred =
    if ltb 0 bytes_transferred && s.has_callback
    then record s { calls = s.calls ++ s.buffer ∷ []; buffer = drop bytes_transferred s.buffer }
    else s

unfoldable pub on_read : WebSocketSession → ErrorCode → ℕ → WebSocketSession
unfolding guarded deliver
on_read s ErrorCode.closed bytes_transferred = s
on_read s ErrorCode.success bytes_transferred =
    guarded ErrorCode.success (codes "read") s
      (record (deliver s bytes_transferred) { pending = Pending.reading })
on_read s ErrorCode.failure bytes_transferred = guarded ErrorCode.failure (codes "read") s s

-- `ec` is what the blocking close returns.
unfoldable pub stop : WebSocketSession → ErrorCode → WebSocketSession
unfolding fail
stop s ErrorCode.success = record s { stopped = true }
stop s ec = fail (record s { stopped = true }) (codes "close")

unfoldable pub on_close : WebSocketSession → ErrorCode → WebSocketSession
unfolding fail
on_close s ErrorCode.success = s
on_close s ec = fail s (codes "close")

-- The pending operation ends, with what its handler is given, or another thread calls Stop.
pub data Event : Type 0 where
  completes : ErrorCode → Bool → Text → Event
  stops : ErrorCode → Event

-- A read puts its bytes behind those in the buffer. The handler of an operation runs when it has ended.
unfoldable pub complete : Pending → WebSocketSession → ErrorCode → Bool → Text → WebSocketSession
unfolding on_resolve on_connect on_ssl_handshake on_handshake on_read
complete Pending.idle s ec sni bytes = s
complete (Pending.resolving host port) s ec sni bytes = on_resolve s ec
complete Pending.connecting s ec sni bytes = on_connect s ec sni
complete Pending.ssl_handshaking s ec sni bytes = on_ssl_handshake s ec
complete (Pending.handshaking host target) s ec sni bytes = on_handshake s ec
complete Pending.reading s ec sni bytes =
    on_read (record s { buffer = s.buffer ++ bytes }) ec (length bytes)

unfoldable pub step : WebSocketSession → Event → WebSocketSession
unfolding complete stop
step s (Event.completes ec sni bytes) =
    complete s.pending (record s { pending = Pending.idle }) ec sni bytes
step s (Event.stops ec) = stop s ec

unfoldable pub steps : WebSocketSession → List Event → WebSocketSession
steps s [] = s
steps s (e ∷ es) = steps (step s e) es
