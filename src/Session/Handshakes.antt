-- ===== src/Session/Handshakes.antt =====
-- ws.cpp: nothing is delivered before the handshakes.
use consolidated_book.Common.{
  ℕ, ◌+◌, ◌-◌, ◌≤◌, ◌≡◌, refl, ap, List, [], ◌∷◌, ◌++◌, none, some, Bool, Text, arith, length,
  length-append,
}
use consolidated_book.Session.Stopping.{stop-kept, ended}
use consolidated_book.Session.{
  ErrorCode, Pending, WebSocketSession, Event, web_socket_session, run, complete, guarded,
  on_resolve, on_connect, on_ssl_handshake, on_handshake, on_read, deliver, fail, stop, step, steps,
  ws_timer_rate,
}

abbrev one_if : ErrorCode → ℕ
one_if ErrorCode.success = 1
one_if ErrorCode.closed = 0
one_if ErrorCode.failure = 0

-- The operations that end well.
abbrev pub successes : List Event → ℕ
successes [] = 0
successes (Event.completes ec sni bytes ∷ es) = one_if ec + successes es
successes (Event.stops ec ∷ es) = successes es

-- How many calls of the callback `n` successes can still lead to.
abbrev pub allowance : Pending → ℕ → ℕ
allowance Pending.idle n = 0
allowance (Pending.resolving host port) n = n - 4
allowance Pending.connecting n = n - 3
allowance Pending.ssl_handshaking n = n - 2
allowance (Pending.handshaking host target) n = n - 1
allowance Pending.reading n = n

complete-allowance :
    (p : Pending) (s : WebSocketSession) (ec : ErrorCode) (sni : Bool) (bytes : Text) (n : ℕ)
    → s.pending ≡ Pending.idle
    → length (complete p s ec sni bytes).calls + allowance (complete p s ec sni bytes).pending n
      ≤ length s.calls + allowance p (one_if ec + n)
unfolding complete on_resolve on_connect on_ssl_handshake on_handshake on_read deliver guarded fail
complete-allowance Pending.idle s ec sni bytes n h = ground arith
complete-allowance (Pending.resolving host port) s ErrorCode.success sni bytes n h = ground arith
complete-allowance Pending.connecting s ErrorCode.success sni bytes n h = ground arith
complete-allowance Pending.ssl_handshaking s ErrorCode.success sni bytes n h = ground arith
complete-allowance (Pending.handshaking host target) s ErrorCode.success sni bytes n h =
    ground arith
complete-allowance Pending.reading s ErrorCode.success sni bytes n h =
    ground (arith, length-append {0} s.calls ((s.buffer ++ bytes) ∷ []))
complete-allowance p s ErrorCode.closed sni bytes n h = ground arith
complete-allowance p s ErrorCode.failure sni bytes n h = ground arith

calls-allowance :
    (s : WebSocketSession) (es : List Event)
    → length (steps s es).calls ≤ length s.calls + allowance s.pending (successes es)
unfolding steps step
calls-allowance s [] = omega arith
calls-allowance s (Event.completes ec sni bytes ∷ es) = omega (
  arith,
  calls-allowance (complete s.pending (ended s) ec sni bytes) es,
  complete-allowance s.pending (ended s) ec sni bytes (successes es) refl,
)
calls-allowance s (Event.stops ec ∷ es) =
    let kept = stop-kept s ec in
    omega (
      arith,
      calls-allowance (stop s ec) es,
      ap (length {A = Text}) kept.1,
      ap (λ p. allowance p (successes es)) kept.2,
    )

-- A new session that has been run calls the callback only once resolving, connecting, the TLS handshake
-- and the WebSocket handshake have succeeded: n successful operations allow at most n - 4 calls.
pub steps-successes :
    (has_callback : Bool) (host port target : Text) (es : List Event)
    → length (steps (run (web_socket_session has_callback) host port target) es).calls
      ≤ successes es - 4
unfolding run web_socket_session
steps-successes has_callback host port target es =
    omega (arith, calls-allowance (run (web_socket_session has_callback) host port target) es)

-- The deadline and the peer that go with the pending operation.
abbrev pub IsTimed : Pending → WebSocketSession → Type 0
IsTimed Pending.idle s = Unit
IsTimed (Pending.resolving host port) s = (s.timer ≡ none) × (host ≡ s.host)
IsTimed Pending.connecting s = s.timer ≡ some ws_timer_rate
IsTimed Pending.ssl_handshaking s = s.timer ≡ some ws_timer_rate
IsTimed (Pending.handshaking host target) s =
    (s.timer ≡ none) × (host ≡ s.host) × (target ≡ s.target)
IsTimed Pending.reading s = s.timer ≡ none

complete-IsTimed :
    (p : Pending) (s : WebSocketSession) (ec : ErrorCode) (sni : Bool) (bytes : Text)
    → s.pending ≡ Pending.idle
    → IsTimed p s
    → IsTimed (complete p s ec sni bytes).pending (complete p s ec sni bytes)
unfolding complete on_resolve on_connect on_ssl_handshake on_handshake on_read deliver guarded fail
complete-IsTimed Pending.idle s ec sni bytes i h = ground arith
complete-IsTimed (Pending.resolving host port) s ErrorCode.success sni bytes i h = ground arith
complete-IsTimed Pending.connecting s ErrorCode.success sni bytes i h = ground arith
complete-IsTimed Pending.ssl_handshaking s ErrorCode.success sni bytes i h = ground arith
complete-IsTimed (Pending.handshaking host target) s ErrorCode.success sni bytes i h = ground arith
complete-IsTimed Pending.reading s ErrorCode.success sni bytes i h = ground arith
complete-IsTimed p s ErrorCode.closed sni bytes i h = ground arith
complete-IsTimed p s ErrorCode.failure sni bytes i h = ground arith

stop-IsTimed :
    (s : WebSocketSession) (ec : ErrorCode)
    → IsTimed s.pending s
    → IsTimed (stop s ec).pending (stop s ec)
unfolding stop fail
stop-IsTimed s ErrorCode.success h = ground arith
stop-IsTimed s ErrorCode.closed h = ground arith
stop-IsTimed s ErrorCode.failure h = ground arith

ended-IsTimed : (p : Pending) (s : WebSocketSession) → IsTimed p s → IsTimed p (ended s)
ended-IsTimed Pending.idle s h = h
ended-IsTimed (Pending.resolving host port) s h = h
ended-IsTimed Pending.connecting s h = h
ended-IsTimed Pending.ssl_handshaking s h = h
ended-IsTimed (Pending.handshaking host target) s h = h
ended-IsTimed Pending.reading s h = h

steps-IsTimed :
    (s : WebSocketSession) (es : List Event)
    → IsTimed s.pending s
    → IsTimed (steps s es).pending (steps s es)
unfolding steps step
steps-IsTimed s [] h = h
steps-IsTimed s (Event.completes ec sni bytes ∷ es) h =
    steps-IsTimed (complete s.pending (ended s) ec sni bytes) es
      (complete-IsTimed s.pending (ended s) ec sni bytes refl (ended-IsTimed s.pending s h))
steps-IsTimed s (Event.stops ec ∷ es) h = steps-IsTimed (stop s ec) es (stop-IsTimed s ec h)

-- Whatever happens to a new session that has been run: connecting and the TLS handshake have a deadline
-- of 30 seconds, the other operations have none of the session's own, and the WebSocket handshake is
-- with the host and the target given.
pub run-IsTimed :
    (has_callback : Bool) (host port target : Text) (es : List Event)
    → let s = steps (run (web_socket_session has_callback) host port target) es in
      IsTimed s.pending s
unfolding run web_socket_session
run-IsTimed has_callback host port target es =
    steps-IsTimed (run (web_socket_session has_callback) host port target) es (refl, refl)
