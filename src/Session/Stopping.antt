-- ===== src/Session/Stopping.antt =====
-- ws.cpp: what a session does after Stop, and after an error.
use consolidated_book.Common.{
  ◌≡◌, ◌≢◌, refl, ap, sym, subst, ◌∙◌, List, [], ◌∷◌, Bool, true, false, if◌then◌else◌, Text, arith,
}
use consolidated_book.Session.{
  ErrorCode, Pending, WebSocketSession, Event, complete, guarded, on_resolve, on_connect,
  on_ssl_handshake, on_handshake, on_read, fail, stop, step, steps,
}

-- Nothing is pending in `s'`, and the callback has been called with nothing since `s`.
abbrev pub IsOver : WebSocketSession → WebSocketSession → Type 0
IsOver s s' = (s'.pending ≡ Pending.idle) × (s'.calls ≡ s.calls)

pub stop-kept :
    (s : WebSocketSession) (ec : ErrorCode)
    → ((stop s ec).stopped ≡ true)
      × ((stop s ec).calls ≡ s.calls)
      × ((stop s ec).pending ≡ s.pending)
unfolding stop fail
stop-kept s ErrorCode.success = (refl, refl, refl)
stop-kept s ErrorCode.closed = (refl, refl, refl)
stop-kept s ErrorCode.failure = (refl, refl, refl)

guarded_stopped :
    (ec : ErrorCode) (what : Text) (s rest : WebSocketSession)
    → s.stopped ≡ true
    → ((guarded ec what s rest).pending ≡ s.pending)
      × ((guarded ec what s rest).calls ≡ s.calls)
      × ((guarded ec what s rest).stopped ≡ true)
unfolding guarded fail
guarded_stopped ErrorCode.success what s rest h = ground arith
guarded_stopped ErrorCode.closed what s rest h = ground arith
guarded_stopped ErrorCode.failure what s rest h = ground arith

-- A handler of a stopped session starts nothing.
complete_stopped :
    (p : Pending) (s : WebSocketSession) (ec : ErrorCode) (sni : Bool) (bytes : Text)
    → s.stopped ≡ true
    → ((complete p s ec sni bytes).pending ≡ s.pending)
      × ((complete p s ec sni bytes).calls ≡ s.calls)
      × ((complete p s ec sni bytes).stopped ≡ true)
unfolding complete on_resolve on_connect on_ssl_handshake on_handshake on_read guarded fail
complete_stopped Pending.idle s ec sni bytes h = (refl, refl, h)
complete_stopped (Pending.resolving host port) s ec sni bytes h = guarded_stopped ec _ s _ h
complete_stopped Pending.connecting s ec sni bytes h = guarded_stopped ec _ s _ h
complete_stopped Pending.ssl_handshaking s ec sni bytes h = guarded_stopped ec _ s _ h
complete_stopped (Pending.handshaking host target) s ec sni bytes h = guarded_stopped ec _ s _ h
complete_stopped Pending.reading s ErrorCode.closed sni bytes h = (refl, refl, h)
complete_stopped Pending.reading s ErrorCode.success sni bytes h = ground arith
complete_stopped Pending.reading s ErrorCode.failure sni bytes h = (refl, refl, h)

complete_idle :
    (p : Pending) (s : WebSocketSession) (ec : ErrorCode) (sni : Bool) (bytes : Text)
    → p ≡ Pending.idle
    → complete p s ec sni bytes ≡ s
unfolding complete
complete_idle p s ec sni bytes h = rw h refl

-- `s` with the ended operation taken away.
abbrev pub ended : WebSocketSession → WebSocketSession
ended s = record s { pending = Pending.idle }

-- The events up to the end of the operation that is pending, if it ends.
abbrev pub has_completion : List Event → Bool
has_completion [] = false
has_completion (Event.completes ec sni bytes ∷ es) = true
has_completion (Event.stops ec ∷ es) = has_completion es

pub idle-IsOver :
    (s : WebSocketSession) (es : List Event) → s.pending ≡ Pending.idle → IsOver s (steps s es)
unfolding steps step
idle-IsOver s [] h = (h, refl)
idle-IsOver s (Event.completes ec sni bytes ∷ es) h =
    subst (λ q. IsOver s (steps q es)) (sym (complete_idle s.pending (ended s) ec sni bytes h))
      (idle-IsOver (ended s) es refl)
idle-IsOver s (Event.stops ec ∷ es) h =
    let kept = stop-kept s ec in
    let (i, c) = idle-IsOver (stop s ec) es (kept.2 ∙ h) in (i, c ∙ kept.1)

pub stopped_over :
    (s : WebSocketSession) (es : List Event)
    → s.stopped ≡ true
    → ((steps s es).calls ≡ s.calls)
      × ((steps s es).pending ≡ (if has_completion es then Pending.idle else s.pending))
unfolding steps step
stopped_over s [] h = (refl, refl)
stopped_over s (Event.completes ec sni bytes ∷ es) h =
    let (p, c, stays) = complete_stopped s.pending (ended s) ec sni bytes h in
    let later = idle-IsOver (complete s.pending (ended s) ec sni bytes) es p in
    (later.1 ∙ c, later.0)
stopped_over s (Event.stops ec ∷ es) h =
    let kept = stop-kept s ec in
    let (c, p) = stopped_over (stop s ec) es kept.0 in
    (c ∙ kept.1, p ∙ ap (λ q. if has_completion es then Pending.idle else q) kept.2)

-- After a call of Stop that no handler is under way at, whatever the network does, the callback is called
-- no more and no operation is started: the pending one stays until it ends, and then nothing is pending.
pub stop-steps :
    (s : WebSocketSession) (ec : ErrorCode) (es : List Event)
    → ((steps (stop s ec) es).calls ≡ s.calls)
      × ((steps (stop s ec) es).pending ≡ (if has_completion es then Pending.idle else s.pending))
stop-steps s ec es =
    let kept = stop-kept s ec in
    let (c, p) = stopped_over (stop s ec) es kept.0 in
    (c ∙ kept.1, p ∙ ap (λ q. if has_completion es then Pending.idle else q) kept.2)

complete_error :
    (p : Pending) (s : WebSocketSession) (ec : ErrorCode) (sni : Bool) (bytes : Text)
    → ec ≢ ErrorCode.success
    → s.pending ≡ Pending.idle
    → IsOver s (complete p s ec sni bytes)
unfolding complete on_resolve on_connect on_ssl_handshake on_handshake on_read fail guarded
complete_error p s ErrorCode.success sni bytes h i = absurd (h refl)
complete_error p s ErrorCode.closed sni bytes h i = ground arith
complete_error p s ErrorCode.failure sni bytes h i = ground arith

-- An operation that ends with an error ends the session: nothing is pending, and whatever comes, the
-- callback is called no more. Nothing is retried.
pub error-steps :
    (s : WebSocketSession) (ec : ErrorCode) (sni : Bool) (bytes : Text) (es : List Event)
    → ec ≢ ErrorCode.success
    → IsOver s (steps s (Event.completes ec sni bytes ∷ es))
unfolding steps step
error-steps s ec sni bytes es h =
    let (i, c) = complete_error s.pending (ended s) ec sni bytes h refl in
    let later = idle-IsOver (complete s.pending (ended s) ec sni bytes) es i in
    (later.0, later.1 ∙ c)
