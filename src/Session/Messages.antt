-- ===== src/Session/Messages.antt =====
-- ws.cpp: OnRead hands each message over as it was read.
use mathlib.Core.List.{append-nil, append_assoc}
use consolidated_book.Common.{
  ◌≡◌, refl, sym, ◌∙◌, ap, List, [], ◌∷◌, ◌++◌, Bool, true, false, Text, arith, length, drop,
}
use consolidated_book.Session.Stopping.{stop-steps, error-steps}
use consolidated_book.Session.{
  ErrorCode, Pending, WebSocketSession, Event, complete, guarded, on_read, deliver, step, steps,
}

-- A message of no bytes is not handed over.
abbrev pub non_empty : Text → List Text
non_empty [] = []
non_empty (c ∷ s) = (c ∷ s) ∷ []

-- The messages read up to the first error or call of Stop.
abbrev pub received : List Event → List Text
received [] = []
received (Event.completes ErrorCode.success sni bytes ∷ es) = non_empty bytes ++ received es
received (Event.completes ErrorCode.closed sni bytes ∷ es) = []
received (Event.completes ErrorCode.failure sni bytes ∷ es) = []
received (Event.stops ec ∷ es) = []

drop-length : (s : Text) → drop (length s) s ≡ []
drop-length [] = refl
drop-length (c ∷ s) = drop-length s

-- A session that reads, with nothing left over from an earlier read.
pub record IsReading (s : WebSocketSession) : Type 0 where
  pub reads : s.pending ≡ Pending.reading
  pub emptied : s.buffer ≡ []
  pub calls_back : s.has_callback ≡ true
  pub runs : s.stopped ≡ false

read-IsReading :
    (s : WebSocketSession) (sni : Bool) (bytes : Text)
    → IsReading s
    → let s' = step s (Event.completes ErrorCode.success sni bytes) in
      IsReading s' × (s'.calls ≡ s.calls ++ non_empty bytes)
unfolding step complete on_read deliver guarded
read-IsReading s sni [] v = ground (arith, append-nil s.buffer, append-nil s.calls)
read-IsReading s sni (c ∷ bytes) v = ground (arith, drop-length bytes)

-- From the end of the handshakes on, with a callback, the callback is called with exactly the messages
-- that are read before the first error or Stop, in that order, each of them whole, but for empty ones.
pub calls-received :
    (s : WebSocketSession) (es : List Event)
    → IsReading s
    → (steps s es).calls ≡ s.calls ++ received es
unfolding steps step
calls-received s [] v = sym (append-nil s.calls)
calls-received s (Event.completes ErrorCode.success sni bytes ∷ es) v =
    let (v', one) = read-IsReading s sni bytes v in
    calls-received (step s (Event.completes ErrorCode.success sni bytes)) es v'
    ∙ ap (λ cs. cs ++ received es) one
    ∙ append_assoc s.calls (non_empty bytes) (received es)
calls-received s (Event.completes ErrorCode.closed sni bytes ∷ es) v =
    (error-steps s ErrorCode.closed sni bytes es (λ e. cc)).1 ∙ sym (append-nil s.calls)
calls-received s (Event.completes ErrorCode.failure sni bytes ∷ es) v =
    (error-steps s ErrorCode.failure sni bytes es (λ e. cc)).1 ∙ sym (append-nil s.calls)
calls-received s (Event.stops ec ∷ es) v = (stop-steps s ec es).0 ∙ sym (append-nil s.calls)
