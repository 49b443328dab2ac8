-- ===== src/Session/Tests.antt =====
-- ws.cpp: a session that connects, reads two messages, and is stopped or loses its connection.
use consolidated_book.Common.{◌≡◌, refl, List, [], ◌∷◌, ◌++◌, true, Text, codes}
use consolidated_book.Session.{
  ErrorCode, WebSocketSession, Event, web_socket_session, run, complete, guarded, on_resolve,
  on_connect, on_ssl_handshake, on_handshake, step, steps,
}
use consolidated_book.Session.Stopping.{IsOver, error-steps}
use consolidated_book.Session.Messages.{IsReading, calls-received}

abbrev ends : Text → Event
ends bytes = Event.completes ErrorCode.success true bytes

abbrev connects : List Event
connects = ends [] ∷ ends [] ∷ ends [] ∷ ends [] ∷ []

abbrev exchange : WebSocketSession
exchange =
    run (web_socket_session true) (codes "stream.bybit.com") (codes "443")
      (codes "/v5/public/linear")

abbrev connected : WebSocketSession
connected = steps exchange connects

abbrev talk : List Event
talk =
    ends (codes "one")
    ∷ ends []
    ∷ ends (codes "two")
    ∷ Event.completes ErrorCode.closed true []
    ∷ ends (codes "three")
    ∷ []

connected-IsReading : IsReading connected
unfolding run web_socket_session steps step complete on_resolve on_connect on_ssl_handshake
    on_handshake guarded
connected-IsReading = record { reads = refl; emptied = refl; calls_back = refl; runs = refl }

calls-received_example :
    (steps connected talk).calls ≡ connected.calls ++ (codes "one" ∷ codes "two" ∷ [])
calls-received_example = calls-received connected talk connected-IsReading

error-steps_example :
    IsOver exchange (steps exchange (Event.completes ErrorCode.failure true [] ∷ talk))
error-steps_example = error-steps exchange ErrorCode.failure true [] talk (λ e. cc)
