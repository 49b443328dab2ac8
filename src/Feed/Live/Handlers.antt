-- ===== src/Feed/Live/Handlers.antt =====
-- base_provider.cpp and ws.cpp: what the two steps of a handler leave as it is.
use consolidated_book.Common.{
  ◌≡◌, refl, Bool, true, false, not, ◌||◌, arith, ◌⊎◌, if◌then◌else◌, inl, inr, Bool-cases,
  Option-cases,
}
use consolidated_book.Session.{WebSocketSession, Event}
use consolidated_book.Session
use consolidated_book.Feed.Providers.{ExchangeProvider}
use consolidated_book.Feed.Live.{
  Worker, Whose, Handler, Live, in_try, has_work, any_work, let_go, session_of, put, handle, finish,
  serve,
}

if-both : {A : Type 0} (P : A → Type 0) (b : Bool) (x y : A) → P x → P y → P (if b then x else y)
if-both P true x y one other = one
if-both P false x y one other = other

module _ {M : Type 0} where
  pub record IsKept (p q : Live M) : Type 0 where
    pub runs : q.running ≡ p.running
    pub counted : q.reconnect_count ≡ p.reconnect_count
    pub calls : q.caller ≡ p.caller
    pub halts : q.ioc_stopped ≡ p.ioc_stopped
    pub tried : in_try q.worker ≡ true

  put-IsKept :
      (p : Live M) (w : Whose) (s : WebSocketSession)
      → in_try p.worker ≡ true
      → IsKept p (put p w s)
  put-IsKept p Whose.current s h = ground arith
  put-IsKept p (Whose.earlier n) s h = ground arith

  pub put-feed :
      (p : Live M) (w : Whose) (s : WebSocketSession)
      → ((put p w s).feed ≡ p.feed) × ((put p w s).worker ≡ p.worker)
  put-feed p Whose.current s = (refl, refl)
  put-feed p (Whose.earlier n) s = (refl, refl)

module _ {M : Type 0} (x : ExchangeProvider M) where
  handle-IsKept :
      (p : Live M) (s : WebSocketSession) (h : Handler) (w : Whose)
      → h.whose ≡ w
      → IsKept p (handle x p s h)
  unfolding handle
  handle-IsKept p s h Whose.current e = ground arith
  handle-IsKept p s h (Whose.earlier n) e = ground arith

  handle-worker :
      (p : Live M) (s : WebSocketSession) (h : Handler) → (handle x p s h).worker ≡ Worker.serving
  unfolding handle
  handle-worker p s h = refl

  pub finish-IsKept :
      (p : Live M) (h : Handler)
      → IsKept p (finish x p h) × ((finish x p h).worker ≡ Worker.serving)
  unfolding finish
  finish-IsKept p h = elim (Option-cases (session_of p h.whose)) [
    | inl missing ↦ ground (arith, missing)
    | inr (s, found) ↦ rw (finish, found) (handle-IsKept p s h h.whose refl, handle-worker p s h)
  ]

  -- What a round of ioc.run() comes to: it returns, or goes on with no call of the callback.
  pub serve-cases :
      (p : Live M) (h : Handler)
      → p.worker ≡ Worker.serving
      → (serve x p h ≡ record p { worker = Worker.dropped })
        ⊎ ((p.ioc_stopped ≡ false) × IsKept p (serve x p h) × ((serve x p h).feed ≡ p.feed))
  unfolding serve
  serve-cases p h at =
      elim (Bool-cases (p.ioc_stopped || not (any_work (let_go p.ws_session p.earlier)))) [
        | inl over ↦ inl (rw over refl)
        | inr on ↦
            let runs : p.ioc_stopped ≡ false = ground arith in
            elim (Option-cases (session_of p h.whose)) [
              | inl missing ↦ inr (rw on (rw missing (runs, ground arith, refl)))
              | inr (s, found) ↦
                  let s' = Session.step s (Event.completes h.ec h.sni h.bytes) in
                  let same : (p.ioc_stopped ≡ false) × IsKept p p × (p.feed ≡ p.feed) =
                    (runs, ground arith, refl) in
                  inr (
                    rw on (
                      rw found (
                        if-both (λ q. (p.ioc_stopped ≡ false) × IsKept p q × (q.feed ≡ p.feed))
                          (not (has_work s.pending)) p _ same
                          (if-both (λ q. (p.ioc_stopped ≡ false) × IsKept p q × (q.feed ≡ p.feed))
                            s.stopped _ _
                            (
                              runs,
                              put-IsKept p h.whose s' (ground arith),
                              (put-feed p h.whose s').0,
                            )
                            (runs, ground arith, refl)))))
            ]
      ]
