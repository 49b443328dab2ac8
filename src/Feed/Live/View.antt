-- ===== src/Feed/Live/View.antt =====
-- base_provider.cpp: the view of a whole provider that module Provider has of it, and the steps of its
-- caller.
use consolidated_book.Common.{
  ◌≡◌, refl, sym, subst, Bool, true, false, some, arith, Bool-cases, inl, inr,
}
use consolidated_book.Session.{ErrorCode}
use consolidated_book.Provider
use consolidated_book.Provider.Lifetime
use consolidated_book.Provider.{BaseProvider, base_provider, max_reconnect_attempts}
use consolidated_book.Feed.Live.{Worker, Caller, Live, has_thread, in_try, start, stop_step}

-- A worker in the try block has made its session, or is about to.
abbrev pub worker_view : Worker → Provider.Worker
worker_view Worker.absent = Provider.Worker.absent
worker_view Worker.looping = Provider.Worker.looping
worker_view Worker.entered = Provider.Worker.connecting
worker_view Worker.restarted = Provider.Worker.connecting
worker_view Worker.made = Provider.Worker.connecting
worker_view Worker.serving = Provider.Worker.connecting
worker_view (Worker.handling h) = Provider.Worker.connecting
worker_view Worker.dropped = Provider.Worker.dropped
worker_view Worker.reconnecting = Provider.Worker.reconnecting
worker_view Worker.counting = Provider.Worker.counting
worker_view (Worker.sleeping d) = Provider.Worker.sleeping d
worker_view Worker.ended = Provider.Worker.ended

abbrev pub in_stop : Caller → Bool
in_stop Caller.outside = false
in_stop c = true

pub joinable-worker_view : (w : Worker) → Provider.joinable (worker_view w) ≡ has_thread w
joinable-worker_view Worker.absent = refl
joinable-worker_view Worker.looping = refl
joinable-worker_view Worker.entered = refl
joinable-worker_view Worker.restarted = refl
joinable-worker_view Worker.made = refl
joinable-worker_view Worker.serving = refl
joinable-worker_view (Worker.handling h) = refl
joinable-worker_view Worker.dropped = refl
joinable-worker_view Worker.reconnecting = refl
joinable-worker_view Worker.counting = refl
joinable-worker_view (Worker.sleeping d) = refl
joinable-worker_view Worker.ended = refl

pub worker_view-in_try : (w : Worker) → in_try w ≡ true → worker_view w ≡ Provider.Worker.connecting
worker_view-in_try Worker.entered h = refl
worker_view-in_try Worker.restarted h = refl
worker_view-in_try Worker.made h = refl
worker_view-in_try Worker.serving h = refl
worker_view-in_try (Worker.handling t) h = refl
worker_view-in_try w h = cc

module _ {M : Type 0} where
  -- `session` is whether a session has been made, or is about to be.
  abbrev pub view : Bool → Live M → BaseProvider
  view session p = record {
    running = p.running;
    reconnect_count = p.reconnect_count;
    has_session = session;
    worker = worker_view p.worker;
    joining = in_stop p.caller;
  }

  -- What Provider.Lifetime says of the view: it is reachable, and while Stop runs there is a thread.
  pub record IsSimulated (p : Live M) : Type 0 where
    pub session : Bool
    pub reached : Lifetime.Reach (view session p)
    pub held : in_stop p.caller ≡ true → has_thread p.worker ≡ true

  pub IsSimulated-eq : (p q : Live M) → p ≡ q → IsSimulated q → IsSimulated p
  IsSimulated-eq p q e v = subst (λ r. IsSimulated r) (sym e) v

  -- A step that the view does not show.
  pub hidden_step :
      (p q : Live M) (v : IsSimulated p)
      → view v.session q ≡ view v.session p
      → (in_stop q.caller ≡ true → has_thread q.worker ≡ true)
      → IsSimulated q
  hidden_step p q v same h = record {
    session = v.session;
    reached = subst (λ r. Lifetime.Reach r) (sym same) v.reached;
    held = h;
  }

  -- A step that is one of Provider.
  pub shown_step :
      (p q : Live M) (v : IsSimulated p) (session : Bool) {r : BaseProvider}
      → Lifetime.Step (view v.session p) r
      → r ≡ view session q
      → (in_stop q.caller ≡ true → has_thread q.worker ≡ true)
      → IsSimulated q
  shown_step p q v session st same h = record {
    session = session;
    reached = subst (λ r. Lifetime.Reach r) same (Lifetime.Reach.later v.reached st);
    held = h;
  }

  pub start-IsSimulated :
      (p : Live M) {q : Live M}
      → p.caller ≡ Caller.outside
      → start p ≡ some q
      → IsSimulated p
      → IsSimulated q
  unfolding start Provider.start
  start-IsSimulated p {q} out e v =
      let thread = joinable-worker_view p.worker in
      let calls = v.held in
      shown_step p q v v.session (Lifetime.Step.starts (ground arith) (ground (arith, thread))) refl
        (λ h. ground arith)

  join-at :
      (p : Live M) (ec : ErrorCode) (w : Worker)
      → p.worker ≡ w
      → p.caller ≡ Caller.joining
      → IsSimulated p
      → IsSimulated (stop_step p ec)
  unfolding stop_step Provider.join
  join-at p ec Worker.ended here at v =
      shown_step p (stop_step p ec) v v.session Lifetime.Step.joins (ground arith)
        (λ h. ground arith)
  join-at p ec w here at v =
      let thread = v.held (ground arith) in
      hidden_step p (stop_step p ec) v (ground arith) (λ h. ground (arith, thread))

  pub stop-at :
      (p : Live M) (ec : ErrorCode) (c : Caller)
      → p.caller ≡ c
      → IsSimulated p
      → IsSimulated (stop_step p ec)
  unfolding stop_step Provider.stop Provider.join
  stop-at p ec Caller.outside at v = elim (Bool-cases p.running) [
    | inl on ↦
        let thread = (Lifetime.Reach-IsConsistent v.reached).started on in
        let same = joinable-worker_view p.worker in
        shown_step p (stop_step p ec) v v.session (Lifetime.Step.stops (ground arith))
          (ground (arith, thread, same)) (λ h. ground (arith, thread, same))
    | inr off ↦ hidden_step p (stop_step p ec) v (ground arith) (λ h. ground arith)
  ]
  stop-at p ec Caller.exchanged at v =
      hidden_step p (stop_step p ec) v (ground arith) (λ h. ground (arith, v.held (ground arith)))
  stop-at p ec Caller.halting at v =
      let thread = v.held (ground arith) in
      hidden_step p (stop_step p ec) v (ground (arith, thread)) (λ h. ground (arith, thread))
  stop-at p ec Caller.joining at v = join-at p ec p.worker refl at v
