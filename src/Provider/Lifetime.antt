-- ===== src/Provider/Lifetime.antt =====
-- base_provider.cpp: Start, Stop and the destructor against the worker, in any order.
use consolidated_book.Common.{◌^◌, ◌<◌, ◌≡◌, refl, Bool, true, false, none, some, arith}
use consolidated_book.Provider.{
  BaseProvider, Worker, base_provider, joinable, start, stop, join, destroy, handle_reconnection,
  count_reconnection, run_step, max_reconnect_attempts,
}

-- Calls of Start and Stop from one thread, and steps of the worker. While Stop waits in join, its
-- caller makes no other call.
pub data Step (p : BaseProvider) : BaseProvider → Type 0 where
  starts : {q : BaseProvider} → p.joining ≡ false → start p ≡ some q → Step p q
  stops : p.joining ≡ false → Step p (stop p)
  joins : Step p (join p)
  runs : Step p (run_step p)

pub data Reach : BaseProvider → Type 0 where
  built : Reach base_provider
  later : {p q : BaseProvider} → Reach p → Step p q → Reach q

-- The points from which a worker leaves Run, where `running` is off.
abbrev pub gives_up : Worker → Bool
gives_up Worker.looping = true
gives_up Worker.ended = true
gives_up w = false

-- The thread exists while the provider runs, and while a call of Stop waits for it. One that exists
-- without either is leaving Run, or has left it, since its count has passed the last attempt.
pub record IsConsistent (p : BaseProvider) : Type 0 where
  pub counted : p.reconnect_count < 2 ^ 32
  pub started : p.running ≡ true → joinable p.worker ≡ true
  pub leaving : p.running ≡ true → p.worker ≡ Worker.ended → ⊥
  pub waiting : p.joining ≡ true → (p.running ≡ false) × (joinable p.worker ≡ true)
  pub exhausted :
      p.running ≡ false
      → p.joining ≡ false
      → joinable p.worker ≡ true
      → (max_reconnect_attempts < p.reconnect_count) × (gives_up p.worker ≡ true)

start-IsConsistent :
    (p : BaseProvider) {q : BaseProvider}
    → IsConsistent p
    → p.joining ≡ false
    → start p ≡ some q
    → IsConsistent q
unfolding start
start-IsConsistent p {q} v idle e = ground arith

stop-IsConsistent : (p : BaseProvider) → IsConsistent p → IsConsistent (stop p)
unfolding stop
stop-IsConsistent p v = ground arith

run_step-at :
    (p : BaseProvider) (w : Worker) → p.worker ≡ w → IsConsistent p → IsConsistent (run_step p)
unfolding run_step handle_reconnection count_reconnection
run_step-at p Worker.absent e v = ground arith
run_step-at p Worker.looping e v = ground arith
run_step-at p Worker.connecting e v = ground arith
run_step-at p Worker.dropped e v = ground arith
run_step-at p Worker.reconnecting e v = ground arith
run_step-at p Worker.counting e v = ground arith
run_step-at p (Worker.sleeping d) e v = ground arith
run_step-at p Worker.ended e v = ground arith

join-at : (p : BaseProvider) (w : Worker) → p.worker ≡ w → IsConsistent p → IsConsistent (join p)
unfolding join
join-at p Worker.absent e v = ground arith
join-at p Worker.looping e v = ground arith
join-at p Worker.connecting e v = ground arith
join-at p Worker.dropped e v = ground arith
join-at p Worker.reconnecting e v = ground arith
join-at p Worker.counting e v = ground arith
join-at p (Worker.sleeping d) e v = ground arith
join-at p Worker.ended e v = ground arith

-- In every state that calls of Start and Stop and the worker reach without a std::terminate: a running
-- provider has a worker that has not returned from Run, a call of Stop that waits has a thread to wait
-- for, and a thread that exists while the provider neither runs nor is being stopped has counted more
-- than 10 reconnections and is at the end of Run.
pub Reach-IsConsistent : {p : BaseProvider} → Reach p → IsConsistent p
unfolding base_provider
Reach-IsConsistent Reach.built = ground arith
Reach-IsConsistent (Reach.later {p} r (Step.starts idle e)) =
    start-IsConsistent p (Reach-IsConsistent r) idle e
Reach-IsConsistent (Reach.later {p} r (Step.stops idle)) =
    stop-IsConsistent p (Reach-IsConsistent r)
Reach-IsConsistent (Reach.later {p} r Step.joins) = join-at p p.worker refl (Reach-IsConsistent r)
Reach-IsConsistent (Reach.later {p} r Step.runs) =
    run_step-at p p.worker refl (Reach-IsConsistent r)

-- A reachable provider that no call of Stop waits for, and whose Start would terminate the program: it
-- has counted more than 10 reconnections, its worker is at the end of Run, Stop returns without a join,
-- and the destructor terminates the program as well.
pub gave_up-terminates :
    {p : BaseProvider}
    → Reach p
    → p.joining ≡ false
    → start p ≡ none
    → (max_reconnect_attempts < p.reconnect_count)
      × (gives_up p.worker ≡ true)
      × (stop p ≡ p)
      × (destroy (stop p) ≡ none)
unfolding stop destroy start
gave_up-terminates {p} r idle e = let v = Reach-IsConsistent r in ground arith
