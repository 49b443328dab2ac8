-- ===== src/Provider/Reconnect.antt =====
-- base_provider.cpp: the delays of HandleReconnection, and the end of Run.
use consolidated_book.Common.{
  ℕ, zero, suc, ◌+◌, ◌*◌, ◌<◌, ◌≡◌, refl, ap, ◌∙◌, Bool, true, false, arith,
}
use consolidated_book.Provider.{
  BaseProvider, Worker, max_reconnect_attempts, delay_ms, handle_reconnection, count_reconnection,
  run_step, run_steps,
}

-- The delays that the worker sleeps within so many steps.
abbrev pub asleep : Worker → ℕ
asleep (Worker.sleeping d) = d
asleep w = 0

pub slept : ℕ → BaseProvider → ℕ
slept zero p = 0
slept (suc n) p = asleep p.worker + slept n (run_step p)

abbrev pub gave_up : BaseProvider → BaseProvider
gave_up p = record p {
  running = false;
  reconnect_count = 11;
  has_session = true;
  worker = Worker.ended;
}

-- A provider whose worker is about to look at `running`, which is on.
abbrev pub at_loop : ℕ → Bool → Bool → BaseProvider
at_loop c session waits = record {
  running = true;
  reconnect_count = c;
  has_session = session;
  worker = Worker.looping;
  joining = waits;
}

at_loop_eq :
    (p : BaseProvider)
    → p.running ≡ true
    → p.worker ≡ Worker.looping
    → p ≡ at_loop p.reconnect_count p.has_session p.joining
at_loop_eq p on at = cc

one_round :
    (c n : ℕ) (session waits : Bool)
    → c < max_reconnect_attempts
    → run_steps (suc (suc (suc (suc (suc (suc n)))))) (at_loop c session waits)
      ≡ run_steps n (at_loop (c + 1) true waits)
unfolding run_steps run_step handle_reconnection count_reconnection
one_round c n session waits lt = ground arith

last_round :
    (session waits : Bool)
    → run_steps 6 (at_loop max_reconnect_attempts session waits)
      ≡ gave_up (at_loop max_reconnect_attempts session waits)
unfolding run_steps run_step handle_reconnection count_reconnection
last_round session waits = refl

rounds :
    (left c : ℕ) (session waits : Bool)
    → c + left ≡ max_reconnect_attempts
    → run_steps (6 * left + 6) (at_loop c session waits) ≡ gave_up (at_loop c session waits)
rounds zero c session waits e =
    let full : c ≡ max_reconnect_attempts = omega arith in rw full (last_round session waits)
rounds (suc left) c session waits e =
    let steps : 6 * suc left + 6 ≡ suc (suc (suc (suc (suc (suc (6 * left + 6)))))) = omega arith in
    ap (λ n. run_steps n (at_loop c session waits)) steps
    ∙ one_round c (6 * left + 6) session waits (omega arith)
    ∙ rounds left (c + 1) true waits (omega arith)

-- A worker whose connections all end, however long each one lasts, and which nobody stops, tries to
-- reconnect until its count is 10, and then returns from Run by itself with `running` off.
pub run_steps-gives_up :
    (left : ℕ) (p : BaseProvider)
    → p.running ≡ true
    → p.worker ≡ Worker.looping
    → p.reconnect_count + left ≡ max_reconnect_attempts
    → run_steps (6 * left + 6) p ≡ gave_up p
run_steps-gives_up left p on at e =
    ap (run_steps (6 * left + 6)) (at_loop_eq p on at)
    ∙ rounds left p.reconnect_count p.has_session p.joining e

sleeps : (session waits : Bool) → slept 66 (at_loop 0 session waits) ≡ 303000
unfolding slept run_step handle_reconnection count_reconnection delay_ms
sleeps session waits = refl

-- A worker that starts with no reconnection counted sleeps 303 seconds in all before it gives up.
pub slept-gives_up :
    (p : BaseProvider)
    → p.running ≡ true
    → p.worker ≡ Worker.looping
    → p.reconnect_count ≡ 0
    → (run_steps 66 p ≡ gave_up p) × (slept 66 p ≡ 303000)
slept-gives_up p on at e =
    rw (at_loop_eq p on at)
      (rw e (rounds 10 0 p.has_session p.joining refl, sleeps p.has_session p.joining))
