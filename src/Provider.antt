-- ===== src/Provider.antt =====
-- md_provider/provider/base_provider.h and base_provider.cpp: the life of a provider's worker thread.
-- A call of std::terminate is `none`. Log lines are left out.
pub mod Reconnect
pub mod Lifetime
pub mod Tests
use consolidated_book.Common.{
  ℕ, zero, suc, ◌+◌, ◌-◌, ◌*◌, ◌%◌, ◌^◌, ◌≡◌, Bool, true, false, Option, none, some, ltb, not,
  if◌then◌else◌,
}

abbrev pub max_reconnect_attempts : ℕ
max_reconnect_attempts = 10

abbrev pub initial_reconnect_delay_ms : ℕ
initial_reconnect_delay_ms = 1000

abbrev pub max_reconnect_delay_ms : ℕ
max_reconnect_delay_ms = 60000

-- worker_thread: not joinable (`absent`), or at a point of Run.
pub data Worker : Type 0 where
  absent : Worker
  looping : Worker  -- before `while (running)`
  connecting : Worker  -- in the try block, up to the end of ioc.run()
  dropped : Worker  -- before `if (running)`, after ioc.run() or in the handler of an exception
  reconnecting : Worker  -- at the start of HandleReconnection
  counting : Worker  -- past its test of `running`
  sleeping : ℕ → Worker  -- in sleep_for, with the delay in ms
  ended : Worker  -- returned from Run, not joined

pub record BaseProvider : Type 0 where
  pub running : Bool
  pub reconnect_count : ℕ  -- uint32_t
  pub has_session : Bool  -- ws_session
  pub worker : Worker
  pub joining : Bool  -- a call of Stop waits in worker_thread.join()

unfoldable pub base_provider : BaseProvider
base_provider = record {
  running = false;
  reconnect_count = 0;
  has_session = false;
  worker = Worker.absent;
  joining = false;
}

abbrev pub joinable : Worker → Bool
joinable Worker.absent = false
joinable w = true

-- Assigning to a joinable std::thread terminates.
unfoldable pub start : BaseProvider → Option BaseProvider
start p =
    if p.running
    then some p
    else if joinable p.worker
    then none
    else some (record p { running = true; worker = Worker.looping })

-- Stop up to the call of join.
unfoldable pub stop : BaseProvider → BaseProvider
stop p = if p.running then record p { running = false; joining = joinable p.worker } else p

-- A call of Stop that waits returns once the worker has.
unfoldable pub join : BaseProvider → BaseProvider
join p = elim p.worker [
  | absent ↦ p
  | looping ↦ p
  | connecting ↦ p
  | dropped ↦ p
  | reconnecting ↦ p
  | counting ↦ p
  | sleeping d ↦ p
  | ended ↦ if p.joining then record p { worker = Worker.absent; joining = false } else p
]

-- The members after Stop has returned in the destructor: a joinable std::thread terminates.
unfoldable pub destroy : BaseProvider → Option BaseProvider
destroy p = if joinable p.worker then none else some p

-- `INITIAL_RECONNECT_DELAY_MS * (1ULL << (count - 1))` with 64 bits, and the cap.
unfoldable pub delay_ms : ℕ → ℕ
delay_ms count =
    let backoff = initial_reconnect_delay_ms * (2 ^ (count - 1) % 2 ^ 64) % 2 ^ 64 in
    if ltb max_reconnect_delay_ms backoff then max_reconnect_delay_ms else backoff

-- HandleReconnection tests `running`, and then counts; Stop may come in between.
unfoldable pub handle_reconnection : BaseProvider → BaseProvider
handle_reconnection p = record p { worker = if p.running then Worker.counting else Worker.looping }

unfoldable pub count_reconnection : BaseProvider → BaseProvider
count_reconnection p =
    let count = (p.reconnect_count + 1) % 2 ^ 32 in
    if ltb max_reconnect_attempts count
    then record p { reconnect_count = count; running = false; worker = Worker.looping }
    else record p { reconnect_count = count; worker = Worker.sleeping (delay_ms count) }

-- One step of the worker. A connection ends by ioc.run() returning or by an exception.
unfoldable pub run_step : BaseProvider → BaseProvider
run_step p = elim p.worker [
  | absent ↦ p
  | looping ↦
      if p.running
      then record p { worker = Worker.connecting; has_session = true }
      else record p { worker = Worker.ended }
  | connecting ↦ record p { worker = Worker.dropped }
  | dropped ↦ record p { worker = if p.running then Worker.reconnecting else Worker.looping }
  | reconnecting ↦ handle_reconnection p
  | counting ↦ count_reconnection p
  | sleeping d ↦ record p { worker = Worker.looping }
  | ended ↦ p
]

unfoldable pub run_steps : ℕ → BaseProvider → BaseProvider
run_steps zero p = p
run_steps (suc n) p = run_steps n (run_step p)
