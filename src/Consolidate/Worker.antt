-- ===== src/Consolidate/Worker.antt =====
-- consolidate_candle_manager.cpp: SetCandleCallback, Start, Stop, the destructor and the loop of Run as
-- steps of two threads. A call of std::terminate is `none`.
use consolidated_book.Common.{Option, none, some, Bool, true, false, if◌then◌else◌}
use consolidated_book.Types.Market.{Trade}
use consolidated_book.Consolidate.{
  CandleBuilder, ConsolidateCandleManager, process_trade, emit_final,
}

-- worker_thread: not joinable (`absent`), or at a point of Run.
pub data Consumer : Type 0 where
  absent : Consumer
  looping : Consumer  -- before `while (running)`
  popping : Consumer  -- in the body of the loop
  ended : Consumer  -- returned from Run, not joined

pub record Threads (W B : Type 0) : Type 0 where
  pub manager : ConsolidateCandleManager W B
  pub worker : Consumer
  pub joining : Bool  -- a call of Stop waits in worker_thread.join()

abbrev pub has_thread : Consumer → Bool
has_thread Consumer.absent = false
has_thread Consumer.looping = true
has_thread Consumer.popping = true
has_thread Consumer.ended = true

module _ {W B : Type 0} ⦃o : CandleBuilder W B⦄ where
  unfoldable pub set_candle_callback : Threads W B → Threads W B
  set_candle_callback s = record s { manager = record s.manager { has_callback = true } }

  -- Assigning to a joinable std::thread terminates.
  unfoldable pub start : Threads W B → Option (Threads W B)
  start s =
      if s.manager.running
      then some s
      else if has_thread s.worker
      then none
      else some
          (record s { manager = record s.manager { running = true }; worker = Consumer.looping })

  -- Stop up to the call of join.
  unfoldable pub begin_stop : Threads W B → Threads W B
  begin_stop s =
      if s.manager.running
      then record s { manager = record s.manager { running = false }; joining = true }
      else s

  -- The rest of Stop, when the worker has returned from Run.
  unfoldable pub end_stop : Threads W B → Threads W B
  end_stop s = elim s.worker [
    | absent ↦ s
    | looping ↦ s
    | popping ↦ s
    | ended ↦
        if s.joining
        then record s {
          manager = emit_final s.manager s.manager.builders;
          worker = Consumer.absent;
          joining = false;
        }
        else s
  ]

  -- The destructor calls Stop; the members are destroyed when it has returned.
  unfoldable pub destroy : Threads W B → Option (Threads W B)
  destroy s = if has_thread s.worker then none else some s

  -- One step of the worker; `popped` is what PopTrade returns, if it is called.
  unfoldable pub work : Threads W B → Option (Trade W) → Threads W B
  work s popped = elim s.worker [
    | absent ↦ s
    | looping ↦ record s { worker = if s.manager.running then Consumer.popping else Consumer.ended }
    | popping ↦ elim popped [
      | none ↦ record s { worker = Consumer.looping }
      | some t ↦ record s { manager = process_trade s.manager t; worker = Consumer.looping }
    ]
    | ended ↦ s
  ]
