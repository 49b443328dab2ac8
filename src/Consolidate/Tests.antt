-- ===== src/Consolidate/Tests.antt =====
-- consolidate_candle_manager.cpp: builders that complete a candle with every second trade.
use mathlib.Core.List.{foldl}
use consolidated_book.Common.{
  ℕ, zero, suc, ◌^◌, arith, ◌≡◌, ◌≢◌, refl, map, List, [], ◌∷◌, ◌++◌, Option, none, some, Bool,
  true, false, Text, codes, lookup, text_eq, assign,
}
use consolidated_book.Common.Int.{pos}
use consolidated_book.Types.Double.{Amount, amount_double}
use consolidated_book.Types.Exchange.{Exchange}
use consolidated_book.Types.Market.{Trade, Candle}
use consolidated_book.Candle.Manager.{opened_candle}
use consolidated_book.Consolidate.{
  CandleBuilder, ConsolidateCandleManager, consolidate_candle_manager, process_trade, emit,
  get_or_create_builder, run, stop,
}
use consolidated_book.Consolidate.Worker.{
  Consumer, Threads, start, begin_stop, end_stop, destroy, work,
}
use consolidated_book.Consolidate.Sessions.{Running, Running-run}
use consolidated_book.Consolidate.Ownership.{Reach, Reach-destroy}
use consolidated_book.Queue
use consolidated_book.Common.Int.{◌-ℤ◌}
use consolidated_book.Queue.{
  mpsc_queue, Producer, cell_of, diff, branch_push, branch_pop, push_step, pop_step, update,
}
use consolidated_book.Queue.System.{System, initial, claim, result, produce, consume}
use consolidated_book.Queue.Drain.{consumes, drain, IsQuiet}
use consolidated_book.Consolidate.Pipeline.{drained-run}
use consolidated_book.Consolidate.Builders.{
  popped_trades, trades_of, advance, completions, run-calls,
}

-- The open candle, if there is one.
abbrev add : Option (Candle Amount) → Trade Amount → Option (Candle Amount) × Option (Candle Amount)
add none t = (some (opened_candle 1000 t), none)
add (some c) t = (none, some c)

instance abbrev pairs : CandleBuilder Amount (Option (Candle Amount))
pairs = record { make = λ k n. none; add_trade = add; current_candle = λ c. c }

abbrev trade : Text → ℕ → Trade Amount
trade instrument at = record {
  exchange = Exchange.okx;
  instrument = instrument;
  trade_id = 1;
  price = some 3;
  qty = some 2;
  event_ts = at;
  trade_ts = at;
  recv_ts = at;
}

abbrev btc : Text
btc = codes "BTCUSDT"

abbrev eth : Text
eth = codes "ETHUSDT"

abbrev manager : ConsolidateCandleManager Amount (Option (Candle Amount))
manager = record {
  interval_ms = pos 1000;
  builders = (btc, some (opened_candle 1000 (trade btc 5))) ∷ [];
  running = true;
  trades_processed = 1;
  candles_emitted = 0;
  has_callback = true;
  calls = [];
}

abbrev reads : List (Bool × Option (Trade Amount))
reads =
    (true, some (trade eth 7))
    ∷ (true, none)
    ∷ (true, some (trade btc 8))
    ∷ (false, none)
    ∷ (true, some (trade btc 9))
    ∷ []

run-calls_example :
    (run manager reads).calls
    ≡ [] ++ completions (pos 1000) (λ k. lookup k manager.builders) (popped_trades reads)
run-calls_example = run-calls manager reads refl

abbrev fresh : ConsolidateCandleManager Amount (Option (Candle Amount))
fresh = record manager { running = false }

-- Stop is called while the worker has popped a trade.
abbrev popped : List (Option (Trade Amount))
popped = some (trade eth 7) ∷ none ∷ some (trade btc 8) ∷ []

abbrev last : Threads Amount (Option (Candle Amount))
last =
    let s : Threads Amount (Option (Candle Amount)) = record {
      manager = record fresh { running = true };
      worker = Consumer.looping;
      joining = false;
    } in
    let busy = work (work (work (work (work s none) (some (trade eth 7))) none) none) none in
    work (work (begin_stop busy) (some (trade btc 8))) none

last-Running : Running fresh popped last
unfolding work begin_stop process_trade emit get_or_create_builder lookup text_eq assign
last-Running = Running.works none (
    Running.works (some (trade btc 8)) (
      Running.stops (
        Running.works none (
          Running.works none (
            Running.works none
              (Running.works (some (trade eth 7)) (Running.works none Running.starts)))))))

last-ended : last.worker ≡ Consumer.ended
unfolding work begin_stop process_trade emit get_or_create_builder lookup text_eq assign
last-ended = refl

Running-run_example : end_stop last ≡ record {
  manager = stop (run (record fresh { running = true }) (map (λ p. (true, p)) popped));
  worker = Consumer.absent;
  joining = false;
}
Running-run_example = Running-run last-Running last-ended

abbrev built : Threads Amount (Option (Candle Amount))
built = record {
  manager = consolidate_candle_manager (pos 1000) (btc ∷ []);
  worker = Consumer.absent;
  joining = false;
}

abbrev begun : Threads Amount (Option (Candle Amount))
begun = record built {
  manager = record built.manager { running = true };
  worker = Consumer.looping;
}

begun-Reach : Reach begun
unfolding start consolidate_candle_manager
begun-Reach = Reach.starts (Reach.built (pos 1000) (btc ∷ [])) refl refl

Reach-destroy_example :
    (start begun ≢ none)
    × (destroy (end_stop (work (work (begin_stop begun) none) (some (trade btc 9)))) ≢ none)
Reach-destroy_example = Reach-destroy none (some (trade btc 9)) begun-Reach refl

abbrev kept : Trade Amount → Trade Amount
kept t = t

-- A queue of two cells into which producer `i` pushes a trade, in `n` steps.
pushes : ℕ → ℕ → System (Trade Amount) → System (Trade Amount)
pushes zero i s = s
pushes (suc n) i s = pushes n i (produce (2 ^ 1) kept s i true)

pushes-Reach :
    (n i : ℕ) (s : System (Trade Amount))
    → Queue.System.Reach (2 ^ 1) kept (trade [] 0) s
    → Queue.System.Reach (2 ^ 1) kept (trade [] 0) (pushes n i s)
unfolding pushes
pushes-Reach zero i s r = r
pushes-Reach (suc n) i s r =
    pushes-Reach n i (produce (2 ^ 1) kept s i true)
      (Queue.System.Reach.later r (Queue.System.Step.push i true))

abbrev called : System (Trade Amount)
called = record (initial (trade [] 0)) {
  producers = update (initial (trade [] 0)).producers 3 (Producer.calling (trade btc 8));
}

abbrev pushed : System (Trade Amount)
pushed = pushes 5 3 called

pushed-IsQuiet : IsQuiet 1 (omega arith) (omega arith) kept (trade [] 0) pushed
unfolding pushes produce push_step branch_push initial mpsc_queue cell_of diff claim ◌-ℤ◌
pushed-IsQuiet = record {
  reached = pushes-Reach 5 3 called (
      Queue.System.Reach.later Queue.System.Reach.start
        (Queue.System.Step.call 3 true (trade btc 8) refl));
  fits = omega arith;
  through = λ i. ground arith;
  last = none;
  resting = refl;
}

drained-run_example :
    ((key : Text)
      → lookup key (run manager ((true, some (trade btc 8)) ∷ [])).builders
        ≡ foldl
            (advance key (pos 1000))
            (lookup key manager.builders)
            (trades_of key pushed.claims))
    × ((run manager ((true, some (trade btc 8)) ∷ [])).calls
        ≡ [] ++ completions (pos 1000) (λ key. lookup key manager.builders) pushed.claims)
unfolding pushes produce consume push_step pop_step branch_push branch_pop initial mpsc_queue
    cell_of diff claim result ◌-ℤ◌ drain consumes
drained-run_example =
    drained-run 1 (omega arith) (omega arith) kept (trade [] 0) pushed manager
      ((true, some (trade btc 8)) ∷ []) pushed-IsQuiet refl refl
