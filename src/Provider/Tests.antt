-- ===== src/Provider/Tests.antt =====
-- base_provider.cpp: a provider that is started, runs, and is stopped or gives up.
use consolidated_book.Common.{ℕ, ◌<◌, zero, suc, ◌≡◌, refl, true, false, none, some}
use consolidated_book.Provider.{
  BaseProvider, base_provider, max_reconnect_attempts, start, stop, destroy, handle_reconnection,
  count_reconnection, run_step, run_steps,
}
use consolidated_book.Provider.Reconnect.{at_loop, gave_up, run_steps-gives_up}
use consolidated_book.Provider.Lifetime.{
  Step, Reach, IsConsistent, Reach-IsConsistent, gives_up, gave_up-terminates,
}

abbrev started : BaseProvider
started = at_loop 0 false false

start-started : start base_provider ≡ some started
unfolding start base_provider
start-started = refl

started-Reach : Reach started
unfolding base_provider
started-Reach = Reach.later Reach.built (Step.starts refl start-started)

run_steps-Reach : (n : ℕ) {p : BaseProvider} → Reach p → Reach (run_steps n p)
unfolding run_steps
run_steps-Reach zero r = r
run_steps-Reach (suc n) r = run_steps-Reach n (Reach.later r Step.runs)

run_steps-gives_up_example : run_steps 18 (at_loop 8 true false) ≡ gave_up (at_loop 8 true false)
run_steps-gives_up_example = run_steps-gives_up 2 (at_loop 8 true false) refl refl refl

Reach-IsConsistent_example : IsConsistent (run_steps 7 started)
Reach-IsConsistent_example = Reach-IsConsistent (run_steps-Reach 7 started-Reach)

gave_up-terminates_example :
    (max_reconnect_attempts < (run_steps 66 started).reconnect_count)
    × (gives_up (run_steps 66 started).worker ≡ true)
    × (stop (run_steps 66 started) ≡ run_steps 66 started)
    × (destroy (stop (run_steps 66 started)) ≡ none)
unfolding run_steps run_step handle_reconnection count_reconnection start
gave_up-terminates_example = gave_up-terminates (run_steps-Reach 66 started-Reach) refl refl
