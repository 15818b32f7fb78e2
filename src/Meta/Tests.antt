-- ===== src/Meta/Tests.antt =====
-- Run modes, schedulers and contexts at small inputs, a run of the loop, and its waits.
use crunch_concurrency.Meta.Selection.{
  select, selected_mode, wanted_mode, find_scheduler, select-mode,
}
use crunch_concurrency.Meta.Sleep
use crunch_concurrency.Meta.Sleep.{
  Sleeper, tests_work, sleeps_for_callback, advances, is_ready, stops,
}
use crunch_concurrency.Meta.Wakeups.{IsIdle, run-IsIdle, run-IsStuck}
use crunch_concurrency.Base.{◌+◌, ◌≡◌, refl, true, false, List, [], ◌∷◌, ◌++◌, length, arith, ◌==◌}
use crunch_concurrency.Meta.RunMode.{mode_all, mode_disabled}
use crunch_concurrency.Meta.Config.{entry}
use crunch_concurrency.Meta.Threads.{MetaThread}
use crunch_concurrency.Meta.Loop.{State, Choice, init_loop, run, signaled}
use crunch_concurrency.Meta.Loop.Counts.{pollers, AllBusy, loop_counts}

abbrev thread : MetaThread
thread = record { processor_affinity = 1; run_mode_overrides = [] }

-- The first of two schedulers goes idle, the second polls, and the first is signaled.
abbrev idle_and_back : List Choice
idle_and_back =
    Choice.runs State.idle true
    ∷ Choice.runs State.polling true
    ∷ Choice.notifies 1
    ∷ Choice.runs State.polling true
    ∷ []

loop_counts_example :
    let l = run idle_and_back (init_loop (1 ∷ 2 ∷ [])) in
    (l.polling_count ≡ pollers (l.visited ++ l.pending))
    × (l.active_count ≡ length (l.visited ++ l.pending) + length (signaled l.idle_schedulers))
    × AllBusy (l.visited ++ l.pending)
    × (length (l.visited ++ l.pending) + length l.idle_schedulers ≡ 2)
loop_counts_example = loop_counts (1 ∷ 2 ∷ []) idle_and_back (omega arith)

-- The thread before its wait for work, with scheduler 3 idle and none active
abbrev sleeper : Sleeper
sleeper = record {
  active_count = 0;
  stop = false;
  last_idle = λ i. i == 3;
  idle_schedulers = 3 ∷ [];
  place = tests_work;
}

run-IsIdle_example : IsIdle (Sleep.run (advances true ∷ is_ready 3 ∷ advances true ∷ []) sleeper)
run-IsIdle_example = run-IsIdle (advances true ∷ is_ready 3 ∷ advances true ∷ []) sleeper tt

-- The thread that waits for the callback of scheduler 3, with one scheduler active
abbrev stuck : Sleeper
stuck = record {
  active_count = 1;
  stop = true;
  last_idle = λ i. i == 3;
  idle_schedulers = 3 ∷ [];
  place = sleeps_for_callback 3 [];
}

run-IsStuck_example : (Sleep.run (is_ready 3 ∷ stops ∷ []) stuck).place ≡ sleeps_for_callback 3 []
run-IsStuck_example =
    run-IsStuck (is_ready 3 ∷ stops ∷ []) 3 [] stuck (tt, (tt, tt)) (refl, omega arith, omega arith)

-- Scheduler 2 has an override that disables it.
select-mode_example :
    selected_mode 2
      (select ((2, mode_disabled) ∷ []) (entry 10 1 mode_all ∷ entry 11 2 mode_all ∷ []))
    ≡ wanted_mode
        ((2, mode_disabled) ∷ [])
        (find_scheduler 2 (entry 10 1 mode_all ∷ entry 11 2 mode_all ∷ []))
select-mode_example =
    select-mode ((2, mode_disabled) ∷ []) (entry 10 1 mode_all ∷ entry 11 2 mode_all ∷ []) 2
      (refl, (refl, tt))
