-- ===== src/Meta/Sleep.antt =====
-- source/meta_scheduler.cpp: where `ContextImpl::Run` sleeps on `stateChanged`, which is in the wait
-- for work and after it has stopped, and the callbacks that wake it. Each runs under `stateLock`, so a
-- section of code that holds the lock is one step.
use crunch_concurrency.Base.{ℕ, Bool, true, false, List, [], ◌∷◌, ◌==◌, if◌then◌else◌}
use crunch_concurrency.Base.Machine.{update}
use crunch_concurrency.Meta.Loop.{increment}

-- Where the thread of `Run` is: before the test of the wait for work, asleep in it, back in the loop;
-- before the removal of the waiters of the idle schedulers that are left, before the test of the wait
-- for the callback of one of them, asleep in it, or done.
pub data Place : Type 0 where
  tests_work sleeps_for_work goes_on : Place
  removes : List ℕ → Place
  tests_callback : ℕ → List ℕ → Place
  sleeps_for_callback : ℕ → List ℕ → Place
  done : Place

-- `activeCount`, `stop`, which schedulers have the last state idle, and the thread
pub record Sleeper : Type 0 where
  pub active_count : ℕ
  pub stop : Bool
  pub last_idle : ℕ → Bool
  pub idle_schedulers : List ℕ
  pub place : Place

-- `stateChanged.WakeAll`
unfoldable pub wake : Place → Place
wake sleeps_for_work = tests_work
wake (sleeps_for_callback i rest) = tests_callback i rest
wake p = p

-- The callback of `until`
unfoldable pub stop_callback : Sleeper → Sleeper
unfolding wake
stop_callback s = record s {
  stop = true;
  place = if s.active_count == 0 then wake s.place else s.place;
}

-- The callback of the has-work waiter of scheduler `i`, which notifies once
unfoldable pub ready_callback : ℕ → Sleeper → Sleeper
unfolding wake
ready_callback i s =
    if s.last_idle i
    then record s {
      active_count = increment s.active_count;
      last_idle = update s.last_idle i false;
      place = if s.active_count == 0 then wake s.place else s.place;
    }
    else s

-- What the thread does next. `removed` is what `RemoveWaiter` returns.
unfoldable pub advance : (removed : Bool) → Sleeper → Place → Sleeper
advance removed s tests_work =
    if s.active_count == 0
    then (if s.stop
        then record s { place = removes s.idle_schedulers }
        else record s { place = sleeps_for_work })
    else record s { place = goes_on }
advance removed s (removes []) = record s { place = done }
advance true s (removes (i ∷ rest)) = record s { place = removes rest }
advance false s (removes (i ∷ rest)) = record s { place = tests_callback i rest }
advance removed s (tests_callback i rest) =
    if s.last_idle i
    then record s { place = sleeps_for_callback i rest }
    else record s { place = removes rest }
advance removed s p = s

-- The thread goes on, a callback runs, or the condition wakes the thread by itself.
pub data Choice : Type 0 where
  advances : (removed : Bool) → Choice
  stops : Choice
  is_ready : ℕ → Choice
  wakes_itself : Choice

unfoldable pub step : Choice → Sleeper → Sleeper
step (advances removed) s = advance removed s s.place
step stops s = stop_callback s
step (is_ready i) s = ready_callback i s
step wakes_itself s = record s { place = wake s.place }

unfoldable pub run : List Choice → Sleeper → Sleeper
run [] s = s
run (c ∷ cs) s = run cs (step c s)
