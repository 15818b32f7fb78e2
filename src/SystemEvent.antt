-- ===== src/SystemEvent.antt =====
-- include/crunch/concurrency/detail/system_event.hpp and source/platform/linux/system_event.cpp: an
-- event over a mutex and a condition of pthreads, as a machine of threads. The mutex is whether it is
-- locked, and the condition is the number of its broadcasts: a broadcast wakes each thread that sleeps
-- then, and a thread may also wake by itself.
pub mod Wakeups
mod Tests
use crunch_concurrency.Base.{ℕ, ◌+◌, Bool, true, false, ◌==◌, if◌then◌else◌, ◌||◌, not, ◌&&◌}

-- `mState`, `mMutex` and `mCondition`
pub record Memory : Type 0 where
  pub state : Bool
  pub locked : Bool
  pub broadcasts : ℕ

-- Where a thread is in `Set`, `Reset` and `Wait`: each point is before one access of the state or one
-- call of pthreads. `pthread_cond_wait` gives the mutex up and sleeps at once. A thread that sleeps has
-- the number of broadcasts when it began to.
pub data Pc : Type 0 where
  set_start set_lock set_test set_write set_broadcast set_unlock : Pc
  reset_start : Pc
  wait_start wait_lock wait_test wait_sleep wait_unlock : Pc
  asleep : ℕ → Pc
  returned : Pc

-- `SystemEvent::SystemEvent`
unfoldable pub init : (initial_state : Bool) → Memory
init initial_state = record { state = initial_state; locked = false; broadcasts = 0 }

-- One step of a thread. `by_itself` is whether a thread that sleeps wakes without a broadcast. A
-- thread that finds the mutex locked stays where it is.
unfoldable pub step : (by_itself : Bool) → Pc → Memory → Memory × Pc
step b set_start m = if m.state then (m, returned) else (m, set_lock)
step b set_lock m = if m.locked then (m, set_lock) else (record m { locked = true }, set_test)
step b set_test m = if m.state then (m, set_unlock) else (m, set_write)
step b set_write m = (record m { state = true }, set_broadcast)
step b set_broadcast m = (record m { broadcasts = m.broadcasts + 1 }, set_unlock)
step b set_unlock m = (record m { locked = false }, returned)
step b reset_start m = (record m { state = false }, returned)
step b wait_start m = if m.state then (m, returned) else (m, wait_lock)
step b wait_lock m = if m.locked then (m, wait_lock) else (record m { locked = true }, wait_test)
step b wait_test m = if m.state then (m, wait_unlock) else (m, wait_sleep)
step b wait_sleep m = (record m { locked = false }, asleep m.broadcasts)
step b wait_unlock m = (record m { locked = false }, returned)
step b (asleep n) m = if (n == m.broadcasts) && not b then (m, asleep n) else (m, wait_lock)
step b returned m = (m, returned)
