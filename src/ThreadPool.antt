-- ===== src/ThreadPool.antt =====
-- source/thread_pool.cpp: `ThreadPool` as a machine of steps. What runs under `mLock` is one step; a
-- wait on `mHasWork` gives the lock up, and ends at a wake or on its own. Work items are numbers, and
-- add no work themselves; an item that throws has been run.
pub mod Accounts
pub mod Turns
pub mod Work
pub mod Post
pub mod Promised
pub mod Answers
mod Tests
use crunch_concurrency.Base.{
  ℕ, ◌+◌, ◌-◌, ◌%◌, ◌^◌, Bool, true, false, ◌&&◌, List, [], ◌∷◌, ◌++◌, ltb, ◌==◌, if◌then◌else◌,
}

-- `mStop`, `mThreads.size()`, `mIdleThreadCount` (`uint32_t`) and `mWork`; then what has happened: the
-- items added, taken by a thread and run, the threads that have started and ended, and whether the
-- destructor has returned.
pub record Memory : Type 0 where
  pub stop : Bool
  pub threads : ℕ
  pub idle_count : ℕ
  pub work : List ℕ
  pub added : List ℕ
  pub taken : List ℕ
  pub done : List ℕ
  pub started : ℕ
  pub ended : ℕ
  pub gone : Bool

-- `ThreadPool::ThreadPool`
unfoldable pub init : Memory
init = record {
  stop = false;
  threads = 0;
  idle_count = 0;
  work = [];
  added = [];
  taken = [];
  done = [];
  started = 0;
  ended = 0;
  gone = false;
}

-- `ThreadPool::GetThreadCount`
unfoldable pub get_thread_count : Memory → ℕ
get_thread_count m = m.threads % 2 ^ 32

-- A thread of the pool, or a client of it.
pub data Pc : Type 0 where
  unborn : Pc
  top : Pc  -- before `while (!mStop)`
  enter : Pc  -- before `mLock.Lock()`
  asleep : Pc  -- in `mHasWork.Wait(mLock)`
  woken : Pc  -- in the same, before it has the lock again
  running : (item : ℕ) → Pc
  ended : Pc
  client : Pc
  joining : Pc  -- in the destructor, after its first block
  destroyed : Pc

pub data Choice : Type 0 where
  adds : (item : ℕ) → Choice
  destroys goes_on : Choice

-- `AddWorkItem`. A thread that it makes is in `mThreads` and starts later.
unfoldable pub add_work_item : (max_thread_count item : ℕ) → Memory → Memory
add_work_item max_thread_count item m = record m {
  work = m.work ++ item ∷ [];
  added = m.added ++ item ∷ [];
  threads =
      if (m.idle_count == 0) && ltb m.threads max_thread_count then m.threads + 1 else m.threads;
}

-- `while (mWork.empty())`, and the block behind it that takes the first item
unfoldable pub take_or_wait : List ℕ → Memory → Memory × Pc
take_or_wait [] m = (m, asleep)
take_or_wait (item ∷ rest) m = (
  record m {
    work = rest;
    taken = m.taken ++ item ∷ [];
    idle_count = (m.idle_count + 2 ^ 32 - 1) % 2 ^ 32;
  },
  running item,
)

-- The calls of a client: none comes once the destructor has begun.
unfoldable pub call : (max_thread_count : ℕ) → Choice → Memory → Memory × Pc
unfolding add_work_item
call max_thread_count (adds item) m =
    (if m.stop then m else add_work_item max_thread_count item m, client)
call max_thread_count destroys m =
    if m.stop then (m, client) else (record m { stop = true }, joining)
call max_thread_count goes_on m = (m, client)

-- One step. The destructor joins every thread, and then runs what is left.
unfoldable pub step : (max_thread_count : ℕ) → Choice → Pc → Memory → Memory × Pc
unfolding call take_or_wait
step max_thread_count c unborn m =
    if ltb m.started m.threads then (record m { started = m.started + 1 }, top) else (m, unborn)
step max_thread_count c top m =
    if m.stop then (record m { ended = m.ended + 1 }, Pc.ended) else (m, enter)
step max_thread_count c enter m =
    take_or_wait m.work (record m { idle_count = (m.idle_count + 1) % 2 ^ 32 })
step max_thread_count c asleep m = (m, woken)
step max_thread_count c woken m =
    if m.stop
    then (
      record m { idle_count = (m.idle_count + 2 ^ 32 - 1) % 2 ^ 32; ended = m.ended + 1 },
      Pc.ended,
    )
    else take_or_wait m.work m
step max_thread_count c (running item) m = (record m { done = m.done ++ item ∷ [] }, top)
step max_thread_count c Pc.ended m = (m, Pc.ended)
step max_thread_count c client m = call max_thread_count c m
step max_thread_count c joining m =
    if m.ended == m.threads
    then (
      record m { done = m.done ++ m.work; taken = m.taken ++ m.work; work = []; gone = true },
      destroyed,
    )
    else (m, joining)
step max_thread_count c destroyed m = (m, destroyed)
