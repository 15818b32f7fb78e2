-- ===== src/Mutex/Steps.antt =====
-- source/mutex.cpp, an access of shared memory at a time. The memory is that of the waiter list; its
-- log holds the notifications that no waiting thread has taken yet.
use crunch_concurrency.Base.{
  ℕ, zero, suc, Bool, true, false, [], ◌==◌, if◌then◌else◌, has, erase, not,
}
use crunch_concurrency.WaiterList.Packed.{
  user_flag_bit, get_pointer, set_pointer, add_aba, has_lock, has_user_flag, is_waiter,
}
use crunch_concurrency.WaiterList.Memory.{Waiters, cas, link, notify}
use crunch_concurrency.WaiterList.Remove.{Remove, remove_step}

-- MUTEX_FREE_BIT, the whole word of a free mutex
abbrev pub mutex_free_bit : ℕ
mutex_free_bit = user_flag_bit

-- `Mutex::Mutex`
abbrev pub init : Waiters
init = record { word = mutex_free_bit; next = λ _. 0; notified = [] }

-- Where a thread stands, with its locals.
pub data Pc : Type 0 where
  idle : Pc
  try_lock : (waiter : ℕ) → Pc  -- the first compare-and-swap of `Lock`
  spin : (left waiter : ℕ) → Pc  -- `while (spinLeft--)`
  spin_take : (left waiter : ℕ) → Pc  -- the mutex was seen free: before the compare-and-swap
  add_take : (head waiter : ℕ) → Pc  -- in `AddWaiter`, before a compare-and-swap from `head` to 0
  add_loop : (head waiter : ℕ) → Pc  -- the loop of `AddWaiter`
  add_link : (head waiter : ℕ) → Pc  -- `waiter->next` is set: before the compare-and-swap
  waiting : (waiter : ℕ) → Pc  -- in `WaitFor`, until the waiter is notified
  critical : Pc  -- `Lock` has returned
  unlock : Pc  -- the first compare-and-swap of `Unlock`
  unlock_loop : (head : ℕ) → Pc
  unlock_free : (head : ℕ) → Pc  -- no waiter: before the compare-and-swap to MUTEX_FREE_BIT
  unlock_load : Pc  -- the list is locked: before the load
  unlock_pop : (head next : ℕ) → Pc  -- before the compare-and-swap that pops
  unlock_notify : (waiter : ℕ) → Pc
  removing : (call : Remove) (waiter : ℕ) → Pc
  asserted : Pc  -- a CRUNCH_ASSERT has failed

-- What the thread's program chooses where the code leaves a choice: to lock with a waiter, to add a
-- waiter without spinning, to unlock, to give up waiting.
pub data Choice : Type 0 where
  locks adds : (waiter : ℕ) → Choice
  unlocks gives_up goes_on : Choice

start : Choice → Pc
start (locks w) = if is_waiter w then try_lock w else idle
start (adds w) = if is_waiter w then add_take mutex_free_bit w else idle
start unlocks = idle
start gives_up = idle
start goes_on = idle

-- The callback of `WaitFor` posts the semaphore, and the wait takes the post.
wake : Waiters → ℕ → Waiters × Pc
wake m w =
    if has w m.notified
    then (record m { notified = erase w m.notified }, critical)
    else (m, waiting w)

wait : Choice → ℕ → Waiters → Waiters × Pc
unfolding wake
wait gives_up w m = (m, removing (Remove.load w) w)
wait (locks _) w m = wake m w
wait (adds _) w m = wake m w
wait unlocks w m = wake m w
wait goes_on w m = wake m w

leave : Choice → Pc
leave unlocks = unlock
leave (locks _) = critical
leave (adds _) = critical
leave gives_up = critical
leave goes_on = critical

-- A waiter that was removed waits no more; one that was not will be notified.
removed : Waiters → Remove → ℕ → Waiters × Pc
removed m (Remove.done true) w = (m, idle)
removed m (Remove.done false) w = (m, waiting w)
removed m r w = let (m', r') = remove_step r m in (m', removing r' w)

-- One step of a thread; `spin_count` is `mSpinCount`.
unfoldable pub step : ℕ → Choice → Pc → Waiters → Waiters × Pc
unfolding start wait leave removed
step spin_count c idle m = (m, start c)
step spin_count c (try_lock w) m = cas m mutex_free_bit 0 critical (λ _. spin spin_count w)
step spin_count c (spin zero w) m = (m, add_take mutex_free_bit w)
step spin_count c (spin (suc left) w) m =
    (m, if m.word == mutex_free_bit then spin_take left w else spin left w)
step spin_count c (spin_take left w) m = cas m mutex_free_bit 0 critical (λ _. spin left w)
step spin_count c (add_take head w) m = cas m head 0 critical (λ met. add_loop met w)
step spin_count c (add_loop head w) m =
    if has_user_flag head
    then (m, if head == mutex_free_bit then add_take head w else asserted)
    else (link m w (get_pointer head), add_link head w)
step spin_count c (add_link head w) m =
    cas m head (add_aba (set_pointer head w)) (waiting w) (λ met. add_loop met w)
step spin_count c (waiting w) m = wait c w m
step spin_count c critical m = (m, leave c)
step spin_count c unlock m = cas m 0 mutex_free_bit idle unlock_loop
step spin_count c (unlock_loop head) m =
    if has_user_flag head
    then (m, asserted)
    else (if get_pointer head == 0
        then (m, if has_lock head then asserted else unlock_free head)
        else (
          m,
          if has_lock head then unlock_load else unlock_pop head (m.next (get_pointer head)),
        ))
step spin_count c (unlock_free head) m = cas m head mutex_free_bit idle unlock_loop
step spin_count c unlock_load m = (m, unlock_loop m.word)
step spin_count c (unlock_pop head next) m =
    cas m head (add_aba (set_pointer head next)) (unlock_notify (get_pointer head)) unlock_loop
step spin_count c (unlock_notify w) m = (notify m w, idle)
step spin_count c (removing r w) m = removed m r w
step spin_count c asserted m = (m, asserted)

-- `IsLocked`
unfoldable pub is_locked : Waiters → Bool
is_locked m = not (m.word == mutex_free_bit)
