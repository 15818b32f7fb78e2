-- ===== src/Event/Steps.antt =====
-- source/event.cpp, an access of shared memory at a time. The log of the memory holds every
-- notification made.
use crunch_concurrency.Base.{ℕ, [], Bool, true, false, ◌==◌, if◌then◌else◌}
use crunch_concurrency.WaiterList.Packed.{
  user_flag_bit, get_pointer, set_pointer, add_aba, has_lock, has_user_flag, is_waiter, with_lock,
  with_user_flag, without_user_flag,
}
use crunch_concurrency.WaiterList.Memory.{Waiters, cas, link, notify, unlock}
use crunch_concurrency.WaiterList.Remove.{Remove, remove_step}

-- EVENT_SET_BIT
abbrev pub event_set_bit : ℕ
event_set_bit = user_flag_bit

-- `Event::Event`
unfoldable pub init : Bool → Waiters
init initial_state = record {
  word = if initial_state then event_set_bit else 0;
  next = λ _. 0;
  notified = [];
}

-- Where a thread stands, with its locals.
pub data Pc : Type 0 where
  idle : Pc
  add_load : (waiter : ℕ) → Pc  -- `AddWaiter`
  add_loop : (head waiter : ℕ) → Pc
  add_link : (head waiter : ℕ) → Pc  -- `waiter->next` is set: before the compare-and-swap
  added : (answer : Bool) → Pc  -- `AddWaiter` has returned
  set_load : Pc  -- `Set`
  set_loop : (head : ℕ) → Pc
  set_flag : (head : ℕ) → Pc  -- no waiter: before the compare-and-swap that sets the bit
  set_lock : (head : ℕ) → Pc  -- before the compare-and-swap that takes the whole list
  set_notify : (cur : ℕ) → Pc  -- in `NotifyAllWaiters`
  set_unlock : Pc
  set_done : Pc  -- `Set` has returned
  reset : Pc  -- `Reset`
  removing : (call : Remove) → Pc

-- The calls that a thread may make.
pub data Choice : Type 0 where
  adds removes : (waiter : ℕ) → Choice
  sets resets goes_on : Choice

unfoldable pub start : Choice → Pc
start (adds w) = if is_waiter w then add_load w else idle
start (removes w) = removing (Remove.load w)
start sets = set_load
start resets = reset
start goes_on = idle

-- `((head & ~PTR_MASK) | LOCK_BIT | EVENT_SET_BIT) + ABA_ADDEND`
abbrev pub locked_head : ℕ → ℕ
locked_head head = add_aba (with_user_flag (with_lock (set_pointer head 0)))

-- One step of a thread. After a call has returned the thread may make another.
unfoldable pub step : Choice → Pc → Waiters → Waiters × Pc
step c idle m = (m, start c)
step c (add_load w) m = (m, add_loop m.word w)
step c (add_loop head w) m =
    if has_user_flag head then (m, added false) else (link m w (get_pointer head), add_link head w)
step c (add_link head w) m =
    cas m head (add_aba (set_pointer head w)) (added true) (λ met. add_loop met w)
step c (added answer) m = (m, start c)
step c set_load m = (m, set_loop m.word)
step c (set_loop head) m =
    if has_user_flag head
    then (m, set_done)
    else (if has_lock head
        then (m, set_loop head)
        else (m, if get_pointer head == 0 then set_flag head else set_lock head))
step c (set_flag head) m = cas m head (add_aba (with_user_flag head)) set_done set_loop
step c (set_lock head) m = cas m head (locked_head head) (set_notify (get_pointer head)) set_loop
step c (set_notify cur) m =
    if cur == 0 then (m, set_unlock) else (notify m cur, set_notify (m.next cur))
step c set_unlock m = (unlock m, set_done)
step c set_done m = (m, start c)
step c reset m = (record m { word = without_user_flag m.word }, idle)
step c (removing (Remove.done answer)) m = (m, start c)
step c (removing r) m = let (m', r') = remove_step r m in (m', removing r')

-- `IsSet`
unfoldable pub is_set : Waiters → Bool
is_set m = has_user_flag m.word

-- `IsOrderDependent`, of events
unfoldable pub is_order_dependent : Bool
is_order_dependent = false
