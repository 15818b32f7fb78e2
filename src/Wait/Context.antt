-- ===== src/Wait/Context.antt =====
-- source/meta_scheduler.cpp: `WaitFor`, `WaitForAll` and `WaitForAny`, which wait on the semaphore of the
-- context of the thread or, without a context, on one of their own. What becomes of each waiter that they
-- add depends on other threads, and is a parameter, by the number of the call of `AddWaiter`.
use crunch_concurrency.Base.{
  ℕ, suc, ◌+◌, ◌-◌, Bool, true, false, not, Option, none, some, ◌>>=◌, List, [], ◌∷◌, length, bit,
  leb, if◌then◌else◌, take,
}
use crunch_concurrency.Wait.Steps.{
  Action, spin_wait, wait_for_impl, wait_for_any_impl, sort, select, count_added,
}
use crunch_concurrency.Wait.Any.{posted}

-- What comes of a call of `AddWaiter`: it answers false; or it answers true and the waiter is notified
-- and posts; or it answers true and the waiter is never notified.
pub data Reply : Type 0 where
  at_once notified silent : Reply

abbrev pub is_added : Reply → Bool
is_added at_once = false
is_added notified = true
is_added silent = true

abbrev pub is_posted : Reply → Bool
is_posted at_once = false
is_posted notified = true
is_posted silent = false

abbrev pub is_silent : Reply → Bool
is_silent at_once = false
is_silent notified = false
is_silent silent = true

-- The same of the calls by their numbers
abbrev pub added_in : (replies : ℕ → Reply) → ℕ → Bool
added_in replies i = is_added (replies i)

abbrev pub posted_in : (replies : ℕ → Reply) → ℕ → Bool
posted_in replies i = is_posted (replies i)

abbrev pub silent_in : (replies : ℕ → Reply) → ℕ → Bool
silent_in replies i = is_silent (replies i)

-- The count of the semaphore after a call whose waiters post and which waits; `none` where it does not
-- return.
unfoldable pub settle : (posts waits count : ℕ) → Option ℕ
settle posts waits count = if leb waits (count + posts) then some (count + posts - waits) else none

-- `tCurrentContext`, where there is one as the count of its `mWaitSemaphore`
abbrev pub Current : Type 0
Current = Option ℕ

unfoldable pub on_semaphore : (posts waits : ℕ) → Current → Option Current
unfolding settle
on_semaphore posts waits (some count) = do count' ← settle posts waits count; some (some count')
on_semaphore posts waits none = do count' ← settle posts waits 0; some none

-- The calls of `SpinWait`
unfoldable pub spins : List Action → ℕ
spins [] = 0
spins (spin_wait ∷ made) = suc (spins made)
spins (_ ∷ made) = spins made

-- `WaitFor`, and `ContextImpl::WaitFor`
unfoldable pub wait_one : Reply → (waitable : ℕ) → Current → Option Current
unfolding wait_for_impl spins on_semaphore
wait_one reply waitable c =
    on_semaphore (bit (is_posted reply)) (spins (wait_for_impl (λ w. is_added reply) waitable)) c

-- The numbers of the calls of `AddWaiter` for a list of waitables, the first of which has the number `k`
unfoldable pub numbers : (k : ℕ) → List ℕ → List ℕ
numbers k [] = []
numbers k (w ∷ ws) = k ∷ numbers (suc k) ws

module _ (replies : ℕ → Reply) where
  -- The waitables that depend on an order, one `WaitFor` at a time
  unfoldable pub wait_each : (k : ℕ) → List ℕ → Current → Option Current
  unfolding wait_one
  wait_each k [] c = some c
  wait_each k (w ∷ ws) c = wait_one (replies k) w c >>= wait_each (suc k) ws

  -- A waiter for each waitable, and then one wait for each that was added
  unfoldable pub wait_added : (k : ℕ) → List ℕ → Current → Option Current
  unfolding numbers select count_added on_semaphore
  wait_added k ws c =
      let called = numbers k ws in
      on_semaphore (length (select (posted_in replies) called))
        (count_added (added_in replies) called) c

-- `WaitForAll`, and `ContextImpl::WaitForAll`: the second loop takes `waitables[i]`.
unfoldable pub wait_all :
    (ordered : ℕ → Bool) → (replies : ℕ → Reply) → List ℕ → Current → Option Current
unfolding wait_each wait_added sort select
wait_all ordered replies waitables c =
    let first = sort (select ordered waitables) in
    let second = take (length (select (λ w. not (ordered w)) waitables)) waitables in
    wait_each replies 0 first c >>= wait_added replies (length first) second

-- `WaitForAny`, and `ContextImpl::WaitForAny`; `RemoveWaiter` finds the waiters that are never notified.
unfoldable pub wait_any : (replies : ℕ → Reply) → List ℕ → Current → Option Current
unfolding on_semaphore numbers wait_for_any_impl
wait_any replies waitables c =
    let called = numbers 0 waitables in
    on_semaphore (length (posted (added_in replies) (silent_in replies) called))
      (wait_for_any_impl (added_in replies) (silent_in replies) called).waits c

pub data Wait : Type 0 where
  waits_one : Reply → (waitable : ℕ) → Wait
  waits_all : (ordered : ℕ → Bool) → (replies : ℕ → Reply) → (waitables : List ℕ) → Wait
  waits_any : (replies : ℕ → Reply) → (waitables : List ℕ) → Wait

-- The waits of a thread; `none` where one of them does not return.
unfoldable pub waits : List Wait → Current → Option Current
unfolding wait_one wait_all wait_any
waits [] c = some c
waits (waits_one reply waitable ∷ ws) c = wait_one reply waitable c >>= waits ws
waits (waits_all ordered replies waitables ∷ ws) c =
    wait_all ordered replies waitables c >>= waits ws
waits (waits_any replies waitables ∷ ws) c = wait_any replies waitables c >>= waits ws
