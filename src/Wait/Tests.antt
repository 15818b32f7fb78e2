-- ===== src/Wait/Tests.antt =====
-- Waits for the waitables 3, 1 and 2.
use crunch_concurrency.Base.{
  ℕ, ◌≡◌, refl, Bool, true, List, [], ◌∷◌, ◌==◌, some, none, if◌then◌else◌,
}
use crunch_concurrency.Wait.Steps.{wait_for_all_impl}
use crunch_concurrency.Wait.All.{adds, adds_misses_last}
use crunch_concurrency.Wait.Context.{Reply, Wait, waits}
use crunch_concurrency.Wait.Returns.{waits-returns}

abbrev three : List ℕ
three = 3 ∷ 1 ∷ 2 ∷ []

abbrev always : ℕ → Bool
always _ = true

abbrev only_two : ℕ → Bool
only_two w = w == 2

adds_misses_last_example : adds (wait_for_all_impl only_two always (2 ∷ 3 ∷ 1 ∷ [])) ≡ 2 ∷ 3 ∷ []
adds_misses_last_example = adds_misses_last only_two always 2 1 (3 ∷ []) refl (refl, tt) refl

-- 0 replies at once, every other call has its waiter notified.
abbrev notified_later : ℕ → Reply
notified_later i = if i == 0 then Reply.at_once else Reply.notified

-- Only the waiter of the third call is notified.
abbrev third_notified : ℕ → Reply
third_notified i = if i == 2 then Reply.notified else Reply.silent

abbrev three_waits : List Wait
three_waits =
    Wait.waits_one Reply.notified 7
    ∷ Wait.waits_any third_notified three
    ∷ Wait.waits_all only_two notified_later three
    ∷ []

waits-returns_example : waits three_waits (some 0) ≡ some (some 0)
waits-returns_example = waits-returns three_waits (some 0) refl

-- `WaitForAll` of the mutex 1 and the event 2, both free to take. `WaitFor` takes the mutex, the first
-- call; the second adds a waiter to the mutex again, which is not notified while the thread waits.
abbrev only_one : ℕ → Bool
only_one w = w == 1

abbrev mutex_taken : ℕ → Reply
mutex_taken i = if i == 0 then Reply.at_once else Reply.silent

mutex_and_event-adds : adds (wait_for_all_impl only_one always (1 ∷ 2 ∷ [])) ≡ 1 ∷ []
unfolding wait_for_all_impl
mutex_and_event-adds = refl

mutex_and_event-blocks :
    waits (Wait.waits_all only_one mutex_taken (1 ∷ 2 ∷ []) ∷ []) (some 0) ≡ none
mutex_and_event-blocks =
    waits-returns (Wait.waits_all only_one mutex_taken (1 ∷ 2 ∷ []) ∷ []) (some 0) refl
