-- ===== src/Event/Tests.antt =====
-- Runs of the event: a waiter that is added, `Set` and a late waiter; an event with two waiters; and
-- an event whose list is locked.
use crunch_concurrency.Base.{ℕ, List, [], ◌∷◌, ◌≡◌, refl, true, false, arith, inr}
use crunch_concurrency.Base.Machine.{System, Each, turn, run, Reaches}
use crunch_concurrency.WaiterList.Packed.{
  is_waiter, has_user_flag, has_lock, add_aba, set_pointer, get_pointer, with_lock, without_lock,
  with_user_flag,
}
use crunch_concurrency.WaiterList.Memory.{Waiters}
use crunch_concurrency.WaiterList.Tests.{two_waiters, two_IsOpen}
use crunch_concurrency.Event.Steps.{
  Pc, added, set_load, set_loop, set_done, Choice, init, start, step, is_set,
}
use crunch_concurrency.Event.Monotone.{IsNotReset, after, answered-is_set}
use crunch_concurrency.Event.Alone.{Shows, set_alone}
use crunch_concurrency.Event.Stuck.{set_never_returns}

-- Thread 0 adds a waiter to an event that is not set, thread 1 sets the event, thread 2 adds a waiter.
abbrev late : List (ℕ × Choice)
late =
    (0, Choice.adds 4)
    ∷ (0, Choice.goes_on)
    ∷ (0, Choice.goes_on)
    ∷ (0, Choice.goes_on)
    ∷ (1, Choice.sets)
    ∷ (1, Choice.goes_on)
    ∷ (1, Choice.goes_on)
    ∷ (1, Choice.goes_on)
    ∷ (1, Choice.goes_on)
    ∷ (1, Choice.goes_on)
    ∷ (1, Choice.goes_on)
    ∷ (2, Choice.adds 8)
    ∷ (2, Choice.goes_on)
    ∷ (2, Choice.goes_on)
    ∷ []

late_quiet : Each IsNotReset late
late_quiet = ground arith

late_set : (after false 3 late late_quiet).pc 1 ≡ set_done
unfolding run turn step start init is_waiter has_user_flag has_lock add_aba set_pointer get_pointer
    with_lock without_lock with_user_flag
late_set = refl

late_refused : (after false 3 late late_quiet).pc 2 ≡ added false
unfolding run turn step start init is_waiter has_user_flag has_lock add_aba set_pointer get_pointer
    with_lock without_lock with_user_flag
late_refused = refl

answered-is_set_example : is_set (after false 3 late late_quiet).mem ≡ true
answered-is_set_example = answered-is_set false 3 late late_quiet 2 (inr late_refused)

-- A third waiter is added to an event that was set from the start.
abbrev more : List (ℕ × Choice)
more = (0, Choice.adds 4) ∷ (0, Choice.goes_on) ∷ (0, Choice.goes_on) ∷ []

more_quiet : Each IsNotReset more
more_quiet = ground arith

initially_set : is_set (after true 1 more more_quiet).mem ≡ true
unfolding is_set run turn step start init is_waiter has_user_flag
initially_set = refl

two_Shows : Shows two_waiters false (4 ∷ 8 ∷ [])
unfolding is_set has_user_flag
two_Shows = record { opens = two_IsOpen; flag = refl }

set_alone_example :
    (m' : Waiters) × Reaches (step Choice.goes_on) (two_waiters, set_load) (m', set_done)
    × Shows m' true []
    × (m'.notified ≡ 4 ∷ 8 ∷ [])
set_alone_example = set_alone Choice.goes_on two_waiters (4 ∷ 8 ∷ []) two_Shows

-- Thread 0 is about to load the word of a list that another call has locked.
abbrev locked_list : System Waiters Pc
locked_list = record { mem = record two_waiters { word = 6 }; pc = λ _. set_load }

set_never_returns_example :
    (run step 2 (turn step 2 locked_list (0, Choice.goes_on)) late).pc 0 ≡ set_loop 6
unfolding has_user_flag has_lock
set_never_returns_example =
    set_never_returns 2 locked_list 0 Choice.goes_on late (omega arith) refl refl refl
