-- ===== src/Mutex/Tests.antt =====
-- Runs of the mutex: two threads of which the second waits, and a held mutex with two waiters.
use crunch_concurrency.Base.{ℕ, List, [], ◌∷◌, ◌++◌, ◌≡◌, refl, arith}
use crunch_concurrency.Base.Machine.{turn, run}
use crunch_concurrency.WaiterList.Packed.{is_waiter, has_user_flag}
use crunch_concurrency.WaiterList.Memory.{Waiters}
use crunch_concurrency.WaiterList.Tests.{two_waiters, two_IsOpen}
use crunch_concurrency.Mutex.Steps.{critical, idle, unlock, Choice, step}
use crunch_concurrency.Mutex.Exclusion.{start, mutual_exclusion}
use crunch_concurrency.Mutex.Alone.{Shows, held, IsHeld, view_unlock, Runs, unlock_alone}

-- Thread 0 locks, thread 1 asks for the mutex and waits.
abbrev contended : List (ℕ × Choice)
contended =
    (0, Choice.locks 4)
    ∷ (0, Choice.goes_on)
    ∷ (1, Choice.locks 8)
    ∷ (1, Choice.goes_on)
    ∷ (1, Choice.goes_on)
    ∷ (1, Choice.goes_on)
    ∷ []

contended_critical : (run (step 1) 2 start contended).pc 0 ≡ critical
unfolding run turn step is_waiter
contended_critical = refl

abbrev holder : ℕ
holder = 0

mutual_exclusion_example : holder ≡ holder
mutual_exclusion_example =
    mutual_exclusion 2 1 contended holder holder (omega arith) (omega arith) contended_critical
      contended_critical

two_waiters-IsHeld : IsHeld two_waiters (4 ∷ 8 ∷ [])
unfolding has_user_flag
two_waiters-IsHeld = record { opens = two_IsOpen; taken = refl }

unlock_alone_example :
    (m' : Waiters) × Runs 1 Choice.goes_on two_waiters unlock m' idle
    × Shows m' (view_unlock (held (4 ∷ 8 ∷ []))).0
    × (m'.notified ≡ [] ++ (view_unlock (held (4 ∷ 8 ∷ []))).1)
unlock_alone_example = unlock_alone 1 Choice.goes_on two_waiters (4 ∷ 8 ∷ []) two_waiters-IsHeld
