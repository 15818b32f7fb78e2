-- ===== src/WaiterList/Tests.antt =====
-- A list of the waiters 4 and 8 for the theorems on waiter lists, and runs on it.
use crunch_concurrency.Base.{ℕ, [], ◌∷◌, refl, ◌==◌, if◌then◌else◌}
use crunch_concurrency.WaiterList.Packed.{
  IsWaiter, has_lock, get_pointer, is_waiter-IsWaiter, is_waiter,
}
use crunch_concurrency.WaiterList.Memory.{Waiters}
use crunch_concurrency.WaiterList.Chain.{Chain, IsOpen}
use crunch_concurrency.WaiterList.Remove.{Erased, remove-Erased}

abbrev pub two_links : ℕ → ℕ
two_links a = if a == 4 then 8 else 0

abbrev pub two_waiters : Waiters
two_waiters = record { word = 4; next = two_links; notified = [] }

pub four : IsWaiter 4
unfolding is_waiter
four = is_waiter-IsWaiter 4 refl

pub eight : IsWaiter 8
unfolding is_waiter
eight = is_waiter-IsWaiter 8 refl

pub twelve : IsWaiter 12
unfolding is_waiter
twelve = is_waiter-IsWaiter 12 refl

pub two_Chain : Chain two_links 4 (4 ∷ 8 ∷ [])
two_Chain = (refl, four, refl, (refl, eight, refl, refl))

pub two_IsOpen : IsOpen two_waiters (4 ∷ 8 ∷ [])
unfolding get_pointer has_lock
two_IsOpen = record { chain = two_Chain; unlocked = refl }

remove-Erased_example : (m' : Waiters) × Erased two_waiters (4 ∷ 8 ∷ []) 8 m'
remove-Erased_example = remove-Erased two_waiters (4 ∷ 8 ∷ []) 8 two_IsOpen
