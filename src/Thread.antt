-- ===== src/Thread.antt =====
-- include/crunch/concurrency/thread.hpp, source/thread.cpp, source/thread_data.hpp, source/thread_data.cpp
-- and source/platform/linux/thread.cpp: threads and their cancellation. A handle and the thread that it
-- stands for share an object of type `Data`; `heap` has the objects by their addresses.
pub mod Id
pub mod Cancellation
pub mod Handle
mod Tests
use crunch_concurrency.Base.{ℕ, Bool, true, false, not, ◌&&◌, Option, none, some, if◌then◌else◌}
use crunch_concurrency.Base.Machine.{update}

-- `Thread::Data`; `id` is `none` where it is not set, and `has_self` says that `self` keeps the object
-- alive.
pub record Data : Type 0 where
  pub has_self : Bool
  pub id : Option ℕ
  pub cancellation_requested : Bool
  pub cancellation_enabled : Bool
  pub canceled : Bool

unfoldable pub new_data : Data
new_data = record {
  has_self = false;
  id = none;
  cancellation_requested = false;
  cancellation_enabled = true;
  canceled = false;
}

abbrev pub Heap : Type 0
Heap = ℕ → Data

-- `mData` of a `Thread`, and `tCurrent`: the null pointer is `none`.
abbrev pub Pointer : Type 0
Pointer = Option ℕ

-- `Thread::Create` with a new object at `p`: `created` is the id that `pthread_create` gives, or `none`
-- where it fails; then `ThreadResourceError` is thrown, which is the `true`.
unfoldable pub create : (p : ℕ) (created : Option ℕ) → Heap → Heap × Pointer × Bool
unfolding new_data
create p none h = (update h p new_data, none, true)
create p (some id) h =
    (update h p (record new_data { has_self = true; id = some id }), some p, false)

-- `Thread::IsJoinable`
unfoldable pub is_joinable : Pointer → Bool
is_joinable none = false
is_joinable (some _) = true

-- `Thread::Cancel`
unfoldable pub cancel : Pointer → Heap → Heap
cancel none h = h
cancel (some p) h = update h p (record (h p) { cancellation_requested = true })

-- `Thread::IsCancellationRequested`
unfoldable pub is_cancellation_requested : Pointer → Heap → Bool
is_cancellation_requested none h = false
is_cancellation_requested (some p) h = (h p).cancellation_requested && not (h p).canceled

-- `Thread::GetId`
unfoldable pub get_id : Pointer → Heap → Option ℕ
get_id none h = none
get_id (some p) h = (h p).id

-- `SetThreadCancellationPolicy`, of the thread whose object `tCurrent` points to
unfoldable pub set_policy : Bool → Pointer → Heap → Heap
set_policy enable none h = h
set_policy enable (some p) h = update h p (record (h p) { cancellation_enabled = enable })

-- `ThreadCancellationPoint`: whether it throws `ThreadCanceled`
unfoldable pub cancellation_point : Pointer → Heap → Heap × Bool
cancellation_point none h = (h, false)
cancellation_point (some p) h =
    if (h p).cancellation_requested && not (h p).canceled
    then (update h p (record (h p) { canceled = true }), true)
    else (h, false)

-- `IsThreadCancellationEnabled` and `IsThreadCancellationRequested`
unfoldable pub is_enabled : Pointer → Heap → Bool
is_enabled none h = false
is_enabled (some p) h = (h p).cancellation_enabled

unfoldable pub is_requested : Pointer → Heap → Bool
is_requested none h = false
is_requested (some p) h = (h p).cancellation_requested

-- What a call of `pthread_join` or `pthread_detach` is for.
pub data Effect : Type 0 where
  joins detaches : (id : Option ℕ) → Effect
  nothing : Effect

-- `Thread::Detach`: the handle after it
unfoldable pub detach : Pointer → Heap → Pointer × Effect
detach none h = (none, nothing)
detach (some p) h = (none, detaches (h p).id)

-- `Thread::Join`, called by the thread with `current`: where its cancellation point throws, the handle
-- stays as it is.
unfoldable pub join : (current self : Pointer) → Heap → Heap × Pointer × Effect × Bool
unfolding cancellation_point
join current self h =
    let (h', thrown) = cancellation_point current h in
    if thrown then (h', self, nothing, true) else elim self [
      | none ↦ (h', none, nothing, false)
      | some p ↦ (h', none, joins (h' p).id, false)
    ]

-- `Thread::~Thread`
unfoldable pub destroy : Pointer → Heap → Heap × Effect
unfolding is_joinable cancel detach
destroy self h =
    if is_joinable self then (cancel self h, (detach self (cancel self h)).1) else (h, nothing)

-- `Thread(Thread&&)` and `operator=(Thread&&)`: the new handle, and what is left in the old one
unfoldable pub move : Pointer → Pointer × Pointer
move rhs = (rhs, none)

unfoldable pub move_assign : (lhs rhs : Pointer) → Pointer × Pointer
move_assign lhs rhs = (rhs, none)

-- `ScopedThreadCancellationPolicy`: the constructor, with `mPreviousState`, and the destructor
unfoldable pub enter_policy : Bool → Pointer → Heap → Heap × Bool
unfolding set_policy is_enabled
enter_policy enable current h = (set_policy enable current h, is_enabled current h)

unfoldable pub leave_policy : (previous : Bool) → Pointer → Heap → Heap
unfolding set_policy
leave_policy previous current h = set_policy previous current h
