-- ===== src/LifoList.antt =====
-- include/crunch/concurrency/mpmc_lifo_list.hpp (the 64-bit branch): `MPMCLifoList` as a machine of
-- atomic steps. The root packs a pointer of 48 bits with a counter above it.
pub mod Alone
pub mod History
pub mod Aba
pub mod Steps
pub mod Turns
pub mod Schedules
mod Tests
use crunch_concurrency.Base.{ℕ, ◌+◌, ◌*◌, ◌/◌, ◌%◌, ◌^◌, ◌==◌, if◌then◌else◌}
use crunch_concurrency.Base.Machine.{update}

-- `mRoot` (`uint64_t`) and the link of each node.
pub record Memory : Type 0 where
  pub root : ℕ
  pub next : ℕ → ℕ

unfoldable pub init : Memory
init = record { root = 0; next = λ _. 0 }

-- `x & PTR_MASK`
unfoldable pub root_pointer : ℕ → ℕ
root_pointer w = w % 2 ^ 48

-- `x & ABA_MASK`
unfoldable pub root_counter : ℕ → ℕ
root_counter w = w / 2 ^ 48 * 2 ^ 48

pub data Pc : Type 0 where
  push : (node : ℕ) → Pc  -- `Push`: before the load
  push_loop : (old_root node : ℕ) → Pc  -- before `SetNext`
  push_swap : (old_root node : ℕ) → Pc  -- before the compare-and-swap
  pushed : Pc  -- `Push` has returned
  pop : Pc  -- `Pop`: before the load
  pop_loop : (old_root : ℕ) → Pc  -- before `GetNext`
  pop_swap : (old_root next : ℕ) → Pc  -- before the compare-and-swap
  popped : (node : ℕ) → Pc  -- `Pop` has returned; 0 is `nullptr`

-- One step of a thread.
unfoldable pub step : Pc → Memory → Memory × Pc
step (push node) m = (m, push_loop m.root node)
step (push_loop old_root node) m =
    (record m { next = update m.next node (root_pointer old_root) }, push_swap old_root node)
step (push_swap old_root node) m =
    if m.root == old_root
    then (record m { root = ((node + 2 ^ 48) % 2 ^ 64 + root_counter old_root) % 2 ^ 64 }, pushed)
    else (m, push_loop m.root node)
step pushed m = (m, pushed)
step pop m = (m, pop_loop m.root)
step (pop_loop old_root) m =
    if root_pointer old_root == 0
    then (m, popped 0)
    else (m, pop_swap old_root (m.next (root_pointer old_root)))
step (pop_swap old_root next) m =
    if m.root == old_root
    then (
      record m { root = (next + root_counter old_root + 2 ^ 48) % 2 ^ 64 },
      popped (root_pointer old_root),
    )
    else (m, pop_loop m.root)
step (popped node) m = (m, popped node)
