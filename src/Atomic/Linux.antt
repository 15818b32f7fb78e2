-- ===== src/Atomic/Linux.antt =====
-- include/crunch/concurrency/platform/linux/atomic_ops_x86.hpp: the operations on a cell. The
-- overloads for the sizes are one function here, over the number `w` of values of a cell.
use crunch_concurrency.Base.{ℕ, Bool, ◌==◌}
use crunch_concurrency.Atomic.Builtins.{Builtins}

-- `AtomicLoad` on x86-64
unfoldable pub atomic_load : ℕ → ℕ
atomic_load src = src

-- `AtomicStore` on x86-64: the new cell
unfoldable pub atomic_store : ℕ → ℕ → ℕ
atomic_store dst src = src

module _ {w : ℕ} (b : Builtins w) where
  unfoldable pub atomic_swap : ℕ → ℕ → ℕ × ℕ
  atomic_swap dst src = b.lock_test_and_set dst src

  -- The new cell, the new value of `cmp` and the result.
  unfoldable pub atomic_compare_and_swap : ℕ → ℕ → ℕ → ℕ × ℕ × Bool
  atomic_compare_and_swap dst cmp src =
      let (dst', old) = b.val_compare_and_swap dst cmp src in (dst', old, old == cmp)

  unfoldable pub atomic_increment : ℕ → ℕ × ℕ
  atomic_increment addend = b.fetch_and_add addend 1

  unfoldable pub atomic_decrement : ℕ → ℕ × ℕ
  atomic_decrement addend = b.fetch_and_sub addend 1

  unfoldable pub atomic_add : ℕ → ℕ → ℕ × ℕ
  atomic_add addend value = b.fetch_and_add addend value

  unfoldable pub atomic_sub : ℕ → ℕ → ℕ × ℕ
  atomic_sub addend value = b.fetch_and_sub addend value

  unfoldable pub atomic_and : ℕ → ℕ → ℕ × ℕ
  atomic_and value mask = b.fetch_and_and value mask

  unfoldable pub atomic_or : ℕ → ℕ → ℕ × ℕ
  atomic_or value mask = b.fetch_and_or value mask

  unfoldable pub atomic_xor : ℕ → ℕ → ℕ × ℕ
  atomic_xor value mask = b.fetch_and_xor value mask
