-- ===== src/Atomic/Integer.antt =====
-- include/crunch/concurrency/atomic.hpp: `AtomicBase`, `AtomicIntegerBase` and the operators of
-- `Atomic` for integers, over the platform's operations. A value and its word have the same bits.
use crunch_concurrency.Base.{ℕ, ◌+◌, ◌-◌, ◌%◌, Bool}
use crunch_concurrency.Atomic.Builtins.{Builtins}
use crunch_concurrency.Atomic.Linux.{
  atomic_load, atomic_store, atomic_swap, atomic_compare_and_swap, atomic_increment,
  atomic_decrement, atomic_add, atomic_sub, atomic_and, atomic_or, atomic_xor,
}

unfoldable pub load : ℕ → ℕ
unfolding atomic_load
load cell = atomic_load cell

unfoldable pub store : ℕ → ℕ → ℕ
unfolding atomic_store
store cell value = atomic_store cell value

module _ {w : ℕ} (b : Builtins w) where
  unfoldable pub swap : ℕ → ℕ → ℕ × ℕ
  unfolding atomic_swap
  swap cell src = atomic_swap b cell src

  unfoldable pub compare_and_swap : ℕ → ℕ → ℕ → ℕ × ℕ × Bool
  unfolding atomic_compare_and_swap
  compare_and_swap cell cmp src = atomic_compare_and_swap b cell cmp src

  unfoldable pub increment : ℕ → ℕ × ℕ
  unfolding atomic_increment
  increment cell = atomic_increment b cell

  unfoldable pub decrement : ℕ → ℕ × ℕ
  unfolding atomic_decrement
  decrement cell = atomic_decrement b cell

  unfoldable pub add : ℕ → ℕ → ℕ × ℕ
  unfolding atomic_add
  add cell value = atomic_add b cell value

  unfoldable pub sub : ℕ → ℕ → ℕ × ℕ
  unfolding atomic_sub
  sub cell value = atomic_sub b cell value

  unfoldable pub mask_and : ℕ → ℕ → ℕ × ℕ
  unfolding atomic_and
  mask_and cell mask = atomic_and b cell mask

  unfoldable pub mask_or : ℕ → ℕ → ℕ × ℕ
  unfolding atomic_or
  mask_or cell mask = atomic_or b cell mask

  unfoldable pub mask_xor : ℕ → ℕ → ℕ × ℕ
  unfolding atomic_xor
  mask_xor cell mask = atomic_xor b cell mask

  -- `++x`: `Increment() + 1`
  unfoldable pub pre_increment : ℕ → ℕ × ℕ
  unfolding increment
  pre_increment cell = let (cell', old) = increment cell in (cell', (old + 1) % w)

  -- `x++`
  unfoldable pub post_increment : ℕ → ℕ × ℕ
  unfolding increment
  post_increment cell = increment cell

  -- `--x`: `Increment() - 1`, as it is written
  unfoldable pub pre_decrement : ℕ → ℕ × ℕ
  unfolding increment
  pre_decrement cell = let (cell', old) = increment cell in (cell', (old + w - 1) % w)

  -- `x--`: `Increment()`, as it is written
  unfoldable pub post_decrement : ℕ → ℕ × ℕ
  unfolding increment
  post_decrement cell = increment cell

  -- `x += value`: `Add(value) + value`
  unfoldable pub add_assign : ℕ → ℕ → ℕ × ℕ
  unfolding add
  add_assign cell value = let (cell', old) = add cell value in (cell', (old + value) % w)

  -- `x -= value`: `Sub(value) - value`
  unfoldable pub sub_assign : ℕ → ℕ → ℕ × ℕ
  unfolding sub
  sub_assign cell value = let (cell', old) = sub cell value in (cell', (old + w - value) % w)
