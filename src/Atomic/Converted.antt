-- ===== src/Atomic/Converted.antt =====
-- include/crunch/concurrency/atomic.hpp: `AtomicBase` and `AtomicIntegerBase` for a type whose values
-- are kept in a word, which is converted through a union.
use crunch_concurrency.Base.{ℕ, ◌<◌, ◌≡◌, arith, Bool, true}
use crunch_concurrency.Atomic.Builtins.{Builtins}
use crunch_concurrency.Atomic.Linux.{
  atomic_load, atomic_store, atomic_swap, atomic_compare_and_swap,
}

-- `Converter`: a union of the word and the value. What the compiler makes of a value of the type is
-- given by the reader; every value is read back from its bits.
pub record Converter (w : ℕ) (V : Type 0) : Type 0 where
  pub bits : V → ℕ
  pub value : ℕ → V
  pub value-bits : (v : V) → value (bits v) ≡ v
  pub small : (v : V) → bits v < w

module _ {w : ℕ} {V : Type 0} (b : Builtins w) (c : Converter w V) where
  -- `Store`: the new cell
  unfoldable pub store_value : ℕ → V → ℕ
  unfolding atomic_store
  store_value cell v = atomic_store cell (c.bits v)

  -- `Load`
  unfoldable pub load_value : ℕ → V
  unfolding atomic_load
  load_value cell = c.value (atomic_load cell)

  -- `Swap`: the new cell, and the result
  unfoldable pub swap_value : ℕ → V → ℕ × V
  unfolding atomic_swap
  swap_value cell v = let (cell', old) = atomic_swap b cell (c.bits v) in (cell', c.value old)

  -- `CompareAndSwap(ValueType&, ValueType)`: the new cell, the new `cmp` and the result
  unfoldable pub compare_and_swap_value : ℕ → V → V → ℕ × V × Bool
  unfolding atomic_compare_and_swap
  compare_and_swap_value cell cmp src =
      let (cell', old, result) = atomic_compare_and_swap b cell (c.bits cmp) (c.bits src) in
      (cell', c.value old, result)

  -- `CompareAndSwap(WordType&, ValueType)`
  unfoldable pub compare_and_swap_word : ℕ → ℕ → V → ℕ × ℕ × Bool
  unfolding atomic_compare_and_swap
  compare_and_swap_word cell cmp src = atomic_compare_and_swap b cell cmp (c.bits src)

  -- `Increment` and `Decrement`, over the operation of the platform
  unfoldable pub convert_one : (ℕ → ℕ × ℕ) → ℕ → ℕ × V
  convert_one op cell = let (cell', old) = op cell in (cell', c.value old)

  -- `Add`, `Sub`, `And`, `Or` and `Xor`, over the operation of the platform
  unfoldable pub convert_two : (ℕ → ℕ → ℕ × ℕ) → ℕ → V → ℕ × V
  convert_two op cell v = let (cell', old) = op cell (c.bits v) in (cell', c.value old)

  -- After `Store(old)`, a retry loop that loads and exchanges ends in its first round: `Load` gives
  -- `old` back, `CompareAndSwap(old, new)` succeeds and leaves `new` in the cell, and `Swap` then
  -- returns `new`.
  pub store-exchange :
      (cell : ℕ) (old new next : V)
      → let stored = store_value cell old in
        let (cell', met, won) = compare_and_swap_value stored (load_value stored) new in
        (met ≡ old) × (won ≡ true) × (load_value cell' ≡ new) × ((swap_value cell' next).1 ≡ new)
  unfolding store_value load_value swap_value compare_and_swap_value
  store-exchange cell old new next = rw (c.value-bits old) (
      rw
        (b.cas_law (c.bits old) (c.bits old) (c.bits new) (c.small old) (c.small old) (c.small new))
        (ground (
          arith,
          c.value-bits old,
          c.value-bits new,
          b.swap_law (c.bits new) (c.bits next) (c.small new) (c.small next),
        )))
