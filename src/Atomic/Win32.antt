-- ===== src/Atomic/Win32.antt =====
-- include/crunch/concurrency/platform/win32/atomic_ops_x86.hpp: the operations on a cell over the
-- intrinsics of another compiler, and for 32-bit code over its exchange alone. The overloads for the
-- sizes are one function here, over the number `w` of values of a cell.
use crunch_concurrency.Base.{
  ℕ, ◌+◌, ◌-◌, ◌%◌, ◌<◌, ◌≡◌, refl, Bool, Option, none, some, List, [], ◌∷◌, ◌==◌, if◌then◌else◌,
}
use Prim.Native.Nat.{bit_and, bit_or, bit_xor}

-- The intrinsics, each from the cell to the new cell and the result, and what is documented of them.
pub record Intrinsics (w : ℕ) : Type 0 where
  pub exchange : ℕ → ℕ → ℕ × ℕ
  pub compare_exchange : (cell new comparand : ℕ) → ℕ × ℕ
  pub interlocked_increment : ℕ → ℕ × ℕ
  pub interlocked_decrement : ℕ → ℕ × ℕ
  pub exchange_add : ℕ → ℕ → ℕ × ℕ
  pub interlocked_and : ℕ → ℕ → ℕ × ℕ
  pub interlocked_or : ℕ → ℕ → ℕ × ℕ
  pub interlocked_xor : ℕ → ℕ → ℕ × ℕ
  pub exchange_law : (c v : ℕ) → c < w → v < w → exchange c v ≡ (v, c)
  pub compare_exchange_law :
      (c v cmp : ℕ)
      → c < w
      → v < w
      → cmp < w
      → compare_exchange c v cmp ≡ (if c == cmp then v else c, c)
  pub increment_law : (c : ℕ) → c < w → interlocked_increment c ≡ ((c + 1) % w, (c + 1) % w)
  pub decrement_law : (c : ℕ) → c < w → interlocked_decrement c ≡ ((c + w - 1) % w, (c + w - 1) % w)
  pub add_law : (c v : ℕ) → c < w → v < w → exchange_add c v ≡ ((c + v) % w, c)
  pub and_law : (c v : ℕ) → c < w → v < w → interlocked_and c v ≡ (bit_and c v, c)
  pub or_law : (c v : ℕ) → c < w → v < w → interlocked_or c v ≡ (bit_or c v, c)
  pub xor_law : (c v : ℕ) → c < w → v < w → interlocked_xor c v ≡ (bit_xor c v, c)

abbrev pub plain_intrinsics : (w : ℕ) → Intrinsics w
plain_intrinsics w = record {
  exchange = λ c v. (v, c);
  compare_exchange = λ c v cmp. (if c == cmp then v else c, c);
  interlocked_increment = λ c. ((c + 1) % w, (c + 1) % w);
  interlocked_decrement = λ c. ((c + w - 1) % w, (c + w - 1) % w);
  exchange_add = λ c v. ((c + v) % w, c);
  interlocked_and = λ c v. (bit_and c v, c);
  interlocked_or = λ c v. (bit_or c v, c);
  interlocked_xor = λ c v. (bit_xor c v, c);
  exchange_law = λ c v _ _. refl;
  compare_exchange_law = λ c v cmp _ _ _. refl;
  increment_law = λ c _. refl;
  decrement_law = λ c _. refl;
  add_law = λ c v _ _. refl;
  and_law = λ c v _ _. refl;
  or_law = λ c v _ _. refl;
  xor_law = λ c v _ _. refl;
}

-- `AtomicLoad`, and `AtomicStore` with the new cell
unfoldable pub win32_load : ℕ → ℕ
win32_load src = src

unfoldable pub win32_store : ℕ → ℕ → ℕ
win32_store dst src = src

module _ {w : ℕ} (i : Intrinsics w) where
  unfoldable pub win32_swap : ℕ → ℕ → ℕ × ℕ
  win32_swap dst src = i.exchange dst src

  -- The new cell, the new value of `cmp` and the result.
  unfoldable pub win32_compare_and_swap : ℕ → ℕ → ℕ → ℕ × ℕ × Bool
  win32_compare_and_swap dst cmp src =
      let (dst', old) = i.compare_exchange dst src cmp in (dst', old, cmp == old)

  -- The intrinsic returns the new value, and the operation the old one.
  unfoldable pub win32_increment : ℕ → ℕ × ℕ
  win32_increment addend = let (c, new) = i.interlocked_increment addend in (c, (new + w - 1) % w)

  unfoldable pub win32_decrement : ℕ → ℕ × ℕ
  win32_decrement addend = let (c, new) = i.interlocked_decrement addend in (c, (new + 1) % w)

  unfoldable pub win32_add : ℕ → ℕ → ℕ × ℕ
  win32_add addend value = i.exchange_add addend value

  -- `-value`, modulo `w`
  unfoldable pub win32_sub : ℕ → ℕ → ℕ × ℕ
  win32_sub addend value = i.exchange_add addend ((w - value) % w)

  unfoldable pub win32_and : ℕ → ℕ → ℕ × ℕ
  win32_and value mask = i.interlocked_and value mask

  unfoldable pub win32_or : ℕ → ℕ → ℕ × ℕ
  win32_or value mask = i.interlocked_or value mask

  unfoldable pub win32_xor : ℕ → ℕ → ℕ × ℕ
  win32_xor value mask = i.interlocked_xor value mask

  -- `FallbackAtomicOp`: `met` has the values that the cell holds when its exchanges come, one after
  -- another, as other threads leave it. `none` says that the loop goes on after the last of them; else
  -- the value of the cell at the exchange that succeeds, the new cell and the result.
  unfoldable pub fallback_atomic_op : (op : ℕ → ℕ) (old : ℕ) (met : List ℕ) → Option (ℕ × ℕ × ℕ)
  fallback_atomic_op op old [] = none
  fallback_atomic_op op old (cell ∷ met) =
      let (cell', current) = i.compare_exchange cell (op old) old in
      let rest = fallback_atomic_op op current met in
      if current == old then some (cell, cell', old) else rest
