-- ===== src/Atomic/Tests.antt =====
-- Atomic cells of eight bits over built-ins that do what is documented.
use crunch_concurrency.Base.{
  Bool, false, refl, ◌==◌, if◌then◌else◌, ◌+◌, ◌-◌, ◌%◌, ◌≡◌, ◌≢◌, true, arith, ℕ, ◌<◌, some, [],
  ◌∷◌, has,
}
use crunch_concurrency.Atomic.Linux.{
  atomic_swap, atomic_compare_and_swap, atomic_increment, atomic_decrement, atomic_add, atomic_sub,
  atomic_and, atomic_or, atomic_xor,
}
use crunch_concurrency.Atomic.Win32.{
  plain_intrinsics, win32_swap, win32_compare_and_swap, win32_increment, win32_decrement, win32_add,
  win32_sub, win32_and, win32_or, win32_xor, fallback_atomic_op,
}
use crunch_concurrency.Atomic.Equivalence.{linux-eq-win32, fallback-atomic, fallback-returns}
use crunch_concurrency.Atomic.Builtins.{plain}
use crunch_concurrency.Atomic.Integer.{pre_decrement, post_decrement}
use crunch_concurrency.Atomic.Laws.{decrement_operators_increment}

decrement_operators_increment_example :
    ((pre_decrement (plain 256) 5).0 ≡ 6)
    × ((post_decrement (plain 256) 5).0 ≡ 6)
    × ((5 + 1) % 256 ≢ (5 + 256 - 1) % 256)
decrement_operators_increment_example =
    decrement_operators_increment (plain 256) 5 (omega arith) (omega arith)

true_false : (v : Bool) → ((if v then 1 else 0) == 1) ≡ v
true_false true = refl
true_false false = refl

linux-eq-win32_example :
    let b = plain 256 in
    let i = plain_intrinsics 256 in
    (atomic_swap b 200 100 ≡ win32_swap i 200 100)
    × (atomic_compare_and_swap b 200 7 100 ≡ win32_compare_and_swap i 200 7 100)
    × (atomic_increment b 200 ≡ win32_increment i 200)
    × (atomic_decrement b 200 ≡ win32_decrement i 200)
    × (atomic_add b 200 100 ≡ win32_add i 200 100)
    × (atomic_sub b 200 100 ≡ win32_sub i 200 100)
    × (atomic_and b 200 100 ≡ win32_and i 200 100)
    × (atomic_or b 200 100 ≡ win32_or i 200 100)
    × (atomic_xor b 200 100 ≡ win32_xor i 200 100)
linux-eq-win32_example =
    linux-eq-win32 (plain 256) (plain_intrinsics 256) 200 100 7 (omega arith) (omega arith)
      (omega arith) (omega arith)

-- An operation on cells below 256
abbrev add_three : ℕ → ℕ
add_three x = (x + 3) % 256

add_three-small : (x : ℕ) → x < 256 → add_three x < 256
add_three-small x h = omega arith

-- The cell has changed at the first exchange, and not at the second.
fallback-atomic_example :
    let at : ℕ = 6 in (has at (6 ∷ 6 ∷ []) ≡ true) × (9 ≡ add_three at) × (at ≡ 6)
unfolding fallback_atomic_op
fallback-atomic_example =
    fallback-atomic (plain_intrinsics 256) add_three add_three-small 5 (6 ∷ 6 ∷ []) 6 9 6
      (omega arith) (omega arith, (omega arith, tt)) refl

fallback-returns_example :
    fallback_atomic_op (plain_intrinsics 256) add_three 5 (6 ∷ 6 ∷ []) ≡ some (6, add_three 6, 6)
fallback-returns_example =
    fallback-returns (plain_intrinsics 256) add_three add_three-small 5 6 [] (omega arith)
      (omega arith)
