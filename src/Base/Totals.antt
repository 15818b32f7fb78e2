-- ===== src/Base/Totals.antt =====
-- Sums of weights over the threads of a machine.
use Prim.Native.Nat.{ℕ, zero, suc, ◌+◌, ◌-◌, ◌≤◌, ◌<◌}
use mathlib.Core.Path.{◌≡◌, refl}
use mathlib.Core.Bool.{false}
use native.Mathlib.Omega.{arith}
use crunch_concurrency.Base.Tests.{◌==◌}
use crunch_concurrency.Base.Machine.{total, total-update, le-total, update}

module _ {P : Type 0} where
  -- Where one weight is at most another on every thread, so are the sums.
  pub total-le :
      (v w : P → ℕ) (n : ℕ) (pc : ℕ → P) → ((p : P) → v p ≤ w p) → total v n pc ≤ total w n pc
  unfolding total
  total-le v w zero pc h = omega arith
  total-le v w (suc n) pc h = omega (arith, h (pc n), total-le v w n pc h)

  pub total-add :
      (v w : P → ℕ) (n : ℕ) (pc : ℕ → P) → total (λ p. v p + w p) n pc ≡ total v n pc + total w n pc
  unfolding total
  total-add v w zero pc = refl
  total-add v w (suc n) pc = omega (arith, total-add v w n pc)

  -- A weight of at most one adds up to at most the number of threads.
  pub total-bound : (w : P → ℕ) (n : ℕ) (pc : ℕ → P) → ((p : P) → w p ≤ 1) → total w n pc ≤ n
  unfolding total
  total-bound w zero pc h = omega arith
  total-bound w (suc n) pc h = omega (arith, h (pc n), total-bound w n pc h)

  -- Two weights that are the same on each thread have one sum.
  pub total-same :
      (v w : P → ℕ) (n : ℕ) (pc : ℕ → P)
      → ((j : ℕ) → j < n → v (pc j) ≡ w (pc j))
      → total v n pc ≡ total w n pc
  unfolding total
  total-same v w zero pc h = refl
  total-same v w (suc n) pc h =
      omega (arith, h n (omega arith), total-same v w n pc (λ j lt. h j (omega (arith, lt))))

  pub total-all :
      (w : P → ℕ) (n : ℕ) (pc : ℕ → P) → ((j : ℕ) → j < n → w (pc j) ≡ 1) → total w n pc ≡ n
  unfolding total
  total-all w zero pc h = refl
  total-all w (suc n) pc h =
      omega (arith, h n (omega arith), total-all w n pc (λ j lt. h j (omega (arith, lt))))

  pub total-none :
      (w : P → ℕ) (n : ℕ) (pc : ℕ → P) → ((j : ℕ) → j < n → w (pc j) ≡ 0) → total w n pc ≡ 0
  unfolding total
  total-none w zero pc h = refl
  total-none w (suc n) pc h =
      omega (arith, h n (omega arith), total-none w n pc (λ j lt. h j (omega (arith, lt))))

  -- The weight of one thread is in the sum over those beside another.
  pub total-others :
      (w : P → ℕ) (n : ℕ) (pc : ℕ → P) (i j : ℕ) (idle : P)
      → w idle ≡ 0
      → i < n
      → j < n
      → (i == j) ≡ false
      → w (pc j) ≤ total w n pc - w (pc i)
  total-others w n pc i j idle z hi hj ne =
      ground (arith, z, total-update w n pc i idle hi, le-total w n (update pc i idle) j hj)
