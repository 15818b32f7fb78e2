-- ===== src/Wait/Mode.antt =====
-- include/crunch/concurrency/wait_mode.hpp: how a caller waits.
use crunch_concurrency.Base.{ℕ, ◌-◌, ◌^◌, Bool, true, false}

pub record WaitMode : Type 0 where
  pub spin_count : ℕ  -- uint32_t
  pub run_cooperative : Bool

unfoldable pub poll : WaitMode
poll = record { spin_count = 2 ^ 32 - 1; run_cooperative = false }

unfoldable pub block : ℕ → WaitMode
block spin_count = record { spin_count = spin_count; run_cooperative = false }

unfoldable pub run_mode : ℕ → WaitMode
run_mode spin_count = record { spin_count = spin_count; run_cooperative = true }
