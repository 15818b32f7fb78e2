-- ===== src/Backoff.antt =====
-- include/crunch/concurrency/exponential_backoff.hpp, constant_backoff.hpp, null_backoff.hpp and
-- wait_mode.hpp. `Pause(n)` and `ThreadYield()` are the effects of a backoff, and are returned.
use crunch_concurrency.Base.{
  ℕ, zero, suc, ◌+◌, ◌*◌, ◌^◌, ◌<◌, ◌≤◌, ◌≡◌, refl, arith, Bool, true, false, List, [], ◌∷◌, leb,
  if◌then◌else◌,
}

-- What a backoff does: it pauses for a number of rounds, or yields the processor.
pub data Effect : Type 0 where
  pauses : (rounds : ℕ) → Effect
  yields : Effect

-- `ExponentialBackoffT::ExponentialBackoffT` and `Reset`: `mCount`
abbrev pub initial_count : ℕ
initial_count = 1

-- `ExponentialBackoffT::Pause`: the new `mCount`, and the effect.
unfoldable pub pause : (limit count : ℕ) → ℕ × Effect
pause limit count = if leb count limit then (count * 2, pauses count) else (count, yields)

-- `ExponentialBackoffT::TryPause`: the new `mCount`, the effects and the result.
unfoldable pub try_pause : (limit count : ℕ) → ℕ × List Effect × Bool
try_pause limit count =
    if leb count limit then (count * 2, pauses count ∷ [], true) else (count, [], false)

-- `ExponentialBackoff`
abbrev pub default_limit : ℕ
default_limit = 16

-- `ConstantBackoffT::Pause` and `TryPause`, and those of `NullBackoff`.
unfoldable pub constant_pause : (limit : ℕ) → Effect
constant_pause limit = pauses limit

unfoldable pub constant_try_pause : (limit : ℕ) → List Effect × Bool
unfolding constant_pause
constant_try_pause limit = (constant_pause limit ∷ [], true)

unfoldable pub null_try_pause : List Effect × Bool
null_try_pause = ([], true)

-- `mCount` after some calls of `Pause`.
unfoldable pub after_pauses : (limit calls count : ℕ) → ℕ
unfolding pause
after_pauses limit zero count = count
after_pauses limit (suc calls) count = after_pauses limit calls (pause limit count).0

after_pauses-le :
    (limit calls count : ℕ) → count ≤ 2 * limit → after_pauses limit calls count ≤ 2 * limit
unfolding after_pauses
after_pauses-le limit zero count h = h
after_pauses-le limit (suc calls) count h =
    after_pauses-le limit calls (pause limit count).0 (ground arith)

-- However often `Pause` is called from the initial count, the count stays at most twice a limit of at
-- least one, so that with a limit below 2 ^ 30 the `int` never overflows, and no pause lasts longer
-- than the limit.
pub pause-bounded :
    (limit calls : ℕ)
    → 1 ≤ limit
    → limit < 2 ^ 30
    → (after_pauses limit calls initial_count < 2 ^ 31)
      × ((n : ℕ) → (pause limit (after_pauses limit calls initial_count)).1 ≡ pauses n → n ≤ limit)
unfolding pause
pause-bounded limit calls h s =
    (omega (arith, after_pauses-le limit calls 1 (omega arith)), λ n e. ground arith)

stays_above : (limit calls count : ℕ) → limit < count → after_pauses limit calls count ≡ count
unfolding after_pauses pause
stays_above limit zero count h = refl
stays_above limit (suc calls) count h = ground (arith, stays_above limit calls count h)

-- The default backoff pauses 1, 2, 4, 8 and 16 rounds and yields from the sixth call on.
pub default_yields :
    (calls : ℕ)
    → (pause default_limit (after_pauses default_limit (calls + 5) initial_count)).1 ≡ yields
unfolding pause after_pauses
default_yields calls =
    let e : calls + 5 ≡ suc (suc (suc (suc (suc calls)))) = omega arith in
    rw (e, stays_above 16 calls 32 (omega arith)) refl
