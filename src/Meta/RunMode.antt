-- ===== src/Meta/RunMode.antt =====
-- source/meta_scheduler.cpp: `RunMode`, and the throttlers that `SchedulerState::RunAll`, `RunSome`
-- and `RunTimed` hand to a scheduler. A throttler is asked before each work item; whether the stop
-- flag is set then, and the time that has gone by, come from outside.
use crunch_concurrency.Base.{
  ℕ, zero, suc, ◌-◌, ◌≡◌, refl, arith, Bool, true, false, ◌||◌, Option, none, some, List, [], ◌∷◌,
  ltb, ◌==◌, if◌then◌else◌,
}

-- `RunMode::Type`
pub data Kind : Type 0 where
  disabled some_items timed all_items : Kind

pub record RunMode : Type 0 where
  pub kind : Kind
  pub count : ℕ  -- uint32_t
  pub duration : ℕ

-- `RunMode::Disabled`, `Some`, `Timed` and `All`
unfoldable pub mode_disabled : RunMode
mode_disabled = record { kind = disabled; count = 0; duration = 0 }

unfoldable pub mode_some : ℕ → RunMode
mode_some n = record { kind = some_items; count = n; duration = 0 }

unfoldable pub mode_timed : ℕ → RunMode
mode_timed d = record { kind = timed; count = 0; duration = d }

unfoldable pub mode_all : RunMode
mode_all = record { kind = all_items; count = 0; duration = 0 }

-- The throttlers, with the state that each keeps.
pub data Throttler : Type 0 where
  unlimited : Throttler
  counted : (left : ℕ) → Throttler
  until : (max_duration : ℕ) → Throttler

-- What a throttler is asked with: the stop flag, and the time since its construction.
pub record Asked : Type 0 where
  pub stop : Bool
  pub elapsed : ℕ

-- `ShouldYield` of the three throttlers: the throttler after it, and the answer.
unfoldable pub should_yield : Throttler → Asked → Throttler × Bool
should_yield unlimited a = (unlimited, a.stop)
should_yield (counted left) a =
    if a.stop || (left == 0) then (counted left, true) else (counted (left - 1), false)
should_yield (until max_duration) a = (until max_duration, a.stop || ltb max_duration a.elapsed)

-- `RunFunctionFromRunMode` and the runners: the throttler of a mode. `none` is the exception
-- "Invalid run mode".
unfoldable pub throttler_of : RunMode → Option Throttler
throttler_of m = elim (m.kind) [
  | disabled ↦ none
  | some_items ↦ some (counted m.count)
  | timed ↦ some (until m.duration)
  | all_items ↦ some unlimited
]

-- The number of work items that a scheduler runs which asks before each of them, and stops at the
-- first answer that it should yield.
unfoldable pub items_run : Throttler → List Asked → ℕ
unfolding should_yield
items_run t [] = 0
items_run t (a ∷ as_asked) =
    let rest = items_run (should_yield t a).0 as_asked in
    if (should_yield t a).1 then 0 else suc rest

-- The answers before the first with the stop flag set.
abbrev pub before_stop : List Asked → ℕ
before_stop [] = 0
before_stop (a ∷ xs) = if a.stop then 0 else suc (before_stop xs)

abbrev pub min_ℕ : ℕ → ℕ → ℕ
min_ℕ a b = if ltb a b then a else b

-- Under `RunMode::Some(n)` a scheduler that always has work runs exactly `n` items, or as many as it
-- asks for before the stop flag is set, where those are fewer.
pub items_run-some :
    (n : ℕ) (xs : List Asked) (t : Throttler)
    → throttler_of (mode_some n) ≡ some t
    → items_run t xs ≡ min_ℕ n (before_stop xs)
unfolding throttler_of mode_some items_run
items_run-some n [] t e = ground arith
items_run-some zero (a ∷ xs) t e = ground arith
items_run-some (suc n) (a ∷ xs) t e = ground (arith, items_run-some n xs (counted n) refl)

-- Under `RunMode::All` it runs until the stop flag is set.
pub items_run-all :
    (xs : List Asked) (t : Throttler)
    → throttler_of mode_all ≡ some t
    → items_run t xs ≡ before_stop xs
unfolding throttler_of mode_all items_run
items_run-all [] t e = refl
items_run-all (a ∷ xs) t e = ground (arith, items_run-all xs unlimited refl)
