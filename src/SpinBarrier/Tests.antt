-- ===== src/SpinBarrier/Tests.antt =====
-- Two threads at a barrier of two: the second arrives, then both go through.
use crunch_concurrency.Base.{ℕ, ◌≡◌, refl, Bool, true, List, [], ◌∷◌, ◌++◌, ◌<◌, zero, suc, arith}
use crunch_concurrency.Base.Machine.{run, total, turn}
use crunch_concurrency.SpinBarrier.{fresh, init, is_past, outside, step, none_early}
use crunch_concurrency.SpinBarrier.Winner.{after, answers_true, is_done, one_answers_true}

abbrev both : List (ℕ × Bool)
both =
    (0, true)
    ∷ (0, true)
    ∷ (0, true)
    ∷ (1, true)
    ∷ (1, true)
    ∷ (0, true)
    ∷ (0, true)
    ∷ (1, true)
    ∷ []

first_past : is_past ((run (step 2) 2 (fresh 2) both).pc 0) ≡ true
unfolding run turn step init
first_past = refl

none_early_example : outside ((run (step 2) 2 (fresh 2) both).pc 1) ≡ 0
none_early_example = none_early 2 both 0 1 (omega arith) (omega arith) first_past

-- The same, until both have returned
abbrev both_through : List (ℕ × Bool)
both_through = both ++ (0, true) ∷ (1, true) ∷ (1, true) ∷ (1, true) ∷ []

both_done :
    (j : ℕ) → j < 2 → is_done ((after 2 both_through (omega arith) (omega arith)).pc j) ≡ true
unfolding run turn step init
both_done zero h = refl
both_done (suc zero) h = refl
both_done (suc (suc j)) h = absurd (omega arith)

one_answers_true_example :
    let s = after 2 both_through (omega arith) (omega arith) in
    (total answers_true 2 s.pc ≡ 1) × (s.mem ≡ init 2)
one_answers_true_example = one_answers_true 2 both_through (omega arith) (omega arith) both_done
