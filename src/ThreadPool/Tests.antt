-- ===== src/ThreadPool/Tests.antt =====
-- A client adds two items to a pool of one thread; the thread runs the first, and the destructor of the
-- pool the second.
use crunch_concurrency.Base.{
  ℕ, ◌+◌, ◌^◌, ◌<◌, ◌≤◌, ◌≡◌, refl, true, List, [], ◌∷◌, ◌++◌, ◌==◌, count, arith, has, Option,
  none, some, if◌then◌else◌,
}
use crunch_concurrency.Base.Machine.{System, total, run, turn}
use crunch_concurrency.Future.{FutureData, get, keeps}
use crunch_concurrency.Future.Handles.{Shared}
use crunch_concurrency.ThreadPool.{Choice, Pc, init, step, take_or_wait, add_work_item, call}
use crunch_concurrency.ThreadPool.Accounts.{is_idle}
use crunch_concurrency.ThreadPool.Post.{Posted, act, stays, throws_in}
use crunch_concurrency.ThreadPool.Answers.{after_posts, posted-answers}
use crunch_concurrency.ThreadPool.Promised.{answer_of, is_none}
use crunch_concurrency.ThreadPool.Work.{after, work_in_order}

abbrev two_items : List (ℕ × Choice)
two_items =
    (0, Choice.adds 5)
    ∷ (0, Choice.adds 6)
    ∷ (1, Choice.goes_on)
    ∷ (1, Choice.goes_on)
    ∷ (1, Choice.goes_on)
    ∷ (0, Choice.destroys)
    ∷ (1, Choice.goes_on)
    ∷ (1, Choice.goes_on)
    ∷ (0, Choice.goes_on)
    ∷ []

few : 2 + 1 < 2 ^ 32
few = omega arith

work_in_order_example :
    let m = (after 2 1 (λ i. i == 0) two_items few).mem in
    (m.taken ++ m.work ≡ m.added)
    × ((a : ℕ) → count a m.done ≤ count a m.taken)
    × (m.threads ≤ 1)
    × (m.idle_count ≡ total is_idle 2 (after 2 1 (λ i. i == 0) two_items few).pc)
work_in_order_example = work_in_order 2 1 (λ i. i == 0) two_items few

-- The function 5 returns 7, and 6 throws.
abbrev outcome : ℕ → Option ℕ
outcome a = if a == 5 then some 7 else none

-- A thread of the pool runs both before the destructor.
abbrev two_functions : List (ℕ × Choice)
two_functions =
    (0, Choice.adds 5)
    ∷ (0, Choice.adds 6)
    ∷ (1, Choice.goes_on)
    ∷ (1, Choice.goes_on)
    ∷ (1, Choice.goes_on)
    ∷ (1, Choice.goes_on)
    ∷ (1, Choice.goes_on)
    ∷ (1, Choice.goes_on)
    ∷ (1, Choice.goes_on)
    ∷ (0, Choice.destroys)
    ∷ (1, Choice.goes_on)
    ∷ (0, Choice.goes_on)
    ∷ []

abbrev both_run : System (Posted ℕ ℕ) Pc
both_run = after_posts outcome 2 1 few (λ i. i == 0) two_functions

both-gone : both_run.mem.pool.gone ≡ true
unfolding run turn act step init stays throws_in take_or_wait add_work_item call
both-gone = refl

both-added : has 6 both_run.mem.pool.added ≡ true
unfolding run turn act step init stays throws_in take_or_wait add_work_item call
both-added = refl

posted-answers_example :
    (s : Shared ℕ ℕ) × (d : FutureData ℕ ℕ) × (both_run.mem.store 6 ≡ some s)
    × (s.datum ≡ keeps d)
    × (get d ≡ answer_of (outcome 6))
    × (s.promise ≡ is_none (outcome 6))
    × (s.futures ≡ 1)
posted-answers_example =
    posted-answers outcome 2 1 few (λ i. i == 0) two_functions both-gone 6 both-added
