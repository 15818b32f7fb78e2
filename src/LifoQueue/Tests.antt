-- ===== src/LifoQueue/Tests.antt =====
-- A pop of an empty queue, and then two values; a node is free at first.
use crunch_concurrency.Base.{ℕ, suc, ◌+◌, ◌≤◌, ◌≡◌, refl, arith, none, some, List, [], ◌∷◌, count}
use crunch_concurrency.LifoQueue.{Queue, push}
use crunch_concurrency.LifoQueue.Refinement.{
  Call, pushes, pops, Refines, queue_run, queue_run-stack,
}

-- A number above those of a list
abbrev above : List ℕ → ℕ
above [] = 1
above (n ∷ ns) = suc (n + above ns)

count-above : (m : ℕ) (ns : List ℕ) → above ns ≤ m → count m ns ≡ 0
count-above m [] h = refl
count-above m (n ∷ ns) h = ground (arith, count-above m ns)

abbrev one_free : Queue ℕ
one_free = record { storage = λ _. none; queue_nodes = []; free_nodes = 3 ∷ [] }

abbrev some_calls : List (Call ℕ)
some_calls = pops ∷ pushes 5 ∷ pushes 6 ∷ []

queue_run-stack_example : Refines (queue_run above some_calls one_free) (some (6 ∷ 5 ∷ []))
queue_run-stack_example =
    queue_run-stack above (λ ns. count-above (above ns) ns (omega arith)) some_calls one_free []
      (λ n. ground arith, tt)

-- The pop of a value
pops_value : queue_run above (pushes 5 ∷ pops ∷ []) one_free ≡ none
unfolding queue_run push
pops_value = refl
