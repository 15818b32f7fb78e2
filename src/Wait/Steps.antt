-- ===== src/Wait/Steps.antt =====
-- source/meta_scheduler.cpp: `WaitForImpl`, `WaitForAllImpl` and `WaitForAnyImpl` as the lists of
-- calls that they make. A waitable is known by its address; what `AddWaiter` and `RemoveWaiter`
-- answer depends on other threads, and is a parameter.
use crunch_concurrency.Base.{
  ℕ, zero, suc, ◌+◌, ◌-◌, Bool, not, List, [], ◌∷◌, ◌++◌, map, ◌==◌, leb, if◌then◌else◌, length,
  take,
}

-- A call that a waiting function makes.
pub data Action : Type 0 where
  add : (waitable : ℕ) → Action  -- `AddWaiter`
  remove : (waitable : ℕ) → Action  -- `RemoveWaiter`
  wait_for : (waitable : ℕ) → Action  -- `WaitFor`
  spin_wait : Action  -- `waitSemaphore.SpinWait`

abbrev pub times : ℕ → Action → List Action
times zero a = []
times (suc n) a = a ∷ times n a

-- `WaitForImpl`
unfoldable pub wait_for_impl : (answer : ℕ → Bool) → ℕ → List Action
wait_for_impl answer waitable = add waitable ∷ (if answer waitable then spin_wait ∷ [] else [])

-- `std::sort` of addresses
unfoldable pub insert : ℕ → List ℕ → List ℕ
insert a [] = a ∷ []
insert a (x ∷ xs) = if leb a x then a ∷ x ∷ xs else x ∷ insert a xs

unfoldable pub sort : List ℕ → List ℕ
unfolding insert
sort [] = []
sort (x ∷ xs) = insert x (sort xs)

-- The elements that pass a test, in order.
unfoldable pub select : (ℕ → Bool) → List ℕ → List ℕ
select test [] = []
select test (x ∷ xs) = if test x then x ∷ select test xs else select test xs

-- How many of the `AddWaiter` calls return true.
unfoldable pub count_added : (ℕ → Bool) → List ℕ → ℕ
count_added answer [] = 0
count_added answer (x ∷ xs) =
    if answer x then suc (count_added answer xs) else count_added answer xs

-- `WaitForAllImpl`. The loop over the waitables that depend on no order runs `unorderedCount` times,
-- and takes `waitables[i]`.
unfoldable pub wait_for_all_impl : (ordered answer : ℕ → Bool) → (waitables : List ℕ) → List Action
unfolding sort select count_added
wait_for_all_impl ordered answer waitables =
    let added = take (length (select (λ w. not (ordered w)) waitables)) waitables in
    map wait_for (sort (select ordered waitables))
    ++ (map add added ++ times (count_added answer added) spin_wait)

-- The first loop of `WaitForAnyImpl`: the waitables added, and the one that was ready, if any.
pub record Adding : Type 0 where
  pub added : List ℕ
  pub ready : List ℕ

unfoldable pub add_until_ready : (answer : ℕ → Bool) → List ℕ → Adding
add_until_ready answer [] = record { added = []; ready = [] }
add_until_ready answer (x ∷ xs) =
    let rest = add_until_ready answer xs in
    if answer x
    then record rest { added = x ∷ rest.added }
    else record { added = []; ready = x ∷ [] }

-- What `WaitForAnyImpl` returns, with the number of its calls of `SpinWait`.
pub record Outcome : Type 0 where
  pub signaled : List ℕ
  pub waits : ℕ

-- `WaitForAnyImpl`: `answer` is what `AddWaiter` returns, and `removed` what `RemoveWaiter` does.
unfoldable pub wait_for_any_impl : (answer removed : ℕ → Bool) → (waitables : List ℕ) → Outcome
unfolding add_until_ready select
wait_for_any_impl answer removed waitables =
    let a = add_until_ready answer waitables in
    let signaled = a.ready ++ select (λ w. not (removed w)) a.added in
    record {
      signaled = signaled;
      waits = (if length a.added == length waitables then 1 else 0) + (length signaled - 1);
    }
