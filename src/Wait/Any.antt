-- ===== src/Wait/Any.antt =====
-- source/meta_scheduler.cpp: the account of `WaitForAnyImpl`. Each waiter posts the semaphore once,
-- when its waitable notifies it; a waiter that `RemoveWaiter` does not find has been notified.
use crunch_concurrency.Base.{
  ℕ, ◌<◌, ◌≤◌, ◌≡◌, refl, ap, arith, Bool-cases, Bool, false, not, List, [], ◌∷◌, ◌⊎◌, inl, inr,
  length,
}
use crunch_concurrency.Wait.Steps.{add_until_ready, select, wait_for_any_impl}

-- Either every waitable has a waiter and none was ready, or the loop stopped at one that was.
add_cases :
    (answer : ℕ → Bool) (ws : List ℕ)
    → let a = add_until_ready answer ws in
      ((a.ready ≡ []) × (a.added ≡ ws))
      ⊎ ((x : ℕ) × (a.ready ≡ x ∷ []) × (answer x ≡ false) × (length a.added < length ws))
unfolding add_until_ready
add_cases answer [] = inl (refl, refl)
add_cases answer (x ∷ xs) = elim (Bool-cases (answer x)) [
  | inl e ↦ elim (add_cases answer xs) [
    | inl (r, a) ↦ inl (rw e r, rw (e, a) refl)
    | inr (y, r, n, l) ↦ inr (y, rw e r, n, rw e (omega (arith, l)))
  ]
  | inr e ↦ inr (x, rw e refl, e, rw e (omega arith))
]

module _ (answer removed : ℕ → Bool) (ws : List ℕ) where
  -- The waiters that have posted or will post: those that were added and not removed.
  abbrev pub posted : List ℕ
  posted = select (λ w. not (removed w)) (add_until_ready answer ws).added

  -- `WaitForAny` takes as many posts from its semaphore as its waiters make, on each of its paths, so
  -- the semaphore is left as it was. The hypothesis: where a waiter was added to every waitable, some
  -- waiter was notified before it could be removed, since the first wait has returned.
  pub waits-eq-posts :
      (length (add_until_ready answer ws).added ≡ length ws → 1 ≤ length posted)
      → (wait_for_any_impl answer removed ws).waits ≡ length posted
  unfolding wait_for_any_impl
  waits-eq-posts h = elim (add_cases answer ws) [
    | inl (r, a) ↦ ground arith
    | inr (x, r, n, l) ↦ ground arith
  ]

  -- Every waitable that `WaitForAny` returns either was ready when its waiter was to be added, or has
  -- notified its waiter; and under the same hypothesis it returns at least one.
  pub signaled-ready :
      (length (add_until_ready answer ws).added ≡ length ws → 1 ≤ length posted)
      → let out = (wait_for_any_impl answer removed ws).signaled in
        (1 ≤ length out) × ((out ≡ posted) ⊎ ((x : ℕ) × (answer x ≡ false) × (out ≡ x ∷ posted)))
  unfolding wait_for_any_impl
  signaled-ready h = elim (add_cases answer ws) [
    | inl (r, a) ↦ rw r (h (ap (λ (xs : List ℕ). length xs) a), inl refl)
    | inr (x, r, n, l) ↦ rw r (omega arith, inr (x, n, refl))
  ]
