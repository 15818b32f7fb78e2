-- ===== src/Waiter/Tests.antt =====
-- A waiter with a small function object, which destroys itself, and one with a large one.
use crunch_concurrency.Base.{ℕ, ◌≡◌, refl, true, false, none, some, List, [], ◌∷◌}
use crunch_concurrency.Waiter.{
  Waiter, pointer, World, create, function_of, invoke, destroy_object, destroy, invoke_and_destroy,
  call_back, notify,
}
use crunch_concurrency.Waiter.Lifetimes.{view}
use crunch_concurrency.Waiter.Refinement.{Call, run_call}
use crunch_concurrency.Waiter.Sequences.{AreAllowed, calls, calls-refine, init, run_calls}

abbrev small_and_large : List Call
small_and_large =
    Call.creates 8 1 true 100 0
    ∷ Call.creates 24 2 false 200 300
    ∷ Call.notifies 200
    ∷ Call.notifies 100
    ∷ Call.notifies 200
    ∷ Call.destroys 24 200
    ∷ []

each_allowed : AreAllowed small_and_large init
unfolding init run_call create notify call_back invoke invoke_and_destroy function_of destroy
    destroy_object
each_allowed =
    ((refl, refl), ((refl, refl), ((_, refl), ((_, refl), ((_, refl), ((_, refl, refl), tt))))))

calls-refine_example :
    (w : World) × (run_calls small_and_large init ≡ some w)
    × ((view w, w.called) ≡ calls small_and_large (λ a. none, []))
    × ((p f : ℕ)
        → w.heap p ≡ some f
        → (a : ℕ) × (x : Waiter) × (w.waiters a ≡ some x) × (x.storage ≡ pointer p))
calls-refine_example = calls-refine small_and_large each_allowed
