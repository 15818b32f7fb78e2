-- ===== src/Waiter/Sequences.antt =====
-- include/crunch/concurrency/waiter.hpp: any sequence of calls on waiters.
use crunch_concurrency.Base.{ℕ, ◌≡◌, refl, ap, ◌∙◌, subst, arith, Option, none, some, List, [], ◌∷◌}
use crunch_concurrency.Waiter.{Storage, object, pointer, Waiter, World}
use crunch_concurrency.Waiter.Lifetimes.{pointed, pointer_at, IsSound, View, view}
use crunch_concurrency.Waiter.Refinement.{Call, run_call, IsAllowed, call, run_call-refines}

unfoldable pub run_calls : List Call → World → Option World
run_calls [] w = some w
run_calls (c ∷ cs) w = elim (run_call c w) [ none ↦ none | some w' ↦ run_calls cs w' ]

unfoldable pub calls : List Call → View × List ℕ → View × List ℕ
calls [] v = v
calls (c ∷ cs) v = calls cs (call c v)

-- Each call is allowed where it comes.
abbrev pub AreAllowed : List Call → World → Type 0
AreAllowed [] w = Unit
AreAllowed (c ∷ cs) w =
    IsAllowed c w × elim (run_call c w) [ none ↦ Unit | some w' ↦ AreAllowed cs w' ]

-- No waiter in use
unfoldable pub init : World
init = record { waiters = λ a. none; heap = λ p. none; called = [] }

init-IsSound : IsSound init
unfolding init
init-IsSound = record {
  owner = λ p. 0;
  fits = λ a. tt;
  owned = λ p f h. absurd (ground (arith, h));
}

-- A function object on the heap is that of a waiter in use.
pointer_lem :
    (x : Option Waiter) (p : ℕ)
    → pointer_at x ≡ some p
    → (y : Waiter) × (x ≡ some y) × (y.storage ≡ pointer p)
pointer_lem none p e = absurd (ground (arith, e))
pointer_lem (some y) p e = (y, refl, pointed_lem y.storage e)
  where
    pointed_lem : (st : Storage) → pointed st ≡ some p → st ≡ pointer p
    pointed_lem (object f) q = absurd (ground (arith, q))
    pointed_lem (pointer r) q = ground (arith, q)

run_calls-calls :
    (cs : List Call) (w : World)
    → IsSound w
    → AreAllowed cs w
    → (w' : World) × (run_calls cs w ≡ some w')
      × IsSound w'
      × ((view w', w'.called) ≡ calls cs (view w, w.called))
unfolding run_calls calls
run_calls-calls [] w s k = (w, refl, s, refl)
run_calls-calls (c ∷ cs) w s (k, ks) =
    let (w', e, s', v, l) = run_call-refines c w s k in
    let one : (view w', w'.called) ≡ call c (view w, w.called) = λ i. (λ b. v b i, l i) in
    let (w'', e', s'', v') =
      run_calls-calls cs w' s'
        (subst (λ r. elim r as (λ x. Type 0) [ none ↦ Unit | some u ↦ AreAllowed cs u ]) e ks) in
    (w'', rw (run_calls, e) e', s'', v' ∙ ap (calls cs) one)

-- From no waiter in use, a sequence of calls that are each allowed where they come goes through to its
-- end: each `Notify` calls the function object that its waiter was created with, a waiter created with
-- `destroyOnNotify` is then gone, and so is one that is destroyed, whatever the sizes of the function
-- objects; and every function object on the heap is that of a waiter in use.
pub calls-refine :
    (cs : List Call)
    → AreAllowed cs init
    → (w : World) × (run_calls cs init ≡ some w)
      × ((view w, w.called) ≡ calls cs (λ a. none, []))
      × ((p f : ℕ)
          → w.heap p ≡ some f
          → (a : ℕ) × (x : Waiter) × (w.waiters a ≡ some x) × (x.storage ≡ pointer p))
unfolding init
calls-refine cs k =
    let (w, e, s, v) = run_calls-calls cs init init-IsSound k in
    (
      w,
      e,
      v,
      λ p f h.
          let (x, there, points) = pointer_lem (w.waiters (s.owner p)) p (s.owned p f h) in
          (s.owner p, x, there, points),
    )
