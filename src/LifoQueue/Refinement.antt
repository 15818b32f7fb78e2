-- ===== src/LifoQueue/Refinement.antt =====
-- include/crunch/concurrency/mpmc_lifo_queue.hpp: the queue of nodes as a stack of values.
use crunch_concurrency.Base.{
  ℕ, ◌+◌, ◌≤◌, ◌≡◌, subst, arith, Option, none, some, List, [], ◌∷◌, ◌++◌, count, count-append,
  ◌==◌, ==_iff, bit, Bool-cases, inl, inr,
}
use crunch_concurrency.Base.Machine.{update}
use crunch_concurrency.LifoQueue.{Queue, push, try_pop}

module _ {T : Type 0} where
  -- The stack of values that a queue stands for: every node of the queue holds one.
  abbrev pub Stands : (ℕ → Option T) → List ℕ → List T → Type 0
  Stands storage [] [] = Unit
  Stands storage (n ∷ ns) (v ∷ vs) = (storage n ≡ some v) × Stands storage ns vs
  Stands storage _ _ = ⊥

  -- No node is in the lists twice.
  abbrev pub Shows : Queue T → List T → Type 0
  Shows q vs =
      ((n : ℕ) → count n q.queue_nodes + count n q.free_nodes ≤ 1)
      × Stands q.storage q.queue_nodes vs

  -- A node outside a list may change its storage.
  Stands-update :
      (storage : ℕ → Option T) (node : ℕ) (v : Option T) (ns : List ℕ) (vs : List T)
      → count node ns ≡ 0
      → Stands storage ns vs
      → Stands (update storage node v) ns vs
  Stands-update storage node v [] [] c h = tt
  Stands-update storage node v [] (x ∷ vs) c h = h
  Stands-update storage node v (n ∷ ns) [] c h = h
  Stands-update storage node v (n ∷ ns) (x ∷ vs) c (h, k) =
      (ground arith, Stands-update storage node v ns vs (ground arith) k)

  -- The queue shows the stack, or neither is there.
  abbrev pub Refines : Option (Queue T) → Option (List T) → Type 0
  Refines none none = Unit
  Refines (some q) (some vs) = Shows q vs
  Refines _ _ = ⊥

fresh_once :
    (node n : ℕ) (ns : List ℕ)
    → count node ns ≡ 0
    → count n ns ≤ 1
    → bit (node == n) + count n ns + 0 ≤ 1
fresh_once node n ns absent once = elim (Bool-cases (node == n)) [
  | inr other ↦ rw other (omega arith)
  | inl same ↦
      let (to, from) = ==_iff node n in
      let none_here : count n ns ≡ 0 = subst (λ k. count k ns ≡ 0) (to same) absent in
      rw same (omega (arith, none_here))
]

-- The calls of one thread
pub data Call (T : Type 0) : Type 0 where
  pushes : T → Call T
  pops : Call T

-- The calls on a stack, where a pop that finds a value is an error: `none`
abbrev pub stack_run : {T : Type 0} → List (Call T) → List T → Option (List T)
stack_run [] vs = some vs
stack_run (pushes v ∷ cs) vs = stack_run cs (v ∷ vs)
stack_run (pops ∷ cs) [] = stack_run cs []
stack_run (pops ∷ cs) (v ∷ vs) = none

-- The queue after the calls; `none` where one of them is undefined
module _ {T : Type 0} (new_node : List ℕ → ℕ) where
  unfoldable pub queue_run : List (Call T) → Queue T → Option (Queue T)
  unfolding try_pop
  queue_run [] q = some q
  queue_run (pushes v ∷ cs) q = queue_run cs (push new_node v q)
  queue_run (pops ∷ cs) q = elim (try_pop q) [ none ↦ none | some (q', popped) ↦ queue_run cs q' ]

  module _ (is_new : (ns : List ℕ) → count (new_node ns) ns ≡ 0) where
    push-Shows :
        (v : T) (storage : ℕ → Option T) (queue free : List ℕ) (vs : List T)
        → Shows (record { storage = storage; queue_nodes = queue; free_nodes = free }) vs
        → Shows
            (push new_node v (record { storage = storage; queue_nodes = queue; free_nodes = free }))
            (v ∷ vs)
    unfolding push
    push-Shows v storage queue [] vs (once, stands) =
        let node = new_node (queue ++ []) in
        let fresh : count node queue ≡ 0 =
          omega (arith, is_new (queue ++ []), count-append queue [] node) in
        (
          λ n. fresh_once node n queue fresh (omega (arith, once n)),
          (ground arith, Stands-update storage node (some v) queue vs fresh stands),
        )
    push-Shows v storage queue (node ∷ free) vs (once, stands) =
        let absent : count node queue ≡ 0 = ground (arith, once node) in
        (
          λ n. ground (arith, once n),
          (ground arith, Stands-update storage node (some v) queue vs absent stands),
        )

  -- From a queue that holds the values of a stack, with no node twice, a sequence of `Push` and
  -- `TryPop` by one thread is undefined exactly where a pop of the stack finds a value. Every other
  -- sequence is defined to its end, and leaves a queue that holds the values of the stack in order, last
  -- in, first, with no node twice. `new` gives a node that is not in the queue.
  pub queue_run-stack :
      ((ns : List ℕ) → count (new_node ns) ns ≡ 0)
      → (cs : List (Call T)) (q : Queue T) (vs : List T) → Shows q vs
      → Refines (queue_run cs q) (stack_run cs vs)
  unfolding queue_run
  queue_run-stack is_new [] q vs h = h
  queue_run-stack is_new (pushes v ∷ cs) q vs h =
      queue_run-stack is_new cs (push new_node v q) (v ∷ vs)
        (push-Shows is_new v q.storage q.queue_nodes q.free_nodes vs h)
  queue_run-stack is_new (pops ∷ cs) q vs h =
      pop_lem q.storage q.queue_nodes q.free_nodes vs h (λ k. queue_run-stack is_new cs q [] k)
    where
      pop_lem :
          (storage : ℕ → Option T) (queue free : List ℕ) (vs : List T)
          → Shows (record { storage = storage; queue_nodes = queue; free_nodes = free }) vs
          → (Shows (record { storage = storage; queue_nodes = queue; free_nodes = free }) []
              → Refines
                  (queue_run cs
                    (record { storage = storage; queue_nodes = queue; free_nodes = free }))
                  (stack_run cs []))
          → Refines
              (queue_run
                (pops ∷ cs)
                (record { storage = storage; queue_nodes = queue; free_nodes = free }))
              (stack_run (pops ∷ cs) vs)
      pop_lem storage [] free [] h rest = rest h
      pop_lem storage [] free (v ∷ vs) (once, h) rest = absurd h
      pop_lem storage (node ∷ queue) free [] (once, h) rest = absurd h
      pop_lem storage (node ∷ queue) free (v ∷ vs) h rest = tt
