-- ===== src/LifoList/History.antt =====
-- include/crunch/concurrency/mpmc_lifo_list.hpp: threads that push nodes which they hold and pop
-- nodes, in any order, with the history of the list beside its memory.
use crunch_concurrency.Base.{
  ℕ, ◌+◌, ◌^◌, ◌<◌, Bool, true, false, Option, none, some, List, [], ◌∷◌, ◌++◌, ◌==◌, if◌then◌else◌,
  has, erase,
}
use crunch_concurrency.LifoList.{
  Memory, Pc, push, push_loop, push_swap, pushed, pop, pop_loop, pop_swap, popped, step,
  root_pointer,
}

-- What happens to the list: an exchange of `Push`, one of `Pop`, or a load of `Pop` that finds the null
-- pointer.
pub data Event : Type 0 where
  puts : (node : ℕ) → Event
  takes : (node : ℕ) → Event
  finds_empty : Event

-- The events on a stack that begins empty, the last event first; `none` where one is not what a stack
-- does.
abbrev pub replay_one : Event → List ℕ → Option (List ℕ)
replay_one (puts node) xs = some (node ∷ xs)
replay_one (takes node) [] = none
replay_one (takes node) (x ∷ xs) = if x == node then some xs else none
replay_one finds_empty [] = some []
replay_one finds_empty (x ∷ xs) = none

unfoldable pub replay : List Event → Option (List ℕ)
replay [] = some []
replay (e ∷ es) = elim (replay es) [ none ↦ none | some xs ↦ replay_one e xs ]

-- The list, the nodes that the program holds, the events so far, and the number of exchanges.
pub record State : Type 0 where
  pub list : Memory
  pub held : List ℕ
  pub history : List Event
  pub swaps : ℕ

-- A thread, with the number of exchanges at its last load of the root
pub record Thread : Type 0 where
  pub at : Pc
  pub stamp : ℕ

-- The next call of a thread
pub data Choice : Type 0 where
  pushes : (node : ℕ) → Choice
  pops : Choice

abbrev pub empties : (root : ℕ) → List Event
empties root = if root_pointer root == 0 then finds_empty ∷ [] else []

-- The event of a step from one point to another
unfoldable pub noted : Pc → Pc → List Event
noted (push_swap old_root node) pushed = puts node ∷ []
noted (pop_swap old_root next) (popped node) = takes node ∷ []
noted pop (pop_loop root) = empties root
noted (pop_swap old_root next) (pop_loop root) = empties root
noted _ _ = []

-- Whether the step is an exchange, and whether it is a load.
unfoldable pub exchanges : Pc → Pc → Bool
exchanges (push_swap old_root node) pushed = true
exchanges (pop_swap old_root next) (popped node) = true
exchanges _ _ = false

unfoldable pub loads : Pc → Pc → Bool
loads _ (pop_loop root) = true
loads _ (push_loop root node) = true
loads _ _ = false

unfoldable pub gained : Pc → Pc → List ℕ
gained (pop_swap old_root next) (popped node) = node ∷ []
gained _ _ = []

-- What a step of a call leaves, which comes to `p` with the memory `m`
unfoldable pub after : Thread → State → Memory × Pc → State × Thread
after t s (m, p) = (
  record {
    list = m;
    held = gained t.at p ++ s.held;
    history = noted t.at p ++ s.history;
    swaps = if exchanges t.at p then s.swaps + 1 else s.swaps;
  },
  record { at = p; stamp = if loads t.at p then s.swaps else t.stamp },
)

-- A step of a call
unfoldable pub advance : Thread → State → State × Thread
unfolding after
advance t s = after t s (step t.at s.list)

-- A thread whose call has returned begins another, and pushes only a node that the program holds.
unfoldable pub begin : Choice → Thread → State → State × Thread
begin (pushes node) t s =
    if has node s.held
    then (record s { held = erase node s.held }, record t { at = push node })
    else (s, t)
begin pops t s = (s, record t { at = pop })

unfoldable pub is_idle : Pc → Bool
is_idle pushed = true
is_idle (popped node) = true
is_idle _ = false

unfoldable pub act : Choice → Thread → State → State × Thread
act c t s = if is_idle t.at then begin c t s else advance t s

-- A thread before its exchange: fewer than 2 ^ 16 exchanges have been made since its load of the root.
abbrev pub IsTimelyAt : ℕ → ℕ → Pc → Type 0
IsTimelyAt swaps stamp (push_swap old_root node) = swaps < stamp + 2 ^ 16
IsTimelyAt swaps stamp (pop_swap old_root next) = swaps < stamp + 2 ^ 16
IsTimelyAt swaps stamp _ = Unit

abbrev pub IsTimely : State → Thread → Type 0
IsTimely s t = IsTimelyAt s.swaps t.stamp t.at
