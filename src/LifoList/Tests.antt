-- ===== src/LifoList/Tests.antt =====
-- Two threads and the nodes 16 and 32.
use crunch_concurrency.Base.{ℕ, ◌+◌, ◌≤◌, ◌≡◌, some, List, [], ◌∷◌, ◌++◌, arith, count, ==_iff}
use crunch_concurrency.Base.Machine.{Along, total, turn}
use crunch_concurrency.LifoList.{init, root_pointer, root_counter, step}
use crunch_concurrency.LifoList.Alone.{IsNode, Shows}
use crunch_concurrency.LifoList.History.{
  Choice, act, after, begin, noted, exchanges, loads, gained, is_idle, advance, replay, IsTimely,
}
use crunch_concurrency.LifoList.Aba.{owns}
use crunch_concurrency.LifoList.Schedules.{fresh, after_turns, history-is_stack}

abbrev two_nodes : List ℕ
two_nodes = 16 ∷ 32 ∷ []

-- Thread 0 pushes 32 and 16 and begins `Pop`; thread 1 pops both and pushes 16; thread 0 finds another
-- counter and loads the root again.
abbrev turns_of : ℕ → Choice → List (ℕ × Choice)
turns_of i c = (i, c) ∷ (i, c) ∷ (i, c) ∷ (i, c) ∷ []

abbrev popped_and_pushed : List (ℕ × Choice)
popped_and_pushed =
    turns_of 0 (Choice.pushes 32)
    ++ turns_of 0 (Choice.pushes 16)
    ++ (0, Choice.pops) ∷ (0, Choice.pops) ∷ (0, Choice.pops) ∷ turns_of 1 Choice.pops
    ++ turns_of 1 Choice.pops
    ++ turns_of 1 (Choice.pushes 16)
    ++ (0, Choice.pops) ∷ []

two_nodes-IsNode : (a : ℕ) → 1 ≤ count a two_nodes → IsNode a
two_nodes-IsNode a h = record {
  positive = ground (arith, ==_iff 16 a, ==_iff 32 a);
  small = ground (arith, ==_iff 16 a, ==_iff 32 a);
}

two_nodes-once : (a : ℕ) → count a two_nodes ≤ 1
two_nodes-once a = ground (arith, ==_iff 16 a, ==_iff 32 a)

in_time : Along act IsTimely 2 (fresh two_nodes) popped_and_pushed
unfolding turn act advance after begin step noted exchanges loads gained is_idle root_pointer
    root_counter init
in_time = omega arith

history-is_stack_example :
    let s = after_turns 2 two_nodes two_nodes-IsNode two_nodes-once popped_and_pushed in_time in
    (xs : List ℕ) × (replay s.mem.history ≡ some xs)
    × Shows s.mem.list xs
    × ((a : ℕ)
        → count a xs + count a s.mem.held + total (λ t. owns a t.at) 2 s.pc ≡ count a two_nodes)
history-is_stack_example =
    history-is_stack 2 two_nodes two_nodes-IsNode two_nodes-once popped_and_pushed in_time
