-- ===== src/LifoList/Turns.antt =====
-- include/crunch/concurrency/mpmc_lifo_list.hpp: a step of any thread, at each of its points.
use crunch_concurrency.Base.{
  ℕ, ◌+◌, ◌/◌, ◌^◌, ◌<◌, ◌≤◌, ◌≡◌, refl, sym, ap, ◌∙◌, arith, true, List, ◌++◌, ◌==◌, ==_iff, has,
  count-erase, inl, inr, Bool-cases,
}
use crunch_concurrency.LifoList.{
  Pc, push, push_loop, push_swap, pushed, pop, pop_loop, pop_swap, popped, step, root_pointer,
}
use crunch_concurrency.LifoList.Alone.{IsNode}
use crunch_concurrency.LifoList.History.{
  State, Thread, Choice, pushes, pops, noted, exchanges, loads, gained, empties, after, advance,
  begin, is_idle, act, IsTimely, IsTimelyAt,
}
use crunch_concurrency.LifoList.Aba.{owns, Loaded, Fits, FitsAt, ShowsStack}
use crunch_concurrency.LifoList.Steps.{
  IsKept, Leaves, load_lem, empties_lem, same_time, if-Leaves, push_loop_lem, push_won, pop_won,
}

module _ (start others : ℕ → ℕ) (nodes : (a : ℕ) → 1 ≤ start a → IsNode a)
    (once : (a : ℕ) → start a ≤ 1) where
  -- Where the exchange succeeds, no other has been made since the load.
  swap_lem :
      (s : State) (xs : List ℕ) (old_root k : ℕ)
      → ShowsStack s xs
      → Loaded s.list.root s.swaps old_root k
      → s.swaps < k + 2 ^ 16
      → (s.list.root == old_root) ≡ true
      → (old_root ≡ s.list.root) × (k ≡ s.swaps)
  swap_lem s xs old_root k v l timely won =
      let same : s.list.root ≡ old_root = (==_iff s.list.root old_root).0 won in
      let counters : s.list.root / 2 ^ 48 ≡ old_root / 2 ^ 48 = ap (λ r. r / 2 ^ 48) same in
      (sym same, same_time s.swaps k l.before timely (sym v.counted ∙ counters ∙ l.counter))

  found_lem :
      (s : State) (xs : List ℕ)
      → ShowsStack s xs
      → ShowsStack (record s { history = empties s.list.root ++ s.history }) xs
  found_lem s xs v = record { chain = v.chain; counted = v.counted; replays = empties_lem s xs v }

  advance_at :
      (p : Pc) (k : ℕ) (s : State) (xs : List ℕ)
      → ShowsStack s xs
      → IsKept start others s xs p
      → FitsAt s.list.root s.list.next s.swaps k p
      → IsTimelyAt s.swaps k p
      → Leaves start others s xs (after (record { at = p; stamp = k }) s (step p s.list))
  unfolding step after noted gained exchanges loads
  advance_at (push node) k s xs v o f t = (xs, v, o, load_lem s xs v, inl (refl, refl))
  advance_at (push_loop old_root node) k s xs v o f t =
      push_loop_lem start others nodes once old_root node k s xs v o f
  advance_at (push_swap old_root node) k s xs v o (l, e) t =
      if-Leaves start others nodes once (s.list.root == old_root)
        (record { at = push_swap old_root node; stamp = k }) s xs _ _
        (λ won.
          push_won start others nodes once old_root node k s xs v o e
            (swap_lem s xs old_root k v l t won).0)
        (λ lost. (xs, v, o, load_lem s xs v, inl (refl, refl)))
  advance_at pushed k s xs v o f t = (xs, v, o, tt, inl (refl, refl))
  advance_at pop k s xs v o f t = (xs, found_lem s xs v, o, load_lem s xs v, inl (refl, refl))
  advance_at (pop_loop old_root) k s xs v o f t =
      if-Leaves start others nodes once (root_pointer old_root == 0)
        (record { at = pop_loop old_root; stamp = k }) s xs _ _
        (λ null. (xs, v, o, tt, inl (refl, refl)))
        (λ full. (
          xs,
          v,
          o,
          (f, ground (arith, ==_iff (root_pointer old_root) 0), λ q. refl),
          inl (refl, refl),
        ))
  advance_at (pop_swap old_root following) k s xs v o (l, p, e) t =
      if-Leaves start others nodes once (s.list.root == old_root)
        (record { at = pop_swap old_root following; stamp = k }) s xs _ _
        (λ won.
          let (same, now) = swap_lem s xs old_root k v l t won in
          pop_won start others nodes once old_root following k s xs v o p (e now) same)
        (λ lost. (xs, found_lem s xs v, o, load_lem s xs v, inl (refl, refl)))
  advance_at (popped node) k s xs v o f t = (xs, v, o, tt, inl (refl, refl))

  idle_owns : (p : Pc) (a : ℕ) → is_idle p ≡ true → owns a p ≡ 0
  unfolding is_idle
  idle_owns (push node) a h = ground arith
  idle_owns (push_loop old_root node) a h = ground arith
  idle_owns (push_swap old_root node) a h = ground arith
  idle_owns pushed a h = refl
  idle_owns pop a h = refl
  idle_owns (pop_loop old_root) a h = refl
  idle_owns (pop_swap old_root following) a h = refl
  idle_owns (popped node) a h = refl

  begin_lem :
      (c : Choice) (s : State) (t : Thread) (xs : List ℕ)
      → ShowsStack s xs
      → IsKept start others s xs t.at
      → Fits s t
      → is_idle t.at ≡ true
      → Leaves start others s xs (begin c t s)
  unfolding begin
  begin_lem pops s t xs v o f idle =
      (xs, v, λ a. omega (arith, o a, idle_owns t.at a idle), tt, inl (refl, refl))
  begin_lem (pushes node) s t xs v o f idle = elim (Bool-cases (has node s.held)) [
    | inr absent ↦ rw absent (xs, v, o, f, inl (refl, refl))
    | inl here ↦ rw here (
      xs,
      record { chain = v.chain; counted = v.counted; replays = v.replays },
      λ a. omega (arith, o a, idle_owns t.at a idle, count-erase a node s.held here),
      tt,
      inl (refl, refl),
    )
  ]

  pub act_lem :
      (c : Choice) (s : State) (t : Thread) (xs : List ℕ)
      → ShowsStack s xs
      → IsKept start others s xs t.at
      → Fits s t
      → IsTimely s t
      → Leaves start others s xs (act c t s)
  unfolding act advance
  act_lem c s t xs v o f timely = elim (Bool-cases (is_idle t.at)) [
    | inl idle ↦ rw idle (begin_lem c s t xs v o f idle)
    | inr busy ↦ rw busy (advance_at t.at t.stamp s xs v o f timely)
  ]
