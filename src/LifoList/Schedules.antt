-- ===== src/LifoList/Schedules.antt =====
-- include/crunch/concurrency/mpmc_lifo_list.hpp: one list, any threads, any schedule.
use crunch_concurrency.Base.{
  ℕ, ◌+◌, ◌-◌, ◌<◌, ◌≤◌, ◌≡◌, refl, arith, some, List, [], ◌==◌, count, inl, inr, Bool-cases,
}
use crunch_concurrency.Base.Machine.{
  System, Along, update, run, run-keeps_along, total, total-update, le-total, total-eq-zero,
}
use crunch_concurrency.Base.Totals.{total-others}
use crunch_concurrency.LifoList.{init, pushed, root_pointer}
use crunch_concurrency.LifoList.Alone.{IsNode, Shows}
use crunch_concurrency.LifoList.History.{State, Thread, Choice, act, replay, IsTimely}
use crunch_concurrency.LifoList.Aba.{owns, Fits, ShowsStack, Changes-Fits}
use crunch_concurrency.LifoList.Turns.{act_lem}

-- The list shows the events so far; each node is in it, held, or being pushed.
record Linear (start : ℕ → ℕ) (n : ℕ) (s : System State Thread) (xs : List ℕ) : Type 0 where
  shown : ShowsStack s.mem xs
  kept : (a : ℕ) → count a xs + count a s.mem.held + total (λ t. owns a t.at) n s.pc ≡ start a
  fits : (j : ℕ) → j < n → Fits s.mem (s.pc j)

abbrev Inv : (start : ℕ → ℕ) → ℕ → System State Thread → Type 0
Inv start n s = (xs : List ℕ) × Linear start n s xs

abbrev rests : Thread
rests = record { at = pushed; stamp = 0 }

turn-Inv :
    (start : ℕ → ℕ) (nodes : (a : ℕ) → 1 ≤ start a → IsNode a) (once : (a : ℕ) → start a ≤ 1)
    (n : ℕ) (s : System State Thread) (i : ℕ) (c : Choice)
    → i < n
    → IsTimely s.mem (s.pc i)
    → Inv start n s
    → let r = act c (s.pc i) s.mem in Inv start n (record { mem = r.0; pc = update s.pc i r.1 })
turn-Inv start nodes once n s i c lt timely (xs, v) =
    let others = λ (a : ℕ). total (λ t. owns a t.at) n s.pc - owns a (s.pc i).at in
    let mine = λ (a : ℕ). le-total (λ t. owns a t.at) n s.pc i lt in
    let (xs', shown, kept, fits, changes) =
      act_lem start others nodes once c s.mem (s.pc i) xs v.shown
        (λ a. omega (arith, v.kept a, mine a)) (v.fits i lt) timely in
    let r = act c (s.pc i) s.mem in
    (
      xs',
      record {
        shown = shown;
        kept = λ a. omega (arith, kept a, mine a, total-update (λ t. owns a t.at) n s.pc i r.1 lt);
        fits = λ j h. elim (Bool-cases (i == j)) [
          | inl same ↦ rw same fits
          | inr other ↦ rw other (
              Changes-Fits s.mem r.0 xs others (s.pc j) v.shown.chain
                (λ a. total-others (λ t. owns a t.at) n s.pc i j rests refl lt h other) changes
                (v.fits j h))
        ];
      },
    )

-- An empty list, and the nodes that the program holds
abbrev pub fresh : List ℕ → System State Thread
fresh held = record {
  mem = record { list = init; held = held; history = []; swaps = 0 };
  pc = λ _. rests;
}

fresh-Inv : (n : ℕ) (held : List ℕ) → Inv (λ a. count a held) n (fresh held)
unfolding init root_pointer replay
fresh-Inv n held = (
  [],
  record {
    shown = record { chain = refl; counted = refl; replays = refl };
    kept = λ a. omega (arith, total-eq-zero (λ t. owns a t.at) n rests refl);
    fits = λ j h. tt;
  },
)

module _ (n : ℕ) (held : List ℕ) (nodes : (a : ℕ) → 1 ≤ count a held → IsNode a)
    (once : (a : ℕ) → count a held ≤ 1) (cs : List (ℕ × Choice))
    (timely : Along act IsTimely n (fresh held) cs) where
  abbrev pub after_turns : System State Thread
  after_turns = run act n (fresh held) cs

  after-Inv : Inv (λ a. count a held) n after_turns
  after-Inv =
      run-keeps_along act IsTimely n (Inv (λ a. count a held) n)
        (λ s i c lt ok v. turn-Inv (λ a. count a held) nodes once n s i c lt ok v) (fresh held) cs
        timely (fresh-Inv n held)

  -- An empty list and threads that push nodes which the program holds, each once, and pop nodes, in any
  -- schedule along which a thread that comes to its exchange finds that fewer than 2 ^ 16 others have
  -- been made since it loaded the root: the nodes pushed, those popped and the loads of an empty list
  -- are, in the order of the exchanges and those loads, what one stack does; the list shows that stack;
  -- and each node is in the list, or held by the program, or being pushed by one thread, as often as it
  -- was held at the start. So a node that is popped and pushed again between a load and an exchange does
  -- no harm, none is lost and none is in two places.
  pub history-is_stack :
      (xs : List ℕ) × (replay after_turns.mem.history ≡ some xs)
      × Shows after_turns.mem.list xs
      × ((a : ℕ)
          → count a xs + count a after_turns.mem.held + total (λ t. owns a t.at) n after_turns.pc
            ≡ count a held)
  history-is_stack = let (xs, v) = after-Inv in (xs, v.shown.replays, v.shown.chain, v.kept)
