-- ===== src/LifoList/Steps.antt =====
-- include/crunch/concurrency/mpmc_lifo_list.hpp: each step of `Push` and `Pop` against the stack of the
-- events so far.
use crunch_concurrency.Base.{
  count-zero_has, ℕ, ◌+◌, ◌/◌, ◌%◌, ◌^◌, ◌<◌, ◌≤◌, ◌≡◌, refl, sym, ap, ◌∙◌, subst, arith, Bool,
  true, false, none, some, List, [], ◌∷◌, ◌++◌, ◌==◌, ==_iff, if◌then◌else◌, count, inl, inr,
  Bool-cases,
}
use crunch_concurrency.LifoList.{
  Memory, Pc, push_loop, push_swap, pushed, pop_swap, popped, step, root_pointer, root_counter,
}
use crunch_concurrency.LifoList.Alone.{
  IsNode, Chain, Chain-update, pushed_root, popped_root, Chain-small,
}
use crunch_concurrency.LifoList.History.{
  finds_empty, replay, replay_one, State, Thread, noted, exchanges, loads, gained, empties, after,
}
use crunch_concurrency.LifoList.Aba.{owns, Loaded, Fits, ShowsStack, Changes}

-- `start a` is how many nodes `a` there are; each is in the list, held, or being pushed.
abbrev pub IsKept : (start others : ℕ → ℕ) → State → List ℕ → Pc → Type 0
IsKept start others s xs p = (a : ℕ) → count a xs + count a s.held + owns a p + others a ≡ start a

-- What a step leaves that one thread makes on the list `xs`
abbrev pub Leaves : (start others : ℕ → ℕ) → State → List ℕ → State × Thread → Type 0
Leaves start others s xs r =
    (xs' : List ℕ) × ShowsStack r.0 xs'
    × IsKept start others r.0 xs' r.1.at
    × Fits r.0 r.1
    × Changes s xs others r.0

pushed_counter :
    (old_root node c : ℕ)
    → node < 2 ^ 48
    → old_root / 2 ^ 48 ≡ c % 2 ^ 16
    → ((node + 2 ^ 48) % 2 ^ 64 + root_counter old_root) % 2 ^ 64 / 2 ^ 48 ≡ (c + 1) % 2 ^ 16
unfolding root_counter
pushed_counter old_root node c small e = omega arith

popped_counter :
    (old_root following c : ℕ)
    → following < 2 ^ 48
    → old_root / 2 ^ 48 ≡ c % 2 ^ 16
    → (following + root_counter old_root + 2 ^ 48) % 2 ^ 64 / 2 ^ 48 ≡ (c + 1) % 2 ^ 16
unfolding root_counter
popped_counter old_root following c small e = omega arith

-- Where no more than 2 ^ 16 - 1 exchanges lie between, equal counters are of one time.
pub same_time :
    (swaps stamp : ℕ)
    → stamp ≤ swaps
    → swaps < stamp + 2 ^ 16
    → swaps % 2 ^ 16 ≡ stamp % 2 ^ 16
    → stamp ≡ swaps
same_time swaps stamp le lt e = omega arith

-- A load of the root finds it as it is, and finds the null pointer only in an empty list.
pub load_lem :
    (s : State) (xs : List ℕ) → ShowsStack s xs → Loaded s.list.root s.swaps s.list.root s.swaps
load_lem s xs v = record { before = omega arith; counter = v.counted; current = λ e. refl }

pub empties_lem :
    (s : State) (xs : List ℕ)
    → ShowsStack s xs
    → replay (empties s.list.root ++ s.history) ≡ some xs
unfolding replay
empties_lem s xs v = elim (Bool-cases (root_pointer s.list.root == 0)) [
  | inr full ↦ rw full v.replays
  | inl null ↦
      rw null (
        rw (v.replays, replay) (null_lem xs ((==_iff (root_pointer s.list.root) 0).0 null) v.chain))
]
  where
    null_lem :
        (ys : List ℕ)
        → root_pointer s.list.root ≡ 0
        → Chain s.list.next (root_pointer s.list.root) ys
        → replay_one finds_empty ys ≡ some ys
    null_lem [] e c = refl
    null_lem (y ∷ ys) e c = absurd (omega (arith, c.0, c.1.positive, e))

module _ (start others : ℕ → ℕ) (nodes : (a : ℕ) → 1 ≤ start a → IsNode a)
    (once : (a : ℕ) → start a ≤ 1) where
  pub if-Leaves :
      (b : Bool) (t : Thread) (s : State) (xs : List ℕ) (x y : Memory × Pc)
      → (b ≡ true → Leaves start others s xs (after t s x))
      → (b ≡ false → Leaves start others s xs (after t s y))
      → Leaves start others s xs (after t s (if b then x else y))
  if-Leaves true t s xs x y h k = h refl
  if-Leaves false t s xs x y h k = k refl

  own_lem :
      (s : State) (xs : List ℕ) (p : Pc) (node : ℕ)
      → IsKept start others s xs p
      → 1 ≤ owns node p
      → (count node xs ≡ 0) × (others node ≡ 0) × IsNode node
  own_lem s xs p node o h = (
    omega (arith, o node, once node),
    omega (arith, o node, once node),
    nodes node (omega (arith, o node)),
  )

  pub push_loop_lem :
      (old_root node k : ℕ) (s : State) (xs : List ℕ)
      → ShowsStack s xs
      → IsKept start others s xs (push_loop old_root node)
      → Loaded s.list.root s.swaps old_root k
      → Leaves start others s xs (
          after
            (record { at = push_loop old_root node; stamp = k })
            s
            (step (push_loop old_root node) s.list))
  unfolding step after noted gained exchanges loads
  push_loop_lem old_root node k s xs v o f =
      let (absent, alone, i) = own_lem s xs (push_loop old_root node) node o (ground arith) in
      (
        xs,
        record {
          chain =
              Chain-update s.list.next (root_pointer s.list.root) node (root_pointer old_root) xs
                (count-zero_has node xs absent) v.chain;
          counted = v.counted;
          replays = v.replays;
        },
        o,
        (f, ground arith),
        inr (inl (node, root_pointer old_root, refl, refl, absent, alone)),
      )

  pub push_won :
      (old_root node k : ℕ) (s : State) (xs : List ℕ)
      → ShowsStack s xs
      → IsKept start others s xs (push_swap old_root node)
      → s.list.next node ≡ root_pointer old_root
      → old_root ≡ s.list.root
      → Leaves start others s xs (
          after
            (record { at = push_swap old_root node; stamp = k })
            s
            (
              record s.list { root = ((node + 2 ^ 48) % 2 ^ 64 + root_counter old_root) % 2 ^ 64 },
              pushed,
            ))
  unfolding after noted gained exchanges loads replay
  push_won old_root node k s xs v o e same =
      let (absent, alone, i) = own_lem s xs (push_swap old_root node) node o (ground arith) in
      let rest : Chain s.list.next (s.list.next node) xs =
        subst (λ p. Chain s.list.next p xs) (ap root_pointer (sym same) ∙ sym e) v.chain in
      (
        node ∷ xs,
        record {
          chain = (pushed_root old_root node i.small, i, count-zero_has node xs absent, rest);
          counted =
              pushed_counter old_root node s.swaps i.small (ap (λ r. r / 2 ^ 48) same ∙ v.counted);
          replays = rw (v.replays, replay) refl;
        },
        λ a. omega (arith, o a),
        tt,
        inr (inr (refl, refl)),
      )

  pub pop_won :
      (old_root following k : ℕ) (s : State) (xs : List ℕ)
      → ShowsStack s xs
      → IsKept start others s xs (pop_swap old_root following)
      → 0 < root_pointer old_root
      → following ≡ s.list.next (root_pointer old_root)
      → old_root ≡ s.list.root
      → Leaves start others s xs (
          after
            (record { at = pop_swap old_root following; stamp = k })
            s
            (
              record s.list { root = (following + root_counter old_root + 2 ^ 48) % 2 ^ 64 },
              popped (root_pointer old_root),
            ))
  unfolding after noted gained exchanges loads replay
  pop_won old_root following k s [] v o p e same =
      let at_root : root_pointer old_root ≡ root_pointer s.list.root = ap root_pointer same in
      absurd (omega (arith, v.chain, at_root))
  pop_won old_root following k s (x ∷ xs) v o p e same =
      let at_root : root_pointer old_root ≡ x = ap root_pointer same ∙ v.chain.0 in
      let rest : Chain s.list.next following xs =
        subst (λ q. Chain s.list.next q xs) (ap s.list.next (sym at_root) ∙ sym e) v.chain.3 in
      let small : following < 2 ^ 48 = Chain-small s.list.next following xs rest in
      (
        xs,
        record {
          chain =
              subst (λ q. Chain s.list.next q xs) (sym (popped_root old_root following small)) rest;
          counted =
              popped_counter old_root following s.swaps small
                (ap (λ r. r / 2 ^ 48) same ∙ v.counted);
          replays = rw (v.replays, replay) (taken_lem x (root_pointer old_root) xs (sym at_root));
        },
        λ a. rw at_root (omega (arith, o a)),
        tt,
        inr (inr (refl, refl)),
      )
    where
      taken_lem : (y n : ℕ) (ys : List ℕ) → y ≡ n → (if y == n then some ys else none) ≡ some ys
      taken_lem y n ys e = ground arith
