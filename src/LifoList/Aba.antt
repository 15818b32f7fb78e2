-- ===== src/LifoList/Aba.antt =====
-- include/crunch/concurrency/mpmc_lifo_list.hpp: what one step of one thread keeps, beside any others.
use crunch_concurrency.Base.{
  ℕ, ◌+◌, ◌/◌, ◌%◌, ◌^◌, ◌<◌, ◌≤◌, ◌≡◌, ap, ◌∙◌, subst, arith, some, List, [], ◌∷◌, ◌==◌, ==_iff,
  bit, count, ◌⊎◌, inl, inr, Bool-cases,
}
use crunch_concurrency.Base.Machine.{update}
use crunch_concurrency.LifoList.{
  Pc, push, push_loop, push_swap, pushed, pop, pop_loop, pop_swap, popped, root_pointer,
}
use crunch_concurrency.LifoList.Alone.{Chain}
use crunch_concurrency.LifoList.History.{replay, State, Thread}

-- 1 where the thread is pushing the node `a`.
abbrev pub owns : ℕ → Pc → ℕ
owns a (push node) = bit (node == a)
owns a (push_loop old_root node) = bit (node == a)
owns a (push_swap old_root node) = bit (node == a)
owns a _ = 0

-- A root that was loaded when `stamp` exchanges had been made
pub record Loaded (root swaps old_root stamp : ℕ) : Type 0 where
  pub before : stamp ≤ swaps
  pub counter : old_root / 2 ^ 48 ≡ stamp % 2 ^ 16
  pub current : stamp ≡ swaps → old_root ≡ root

-- What a thread knows of the memory at each of its points
abbrev pub FitsAt : (root : ℕ) → (next : ℕ → ℕ) → (swaps stamp : ℕ) → Pc → Type 0
FitsAt root next swaps stamp (push_loop old_root node) = Loaded root swaps old_root stamp
FitsAt root next swaps stamp (push_swap old_root node) =
    Loaded root swaps old_root stamp × (next node ≡ root_pointer old_root)
FitsAt root next swaps stamp (pop_loop old_root) = Loaded root swaps old_root stamp
FitsAt root next swaps stamp (pop_swap old_root following) =
    Loaded root swaps old_root stamp
    × (0 < root_pointer old_root)
    × (stamp ≡ swaps → following ≡ next (root_pointer old_root))
FitsAt root next swaps stamp _ = Unit

abbrev pub Fits : State → Thread → Type 0
Fits s t = FitsAt s.list.root s.list.next s.swaps t.stamp t.at

-- The memory shows the stack that the events so far make.
pub record ShowsStack (s : State) (xs : List ℕ) : Type 0 where
  pub chain : Chain s.list.next (root_pointer s.list.root) xs
  pub counted : s.list.root / 2 ^ 48 ≡ s.swaps % 2 ^ 16
  pub replays : replay s.history ≡ some xs

-- How a step may change what other threads know: not at all; by the link of a node that is neither in
-- the list nor another thread's; or by an exchange.
abbrev pub Changes : State → List ℕ → (others : ℕ → ℕ) → State → Type 0
Changes s xs others s' =
    ((s'.list ≡ s.list) × (s'.swaps ≡ s.swaps))
    ⊎ (((node : ℕ) × (link : ℕ) × (s'.list ≡ record s.list { next = update s.list.next node link })
          × (s'.swaps ≡ s.swaps)
          × (count node xs ≡ 0)
          × (others node ≡ 0))
        ⊎ ((s'.list.next ≡ s.list.next) × (s'.swaps ≡ s.swaps + 1)))

-- The head of a list that is not empty is in it.
head-count : (next : ℕ → ℕ) (p : ℕ) (xs : List ℕ) → Chain next p xs → 0 < p → 1 ≤ count p xs
head-count next p [] c h = absurd (omega arith)
head-count next p (x ∷ xs) c h = ground arith

Loaded-swap :
    (root root' swaps old_root stamp : ℕ)
    → Loaded root swaps old_root stamp
    → Loaded root' (swaps + 1) old_root stamp
Loaded-swap root root' swaps old_root stamp l = record {
  before = omega (arith, l.before);
  counter = l.counter;
  current = λ e. absurd (omega (arith, l.before));
}

-- An exchange leaves what the other threads know.
FitsAt-swap :
    (root root' : ℕ) (next : ℕ → ℕ) (swaps stamp : ℕ) (p : Pc)
    → FitsAt root next swaps stamp p
    → FitsAt root' next (swaps + 1) stamp p
FitsAt-swap root root' next swaps stamp (push node) f = tt
FitsAt-swap root root' next swaps stamp (push_loop old_root node) f =
    Loaded-swap root root' swaps old_root stamp f
FitsAt-swap root root' next swaps stamp (push_swap old_root node) (l, e) =
    (Loaded-swap root root' swaps old_root stamp l, e)
FitsAt-swap root root' next swaps stamp pushed f = tt
FitsAt-swap root root' next swaps stamp pop f = tt
FitsAt-swap root root' next swaps stamp (pop_loop old_root) f =
    Loaded-swap root root' swaps old_root stamp f
FitsAt-swap root root' next swaps stamp (pop_swap old_root following) (l, p, e) =
    (Loaded-swap root root' swaps old_root stamp l, p, λ q. absurd (omega (arith, l.before)))
FitsAt-swap root root' next swaps stamp (popped node) f = tt

-- So does a write of the link of a node that is neither in the list nor theirs.
FitsAt-write :
    (root : ℕ) (next : ℕ → ℕ) (swaps stamp : ℕ) (p : Pc) (node link : ℕ) (xs : List ℕ)
    → Chain next (root_pointer root) xs
    → count node xs ≡ 0
    → owns node p ≡ 0
    → FitsAt root next swaps stamp p
    → FitsAt root (update next node link) swaps stamp p
FitsAt-write root next swaps stamp (push n) node link xs c absent free f = tt
FitsAt-write root next swaps stamp (push_loop old_root n) node link xs c absent free f = f
FitsAt-write root next swaps stamp (push_swap old_root n) node link xs c absent free (l, e) =
    (l, ground (arith, ==_iff n node, ==_iff node n))
FitsAt-write root next swaps stamp pushed node link xs c absent free f = tt
FitsAt-write root next swaps stamp pop node link xs c absent free f = tt
FitsAt-write root next swaps stamp (pop_loop old_root) node link xs c absent free f = f
FitsAt-write root next swaps stamp (pop_swap old_root following) node link xs c absent free
      (l, p, e) =
    (
      l,
      p,
      λ q.
          let same : root_pointer old_root ≡ root_pointer root = ap root_pointer (l.current q) in
          let (to, from) = ==_iff node (root_pointer old_root) in
          elim (Bool-cases (node == root_pointer old_root)) [
            | inr other ↦ rw other (e q)
            | inl here ↦
                let inside : 1 ≤ count (root_pointer root) xs =
                  head-count next (root_pointer root) xs c (subst (λ r. 0 < r) same p) in
                let outside : count (root_pointer root) xs ≡ 0 =
                  subst (λ a. count a xs ≡ 0) (to here ∙ same) absent in
                absurd (omega (arith, inside, outside))
          ],
    )
FitsAt-write root next swaps stamp (popped n) node link xs c absent free f = tt

-- Through any change, what another thread knows stays true.
pub Changes-Fits :
    (s s' : State) (xs : List ℕ) (others : ℕ → ℕ) (t : Thread)
    → Chain s.list.next (root_pointer s.list.root) xs
    → ((a : ℕ) → owns a t.at ≤ others a)
    → Changes s xs others s'
    → Fits s t
    → Fits s' t
Changes-Fits s s' xs others t c own (inl (e, k)) f = rw (e, k) f
Changes-Fits s s' xs others t c own (inr (inl (node, link, e, k, absent, free))) f =
    rw (e, k)
      (FitsAt-write s.list.root s.list.next s.swaps t.stamp t.at node link xs c absent
        (omega (arith, own node)) f)
Changes-Fits s s' xs others t c own (inr (inr (e, k))) f =
    rw (e, k) (FitsAt-swap s.list.root s'.list.root s.list.next s.swaps t.stamp t.at f)
