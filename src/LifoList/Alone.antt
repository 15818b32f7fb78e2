-- ===== src/LifoList/Alone.antt =====
-- What `Push` and `Pop` of an `MPMCLifoList` do that run with no other step between their own.
use crunch_concurrency.Base.{ℕ, ◌+◌, ◌%◌, ◌^◌, ◌<◌, ◌≡◌, List, [], ◌∷◌, arith, false, has}
use crunch_concurrency.Base.Machine.{update, solo, Reaches}
use crunch_concurrency.LifoList.{
  Memory, root_pointer, root_counter, push, pushed, pop, popped, step,
}

pub record IsNode (p : ℕ) : Type 0 where
  pub positive : 0 < p
  pub small : p < 2 ^ 48

-- From `p` the links lead through `xs`, without a repetition, to the null pointer.
abbrev pub Chain : (ℕ → ℕ) → ℕ → List ℕ → Type 0
Chain next p [] = p ≡ 0
Chain next p (x ∷ xs) = (p ≡ x) × IsNode x × (has x xs ≡ false) × Chain next (next x) xs

-- The list holds the nodes `xs`, the first to be popped first.
abbrev pub Shows : Memory → List ℕ → Type 0
Shows m xs = Chain m.next (root_pointer m.root) xs

pub Chain-small : (next : ℕ → ℕ) (p : ℕ) (xs : List ℕ) → Chain next p xs → p < 2 ^ 48
Chain-small next p [] c = omega (arith, c)
Chain-small next p (x ∷ xs) c = omega (arith, c.0, c.1.small)

pub Chain-update :
    (next : ℕ → ℕ) (p a b : ℕ) (xs : List ℕ)
    → has a xs ≡ false
    → Chain next p xs
    → Chain (update next a b) p xs
Chain-update next p a b [] h c = c
Chain-update next p a b (x ∷ xs) h c = ground (arith, Chain-update next (next x) a b xs)

pub pushed_root :
    (old node : ℕ)
    → node < 2 ^ 48
    → root_pointer (((node + 2 ^ 48) % 2 ^ 64 + root_counter old) % 2 ^ 64) ≡ node
unfolding root_pointer root_counter
pushed_root old node h = omega arith

pub popped_root :
    (old next : ℕ)
    → next < 2 ^ 48
    → root_pointer ((next + root_counter old + 2 ^ 48) % 2 ^ 64) ≡ next
unfolding root_pointer root_counter
popped_root old next h = omega arith

-- `Push` of a node that is not in the list puts it first.
pub push_alone :
    (m : Memory) (node : ℕ) (xs : List ℕ)
    → IsNode node
    → has node xs ≡ false
    → Shows m xs
    → (m' : Memory) × Reaches step (m, push node) (m', pushed) × Shows m' (node ∷ xs)
unfolding step solo
push_alone m node xs i h s = (
  record {
    root = ((node + 2 ^ 48) % 2 ^ 64 + root_counter m.root) % 2 ^ 64;
    next = update m.next node (root_pointer m.root);
  },
  (3, ground arith),
  (
    pushed_root m.root node i.small,
    i,
    h,
    ground (arith, Chain-update m.next (root_pointer m.root) node (root_pointer m.root) xs h s),
  ),
)

abbrev pub view_pop : List ℕ → List ℕ × ℕ
view_pop [] = ([], 0)
view_pop (x ∷ xs) = (xs, x)

-- `Pop` takes the first node and returns it, or returns the null pointer from an empty list.
pub pop_alone :
    (m : Memory) (xs : List ℕ)
    → Shows m xs
    → (m' : Memory) × Reaches step (m, pop) (m', popped (view_pop xs).1) × Shows m' (view_pop xs).0
unfolding step solo
pop_alone m [] s = (m, (2, ground arith), s)
pop_alone m (x ∷ xs) s = (
  record m { root = (m.next x + root_counter m.root + 2 ^ 48) % 2 ^ 64 },
  (3, ground (arith, s.1.positive)),
  rw (popped_root m.root (m.next x) (Chain-small m.next (m.next x) xs s.3)) s.3,
)
