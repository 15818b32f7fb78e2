-- ===== src/LifoQueue.antt =====
-- include/crunch/concurrency/mpmc_lifo_queue.hpp: `MPMCLifoQueue` for one thread at a time. Its two
-- lists of nodes are the lists that LifoList/Alone shows; `new` gives a node that neither has.
pub mod Refinement
mod Tests
use crunch_concurrency.Base.{ℕ, Bool, false, Option, none, some, List, [], ◌∷◌, ◌++◌}
use crunch_concurrency.Base.Machine.{update}

-- `storage` of the nodes, `mQueueNodes` and `mFreeNodes`
pub record Queue (T : Type 0) : Type 0 where
  pub storage : ℕ → Option T
  pub queue_nodes : List ℕ
  pub free_nodes : List ℕ

module _ {T : Type 0} (new_node : List ℕ → ℕ) where
  -- `Push`
  unfoldable pub push : T → Queue T → Queue T
  push value q = elim (q.free_nodes) [
    | [] ↦
        let node = new_node (q.queue_nodes ++ []) in
        record q {
          storage = update q.storage node (some value);
          queue_nodes = node ∷ q.queue_nodes;
        }
    | node ∷ rest ↦ record {
      storage = update q.storage node (some value);
      queue_nodes = node ∷ q.queue_nodes;
      free_nodes = rest;
    }
  ]

module _ {T : Type 0} where
  -- `TryPop`, with what it returns. Where there is a value it moves the value out and puts the node on
  -- `mFreeNodes`, and then the function ends with no return statement: its behaviour is undefined, which
  -- is `none`.
  unfoldable pub try_pop : Queue T → Option (Queue T × Bool)
  try_pop q = elim (q.queue_nodes) [ [] ↦ some (q, false) | node ∷ rest ↦ none ]
