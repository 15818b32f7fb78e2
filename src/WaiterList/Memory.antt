-- ===== src/WaiterList/Memory.antt =====
-- The memory of a waiter list: its atomic word, the `next` fields of the waiters by address, and a
-- log of the waiters notified, oldest first. One access of the word is one step.
use crunch_concurrency.Base.{ℕ, List, [], ◌∷◌, ◌++◌, ◌==◌, if◌then◌else◌}
use crunch_concurrency.Base.Machine.{update}
use crunch_concurrency.WaiterList.Packed.{without_lock}

pub record Waiters : Type 0 where
  pub word : ℕ
  pub next : ℕ → ℕ
  pub notified : List ℕ

-- `CompareAndSwap(cmp, src)`: where it fails, the thread goes on with the value that it met.
abbrev pub cas : {P : Type 0} → Waiters → ℕ → ℕ → P → (ℕ → P) → Waiters × P
cas m cmp src won lost = if m.word == cmp then (record m { word = src }, won) else (m, lost m.word)

-- `a->next = p`
abbrev pub link : Waiters → ℕ → ℕ → Waiters
link m a p = record m { next = update m.next a p }

-- `a->Notify()`: the callback of the waiter is called.
abbrev pub notify : Waiters → ℕ → Waiters
notify m a = record m { notified = m.notified ++ a ∷ [] }

-- `Unlock()`: `And(~LOCK_BIT)`
abbrev pub unlock : Waiters → Waiters
unlock m = record m { word = without_lock m.word }
