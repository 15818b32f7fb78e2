-- ===== src/Allocator.antt =====
-- source/waiter.cpp: `WaiterAllocator`, `Waiter::Allocate` and `Waiter::Free` as a machine of atomic
-- steps. Each thread has a list of free waiters of its own; the allocator has one for all, which is
-- reached through a packed word (the 64-bit branch), and takes memory from `malloc` where it is empty.
pub mod Ownership
pub mod Schedules
mod Tests
use crunch_concurrency.Base.{
  ℕ, ◌+◌, ◌*◌, ◌/◌, ◌%◌, ◌^◌, Bool, not, ◌&&◌, List, [], ◌∷◌, has, erase, ltb, ◌==◌, if◌then◌else◌,
}
use crunch_concurrency.Base.Machine.{update}

-- `mFreeList`, the links of the waiters, `mAllocations`, and the waiters that the program holds: those
-- that `Allocate` has returned and `Free` has not been given back.
pub record Memory : Type 0 where
  pub free_list : ℕ
  pub next : ℕ → ℕ
  pub allocations : List ℕ
  pub in_use : List ℕ

unfoldable pub init : Memory
init = record { free_list = 0; next = λ _. 0; allocations = []; in_use = [] }

-- `GetPointer` and `SetPointer`, of a pointer of 48 bits
unfoldable pub get_pointer : ℕ → ℕ
get_pointer w = w % 2 ^ 48

unfoldable pub set_pointer : ℕ → ℕ → ℕ
set_pointer w p = w / 2 ^ 48 * 2 ^ 48 + p

-- `+ ABA_ADDEND`
unfoldable pub add_aba : ℕ → ℕ
add_aba w = (w + 2 ^ 48) % 2 ^ 64

pub data Pc : Type 0 where
  idle : Pc
  load : Pc  -- `WaiterAllocator::Allocate`
  loop : (head : ℕ) → Pc  -- the test of the loop, and `malloc` where the list is empty
  pop : (head next : ℕ) → Pc  -- before the compare-and-swap
  free_load : (node : ℕ) → Pc  -- `WaiterAllocator::Free`
  free_loop : (head node : ℕ) → Pc
  free_swap : (head node : ℕ) → Pc  -- `node->next` is set: before the compare-and-swap

-- A thread: `tWaiterFreeList`, and where it stands.
pub record Thread : Type 0 where
  pub local_free : ℕ
  pub at : Pc

-- The calls of the thread, a write to the link of a waiter that it uses, and the address that `malloc`
-- returns.
pub data Choice : Type 0 where
  allocates : Choice
  frees frees_global : (waiter : ℕ) → Choice
  links : (waiter next : ℕ) → Choice
  mallocs : (address : ℕ) → Choice

-- What `malloc` may return: an address that is not in use, since no memory is freed before the end.
unfoldable pub is_fresh : ℕ → Memory → Bool
is_fresh p m = ltb 0 p && ltb p (2 ^ 48) && not (has p m.allocations)

-- `Waiter::Allocate`, `Waiter::Free`, `Waiter::FreeGlobal`: the first step.
unfoldable pub start : Choice → Thread → Memory → Memory × Thread
start allocates t m = if t.local_free == 0 then (m, record t { at = load }) else (
  record m { in_use = t.local_free ∷ m.in_use },
  record t { local_free = m.next t.local_free },
)
start (frees w) t m =
    if has w m.in_use
    then (
      record m { in_use = erase w m.in_use; next = update m.next w t.local_free },
      record t { local_free = w },
    )
    else (m, t)
start (frees_global w) t m =
    if has w m.in_use
    then (record m { in_use = erase w m.in_use }, record t { at = free_load w })
    else (m, t)
start (links w p) t m = (if has w m.in_use then record m { next = update m.next w p } else m, t)
start (mallocs p) t m = (m, t)

-- `malloc`, and the entry in `mAllocations`
unfoldable pub allocate_new : Choice → Thread → Memory → Memory × Thread
unfolding is_fresh
allocate_new (mallocs p) t m =
    if is_fresh p m
    then (
      record m { allocations = p ∷ m.allocations; in_use = p ∷ m.in_use },
      record t { at = idle },
    )
    else (m, t)
allocate_new _ t m = (m, t)

-- One step of a thread.
unfoldable pub step_at : Choice → Pc → Thread → Memory → Memory × Thread
unfolding start allocate_new
step_at c idle t m = start c t m
step_at c load t m = (m, record t { at = loop m.free_list })
step_at c (loop head) t m =
    if get_pointer head == 0
    then allocate_new c t m
    else (m, record t { at = pop head (m.next (get_pointer head)) })
step_at c (pop head next) t m =
    if m.free_list == head
    then (
      record m {
        free_list = add_aba (set_pointer head next);
        in_use = get_pointer head ∷ m.in_use;
      },
      record t { at = idle },
    )
    else (m, record t { at = loop m.free_list })
step_at c (free_load node) t m = (m, record t { at = free_loop m.free_list node })
step_at c (free_loop head node) t m = (
  record m { next = update m.next node (get_pointer head) },
  record t { at = free_swap head node },
)
step_at c (free_swap head node) t m =
    if m.free_list == head
    then (record m { free_list = add_aba (set_pointer head node) }, record t { at = idle })
    else (m, record t { at = free_loop m.free_list node })

unfoldable pub step : Choice → Thread → Memory → Memory × Thread
unfolding step_at
step c t m = step_at c t.at t m
