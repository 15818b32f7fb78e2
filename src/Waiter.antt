-- ===== src/Waiter.antt =====
-- include/crunch/concurrency/waiter.hpp: a `Waiter` holds a function object, in its 16 bytes of storage
-- or on the heap, and calls and destroys it. Addresses are numbers, and so are function objects; what a
-- waiter is linked to is in WaiterList, and its memory in Allocator.
pub mod Lifetimes
pub mod Refinement
pub mod Sequences
mod Tests
use crunch_concurrency.Base.{
  ℕ, Bool, true, false, Option, none, some, List, [], ◌∷◌, ltb, ◌>>=◌, if◌then◌else◌,
}
use crunch_concurrency.Base.Machine.{update}

-- The static member that `mCallback` points to, of the `Typed<F>` where `sizeof(F)` is `size`
pub data Callback : Type 0 where
  invokes : (size : ℕ) → Callback
  invokes_and_destroys : (size : ℕ) → Callback

-- `mStorage`: it holds the function object itself, or a pointer to it.
pub data Storage : Type 0 where
  object : (f : ℕ) → Storage
  pointer : (p : ℕ) → Storage

pub record Waiter : Type 0 where
  pub callback : Callback
  pub storage : Storage

-- The waiters in use by address, the function objects on the heap by address, and the calls of function
-- objects so far, the last first.
pub record World : Type 0 where
  pub waiters : ℕ → Option Waiter
  pub heap : ℕ → Option ℕ
  pub called : List ℕ

-- `sizeof(F) > sizeof(StorageType)`
abbrev pub is_large : (size : ℕ) → Bool
is_large size = ltb 16 size

abbrev pub callback_for : (size : ℕ) → (destroy_on_notify : Bool) → Callback
callback_for size true = invokes_and_destroys size
callback_for size false = invokes size

-- `Create`: `Allocate` returns `address`, and `new F`, where it is called, `p`.
unfoldable pub create : (size f : ℕ) (destroy_on_notify : Bool) (address p : ℕ) → World → World
create size f destroy_on_notify address p w =
    let callback = callback_for size destroy_on_notify in
    if is_large size
    then record w {
      waiters =
          update w.waiters address (some (record { callback = callback; storage = pointer p }));
      heap = update w.heap p (some f);
    }
    else record w {
      waiters =
          update w.waiters address (some (record { callback = callback; storage = object f }));
    }

-- The function object that the storage of a waiter is read as; `none` where there is none.
unfoldable pub function_of : (size : ℕ) → Storage → World → Option ℕ
function_of size (object f) w = if is_large size then none else some f
function_of size (pointer p) w = if is_large size then w.heap p else none

-- `Typed<F>::Invoke`
unfoldable pub invoke : (size address : ℕ) → World → Option World
unfolding function_of
invoke size address w = do
  waiter ← w.waiters address
  f ← function_of size waiter.storage w
  some (record w { called = f ∷ w.called })

-- `Typed<F>::Destroy`: the function object, then `Free`
unfoldable pub destroy_object : (size address : ℕ) → Storage → World → Option World
destroy_object size address (object f) w =
    if is_large size then none else some (record w { waiters = update w.waiters address none })
destroy_object size address (pointer p) w =
    if is_large size
    then elim (w.heap p) [
      | none ↦ none
      | some f ↦
          some (record w { waiters = update w.waiters address none; heap = update w.heap p none })
    ]
    else none

unfoldable pub destroy : (size address : ℕ) → World → Option World
unfolding destroy_object
destroy size address w = do waiter ← w.waiters address; destroy_object size address waiter.storage w

-- `Typed<F>::InvokeAndDestroy`
unfoldable pub invoke_and_destroy : (size address : ℕ) → World → Option World
unfolding invoke destroy
invoke_and_destroy size address w = do called ← invoke size address w; destroy size address called

-- `mCallback(this)`
unfoldable pub call_back : Callback → (address : ℕ) → World → Option World
unfolding invoke invoke_and_destroy
call_back (invokes size) address w = invoke size address w
call_back (invokes_and_destroys size) address w = invoke_and_destroy size address w

-- `Notify`
unfoldable pub notify : (address : ℕ) → World → Option World
unfolding call_back
notify address w = do waiter ← w.waiters address; call_back waiter.callback address w
