-- ===== src/Future/Handles.antt =====
-- include/crunch/concurrency/promise.hpp and future.hpp: the one promise and the futures that hold a
-- datum. Their pointers are crunch/base's intrusive pointers: a copy calls `AddRef`, a pointer that
-- goes calls `Release`, a move calls neither.
use crunch_concurrency.Base.{
  ℕ, ◌+◌, ◌-◌, Bool, true, false, Option, none, some, not, ◌&&◌, if◌then◌else◌, List, [], ◌∷◌, ltb,
}
use crunch_concurrency.Future.{
  FutureData, create, set_value, set_exception, add_ref, release, Released, fails, destroyed, keeps,
}

-- The calls on the handles of one datum
pub data HandleCall (T E : Type 0) : Type 0 where
  sets_value : T → HandleCall T E
  sets_exception : E → HandleCall T E
  gets_future copies_future drops_future moves_promise drops_promise : HandleCall T E

-- The datum, whether a promise holds it, and how many futures do.
pub record Shared (T E : Type 0) : Type 0 where
  pub datum : Released (FutureData T E)
  pub promise : Bool
  pub futures : ℕ

module _ {T E : Type 0} where
  -- `Promise::Promise`
  unfoldable pub new_promise : Shared T E
  new_promise = record { datum = keeps (add_ref (create 0)); promise = true; futures = 0 }

  -- A copy of a pointer, and a pointer that goes
  unfoldable pub copy_pointer : Released (FutureData T E) → Option (Released (FutureData T E))
  copy_pointer fails = none
  copy_pointer destroyed = none
  copy_pointer (keeps d) = some (keeps (add_ref d))

  unfoldable pub drop_pointer : Released (FutureData T E) → Option (Released (FutureData T E))
  drop_pointer fails = none
  drop_pointer destroyed = none
  drop_pointer (keeps d) = elim (release d) [
    | fails ↦ none
    | destroyed ↦ some destroyed
    | keeps d' ↦ some (keeps d')
  ]

  -- A call of a member function of the datum
  unfoldable pub on_datum :
      (FutureData T E → Option (FutureData T E))
      → Released (FutureData T E)
      → Option (Released (FutureData T E))
  on_datum f fails = none
  on_datum f destroyed = none
  on_datum f (keeps d) = elim (f d) [ none ↦ none | some d' ↦ some (keeps d') ]

  unfoldable pub with_datum : Option (Released (FutureData T E)) → Bool → ℕ → Option (Shared T E)
  with_datum none p n = none
  with_datum (some r) p n = some (record { datum = r; promise = p; futures = n })

  -- One call; `none` where the handle is not there or an assertion fails.
  unfoldable pub call : HandleCall T E → Shared T E → Option (Shared T E)
  unfolding with_datum
  call (sets_value v) s =
      if s.promise then with_datum (on_datum (set_value v) s.datum) true s.futures else none
  call (sets_exception e) s =
      if s.promise then with_datum (on_datum (set_exception e) s.datum) true s.futures else none
  call gets_future s =
      if s.promise then with_datum (copy_pointer s.datum) true (s.futures + 1) else none
  call copies_future s =
      if ltb 0 s.futures then with_datum (copy_pointer s.datum) s.promise (s.futures + 1) else none
  call drops_future s =
      if ltb 0 s.futures then with_datum (drop_pointer s.datum) s.promise (s.futures - 1) else none
  call moves_promise s = if s.promise then some s else none
  call drops_promise s =
      if s.promise then with_datum (drop_pointer s.datum) false s.futures else none

  unfoldable pub calls : List (HandleCall T E) → Shared T E → Option (Shared T E)
  calls [] s = some s
  calls (c ∷ cs) s = elim (call c s) [ none ↦ none | some s' ↦ calls cs s' ]

  unfoldable pub unset : Released (FutureData T E) → Bool
  unset fails = false
  unset destroyed = false
  unset (keeps d) = not d.ready

  -- Whether the caller has the handle, and the datum is not set twice.
  unfoldable pub allowed : HandleCall T E → Shared T E → Bool
  unfolding unset
  allowed (sets_value v) s = s.promise && unset s.datum
  allowed (sets_exception e) s = s.promise && unset s.datum
  allowed gets_future s = s.promise
  allowed copies_future s = ltb 0 s.futures
  allowed drops_future s = ltb 0 s.futures
  allowed moves_promise s = s.promise
  allowed drops_promise s = s.promise
