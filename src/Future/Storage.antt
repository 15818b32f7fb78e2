-- ===== src/Future/Storage.antt =====
-- include/crunch/concurrency/detail/future_data.hpp: the value in the storage of a datum, and the
-- specialisation `FutureData<void>`, which has none.
use crunch_concurrency.Base.{
  ℕ, ◌≡◌, refl, arith, Bool, true, false, Option, none, some, not, ◌&&◌, ◌||◌, if◌then◌else◌, List,
  subst,
}
use crunch_concurrency.Future.{
  FutureData, create, has, set_value, add_ref, is_ready, has_value, keeps, Got, waits, returns,
  throws, get,
}
use crunch_concurrency.Future.Handles.{HandleCall, Shared, new_promise, calls}
use crunch_concurrency.Future.Invariants.{Alive, calls-Alive}

-- What `~FutureData` does with the storage of `T`
pub data Ends (T : Type 0) : Type 0 where
  nothing : Ends T
  destroys : T → Ends T
  undefined_end : Ends T  -- the destructor of an object that is not there

abbrev ended : {T : Type 0} → Option T → Ends T
ended none = undefined_end
ended (some v) = destroys v

module _ {T E : Type 0} where
  -- `~FutureData`
  unfoldable pub destructor : FutureData T E → Ends T
  unfolding has_value
  destructor d = if has_value d then ended d.result else nothing

  abbrev pub stored_value : FutureData T E → Ends T
  stored_value d = elim d.result [ none ↦ nothing | some v ↦ destroys v ]

  -- The event is set once the value is in the storage, or the exception is; never are both.
  abbrev Stores : FutureData T E → Type 0
  Stores d =
      (d.ready ≡ (has d.result || has d.exception)) × ((has d.result && has d.exception) ≡ false)

  destructor_lem : (d : FutureData T E) → Stores d → destructor d ≡ stored_value d
  unfolding destructor has_value is_ready
  destructor_lem d (r, b) = ground (arith, r, b)

fresh-Stores : (T E : Type 0) → Alive (Stores {T = T} {E = E}) (new_promise {T = T} {E = E}).datum
unfolding new_promise add_ref create
fresh-Stores T E = (refl, refl)

module _ {T E : Type 0} where
  -- After any calls on the handles of a new promise, the destructor of the datum destroys the value that
  -- is in the storage, if there is one, and never one that is not.
  pub destructor-stored :
      (cs : List (HandleCall T E)) (s : Shared T E) (d : FutureData T E)
      → calls cs new_promise ≡ some s
      → s.datum ≡ keeps d
      → destructor d ≡ stored_value d
  destructor-stored cs s d e k = destructor_lem d (
      subst (Alive Stores) k (
        calls-Alive Stores (λ d n h. h) (λ d v r h. ground (arith, r, h))
          (λ d x r h. ground (arith, r, h)) cs new_promise s (fresh-Stores T E) e))

-- `FutureData<void>`: the base, without storage
pub record VoidData (E : Type 0) : Type 0 where
  pub ready : Bool
  pub exception : Option E
  pub ref_count : ℕ

pub data GotVoid (E : Type 0) : Type 0 where
  waits_void returns_void : GotVoid E
  throws_void : E → GotVoid E

module _ {E : Type 0} where
  -- `Set` of `FutureData<void>`
  unfoldable pub set_void : VoidData E → Option (VoidData E)
  set_void d = if d.ready then none else some (record d { ready = true })

  abbrev rethrown : Option E → GotVoid E
  rethrown none = returns_void
  rethrown (some e) = throws_void e

  -- `Get` of `FutureData<void>`
  unfoldable pub get_void : VoidData E → GotVoid E
  get_void d = if d.ready then rethrown d.exception else waits_void

  -- The same data with a storage for a type of one value
  abbrev pub with_storage : VoidData E → FutureData Unit E
  with_storage d = record {
    ready = d.ready;
    result = if d.ready && not (has d.exception) then some tt else none;
    exception = d.exception;
    ref_count = d.ref_count;
  }

  abbrev pub as_got : GotVoid E → Got Unit E
  as_got waits_void = waits
  as_got returns_void = returns tt
  as_got (throws_void e) = throws e

  -- `FutureData<void>` is as `FutureData` of a type of one value: `Get` does the same, and so does `Set`,
  -- where a datum that is not ready has no exception.
  pub void-unit :
      (d : VoidData E)
      → (d.ready ≡ false → d.exception ≡ none)
      → (get (with_storage d) ≡ as_got (get_void d))
        × (set_value tt (with_storage d)
            ≡ elim (set_void d) [ none ↦ none | some d' ↦ some (with_storage d') ])
  unfolding get get_void set_value set_void
  void-unit d h = ground (arith, h)
