-- ===== src/Future.antt =====
-- include/crunch/concurrency/detail/future_data.hpp: the data that a promise and its futures share. The
-- event under it is its state here: `Event::Set` and its waiters are in Event. `none` is a failed
-- CRUNCH_ASSERT, which the build may turn off.
mod Tests
pub mod Handles
pub mod Invariants
pub mod Answer
pub mod Storage
pub mod Counting
use crunch_concurrency.Base.{
  ℕ, zero, suc, ◌+◌, ◌-◌, ◌%◌, ◌^◌, ◌<◌, ◌≤◌, ◌≡◌, refl, arith, Bool, true, false, Option, none,
  some, not, ◌&&◌, ◌==◌, if◌then◌else◌, List, [], ◌∷◌, length, ltb, ◌⊎◌, inl, inr, Bool-cases,
}

-- Whether the event is set, the storage of the result, `mException` and `mRefCount` (`uint32_t`).
pub record FutureData (T E : Type 0) : Type 0 where
  pub ready : Bool
  pub result : Option T
  pub exception : Option E
  pub ref_count : ℕ

abbrev pub has : {A : Type 0} → Option A → Bool
has none = false
has (some _) = true

-- What `Get` does: it waits while the future is not ready, returns the value or throws.
pub data Got (T E : Type 0) : Type 0 where
  waits : Got T E
  returns : T → Got T E
  throws : E → Got T E
  undefined : Got T E  -- a reference to storage that holds no value

module _ {T E : Type 0} where
  unfoldable pub create : (ref_count : ℕ) → FutureData T E
  create ref_count = record {
    ready = false;
    result = none;
    exception = none;
    ref_count = ref_count;
  }

  -- `Set` and `SetException`, with CRUNCH_ASSERT on or off: off, a datum that is set already is set
  -- again, with what it holds written over.
  abbrev pub set_value_in : (checks : Bool) → T → FutureData T E → Option (FutureData T E)
  set_value_in checks v d =
      if checks && d.ready then none else some (record d { result = some v; ready = true })

  abbrev pub set_exception_in : (checks : Bool) → E → FutureData T E → Option (FutureData T E)
  set_exception_in checks e d =
      if checks && d.ready then none else some (record d { exception = some e; ready = true })

  -- The two with CRUNCH_ASSERT on
  unfoldable pub set_value : T → FutureData T E → Option (FutureData T E)
  set_value = set_value_in true

  unfoldable pub set_exception : E → FutureData T E → Option (FutureData T E)
  set_exception = set_exception_in true

  -- `IsReady`, `HasValue` and `HasException`
  unfoldable pub is_ready : FutureData T E → Bool
  is_ready d = d.ready

  unfoldable pub has_value : FutureData T E → Bool
  unfolding is_ready
  has_value d = is_ready d && not (has d.exception)

  unfoldable pub has_exception : FutureData T E → Bool
  unfolding is_ready
  has_exception d = is_ready d && has d.exception

  stored : Option T → Got T E
  stored none = undefined
  stored (some v) = returns v

  thrown : Option E → Option T → Got T E
  unfolding stored
  thrown none r = stored r
  thrown (some e) r = throws e

  -- `Get`
  unfoldable pub get : FutureData T E → Got T E
  unfolding thrown
  get d = if d.ready then thrown d.exception d.result else waits

  -- `AddRef`
  unfoldable pub add_ref : FutureData T E → FutureData T E
  add_ref d = record d { ref_count = (d.ref_count + 1) % 2 ^ 32 }

-- What `Release` does: a failed assertion, the object destroyed, or the object.
pub data Released (A : Type 0) : Type 0 where
  fails destroyed : Released A
  keeps : A → Released A

module _ {T E : Type 0} where
  -- `Release`
  unfoldable pub release : FutureData T E → Released (FutureData T E)
  release d =
      if not (ltb 0 d.ref_count)
      then fails
      else (if d.ref_count == 1
          then destroyed
          else keeps (record d { ref_count = d.ref_count - 1 }))

  -- The first of `Set` and `SetException` decides: on a fresh future either succeeds, `Get` then
  -- returns that value or throws that exception and never reads empty storage, exactly one of
  -- `HasValue` and `HasException` holds, and every later `Set` and `SetException` fails its assertion.
  -- Before it `Get` waits.
  pub first_set_decides :
      (n : ℕ) (v v' : T) (e e' : E)
      → (get {T = T} {E = E} (create n) ≡ waits)
        × ((d : FutureData T E) × (set_value v (create n) ≡ some d)
            × (get d ≡ returns v)
            × (has_value d ≡ true)
            × (has_exception d ≡ false)
            × (set_value v' d ≡ none)
            × (set_exception e' d ≡ none))
        × ((d : FutureData T E) × (set_exception e (create n) ≡ some d)
            × (get d ≡ throws e)
            × (has_value d ≡ false)
            × (has_exception d ≡ true)
            × (set_value v' d ≡ none)
            × (set_exception e' d ≡ none))
  unfolding get create set_value set_exception has_value has_exception
  first_set_decides n v v' e e' = (
    refl,
    (
      record { ready = true; result = some v; exception = none; ref_count = n },
      refl,
      refl,
      refl,
      refl,
      refl,
      refl,
    ),
    (
      record { ready = true; result = none; exception = some e; ref_count = n },
      refl,
      refl,
      refl,
      refl,
      refl,
      refl,
    ),
  )

pub data RefCall : Type 0 where
  adds releases : RefCall

module _ {T E : Type 0} where
  -- Calls of `AddRef` and `Release`, until the object is destroyed.
  unfoldable pub ref_calls : List RefCall → FutureData T E → Released (FutureData T E)
  unfolding add_ref release
  ref_calls [] d = keeps d
  ref_calls (adds ∷ cs) d = ref_calls cs (add_ref d)
  ref_calls (releases ∷ cs) d = elim (release d) [
    | fails ↦ fails
    | destroyed ↦ destroyed
    | keeps d' ↦ ref_calls cs d'
  ]

abbrev pub added : List RefCall → ℕ
added [] = 0
added (adds ∷ cs) = suc (added cs)
added (releases ∷ cs) = added cs

abbrev pub dropped : List RefCall → ℕ
dropped [] = 0
dropped (adds ∷ cs) = dropped cs
dropped (releases ∷ cs) = suc (dropped cs)

module _ {T E : Type 0} where
  -- From a positive count, while the count cannot wrap, no `Release` fails its assertion. Either the
  -- object lives, and its count is positive and has followed every call; or it has been destroyed, by a
  -- `Release`, after at least as many of them as the count was at first.
  pub ref_calls-count :
      (cs : List RefCall) (d : FutureData T E)
      → 0 < d.ref_count
      → d.ref_count + length cs < 2 ^ 32
      → ((d' : FutureData T E) × (ref_calls cs d ≡ keeps d')
          × (0 < d'.ref_count)
          × (d'.ref_count + dropped cs ≡ d.ref_count + added cs))
        ⊎ ((ref_calls cs d ≡ destroyed) × (d.ref_count ≤ dropped cs))
  unfolding ref_calls add_ref release
  ref_calls-count [] d p b = inl (d, refl, p, omega arith)
  ref_calls-count (adds ∷ cs) d p b =
      elim (ref_calls-count cs (add_ref d) (omega arith) (omega arith)) [
        | inl (d', e, q, c) ↦ inl (d', e, q, omega arith)
        | inr (e, l) ↦ inr (e, omega arith)
      ]
  ref_calls-count (releases ∷ cs) d p b = elim (Bool-cases (d.ref_count == 1)) [
    | inl last ↦ inr (ground arith, ground arith)
    | inr more ↦
        elim (ref_calls-count cs (record d { ref_count = d.ref_count - 1 }) (ground arith)
          (omega arith)) [
            | inl (d', e, q, c) ↦ inl (d', ground arith, q, ground arith)
            | inr (e, l) ↦ inr (ground arith, ground arith)
          ]
  ]
