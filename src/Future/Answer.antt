-- ===== src/Future/Answer.antt =====
-- include/crunch/concurrency/promise.hpp and future.hpp: what a future answers once its promise is set.
use crunch_concurrency.Base.{
  ℕ, ◌≡◌, refl, ap, Bool, true, false, Option, none, some, ◌>>=◌, List, [], ◌∷◌, arith,
}
use crunch_concurrency.Future.{
  FutureData, Released, Got, waits, returns, throws, create, set_value_in, set_exception_in, get,
}
use crunch_concurrency.Future.Handles.{HandleCall, Shared, calls}
use crunch_concurrency.Future.Invariants.{Alive, calls-Alive}

module _ {T E : Type 0} where
  -- The datum is set and gives the answer `g`.
  abbrev Gives : Got T E → FutureData T E → Type 0
  Gives g d = (d.ready ≡ true) × (get d ≡ g)

  -- The same of a datum that lives
  abbrev Answers : Got T E → Released (FutureData T E) → Type 0
  Answers g = Alive (Gives g)

  -- Once the datum is set, calls on the handles that go through, with CRUNCH_ASSERT on, do not change
  -- what `Get` answers while the datum lives: copies, moves, and the end of the promise or of futures.
  calls-Answers :
      (cs : List (HandleCall T E)) (g : Got T E) (s s' : Shared T E)
      → Answers g s.datum
      → calls cs s ≡ some s'
      → Answers g s'.datum
  unfolding get
  calls-Answers cs g s s' h e =
      calls-Alive (Gives g) (λ d n k. k) (λ d v r k. absurd (ground (arith, r, k.0)))
        (λ d x r k. absurd (ground (arith, r, k.0))) cs s s' h e

-- A call of `Set` or of `SetException`
pub data Setting (T E : Type 0) : Type 0 where
  value : T → Setting T E
  exception : E → Setting T E

module _ {T E : Type 0} where
  unfoldable pub set_in : (checks : Bool) → Setting T E → FutureData T E → Option (FutureData T E)
  set_in checks (value v) d = set_value_in checks v d
  set_in checks (exception e) d = set_exception_in checks e d

  -- `none` where CRUNCH_ASSERT is on and fails
  unfoldable pub set_all :
      (checks : Bool) → List (Setting T E) → FutureData T E → Option (FutureData T E)
  unfolding set_in
  set_all checks [] d = some d
  set_all checks (s ∷ ss) d = do d' ← set_in checks s d; set_all checks ss d'

  abbrev pub gives : Setting T E → Got T E
  gives (value v) = returns v
  gives (exception e) = throws e

  -- The promise is set at most once.
  abbrev pub once : List (Setting T E) → Option (Got T E)
  once [] = some waits
  once (s ∷ []) = some (gives s)
  once (s ∷ t ∷ ss) = none

  -- The last setting counts, but an exception outlives the values after it.
  abbrev pub next : Got T E → Setting T E → Got T E
  next (throws e) (value v) = throws e
  next (throws e) (exception e') = throws e'
  next _ s = gives s

  abbrev pub latest : Got T E → List (Setting T E) → Got T E
  latest g [] = g
  latest g (s ∷ ss) = latest (next g s) ss

  set_all-latest :
      (ss : List (Setting T E)) (ready : Bool) (result : Option T) (thrown : Option E) (n : ℕ)
      → (ready ≡ false → thrown ≡ none)
      → let d : FutureData T E = record {
        ready = ready;
        result = result;
        exception = thrown;
        ref_count = n;
      } in
        (d' : FutureData T E) × (set_all false ss d ≡ some d') × (get d' ≡ latest (get d) ss)
  unfolding set_all get
  set_all-latest [] ready result thrown n w = (_, refl, refl)
  set_all-latest (value v ∷ ss) true (some u) none n w =
      set_all-latest ss true (some v) none n (λ e. refl)
  set_all-latest (value v ∷ ss) true none none n w =
      set_all-latest ss true (some v) none n (λ e. refl)
  set_all-latest (value v ∷ ss) true result (some x) n w =
      set_all-latest ss true (some v) (some x) n (λ e. cc)
  set_all-latest (value v ∷ ss) false result none n w =
      set_all-latest ss true (some v) none n (λ e. refl)
  set_all-latest (value v ∷ ss) false result (some x) n w = absurd (ground (arith, w refl))
  set_all-latest (exception x' ∷ ss) true (some u) none n w =
      set_all-latest ss true (some u) (some x') n (λ e. cc)
  set_all-latest (exception x' ∷ ss) true none none n w =
      set_all-latest ss true none (some x') n (λ e. cc)
  set_all-latest (exception x' ∷ ss) true result (some x) n w =
      set_all-latest ss true result (some x') n (λ e. cc)
  set_all-latest (exception x' ∷ ss) false result none n w =
      set_all-latest ss true result (some x') n (λ e. cc)
  set_all-latest (exception x' ∷ ss) false result (some x) n w = absurd (ground (arith, w refl))

  -- What `Get` answers after calls of `Set` and `SetException` on a fresh datum. With CRUNCH_ASSERT on
  -- it waits before the first and answers that one, and a second fails. With CRUNCH_ASSERT off every
  -- sequence goes through: `Get` throws the last exception, wherever in the sequence that was set, and
  -- where none was, returns the last value. It never reads empty storage.
  pub set_all-answer :
      (ss : List (Setting T E)) (n : ℕ)
      → ((set_all true ss (create n) >>= λ d. some (get d)) ≡ once ss)
        × ((set_all false ss (create n) >>= λ d. some (get d)) ≡ some (latest waits ss))
  unfolding set_all get create
  set_all-answer ss n =
      let (d', e, g) = set_all-latest ss false none none n (λ k. refl) in
      (checked ss, rw e (ap (λ (x : Got T E). some x) g))
    where
      checked :
          (ts : List (Setting T E)) → (set_all true ts (create n) >>= λ d. some (get d)) ≡ once ts
      checked [] = refl
      checked (value v ∷ []) = refl
      checked (exception e ∷ []) = refl
      checked (value v ∷ value w ∷ ts) = refl
      checked (value v ∷ exception e ∷ ts) = refl
      checked (exception e ∷ value v ∷ ts) = refl
      checked (exception e ∷ exception x ∷ ts) = refl
