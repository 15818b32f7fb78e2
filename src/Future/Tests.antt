-- ===== src/Future/Tests.antt =====
-- A future of a number, with numbers as exceptions.
use crunch_concurrency.Base.{
  ℕ, ◌≤◌, ◌≡◌, true, false, none, some, ◌>>=◌, List, [], ◌∷◌, arith, refl,
}
use crunch_concurrency.Future.Handles.{
  Shared, drops_promise, sets_value, new_promise, on_datum, call, calls, allowed, with_datum,
}
use crunch_concurrency.Future.Counting.{CountOf, IsCounted, call-IsCounted}
use crunch_concurrency.Future.Storage.{destroys, destructor, destructor-stored}
use crunch_concurrency.Future.Answer.{Setting, set_all, set_all-answer}
use crunch_concurrency.Future.{get, add_ref, create, set_value, throws, keeps}

-- A promise with two futures, which is set and goes.
abbrev shared : Shared ℕ ℕ
shared = record {
  datum = keeps (record { ready = true; result = some 5; exception = none; ref_count = 3 });
  promise = true;
  futures = 2;
}

shared-allowed : allowed drops_promise shared ≡ true
unfolding allowed
shared-allowed = refl

call-IsCounted_example :
    (s : Shared ℕ ℕ) × (call drops_promise shared ≡ some s) × IsCounted s × (s.futures ≤ 3)
unfolding CountOf
call-IsCounted_example =
    call-IsCounted drops_promise shared (refl, omega arith) (omega arith) shared-allowed

-- A value, an exception and another value
abbrev three_settings : List (Setting ℕ ℕ)
three_settings = Setting.value 5 ∷ Setting.exception 3 ∷ Setting.value 6 ∷ []

set_all-answer_example :
    ((set_all true three_settings (create 1) >>= λ d. some (get d)) ≡ none)
    × ((set_all false three_settings (create 1) >>= λ d. some (get d)) ≡ some (throws 3))
set_all-answer_example = set_all-answer three_settings 1

set_once :
    calls {T = ℕ} {E = ℕ} (sets_value 5 ∷ []) new_promise
    ≡ some (record {
      datum = keeps (record { ready = true; result = some 5; exception = none; ref_count = 1 });
      promise = true;
      futures = 0;
    })
unfolding calls call new_promise create add_ref on_datum set_value with_datum
set_once = refl

destructor-stored_example :
    destructor {T = ℕ} {E = ℕ}
      (record { ready = true; result = some 5; exception = none; ref_count = 1 })
    ≡ destroys 5
destructor-stored_example =
    destructor-stored (sets_value 5 ∷ [])
      (record {
        datum = keeps (record { ready = true; result = some 5; exception = none; ref_count = 1 });
        promise = true;
        futures = 0;
      })
      (record { ready = true; result = some 5; exception = none; ref_count = 1 }) set_once refl
