-- ===== src/Thread/Tests.antt =====
-- A thread whose object is at 7, with the id 42.
use crunch_concurrency.Base.{
  ℕ, ◌+◌, ◌≡◌, refl, arith, true, false, Option, some, List, [], ◌∷◌, bit, ◌==◌, if◌then◌else◌,
}
use crunch_concurrency.Thread.{Heap, cancel, cancellation_point}
use crunch_concurrency.Thread.Id.{ThreadId}
use crunch_concurrency.Thread.Cancellation.{
  Event, Body, throws, throws-once, entry_point, terminates, entry_point-terminates,
}
use crunch_concurrency.Thread.Handle.{HandleCall, released, releases_of, overwritten, released_once}

abbrev heap : Heap
heap _ = record {
  has_self = true;
  id = some 42;
  cancellation_requested = true;
  cancellation_enabled = true;
  canceled = false;
}

-- Cancelled already; the policy forbids cancellation, and two points come.
abbrev events : List Event
events = Event.policy false ∷ Event.point ∷ Event.cancels ∷ Event.point ∷ []

throws-once_example : throws events 7 heap ≡ 1
throws-once_example = throws-once events 7 heap refl

-- A handler takes the cancellation; then, in a scope that forbids cancellation, a second request has no
-- effect, and another exception leaves the function.
abbrev nested : Body
nested =
    Body.catches (Body.reaches Body.ends)
      (Body.scope false (Body.is_cancelled (Body.reaches Body.raises)) Body.ends)

entry_point-terminates_example : (entry_point nested 7 heap).1 ≡ terminates
entry_point-terminates_example = entry_point-terminates nested 7 heap

-- The object at 8 is of another thread.
abbrev ids : ℕ → Option ℕ
ids q = if q == 8 then some 43 else some 42

abbrev two_threads : Heap
two_threads q = record {
  has_self = true;
  id = ids q;
  cancellation_requested = true;
  cancellation_enabled = true;
  canceled = false;
}

-- The first `Join` throws; the handle is overwritten before the second.
abbrev handle_calls : List HandleCall
handle_calls =
    HandleCall.moved
    ∷ HandleCall.cancelled
    ∷ HandleCall.joined
    ∷ HandleCall.assigned (some 8)
    ∷ HandleCall.joined
    ∷ []

released_once_example :
    releases_of 42 (released handle_calls (some 7) (some 7) two_threads)
      + bit (overwritten handle_calls (some 7) 7 two_threads)
    ≡ 1
released_once_example =
    released_once ids 42 handle_calls (some 7) 7 two_threads (λ q. refl) refl
      (λ e. ground (arith, e), tt)

dropped : overwritten handle_calls (some 7) 7 two_threads ≡ true
unfolding cancellation_point cancel
dropped = refl

abbrev main_id : ThreadId
main_id = record { id = 3; is_set = true }
