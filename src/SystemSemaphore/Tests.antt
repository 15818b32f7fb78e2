-- ===== src/SystemSemaphore/Tests.antt =====
-- Calls of a semaphore with one permit.
use crunch_concurrency.Base.{◌+◌, ◌≡◌, List, [], ◌∷◌, arith}
use crunch_concurrency.SystemSemaphore.{Call, calls, owed, fresh, waits-eq-signals}

-- Two waits and a post.
abbrev three_calls : List Call
three_calls = Call.takes ∷ Call.takes ∷ Call.posts ∷ []

waits-eq-signals_example :
    let a = calls three_calls (fresh 1) in a.waited ≡ a.signaled + owed a.count
waits-eq-signals_example = waits-eq-signals 1 three_calls (omega arith)
