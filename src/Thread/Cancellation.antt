-- ===== src/Thread/Cancellation.antt =====
-- source/thread.cpp and source/thread_data.cpp: what a thread that may be cancelled does, through any
-- calls of its own and of the holders of its handle.
use crunch_concurrency.Base.{
  ℕ, ◌+◌, ◌∙◌, ◌≡◌, refl, ap, arith, Bool, true, false, some, if◌then◌else◌, List, [], ◌∷◌, bit,
  inl, inr, Bool-cases,
}
use crunch_concurrency.Base.Machine.{update}
use crunch_concurrency.Thread.{
  Heap, Data, cancel, set_policy, cancellation_point, is_enabled, enter_policy, leave_policy,
}

-- A call of `Cancel` by a holder of the handle, and calls by the thread.
pub data Event : Type 0 where
  cancels : Event
  policy : (enable : Bool) → Event
  point : Event

-- One call, on the object at `p`: the heap after it, and whether it throws.
unfoldable pub event_step : Event → (p : ℕ) → Heap → Heap × Bool
unfolding cancel set_policy cancellation_point
event_step cancels p h = (cancel (some p) h, false)
event_step (policy enable) p h = (set_policy enable (some p) h, false)
event_step point p h = cancellation_point (some p) h

-- The throws of a sequence of calls, each of which the thread survives.
unfoldable pub throws : List Event → (p : ℕ) → Heap → ℕ
unfolding event_step
throws [] p h = 0
throws (e ∷ es) p h = let (h', thrown) = event_step e p h in bit thrown + throws es p h'

-- The thread meets a cancellation point, now or later.
abbrev pub meets_point : List Event → Bool
meets_point [] = false
meets_point (point ∷ es) = true
meets_point (_ ∷ es) = meets_point es

-- A call of `Cancel`, and a cancellation point after it.
abbrev pub point_after_cancel : List Event → Bool
point_after_cancel [] = false
point_after_cancel (cancels ∷ es) = meets_point es
point_after_cancel (_ ∷ es) = point_after_cancel es

throws_canceled : (es : List Event) (p : ℕ) (h : Heap) → (h p).canceled ≡ true → throws es p h ≡ 0
unfolding throws
throws_canceled [] p h c = refl
throws_canceled (cancels ∷ es) p h c = ground (arith, throws_canceled es p (cancel (some p) h))
throws_canceled (policy b ∷ es) p h c =
    ground (arith, throws_canceled es p (set_policy b (some p) h))
throws_canceled (point ∷ es) p h c = ground (arith, throws_canceled es p h)

-- A thread that has not been cancelled yet: its calls throw at most once, and exactly once where a
-- cancellation point comes after a call of `Cancel`, or at all where one was made before. The policy
-- that the thread sets has no part in it.
pub throws-once :
    (es : List Event) (p : ℕ) (h : Heap)
    → (h p).canceled ≡ false
    → throws es p h
      ≡ bit (if (h p).cancellation_requested then meets_point es else point_after_cancel es)
unfolding throws
throws-once [] p h c = ground arith
throws-once (cancels ∷ es) p h c = ground (arith, throws-once es p (cancel (some p) h))
throws-once (policy b ∷ es) p h c = ground (arith, throws-once es p (set_policy b (some p) h))
throws-once (point ∷ es) p h c =
    ground (arith, throws-once es p h, throws_canceled es p (cancellation_point (some p) h).0)

-- What the function of a thread does, and what the holders of the handle do meanwhile: cancellation
-- points, calls of `Cancel`, a throw of another exception, scopes of `ScopedThreadCancellationPolicy`,
-- and a try block whose handler takes every exception.
pub data Body : Type 0 where
  ends : Body
  reaches : (rest : Body) → Body
  is_cancelled : (rest : Body) → Body
  raises : Body
  scope : (enable : Bool) (inner rest : Body) → Body
  catches : (inner rest : Body) → Body

-- The heap after the body, and whether an exception leaves it; the destructors of the scopes run on the
-- way out too.
unfoldable pub run_body : Body → (p : ℕ) → Heap → Heap × Bool
unfolding cancellation_point enter_policy leave_policy cancel
run_body ends p h = (h, false)
run_body (reaches rest) p h =
    let (h', thrown) = cancellation_point (some p) h in
    let after = run_body rest p h' in if thrown then (h', true) else after
run_body (is_cancelled rest) p h = run_body rest p (cancel (some p) h)
run_body raises p h = (h, true)
run_body (scope enable inner rest) p h =
    let (h', thrown) = run_body inner p (enter_policy enable (some p) h).0 in
    let left = leave_policy (enter_policy enable (some p) h).1 (some p) h' in
    let after = run_body rest p left in if thrown then (left, true) else after
run_body (catches inner rest) p h = run_body rest p (run_body inner p h).0

-- However scopes are nested and wherever an exception is thrown, the thread has its policy back
-- afterwards.
pub run_body-is_enabled :
    (b : Body) (p : ℕ) (h : Heap) → is_enabled (some p) (run_body b p h).0 ≡ is_enabled (some p) h
unfolding run_body is_enabled
run_body-is_enabled ends p h = refl
run_body-is_enabled raises p h = refl
run_body-is_enabled (reaches rest) p h =
    ground (arith, run_body-is_enabled rest p (cancellation_point (some p) h).0)
run_body-is_enabled (is_cancelled rest) p h =
    ground (arith, run_body-is_enabled rest p (cancel (some p) h))
run_body-is_enabled (scope enable inner rest) p h =
    let h' = (run_body inner p (enter_policy enable (some p) h).0).0 in
    let left = leave_policy (enter_policy enable (some p) h).1 (some p) h' in
    ground (arith, run_body-is_enabled rest p left)
run_body-is_enabled (catches inner rest) p h =
    run_body-is_enabled rest p (run_body inner p h).0 ∙ run_body-is_enabled inner p h

-- How the thread's function ends.
pub data Ended : Type 0 where
  returns terminates : Ended

-- `Thread::Data::EntryPoint` of a thread whose function is the body: `self` is reset, and an exception
-- that leaves the function ends the program by `std::terminate`.
unfoldable pub entry_point : Body → (p : ℕ) → Heap → Heap × Ended
unfolding run_body
entry_point b p h =
    let (h', thrown) = run_body b p (update h p (record (h p) { has_self = false })) in
    (h', if thrown then terminates else returns)

-- A request to cancel: not made, made, or answered by a throw.
pub data Request : Type 0 where
  idle requested answered : Request

abbrev pub request_of : Data → Request
request_of d =
    if d.canceled then answered else (if d.cancellation_requested then requested else idle)

-- Whether an exception leaves the body, from the requests alone: the first point after a request
-- throws, once in the life of the thread, in whatever scopes; a handler ends what it catches.
abbrev pub escapes : Body → Request → Request × Bool
escapes ends r = (r, false)
escapes (reaches rest) requested = (answered, true)
escapes (reaches rest) idle = escapes rest idle
escapes (reaches rest) answered = escapes rest answered
escapes (is_cancelled rest) idle = escapes rest requested
escapes (is_cancelled rest) requested = escapes rest requested
escapes (is_cancelled rest) answered = escapes rest answered
escapes raises r = (r, true)
escapes (scope enable inner rest) r =
    let (r', thrown) = escapes inner r in
    let after = escapes rest r' in if thrown then (r', true) else after
escapes (catches inner rest) r = escapes rest (escapes inner r).0

-- The request and the exception after a body
abbrev summary : Body → ℕ → Heap → Request × Bool
summary b p h = let (h', thrown) = run_body b p h in (request_of (h' p), thrown)

run_body-escapes : (b : Body) (p : ℕ) (h : Heap) → summary b p h ≡ escapes b (request_of (h p))
unfolding run_body
run_body-escapes ends p h = refl
run_body-escapes raises p h = refl
run_body-escapes (reaches rest) p h = elim (Bool-cases (h p).cancellation_requested) [
  | inl r ↦ elim (Bool-cases (h p).canceled) [
    | inl c ↦ ground (arith, run_body-escapes rest p h)
    | inr c ↦ ground arith
  ]
  | inr r ↦ elim (Bool-cases (h p).canceled) [
    | inl c ↦ ground (arith, run_body-escapes rest p h)
    | inr c ↦ ground (arith, run_body-escapes rest p h)
  ]
]
run_body-escapes (is_cancelled rest) p h =
    ground (arith, run_body-escapes rest p (cancel (some p) h))
run_body-escapes (scope enable inner rest) p h =
    let entered = (enter_policy enable (some p) h).0 in
    let h' = (run_body inner p entered).0 in
    let left = leave_policy (enter_policy enable (some p) h).1 (some p) h' in
    ground (arith, run_body-escapes inner p entered, run_body-escapes rest p left)
run_body-escapes (catches inner rest) p h =
    run_body-escapes rest p (run_body inner p h).0
    ∙ ap (λ (q : Request × Bool). escapes rest q.0) (run_body-escapes inner p h)

-- A thread ends the whole program exactly where an exception leaves its function: another one that no
-- handler takes, or `ThreadCanceled` of the first cancellation point after a request, made before the
-- thread began or while it runs, where no handler takes that. The policy has no part in it.
pub entry_point-terminates :
    (b : Body) (p : ℕ) (h : Heap)
    → (entry_point b p h).1 ≡ (if (escapes b (request_of (h p))).1 then terminates else returns)
unfolding entry_point
entry_point-terminates b p h =
    let start = update h p (record (h p) { has_self = false }) in
    let same : request_of (start p) ≡ request_of (h p) = ground arith in
    let run : summary b p start ≡ escapes b (request_of (h p)) =
      run_body-escapes b p start ∙ ap (λ (r : Request). escapes b r) same in
    ap (λ (q : Request × Bool). if q.1 then terminates else returns) run
