-- ===== src/Meta/Wakeups.antt =====
-- source/meta_scheduler.cpp: which wake-ups `ContextImpl::Run` can miss.
use crunch_concurrency.Base.{
  ℕ, suc, ◌+◌, ◌^◌, ◌<◌, ◌≡◌, refl, sym, subst, arith, Bool, true, false, List, [], ◌∷◌, ◌==◌,
  if◌then◌else◌, length, Bool-cases, inl, inr,
}
use crunch_concurrency.Meta.Loop.{increment}
use crunch_concurrency.Meta.Sleep.{
  Place, tests_work, sleeps_for_work, goes_on, removes, tests_callback, sleeps_for_callback, done,
  Sleeper, wake, stop_callback, ready_callback, advance, Choice, advances, stops, is_ready,
  wakes_itself, step, run,
}

-- A place at which a thread sleeps for work only while it has none and is not stopped
abbrev pub SleepsIdle : Place → ℕ → Bool → Type 0
SleepsIdle sleeps_for_work active_count stop = (active_count ≡ 0) × (stop ≡ false)
SleepsIdle p active_count stop = Unit

abbrev pub IsIdle : Sleeper → Type 0
IsIdle s = SleepsIdle s.place s.active_count s.stop

wake-SleepsIdle : (p : Place) (a : ℕ) (b : Bool) → SleepsIdle (wake p) a b
unfolding wake
wake-SleepsIdle tests_work a b = tt
wake-SleepsIdle sleeps_for_work a b = tt
wake-SleepsIdle goes_on a b = tt
wake-SleepsIdle (removes l) a b = tt
wake-SleepsIdle (tests_callback i l) a b = tt
wake-SleepsIdle (sleeps_for_callback i l) a b = tt
wake-SleepsIdle done a b = tt

busy-SleepsIdle :
    (p : Place) (n m : ℕ) (b c : Bool) → SleepsIdle p n b → (n == 0) ≡ false → SleepsIdle p m c
busy-SleepsIdle tests_work n m b c h e = tt
busy-SleepsIdle sleeps_for_work n m b c (h, k) e = absurd (ground arith)
busy-SleepsIdle goes_on n m b c h e = tt
busy-SleepsIdle (removes l) n m b c h e = tt
busy-SleepsIdle (tests_callback i l) n m b c h e = tt
busy-SleepsIdle (sleeps_for_callback i l) n m b c h e = tt
busy-SleepsIdle done n m b c h e = tt

-- A callback wakes a thread that sleeps for work, since it finds the count at zero.
callback-SleepsIdle :
    (p : Place) (n m : ℕ) (b c : Bool)
    → SleepsIdle p n b
    → SleepsIdle (if n == 0 then wake p else p) m c
callback-SleepsIdle p n m b c h = elim (Bool-cases (n == 0)) [
  | inl e ↦ rw e (wake-SleepsIdle p m c)
  | inr e ↦ rw e (busy-SleepsIdle p n m b c h e)
]

if-IsIdle : (b : Bool) (s t : Sleeper) → IsIdle s → IsIdle t → IsIdle (if b then s else t)
if-IsIdle true s t h k = h
if-IsIdle false s t h k = k

advance-IsIdle :
    (removed : Bool) (s : Sleeper) (p : Place)
    → s.place ≡ p
    → IsIdle s
    → IsIdle (advance removed s p)
unfolding advance
advance-IsIdle removed s tests_work e h = elim (Bool-cases (s.active_count == 0)) [
  | inr busy ↦ rw busy tt
  | inl none ↦ rw none (elim (Bool-cases s.stop) [
    | inl stopped ↦ rw stopped tt
    | inr on ↦ rw on (ground arith, refl)
  ])
]
advance-IsIdle removed s sleeps_for_work e h = h
advance-IsIdle removed s goes_on e h = h
advance-IsIdle removed s done e h = h
advance-IsIdle removed s (sleeps_for_callback i l) e h = h
advance-IsIdle removed s (removes []) e h = tt
advance-IsIdle true s (removes (i ∷ l)) e h = tt
advance-IsIdle false s (removes (i ∷ l)) e h = tt
advance-IsIdle removed s (tests_callback i l) e h = if-IsIdle (s.last_idle i) _ _ tt tt

step-IsIdle : (c : Choice) (s : Sleeper) → IsIdle s → IsIdle (step c s)
unfolding step stop_callback ready_callback
step-IsIdle (advances removed) s h = advance-IsIdle removed s s.place refl h
step-IsIdle stops s h = callback-SleepsIdle s.place s.active_count s.active_count s.stop true h
step-IsIdle (is_ready i) s h =
    if-IsIdle (s.last_idle i) _ s
      (callback-SleepsIdle s.place s.active_count (increment s.active_count) s.stop s.stop h) h
step-IsIdle wakes_itself s h = wake-SleepsIdle s.place s.active_count s.stop

-- Through every order of the callbacks, the thread of `Run` sleeps for work only while no scheduler has
-- become ready and `until` has not stopped it: it misses no wake-up there.
pub run-IsIdle : (cs : List Choice) (s : Sleeper) → IsIdle s → IsIdle (run cs s)
unfolding run
run-IsIdle [] s h = h
run-IsIdle (c ∷ cs) s h = run-IsIdle cs (step c s) (step-IsIdle c s h)

-- The condition does not wake the thread by itself.
abbrev pub IsCalled : Choice → Type 0
IsCalled wakes_itself = ⊥
IsCalled c = Unit

abbrev pub AreCalled : List Choice → Type 0
AreCalled [] = Unit
AreCalled (c ∷ cs) = IsCalled c × AreCalled cs

-- Asleep for a callback, with another scheduler active
abbrev pub IsStuck : ℕ → List ℕ → ℕ → Sleeper → Type 0
IsStuck i rest room s =
    (s.place ≡ sleeps_for_callback i rest) × (0 < s.active_count) × (s.active_count + room < 2 ^ 64)

advance-asleep :
    (removed : Bool) (s : Sleeper) (i : ℕ) (rest : List ℕ)
    → advance removed s (sleeps_for_callback i rest) ≡ s
unfolding advance
advance-asleep removed s i rest = refl

step-IsStuck :
    (c : Choice) (i : ℕ) (rest : List ℕ) (room : ℕ) (s : Sleeper)
    → IsCalled c
    → IsStuck i rest (suc room) s
    → IsStuck i rest room (step c s)
unfolding step stop_callback ready_callback
step-IsStuck (advances removed) i rest room s called (e, p, b) =
    let same : advance removed s s.place ≡ s =
      subst (λ p. advance removed s p ≡ s) (sym e) (advance-asleep removed s i rest) in
    subst (IsStuck i rest room) (sym same) (e, p, omega arith)
step-IsStuck stops i rest room s called (e, p, b) =
    let busy : (s.active_count == 0) ≡ false = ground arith in (rw busy e, p, omega arith)
step-IsStuck (is_ready j) i rest room s called (e, p, b) =
    let busy : (s.active_count == 0) ≡ false = ground arith in
    elim (Bool-cases (s.last_idle j)) [
      | inr working ↦ rw working (e, p, omega arith)
      | inl idle ↦ rw idle (rw busy e, omega arith, omega arith)
    ]
step-IsStuck wakes_itself i rest room s called h = absurd called

-- The thread that has stopped and waits for the callback of a waiter which it could not remove is not
-- woken by any callback, also not by that one, where another scheduler is active: the callbacks wake it
-- only from a count of zero. The condition does not wake it by itself, and the count does not wrap.
pub run-IsStuck :
    (cs : List Choice) (i : ℕ) (rest : List ℕ) (s : Sleeper)
    → AreCalled cs
    → IsStuck i rest (length cs) s
    → (run cs s).place ≡ sleeps_for_callback i rest
unfolding run
run-IsStuck [] i rest s called (e, p, b) = e
run-IsStuck (c ∷ cs) i rest s (called, more) h =
    run-IsStuck cs i rest (step c s) more (step-IsStuck c i rest (length cs) s called h)
