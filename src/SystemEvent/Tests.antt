-- ===== src/SystemEvent/Tests.antt =====
-- A thread that waits on the event, and one that sets it.
use crunch_concurrency.Base.{
  ℕ, ◌≤◌, ◌≡◌, refl, Bool, false, ◌==◌, if◌then◌else◌, ◌⊎◌, inl, inr, List, ◌∷◌, [], Bool-cases,
}
use crunch_concurrency.Base.Machine.{System, total, turn, run}
use crunch_concurrency.SystemEvent.{Memory, Pc, set_start, wait_start, init, step}
use crunch_concurrency.SystemEvent.Wakeups.{announcing, run-wakeups}

-- Thread 0 waits, every other sets.
abbrev starts : ℕ → Pc
starts i = if i == 0 then wait_start else set_start

starts-start :
    (i : ℕ) → (starts i ≡ set_start) ⊎ ((starts i ≡ Pc.reset_start) ⊎ (starts i ≡ wait_start))
starts-start i = elim (Bool-cases (i == 0)) [
  | inl e ↦ rw e (inr (inr refl))
  | inr e ↦ rw e (inl refl)
]

-- Thread 0 goes to sleep, and thread 1 sets the state.
abbrev schedule : List (ℕ × Bool)
schedule =
    (0, false)
    ∷ (0, false)
    ∷ (0, false)
    ∷ (0, false)
    ∷ (1, false)
    ∷ (1, false)
    ∷ (1, false)
    ∷ (1, false)
    ∷ []

abbrev before_broadcast : System Memory Pc
before_broadcast = run step 2 (record { mem = init false; pc = starts }) schedule

run-wakeups_example : 1 ≤ total announcing 2 before_broadcast.pc
unfolding run turn step init
run-wakeups_example =
    run-wakeups 2 false starts schedule 0 before_broadcast starts-start refl refl refl
