-- ===== src/SystemEvent/Wakeups.antt =====
-- source/platform/linux/system_event.cpp: the threads that sleep in `Wait`, and the broadcasts that wake them.
use crunch_concurrency.Base.{
  ℕ, ◌+◌, ◌≤◌, ◌<◌, ◌≡◌, refl, arith, Bool, true, false, ◌==◌, if◌then◌else◌, ◌⊎◌, inl, inr, List,
  ◌&&◌, not, subst, sym, bit, ==_iff, Bool-cases,
}
use crunch_concurrency.Base.Machine.{System, update, total, total-update, le-total, run, run-keeps}
use crunch_concurrency.Base.Totals.{total-none, total-others}
use crunch_concurrency.SystemEvent.{
  Memory, Pc, set_start, set_lock, set_test, set_write, set_broadcast, set_unlock, reset_start,
  wait_start, wait_lock, wait_test, wait_sleep, wait_unlock, asleep, returned, init, step,
}

-- The threads of `Set` between the assignment of the state and the broadcast
abbrev pub announcing : Pc → ℕ
announcing set_broadcast = 1
announcing p = 0

-- The threads that hold the mutex
abbrev pub inside : Pc → ℕ
inside set_test = 1
inside set_write = 1
inside set_broadcast = 1
inside set_unlock = 1
inside wait_test = 1
inside wait_sleep = 1
inside wait_unlock = 1
inside p = 0

-- A thread that sleeps and has not been woken finds the event reset, or a broadcast is coming: `t` is
-- how many threads are about to broadcast. A thread that is about to sleep has the event reset.
abbrev pub SleepsRight : Memory → ℕ → Pc → Type 0
SleepsRight m t (asleep n) = (n ≤ m.broadcasts) × (n ≡ m.broadcasts → m.state ≡ true → 1 ≤ t)
SleepsRight m t wait_sleep = m.state ≡ false
SleepsRight m t p = Unit

abbrev Follows : Memory → ℕ → Memory → ℕ → Type 0
Follows m t m' t' =
    (m.broadcasts ≤ m'.broadcasts)
    × (m.broadcasts ≡ m'.broadcasts → m'.state ≡ true → ((m.state ≡ true) × (t ≤ t')) ⊎ (1 ≤ t'))

Follows-SleepsRight :
    (m m' : Memory) (t t' : ℕ) (p : Pc)
    → Follows m t m' t'
    → (inside p ≡ 1 → m.state ≡ false → m'.state ≡ false)
    → SleepsRight m t p
    → SleepsRight m' t' p
Follows-SleepsRight m m' t t' (asleep n) (le, f) q (h, k) = (
  omega (arith, le, h),
  λ e on. elim (f (omega arith) on) [
    | inl (was_on, grows) ↦ omega (arith, k (omega arith) was_on)
    | inr coming ↦ coming
  ],
)
Follows-SleepsRight m m' t t' set_start f q h = tt
Follows-SleepsRight m m' t t' set_lock f q h = tt
Follows-SleepsRight m m' t t' set_test f q h = tt
Follows-SleepsRight m m' t t' set_write f q h = tt
Follows-SleepsRight m m' t t' set_broadcast f q h = tt
Follows-SleepsRight m m' t t' set_unlock f q h = tt
Follows-SleepsRight m m' t t' reset_start f q h = tt
Follows-SleepsRight m m' t t' wait_start f q h = tt
Follows-SleepsRight m m' t t' wait_lock f q h = tt
Follows-SleepsRight m m' t t' wait_test f q h = tt
Follows-SleepsRight m m' t t' wait_sleep f q h = q refl h
Follows-SleepsRight m m' t t' wait_unlock f q h = tt
Follows-SleepsRight m m' t t' returned f q h = tt

-- What a step leaves, with `t'` threads about to broadcast after it
abbrev Steps : Memory → ℕ → ℕ → Pc → Memory × Pc → Type 0
Steps m t t' p r =
    t' + announcing p ≡ t + announcing r.1 → Follows m t r.0 t' × SleepsRight r.0 t' r.1

if-Steps :
    (c : Bool) (m : Memory) (t t' : ℕ) (p : Pc) (r r' : Memory × Pc)
    → (c ≡ true → Steps m t t' p r)
    → (c ≡ false → Steps m t t' p r')
    → Steps m t t' p (if c then r else r')
if-Steps true m t t' p r r' h k = h refl
if-Steps false m t t' p r r' h k = k refl

step-Steps :
    (b : Bool) (p : Pc) (m : Memory) (t t' : ℕ) → SleepsRight m t p → Steps m t t' p (step b p m)
unfolding step
step-Steps b set_start m t t' h =
    if-Steps m.state m t t' set_start (m, returned) (m, set_lock)
      (λ c e. ((omega arith, λ q on. inl (on, omega arith)), tt))
      (λ c e. ((omega arith, λ q on. inl (on, omega arith)), tt))
step-Steps b set_lock m t t' h =
    if-Steps m.locked m t t' set_lock (m, set_lock) (record m { locked = true }, set_test)
      (λ c e. ((omega arith, λ q on. inl (on, omega arith)), tt))
      (λ c e. ((omega arith, λ q on. inl (on, omega arith)), tt))
step-Steps b set_test m t t' h =
    if-Steps m.state m t t' set_test (m, set_unlock) (m, set_write)
      (λ c e. ((omega arith, λ q on. inl (on, omega arith)), tt))
      (λ c e. ((omega arith, λ q on. inl (on, omega arith)), tt))
step-Steps b set_write m t t' h = λ e. ((omega arith, λ q on. inr (omega arith)), tt)
step-Steps b set_broadcast m t t' h = λ e. ((omega arith, λ q. absurd (omega arith)), tt)
step-Steps b set_unlock m t t' h = λ e. ((omega arith, λ q on. inl (on, omega arith)), tt)
step-Steps b reset_start m t t' h = λ e. ((omega arith, λ q on. cc), tt)
step-Steps b wait_start m t t' h =
    if-Steps m.state m t t' wait_start (m, returned) (m, wait_lock)
      (λ c e. ((omega arith, λ q on. inl (on, omega arith)), tt))
      (λ c e. ((omega arith, λ q on. inl (on, omega arith)), tt))
step-Steps b wait_lock m t t' h =
    if-Steps m.locked m t t' wait_lock (m, wait_lock) (record m { locked = true }, wait_test)
      (λ c e. ((omega arith, λ q on. inl (on, omega arith)), tt))
      (λ c e. ((omega arith, λ q on. inl (on, omega arith)), tt))
step-Steps b wait_test m t t' h =
    if-Steps m.state m t t' wait_test (m, wait_unlock) (m, wait_sleep)
      (λ c e. ((omega arith, λ q on. inl (on, omega arith)), tt))
      (λ c e. ((omega arith, λ q on. inl (on, omega arith)), c))
step-Steps b wait_sleep m t t' h =
    λ e. ((omega arith, λ q on. inl (on, omega arith)), (omega arith, λ q on. cc))
step-Steps b wait_unlock m t t' h = λ e. ((omega arith, λ q on. inl (on, omega arith)), tt)
step-Steps b (asleep n) m t t' (le, wakes) =
    if-Steps ((n == m.broadcasts) && not b) m t t' (asleep n) (m, asleep n) (m, wait_lock)
      (λ c e.
        ((omega arith, λ q on. inl (on, omega arith)), (le, λ q on. omega (arith, wakes q on, e))))
      (λ c e. ((omega arith, λ q on. inl (on, omega arith)), tt))
step-Steps b returned m t t' h = λ e. ((omega arith, λ q on. inl (on, omega arith)), tt)

-- A thread outside the mutex does not set a state that is reset.
step-reset :
    (b : Bool) (p : Pc) (m : Memory) → inside p ≡ 0 → m.state ≡ false → (step b p m).0.state ≡ false
unfolding step
step-reset b p m o f = ground (arith, o, f)

-- A thread takes the mutex where it is free, and gives up the mutex that it holds.
step-inside :
    (b : Bool) (p : Pc) (m : Memory)
    → inside p ≤ bit m.locked
    → inside (step b p m).1 + bit m.locked ≡ inside p + bit (step b p m).0.locked
unfolding step
step-inside b p m h = ground (arith, h)

-- The threads inside are as many as hold the mutex.
record AllRight (n : ℕ) (s : System Memory Pc) : Type 0 where
  right : (j : ℕ) → SleepsRight s.mem (total announcing n s.pc) (s.pc j)
  held : total inside n s.pc ≡ bit s.mem.locked
  known : (j : ℕ) → inside (s.pc j) ≡ 1 → j < n

turn-AllRight :
    (n : ℕ) (s : System Memory Pc) (i : ℕ) (b : Bool)
    → i < n
    → AllRight n s
    → let r = step b (s.pc i) s.mem in AllRight n (record { mem = r.0; pc = update s.pc i r.1 })
turn-AllRight n s i b h v =
    let r = step b (s.pc i) s.mem in
    let t = total announcing n s.pc in
    let t' = total announcing n (update s.pc i r.1) in
    let (follows, moved) =
      step-Steps b (s.pc i) s.mem t t' (v.right i) (total-update announcing n s.pc i r.1 h) in
    let mine = le-total inside n s.pc i h in
    let one : bit s.mem.locked ≤ 1 = ground arith in
    record {
      right = λ j. elim (Bool-cases (i == j)) [
        | inl same ↦ rw same moved
        | inr other ↦ rw other (
            Follows-SleepsRight s.mem r.0 t t' (s.pc j) follows
              (λ q off.
                step-reset b (s.pc i) s.mem
                  (omega (
                    arith,
                    one,
                    v.held,
                    q,
                    total-others inside n s.pc i j returned refl h (v.known j q) other,
                  ))
                  off)
              (v.right j))
      ];
      held = omega (
        arith,
        v.held,
        mine,
        total-update inside n s.pc i r.1 h,
        step-inside b (s.pc i) s.mem (omega (arith, v.held, mine)),
      );
      known = λ j q. elim (Bool-cases (i == j)) [
        | inl same ↦ ground (arith, same, ==_iff i j)
        | inr other ↦ v.known j (rw other at q)
      ];
    }

start-SleepsRight :
    (m : Memory) (t : ℕ) (p : Pc)
    → (p ≡ set_start) ⊎ ((p ≡ reset_start) ⊎ (p ≡ wait_start))
    → SleepsRight m t p
start-SleepsRight m t p (inl e) = subst (SleepsRight m t) (sym e) tt
start-SleepsRight m t p (inr (inl e)) = subst (SleepsRight m t) (sym e) tt
start-SleepsRight m t p (inr (inr e)) = subst (SleepsRight m t) (sym e) tt

start-inside : (p : Pc) → (p ≡ set_start) ⊎ ((p ≡ reset_start) ⊎ (p ≡ wait_start)) → inside p ≡ 0
start-inside p (inl e) = rw e refl
start-inside p (inr (inl e)) = rw e refl
start-inside p (inr (inr e)) = rw e refl

-- `n` threads that begin calls of `Set`, `Reset` and `Wait` run in any order, to `s`. Where one sleeps
-- in `Wait`, has not been woken, and the event is set, a thread of `Set` is about to broadcast: no
-- thread sleeps past a set event.
pub run-wakeups :
    (n : ℕ) (initial_state : Bool) (start : ℕ → Pc) (cs : List (ℕ × Bool)) (j : ℕ)
    (s : System Memory Pc)
    → ((i : ℕ) → (start i ≡ set_start) ⊎ ((start i ≡ reset_start) ⊎ (start i ≡ wait_start)))
    → run step n (record { mem = init initial_state; pc = start }) cs ≡ s
    → s.pc j ≡ asleep s.mem.broadcasts
    → s.mem.state ≡ true
    → 1 ≤ total announcing n s.pc
unfolding init
run-wakeups n initial_state start cs j s starts e sleeps on =
    let first : System Memory Pc = record { mem = init initial_state; pc = start } in
    let all : AllRight n (run step n first cs) =
      run-keeps step n (AllRight n) (λ t i b h k. turn-AllRight n t i b h k) first cs
        (record {
          right = λ i. start-SleepsRight first.mem (total announcing n start) (start i) (starts i);
          held = total-none inside n start (λ i h. start-inside (start i) (starts i));
          known = λ i q. absurd (omega (arith, q, start-inside (start i) (starts i)));
        }) in
    let here = (subst (AllRight n) e all).right j in
    (subst (SleepsRight s.mem (total announcing n s.pc)) sleeps here).1 refl on
