-- ===== src/Mutex/Exclusion.antt =====
-- What holds of the mutex of source/mutex.cpp after any schedule of any number of threads.
use crunch_concurrency.Base.{ℕ, ◌+◌, ◌<◌, ◌≡◌, ◌≢◌, refl, List, arith, ap, length, bit, true, subst}
use native.Mathlib.Decide.{ℕ_discrete}
use crunch_concurrency.Base.Machine.{
  System, update, update-holds, run, run-keeps, total, total-update, le-total, total-eq-zero,
  two-le-total,
}
use crunch_concurrency.WaiterList.Packed.{has_user_flag, has_lock}
use crunch_concurrency.WaiterList.Memory.{Waiters}
use crunch_concurrency.Mutex.Steps.{Pc, idle, critical, asserted, Choice, init, step, is_locked}
use crunch_concurrency.Mutex.Invariant.{owns, free_tokens, MemInv, Local, Kept, step-Kept, one_flag}

pub record Inv (n : ℕ) (s : System Waiters Pc) : Type 0 where
  pub mem : MemInv s.mem
  pub local : (i : ℕ) → Local (s.pc i)
  pub one : free_tokens s.mem + total owns n s.pc ≡ 1

-- A free mutex, and threads that have not called it.
abbrev pub start : System Waiters Pc
start = record { mem = init; pc = λ _. idle }

start-Inv : (n : ℕ) → Inv n start
unfolding has_user_flag has_lock
start-Inv n = record {
  mem = record { free = λ _. refl; locked = λ h. cc; links = λ a. omega arith };
  local = λ _. tt;
  one = omega (arith, total-eq-zero owns n idle refl);
}

module _ (n spin_count : ℕ) where
  turn-Inv :
      (s : System Waiters Pc) (i : ℕ) (c : Choice)
      → i < n
      → Inv n s
      → let r = step spin_count c (s.pc i) s.mem in
        Inv n (record { mem = r.0; pc = update s.pc i r.1 })
  turn-Inv s i c lt v = record {
    mem = kept.mem;
    local = update-holds Local s.pc i (step spin_count c (s.pc i) s.mem).1 v.local kept.local;
    one = omega (
      arith,
      kept.tokens,
      v.one,
      total-update owns n s.pc i (step spin_count c (s.pc i) s.mem).1 lt,
    );
  }
    where
      kept : Kept s.mem (s.pc i) (step spin_count c (s.pc i) s.mem)
      kept =
          step-Kept spin_count c (s.pc i) s.mem v.mem (v.local i)
            (omega (arith, v.one, le-total owns n s.pc i lt))

  -- After any schedule of `n` threads the token is at one place.
  pub run-Inv : (cs : List (ℕ × Choice)) → Inv n (run (step spin_count) n start cs)
  run-Inv cs = run-keeps (step spin_count) n (Inv n) turn-Inv start cs (start-Inv n)

  -- Two threads are never in the critical section together: for every number of threads, every
  -- spin count and every schedule, threads `i` and `j` below `n` that are both between `Lock` and
  -- `Unlock` are the same thread.
  pub mutual_exclusion :
      (cs : List (ℕ × Choice)) (i j : ℕ)
      → i < n
      → j < n
      → (run (step spin_count) n start cs).pc i ≡ critical
      → (run (step spin_count) n start cs).pc j ≡ critical
      → i ≡ j
  mutual_exclusion cs i j hi hj ei ej = elim (ℕ_discrete i j) [
    | yes e ↦ e
    | no ne ↦ absurd (
        omega (
          arith,
          (run-Inv cs).one,
          two-le-total owns n (run (step spin_count) n start cs).pc i j idle refl hi hj (ap owns ei)
              (ap owns ej) ne,
        ))
  ]

  -- The assertions of `Lock`, `AddWaiter` and `Unlock` hold in every reachable state: no schedule
  -- leads a thread to a failed assertion.
  pub asserts_hold :
      (cs : List (ℕ × Choice)) (i : ℕ) → (run (step spin_count) n start cs).pc i ≢ asserted
  asserts_hold cs i e = subst Local e ((run-Inv cs).local i)

  -- No lock is lost or made up: after every schedule the free bit, the notifications that no
  -- waiting thread has taken, and the threads that own the mutex or hand it over are one in all.
  pub one_owner :
      (cs : List (ℕ × Choice))
      → let s = run (step spin_count) n start cs in
        bit (has_user_flag s.mem.word) + length s.mem.notified + total owns n s.pc ≡ 1
  one_owner cs = (run-Inv cs).one

  -- While some thread below `n` is in the critical section, `IsLocked` answers true.
  pub critical-is_locked :
      (cs : List (ℕ × Choice)) (i : ℕ)
      → i < n
      → (run (step spin_count) n start cs).pc i ≡ critical
      → is_locked (run (step spin_count) n start cs).mem ≡ true
  unfolding is_locked
  critical-is_locked cs i hi e = ground (
    arith,
    (run-Inv cs).one,
    one_flag,
    le-total owns n (run (step spin_count) n start cs).pc i hi,
  )
