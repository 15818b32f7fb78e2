-- ===== src/Event/Stuck.antt =====
-- source/event.cpp: a `Set` that loads the word while `RemoveWaiter` has the list locked.
use crunch_concurrency.Base.{
  ℕ, ◌<◌, ◌≡◌, ap, ◌∙◌, Bool-cases, ==_iff, ◌==◌, inl, inr, List, arith, true, false,
}
use crunch_concurrency.Base.Machine.{System, update, run, run-keeps, turn}
use crunch_concurrency.WaiterList.Packed.{has_user_flag, has_lock}
use crunch_concurrency.WaiterList.Memory.{Waiters}
use crunch_concurrency.Event.Steps.{Pc, set_load, set_loop, Choice, step}

-- Thread `i` looks at a locked word that is not set.
record IsStuck (i word : ℕ) (s : System Waiters Pc) : Type 0 where
  here : s.pc i ≡ set_loop word
  unset : has_user_flag word ≡ false
  locked : has_lock word ≡ true

spins :
    (word : ℕ) (c : Choice) (m : Waiters)
    → has_user_flag word ≡ false
    → has_lock word ≡ true
    → step c (set_loop word) m ≡ (m, set_loop word)
unfolding step
spins word c m unset locked = ground arith

turn-IsStuck :
    (i word : ℕ) (s : System Waiters Pc) (j : ℕ) (c : Choice)
    → IsStuck i word s
    → let r = step c (s.pc j) s.mem in IsStuck i word (record { mem = r.0; pc = update s.pc j r.1 })
turn-IsStuck i word s j c h = record {
  here = elim (Bool-cases (j == i)) [
    | inl same ↦
        let e : s.pc j ≡ set_loop word = ap s.pc ((==_iff j i).0 same) ∙ h.here in
        rw (same, e) (ap (λ r. r.1) (spins word c s.mem h.unset h.locked))
    | inr other ↦ rw other h.here
  ];
  unset = h.unset;
  locked = h.locked;
}

-- Where `Set` of thread `i` loads the word while the list is locked and the event is not set, it never
-- returns: after that load, and after every schedule of all threads that follows, it is still in its
-- loop with the word that it loaded, although the list may be unlocked since.
pub set_never_returns :
    (n : ℕ) (s : System Waiters Pc) (i : ℕ) (c : Choice) (cs : List (ℕ × Choice))
    → i < n
    → s.pc i ≡ set_load
    → has_user_flag s.mem.word ≡ false
    → has_lock s.mem.word ≡ true
    → (run step n (turn step n s (i, c)) cs).pc i ≡ set_loop s.mem.word
unfolding turn step
set_never_returns n s i c cs lt e unset locked =
    (run-keeps step n (IsStuck i s.mem.word) (λ t j d _ v. turn-IsStuck i s.mem.word t j d v)
      (turn step n s (i, c)) cs
      (record { here = ground arith; unset = unset; locked = locked })).here
