-- ===== src/Semaphore/Stuck.antt =====
-- source/semaphore.cpp: a `Post` that loads the word while `RemoveWaiter` has the list locked.
use crunch_concurrency.Base.{
  ℕ, ◌<◌, ◌≡◌, ◌≢◌, ap, ◌∙◌, Bool-cases, ==_iff, ◌==◌, inl, inr, List, arith, true,
}
use crunch_concurrency.Base.Machine.{System, update, run, run-keeps, turn}
use crunch_concurrency.WaiterList.Packed.{get_pointer, has_lock}
use crunch_concurrency.Semaphore.Steps.{Memory, Pc, post_load, post_loop, Choice, step}

-- Thread `i` looks at a locked word with waiters.
record IsStuck (i word : ℕ) (s : System Memory Pc) : Type 0 where
  here : s.pc i ≡ post_loop word
  waiters : get_pointer word ≢ 0
  locked : has_lock word ≡ true

spins :
    (word : ℕ) (c : Choice) (m : Memory)
    → get_pointer word ≢ 0
    → has_lock word ≡ true
    → step c (post_loop word) m ≡ (m, post_loop word)
unfolding step
spins word c m some locked = ground arith

turn-IsStuck :
    (i word : ℕ) (s : System Memory Pc) (j : ℕ) (c : Choice)
    → IsStuck i word s
    → let r = step c (s.pc j) s.mem in IsStuck i word (record { mem = r.0; pc = update s.pc j r.1 })
turn-IsStuck i word s j c h = record {
  here = elim (Bool-cases (j == i)) [
    | inl same ↦
        let e : s.pc j ≡ post_loop word = ap s.pc ((==_iff j i).0 same) ∙ h.here in
        rw (same, e) (ap (λ r. r.1) (spins word c s.mem h.waiters h.locked))
    | inr other ↦ rw other h.here
  ];
  waiters = h.waiters;
  locked = h.locked;
}

-- Where `Post` of thread `i`, after its increment, loads the word of a list with waiters while the
-- list is locked, it never returns: after every schedule of all threads that follows, it is still in
-- its loop with the word that it loaded, and the permit wakes nobody.
pub post_never_returns :
    (n : ℕ) (s : System Memory Pc) (i : ℕ) (c : Choice) (cs : List (ℕ × Choice))
    → i < n
    → s.pc i ≡ post_load
    → get_pointer s.mem.waiters.word ≢ 0
    → has_lock s.mem.waiters.word ≡ true
    → (run step n (turn step n s (i, c)) cs).pc i ≡ post_loop s.mem.waiters.word
unfolding turn step
post_never_returns n s i c cs lt e waiters locked =
    (run-keeps step n (IsStuck i s.mem.waiters.word)
      (λ t j d _ v. turn-IsStuck i s.mem.waiters.word t j d v) (turn step n s (i, c)) cs
      (record { here = ground arith; waiters = waiters; locked = locked })).here
