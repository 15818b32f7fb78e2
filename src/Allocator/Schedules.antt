-- ===== src/Allocator/Schedules.antt =====
-- source/waiter.cpp: the waiters of any number of threads, after any schedule.
use crunch_concurrency.Base.{
  ℕ, ◌+◌, ◌-◌, ◌<◌, ◌≤◌, ◌≡◌, refl, arith, false, List, [], has, count, bit, ◌==◌, Bool-cases, inl,
  inr,
}
use crunch_concurrency.Base.Machine.{
  System, Each, update, run, run-keeps_allowed, total, total-update, le-total, total-eq-zero,
}
use crunch_concurrency.Base.Totals.{total-others}
use crunch_concurrency.Allocator.{Memory, Thread, Choice, init, idle, step}
use crunch_concurrency.Allocator.Ownership.{Chain, IsLocal, IsPrivate, Owned, step-Owned}

-- The free waiters of each thread, `lists`, are apart from one another and from those in use.
record Split (n : ℕ) (s : System Memory Thread) (lists : ℕ → List ℕ) : Type 0 where
  unused : s.mem.free_list ≡ 0
  nonnull : has 0 s.mem.allocations ≡ false
  local : (i : ℕ) → i < n → IsLocal (s.pc i).at
  chain : (i : ℕ) → i < n → Chain s.mem.next (s.pc i).local_free (lists i)
  once : (a : ℕ) → count a s.mem.in_use + total (count a) n lists ≤ bit (has a s.mem.allocations)

abbrev Inv : (n : ℕ) → System Memory Thread → Type 0
Inv n s = (lists : ℕ → List ℕ) × Split n s lists

turn-Inv :
    (n : ℕ) (s : System Memory Thread) (i : ℕ) (c : Choice)
    → i < n
    → IsPrivate c
    → Inv n s
    → let r = step c (s.pc i) s.mem in Inv n (record { mem = r.0; pc = update s.pc i r.1 })
unfolding step
turn-Inv n s i c lt ok (lists, v) =
    let rest = λ (a : ℕ). total (count a) n lists - count a (lists i) in
    let mine : Owned s.mem (s.pc i) (lists i) rest = record {
      unused = v.unused;
      nonnull = v.nonnull;
      local = v.local i lt;
      chain = v.chain i lt;
      once = λ a. omega (arith, v.once a, le-total (count a) n lists i lt);
    } in
    let (free, o, stays) = step-Owned c (s.pc i).at (s.pc i) s.mem (lists i) rest ok refl mine in
    (
      update lists i free,
      record {
        unused = o.unused;
        nonnull = o.nonnull;
        local = λ j h. elim (Bool-cases (i == j)) [
          | inl same ↦ rw same o.local
          | inr other ↦ rw other (v.local j h)
        ];
        chain = λ j h. elim (Bool-cases (i == j)) [
          | inl same ↦ rw same o.chain
          | inr other ↦ rw other (
              stays (s.pc j).local_free (lists j)
                (λ a. total-others (count a) n lists i j [] refl lt h other) (v.chain j h))
        ];
        once = λ a. omega (
          arith,
          o.once a,
          total-update (count a) n lists i free lt,
          le-total (count a) n lists i lt,
        );
      },
    )

-- No thread has called the allocator.
abbrev pub fresh : System Memory Thread
fresh = record { mem = init; pc = λ _. record { local_free = 0; at = idle } }

fresh-Inv : (n : ℕ) → Inv n fresh
unfolding init
fresh-Inv n = (
  λ _. [],
  record {
    unused = refl;
    nonnull = refl;
    local = λ i h. tt;
    chain = λ i h. refl;
    once = λ a. omega (arith, total-eq-zero (count a) n [] refl);
  },
)

module _ (n : ℕ) (cs : List (ℕ × Choice)) (private_calls : Each IsPrivate cs) where
  abbrev pub after : System Memory Thread
  after = run step n fresh cs

  after-Inv : Inv n after
  after-Inv =
      run-keeps_allowed step IsPrivate n (Inv n) (λ s i c lt ok v. turn-Inv n s i c lt ok v) fresh
        cs private_calls (fresh-Inv n)

  -- No waiter is given out twice: after every schedule of `n` threads that allocate and free waiters,
  -- free those that others allocated, and write the links of those that they use, each address is in use
  -- at most once, and only if `malloc` returned it.
  pub in_use-once : (a : ℕ) → count a after.mem.in_use ≤ bit (has a after.mem.allocations)
  in_use-once a = let (lists, v) = after-Inv in omega (arith, v.once a)

  -- The list for all threads stays empty.
  pub shared_list-unused : after.mem.free_list ≡ 0
  shared_list-unused = after-Inv.1.unused
