-- ===== src/Event/Monotone.antt =====
-- source/event.cpp under interleaving: without `Reset` the event stays set, and what its calls have
-- answered stays true.
use crunch_concurrency.Base.{ℕ, ◌≡◌, ◌≢◌, refl, List, arith, Bool, true, false, ◌⊎◌}
use crunch_concurrency.Base.Machine.{System, update, update-holds, run, run-keeps_allowed, Each}
use crunch_concurrency.WaiterList.Packed.{
  has_user_flag, get_pointer, set_pointer, with_lock, with_user_flag, IsPointer, IsWaiter,
  is_waiter-IsWaiter, get_pointer-IsPointer, has_user_flag-swing, has_user_flag-add_aba,
  has_user_flag-with_user_flag, has_user_flag-with_lock, has_user_flag-without_lock,
}
use crunch_concurrency.WaiterList.Memory.{Waiters}
use crunch_concurrency.WaiterList.Chain.{walk_round}
use crunch_concurrency.WaiterList.Remove.{Remove, remove_step}
use crunch_concurrency.Event.Steps.{
  Pc, idle, add_load, add_loop, add_link, added, set_load, set_loop, set_flag, set_lock, set_notify,
  set_unlock, set_done, reset, removing, Choice, adds, removes, sets, resets, goes_on, init, start,
  step, is_set,
}

abbrev pub IsCertain : ℕ → Pc → Type 0
IsCertain word (add_load w) = IsWaiter w
IsCertain word (add_loop head w) =
    IsWaiter w × (has_user_flag head ≡ true → has_user_flag word ≡ true)
IsCertain word (add_link head w) = IsWaiter w
IsCertain word (added answer) = answer ≡ false → has_user_flag word ≡ true
IsCertain word (set_loop head) = has_user_flag head ≡ true → has_user_flag word ≡ true
IsCertain word (set_notify _) = has_user_flag word ≡ true
IsCertain word set_unlock = has_user_flag word ≡ true
IsCertain word set_done = has_user_flag word ≡ true
IsCertain word reset = ⊥
IsCertain word (removing (Remove.pop _ next _)) = IsPointer next
IsCertain word _ = Unit

pub record Kept (m : Waiters) (r : Waiters × Pc) : Type 0 where
  pub links : (a : ℕ) → IsPointer (r.0.next a)
  pub stays : has_user_flag m.word ≡ true → has_user_flag r.0.word ≡ true
  pub certain : IsCertain r.0.word r.1

IsCertain-mono :
    (v w : ℕ) (p : Pc)
    → (has_user_flag v ≡ true → has_user_flag w ≡ true)
    → IsCertain v p
    → IsCertain w p
IsCertain-mono v w idle h c = tt
IsCertain-mono v w (removing (Remove.load _)) h c = tt
IsCertain-mono v w (removing (Remove.loop _ _)) h c = tt
IsCertain-mono v w (removing (Remove.pop _ _ _)) h c = c
IsCertain-mono v w (removing (Remove.lock _ _)) h c = tt
IsCertain-mono v w (removing (Remove.walk _ _)) h c = tt
IsCertain-mono v w (removing (Remove.release _)) h c = tt
IsCertain-mono v w (removing (Remove.done _)) h c = tt
IsCertain-mono v w p h c = ground arith

start-IsCertain : (c : Choice) (m : Waiters) → c ≢ resets → IsCertain m.word (start c)
unfolding start
start-IsCertain (adds w) m h = ground (arith, is_waiter-IsWaiter w)
start-IsCertain (removes w) m h = tt
start-IsCertain sets m h = tt
start-IsCertain resets m h = absurd (h refl)
start-IsCertain goes_on m h = tt

removing-Kept :
    (c : Choice) (r : Remove) (m : Waiters)
    → c ≢ resets
    → ((a : ℕ) → IsPointer (m.next a))
    → IsCertain m.word (removing r)
    → Kept m (step c (removing r) m)
unfolding step remove_step walk_round
removing-Kept c (Remove.load w) m n l v = ground arith
removing-Kept c (Remove.loop head w) m n l v = ground (arith, l (get_pointer head))
removing-Kept c (Remove.pop head next w) m n l v = ground (arith, has_user_flag-swing head next)
removing-Kept c (Remove.lock head w) m n l v =
    ground (arith, has_user_flag-add_aba (with_lock head), has_user_flag-with_lock head)
removing-Kept c (Remove.walk cur w) m n l v = ground (arith, l w)
removing-Kept c (Remove.release _) m n l v = ground (arith, has_user_flag-without_lock m.word)
removing-Kept c (Remove.done _) m n l v = record {
  links = l;
  stays = λ h. h;
  certain = start-IsCertain c m n;
}

step-Kept :
    (c : Choice) (p : Pc) (m : Waiters)
    → c ≢ resets
    → ((a : ℕ) → IsPointer (m.next a))
    → IsCertain m.word p
    → Kept m (step c p m)
unfolding step
step-Kept c idle m n l v = record { links = l; stays = λ h. h; certain = start-IsCertain c m n }
step-Kept c (added _) m n l v = record {
  links = l;
  stays = λ h. h;
  certain = start-IsCertain c m n;
}
step-Kept c set_done m n l v = record { links = l; stays = λ h. h; certain = start-IsCertain c m n }
step-Kept c (add_load w) m n l v = ground arith
step-Kept c (add_loop head w) m n l v = ground (arith, get_pointer-IsPointer head)
step-Kept c (add_link head w) m n l v = ground (arith, has_user_flag-swing head w)
step-Kept c set_load m n l v = ground arith
step-Kept c (set_loop head) m n l v = ground arith
step-Kept c (set_flag head) m n l v =
    ground (arith, has_user_flag-add_aba (with_user_flag head), has_user_flag-with_user_flag head)
step-Kept c (set_lock head) m n l v = ground (
  arith,
  has_user_flag-add_aba (with_user_flag (with_lock (set_pointer head 0))),
  has_user_flag-with_user_flag (with_lock (set_pointer head 0)),
)
step-Kept c (set_notify cur) m n l v = ground arith
step-Kept c set_unlock m n l v = ground (arith, has_user_flag-without_lock m.word)
step-Kept c reset m n l v = absurd v
step-Kept c (removing r) m n l v = removing-Kept c r m n l v

pub record Inv (s : System Waiters Pc) : Type 0 where
  pub links : (a : ℕ) → IsPointer (s.mem.next a)
  pub certain : (i : ℕ) → IsCertain s.mem.word (s.pc i)

-- `Reset` is not called.
abbrev pub IsNotReset : Choice → Type 0
IsNotReset c = c ≢ resets

turn-Inv :
    (s : System Waiters Pc) (i : ℕ) (c : Choice)
    → IsNotReset c
    → Inv s
    → let r = step c (s.pc i) s.mem in Inv (record { mem = r.0; pc = update s.pc i r.1 })
turn-Inv s i c n v = record {
  links = kept.links;
  certain =
      update-holds (IsCertain r.0.word) s.pc i r.1
        (λ j. IsCertain-mono s.mem.word r.0.word (s.pc j) kept.stays (v.certain j)) kept.certain;
}
  where
    r : Waiters × Pc
    r = step c (s.pc i) s.mem

    kept : Kept s.mem r
    kept = step-Kept c (s.pc i) s.mem n v.links (v.certain i)

-- A new event, and threads that have not called it.
abbrev pub fresh : Bool → System Waiters Pc
fresh b = record { mem = init b; pc = λ _. idle }

fresh-Inv : (b : Bool) → Inv (fresh b)
unfolding init
fresh-Inv true = record { links = λ a. omega arith; certain = λ _. tt }
fresh-Inv false = record { links = λ a. omega arith; certain = λ _. tt }

module _ (b : Bool) (n : ℕ) (cs : List (ℕ × Choice)) (quiet : Each IsNotReset cs) where
  abbrev pub after : System Waiters Pc
  after = run step n (fresh b) cs

  after-Inv : Inv after
  after-Inv =
      run-keeps_allowed step IsNotReset n Inv (λ s i c lt ok v. turn-Inv s i c ok v) (fresh b) cs
        quiet (fresh-Inv b)

  -- In every schedule without `Reset`: where some thread's `Set` has returned, or its `AddWaiter` has
  -- returned false, the event is set, whatever the other threads did since.
  pub answered-is_set :
      (i : ℕ) → (after.pc i ≡ set_done) ⊎ (after.pc i ≡ added false) → is_set after.mem ≡ true
  unfolding is_set
  answered-is_set i e = ground (arith, after-Inv.certain i)

  -- In every schedule without `Reset`, an event that is set stays set through every continuation
  -- without `Reset`.
  pub is_set-stays :
      (ds : List (ℕ × Choice))
      → Each IsNotReset ds
      → is_set after.mem ≡ true
      → is_set (run step n after ds).mem ≡ true
  unfolding is_set
  is_set-stays ds ok h =
      (run-keeps_allowed step IsNotReset n (λ s. Inv s × (has_user_flag s.mem.word ≡ true))
        (λ s i c lt q v. (
          turn-Inv s i c q v.0,
          (step-Kept c (s.pc i) s.mem q v.0.links (v.0.certain i)).stays v.1,
        ))
        after ds ok (after-Inv, h)).1
