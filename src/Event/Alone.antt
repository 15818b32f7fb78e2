-- ===== src/Event/Alone.antt =====
-- source/event.cpp: what a call does that runs with no other step between its own, against the event
-- as a value: whether it is set, and the waiters, last first.
use crunch_concurrency.Base.{
  ℕ, suc, ◌≡◌, refl, ◌∙◌, List, [], ◌∷◌, ◌++◌, arith, sym, append-nil, append_assoc, Bool, true,
  false, not, if◌then◌else◌, has,
}
use crunch_concurrency.Base.Machine.{update, solo, Reaches, Reaches-trans}
use crunch_concurrency.WaiterList.Packed.{
  has_user_flag, get_pointer, set_pointer, add_aba, with_lock, without_lock, with_user_flag,
  without_user_flag, IsWaiter, IsPointer, get_pointer-swing, has_lock-swing, has_user_flag-swing,
  get_pointer-add_aba, get_pointer-with_user_flag, get_pointer-with_lock, get_pointer-set_pointer,
  get_pointer-without_lock, has_lock-without_lock, has_user_flag-without_lock,
  has_user_flag-add_aba, has_user_flag-with_user_flag, has_lock-add_aba, has_lock-with_user_flag,
  get_pointer-without_user_flag, has_lock-without_user_flag, has_user_flag-without_user_flag,
}
use crunch_concurrency.WaiterList.Memory.{Waiters, notify}
use crunch_concurrency.WaiterList.Chain.{Chain, Chain-update, IsOpen}
use crunch_concurrency.Event.Steps.{
  Pc, idle, add_load, added, set_load, set_notify, set_unlock, set_done, reset, Choice, step,
  is_set, locked_head,
}

-- The memory stands for an event that is set or not, with these waiters.
pub record Shows (m : Waiters) (set : Bool) (xs : List ℕ) : Type 0 where
  pub opens : IsOpen m xs
  pub flag : is_set m ≡ set

module _ (c : Choice) (m : Waiters) where
  abbrev pub Runs : Pc → Waiters → Pc → Type 0
  Runs p m' p' = Reaches (step c) (m, p) (m', p')

  -- `AddWaiter` of a waiter that is not in the list: on a set event it returns false and changes
  -- nothing; on an event that is not set it returns true, and the waiter comes first in the list.
  -- Nobody is notified.
  pub event_add_alone :
      (w : ℕ) (set : Bool) (xs : List ℕ)
      → IsWaiter w
      → has w xs ≡ false
      → Shows m set xs
      → (m' : Waiters) × Runs (add_load w) m' (added (not set))
        × Shows m' set (if set then xs else w ∷ xs)
        × (m'.notified ≡ m.notified)
  unfolding step solo is_set
  event_add_alone w true xs iw out h = (m, (2, ground arith), h, refl)
  event_add_alone w false xs iw out h = (
    record m { word = add_aba (set_pointer m.word w); next = update m.next w (get_pointer m.word) },
    (3, ground arith),
    record {
      opens = record {
        chain = (
          get_pointer-swing m.word w iw.pointer,
          iw,
          out,
          ground (
            arith,
            Chain-update m.next (get_pointer m.word) w (get_pointer m.word) xs out h.opens.chain,
          ),
        );
        unlocked = has_lock-swing m.word w iw.pointer ∙ h.opens.unlocked;
      };
      flag = has_user_flag-swing m.word w iw.pointer ∙ h.flag;
    },
    refl,
  )

  -- `Reset` leaves the list, and the event is not set.
  pub reset_alone :
      (set : Bool) (xs : List ℕ)
      → Shows m set xs
      → (m' : Waiters) × Runs reset m' idle × Shows m' false xs × (m'.notified ≡ m.notified)
  unfolding step solo is_set
  reset_alone set xs h = (
    record m { word = without_user_flag m.word },
    (1, refl),
    record {
      opens = record {
        chain = rw (get_pointer-without_user_flag m.word) h.opens.chain;
        unlocked = has_lock-without_user_flag m.word ∙ h.opens.unlocked;
      };
      flag = has_user_flag-without_user_flag m.word;
    },
    refl,
  )

-- The walk of `NotifyAllWaiters`, on a list that hangs under no word any more.
notify_walk :
    (c : Choice) (m : Waiters) (p : ℕ) (xs : List ℕ)
    → Chain m.next p xs
    → Reaches (step c) (m, set_notify p) (record m { notified = m.notified ++ xs }, set_unlock)
unfolding step solo
notify_walk c m p [] h = (1, ground (arith, append-nil m.notified))
notify_walk c m p (x ∷ xs) h =
    let (k, e) = notify_walk c (notify m x) (m.next x) xs h.3 in
    (suc k, ground (arith, append_assoc m.notified (x ∷ []) xs))

null-IsPointer : IsPointer 0
null-IsPointer = omega arith

module _ (w : ℕ) where
  locked_head-pointer : get_pointer (without_lock (locked_head w)) ≡ 0
  locked_head-pointer = ground (
    arith,
    get_pointer-without_lock (locked_head w),
    get_pointer-add_aba (with_user_flag (with_lock (set_pointer w 0))),
    get_pointer-with_user_flag (with_lock (set_pointer w 0)),
    get_pointer-with_lock (set_pointer w 0),
    get_pointer-set_pointer w 0 null-IsPointer,
  )

  locked_head-flag : has_user_flag (without_lock (locked_head w)) ≡ true
  locked_head-flag =
      has_user_flag-without_lock (locked_head w)
      ∙ has_user_flag-add_aba (with_user_flag (with_lock (set_pointer w 0)))
      ∙ has_user_flag-with_user_flag (with_lock (set_pointer w 0))

module _ (c : Choice) (m : Waiters) where
  taken : Waiters
  taken = record m { word = locked_head m.word }

  -- The first three steps of a `Set` that meets waiters.
  take_steps :
      (x : ℕ) (xs : List ℕ)
      → Shows m false (x ∷ xs)
      → Reaches (step c) (m, set_load) (taken, set_notify x)
  unfolding step solo is_set taken
  take_steps x xs h = (3, ground arith)

  flag_steps :
      Shows m false []
      → Reaches
          (step c)
          (m, set_load)
          (record m { word = add_aba (with_user_flag m.word) }, set_done)
  unfolding step solo is_set
  flag_steps h = (3, ground arith)

  unlock_step :
      (xs : List ℕ)
      → Reaches
          (step c)
          (record m { word = locked_head m.word; notified = xs }, set_unlock)
          (record m { word = without_lock (locked_head m.word); notified = xs }, set_done)
  unfolding step solo
  unlock_step xs = (1, refl)

  -- `Set` of an event that is not set notifies every waiter once, the last added first, and returns
  -- with the event set and the list empty.
  pub set_alone :
      (xs : List ℕ)
      → Shows m false xs
      → (m' : Waiters) × Reaches (step c) (m, set_load) (m', set_done)
        × Shows m' true []
        × (m'.notified ≡ m.notified ++ xs)
  unfolding is_set taken
  set_alone [] h = (
    record m { word = add_aba (with_user_flag m.word) },
    flag_steps h,
    record {
      opens = record {
        chain =
            get_pointer-add_aba (with_user_flag m.word)
            ∙ get_pointer-with_user_flag m.word
            ∙ h.opens.chain;
        unlocked =
            has_lock-add_aba (with_user_flag m.word)
            ∙ has_lock-with_user_flag m.word
            ∙ h.opens.unlocked;
      };
      flag = has_user_flag-add_aba (with_user_flag m.word) ∙ has_user_flag-with_user_flag m.word;
    },
    sym (append-nil m.notified),
  )
  set_alone (x ∷ xs) h = (
    record m { word = without_lock (locked_head m.word); notified = m.notified ++ x ∷ xs },
    Reaches-trans (step c) _ _ _ (take_steps x xs h) (
        Reaches-trans (step c) _ _ _
          (notify_walk c taken x (x ∷ xs) (refl, h.opens.chain.1, h.opens.chain.2, h.opens.chain.3))
          (unlock_step (m.notified ++ x ∷ xs))),
    record {
      opens = record {
        chain = locked_head-pointer m.word;
        unlocked = has_lock-without_lock (locked_head m.word);
      };
      flag = locked_head-flag m.word;
    },
    refl,
  )
