-- ===== src/Mutex/Alone.antt =====
-- source/mutex.cpp: what a call does that runs with no other step between its own, against the
-- mutex as a value: free, or held with a stack of waiters.
use crunch_concurrency.Base.{
  ℕ, ◌≡◌, ◌≢◌, refl, ◌∙◌, List, [], ◌∷◌, ◌++◌, arith, sym, append-nil, Bool-cases, inl, inr, false,
  ◌==◌, has,
}
use crunch_concurrency.Base.Machine.{update, solo, Reaches}
use crunch_concurrency.WaiterList.Packed.{
  has_user_flag, get_pointer, set_pointer, add_aba, IsWaiter, get_pointer-swing, has_lock-swing,
  has_user_flag-swing,
}
use crunch_concurrency.WaiterList.Memory.{Waiters}
use crunch_concurrency.WaiterList.Chain.{Chain, Chain-IsPointer, Chain-update, IsOpen}
use crunch_concurrency.Mutex.Steps.{
  Pc, idle, critical, add_take, waiting, unlock, Choice, step, mutex_free_bit,
}
use crunch_concurrency.Mutex.Invariant.{zero_flag, one_flag, zero_lock}

-- Free, or held with the waiters in the order in which `Unlock` takes them.
pub data View : Type 0 where
  free : View
  held : List ℕ → View

pub record IsHeld (m : Waiters) (xs : List ℕ) : Type 0 where
  pub opens : IsOpen m xs
  pub taken : has_user_flag m.word ≡ false

-- The memory stands for the view.
abbrev pub Shows : Waiters → View → Type 0
Shows m free = m.word ≡ mutex_free_bit
Shows m (held xs) = IsHeld m xs

abbrev pub IsOutside : ℕ → View → Type 0
IsOutside w free = Unit
IsOutside w (held xs) = has w xs ≡ false

-- `AddWaiter` on the view: the new view, and where the caller then stands.
abbrev pub view_add : ℕ → View → View × Pc
view_add w free = (held [], critical)
view_add w (held xs) = (held (w ∷ xs), waiting w)

-- `Unlock` on the view: the new view, and the waiters that are notified.
abbrev pub view_unlock : View → View × List ℕ
view_unlock free = (free, [])
view_unlock (held []) = (free, [])
view_unlock (held (x ∷ xs)) = (held xs, x ∷ [])

zero_pointer : get_pointer 0 ≡ 0
unfolding get_pointer
zero_pointer = refl

Chain-zero : (next : ℕ → ℕ) (p : ℕ) (x : ℕ) (xs : List ℕ) → Chain next p (x ∷ xs) → p ≢ 0
Chain-zero next p x xs c = omega arith

module _ (spin_count : ℕ) (c : Choice) (m : Waiters) where
  abbrev pub Runs : Pc → Waiters → Pc → Type 0
  Runs p m' p' = Reaches (step spin_count c) (m, p) (m', p')

  push : (w : ℕ) → Waiters
  push w = record m {
    word = add_aba (set_pointer m.word w);
    next = update m.next w (get_pointer m.word);
  }

  push-IsHeld :
      (w : ℕ) (xs : List ℕ) → IsWaiter w → has w xs ≡ false → IsHeld m xs → IsHeld (push w) (w ∷ xs)
  unfolding push
  push-IsHeld w xs iw out h = record {
    opens = record {
      chain = (
        get_pointer-swing m.word w iw.pointer,
        iw,
        out,
        ground (
          arith,
          Chain-update m.next (get_pointer m.word) w (get_pointer m.word) xs out h.opens.chain,
        ),
      );
      unlocked = has_lock-swing m.word w iw.pointer ∙ h.opens.unlocked;
    };
    taken = has_user_flag-swing m.word w iw.pointer ∙ h.taken;
  }

  push_steps :
      (w : ℕ) (xs : List ℕ) → IsHeld m xs → Runs (add_take mutex_free_bit w) (push w) (waiting w)
  unfolding push step solo
  push_steps w xs h = (3, ground (arith, one_flag))

  -- `AddWaiter` of a waiter that is not in the list takes a free mutex, and otherwise pushes the
  -- waiter on the stack; nobody is notified.
  pub mutex_add_alone :
      (w : ℕ) (v : View)
      → IsWaiter w
      → Shows m v
      → IsOutside w v
      → (m' : Waiters) × Runs (add_take mutex_free_bit w) m' (view_add w v).1
        × Shows m' (view_add w v).0
        × (m'.notified ≡ m.notified)
  unfolding step solo push
  mutex_add_alone w free iw h out = (
    record m { word = 0 },
    (1, ground arith),
    record { opens = record { chain = zero_pointer; unlocked = zero_lock }; taken = zero_flag },
    refl,
  )
  mutex_add_alone w (held xs) iw h out =
      (push w, push_steps w xs h, push-IsHeld w xs iw out h, refl)

  pop : (x : ℕ) → Waiters
  pop x = record m {
    word = add_aba (set_pointer m.word (m.next x));
    notified = m.notified ++ x ∷ [];
  }

  pop_steps : (x : ℕ) (xs : List ℕ) → IsHeld m (x ∷ xs) → Runs unlock (pop x) idle
  unfolding pop step solo
  pop_steps x xs h = (4, ground (arith, zero_pointer))

  pop-IsHeld : (x : ℕ) (xs : List ℕ) → IsHeld m (x ∷ xs) → IsHeld (pop x) xs
  unfolding pop
  pop-IsHeld x xs h =
      let p = Chain-IsPointer m.next xs h.opens.chain.3 in
      record {
        opens = record {
          chain = rw (get_pointer-swing m.word (m.next x) p) h.opens.chain.3;
          unlocked = has_lock-swing m.word (m.next x) p ∙ h.opens.unlocked;
        };
        taken = has_user_flag-swing m.word (m.next x) p ∙ h.taken;
      }

  free_steps : IsHeld m [] → Runs unlock (record m { word = mutex_free_bit }) idle
  unfolding step solo
  free_steps h = elim (Bool-cases (m.word == 0)) [
    | inl e ↦ (1, ground arith)
    | inr ne ↦ (3, ground arith)
  ]

  -- `Unlock` of a held mutex pops and notifies the waiter that came last, which then owns the mutex;
  -- without waiters the mutex is free, and nobody is notified.
  pub unlock_alone :
      (xs : List ℕ)
      → IsHeld m xs
      → (m' : Waiters) × Runs unlock m' idle
        × Shows m' (view_unlock (held xs)).0
        × (m'.notified ≡ m.notified ++ (view_unlock (held xs)).1)
  unfolding pop
  unlock_alone [] h =
      (record m { word = mutex_free_bit }, free_steps h, refl, sym (append-nil m.notified))
  unlock_alone (x ∷ xs) h = (pop x, pop_steps x xs h, pop-IsHeld x xs h, refl)
