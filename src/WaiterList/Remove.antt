-- ===== src/WaiterList/Remove.antt =====
-- source/waiter_list.cpp: `WaiterList::RemoveWaiter`, an access of shared memory at a time.
use crunch_concurrency.Base.{
  ℕ, zero, suc, ◌+◌, ◌≡◌, refl, ◌∙◌, Bool, true, false, some, List, [], ◌∷◌, arith, ◌==◌,
  if◌then◌else◌, Bool-cases, inl, inr, has, erase, length,
}
use crunch_concurrency.Base.Machine.{solo, Reaches, Reaches-trans}
use crunch_concurrency.WaiterList.Packed.{
  get_pointer, set_pointer, add_aba, get_pointer-swing, has_lock-swing, has_user_flag-swing,
  get_pointer-add_aba, get_pointer-with_lock, get_pointer-without_lock, has_lock-without_lock,
  has_user_flag-add_aba, has_user_flag-with_lock, has_user_flag-without_lock, has_lock,
  has_user_flag, with_lock, without_lock,
}
use crunch_concurrency.WaiterList.Memory.{Waiters, cas, unlock}
use crunch_concurrency.WaiterList.Chain.{
  Chain-IsPointer, IsOpen, remove_not_at_head-Removed, has-erase, Walk, found, missing, onward,
  walk_round, remove_not_at_head,
}

-- Where a call stands, with its locals: `head` is the word as the call last saw it.
pub data Remove : Type 0 where
  load : (waiter : ℕ) → Remove  -- `head = Load(...)`, at the start and while the list is locked
  loop : (head waiter : ℕ) → Remove  -- the tests of the loop
  pop : (head next waiter : ℕ) → Remove  -- the waiter is at the head: before the compare-and-swap
  lock : (head waiter : ℕ) → Remove  -- before the compare-and-swap that locks
  walk : (cur waiter : ℕ) → Remove  -- in `RemoveWaiterFromListNotAtHead`
  release : (removed : Bool) → Remove  -- before `And(~LOCK_BIT)`
  done : (removed : Bool) → Remove

after_round : Waiters → ℕ → Walk → Waiters × Remove
after_round m waiter missing = (m, release false)
after_round m waiter (found next) = (record m { next = next }, release true)
after_round m waiter (onward cur) = (m, walk cur waiter)

unfoldable pub remove_step : Remove → Waiters → Waiters × Remove
unfolding after_round
remove_step (load waiter) m = (m, loop m.word waiter)
remove_step (loop head waiter) m =
    if get_pointer head == 0
    then (m, done false)
    else (if has_lock head
        then (m, load waiter)
        else (if get_pointer head == waiter
            then (m, pop head (m.next (get_pointer head)) waiter)
            else (m, lock head waiter)))
remove_step (pop head next waiter) m =
    cas m head (add_aba (set_pointer head next)) (done true) (λ met. loop met waiter)
remove_step (lock head waiter) m =
    cas m head (add_aba (with_lock head)) (walk (get_pointer head) waiter) (λ met. loop met waiter)
remove_step (walk cur waiter) m = after_round m waiter (walk_round m.next cur waiter)
remove_step (release removed) m = (unlock m, done removed)
remove_step (done removed) m = (m, done removed)

-- The walk of the machine is the walk of `RemoveWaiterFromListNotAtHead`.
walk-release :
    (fuel : ℕ) (m : Waiters) (cur waiter : ℕ) (next' : ℕ → ℕ) (removed : Bool)
    → remove_not_at_head fuel m.next cur waiter ≡ some (next', removed)
    → Reaches remove_step (m, walk cur waiter) (record m { next = next' }, release removed)
unfolding remove_not_at_head remove_step solo
walk-release zero m cur waiter next' removed h = cc
walk-release (suc fuel) m cur waiter next' removed h =
    go (walk_round m.next cur waiter) refl (λ c. walk-release fuel m c waiter next' removed)
  where
    go :
        (w : Walk)
        → walk_round m.next cur waiter ≡ w
        → ((c : ℕ)
            → remove_not_at_head fuel m.next c waiter ≡ some (next', removed)
            → Reaches remove_step (m, walk c waiter) (record m { next = next' }, release removed))
        → Reaches remove_step (m, walk cur waiter) (record m { next = next' }, release removed)
    go missing e rec = (1, ground arith)
    go (found n) e rec = (1, ground arith)
    go (onward c) e rec = let (k, p) = rec c (ground arith) in (suc k, ground arith)

-- What a call that runs alone leaves: the list without the waiter, and nobody notified.
pub record Erased (m : Waiters) (xs : List ℕ) (waiter : ℕ) (m' : Waiters) : Type 0 where
  pub runs : Reaches remove_step (m, load waiter) (m', done (has waiter xs))
  pub opens : IsOpen m' (erase waiter xs)
  pub flag : has_user_flag m'.word ≡ has_user_flag m.word
  pub quiet : m'.notified ≡ m.notified

module _ (m : Waiters) (x : ℕ) (xs : List ℕ) (waiter : ℕ) (o : IsOpen m (x ∷ xs)) where
  at_head : (x == waiter) ≡ true → (m' : Waiters) × Erased m (x ∷ xs) waiter m'
  unfolding remove_step solo
  at_head hit =
      let p = Chain-IsPointer m.next xs o.chain.3 in
      (
        record m { word = add_aba (set_pointer m.word (m.next x)) },
        record {
          runs = (3, ground arith);
          opens = record {
            chain = rw (hit, get_pointer-swing m.word (m.next x) p) o.chain.3;
            unlocked = has_lock-swing m.word (m.next x) p ∙ o.unlocked;
          };
          flag = has_user_flag-swing m.word (m.next x) p;
          quiet = refl;
        },
      )

  locked : ℕ
  locked = add_aba (with_lock m.word)

  pointer-locked : get_pointer (without_lock locked) ≡ x
  unfolding locked
  pointer-locked =
      get_pointer-without_lock locked
      ∙ get_pointer-add_aba (with_lock m.word)
      ∙ get_pointer-with_lock m.word
      ∙ o.chain.0

  lock_steps :
      (x == waiter) ≡ false
      → Reaches remove_step (m, load waiter) (record m { word = locked }, walk x waiter)
  unfolding remove_step solo locked
  lock_steps miss = (3, ground arith)

  release_step :
      (next' : ℕ → ℕ) (removed : Bool)
      → Reaches remove_step
          (record m { word = locked; next = next' }, release removed)
          (record m { word = without_lock locked; next = next' }, done removed)
  unfolding remove_step solo
  release_step next' removed = (1, refl)

  behind_head : (x == waiter) ≡ false → (m' : Waiters) × Erased m (x ∷ xs) waiter m'
  unfolding locked
  behind_head miss =
      let (next', e, r) =
        remove_not_at_head-Removed (length xs + 1) m.next x waiter xs (omega arith) o.chain.2
          o.chain.3 in
      (
        record m { word = without_lock locked; next = next' },
        record {
          runs = rw miss (
              Reaches-trans remove_step (m, load waiter) (record m { word = locked }, walk x waiter)
                _ (lock_steps miss)
                (Reaches-trans remove_step _ _ _
                  (walk-release (length xs + 1) (record m { word = locked }) x waiter next'
                    (has waiter xs) e)
                  (release_step next' (has waiter xs))));
          opens = record {
            chain = rw miss (pointer-locked, o.chain.1, has-erase x waiter xs o.chain.2, r.chain);
            unlocked = has_lock-without_lock locked;
          };
          flag =
              has_user_flag-without_lock locked
              ∙ has_user_flag-add_aba (with_lock m.word)
              ∙ has_user_flag-with_lock m.word;
          quiet = refl;
        },
      )

-- Alone on a list that is not locked, `RemoveWaiter` ends; it returns true exactly when the waiter
-- stands in the list, and then the list is the same without it.
pub remove-Erased :
    (m : Waiters) (xs : List ℕ) (waiter : ℕ) → IsOpen m xs → (m' : Waiters) × Erased m xs waiter m'
unfolding remove_step solo
remove-Erased m [] waiter o =
    (m, record { runs = (2, ground arith); opens = o; flag = refl; quiet = refl })
remove-Erased m (x ∷ xs) waiter o = elim (Bool-cases (x == waiter)) [
  | inl hit ↦ at_head m x xs waiter o hit
  | inr miss ↦ behind_head m x xs waiter o miss
]

-- No step of `RemoveWaiter` notifies anybody.
pub remove_step-notified : (r : Remove) (m : Waiters) → (remove_step r m).0.notified ≡ m.notified
unfolding remove_step walk_round
remove_step-notified (load w) m = refl
remove_step-notified (loop head w) m = ground arith
remove_step-notified (pop head next w) m = ground arith
remove_step-notified (lock head w) m = ground arith
remove_step-notified (walk cur w) m = ground arith
remove_step-notified (release removed) m = refl
remove_step-notified (done removed) m = refl
