-- ===== src/Mutex/Invariant.antt =====
-- The invariant of the mutex: one token, which is in the word while the mutex is free, with the
-- thread that owns it, or in a notification that is under way.
use crunch_concurrency.Base.{
  ℕ, zero, suc, ◌+◌, ◌≤◌, ◌≡◌, ◌≢◌, refl, true, false, [], ◌∷◌, arith, length, length-append,
  length-erase, bit,
}
use crunch_concurrency.WaiterList.Packed.{
  get_pointer, has_lock, has_user_flag, is_waiter-IsWaiter, IsWaiter, IsPointer, get_pointer-swing,
  has_lock-swing, has_user_flag-swing, with_lock, without_lock, get_pointer-IsPointer,
  get_pointer-add_aba, get_pointer-with_lock, has_lock-without_lock, has_user_flag-add_aba,
  has_user_flag-with_lock, has_user_flag-without_lock,
}
use crunch_concurrency.WaiterList.Memory.{Waiters}
use crunch_concurrency.WaiterList.Remove.{Remove, remove_step}
use crunch_concurrency.WaiterList.Chain.{walk_round}
use crunch_concurrency.Mutex.Steps.{
  Pc, idle, try_lock, spin, spin_take, add_take, add_loop, add_link, waiting, critical, unlock,
  unlock_loop, unlock_free, unlock_load, unlock_pop, unlock_notify, removing, asserted, Choice,
  locks, adds, unlocks, gives_up, goes_on, step,
}

-- Whether a thread owns the mutex, or the duty to hand it over.
abbrev pub owns : Pc → ℕ
owns critical = 1
owns unlock = 1
owns (unlock_loop _) = 1
owns (unlock_free _) = 1
owns unlock_load = 1
owns (unlock_pop _ _) = 1
owns (unlock_notify _) = 1
owns _ = 0

-- The tokens in memory: the free mutex, and the notifications that nobody has taken.
abbrev pub free_tokens : Waiters → ℕ
free_tokens m = bit (has_user_flag m.word) + length m.notified

pub record MemInv (m : Waiters) : Type 0 where
  pub free : has_user_flag m.word ≡ true → m.word ≡ 1
  pub locked : has_lock m.word ≡ true → get_pointer m.word ≢ 0
  pub links : (a : ℕ) → IsPointer (m.next a)

abbrev RemoveLocal : Remove → Type 0
RemoveLocal (Remove.pop head next _) =
    IsPointer next × (has_lock head ≡ false) × (get_pointer head ≢ 0)
RemoveLocal (Remove.lock head _) = get_pointer head ≢ 0
RemoveLocal _ = Unit

-- What the locals of a thread are known to be.
abbrev pub Local : Pc → Type 0
Local (try_lock w) = IsWaiter w
Local (spin _ w) = IsWaiter w
Local (spin_take _ w) = IsWaiter w
Local (add_take head w) = IsWaiter w × (head ≡ 1)
Local (add_loop head w) = IsWaiter w × (has_user_flag head ≡ true → head ≡ 1)
Local (add_link head w) = IsWaiter w × (has_user_flag head ≡ false)
Local (waiting w) = IsWaiter w
Local (unlock_loop head) =
    (has_user_flag head ≡ false) × (has_lock head ≡ true → get_pointer head ≢ 0)
Local (unlock_free head) = has_user_flag head ≡ false
Local (unlock_pop head next) =
    IsPointer next × (has_user_flag head ≡ false) × (has_lock head ≡ false)
Local (removing r w) = RemoveLocal r × IsWaiter w
Local asserted = ⊥
Local _ = Unit

-- What a step from `p` in `m` keeps.
pub record Kept (m : Waiters) (p : Pc) (r : Waiters × Pc) : Type 0 where
  pub mem : MemInv r.0
  pub local : Local r.1
  pub tokens : free_tokens r.0 + owns r.1 ≡ free_tokens m + owns p

pub one_flag : has_user_flag 1 ≡ true
unfolding has_user_flag
one_flag = refl

pub zero_flag : has_user_flag 0 ≡ false
unfolding has_user_flag
zero_flag = refl

pub zero_lock : has_lock 0 ≡ false
unfolding has_lock
zero_lock = refl

pub one_lock : has_lock 1 ≡ false
unfolding has_lock
one_lock = refl

pub one_pointer : get_pointer 1 ≡ 0
unfolding get_pointer
one_pointer = refl

without_lock-one : without_lock 1 ≡ 1
unfolding without_lock
without_lock-one = refl

removing-Kept :
    (k : ℕ) (c : Choice) (r : Remove) (w : ℕ) (m : Waiters)
    → MemInv m
    → Local (removing r w)
    → Kept m (removing r w) (step k c (removing r w) m)
unfolding step remove_step walk_round
removing-Kept k c (Remove.load w') w m v l = ground arith
removing-Kept k c (Remove.loop head w') w m v l = ground (arith, v.links (get_pointer head))
removing-Kept k c (Remove.pop head next w') w m v l = ground (
  arith,
  one_pointer,
  get_pointer-swing head next,
  has_lock-swing head next,
  has_user_flag-swing head next,
)
removing-Kept k c (Remove.lock head w') w m v l = ground (
  arith,
  one_pointer,
  get_pointer-add_aba (with_lock head),
  get_pointer-with_lock head,
  has_user_flag-add_aba (with_lock head),
  has_user_flag-with_lock head,
)
removing-Kept k c (Remove.walk cur w') w m v l = ground (arith, v.links w')
removing-Kept k c (Remove.release removed) w m v l =
    ground
      (arith, without_lock-one, has_user_flag-without_lock m.word, has_lock-without_lock m.word)
removing-Kept k c (Remove.done true) w m v l = ground arith
removing-Kept k c (Remove.done false) w m v l = ground arith

pub step-Kept :
    (spin_count : ℕ) (c : Choice) (p : Pc) (m : Waiters)
    → MemInv m
    → Local p
    → free_tokens m + owns p ≤ 1
    → Kept m p (step spin_count c p m)
unfolding step
step-Kept k (locks w) idle m v l t = ground (arith, is_waiter-IsWaiter w)
step-Kept k (adds w) idle m v l t = ground (arith, is_waiter-IsWaiter w)
step-Kept k unlocks idle m v l t = ground arith
step-Kept k gives_up idle m v l t = ground arith
step-Kept k goes_on idle m v l t = ground arith
step-Kept k c (try_lock w) m v l t = ground (arith, one_flag, zero_flag, zero_lock)
step-Kept k c (spin zero w) m v l t = ground arith
step-Kept k c (spin (suc left) w) m v l t = ground arith
step-Kept k c (spin_take left w) m v l t = ground (arith, one_flag, zero_flag, zero_lock)
step-Kept k c (add_take head w) m v l t = ground (arith, one_flag, zero_flag, zero_lock)
step-Kept k c (add_loop head w) m v l t = ground (arith, get_pointer-IsPointer head)
step-Kept k c (add_link head w) m v l t =
    ground (arith, get_pointer-swing head w, has_lock-swing head w, has_user_flag-swing head w)
step-Kept k (locks _) (waiting w) m v l t = ground (arith, length-erase w m.notified)
step-Kept k (adds _) (waiting w) m v l t = ground (arith, length-erase w m.notified)
step-Kept k unlocks (waiting w) m v l t = ground (arith, length-erase w m.notified)
step-Kept k gives_up (waiting w) m v l t = ground arith
step-Kept k goes_on (waiting w) m v l t = ground (arith, length-erase w m.notified)
step-Kept k unlocks critical m v l t = ground arith
step-Kept k _ critical m v l t = ground arith
step-Kept k c unlock m v l t = ground (arith, one_flag, zero_flag, one_lock)
step-Kept k c (unlock_loop head) m v l t = ground (arith, v.links (get_pointer head))
step-Kept k c (unlock_free head) m v l t = ground (arith, one_flag, one_lock)
step-Kept k c unlock_load m v l t = ground (arith)
step-Kept k c (unlock_pop head next) m v l t =
    ground
      (arith, get_pointer-swing head next, has_lock-swing head next, has_user_flag-swing head next)
step-Kept k c (unlock_notify w) m v l t = ground (arith, length-append m.notified (w ∷ []))
step-Kept k c (removing r w) m v l t = removing-Kept k c r w m v l
step-Kept k c asserted m v l t = absurd l
