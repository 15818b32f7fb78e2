-- ===== src/WaiterList/Packed.antt =====
-- include/crunch/concurrency/detail/waiter_list.hpp: a `uint64_t` that holds a pointer in bits 2 to
-- 47, the flags USER_FLAG_BIT (bit 0) and LOCK_BIT (bit 1), and a counter in bits 48 to 63. A mask is
-- written as the quotient and remainder that it takes.
use crunch_concurrency.Base.{
  ℕ, ◌+◌, ◌-◌, ◌*◌, ◌/◌, ◌%◌, ◌^◌, ◌<◌, ◌≡◌, Bool, true, false, arith, ◌==◌, if◌then◌else◌, ◌∙◌,
  ◌&&◌, ltb,
}

-- USER_FLAG_BIT, LOCK_BIT and ABA_ADDEND
abbrev pub user_flag_bit : ℕ
user_flag_bit = 1

abbrev pub lock_bit : ℕ
lock_bit = 2

abbrev pub aba_addend : ℕ
aba_addend = 2 ^ 48

-- `(w & USER_FLAG_BIT) != 0`
unfoldable pub has_user_flag : ℕ → Bool
has_user_flag w = w % 2 == 1

-- `(w & LOCK_BIT) != 0`
unfoldable pub has_lock : ℕ → Bool
has_lock w = w / 2 % 2 == 1

-- `GetPointer`: `w & PTR_MASK`
unfoldable pub get_pointer : ℕ → ℕ
get_pointer w = w % 2 ^ 48 / 4 * 4

-- `SetPointer`: `(w & ~PTR_MASK) | p`, for a `p` that has bits of PTR_MASK only, as is asserted.
unfoldable pub set_pointer : ℕ → ℕ → ℕ
set_pointer w p = w / 2 ^ 48 * 2 ^ 48 + w % 4 + p

-- `w + ABA_ADDEND`, in 64 bits
unfoldable pub add_aba : ℕ → ℕ
add_aba w = (w + aba_addend) % 2 ^ 64

-- `w | LOCK_BIT`
unfoldable pub with_lock : ℕ → ℕ
unfolding has_lock
with_lock w = if has_lock w then w else w + lock_bit

-- `w & ~LOCK_BIT`
unfoldable pub without_lock : ℕ → ℕ
unfolding has_lock
without_lock w = if has_lock w then w - lock_bit else w

-- `w | USER_FLAG_BIT`
unfoldable pub with_user_flag : ℕ → ℕ
unfolding has_user_flag
with_user_flag w = if has_user_flag w then w else w + user_flag_bit

-- `w & ~USER_FLAG_BIT`
unfoldable pub without_user_flag : ℕ → ℕ
unfolding has_user_flag
without_user_flag w = if has_user_flag w then w - user_flag_bit else w

-- An address that the word can hold: 4-byte aligned, below 2 ^ 48. Null is one.
pub record IsPointer (p : ℕ) : Type 0 where
  pub aligned : p % 4 ≡ 0
  pub small : p < 2 ^ 48

-- The address of a waiter.
pub record IsWaiter (p : ℕ) : Type 0 where
  pub pointer : IsPointer p
  pub positive : 0 < p

pub get_pointer-IsPointer : (w : ℕ) → IsPointer (get_pointer w)
unfolding get_pointer
get_pointer-IsPointer w = omega arith

module _ (w p : ℕ) (h : IsPointer p) where
  pub get_pointer-set_pointer : get_pointer (set_pointer w p) ≡ p
  unfolding get_pointer set_pointer
  get_pointer-set_pointer = omega arith

  pub has_lock-set_pointer : has_lock (set_pointer w p) ≡ has_lock w
  unfolding has_lock set_pointer
  has_lock-set_pointer = ground arith

  pub has_user_flag-set_pointer : has_user_flag (set_pointer w p) ≡ has_user_flag w
  unfolding has_user_flag set_pointer
  has_user_flag-set_pointer = ground arith

  pub set_pointer-small : w < 2 ^ 64 → set_pointer w p < 2 ^ 64
  unfolding set_pointer
  set_pointer-small s = omega arith

-- The counter is apart from the pointer and the flags.
module _ (w : ℕ) where
  pub get_pointer-add_aba : get_pointer (add_aba w) ≡ get_pointer w
  unfolding get_pointer add_aba
  get_pointer-add_aba = omega arith

  pub has_lock-add_aba : has_lock (add_aba w) ≡ has_lock w
  unfolding has_lock add_aba
  has_lock-add_aba = ground arith

  pub has_user_flag-add_aba : has_user_flag (add_aba w) ≡ has_user_flag w
  unfolding has_user_flag add_aba
  has_user_flag-add_aba = ground arith

  pub get_pointer-with_lock : get_pointer (with_lock w) ≡ get_pointer w
  unfolding get_pointer with_lock
  get_pointer-with_lock = ground arith

  pub get_pointer-without_lock : get_pointer (without_lock w) ≡ get_pointer w
  unfolding get_pointer without_lock
  get_pointer-without_lock = ground arith

  pub has_lock-with_lock : has_lock (with_lock w) ≡ true
  unfolding with_lock
  has_lock-with_lock = ground arith

  pub has_lock-without_lock : has_lock (without_lock w) ≡ false
  unfolding without_lock
  has_lock-without_lock = ground arith

  pub has_user_flag-with_lock : has_user_flag (with_lock w) ≡ has_user_flag w
  unfolding has_user_flag with_lock
  has_user_flag-with_lock = ground arith

  pub has_user_flag-without_lock : has_user_flag (without_lock w) ≡ has_user_flag w
  unfolding has_user_flag without_lock
  has_user_flag-without_lock = ground arith

  pub has_user_flag-with_user_flag : has_user_flag (with_user_flag w) ≡ true
  unfolding with_user_flag
  has_user_flag-with_user_flag = ground arith

  pub has_user_flag-without_user_flag : has_user_flag (without_user_flag w) ≡ false
  unfolding without_user_flag
  has_user_flag-without_user_flag = ground arith

  pub has_lock-with_user_flag : has_lock (with_user_flag w) ≡ has_lock w
  unfolding has_lock with_user_flag
  has_lock-with_user_flag = ground arith

  pub has_lock-without_user_flag : has_lock (without_user_flag w) ≡ has_lock w
  unfolding has_lock without_user_flag
  has_lock-without_user_flag = ground arith

  pub get_pointer-with_user_flag : get_pointer (with_user_flag w) ≡ get_pointer w
  unfolding get_pointer with_user_flag
  get_pointer-with_user_flag = ground arith

  pub get_pointer-without_user_flag : get_pointer (without_user_flag w) ≡ get_pointer w
  unfolding get_pointer without_user_flag
  get_pointer-without_user_flag = ground arith

-- What stays of the word where the pointer is replaced and the counter moves on.
module _ (w p : ℕ) (h : IsPointer p) where
  pub get_pointer-swing : get_pointer (add_aba (set_pointer w p)) ≡ p
  get_pointer-swing = get_pointer-add_aba (set_pointer w p) ∙ get_pointer-set_pointer w p h

  pub has_lock-swing : has_lock (add_aba (set_pointer w p)) ≡ has_lock w
  has_lock-swing = has_lock-add_aba (set_pointer w p) ∙ has_lock-set_pointer w p h

  pub has_user_flag-swing : has_user_flag (add_aba (set_pointer w p)) ≡ has_user_flag w
  has_user_flag-swing = has_user_flag-add_aba (set_pointer w p) ∙ has_user_flag-set_pointer w p h

-- The same as a test.
unfoldable pub is_waiter : ℕ → Bool
is_waiter p = (p % 4 == 0) && ltb p (2 ^ 48) && ltb 0 p

pub is_waiter-IsWaiter : (p : ℕ) → is_waiter p ≡ true → IsWaiter p
unfolding is_waiter
is_waiter-IsWaiter p h = ground arith
