-- ===== src/SystemSemaphore.antt =====
-- include/crunch/concurrency/detail/system_semaphore.hpp and
-- source/platform/darwin/system_semaphore.cpp: the semaphore that waits spin on, a counter in front
-- of a semaphore of the kernel. A call of the kernel is an effect, and is returned. `Post` and `Wait`
-- touch the counter once, so that calls of several threads are a sequence of calls.
mod Tests
use crunch_concurrency.Base.{
  ℕ, zero, suc, ◌+◌, ◌-◌, ◌%◌, ◌^◌, ◌<◌, ◌≤◌, ◌≡◌, refl, arith, Bool, true, false, List, [], ◌∷◌,
  ltb, ◌==◌, if◌then◌else◌, ◌&&◌, not, Bool-cases, ◌⊎◌, inl, inr, length,
}

pub data Effect : Type 0 where
  creates : (tokens : ℕ) → Effect
  signals waits nothing : Effect

-- `SystemSemaphore::SystemSemaphore`: `mCount`, an `int32_t` as the number below 2 ^ 32 with its bits,
-- and what is asked of the kernel.
unfoldable pub create : (initial_count : ℕ) → ℕ × Effect
create initial_count = (initial_count % 2 ^ 32, creates initial_count)

abbrev pub is_negative : ℕ → Bool
is_negative c = not (ltb c (2 ^ 31))

abbrev pub is_positive : ℕ → Bool
is_positive c = ltb 0 c && ltb c (2 ^ 31)

-- `Post`: `Increment` returns the old count.
unfoldable pub post : ℕ → ℕ × Effect
post c = ((c + 1) % 2 ^ 32, if is_negative c then signals else nothing)

-- `Wait`
unfoldable pub wait : ℕ → ℕ × Effect
wait c = ((c + 2 ^ 32 - 1) % 2 ^ 32, if is_positive c then nothing else waits)

-- `TryWait`, while no other call changes the counter: its compare-and-swap succeeds.
unfoldable pub try_wait : ℕ → ℕ × Bool
try_wait c = if is_positive c then (c - 1, true) else (c, false)

-- `SpinWait`, while no other call changes the counter.
unfoldable pub spin_wait : (spin_count : ℕ) → ℕ → ℕ × Effect
unfolding try_wait wait
spin_wait zero c = wait c
spin_wait (suc spin_count) c =
    let rest = spin_wait spin_count (try_wait c).0 in
    if (try_wait c).1 then ((try_wait c).0, nothing) else rest

-- `SpinWait` ends for every spin count. Alone it takes the permits that `Wait` takes, and asks the
-- kernel to wait exactly where `Wait` does.
pub spin_wait-wait : (spin_count c : ℕ) → c < 2 ^ 32 → spin_wait spin_count c ≡ wait c
unfolding spin_wait wait try_wait
spin_wait-wait zero c h = refl
spin_wait-wait (suc n) c h = elim (Bool-cases (is_positive c)) [
  | inl e ↦ ground arith
  | inr e ↦ ground (arith, spin_wait-wait n c h)
]

pub data Call : Type 0 where
  posts takes : Call

-- A sequence of calls of `Post` and `Wait`: the counter, the signals and the waits of the kernel.
pub record Account : Type 0 where
  pub count : ℕ
  pub signaled : ℕ
  pub waited : ℕ

abbrev pub note : Account → ℕ × Effect → Account
note a (c, signals) = record { count = c; signaled = a.signaled + 1; waited = a.waited }
note a (c, waits) = record { count = c; signaled = a.signaled; waited = a.waited + 1 }
note a (c, _) = record a { count = c }

unfoldable pub call : Call → Account → Account
unfolding post wait
call posts a = note a (post a.count)
call takes a = note a (wait a.count)

unfoldable pub calls : List Call → Account → Account
calls [] a = a
calls (c ∷ cs) a = calls cs (call c a)

-- The callers that a negative counter stands for.
abbrev pub owed : ℕ → ℕ
owed c = if is_negative c then 2 ^ 32 - c else 0

abbrev magnitude : ℕ → ℕ
magnitude c = if is_negative c then 2 ^ 32 - c else c

record Fits (room : ℕ) (a : Account) : Type 0 where
  range : a.count < 2 ^ 32
  fits : magnitude a.count + room < 2 ^ 31
  balance : a.waited ≡ a.signaled + owed a.count

call-Fits : (room : ℕ) (c : Call) (a : Account) → Fits (suc room) a → Fits room (call c a)
unfolding call post wait
call-Fits room posts a f = record {
  range = ground (arith, f.range);
  fits = ground (arith, f.range, f.fits);
  balance = ground (arith, f.range, f.fits, f.balance);
}
call-Fits room takes a f = record {
  range = ground (arith, f.range);
  fits = ground (arith, f.range, f.fits);
  balance = ground (arith, f.range, f.fits, f.balance);
}

calls-Fits : (cs : List Call) (a : Account) → Fits (length cs) a → Fits 0 (calls cs a)
unfolding calls
calls-Fits [] a f = f
calls-Fits (c ∷ cs) a f = calls-Fits cs (call c a) (call-Fits (length cs) c a f)

abbrev pub fresh : ℕ → Account
fresh initial_count = record { count = initial_count; signaled = 0; waited = 0 }

-- After any sequence of calls of `Post` and `Wait`, fewer than 2 ^ 31 with the initial count: the
-- kernel has been asked to wait exactly as often as to signal and once more for each caller that a
-- negative counter stands for.
pub waits-eq-signals :
    (initial_count : ℕ) (cs : List Call)
    → initial_count + length cs < 2 ^ 31
    → let a = calls cs (fresh initial_count) in a.waited ≡ a.signaled + owed a.count
waits-eq-signals initial_count cs h =
    (calls-Fits cs (fresh initial_count)
      (record { range = omega arith; fits = ground arith; balance = ground arith })).balance
