-- ===== src/Affinity/Win32.antt =====
-- source/platform/win32/processor_affinity.cpp: masks of processors. A `DWORD_PTR` is its bits; `none`
-- is a failed CRUNCH_ASSERT_ALWAYS, or the exception of the bitset.
pub mod Loops
pub mod Calls
use crunch_concurrency.Base.{
  ℕ, zero, suc, ◌+◌, ◌<◌, ◌≤◌, ◌≡◌, refl, sym, ◌∙◌, ap, arith, Bool, true, false, Option, none,
  some, ◌>>=◌, if◌then◌else◌, ◌==◌, ==_iff, ltb, ◌&&◌, subst, Bool-cases, inl, inr,
}
use mathlib.Core.Option.{some-injective}
use native.Mathlib.Decide.{ℕ_discrete}
use crunch_concurrency.Base.Machine.{update}
use crunch_concurrency.Affinity.Mask.{
  Mask, empty, set, is_set, max_processor_id, none_below, none_below-false, nonempty, is_empty,
  highest_set_processor, highest_from-le, highest-nonempty, highest-empty, empty-is_set,
}

abbrev pub Word : Type 0
Word = ℕ → Bool

-- The loop of `MaskFromAffinity`, `k` rounds from `p` on
unfoldable pub mask_loop : (k p : ℕ) → Mask → (mask : Word) → Option Word
mask_loop zero p affinity mask = some mask
mask_loop (suc k) p affinity mask = do
  here ← is_set p affinity
  mask_loop k (p + 1) affinity (if here then update mask p true else mask)

-- `MaskFromAffinity`
unfoldable pub mask_from_affinity : Mask → Option Word
unfolding mask_loop
mask_from_affinity affinity = mask_loop (highest_set_processor affinity + 1) 0 affinity (λ p. false)

-- The loop of `AffinityFromMask`
unfoldable pub affinity_loop : (k p : ℕ) → (mask : Word) → Mask → Option Mask
affinity_loop zero p mask affinity = some affinity
affinity_loop (suc k) p mask affinity = do
  affinity' ← if mask p then set p affinity else some affinity
  affinity_loop k (p + 1) mask affinity'

-- `AffinityFromMask`, for a `DWORD_PTR` of `width` bits
unfoldable pub affinity_from_mask : (width : ℕ) → Word → Option Mask
unfolding affinity_loop
affinity_from_mask width mask = affinity_loop width 0 mask empty

-- `SetThreadAffinityMask`, `SetProcessAffinityMask` and `GetProcessAffinityMask` are the system's: the
-- first returns the mask before, or 0; the second whether it succeeds, and the third the mask as well.
module _ {T : Type 0} where
  -- `SetThreadAffinity`
  unfoldable pub set_thread_affinity :
      (width : ℕ) → (set_thread_mask : Word → T → Word × T) → Mask → T → Option (Mask × T)
  set_thread_affinity width set_thread_mask affinity t = do
    mask ← mask_from_affinity affinity
    before ←
        if none_below width (set_thread_mask mask t).0
        then none
        else affinity_from_mask width (set_thread_mask mask t).0
    some (before, (set_thread_mask mask t).1)

  -- `SetProcessAffinity`
  unfoldable pub set_process_affinity :
      (set_process_mask : Word → T → Bool × T) → Mask → T → Option T
  set_process_affinity set_process_mask affinity t = do
    mask ← mask_from_affinity affinity
    if (set_process_mask mask t).0 then some (set_process_mask mask t).1 else none

  -- `GetProcessAffinity`
  unfoldable pub get_process_affinity :
      (width : ℕ) → (process_mask : T → Option Word) → T → Option Mask
  get_process_affinity width process_mask t = do
    mask ← process_mask t
    affinity_from_mask width mask
