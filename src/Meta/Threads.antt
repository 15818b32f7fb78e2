-- ===== src/Meta/Threads.antt =====
-- source/meta_scheduler.cpp: the idle meta threads of a scheduler, and the reference count of the
-- calling thread's context. A vector is kept with its back first.
use crunch_concurrency.Base.{
  ℕ, zero, suc, ◌+◌, ◌-◌, ◌<◌, ◌≡◌, refl, arith, Bool, true, false, Option, none, some, List, [],
  ◌∷◌, ◌==◌, if◌then◌else◌,
}
use crunch_concurrency.Meta.RunMode.{RunMode}

-- `MetaThread`
pub record MetaThread : Type 0 where
  pub processor_affinity : ℕ
  pub run_mode_overrides : List (ℕ × RunMode)

-- `CreateMetaThread`: the idle threads after it.
unfoldable pub create_meta_thread : MetaThread → List MetaThread → List MetaThread
create_meta_thread t idle = t ∷ idle

-- `AcquireMetaThread`, after its wait: `added` is what `interrupt.AddWaiter` returned, `idle` the
-- idle threads when the wait ended, because one was there or the interrupt came.
unfoldable pub acquire_meta_thread : Bool → List MetaThread → Option MetaThread × List MetaThread
acquire_meta_thread false idle = (none, idle)
acquire_meta_thread true [] = (none, [])
acquire_meta_thread true (t ∷ idle) = (some t, idle)

-- `ReleaseMetaThread`
unfoldable pub release_meta_thread : MetaThread → List MetaThread → List MetaThread
release_meta_thread t idle = t ∷ idle

-- The meta thread through `ContextImpl::Run`: `first` and `second` are what the two calls of
-- `until.AddWaiter` return, the one in `AcquireMetaThread` and the one in `Run`.
unfoldable pub run_meta_thread : (first second : Bool) → List MetaThread → List MetaThread
unfolding acquire_meta_thread release_meta_thread
run_meta_thread first second idle =
    let (taken, left) = acquire_meta_thread first idle in
    elim taken [ none ↦ left | some t ↦ if second then release_meta_thread t left else left ]

-- `Run` gives its meta thread back, unless `until` becomes ready between its two calls of
-- `AddWaiter`: then `Run` returns with the thread that it took, and the scheduler has one less.
pub run_meta_thread_lem :
    (first second : Bool) (t : MetaThread) (idle : List MetaThread)
    → run_meta_thread first second (t ∷ idle)
      ≡ (if first then (if second then t ∷ idle else idle) else t ∷ idle)
unfolding run_meta_thread
run_meta_thread_lem true true t idle = refl
run_meta_thread_lem true false t idle = refl
run_meta_thread_lem false second t idle = refl

-- `tCurrentContext`: the context of the calling thread, with its owner and reference count.
pub record Context : Type 0 where
  pub owner : ℕ
  pub ref_count : ℕ

pub data Acquired : Type 0 where
  context : Context → Acquired
  wrong_owner : Acquired  -- "Context belongs to different MetaScheduler instance"

-- `MetaScheduler::AcquireContext`
unfoldable pub acquire_context : (owner : ℕ) → Option Context → Acquired
acquire_context owner none = context (record { owner = owner; ref_count = 1 })
acquire_context owner (some c) =
    if c.owner == owner then context (record c { ref_count = c.ref_count + 1 }) else wrong_owner

-- `ContextImpl::Release`
unfoldable pub release_context : Context → Option Context
release_context c =
    if c.ref_count - 1 == 0 then none else some (record c { ref_count = c.ref_count - 1 })

-- `n` further calls of `AcquireContext`, and `n` calls of `Release`.
unfoldable pub acquire_times : ℕ → (owner : ℕ) → Option Context → Option Context
unfolding acquire_context
acquire_times zero owner c = c
acquire_times (suc n) owner c = elim (acquire_context owner c) [
  | context d ↦ acquire_times n owner (some d)
  | wrong_owner ↦ none
]

unfoldable pub release_times : ℕ → Option Context → Option Context
unfolding release_context
release_times zero c = c
release_times (suc n) none = none
release_times (suc n) (some c) = release_times n (release_context c)

acquire_count :
    (n owner k : ℕ)
    → acquire_times n owner (some (record { owner = owner; ref_count = k }))
      ≡ some (record { owner = owner; ref_count = k + n })
unfolding acquire_times
acquire_count zero owner k = ground arith
acquire_count (suc n) owner k = ground (arith, acquire_count n owner (k + 1))

release_count :
    (n owner k : ℕ)
    → 0 < k
    → release_times n (some (record { owner = owner; ref_count = k + n }))
      ≡ some (record { owner = owner; ref_count = k })
unfolding release_times
release_count zero owner k h = ground arith
release_count (suc n) owner k h = ground (arith, release_count n owner k)

release_all :
    (n owner : ℕ)
    → release_times (suc n) (some (record { owner = owner; ref_count = 1 + n })) ≡ none
unfolding release_times
release_all zero owner = ground arith
release_all (suc n) owner = ground (arith, release_all n owner)

-- A context lives until it has been released as often as it was acquired: after `n + 1` calls of
-- `AcquireContext`, `n` calls of `Release` leave it, and one more frees it, so that the thread has no
-- context.
pub context_lifetime :
    (n owner : ℕ)
    → (release_times n (acquire_times (suc n) owner none)
        ≡ some (record { owner = owner; ref_count = 1 }))
      × (release_times (suc n) (acquire_times (suc n) owner none) ≡ none)
unfolding acquire_times
context_lifetime n owner =
    rw (acquire_count n owner 1) (release_count n owner 1 (omega arith), release_all n owner)
