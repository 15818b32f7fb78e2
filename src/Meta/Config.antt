-- ===== src/Meta/Config.antt =====
-- source/meta_scheduler.cpp: `Config::AddScheduler`.
use crunch_concurrency.Base.{
  ℕ, ◌≡◌, refl, arith, true, false, Option, none, some, List, [], ◌∷◌, ◌++◌, ◌==◌, ◌||◌,
  if◌then◌else◌, map, has, ◌⊎◌, inl, inr, Bool-cases,
}
use crunch_concurrency.Meta.RunMode.{RunMode}

-- `SchedulerInfo`
pub record SchedulerInfo : Type 0 where
  pub scheduler : ℕ
  pub id : ℕ
  pub default_run_mode : RunMode

abbrev pub ids : List SchedulerInfo → List ℕ
ids = map λ i. i.id

abbrev pub entry : ℕ → ℕ → RunMode → SchedulerInfo
entry scheduler id mode = record { scheduler = scheduler; id = id; default_run_mode = mode }

-- `AddScheduler`. `none` is the failed assertion "Scheduler already added".
unfoldable pub add_scheduler :
    List SchedulerInfo → (scheduler id : ℕ) → RunMode → Option (List SchedulerInfo)
add_scheduler infos scheduler id mode =
    if has id (ids infos) then none else some (infos ++ entry scheduler id mode ∷ [])

abbrev pub IsDistinct : List ℕ → Type 0
IsDistinct [] = Unit
IsDistinct (x ∷ xs) = (has x xs ≡ false) × IsDistinct xs

has-snoc :
    (a : ℕ) (infos : List SchedulerInfo) (i : SchedulerInfo)
    → has a (ids (infos ++ i ∷ [])) ≡ (has a (ids infos) || (i.id == a))
has-snoc a [] i = ground arith
has-snoc a (x ∷ xs) i = ground (arith, has-snoc a xs i)

IsDistinct-snoc :
    (infos : List SchedulerInfo) (i : SchedulerInfo)
    → IsDistinct (ids infos)
    → has i.id (ids infos) ≡ false
    → IsDistinct (ids (infos ++ i ∷ []))
IsDistinct-snoc [] i d h = ground arith
IsDistinct-snoc (x ∷ xs) i d h = ground (arith, has-snoc x.id xs i, IsDistinct-snoc xs i d.1)

-- `AddScheduler` keeps the scheduler ids distinct, and fails exactly on an id that is in use.
pub add_scheduler-IsDistinct :
    (infos : List SchedulerInfo) (scheduler id : ℕ) (mode : RunMode)
    → IsDistinct (ids infos)
    → ((has id (ids infos) ≡ true) × (add_scheduler infos scheduler id mode ≡ none))
      ⊎ ((has id (ids infos) ≡ false)
          × ((infos' : List SchedulerInfo) × (add_scheduler infos scheduler id mode ≡ some infos')
              × IsDistinct (ids infos')))
unfolding add_scheduler
add_scheduler-IsDistinct infos s id mode d = elim (Bool-cases (has id (ids infos))) [
  | inl e ↦ inl (e, rw e refl)
  | inr e ↦
      inr
        (e, (infos ++ entry s id mode ∷ [], rw e refl, IsDistinct-snoc infos (entry s id mode) d e))
]
