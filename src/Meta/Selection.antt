-- ===== src/Meta/Selection.antt =====
-- source/meta_scheduler.cpp: the schedulers that `ContextImpl::Run` runs, and their run modes. Where
-- the model of `SchedulerState` throws, the run mode has no throttler.
use crunch_concurrency.Base.{
  ℕ, ◌≡◌, ◌≢◌, ◌∙◌, refl, sym, ap, subst, arith, Bool, true, false, Option, none, some, List, [],
  ◌∷◌, ◌==◌, ==_iff, if◌then◌else◌, has, Bool-cases, inl, inr,
}
use crunch_concurrency.Meta.RunMode.{
  RunMode, Kind, disabled, some_items, timed, all_items, throttler_of,
}
use crunch_concurrency.Meta.Config.{SchedulerInfo, ids, IsDistinct}

-- `runModeOverrides.find`
unfoldable pub find_override : ℕ → List (ℕ × RunMode) → Option RunMode
find_override id [] = none
find_override id ((i, mode) ∷ rest) = if i == id then some mode else find_override id rest

unfoldable pub run_mode_of : List (ℕ × RunMode) → SchedulerInfo → RunMode
run_mode_of overrides info = elim (find_override info.id overrides) [
  | none ↦ info.default_run_mode
  | some mode ↦ mode
]

abbrev pub is_disabled : Kind → Bool
is_disabled disabled = true
is_disabled _ = false

-- The loop that makes the scheduler states
unfoldable pub select : List (ℕ × RunMode) → List SchedulerInfo → List (SchedulerInfo × RunMode)
select overrides [] = []
select overrides (info ∷ infos) =
    let mode = run_mode_of overrides info in
    let rest = select overrides infos in if is_disabled mode.kind then rest else (info, mode) ∷ rest

-- The run mode of the scheduler `id` among those that run
abbrev pub selected_mode : ℕ → List (SchedulerInfo × RunMode) → Option RunMode
selected_mode id [] = none
selected_mode id ((info, mode) ∷ rest) = if info.id == id then some mode else selected_mode id rest

-- The scheduler `id` of the configuration
abbrev pub find_scheduler : ℕ → List SchedulerInfo → Option SchedulerInfo
find_scheduler id [] = none
find_scheduler id (info ∷ rest) = if info.id == id then some info else find_scheduler id rest

absent-selected :
    (overrides : List (ℕ × RunMode)) (infos : List SchedulerInfo) (id : ℕ)
    → has id (ids infos) ≡ false
    → selected_mode id (select overrides infos) ≡ none
unfolding select
absent-selected overrides [] id h = refl
absent-selected overrides (info ∷ infos) id h =
    let rest = absent-selected overrides infos id (ground arith) in
    let other : (info.id == id) ≡ false = ground arith in
    elim (Bool-cases (is_disabled (run_mode_of overrides info).kind)) [
      | inl off ↦ rw off rest
      | inr on ↦ rw on (rw other rest)
    ]

-- The mode of a scheduler `id` after the overrides: the first for its id, or else its default
abbrev pub mode_for : (id : ℕ) → (default : RunMode) → List (ℕ × RunMode) → RunMode
mode_for id default [] = default
mode_for id default ((i, mode) ∷ rest) = if i == id then mode else mode_for id default rest

-- Which kinds of mode let a scheduler run
abbrev pub if_runs : Kind → RunMode → Option RunMode
if_runs disabled mode = none
if_runs some_items mode = some mode
if_runs timed mode = some mode
if_runs all_items mode = some mode

-- The mode with which a scheduler of the configuration should run, if it should
abbrev pub wanted_mode : List (ℕ × RunMode) → Option SchedulerInfo → Option RunMode
wanted_mode overrides none = none
wanted_mode overrides (some info) =
    let mode = mode_for info.id info.default_run_mode overrides in if_runs mode.kind mode

run_mode_of-mode_for :
    (overrides : List (ℕ × RunMode)) (info : SchedulerInfo)
    → run_mode_of overrides info ≡ mode_for info.id info.default_run_mode overrides
unfolding run_mode_of find_override
run_mode_of-mode_for overrides info = found overrides
  where
    found :
        (os : List (ℕ × RunMode))
        → (elim (find_override info.id os) [ none ↦ info.default_run_mode | some mode ↦ mode ])
          ≡ mode_for info.id info.default_run_mode os
    found [] = refl
    found ((i, mode) ∷ rest) = elim (Bool-cases (i == info.id)) [
      | inl here ↦ rw here refl
      | inr other ↦ rw other (found rest)
    ]

if_runs-none : (k : Kind) (mode : RunMode) → is_disabled k ≡ true → if_runs k mode ≡ none
if_runs-none disabled mode e = refl
if_runs-none some_items mode e = cc
if_runs-none timed mode e = cc
if_runs-none all_items mode e = cc

if_runs-some : (k : Kind) (mode : RunMode) → is_disabled k ≡ false → if_runs k mode ≡ some mode
if_runs-some disabled mode e = cc
if_runs-some some_items mode e = refl
if_runs-some timed mode e = refl
if_runs-some all_items mode e = refl

wanted_mode-some :
    (overrides : List (ℕ × RunMode)) (info : SchedulerInfo)
    → wanted_mode overrides (some info)
      ≡ if_runs (run_mode_of overrides info).kind (run_mode_of overrides info)
wanted_mode-some overrides info =
    ap (λ (m : RunMode). if_runs m.kind m) (sym (run_mode_of-mode_for overrides info))

wanted_mode-off :
    (overrides : List (ℕ × RunMode)) (info : SchedulerInfo)
    → is_disabled (run_mode_of overrides info).kind ≡ true
    → wanted_mode overrides (some info) ≡ none
wanted_mode-off overrides info off =
    wanted_mode-some overrides info ∙ if_runs-none _ (run_mode_of overrides info) off

wanted_mode-on :
    (overrides : List (ℕ × RunMode)) (info : SchedulerInfo)
    → is_disabled (run_mode_of overrides info).kind ≡ false
    → wanted_mode overrides (some info) ≡ some (run_mode_of overrides info)
wanted_mode-on overrides info on =
    wanted_mode-some overrides info ∙ if_runs-some _ (run_mode_of overrides info) on

-- Where the ids are distinct, a scheduler of the configuration runs with the first override for its id,
-- or without one with its default run mode, and does not run where that mode is disabled. No other
-- scheduler runs.
pub select-mode :
    (overrides : List (ℕ × RunMode)) (infos : List SchedulerInfo) (id : ℕ)
    → IsDistinct (ids infos)
    → selected_mode id (select overrides infos) ≡ wanted_mode overrides (find_scheduler id infos)
unfolding select
select-mode overrides [] id d = refl
select-mode overrides (x ∷ infos) id (fresh, d) =
    let rest = select-mode overrides infos id d in
    elim (Bool-cases (x.id == id)) [
      | inr other ↦ elim (Bool-cases (is_disabled (run_mode_of overrides x).kind)) [
        | inl off ↦ rw other (rw off rest)
        | inr on ↦ rw other (rw on (rw other rest))
      ]
      | inl here ↦
          let absent : has id (ids infos) ≡ false =
            subst (λ i. has i (ids infos) ≡ false) ((==_iff x.id id).0 here) fresh in
          elim (Bool-cases (is_disabled (run_mode_of overrides x).kind)) [
            | inl off ↦ rw here (
                rw off (absent-selected overrides infos id absent)
                ∙ sym (wanted_mode-off overrides x off))
            | inr on ↦ rw here (rw on (rw here refl) ∙ sym (wanted_mode-on overrides x on))
          ]
    ]

abbrev pub AllRun : List (SchedulerInfo × RunMode) → Type 0
AllRun [] = Unit
AllRun ((info, mode) ∷ rest) = (throttler_of mode ≢ none) × AllRun rest

kind-runs :
    (k : Kind) (count duration : ℕ)
    → is_disabled k ≡ false
    → throttler_of (record { kind = k; count = count; duration = duration }) ≢ none
unfolding throttler_of
kind-runs disabled count duration e n = cc
kind-runs some_items count duration e n = cc
kind-runs timed count duration e n = cc
kind-runs all_items count duration e n = cc

-- Every scheduler that is selected has a run function: none of its states throws "Invalid run mode".
pub select-AllRun :
    (overrides : List (ℕ × RunMode)) (infos : List SchedulerInfo) → AllRun (select overrides infos)
unfolding select
select-AllRun overrides [] = tt
select-AllRun overrides (info ∷ infos) =
    let mode = run_mode_of overrides info in
    let rest = select-AllRun overrides infos in
    elim (Bool-cases (is_disabled (run_mode_of overrides info).kind)) [
      | inl off ↦ rw off rest
      | inr on ↦ rw on (kind-runs mode.kind mode.count mode.duration on, rest)
    ]
