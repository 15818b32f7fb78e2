-- ===== src/Affinity/CpuSet.antt =====
-- source/platform/linux/processor_affinity.cpp: `CreateCpuSet` and `CreateAffinity`, between masks
-- and the `cpu_set_t` of sched.h, a set of processors as a function.
use crunch_concurrency.Base.{
  ℕ, zero, suc, ◌<◌, ◌≤◌, ◌≡◌, refl, ap, ◌∙◌, arith, Bool, true, false, ◌&&◌, ◌||◌, Option, none,
  some, ◌==◌, ltb, if◌then◌else◌, Bool-cases, inl, inr,
}
use native.Mathlib.Decide.{ℕ_discrete}
use crunch_concurrency.Base.Machine.{update}
use crunch_concurrency.Affinity.Mask.{
  Mask, empty, set, is_empty, highest_set_processor, highest_from-le, highest-empty,
  highest-nonempty, empty-is_set,
}

-- `CreateCpuSet`: the highest processor, and those below it that are set.
unfoldable pub create_cpu_set : Mask → ℕ → Bool
unfolding highest_set_processor
create_cpu_set m p = (p == highest_set_processor m) || (ltb p (highest_set_processor m) && m p)

-- The loop of `CreateAffinity` over the first `n` processors
unfoldable pub collect : ℕ → (ℕ → Bool) → Option Mask
unfolding set
collect zero cpus = some empty
collect (suc n) cpus = elim (collect n cpus) [
  | none ↦ none
  | some m ↦ if cpus n then set n m else some m
]

-- `sizeof(cpu_set_t)`
abbrev pub cpu_set_size : ℕ
cpu_set_size = 128

-- `CreateAffinity`
unfoldable pub create_affinity : (ℕ → Bool) → Option Mask
unfolding collect
create_affinity cpus = collect cpu_set_size cpus

pub collect_lem :
    (n : ℕ) (cpus : ℕ → Bool)
    → ((p : ℕ) → 32 ≤ p → cpus p ≡ false)
    → (m : Mask) × (collect n cpus ≡ some m) × ((p : ℕ) → m p ≡ (ltb p n && cpus p))
unfolding collect set
collect_lem zero cpus h = (empty, refl, λ p. ground arith)
collect_lem (suc n) cpus h =
    let (m, e, f) = collect_lem n cpus h in
    elim (Bool-cases (cpus n)) [
      | inl t ↦ (update m n true, ground (arith, h n), λ p. ground (arith, f p))
      | inr t ↦ (
        m,
        ground arith,
        λ p. elim (ℕ_discrete p n) [ yes q ↦ ground (arith, f p) | no q ↦ ground (arith, f p) ],
      )
    ]

collect_throws :
    (n : ℕ) (cpus : ℕ → Bool) (p : ℕ) → 32 ≤ p → p < n → cpus p ≡ true → collect n cpus ≡ none
unfolding collect set
collect_throws zero cpus p a b e = absurd (omega arith)
collect_throws (suc n) cpus p a b e = elim (ℕ_discrete p n) [
  | yes q ↦ ground arith
  | no q ↦ ground (arith, collect_throws n cpus p a)
]

pub cpu_set-high : (m : Mask) (p : ℕ) → 32 ≤ p → create_cpu_set m p ≡ false
unfolding create_cpu_set
cpu_set-high m p h = ground (arith, highest_from-le 31 m)

up_to_highest :
    (m : Mask) (highest p : ℕ)
    → m highest ≡ true
    → (m p ≡ true → p ≤ highest)
    → ((p == highest) || (ltb p highest && m p)) ≡ m p
up_to_highest m highest p top le = elim (ℕ_discrete p highest) [
  | yes q ↦ ground arith
  | no q ↦ ground arith
]

below_size : (p : ℕ) → p < 32 → ltb p cpu_set_size ≡ true
below_size p h = ground arith

pub cpu_set-mask : (m : Mask) (p : ℕ) → is_empty m ≡ false → p < 32 → create_cpu_set m p ≡ m p
unfolding create_cpu_set
cpu_set-mask m p e h =
    let (top, le) = highest-nonempty m e in up_to_highest m (highest_set_processor m) p top (le p h)

-- `CreateAffinity` after `CreateCpuSet` gives the mask back, where it is not empty; from the empty mask
-- it makes the mask of processor 0.
pub create_affinity-create_cpu_set :
    (m : Mask)
    → (m' : Mask) × (create_affinity (create_cpu_set m) ≡ some m')
      × ((p : ℕ) → p < 32 → m' p ≡ (if is_empty m then p == 0 else m p))
unfolding create_affinity create_cpu_set
create_affinity-create_cpu_set m =
    let (m', e, f) = collect_lem cpu_set_size (create_cpu_set m) (cpu_set-high m) in
    (
      m',
      e,
      λ p h. elim (Bool-cases (is_empty m)) [
        | inl none_set ↦
            rw none_set (ground (arith, f p, highest-empty m none_set, empty-is_set m p none_set))
        | inr some_set ↦ rw some_set (
            f p
            ∙ ap (λ (b : Bool). b && create_cpu_set m p) (below_size p h)
            ∙ cpu_set-mask m p some_set h)
      ],
    )

-- `CreateAffinity` throws where a processor from 32 to 127 is in the set.
pub create_affinity-throws :
    (cpus : ℕ → Bool) (p : ℕ)
    → 32 ≤ p
    → p < cpu_set_size
    → cpus p ≡ true
    → create_affinity cpus ≡ none
unfolding create_affinity
create_affinity-throws cpus p a b e = collect_throws cpu_set_size cpus p a b e
