-- ===== src/Topology/Shape.antt =====
-- source/processor_topology.cpp: what the constructor of `ProcessorTopology` finds.
use crunch_concurrency.Base.{
  ℕ, zero, suc, ◌+◌, ◌<◌, ◌≤◌, ◌≡◌, refl, ap, ◌∙◌, arith, false, Option, some, List, [], ◌∷◌, map,
  ◌==◌, Bool-cases, inl, inr, ◌⊎◌, ◌≢◌,
}
use crunch_concurrency.Affinity.Mask.{highest_set_processor}
use crunch_concurrency.Topology.{
  Platform, Processor, Cpus, enumerate_from_initial_apic_id, read_initial_apic_id,
  enumerate_from_x2_apic_id, read_x2_apic_id, pass_levels,
}
use crunch_concurrency.Topology.Enumeration.{
  members, IsNarrow, RunsInside, affinity_lem, highest-low, visit_all_lem, members-highest,
}

-- The processors of an affinity, each read on itself
abbrev pub readings : (ℕ → ℕ → Processor) → Cpus → List Processor
readings read cpus = map (λ p. read p p) (members cpus 32 0)

-- The numbers from `i` on, `n` of them
abbrev pub count_up : ℕ → ℕ → List ℕ
count_up zero i = []
count_up (suc n) i = i ∷ count_up n (suc i)

-- `EnumerateFromCpuidInitialApicId` reads every processor of the calling thread's affinity once, in
-- order and on that processor, and the thread has its affinity again. The affinity holds a processor
-- and none above 31, and a thread runs on a processor of its affinity.
pub enumerate_initial-readings :
    (platform : Platform) (smt_bits core_bits : ℕ) (cpus : Cpus)
    → RunsInside platform
    → IsNarrow cpus
    → enumerate_from_initial_apic_id platform smt_bits core_bits cpus
      ≡ some (readings (read_initial_apic_id platform smt_bits core_bits) cpus, cpus)
unfolding enumerate_from_initial_apic_id
enumerate_initial-readings platform smt_bits core_bits cpus inside narrow =
    let read = read_initial_apic_id platform smt_bits core_bits in
    let (m, found, back, same) = affinity_lem cpus narrow in
    rw (found, enumerate_from_initial_apic_id)
      (visit_all_lem platform read m (highest_set_processor m + 1) 0 cpus inside narrow
          (omega (arith, highest-low m))
        ∙ ap (λ ps. some (map (λ p. read p p) ps, cpus)) (members-highest cpus m narrow same))

used_apart : (f : ℕ → ℕ) (i level : ℕ) → (f i == 0) ≡ false → f level ≡ 0 → i ≢ level
used_apart f i level used unused q = let alike = ap f q in ground arith

-- The loop over the levels ends with enough fuel, where cpuid reports an unused level.
pass_levels-ends :
    (platform : Platform) (here fuel i level : ℕ)
    → i ≤ level
    → level < i + fuel
    → platform.extract_bits (platform.query here 11 level).ebx 0 15 ≡ 0
    → (found : ℕ) × (pass_levels platform here fuel i ≡ some found)
unfolding pass_levels
pass_levels-ends platform here zero i level a b e = absurd (omega arith)
pass_levels-ends platform here (suc fuel) i level a b e =
    elim (Bool-cases (platform.extract_bits (platform.query here 11 i).ebx 0 15 == 0)) [
      | inl unused ↦ (i, rw unused refl)
      | inr used ↦
          let apart : i ≢ level =
            used_apart (λ l. platform.extract_bits (platform.query here 11 l).ebx 0 15) i level used
              e in
          let (found, r) =
            pass_levels-ends platform here fuel (suc i) level (omega arith) (omega arith) e in
          (found, rw used r)
    ]

pub enumerate_x2-readings :
    (platform : Platform) (fuel level : ℕ) (cpus : Cpus)
    → RunsInside platform
    → IsNarrow cpus
    → level < fuel
    → platform.extract_bits (platform.query (platform.running cpus) 11 level).ebx 0 15 ≡ 0
    → enumerate_from_x2_apic_id platform fuel cpus
      ≡ some (readings (read_x2_apic_id platform) cpus, cpus)
unfolding enumerate_from_x2_apic_id
enumerate_x2-readings platform fuel level cpus inside narrow below unused =
    let (m, found, back, same) = affinity_lem cpus narrow in
    let (levels, ends) =
      pass_levels-ends platform (platform.running cpus) fuel 0 level (omega arith) (omega arith)
        unused in
    rw (found, enumerate_from_x2_apic_id)
      (rw ends (
        visit_all_lem platform (read_x2_apic_id platform) m (highest_set_processor m + 1) 0 cpus
          inside narrow (omega (arith, highest-low m))
        ∙ ap (λ ps. some (map (λ p. read_x2_apic_id platform p p) ps, cpus))
            (members-highest cpus m narrow same)))

-- An enumeration that leaves the affinity as it was and lists the processors of it, or none.
abbrev Lists : Cpus → Option (List Processor × Cpus) → Type 0
Lists cpus r =
    (ps : List Processor) × (r ≡ some (ps, cpus))
    × ((map (λ (p : Processor). p.system_id) ps ≡ members cpus 32 0) ⊎ (ps ≡ []))
