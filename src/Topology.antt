-- ===== src/Topology.antt =====
-- source/processor_topology.cpp and source/platform/linux/processor_topology.cpp: the processors of
-- the system with their thread, core and package. The instruction cpuid, the bit operations of
-- crunch/base and the system's scheduler are parameters, the record `Platform`.
pub mod Ids
mod Tests
pub mod Shape
pub mod Enumeration
use crunch_concurrency.Base.{
  ℕ, zero, suc, ◌+◌, ◌*◌, ◌/◌, ◌%◌, ◌^◌, Bool, true, false, ◌&&◌, not, Option, none, some, List, [],
  ◌∷◌, ◌==◌, ltb, leb, if◌then◌else◌, arith, ◌≡◌, ◌≤◌, ◌<◌,
}
use crunch_concurrency.Affinity.Mask.{Mask, empty, set, is_set, highest_set_processor}
use crunch_concurrency.Affinity.CpuSet.{create_affinity, create_cpu_set}

-- What cpuid leaves in the four registers
pub record Registers : Type 0 where
  pub eax : ℕ
  pub ebx : ℕ
  pub ecx : ℕ
  pub edx : ℕ

-- `GetCpuidVendorId`, as the source compares it
pub data Vendor : Type 0 where
  genuine_intel : Vendor
  authentic_amd : Vendor
  other_vendor : Vendor

-- A set of processors of the operating system, the affinity of the calling thread
abbrev pub Cpus : Type 0
Cpus = ℕ → Bool

-- `query p f i` is cpuid run on processor `p` with function `f` and index `i`; `running cpus` is the
-- processor on which a thread of affinity `cpus` runs.
pub record Platform : Type 0 where
  pub query : ℕ → ℕ → ℕ → Registers
  pub max_function : ℕ → ℕ
  pub highest_extended_function : ℕ
  pub vendor : ℕ → Vendor
  pub running : Cpus → ℕ
  pub extract_bits : ℕ → ℕ → ℕ → ℕ
  pub log2_floor : ℕ → ℕ
  pub log2_ceil : ℕ → ℕ
  pub pow2_ceil : ℕ → ℕ
  pub processors_online : ℕ

-- `ProcessorTopology::Processor`
pub record Processor : Type 0 where
  pub system_id : ℕ
  pub thread_id : ℕ
  pub core_id : ℕ
  pub package_id : ℕ

-- The processor of an APIC id, whose lowest `smt_bits` are the thread, whose next up to
-- `core_and_smt_bits` are the core and whose rest is the package. The masks of ones below a bit are
-- remainders and the shifts are quotients.
unfoldable pub processor_of : ℕ → ℕ → ℕ → ℕ → Processor
processor_of smt_bits core_and_smt_bits apic i = record {
  system_id = i;
  thread_id = apic % 2 ^ smt_bits;
  core_id = (apic % 2 ^ core_and_smt_bits) / 2 ^ smt_bits;
  package_id = apic / 2 ^ core_and_smt_bits;
}

-- `SetCurrentThreadAffinity`: the affinity before, and the affinity after.
unfoldable pub set_current_thread_affinity : Mask → Cpus → Option (Mask × Cpus)
set_current_thread_affinity m cpus = elim (create_affinity cpus) [
  | none ↦ none
  | some old ↦ some (old, create_cpu_set m)
]

-- The body of the loops over the processors: the thread moves to processor `i`, reads it and moves
-- back.
unfoldable pub visit : Platform → (ℕ → ℕ → Processor) → ℕ → Cpus → Option (Processor × Cpus)
visit platform read i cpus = elim (set i empty) [
  | none ↦ none
  | some single ↦ elim (set_current_thread_affinity single cpus) [
    | none ↦ none
    | some (old, moved) ↦
        let processor = read (platform.running moved) i in
        elim (set_current_thread_affinity old moved) [
          | none ↦ none
          | some (single_again, back) ↦ some (processor, back)
        ]
  ]
]

-- The loop over the `n` processors from `i`, past those that are not of the process
unfoldable pub visit_all :
    Platform → (ℕ → ℕ → Processor) → Mask → ℕ → ℕ → Cpus → Option (List Processor × Cpus)
visit_all platform read process_affinity zero i cpus = some ([], cpus)
visit_all platform read process_affinity (suc n) i cpus = elim (is_set i process_affinity) [
  | none ↦ none
  | some false ↦ visit_all platform read process_affinity n (suc i) cpus
  | some true ↦ elim (visit platform read i cpus) [
    | none ↦ none
    | some (processor, back) ↦ elim (visit_all platform read process_affinity n (suc i) back) [
      | none ↦ none
      | some (rest, last) ↦ some (processor ∷ rest, last)
    ]
  ]
]

-- `EnumerateFromCpuidInitialApicId`
unfoldable pub read_initial_apic_id : Platform → ℕ → ℕ → ℕ → ℕ → Processor
read_initial_apic_id platform smt_bits core_bits here i =
    let initial_apic_id = platform.extract_bits (platform.query here 1 0).ebx 24 31 in
    processor_of smt_bits (core_bits + smt_bits) initial_apic_id i

unfoldable pub enumerate_from_initial_apic_id :
    Platform → ℕ → ℕ → Cpus → Option (List Processor × Cpus)
enumerate_from_initial_apic_id platform smt_bits core_bits cpus = elim (create_affinity cpus) [
  | none ↦ none
  | some process_affinity ↦
      visit_all platform (read_initial_apic_id platform smt_bits core_bits) process_affinity
        (highest_set_processor process_affinity + 1) 0 cpus
]

-- The first loop of `EnumerateFromCpuidx2ApicId`, which asks for levels until one is not used; `none`
-- stands for a loop that is still running when the fuel ends.
unfoldable pub pass_levels : Platform → ℕ → ℕ → ℕ → Option ℕ
pass_levels platform here zero i = none
pass_levels platform here (suc fuel) i =
    let rest = pass_levels platform here fuel (suc i) in
    if platform.extract_bits (platform.query here 11 i).ebx 0 15 == 0 then some i else rest

-- `EnumerateFromCpuidx2ApicId`
unfoldable pub read_x2_apic_id : Platform → ℕ → ℕ → Processor
read_x2_apic_id platform here i =
    let smt_bits = platform.extract_bits (platform.query here 11 0).eax 0 4 in
    let core_and_smt_bits = platform.extract_bits (platform.query here 11 1).eax 0 4 in
    processor_of smt_bits core_and_smt_bits (platform.query here 11 0).edx i

unfoldable pub enumerate_from_x2_apic_id : Platform → ℕ → Cpus → Option (List Processor × Cpus)
enumerate_from_x2_apic_id platform fuel cpus = elim (create_affinity cpus) [
  | none ↦ none
  | some process_affinity ↦ elim (pass_levels platform (platform.running cpus) fuel 0) [
    | none ↦ none
    | some levels ↦
        visit_all platform (read_x2_apic_id platform) process_affinity
          (highest_set_processor process_affinity + 1) 0 cpus
  ]
]

-- `EnumerateFromCpuidIntel`
unfoldable pub enumerate_intel : Platform → ℕ → Cpus → Option (List Processor × Cpus)
enumerate_intel platform fuel cpus =
    let here = platform.running cpus in
    if leb 11 (platform.max_function here) && not ((platform.query here 11 0).ebx == 0)
    then enumerate_from_x2_apic_id platform fuel cpus
    else if leb 4 (platform.max_function here)
    then (let logical = platform.extract_bits (platform.query here 1 0).ebx 16 23 in
        let physical = platform.extract_bits (platform.query here 4 0).eax 26 31 + 1 in
        enumerate_from_initial_apic_id platform
          (platform.log2_floor (platform.pow2_ceil logical / physical))
          (platform.log2_floor physical) cpus)
    else some ([], cpus)

-- `EnumerateFromCpuidAmd`
unfoldable pub enumerate_amd : Platform → Cpus → Option (List Processor × Cpus)
enumerate_amd platform cpus =
    let here = platform.running cpus in
    let logical = platform.extract_bits (platform.query here 1 0).ebx 16 23 in
    if not ((platform.query here platform.highest_extended_function 0).eax == 0)
    then (let core_bits = platform.extract_bits (platform.query here 2147483656 0).ecx 12 15 in
        let per_core = logical / 2 ^ core_bits in
        let smt_bits = if per_core == 0 then 0 else platform.log2_ceil per_core in
        enumerate_from_initial_apic_id platform smt_bits core_bits cpus)
    else enumerate_from_initial_apic_id platform 0 (platform.log2_ceil logical) cpus

-- `EnumerateFromCpuid`
unfoldable pub enumerate : Platform → ℕ → Cpus → Option (List Processor × Cpus)
enumerate platform fuel cpus =
    let here = platform.running cpus in
    if (platform.query here 1 0).edx / 2 ^ 28 % 2 == 0
    then some ([], cpus)
    else elim (platform.vendor here) [
      | genuine_intel ↦ enumerate_intel platform fuel cpus
      | authentic_amd ↦ enumerate_amd platform cpus
      | other_vendor ↦ some ([], cpus)
    ]

-- `GetSystemNumProcessors`, where a negative answer of sysconf is 0
unfoldable pub get_system_num_processors : Platform → ℕ
get_system_num_processors platform =
    if ltb 0 platform.processors_online then platform.processors_online % 2 ^ 32 else 1

-- The fallback of the constructor: one core for each processor, from `i` on
unfoldable pub fallback_from : ℕ → ℕ → List Processor
fallback_from zero i = []
fallback_from (suc n) i =
    record { system_id = i; thread_id = 0; core_id = i; package_id = 0 } ∷ fallback_from n (suc i)

-- `ProcessorTopology::ProcessorTopology`
unfoldable pub new_topology : Platform → ℕ → Cpus → Option (List Processor × Cpus)
new_topology platform fuel cpus = elim (enumerate platform fuel cpus) [
  | none ↦ none
  | some ([], back) ↦ some (fallback_from (get_system_num_processors platform) 0, back)
  | some (p ∷ ps, back) ↦ some (p ∷ ps, back)
]
