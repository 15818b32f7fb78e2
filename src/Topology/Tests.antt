-- ===== src/Topology/Tests.antt =====
-- Runs of the topology, and the theorems at a machine with two processors of one core.
use crunch_concurrency.Base.{ℕ, ◌+◌, ◌*◌, ◌/◌, ◌%◌, ◌^◌, ◌<◌, ◌≡◌, ◌==◌, ltb, if◌then◌else◌}
use crunch_concurrency.Affinity.Mask.{highest_from}
use crunch_concurrency.Topology.{Platform, Registers, authentic_amd, Cpus, processor_of}
use crunch_concurrency.Topology.Ids.{processor_of-apic}

-- Processor `p` has the APIC id `p` in the highest byte of ebx, two logical processors per package in
-- the next, and the flag of hyper-threading.
abbrev sample_query : ℕ → ℕ → ℕ → Registers
sample_query p f i =
    if f == 1
    then record { eax = 0; ebx = p * 2 ^ 24 + 2 ^ 17; ecx = 0; edx = 2 ^ 28 }
    else record { eax = 0; ebx = 0; ecx = 0; edx = 0 }

abbrev sample : Platform
sample = record {
  query = sample_query;
  max_function = λ p. 1;
  highest_extended_function = 2 ^ 31;
  vendor = λ p. authentic_amd;
  running = highest_from 127;
  extract_bits = λ v low high. v / 2 ^ low % 2 ^ (high + 1);
  log2_floor = λ n. if ltb n 2 then 0 else 1;
  log2_ceil = λ n. if ltb n 2 then 0 else 1;
  pow2_ceil = λ n. n;
  processors_online = 2;
}

abbrev two : Cpus
two p = ltb p 2

processor_of-apic_example :
    let p = processor_of 1 (1 + 2) 13 5 in
    (p.package_id * 2 ^ (1 + 2) + (p.core_id * 2 ^ 1 + p.thread_id) ≡ 13)
    × (p.thread_id < 2 ^ 1)
    × (p.core_id < 2 ^ 2)
processor_of-apic_example = processor_of-apic 1 2 13 5
