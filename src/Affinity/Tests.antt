-- ===== src/Affinity/Tests.antt =====
-- The mask of processors 3 and 5.
use crunch_concurrency.Base.{ℕ, ◌<◌, ◌≡◌, refl, true, ◌||◌, some, false, arith, ◌==◌, if◌then◌else◌}
use crunch_concurrency.Base.Machine.{update}
use crunch_concurrency.Affinity.Mask.{Mask, is_set, is_empty, highest_set_processor, none_below}
use crunch_concurrency.Affinity.Win32.{
  Word, mask_from_affinity, mask_loop, set_thread_affinity, get_process_affinity,
}
use crunch_concurrency.Affinity.Win32.Calls.{set_thread_affinity-before}
use crunch_concurrency.Affinity.CpuSet.{
  create_cpu_set, create_affinity, create_affinity-create_cpu_set,
}

abbrev three_five : Mask
three_five p = (p == 3) || (p == 5)

three_set : is_set 3 three_five ≡ some true
unfolding is_set
three_set = refl

create_affinity-create_cpu_set_example :
    (m' : Mask) × (create_affinity (create_cpu_set three_five) ≡ some m')
    × ((p : ℕ) → p < 32 → m' p ≡ (if is_empty three_five then p == 0 else three_five p))
create_affinity-create_cpu_set_example = create_affinity-create_cpu_set three_five

-- A system that takes every mask; the thread has that of processors 3 and 5.
abbrev bits_three_five : Word
bits_three_five = update (update (λ p. false) 3 true) 5 true

abbrev takes_all : Word → Word → Word × Word
takes_all mask before = (before, mask)

three_five-mask : mask_from_affinity three_five ≡ some bits_three_five
unfolding mask_from_affinity mask_loop highest_set_processor is_set
three_five-mask = refl

not_empty : is_empty three_five ≡ false
unfolding is_empty none_below
not_empty = refl

set_thread_affinity-before_example :
    (m : Mask) × (set_thread_affinity 64 takes_all three_five bits_three_five
      ≡ some (m, bits_three_five))
    × (get_process_affinity 64 some bits_three_five ≡ some m)
    × ((p : ℕ) → p < 32 → m p ≡ three_five p)
set_thread_affinity-before_example =
    set_thread_affinity-before 64 takes_all some three_five three_five bits_three_five
      bits_three_five bits_three_five (omega arith) not_empty three_five-mask three_five-mask refl
      refl
