-- ===== src/Affinity/Win32/Calls.antt =====
-- source/platform/win32/processor_affinity.cpp: the calls of the system.
use crunch_concurrency.Base.{
  ℕ, ◌<◌, ◌≤◌, ◌≡◌, refl, sym, ◌∙◌, ap, arith, true, false, Option, some, subst, Bool-cases, inl,
  inr,
}
use mathlib.Core.Option.{some-injective}
use crunch_concurrency.Affinity.Mask.{
  Mask, none_below, none_below-false, is_empty, highest_set_processor, highest-nonempty,
}
use crunch_concurrency.Affinity.Win32.{
  Word, mask_from_affinity, affinity_from_mask, set_thread_affinity, get_process_affinity,
}
use crunch_concurrency.Affinity.Win32.Loops.{affinity-mask, highest-le, mask_lem}

none_below-on : (n : ℕ) (m : Mask) (p : ℕ) → p < n → m p ≡ true → none_below n m ≡ false
none_below-on n m p l on = elim (Bool-cases (none_below n m)) [
  | inr some_set ↦ some_set
  | inl none_set ↦ absurd (ground (arith, on, none_below-false n m p l none_set))
]

module _ {T : Type 0} (width : ℕ) (set_thread_mask : Word → T → Word × T)
    (process_mask : T → Option Word) where
  -- Where the system takes the mask of `b` and says that the mask of the thread before was that of `a`,
  -- which is not empty, and says that the mask of the process is that of `a`: `SetThreadAffinity` of `b`
  -- and `GetProcessAffinity` return the processors of `a`.
  pub set_thread_affinity-before :
      (a b : Mask) (of_a of_b : Word) (t : T)
      → 32 ≤ width
      → is_empty a ≡ false
      → mask_from_affinity a ≡ some of_a
      → mask_from_affinity b ≡ some of_b
      → (set_thread_mask of_b t).0 ≡ of_a
      → process_mask t ≡ some of_a
      → (m : Mask) × (set_thread_affinity width set_thread_mask b t
          ≡ some (m, (set_thread_mask of_b t).1))
        × (get_process_affinity width process_mask t ≡ some m)
        × ((p : ℕ) → p < 32 → m p ≡ a p)
  unfolding set_thread_affinity get_process_affinity
  set_thread_affinity-before a b of_a of_b t wide some_set e e' says reads =
      let (word, m, e'', back, agrees) = affinity-mask width a wide in
      let same : word ≡ of_a = some-injective word of_a (sym e'' ∙ e) in
      let back' : affinity_from_mask width of_a ≡ some m =
        subst (λ w. affinity_from_mask width w ≡ some m) same back in
      let some_bit = of_a-nonempty a of_a wide some_set e in
      (m, rw (e', says, some_bit, back') refl, rw reads back', agrees)
    where
      of_a-nonempty :
          (c : Mask) (of_c : Word)
          → 32 ≤ width
          → is_empty c ≡ false
          → mask_from_affinity c ≡ some of_c
          → none_below width of_c ≡ false
      of_a-nonempty c of_c wide some_set e =
          let (word, e'', low, high) = mask_lem c in
          let same : word ≡ of_c = some-injective word of_c (sym e'' ∙ e) in
          let top = highest_set_processor c in
          let le : top < 32 = omega (arith, highest-le c) in
          none_below-on width of_c top (omega (arith, le, wide))
            (ap (λ w. w top) (sym same) ∙ low top le ∙ (highest-nonempty c some_set).0)
