-- ===== src/Affinity/Win32/Loops.antt =====
-- source/platform/win32/processor_affinity.cpp: the loops of `MaskFromAffinity` and `AffinityFromMask`.
use crunch_concurrency.Base.{
  ℕ, zero, suc, ◌+◌, ◌<◌, ◌≤◌, ◌≡◌, refl, ◌∙◌, ap, arith, true, false, none, some, if◌then◌else◌,
  ltb, ◌&&◌, subst, Bool-cases, inl, inr,
}
use native.Mathlib.Decide.{ℕ_discrete}
use crunch_concurrency.Base.Machine.{update}
use crunch_concurrency.Affinity.Mask.{
  Mask, empty, set, is_set, max_processor_id, is_empty, highest_set_processor, highest_from-le,
  highest-nonempty, empty-is_set,
}
use crunch_concurrency.Affinity.Win32.{
  Word, mask_loop, mask_from_affinity, affinity_loop, affinity_from_mask,
}

-- The first has those of the second that are below `p`.
abbrev Upto : ℕ → (below of : Word) → Type 0
Upto p below of = (q : ℕ) → below q ≡ (ltb q p && of q)

Upto-next :
    (p : ℕ) (below of : Word)
    → Upto p below of
    → Upto (p + 1) (if of p then update below p true else below) of
Upto-next p below of u q = elim (Bool-cases (of p)) [
  | inl on ↦ elim (ℕ_discrete p q) [ yes e ↦ ground (arith, u q) | no ne ↦ ground (arith, u q) ]
  | inr off ↦ elim (ℕ_discrete p q) [ yes e ↦ ground (arith, u q) | no ne ↦ ground (arith, u q) ]
]

mask_loop_lem :
    (k p : ℕ) (m : Mask) (mask : Word)
    → p + k ≤ 32
    → Upto p mask m
    → (word : Word) × (mask_loop k p m mask ≡ some word) × Upto (p + k) word m
unfolding mask_loop is_set
mask_loop_lem zero p m mask h u = (mask, refl, λ q. ground (arith, u q))
mask_loop_lem (suc k) p m mask h u =
    let (word, e, v) =
      mask_loop_lem k (p + 1) m (if m p then update mask p true else mask) (omega (arith, h))
        (Upto-next p mask m u) in
    let small : ltb p (max_processor_id + 1) ≡ true = ground (arith, h) in
    let same : p + 1 + k ≡ p + suc k = omega arith in
    (word, rw small e, subst (λ n. Upto n word m) same v)

affinity_loop_lem :
    (k p : ℕ) (word affinity : Word)
    → ((q : ℕ) → 32 ≤ q → word q ≡ false)
    → Upto p affinity word
    → (m : Mask) × (affinity_loop k p word affinity ≡ some m) × Upto (p + k) m word
unfolding affinity_loop set
affinity_loop_lem zero p word affinity h u = (affinity, refl, λ q. ground (arith, u q))
affinity_loop_lem (suc k) p word affinity h u =
    let (m, e, v) =
      affinity_loop_lem k (p + 1) word (if word p then update affinity p true else affinity) h
        (Upto-next p affinity word u) in
    let same : p + 1 + k ≡ p + suc k = omega arith in
    (
      m,
      elim (Bool-cases (word p)) [
        | inl on ↦
            let small : ltb p (max_processor_id + 1) ≡ true = ground (arith, h p, on) in
            rw (on, small) (rw on at e)
        | inr off ↦ rw off (rw off at e)
      ],
      subst (λ n. Upto n m word) same v,
    )

pub highest-le : (m : Mask) → highest_set_processor m ≤ 31
unfolding highest_set_processor
highest-le m = highest_from-le 31 m

highest-top : (m : Mask) (q : ℕ) → q < 32 → m q ≡ true → q ≤ highest_set_processor m
highest-top m q l on = elim (Bool-cases (is_empty m)) [
  | inl none_set ↦ absurd (ground (arith, on, empty-is_set m q none_set l))
  | inr some_set ↦ (highest-nonempty m some_set).1 q l on
]

-- `MaskFromAffinity` never throws; it has the processors of the affinity, and no bit above them.
pub mask_lem :
    (m : Mask)
    → (word : Word) × (mask_from_affinity m ≡ some word)
      × ((q : ℕ) → q < 32 → word q ≡ m q)
      × ((q : ℕ) → 32 ≤ q → word q ≡ false)
unfolding mask_from_affinity
mask_lem m =
    let top = highest-le m in
    let (word, e, u) =
      mask_loop_lem (highest_set_processor m + 1) 0 m (λ p. false) (omega (arith, top))
        (λ q. ground arith) in
    (word, e, λ q l. ground (arith, u q, highest-top m q l), λ q l. ground (arith, u q, top))

-- `AffinityFromMask` of a mask of at least 32 bits gives back the affinity that `MaskFromAffinity` made
-- it from; neither throws.
pub affinity-mask :
    (width : ℕ) (m : Mask)
    → 32 ≤ width
    → (word : Word) × (m' : Mask) × (mask_from_affinity m ≡ some word)
      × (affinity_from_mask width word ≡ some m')
      × ((p : ℕ) → p < 32 → m' p ≡ m p)
unfolding affinity_from_mask
affinity-mask width m wide =
    let (word, e, low, high) = mask_lem m in
    let (m', e', u) = affinity_loop_lem width 0 word empty high (λ q. ground arith) in
    (word, m', e, e', λ p l. u p ∙ ground (arith, low p, wide))

affinity_loop-throws :
    (k q p : ℕ) (word affinity : Word)
    → 32 ≤ p
    → q ≤ p
    → p < q + k
    → word p ≡ true
    → affinity_loop k q word affinity ≡ none
unfolding affinity_loop set
affinity_loop-throws zero q p word affinity h l g on = absurd (omega (arith, l, g))
affinity_loop-throws (suc k) q p word affinity h l g on = elim (ℕ_discrete q p) [
  | yes e ↦
      let here : word q ≡ true = ap word e ∙ on in
      let large : ltb q (max_processor_id + 1) ≡ false = ground (arith, h, e) in
      rw (here, large) refl
  | no ne ↦ elim (Bool-cases (word q)) [
    | inr off ↦ rw off (
        affinity_loop-throws k (q + 1) p word affinity h (omega (arith, ne, l)) (omega (arith, g))
          on)
    | inl here ↦ elim (Bool-cases (ltb q (max_processor_id + 1))) [
      | inr large ↦ rw (here, large) refl
      | inl small ↦
          rw (here, small)
            (affinity_loop-throws k (q + 1) p word (update affinity q true) h (omega (arith, ne, l))
              (omega (arith, g)) on)
    ]
  ]
]

-- Where the mask has a processor above 31, `AffinityFromMask` throws.
pub affinity_from_mask-throws :
    (width : ℕ) (word : Word) (p : ℕ)
    → 32 ≤ p
    → p < width
    → word p ≡ true
    → affinity_from_mask width word ≡ none
unfolding affinity_from_mask
affinity_from_mask-throws width word p h l on =
    affinity_loop-throws width 0 p word empty h (omega arith) (omega (arith, l)) on
