-- ===== src/Affinity/Mask.antt =====
-- source/processor_affinity.cpp: `ProcessorAffinity`, a `std::bitset<32>`. The member functions of the
-- bitset throw on a position out of range, which is `none` here.
use crunch_concurrency.Base.{
  ℕ, zero, suc, ◌+◌, ◌<◌, ◌≤◌, ◌≡◌, arith, Bool, true, false, ◌&&◌, not, Option, none, some, List,
  [], ◌∷◌, ◌==◌, ltb, if◌then◌else◌, Bool-cases, inl, inr,
}
use native.Mathlib.Decide.{ℕ_discrete}
use crunch_concurrency.Base.Machine.{update}

-- MaxProcessorId
abbrev pub max_processor_id : ℕ
max_processor_id = 31

abbrev pub Mask : Type 0
Mask = ℕ → Bool

-- `ProcessorAffinity::ProcessorAffinity()`
abbrev pub empty : Mask
empty p = false

-- `Set` and `Clear` of a processor
unfoldable pub set : ℕ → Mask → Option Mask
set p m = if ltb p (max_processor_id + 1) then some (update m p true) else none

unfoldable pub clear : ℕ → Mask → Option Mask
clear p m = if ltb p (max_processor_id + 1) then some (update m p false) else none

-- `Set` and `Clear` of a list of processors, by their system ids
unfoldable pub set_all : List ℕ → Mask → Option Mask
unfolding set
set_all [] m = some m
set_all (p ∷ ps) m = elim (set p m) [ none ↦ none | some m' ↦ set_all ps m' ]

unfoldable pub clear_all : List ℕ → Mask → Option Mask
unfolding clear
clear_all [] m = some m
clear_all (p ∷ ps) m = elim (clear p m) [ none ↦ none | some m' ↦ clear_all ps m' ]

-- `IsSet`
unfoldable pub is_set : ℕ → Mask → Option Bool
is_set p m = if ltb p (max_processor_id + 1) then some (m p) else none

-- `!mProcessorMask.any()`, over the first `n` positions
unfoldable pub none_below : ℕ → Mask → Bool
none_below zero m = true
none_below (suc n) m = not (m n) && none_below n m

-- `IsEmpty`
unfoldable pub is_empty : Mask → Bool
unfolding none_below
is_empty m = none_below (max_processor_id + 1) m

-- The loop of `GetHighestSetProcessor`, from `i` down to 1
unfoldable pub highest_from : ℕ → Mask → ℕ
highest_from zero m = 0
highest_from (suc i) m = if m (suc i) then suc i else highest_from i m

-- `GetHighestSetProcessor`
unfoldable pub highest_set_processor : Mask → ℕ
unfolding highest_from
highest_set_processor m = highest_from max_processor_id m

pub highest_from-le : (n : ℕ) (m : Mask) → highest_from n m ≤ n
unfolding highest_from
highest_from-le zero m = omega arith
highest_from-le (suc n) m = ground (arith, highest_from-le n m)

pub highest_from-top : (n : ℕ) (m : Mask) (p : ℕ) → p ≤ n → m p ≡ true → p ≤ highest_from n m
unfolding highest_from
highest_from-top zero m p h e = h
highest_from-top (suc n) m p h e = ground (arith, highest_from-top n m p)

pub highest_from-set : (n : ℕ) (m : Mask) (p : ℕ) → p ≤ n → m p ≡ true → m (highest_from n m) ≡ true
unfolding highest_from
highest_from-set zero m zero h e = e
highest_from-set zero m (suc p) h e = absurd (omega arith)
highest_from-set (suc n) m p h e = ground (arith, highest_from-set n m p)

-- Where some processor `p` is set, `GetHighestSetProcessor` returns one that is set, and no processor
-- above it is.
pub highest-is_set :
    (m : Mask) (p : ℕ)
    → is_set p m ≡ some true
    → (is_set (highest_set_processor m) m ≡ some true)
      × ((q : ℕ) → is_set q m ≡ some true → q ≤ highest_set_processor m)
unfolding is_set highest_set_processor
highest-is_set m p e = (
  ground (arith, highest_from-le max_processor_id m, highest_from-set max_processor_id m p),
  λ q h. ground (arith, highest_from-top max_processor_id m q),
)

pub none_below-false : (n : ℕ) (m : Mask) (p : ℕ) → p < n → none_below n m ≡ true → m p ≡ false
unfolding none_below
none_below-false zero m p h e = absurd (omega arith)
none_below-false (suc n) m p h e = elim (ℕ_discrete p n) [
  | yes q ↦ ground arith
  | no q ↦ ground (arith, none_below-false n m p)
]

-- A mask that is not empty has a processor.
pub nonempty : (n : ℕ) (m : Mask) → none_below n m ≡ false → (p : ℕ) × (p < n) × (m p ≡ true)
unfolding none_below
nonempty zero m e = cc
nonempty (suc n) m e = elim (Bool-cases (m n)) [
  | inl t ↦ (n, omega arith, t)
  | inr f ↦ let (p, h, t) = nonempty n m (ground arith) in (p, omega (arith, h), t)
]

-- `Set` and then `IsSet`: processor `p` is set, and every other as before; `Clear` likewise. Both throw
-- exactly where `p` is above 31, as `IsSet` does.
pub is_set-set :
    (p q : ℕ) (m : Mask)
    → p < 32
    → q < 32
    → (m' : Mask) × (c' : Mask) × (set p m ≡ some m')
      × (clear p m ≡ some c')
      × (is_set q m' ≡ (if p == q then some true else is_set q m))
      × (is_set q c' ≡ (if p == q then some false else is_set q m))
unfolding set clear is_set
is_set-set p q m hp hq =
    (update m p true, update m p false, ground arith, ground arith, ground arith, ground arith)

highest_from-pos : (n : ℕ) (m : Mask) → 0 < highest_from n m → m (highest_from n m) ≡ true
unfolding highest_from
highest_from-pos zero m h = absurd (omega arith)
highest_from-pos (suc n) m h = ground (arith, highest_from-pos n m)

-- The highest processor of an empty mask is 0; of another it is the greatest that is set.
pub highest-empty : (m : Mask) → is_empty m ≡ true → highest_set_processor m ≡ 0
unfolding highest_set_processor is_empty
highest-empty m e = elim (ℕ_discrete (highest_from max_processor_id m) 0) [
  | yes q ↦ q
  | no q ↦
      let top : highest_from max_processor_id m ≤ 31 = highest_from-le max_processor_id m in
      let off : m (highest_from max_processor_id m) ≡ false =
        none_below-false 32 m (highest_from max_processor_id m) (omega (arith, top)) e in
      let on : m (highest_from max_processor_id m) ≡ true =
        highest_from-pos max_processor_id m (omega (arith, q)) in
      cc
]

pub empty-is_set : (m : Mask) (p : ℕ) → is_empty m ≡ true → p < 32 → m p ≡ false
unfolding is_empty
empty-is_set m p e h = none_below-false 32 m p h e

pub highest-nonempty :
    (m : Mask)
    → is_empty m ≡ false
    → (m (highest_set_processor m) ≡ true)
      × ((q : ℕ) → q < 32 → m q ≡ true → q ≤ highest_set_processor m)
unfolding highest_set_processor is_empty
highest-nonempty m e =
    let (p, h, t) = nonempty 32 m e in
    (
      highest_from-set max_processor_id m p (omega (arith, h)) t,
      λ q hq tq. highest_from-top max_processor_id m q (omega (arith, hq)) tq,
    )
