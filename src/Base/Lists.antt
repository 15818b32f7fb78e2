-- ===== src/Base/Lists.antt =====
-- Lists measured by native numbers, and lists of addresses.
use Prim.Native.Nat.{ℕ, zero, suc, ◌+◌, ◌≤◌}
use mathlib.Core.Path.{◌≡◌, refl}
use mathlib.Core.Bool.{Bool, true, false, ◌||◌}
use mathlib.Core.List.{List, [], ◌∷◌, ◌++◌}
use mathlib.Core.Logic.{inl, inr}
use native.Mathlib.Omega.{arith}
use crunch_concurrency.Base.Tests.{◌==◌, ==_iff, Bool-cases, if◌then◌else◌, bit}

module _ {ℓ} {A : Type ℓ} where
  abbrev pub length : List A → ℕ
  length [] = 0
  length (x ∷ xs) = suc (length xs)

  abbrev pub take : ℕ → List A → List A
  take zero xs = []
  take (suc n) [] = []
  take (suc n) (x ∷ xs) = x ∷ take n xs

  pub length-append : (xs ys : List A) → length (xs ++ ys) ≡ length xs + length ys
  length-append [] ys = omega arith
  length-append (x ∷ xs) ys = omega (arith, length-append xs ys)

-- Whether an address stands in a list.
abbrev pub has : ℕ → List ℕ → Bool
has a [] = false
has a (x ∷ xs) = (x == a) || has a xs

-- The list without the first occurrence of an address.
abbrev pub erase : ℕ → List ℕ → List ℕ
erase a [] = []
erase a (x ∷ xs) = if x == a then xs else x ∷ erase a xs

pub length-erase : (a : ℕ) (xs : List ℕ) → length (erase a xs) + bit (has a xs) ≡ length xs
length-erase a [] = refl
length-erase a (x ∷ xs) = ground (arith, length-erase a xs)

abbrev pub count : ℕ → List ℕ → ℕ
count a [] = 0
count a (x ∷ xs) = bit (x == a) + count a xs

pub count-erase :
    (a w : ℕ) (xs : List ℕ) → has w xs ≡ true → count a (erase w xs) + bit (w == a) ≡ count a xs
count-erase a w [] h = absurd (ground arith)
count-erase a w (x ∷ xs) h = ground (arith, ==_iff x w, ==_iff x a, ==_iff w a, count-erase a w xs)

pub count-has : (a : ℕ) (xs : List ℕ) → has a xs ≡ true → 1 ≤ count a xs
count-has a [] h = absurd (ground arith)
count-has a (x ∷ xs) h = ground (arith, count-has a xs)

-- Where a list is put before another, the second adds its occurrences.
pub count-append :
    (front back : List ℕ) (n : ℕ) → count n (front ++ back) ≡ count n front + count n back
count-append [] back n = omega arith
count-append (f ∷ front) back n = ground (arith, count-append front back n)

pub count-not_has : (a : ℕ) (xs : List ℕ) → has a xs ≡ false → count a xs ≡ 0
count-not_has a [] h = refl
count-not_has a (x ∷ xs) h = ground (arith, count-not_has a xs)

pub count-zero_has : (a : ℕ) (xs : List ℕ) → count a xs ≡ 0 → has a xs ≡ false
count-zero_has a xs z = elim (Bool-cases (has a xs)) [
  | inr absent ↦ absent
  | inl here ↦ absurd (omega (arith, count-has a xs here))
]
