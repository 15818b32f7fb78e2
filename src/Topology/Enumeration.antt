-- ===== src/Topology/Enumeration.antt =====
-- source/processor_topology.cpp: the loops that move the calling thread over the processors.
use crunch_concurrency.Base.{
  ℕ, zero, suc, ◌+◌, ◌<◌, ◌≤◌, ◌≡◌, refl, sym, ap, ◌∙◌, arith, true, false, some, List, [], ◌∷◌,
  map, ◌==◌, ltb, if◌then◌else◌, Bool-cases, inl, inr, ==_iff,
}
use native.Mathlib.Decide.{dec_lt}
use crunch_concurrency.Base.Machine.{update}
use crunch_concurrency.Affinity.Mask.{
  Mask, empty, set, is_set, is_empty, highest_set_processor, highest-is_set, highest_from-le,
  empty-is_set,
}
use crunch_concurrency.Affinity.CpuSet.{
  create_affinity, create_cpu_set, collect_lem, cpu_set_size, cpu_set-high, cpu_set-mask,
}
use crunch_concurrency.Topology.{
  Platform, Processor, Cpus, set_current_thread_affinity, visit, visit_all,
}

-- The processors of a set among the `n` from `i` on, in order
unfoldable pub members : Cpus → ℕ → ℕ → List ℕ
members cpus zero i = []
members cpus (suc n) i = if cpus i then i ∷ members cpus n (suc i) else members cpus n (suc i)

-- An affinity that the masks of the source can hold: no processor above 31, and at least one.
abbrev pub IsNarrow : Cpus → Type 0
IsNarrow cpus = ((p : ℕ) → 32 ≤ p → cpus p ≡ false) × ((q : ℕ) × (q < 32) × (cpus q ≡ true))

mask-is_empty : (m : Mask) (q : ℕ) → q < 32 → m q ≡ true → is_empty m ≡ false
mask-is_empty m q h on = elim (Bool-cases (is_empty m)) [
  | inl t ↦ let off = empty-is_set m q t h in cc
  | inr f ↦ f
]

-- The mask of a narrow affinity, which makes the affinity again.
pub affinity_lem :
    (cpus : Cpus)
    → IsNarrow cpus
    → (m : Mask) × (create_affinity cpus ≡ some m)
      × (create_cpu_set m ≡ cpus)
      × ((p : ℕ) → p < 32 → m p ≡ cpus p)
unfolding create_affinity
affinity_lem cpus (high, (q, h, on)) =
    let (m, e, f) = collect_lem cpu_set_size cpus high in
    let same : (p : ℕ) → p < 32 → m p ≡ cpus p = λ p l. ground (arith, f p) in
    let some_set : is_empty m ≡ false = mask-is_empty m q h (same q h ∙ on) in
    let again : (p : ℕ) → create_cpu_set m p ≡ cpus p = λ p. elim (dec_lt p 32) [
      | yes l ↦ cpu_set-mask m p some_set l ∙ same p l
      | no l ↦ cpu_set-high m p (omega arith) ∙ sym (high p (omega arith))
    ] in
    (m, e, λ i p. again p i, same)

-- The mask of one processor, and the affinity that it makes.
single_lem :
    (i : ℕ) → i < 32 → (m : Mask) × (set i empty ≡ some m) × (create_cpu_set m ≡ λ p. p == i)
unfolding set
single_lem i h =
    let m : Mask = update empty i true in
    let on : m i ≡ true = ground arith in
    let some_set : is_empty m ≡ false = mask-is_empty m i h on in
    let again : (p : ℕ) → create_cpu_set m p ≡ (p == i) = λ p. elim (dec_lt p 32) [
      | yes l ↦ cpu_set-mask m p some_set l ∙ ground arith
      | no l ↦ cpu_set-high m p (omega arith) ∙ ground arith
    ] in
    (m, ground arith, λ j p. again p j)

-- A thread whose affinity has a processor runs on one of it.
abbrev pub RunsInside : Platform → Type 0
RunsInside platform =
    (cpus : Cpus) (p : ℕ) → p < cpu_set_size → cpus p ≡ true → cpus (platform.running cpus) ≡ true

move_lem :
    (m : Mask) (cpus target : Cpus)
    → IsNarrow cpus
    → create_cpu_set m ≡ target
    → (old : Mask) × (create_cpu_set old ≡ cpus)
      × (set_current_thread_affinity m cpus ≡ some (old, target))
unfolding set_current_thread_affinity
move_lem m cpus target narrow e =
    let (old, found, back, same) = affinity_lem cpus narrow in
    (old, back, rw (found, set_current_thread_affinity) (ap (λ c. some (old, c)) e))

alone-on : (i : ℕ) → (i == i) ≡ true
alone-on i = ground arith

alone-high : (i : ℕ) → i < 32 → (p : ℕ) → 32 ≤ p → (p == i) ≡ false
alone-high i h p l = ground arith

running-alone :
    (platform : Platform) (i : ℕ)
    → RunsInside platform
    → i < 32
    → platform.running (λ p. p == i) ≡ i
running-alone platform i inside h =
    let (to, from) = ==_iff (platform.running (λ p. p == i)) i in
    to (inside (λ p. p == i) i (omega (arith, h)) (alone-on i))

-- The body of the loop reads processor `i` and leaves the thread's affinity as it was.
visit_lem :
    (platform : Platform) (read : ℕ → ℕ → Processor) (i : ℕ) (cpus : Cpus)
    → RunsInside platform
    → IsNarrow cpus
    → i < 32
    → visit platform read i cpus ≡ some (read i i, cpus)
unfolding visit
visit_lem platform read i cpus inside narrow h =
    let (single, made, alone) = single_lem i h in
    let (old, back, there) = move_lem single cpus (λ p. p == i) narrow alone in
    let narrow_i : IsNarrow (λ p. p == i) = (alone-high i h, (i, h, alone-on i)) in
    let (again, forth, home) = move_lem old (λ p. p == i) cpus narrow_i back in
    rw (made, visit) (rw there (rw home (rw (running-alone platform i inside h) refl)))

-- The loop visits the processors of the process in their order.
pub visit_all_lem :
    (platform : Platform) (read : ℕ → ℕ → Processor) (m : Mask) (n i : ℕ) (cpus : Cpus)
    → RunsInside platform
    → IsNarrow cpus
    → i + n ≤ 32
    → visit_all platform read m n i cpus ≡ some (map (λ p. read p p) (members m n i), cpus)
unfolding visit_all is_set members
visit_all_lem platform read m zero i cpus inside narrow h = refl
visit_all_lem platform read m (suc n) i cpus inside narrow h =
    let rest = visit_all_lem platform read m n (suc i) cpus inside narrow (omega arith) in
    let low : ltb i 32 ≡ true = ground arith in
    let here = visit_lem platform read i cpus inside narrow (omega arith) in
    elim (Bool-cases (m i)) [
      | inl on ↦ rw (low, visit_all, is_set) (rw (on, members) (rw here (rw rest refl)))
      | inr off ↦ rw (low, visit_all, is_set) (rw (off, members) rest)
    ]

members-none : (cpus : Cpus) (k i : ℕ) → ((p : ℕ) → i ≤ p → cpus p ≡ false) → members cpus k i ≡ []
unfolding members
members-none cpus zero i off = refl
members-none cpus (suc k) i off =
    rw (off i (omega arith)) (members-none cpus k (suc i) λ p h. off p (omega arith))

-- No processor is set beyond the first `n`: the list has none beyond them.
members-beyond :
    (cpus : Cpus) (n all i : ℕ)
    → n ≤ all
    → ((p : ℕ) → i + n ≤ p → cpus p ≡ false)
    → members cpus all i ≡ members cpus n i
unfolding members
members-beyond cpus zero all i h off = members-none cpus all i λ p l. off p (omega arith)
members-beyond cpus (suc n) zero i h off = absurd (omega arith)
members-beyond cpus (suc n) (suc all) i h off =
    let rest = members-beyond cpus n all (suc i) (omega arith) λ p a. off p (omega arith) in
    elim (Bool-cases (cpus i)) [
      | inl on ↦ rw on (ap (λ l. i ∷ l) rest)
      | inr none_here ↦ rw none_here rest
    ]

members-same :
    (a b : Cpus) (n i : ℕ) → ((p : ℕ) → p < i + n → a p ≡ b p) → members a n i ≡ members b n i
unfolding members
members-same a b zero i h = refl
members-same a b (suc n) i h =
    let rest = members-same a b n (suc i) λ p l. h p (omega arith) in
    let here = h i (omega arith) in
    elim (Bool-cases (b i)) [
      | inl on ↦ rw here (rw on (ap (λ l. i ∷ l) rest))
      | inr off ↦ rw here (rw off rest)
    ]

is_set-low : (p : ℕ) (m : Mask) → p < 32 → m p ≡ true → is_set p m ≡ some true
unfolding is_set
is_set-low p m h on = ground arith

pub highest-low : (m : Mask) → highest_set_processor m < 32
unfolding highest_set_processor
highest-low m = omega (arith, highest_from-le 31 m)

-- The processors up to the highest of a mask are all that the affinity has.
pub members-highest :
    (cpus : Cpus) (m : Mask)
    → IsNarrow cpus
    → ((p : ℕ) → p < 32 → m p ≡ cpus p)
    → members m (highest_set_processor m + 1) 0 ≡ members cpus 32 0
members-highest cpus m (high, (q, h, on)) same =
    let low = highest-low m in
    let (found, top) = highest-is_set m q (is_set-low q m h (same q h ∙ on)) in
    let off : (p : ℕ) → 0 + (highest_set_processor m + 1) ≤ p → cpus p ≡ false = λ p l.
      elim (dec_lt p 32) [
        | no n ↦ high p (omega (arith, n))
        | yes y ↦ elim (Bool-cases (cpus p)) [
          | inr none_here ↦ none_here
          | inl here ↦ absurd (omega (arith, l, top p (is_set-low p m y (same p y ∙ here))))
        ]
      ] in
    members-same m cpus (highest_set_processor m + 1) 0 (λ p l. same p (omega (arith, l, low)))
    ∙ sym (members-beyond cpus (highest_set_processor m + 1) 32 0 (omega (arith, low)) off)
