-- ===== src/Allocator/Ownership.antt =====
-- source/waiter.cpp: who owns a waiter. `FreeGlobal` has no caller in the sources, and is not called
-- here.
use crunch_concurrency.Base.{
  ℕ, ◌+◌, ◌<◌, ◌≤◌, ◌≡◌, refl, subst, arith, Bool, true, false, List, [], ◌∷◌, has, erase, count,
  count-erase, count-has, bit, ◌==◌, ==_iff, Bool-cases, inl, inr,
}
use crunch_concurrency.Base.Machine.{update}
use crunch_concurrency.Allocator.{
  Memory, Thread, Pc, Choice, idle, load, loop, pop, free_load, free_loop, free_swap, allocates,
  frees, frees_global, links, mallocs, step_at, allocate_new, is_fresh, get_pointer,
}

-- The links lead from `p` through `xs` to the null pointer.
abbrev pub Chain : (ℕ → ℕ) → ℕ → List ℕ → Type 0
Chain next p [] = p ≡ 0
Chain next p (x ∷ xs) = (p ≡ x) × (0 < x) × Chain next (next x) xs

Chain-update :
    (next : ℕ → ℕ) (p a b : ℕ) (xs : List ℕ)
    → count a xs ≡ 0
    → Chain next p xs
    → Chain (update next a b) p xs
Chain-update next p a b [] h c = c
Chain-update next p a b (x ∷ xs) h c =
    ground (arith, ==_iff x a, ==_iff a x, Chain-update next (next x) a b xs)

-- Where a thread stands, while the list for all is empty.
abbrev pub IsLocal : Pc → Type 0
IsLocal idle = Unit
IsLocal load = Unit
IsLocal (loop head) = head ≡ 0
IsLocal _ = ⊥

-- `FreeGlobal` is not called.
abbrev pub IsPrivate : Choice → Type 0
IsPrivate (frees_global _) = ⊥
IsPrivate _ = Unit

-- What one thread's step keeps, beside the others, which own `rest` free copies of each address.
pub record Owned (m : Memory) (t : Thread) (free : List ℕ) (rest : ℕ → ℕ) : Type 0 where
  pub unused : m.free_list ≡ 0
  pub nonnull : has 0 m.allocations ≡ false
  pub local : IsLocal t.at
  pub chain : Chain m.next t.local_free free
  pub once : (a : ℕ) → count a m.in_use + count a free + rest a ≤ bit (has a m.allocations)

-- The links of what the others own stay.
abbrev pub Stays : Memory → (ℕ → ℕ) → Memory → Type 0
Stays m rest m' =
    (q : ℕ) (xs : List ℕ) → ((a : ℕ) → count a xs ≤ rest a) → Chain m.next q xs → Chain m'.next q xs

abbrev pub Next : Memory → (ℕ → ℕ) → Memory × Thread → Type 0
Next m rest (m', t') = (free : List ℕ) × Owned m' t' free rest × Stays m rest m'

bit-le : (b : Bool) → bit b ≤ 1
bit-le true = omega arith
bit-le false = omega arith

module _ (t : Thread) (m : Memory) (free : List ℕ) (rest : ℕ → ℕ) (o : Owned m t free rest) where
  -- An address that the program holds is in no list of free waiters.
  held-free : (w : ℕ) → has w m.in_use ≡ true → (count w free ≡ 0) × (rest w ≡ 0) × (0 < w)
  held-free w h =
      let here = count-has w m.in_use h in
      let a = o.once w in
      let b = bit-le (has w m.allocations) in
      (
        omega arith,
        omega arith,
        elim (Bool-cases (w == 0)) [
          | inl z ↦ absurd (ground (arith, o.nonnull, ==_iff w 0))
          | inr nz ↦ ground arith
        ],
      )

  link-Owned :
      (w p : ℕ) → has w m.in_use ≡ true → Next m rest (record m { next = update m.next w p }, t)
  link-Owned w p h =
      let (f, r, pos) = held-free w h in
      (
        free,
        record {
          unused = o.unused;
          nonnull = o.nonnull;
          local = o.local;
          chain = Chain-update m.next t.local_free w p free f o.chain;
          once = o.once;
        },
        λ q xs l ch. Chain-update m.next q w p xs (omega (arith, l w)) ch,
      )

  free-Owned :
      (w : ℕ)
      → has w m.in_use ≡ true
      → Next m rest (
        record m { in_use = erase w m.in_use; next = update m.next w t.local_free },
        record t { local_free = w },
      )
  free-Owned w h =
      let (f, r, pos) = held-free w h in
      (
        w ∷ free,
        record {
          unused = o.unused;
          nonnull = o.nonnull;
          local = o.local;
          chain = (
            refl,
            pos,
            ground (arith, Chain-update m.next t.local_free w t.local_free free f o.chain),
          );
          once = λ a. omega (arith, o.once a, count-erase a w m.in_use h);
        },
        λ q xs l ch. Chain-update m.next q w t.local_free xs (omega (arith, l w)) ch,
      )

  new-Owned :
      (p : ℕ)
      → is_fresh p m ≡ true
      → Next m rest (
        record m { allocations = p ∷ m.allocations; in_use = p ∷ m.in_use },
        record t { at = idle },
      )
  unfolding is_fresh
  new-Owned p h = (
    free,
    record {
      unused = o.unused;
      nonnull = ground (arith, o.nonnull);
      local = tt;
      chain = o.chain;
      once = λ a. elim (Bool-cases (p == a)) [
        | inl same ↦ ground (arith, o.once a, ==_iff p a)
        | inr other ↦ ground (arith, o.once a)
      ];
    },
    λ q xs l ch. ch,
  )

take-Owned :
    (t : Thread) (m : Memory) (free : List ℕ) (rest : ℕ → ℕ)
    → Owned m t free rest
    → (t.local_free == 0) ≡ false
    → Next m rest (
      record m { in_use = t.local_free ∷ m.in_use },
      record t { local_free = m.next t.local_free },
    )
take-Owned t m [] rest o e = absurd (ground (arith, o.chain))
take-Owned t m (x ∷ xs) rest o e = (
  xs,
  record {
    unused = o.unused;
    nonnull = o.nonnull;
    local = o.local;
    chain = rw o.chain.0 o.chain.2;
    once = λ a. rw o.chain.0 (omega (arith, o.once a));
  },
  λ q ys l ch. ch,
)

allocate_new-Owned :
    (c : Choice) (t : Thread) (m : Memory) (free : List ℕ) (rest : ℕ → ℕ)
    → Owned m t free rest
    → Next m rest (allocate_new c t m)
unfolding allocate_new
allocate_new-Owned (mallocs p) t m free rest o = elim (Bool-cases (is_fresh p m)) [
  | inl fresh ↦ rw fresh (new-Owned t m free rest o p fresh)
  | inr used ↦ rw used (free, o, λ q xs l ch. ch)
]
allocate_new-Owned allocates t m free rest o = (free, o, λ q xs l ch. ch)
allocate_new-Owned (frees _) t m free rest o = (free, o, λ q xs l ch. ch)
allocate_new-Owned (frees_global _) t m free rest o = (free, o, λ q xs l ch. ch)
allocate_new-Owned (links _ _) t m free rest o = (free, o, λ q xs l ch. ch)

zero_pointer : (head : ℕ) → head ≡ 0 → (get_pointer head == 0) ≡ true
unfolding get_pointer
zero_pointer head e = ground arith

pub step-Owned :
    (c : Choice) (p : Pc) (t : Thread) (m : Memory) (free : List ℕ) (rest : ℕ → ℕ)
    → IsPrivate c
    → t.at ≡ p
    → Owned m t free rest
    → Next m rest (step_at c p t m)
unfolding step_at
step-Owned allocates idle t m free rest ok e o = elim (Bool-cases (t.local_free == 0)) [
  | inl none_free ↦ rw none_free (
    free,
    record { unused = o.unused; nonnull = o.nonnull; local = tt; chain = o.chain; once = o.once },
    λ q xs l ch. ch,
  )
  | inr some_free ↦ rw some_free (take-Owned t m free rest o some_free)
]
step-Owned (frees w) idle t m free rest ok e o = elim (Bool-cases (has w m.in_use)) [
  | inl held ↦ rw held (free-Owned t m free rest o w held)
  | inr not_held ↦ rw not_held (free, o, λ q xs l ch. ch)
]
step-Owned (frees_global w) idle t m free rest ok e o = absurd ok
step-Owned (links w p) idle t m free rest ok e o = elim (Bool-cases (has w m.in_use)) [
  | inl held ↦ rw held (link-Owned t m free rest o w p held)
  | inr not_held ↦ rw not_held (free, o, λ q xs l ch. ch)
]
step-Owned (mallocs p) idle t m free rest ok e o = (free, o, λ q xs l ch. ch)
step-Owned c load t m free rest ok e o = (
  free,
  record {
    unused = o.unused;
    nonnull = o.nonnull;
    local = o.unused;
    chain = o.chain;
    once = o.once;
  },
  λ q xs l ch. ch,
)
step-Owned c (loop head) t m free rest ok e o =
    let empty = zero_pointer head (subst IsLocal e o.local) in
    rw empty (allocate_new-Owned c t m free rest o)
step-Owned c (pop head next) t m free rest ok e o = absurd (subst IsLocal e o.local)
step-Owned c (free_load node) t m free rest ok e o = absurd (subst IsLocal e o.local)
step-Owned c (free_loop head node) t m free rest ok e o = absurd (subst IsLocal e o.local)
step-Owned c (free_swap head node) t m free rest ok e o = absurd (subst IsLocal e o.local)
