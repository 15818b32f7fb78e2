-- ===== src/SpinBarrier/Phases.antt =====
-- include/crunch/concurrency/spin_barrier.hpp: one step of `Wait` against the number of
-- threads that have counted up, and the reset.
use crunch_concurrency.Base.{
  ℕ, ◌+◌, ◌-◌, ◌%◌, ◌^◌, ◌<◌, ◌≤◌, ◌≡◌, refl, arith, Bool, true, false, ◌==◌, ==_iff, ◌⊎◌, inl, inr,
  bit, Bool-cases,
}
use crunch_concurrency.SpinBarrier.{
  Memory, Pc, idle, arrive, spin, ready, reset_ready, reset_wait, done, step,
}

-- 1 for a thread that has counted up.
abbrev pub counted : Pc → ℕ
counted reset_ready = 1
counted reset_wait = 1
counted (done last) = 1
counted _ = 0

-- 1 for the thread that found itself the last, and for each of the two points where it resets.
abbrev pub won : Pc → ℕ
won reset_ready = 1
won reset_wait = 1
won (done last) = bit last
won _ = 0

abbrev pub first_store : Pc → ℕ
first_store reset_ready = 1
first_store _ = 0

abbrev pub second_store : Pc → ℕ
second_store reset_wait = 1
second_store _ = 0

-- What is left of the reset, where there are `a` and `b` threads before its stores
abbrev pub Resets : (n a b : ℕ) → Memory → Type 0
Resets n a b m =
    (a ≡ 1) ⊎ (((m.ready_count ≡ 0) × (b ≡ 1)) ⊎ ((m.ready_count ≡ 0) × (m.wait_count ≡ n)))

-- Where `c` threads have counted up and `w` have won: none has won yet, or one has and all have counted.
abbrev pub Phase : (n c w a b : ℕ) → Memory → Type 0
Phase n c w a b m = ((w ≡ 0) × (m.ready_count ≡ c) × (c < n)) ⊎ ((w ≡ 1) × (c ≡ n) × Resets n a b m)

-- A thread at `p` beside others with the sums `c`, `w`, `a` and `b`.
abbrev pub Beside : (n c w a b : ℕ) → Memory × Pc → Type 0
Beside n c w a b (m, p) =
    Phase n (counted p + c) (won p + w) (first_store p + a) (second_store p + b) m

module _ (n c w a b : ℕ) (small : n < 2 ^ 32) (room : c < n) (a_won : a ≤ w) (b_won : b ≤ w) where
  ready-Beside :
      (calls : Bool) (m : Memory)
      → Beside n c w a b (m, ready)
      → Beside n c w a b (step n calls ready m)
  unfolding step
  ready-Beside calls m (inl (z, e, lt)) =
      elim (Bool-cases (m.ready_count == (n + 2 ^ 32 - 1) % 2 ^ 32)) [
        | inl last ↦ rw last (
            inr (
              omega arith,
              ground (arith, ==_iff m.ready_count ((n + 2 ^ 32 - 1) % 2 ^ 32)),
              inl (omega arith),
            ))
        | inr more ↦ rw more (
            inl (
              omega arith,
              omega arith,
              ground (arith, ==_iff m.ready_count ((n + 2 ^ 32 - 1) % 2 ^ 32)),
            ))
      ]
  ready-Beside calls m (inr (o, all, r)) = absurd (omega (arith, all))

  reset_ready-Beside :
      (calls : Bool) (m : Memory)
      → Beside n c w a b (m, reset_ready)
      → Beside n c w a b (step n calls reset_ready m)
  unfolding step
  reset_ready-Beside calls m (inl (z, e, lt)) = absurd (omega (arith, z))
  reset_ready-Beside calls m (inr (o, all, inl q)) = inr (o, all, inr (inl (refl, omega arith)))
  reset_ready-Beside calls m (inr (o, all, inr (inl (e, q)))) = absurd (omega arith)
  reset_ready-Beside calls m (inr (o, all, inr (inr (e, q)))) = inr (o, all, inr (inr (refl, q)))

  reset_wait-Beside :
      (calls : Bool) (m : Memory)
      → Beside n c w a b (m, reset_wait)
      → Beside n c w a b (step n calls reset_wait m)
  unfolding step
  reset_wait-Beside calls m (inl (z, e, lt)) = absurd (omega (arith, z))
  reset_wait-Beside calls m (inr (o, all, inl q)) = absurd (omega arith)
  reset_wait-Beside calls m (inr (o, all, inr (inl (e, q)))) = inr (o, all, inr (inr (e, refl)))
  reset_wait-Beside calls m (inr (o, all, inr (inr (e, q)))) = inr (o, all, inr (inr (e, refl)))

  before-Beside :
      (m m' : Memory) (q p : Pc)
      → counted q + won q + first_store q + second_store q ≡ 0
      → counted p + won p + first_store p + second_store p ≡ 0
      → m'.ready_count ≡ m.ready_count
      → Beside n c w a b (m, q)
      → Beside n c w a b (m', p)
  before-Beside m m' q p y z same (inl (o, e, lt)) =
      inl (omega (arith, o, y, z), omega (arith, y, z, same, e), omega (arith, y, z, lt))
  before-Beside m m' q p y z same (inr (o, all, r)) = absurd (omega (arith, y, all))

  pub step-Beside :
      (calls : Bool) (p : Pc) (m : Memory)
      → Beside n c w a b (m, p)
      → Beside n c w a b (step n calls p m)
  unfolding step
  step-Beside true idle m h = before-Beside m m idle arrive refl refl refl h
  step-Beside false idle m h = h
  step-Beside calls arrive m h =
      before-Beside m (record m { wait_count = (m.wait_count + 2 ^ 32 - 1) % 2 ^ 32 }) arrive spin
        refl refl refl h
  step-Beside calls spin m h = elim (Bool-cases (m.wait_count == 0)) [
    | inl z ↦ rw z (before-Beside m m spin ready refl refl refl h)
    | inr z ↦ rw z h
  ]
  step-Beside calls ready m h = ready-Beside calls m h
  step-Beside calls reset_ready m h = reset_ready-Beside calls m h
  step-Beside calls reset_wait m h = reset_wait-Beside calls m h
  step-Beside calls (done last) m h = h
