-- ===== src/SpinBarrier.antt =====
-- include/crunch/concurrency/spin_barrier.hpp: `SpinBarrier::Wait` as a machine of atomic steps. A
-- thread calls `Wait` once.
pub mod Phases
pub mod Winner
mod Tests
use crunch_concurrency.Base.{
  ℕ, zero, suc, sym, Bool-cases, ◌+◌, ◌-◌, ◌%◌, ◌^◌, ◌<◌, ◌≤◌, ◌≡◌, refl, arith, Bool, true, false,
  List, [], ◌∷◌, ◌==◌, if◌then◌else◌, ◌⊎◌, inl, inr,
}
use crunch_concurrency.Base.Totals.{total-all, total-bound}
use crunch_concurrency.Base.Machine.{
  System, update, update-holds, total, total-update, le-total, run, run-keeps,
}

-- `mWaitCount` and `mReadyCount`, `uint32_t`; `mTotalCount` is a parameter of the steps.
pub record Memory : Type 0 where
  pub wait_count : ℕ
  pub ready_count : ℕ

unfoldable pub init : (count : ℕ) → Memory
init count = record { wait_count = count; ready_count = 0 }

pub data Pc : Type 0 where
  idle : Pc
  arrive : Pc  -- before the decrement
  spin : Pc  -- before the load of `mWaitCount`
  ready : Pc  -- through the loop: before the increment
  reset_ready : Pc  -- the last: before the first store
  reset_wait : Pc
  done : (last : Bool) → Pc  -- `Wait` has returned

unfoldable pub step : (total_count : ℕ) → Bool → Pc → Memory → Memory × Pc
step total_count calls idle m = (m, if calls then arrive else idle)
step total_count _ arrive m = (record m { wait_count = (m.wait_count + 2 ^ 32 - 1) % 2 ^ 32 }, spin)
step total_count _ spin m = (m, if m.wait_count == 0 then ready else spin)
step total_count _ ready m = (
  record m { ready_count = (m.ready_count + 1) % 2 ^ 32 },
  if m.ready_count == (total_count + 2 ^ 32 - 1) % 2 ^ 32 then reset_ready else done false,
)
step total_count _ reset_ready m = (record m { ready_count = 0 }, reset_wait)
step total_count _ reset_wait m = (record m { wait_count = total_count }, done true)
step total_count _ (done last) m = (m, done last)

-- 1 for a thread that has not counted down.
abbrev pub outside : Pc → ℕ
outside idle = 1
outside arrive = 1
outside _ = 0

-- The thread is through the loop.
abbrev pub is_past : Pc → Bool
is_past idle = false
is_past arrive = false
is_past spin = false
is_past _ = true

abbrev pub fresh : (count : ℕ) → System Memory Pc
fresh count = record { mem = init count; pc = λ _. idle }

-- Either no thread is through and the count is that of the threads outside, or no thread is outside.
abbrev Inv : (n : ℕ) → System Memory Pc → Type 0
Inv n s =
    ((s.mem.wait_count ≡ total outside n s.pc) × ((i : ℕ) → is_past (s.pc i) ≡ false))
    ⊎ (total outside n s.pc ≡ 0)

outside-le : (p : Pc) → outside p ≤ 1
outside-le idle = omega arith
outside-le arrive = omega arith
outside-le spin = omega arith
outside-le ready = omega arith
outside-le reset_ready = omega arith
outside-le reset_wait = omega arith
outside-le (done last) = omega arith

-- The same for one thread, beside `rest` others that are outside.
abbrev Beside : ℕ → Memory × Pc → Type 0
Beside rest (m, p) =
    ((m.wait_count ≡ outside p + rest) × (is_past p ≡ false)) ⊎ (outside p + rest ≡ 0)

step-Beside :
    (n rest : ℕ) (calls : Bool) (p : Pc) (m : Memory)
    → outside p + rest < 2 ^ 32
    → m.wait_count ≡ outside p + rest
    → is_past p ≡ false
    → Beside rest (step n calls p m)
unfolding step
step-Beside n rest true idle m small e q = inl (e, refl)
step-Beside n rest false idle m small e q = inl (e, refl)
step-Beside n rest calls arrive m small e q = inl (ground arith, refl)
step-Beside n rest calls spin m small e q = elim (Bool-cases (m.wait_count == 0)) [
  | inl z ↦ inr (ground arith)
  | inr z ↦ inl (ground arith, ground arith)
]
step-Beside n rest calls ready m small e q = absurd (ground arith)
step-Beside n rest calls reset_ready m small e q = absurd (ground arith)
step-Beside n rest calls reset_wait m small e q = absurd (ground arith)
step-Beside n rest calls (done last) m small e q = absurd (ground arith)

inside-stays :
    (n : ℕ) (calls : Bool) (p : Pc) (m : Memory) → outside p ≡ 0 → outside (step n calls p m).1 ≡ 0
unfolding step
inside-stays n calls idle m z = absurd (omega arith)
inside-stays n calls arrive m z = refl
inside-stays n calls spin m z = ground arith
inside-stays n calls ready m z = ground arith
inside-stays n calls reset_ready m z = refl
inside-stays n calls reset_wait m z = refl
inside-stays n calls (done last) m z = refl

turn-Inv :
    (n : ℕ) (s : System Memory Pc) (i : ℕ) (calls : Bool)
    → n < 2 ^ 32
    → i < n
    → Inv n s
    → let r = step n calls (s.pc i) s.mem in Inv n (record { mem = r.0; pc = update s.pc i r.1 })
turn-Inv n s i calls small lt v =
    let rest = total outside n s.pc - outside (s.pc i) in
    let r = step n calls (s.pc i) s.mem in
    let up = total-update outside n s.pc i r.1 lt in
    let here = le-total outside n s.pc i lt in
    let bound = total-bound outside n s.pc outside-le in
    elim v [
      | inl (e, q) ↦
          elim (step-Beside n rest calls (s.pc i) s.mem (omega arith) (omega arith) (q i)) [
            | inl (e', q') ↦
                inl (omega arith, update-holds (λ p. is_past p ≡ false) s.pc i r.1 q q')
            | inr z ↦ inr (omega arith)
          ]
      | inr z ↦ inr (omega (arith, inside-stays n calls (s.pc i) s.mem (omega arith)))
    ]

-- No thread leaves the barrier early: for `n` threads, fewer than 2 ^ 32, that call `Wait` of a
-- barrier of `n` once each, after every schedule in which one of them is through the loop, each of
-- them has counted down.
pub none_early :
    (n : ℕ) (cs : List (ℕ × Bool)) (i j : ℕ)
    → n < 2 ^ 32
    → j < n
    → is_past ((run (step n) n (fresh n) cs).pc i) ≡ true
    → outside ((run (step n) n (fresh n) cs).pc j) ≡ 0
unfolding init
none_early n cs i j small lt e =
    elim (run-keeps (step n) n (Inv n) (λ s k c h v. turn-Inv n s k c small h v) (fresh n) cs
      (inl (sym (total-all outside n (λ _. idle) (λ j lt. refl)), λ k. refl))) [
        | inl (w, q) ↦ absurd (ground (arith, q i))
        | inr z ↦ omega (arith, z, le-total outside n (run (step n) n (fresh n) cs).pc j lt)
      ]
