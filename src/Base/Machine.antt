-- ===== src/Base/Machine.antt =====
-- Threads over a shared memory, interleaved in any order. A thread is a value of `P`, the point at
-- which it stands with the locals that are live there; `act` is one atomic step of one thread, with
-- an argument for what the environment chooses.
use Prim.Native.Nat.{ℕ, zero, suc, ◌+◌, ◌≤◌, ◌<◌}
use mathlib.Core.Path.{◌≡◌, refl, subst, ap, ◌∙◌}
use mathlib.Core.Logic.{◌≢◌, inl, inr}
use mathlib.Core.List.{List, [], ◌∷◌}
use native.Mathlib.Omega.{arith}
use native.Mathlib.Decide.{dec_lt}
use crunch_concurrency.Base.Tests.{ltb, ◌==◌, if◌then◌else◌, Bool-cases}

-- A function changed at one point.
abbrev pub update {ℓ} : {A : Type ℓ} → (ℕ → A) → ℕ → A → ℕ → A
update f i a j = if i == j then a else f j

pub record System (M P : Type 0) : Type 0 where
  pub mem : M
  pub pc : ℕ → P

-- Every choice of a schedule satisfies a predicate.
abbrev pub Each : {A : Type 0} → (A → Type 0) → List (ℕ × A) → Type 0
Each P [] = Unit
Each P ((i, a) ∷ cs) = P a × Each P cs

Each-unit : {A : Type 0} (cs : List (ℕ × A)) → Each (λ _. Unit {0}) cs
Each-unit [] = tt
Each-unit ((i, a) ∷ cs) = (tt, Each-unit cs)

-- Where a predicate holds of every thread and of the new one, it holds after the update.
pub update-holds :
    {P : Type 0} (Q : P → Type 0) (pc : ℕ → P) (i : ℕ) (p : P)
    → ((j : ℕ) → Q (pc j))
    → Q p
    → (j : ℕ) → Q (update pc i p j)
update-holds Q pc i p h l j = elim (Bool-cases (i == j)) [
  | inl same ↦ rw same l
  | inr other ↦ rw other (h j)
]

-- The sum of a weight over the first `n` threads.
module _ {P : Type 0} (w : P → ℕ) where
  unfoldable pub total : ℕ → (ℕ → P) → ℕ
  total zero pc = 0
  total (suc n) pc = w (pc n) + total n pc

  total-update_above :
      (n : ℕ) (pc : ℕ → P) (i : ℕ) (p : P) → n ≤ i → total n (update pc i p) ≡ total n pc
  unfolding total
  total-update_above zero pc i p h = refl
  total-update_above (suc n) pc i p h = ground (arith, total-update_above n pc i p)

  pub total-update :
      (n : ℕ) (pc : ℕ → P) (i : ℕ) (p : P)
      → i < n
      → total n (update pc i p) + w (pc i) ≡ total n pc + w p
  unfolding total
  total-update zero pc i p h = absurd (omega arith)
  total-update (suc n) pc i p h = elim (dec_lt i n) [
    | yes below ↦ ground (arith, total-update n pc i p below)
    | no last ↦ ground (arith, total-update_above n pc i p)
  ]

  pub le-total : (n : ℕ) (pc : ℕ → P) (i : ℕ) → i < n → w (pc i) ≤ total n pc
  unfolding total
  le-total zero pc i h = absurd (omega arith)
  le-total (suc n) pc i h = elim (dec_lt i n) [
    | yes below ↦ omega (arith, le-total n pc i below)
    | no last ↦ ground arith
  ]

  pub total-eq-zero : (n : ℕ) (p : P) → w p ≡ 0 → total n (λ _. p) ≡ 0
  unfolding total
  total-eq-zero zero p h = refl
  total-eq-zero (suc n) p h = omega (arith, h, total-eq-zero n p h)

  -- Two threads of weight one make a total of two.
  pub two-le-total :
      (n : ℕ) (pc : ℕ → P) (i j : ℕ) (idle : P)
      → w idle ≡ 0
      → i < n
      → j < n
      → w (pc i) ≡ 1
      → w (pc j) ≡ 1
      → i ≢ j
      → 2 ≤ total n pc
  two-le-total n pc i j idle z hi hj ei ej ne =
      ground (arith, total-update n pc i idle hi, le-total n (update pc i idle) j hj)

module _ {M P A : Type 0} (act : A → P → M → M × P) where
  -- One turn of thread `i`, of `n`.
  unfoldable pub turn : ℕ → System M P → ℕ × A → System M P
  turn n s (i, a) =
      let (m, p) = act a (s.pc i) s.mem in
      if ltb i n then record { mem = m; pc = update s.pc i p } else s

  unfoldable pub run : ℕ → System M P → List (ℕ × A) → System M P
  run n s [] = s
  run n s (c ∷ cs) = run n (turn n s c) cs

  -- What every turn by an allowed choice keeps, every schedule of such turns keeps.
  pub run-keeps_allowed {κ} :
      (Allowed : A → Type 0) (n : ℕ) (Inv : System M P → Type κ)
      → ((s : System M P) (i : ℕ) (a : A)
          → i < n
          → Allowed a
          → Inv s
          → let r = act a (s.pc i) s.mem in Inv (record { mem = r.0; pc = update s.pc i r.1 }))
      → (s : System M P) (cs : List (ℕ × A)) → Each Allowed cs
      → Inv s
      → Inv (run n s cs)
  unfolding run turn
  run-keeps_allowed Allowed n Inv keep s [] h v = v
  run-keeps_allowed Allowed n Inv keep s ((i, a) ∷ cs) h v = elim (dec_lt i n) [
    | yes lt ↦
        run-keeps_allowed Allowed n Inv keep (turn n s (i, a)) cs h.1
          (subst Inv (ground arith) (keep s i a lt h.0 v))
    | no ge ↦
        run-keeps_allowed Allowed n Inv keep (turn n s (i, a)) cs h.1 (subst Inv (ground arith) v)
  ]

  -- What every turn keeps, every schedule keeps.
  pub run-keeps {κ} :
      (n : ℕ) (Inv : System M P → Type κ)
      → ((s : System M P) (i : ℕ) (a : A)
          → i < n
          → Inv s
          → let r = act a (s.pc i) s.mem in Inv (record { mem = r.0; pc = update s.pc i r.1 }))
      → (s : System M P) (cs : List (ℕ × A)) → Inv s
      → Inv (run n s cs)
  run-keeps n Inv keep s cs v =
      run-keeps_allowed (λ _. Unit {0}) n Inv (λ t i a lt _ w. keep t i a lt w) s cs (Each-unit cs)
        v

module _ {M P A : Type 0} (act : A → P → M → M × P) (Ok : M → P → Type 0) where
  -- Every turn of a schedule finds its thread and the memory in a condition.
  abbrev pub Along : ℕ → System M P → List (ℕ × A) → Type 0
  Along n s [] = Unit
  Along n s ((i, a) ∷ cs) = Ok s.mem (s.pc i) × Along n (turn act n s (i, a)) cs

  -- What every turn under the condition keeps, every schedule of such turns keeps.
  pub run-keeps_along {κ} :
      (n : ℕ) (Inv : System M P → Type κ)
      → ((s : System M P) (i : ℕ) (a : A)
          → i < n
          → Ok s.mem (s.pc i)
          → Inv s
          → let r = act a (s.pc i) s.mem in Inv (record { mem = r.0; pc = update s.pc i r.1 }))
      → (s : System M P) (cs : List (ℕ × A)) → Along n s cs
      → Inv s
      → Inv (run act n s cs)
  unfolding run turn
  run-keeps_along n Inv keep s [] h v = v
  run-keeps_along n Inv keep s ((i, a) ∷ cs) h v = elim (dec_lt i n) [
    | yes lt ↦
        run-keeps_along n Inv keep (turn act n s (i, a)) cs h.1
          (subst Inv (ground arith) (keep s i a lt h.0 v))
    | no ge ↦ run-keeps_along n Inv keep (turn act n s (i, a)) cs h.1 (subst Inv (ground arith) v)
  ]

-- A thread that runs alone.
module _ {M P : Type 0} (step : P → M → M × P) where
  unfoldable pub solo : ℕ → M × P → M × P
  solo zero (m, p) = (m, p)
  solo (suc n) (m, p) = solo n (step p m)

  pub solo-add : (a b : ℕ) (s : M × P) → solo (a + b) s ≡ solo b (solo a s)
  unfolding solo
  solo-add zero b (m, p) = let e : 0 + b ≡ b = omega arith in ap (λ k. solo k (m, p)) e
  solo-add (suc a) b (m, p) =
      let e : suc a + b ≡ suc (a + b) = omega arith in
      ap (λ k. solo k (m, p)) e ∙ solo-add a b (step p m)

  -- From `s` the thread alone comes to `t`.
  abbrev pub Reaches : M × P → M × P → Type 0
  Reaches s t = (k : ℕ) × (solo k s ≡ t)

  pub Reaches-trans : (s t u : M × P) → Reaches s t → Reaches t u → Reaches s u
  Reaches-trans s t u (a, p) (b, q) = (a + b, solo-add a b s ∙ ap (solo b) p ∙ q)
