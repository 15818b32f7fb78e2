-- ===== src/SpinBarrier/Winner.antt =====
-- include/crunch/concurrency/spin_barrier.hpp: the answers of `Wait`, and the counts at its end.
use crunch_concurrency.Base.{
  ℕ, ◌+◌, ◌^◌, ◌<◌, ◌≤◌, ◌≡◌, refl, sym, ◌∙◌, arith, Bool, true, false, List, inl, inr, bit,
}
use crunch_concurrency.Base.Machine.{
  System, update, total, total-update, total-eq-zero, run, run-keeps,
}
use crunch_concurrency.Base.Totals.{total-le, total-bound, total-same, total-all, total-none}
use crunch_concurrency.SpinBarrier.{
  Memory, Pc, init, idle, arrive, spin, ready, reset_ready, reset_wait, done, step, fresh,
}
use crunch_concurrency.SpinBarrier.Phases.{
  counted, won, first_store, second_store, Phase, Beside, step-Beside,
}

counted-le : (p : Pc) → counted p ≤ 1
counted-le p = ground arith

first_store-won : (p : Pc) → first_store p ≤ won p
first_store-won p = ground arith

second_store-won : (p : Pc) → second_store p ≤ won p
second_store-won p = ground arith

Phase-same :
    (n c c' w w' a a' b b' : ℕ) (m : Memory)
    → c ≡ c'
    → w ≡ w'
    → a ≡ a'
    → b ≡ b'
    → Phase n c w a b m
    → Phase n c' w' a' b' m
Phase-same n c c' w w' a a' b b' m e f g h v = rw (← e, ← f, ← g, ← h) v

abbrev Inv : (n : ℕ) → System Memory Pc → Type 0
Inv n s =
    Phase n (total counted n s.pc) (total won n s.pc) (total first_store n s.pc)
      (total second_store n s.pc) s.mem

module _ (n : ℕ) (s : System Memory Pc) (i : ℕ) (lt : i < n) where
  abbrev others : ℕ → Pc
  others = update s.pc i idle

  split : (w : Pc → ℕ) (p : Pc) → w idle ≡ 0 → total w n (update s.pc i p) ≡ w p + total w n others
  split w p z = omega (arith, total-update w n s.pc i idle lt, total-update w n s.pc i p lt)

  split_here : (w : Pc → ℕ) → w idle ≡ 0 → total w n s.pc ≡ w (s.pc i) + total w n others
  split_here w z = omega (arith, total-update w n s.pc i idle lt)

  turn-Inv :
      (calls : Bool)
      → n < 2 ^ 32
      → Inv n s
      → let r = step n calls (s.pc i) s.mem in Inv n (record { mem = r.0; pc = update s.pc i r.1 })
  turn-Inv calls small v =
      let r = step n calls (s.pc i) s.mem in
      let before : Beside n (total counted n others) (total won n others)
          (total first_store n others) (total second_store n others) (s.mem, s.pc i) =
        Phase-same n _ _ _ _ _ _ _ _ s.mem (split_here counted refl) (split_here won refl)
          (split_here first_store refl) (split_here second_store refl) v in
      Phase-same n _ _ _ _ _ _ _ _ r.0 (sym (split counted r.1 refl)) (sym (split won r.1 refl))
        (sym (split first_store r.1 refl)) (sym (split second_store r.1 refl))
        (step-Beside n (total counted n others) (total won n others) (total first_store n others)
          (total second_store n others) small
          (omega (
            arith,
            split counted (done false) refl,
            total-bound counted n (update s.pc i (done false)) counted-le,
          ))
          (total-le first_store won n others first_store-won)
          (total-le second_store won n others second_store-won) calls (s.pc i) s.mem before)

-- The thread has returned.
abbrev pub is_done : Pc → Bool
is_done (done last) = true
is_done _ = false

-- 1 for a thread whose `Wait` answered `true`.
abbrev pub answers_true : Pc → ℕ
answers_true (done last) = bit last
answers_true _ = 0

done-counted :
    (p : Pc)
    → is_done p ≡ true
    → (counted p ≡ 1) × (answers_true p ≡ won p) × (first_store p ≡ 0) × (second_store p ≡ 0)
done-counted (done last) h = (refl, refl, refl, refl)
done-counted idle h = absurd (ground arith)
done-counted arrive h = absurd (ground arith)
done-counted spin h = absurd (ground arith)
done-counted ready h = absurd (ground arith)
done-counted reset_ready h = absurd (ground arith)
done-counted reset_wait h = absurd (ground arith)

as_made : (n : ℕ) (m : Memory) → m.wait_count ≡ n → m.ready_count ≡ 0 → m ≡ init n
unfolding init
as_made n m e f i = record { wait_count = e i; ready_count = f i }

module _ (n : ℕ) (cs : List (ℕ × Bool)) (positive : 0 < n) (small : n < 2 ^ 32) where
  abbrev pub after : System Memory Pc
  after = run (step n) n (fresh n) cs

  after-Inv : Inv n after
  unfolding init
  after-Inv =
      run-keeps (step n) n (Inv n) (λ s i c lt v. turn-Inv n s i lt c small v) (fresh n) cs
        (inl (
          total-eq-zero won n idle refl,
          sym (total-eq-zero counted n idle refl),
          omega (arith, total-eq-zero counted n idle refl),
        ))

  -- For `n` threads, at least one and fewer than 2 ^ 32, that call `Wait` of a barrier of `n` once each,
  -- after every schedule in which all of them have returned, exactly one of them has answered `true`,
  -- and the barrier is as it was made.
  pub one_answers_true :
      ((j : ℕ) → j < n → is_done (after.pc j) ≡ true)
      → (total answers_true n after.pc ≡ 1) × (after.mem ≡ init n)
  one_answers_true h =
      let all : total counted n after.pc ≡ n =
        total-all counted n after.pc (λ j lt. (done-counted (after.pc j) (h j lt)).0) in
      let same =
        total-same answers_true won n after.pc (λ j lt. (done-counted (after.pc j) (h j lt)).1) in
      let none_first =
        total-none first_store n after.pc (λ j lt. (done-counted (after.pc j) (h j lt)).2) in
      let none_second =
        total-none second_store n after.pc (λ j lt. (done-counted (after.pc j) (h j lt)).3) in
      elim after-Inv [
        | inl (z, e, lt) ↦ absurd (omega (arith, all))
        | inr (o, e, inl q) ↦ absurd (omega (arith, none_first))
        | inr (o, e, inr (inl (q, q'))) ↦ absurd (omega (arith, none_second))
        | inr (o, e, inr (inr (q, q'))) ↦ (same ∙ o, as_made n after.mem q' q)
      ]
