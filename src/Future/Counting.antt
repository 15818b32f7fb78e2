-- ===== src/Future/Counting.antt =====
-- include/crunch/concurrency/promise.hpp and future.hpp: the count of a datum against its handles.
use crunch_concurrency.Base.{
  ℕ, ◌+◌, ◌-◌, ◌^◌, ◌<◌, ◌≤◌, ◌≡◌, refl, ◌∙◌, subst, arith, Bool, true, false, Option, none, some,
  if◌then◌else◌, ltb, bit, ◌==◌, Bool-cases, inl, inr,
}
use crunch_concurrency.Future.{
  FutureData, set_value, set_exception, add_ref, release, Released, fails, destroyed, keeps,
}
use crunch_concurrency.Future.Handles.{
  HandleCall, sets_value, sets_exception, gets_future, copies_future, drops_future, moves_promise,
  drops_promise, Shared, copy_pointer, drop_pointer, on_datum, with_datum, call, unset, allowed,
}

bit-room : (p : Bool) (n : ℕ) → n + 2 < 2 ^ 32 → bit p + n + 1 < 2 ^ 32
bit-room true n b = omega arith
bit-room false n b = omega arith

module _ {T E : Type 0} where
  -- The datum's count is the number of its handles, and the datum is destroyed when there is none.
  unfoldable pub CountOf : Released (FutureData T E) → ℕ → Type 0
  CountOf fails n = ⊥
  CountOf destroyed n = n ≡ 0
  CountOf (keeps d) n = (d.ref_count ≡ n) × (0 < n)

  abbrev pub IsCounted : Shared T E → Type 0
  IsCounted s = CountOf s.datum (bit s.promise + s.futures)

  copy-count :
      (r : Released (FutureData T E)) (n : ℕ)
      → CountOf r n
      → 0 < n
      → n + 1 < 2 ^ 32
      → (r' : Released (FutureData T E)) × (copy_pointer r ≡ some r') × CountOf r' (n + 1)
  unfolding copy_pointer CountOf add_ref
  copy-count fails n h p b = absurd h
  copy-count destroyed n h p b = absurd (omega arith)
  copy-count (keeps d) n (h, q) p b = (keeps (add_ref d), refl, (omega arith, omega arith))

  drop-count :
      (r : Released (FutureData T E)) (n : ℕ)
      → CountOf r n
      → 0 < n
      → (r' : Released (FutureData T E)) × (drop_pointer r ≡ some r') × CountOf r' (n - 1)
  unfolding drop_pointer CountOf release
  drop-count fails n h p = absurd h
  drop-count destroyed n h p = absurd (omega arith)
  drop-count (keeps d) n (h, q) p = elim (Bool-cases (d.ref_count == 1)) [
    | inl last ↦ (destroyed, ground arith, ground arith)
    | inr more ↦ (
      keeps (record d { ref_count = d.ref_count - 1 }),
      ground arith,
      (ground arith, ground arith),
    )
  ]

  -- A call that keeps the count
  set-count :
      (f : FutureData T E → Option (FutureData T E)) (r : Released (FutureData T E)) (n : ℕ)
      → CountOf r n
      → unset r ≡ true
      → ((d : FutureData T E)
          → d.ready ≡ false
          → (d' : FutureData T E) × (f d ≡ some d') × (d'.ref_count ≡ d.ref_count))
      → (r' : Released (FutureData T E)) × (on_datum f r ≡ some r') × CountOf r' n
  unfolding on_datum CountOf unset
  set-count f fails n h u k = absurd h
  set-count f destroyed n h u k = cc
  set-count f (keeps d) n (h, q) u k =
      let (d', e, same) = k d (ground arith) in (keeps d', rw (e, on_datum) refl, (same ∙ h, q))

  set_value-ready :
      (v : T) (d : FutureData T E)
      → d.ready ≡ false
      → (d' : FutureData T E) × (set_value v d ≡ some d') × (d'.ref_count ≡ d.ref_count)
  unfolding set_value
  set_value-ready v d u = (record d { result = some v; ready = true }, rw u refl, refl)

  set_exception-ready :
      (e : E) (d : FutureData T E)
      → d.ready ≡ false
      → (d' : FutureData T E) × (set_exception e d ≡ some d') × (d'.ref_count ≡ d.ref_count)
  unfolding set_exception
  set_exception-ready e d u = (record d { exception = some e; ready = true }, rw u refl, refl)

  -- What a call leaves, and how far the number of futures grows
  abbrev Leaves : ℕ → Option (Shared T E) → Type 0
  Leaves n r = (s : Shared T E) × (r ≡ some s) × IsCounted s × (s.futures ≤ n + 1)

  guarded-Leaves :
      (b : Bool) (next : Option (Released (FutureData T E))) (p : Bool) (n before m : ℕ)
      → b ≡ true
      → ((r : Released (FutureData T E)) × (next ≡ some r) × CountOf r m)
      → m ≡ bit p + n
      → n ≤ before + 1
      → Leaves before (if b then with_datum next p n else none)
  unfolding with_datum
  guarded-Leaves b next p n before m t (r, e, k) same grows = (
    record { datum = r; promise = p; futures = n },
    rw t (rw (e, with_datum) refl),
    subst (CountOf r) same k,
    grows,
  )

  -- A call that the caller may make succeeds, and the datum's count is again the number of its handles:
  -- the datum lives exactly while there is one. The count cannot wrap.
  pub call-IsCounted :
      (c : HandleCall T E) (s : Shared T E)
      → IsCounted s
      → s.futures + 2 < 2 ^ 32
      → allowed c s ≡ true
      → (s' : Shared T E) × (call c s ≡ some s') × IsCounted s' × (s'.futures ≤ s.futures + 1)
  unfolding call allowed
  call-IsCounted (sets_value v) s h b a =
      let holds : s.promise ≡ true = ground arith in
      guarded-Leaves s.promise (on_datum (set_value v) s.datum) true s.futures s.futures
        (bit s.promise + s.futures) holds
        (set-count (set_value v) s.datum _ h (ground arith) (set_value-ready v)) (rw holds refl)
        (omega arith)
  call-IsCounted (sets_exception x) s h b a =
      let holds : s.promise ≡ true = ground arith in
      guarded-Leaves s.promise (on_datum (set_exception x) s.datum) true s.futures s.futures
        (bit s.promise + s.futures) holds
        (set-count (set_exception x) s.datum _ h (ground arith) (set_exception-ready x))
        (rw holds refl) (omega arith)
  call-IsCounted gets_future s h b a =
      guarded-Leaves s.promise (copy_pointer s.datum) true (s.futures + 1) s.futures
        (bit s.promise + s.futures + 1) a
        (copy-count s.datum (bit s.promise + s.futures) h (ground arith) (ground arith))
        (rw a (omega arith)) (omega arith)
  call-IsCounted copies_future s h b a =
      guarded-Leaves (ltb 0 s.futures) (copy_pointer s.datum) s.promise (s.futures + 1) s.futures
        (bit s.promise + s.futures + 1) a
        (copy-count s.datum (bit s.promise + s.futures) h (ground arith)
          (bit-room s.promise s.futures b))
        (omega arith) (omega arith)
  call-IsCounted drops_future s h b a =
      guarded-Leaves (ltb 0 s.futures) (drop_pointer s.datum) s.promise (s.futures - 1) s.futures
        (bit s.promise + s.futures - 1) a
        (drop-count s.datum (bit s.promise + s.futures) h (ground arith)) (ground arith)
        (omega arith)
  call-IsCounted moves_promise s h b a = (s, rw a refl, h, omega arith)
  call-IsCounted drops_promise s h b a =
      guarded-Leaves s.promise (drop_pointer s.datum) false s.futures s.futures
        (bit s.promise + s.futures - 1) a
        (drop-count s.datum (bit s.promise + s.futures) h (ground arith)) (rw a (omega arith))
        (omega arith)
