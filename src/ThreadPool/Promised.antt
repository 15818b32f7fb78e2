-- ===== src/ThreadPool/Promised.antt =====
-- include/crunch/concurrency/thread_pool.hpp: what each part of a step makes of the
-- data of the functions posted.
use crunch_concurrency.Base.{
  ℕ, zero, suc, ◌+◌, ◌≤◌, ◌≡◌, refl, ap, sym, ◌∙◌, subst, arith, Bool, true, false, Option, none,
  some, List, [], ◌∷◌, ◌++◌, has, count, count-append, count-not_has, ◌==◌, ==_iff, Bool-cases, inl,
  inr,
}
use crunch_concurrency.Base.Machine.{update}
use crunch_concurrency.Future.{
  FutureData, Got, get, waits, returns, keeps, create, set_value, add_ref, release,
}
use crunch_concurrency.Future.Handles.{
  Shared, call, calls, new_promise, copy_pointer, drop_pointer, on_datum, with_datum,
}
use crunch_concurrency.ThreadPool.{Memory, Pc, take_or_wait, add_work_item}
use crunch_concurrency.ThreadPool.Work.{fresh}
use crunch_concurrency.ThreadPool.Post.{Store, post, run_item, run_items}

-- An item is in the queue, taken, or run.
pub taken-or-work :
    (m : Memory) (a : ℕ)
    → m.taken ++ m.work ≡ m.added
    → count a m.taken + count a m.work ≡ count a m.added
taken-or-work m a e = sym (count-append m.taken m.work a) ∙ ap (count a) e

abbrev pub SameItems : Memory → Memory × Pc → Type 0
SameItems m (m', p) = (m'.added ≡ m.added) × (m'.done ≡ m.done)

pub take-Same : (xs : List ℕ) (m : Memory) → SameItems m (take_or_wait xs m)
unfolding take_or_wait
take-Same [] m = (refl, refl)
take-Same (x ∷ xs) m = (refl, refl)

-- What `Get` answers where the function returns, or throws
abbrev pub answer_of : {T E : Type 0} → Option T → Got T E
answer_of none = waits
answer_of (some v) = returns v

abbrev pub is_none : {T : Type 0} → Option T → Bool
is_none none = true
is_none (some v) = false

module _ {T E : Type 0} (f : ℕ → Option T) where
  -- The datum of a function that was posted `added` times and has been run `done` times.
  abbrev pub promised : ℕ → (added done : ℕ) → Option (Shared T E)
  promised a zero done = none
  promised a (suc added) zero = post
  promised a (suc added) (suc done) = run_item f a (post)

  abbrev pub Kept : Memory → Store T E → Type 0
  Kept m st =
      ((a : ℕ) → count a m.added ≤ 1)
      × ((a : ℕ) → st a ≡ promised a (count a m.added) (count a m.done))

  pub same-Kept :
      (m : Memory) (r : Memory × Pc) (st : Store T E) → SameItems m r → Kept m st → Kept r.0 st
  same-Kept m r st (e, d) k = rw (e, d) k

  run_items-absent :
      (a : ℕ) (xs : List ℕ) (st : Store T E) → count a xs ≡ 0 → run_items f xs st a ≡ st a
  unfolding run_items
  run_items-absent a [] st h = refl
  run_items-absent a (x ∷ xs) st h =
      ground (arith, run_items-absent a xs (update st x (run_item f x (st x))))

  run_items-once :
      (a : ℕ) (xs : List ℕ) (st : Store T E)
      → count a xs ≡ 1
      → run_items f xs st a ≡ run_item f a (st a)
  unfolding run_items
  run_items-once a [] st h = absurd (omega (arith, h))
  run_items-once a (x ∷ xs) st h = elim (Bool-cases (x == a)) [
    | inl here ↦
        let e = (==_iff x a).0 here in
        ground (arith, e, run_items-absent a xs (update st x (run_item f x (st x))))
    | inr other ↦ ground (arith, run_items-once a xs (update st x (run_item f x (st x))))
  ]

  update-agrees :
      (item : ℕ) (x : Option (Shared T E)) (st F : Store T E)
      → ((a : ℕ) → (item == a) ≡ false → st a ≡ F a)
      → x ≡ F item
      → (a : ℕ) → update st item x a ≡ F a
  update-agrees item x st F others e a = elim (Bool-cases (item == a)) [
    | inl here ↦ rw here (subst (λ b. x ≡ F b) ((==_iff item a).0 here) e)
    | inr other ↦ rw other (others a other)
  ]

  pub added-Kept :
      (max item : ℕ) (m : Memory) (st : Store T E)
      → has item m.added ≡ false
      → count item m.done ≡ 0
      → Kept m st
      → Kept (add_work_item max item m) (update st item post)
  unfolding add_work_item
  added-Kept max item m st fresh unrun (once, k) =
      let none_yet : count item m.added ≡ 0 = count-not_has item m.added fresh in
      let more = count-append m.added (item ∷ []) in
      let one : count item (m.added ++ item ∷ []) ≡ 1 = ground (arith, none_yet, more item) in
      (
        λ a. ground (arith, more a, once a, ==_iff item a, none_yet),
        update-agrees item post st
            (λ a. promised a (count a (m.added ++ item ∷ [])) (count a m.done))
            (λ a other.
              let e : count a (m.added ++ item ∷ []) ≡ count a m.added = ground (arith, more a) in
              rw e (k a))
            (rw (one, unrun) refl),
      )

  pub run-Kept :
      (item : ℕ) (m : Memory) (st : Store T E)
      → count item m.added ≡ 1
      → count item m.done ≡ 0
      → Kept m st
      → Kept (record m { done = m.done ++ item ∷ [] }) (update st item (run_item f item (st item)))
  run-Kept item m st one unrun (once, k) =
      let more = count-append m.done (item ∷ []) in
      let ran : count item (m.done ++ item ∷ []) ≡ 1 = ground (arith, unrun, more item) in
      let waiting : st item ≡ post = rw (k item, one, unrun) refl in
      (
        once,
        update-agrees item (run_item f item (st item)) st
            (λ a. promised a (count a m.added) (count a (m.done ++ item ∷ [])))
            (λ a other.
              let e : count a (m.done ++ item ∷ []) ≡ count a m.done = ground (arith, more a) in
              rw e (k a))
            (rw (one, ran, waiting) refl),
      )

  pub rest-Kept :
      (m : Memory) (st : Store T E)
      → ((a : ℕ) → count a m.done + count a m.work ≡ count a m.added)
      → Kept m st
      → Kept (record m { done = m.done ++ m.work }) (run_items f m.work st)
  rest-Kept m st all (once, k) = (
    once,
    λ a.
        let more = count-append m.done m.work a in
        elim (Bool-cases (count a m.work == 0)) [
          | inl absent ↦
              let gone : count a m.work ≡ 0 = (==_iff (count a m.work) 0).0 absent in
              let e : count a (m.done ++ m.work) ≡ count a m.done = omega (arith, gone, more) in
              rw (e, run_items-absent a m.work st gone) (k a)
          | inr left ↦
              let one : count a m.work ≡ 1 =
                ground (arith, all a, once a, ==_iff (count a m.work) 0) in
              let posted : count a m.added ≡ 1 = omega (arith, one, all a, once a) in
              let unrun : count a m.done ≡ 0 = omega (arith, one, all a, once a) in
              let ran : count a (m.done ++ m.work) ≡ 1 = omega (arith, one, unrun, more) in
              let waiting : st a ≡ post = rw (k a, posted, unrun) refl in
              rw (posted, ran, run_items-once a m.work st one, waiting) refl
        ],
  )

  -- The datum of a function that has been posted, and has not returned
  abbrev unanswered : Shared T E
  unanswered = record {
    datum = keeps (record { ready = false; result = none; exception = none; ref_count = 2 });
    promise = true;
    futures = 1;
  }

  -- The datum of a function that has returned `v`
  abbrev answered : T → Shared T E
  answered v = record {
    datum = keeps (record { ready = true; result = some v; exception = none; ref_count = 1 });
    promise = false;
    futures = 1;
  }

  post-unanswered : post ≡ some unanswered
  unfolding post calls call new_promise create add_ref copy_pointer with_datum
  post-unanswered = refl

  run_item-answered :
      (a : ℕ) (v : T) → f a ≡ some v → run_item f a (some unanswered) ≡ some (answered v)
  unfolding run_item calls call on_datum set_value drop_pointer release with_datum
  run_item-answered a v e = rw (e, run_item) refl

  run_item-throws : (a : ℕ) → f a ≡ none → run_item f a (some unanswered) ≡ some unanswered
  unfolding run_item
  run_item-throws a e = rw (e, run_item) refl

  -- What the datum of a function that has been run comes to
  pub promised-outcome :
      (a : ℕ) (r : Option T)
      → f a ≡ r
      → (s : Shared T E) × (d : FutureData T E) × (promised a 1 1 ≡ some s)
        × (s.datum ≡ keeps d)
        × (get d ≡ answer_of r)
        × (s.promise ≡ is_none r)
        × (s.futures ≡ 1)
  unfolding get
  promised-outcome a none e = (
    unanswered,
    record { ready = false; result = none; exception = none; ref_count = 2 },
    rw post-unanswered (run_item-throws a e),
    refl,
    refl,
    refl,
    refl,
  )
  promised-outcome a (some v) e = (
    answered v,
    record { ready = true; result = some v; exception = none; ref_count = 1 },
    rw post-unanswered (run_item-answered a v e),
    refl,
    refl,
    refl,
    refl,
  )
