-- ===== src/Wait/Returns.antt =====
-- source/meta_scheduler.cpp: which of the waits of a thread return, and what they leave on its semaphore.
use crunch_concurrency.Base.{
  ℕ, zero, suc, ◌⊎◌, ◌+◌, ◌≤◌, ◌<◌, ◌≡◌, refl, sym, ap, ◌∙◌, arith, Bool, true, false, not, ◌&&◌,
  ◌||◌, none, some, List, [], ◌∷◌, length, if◌then◌else◌, take, Bool-cases, inl, inr,
}
use crunch_concurrency.Wait.Steps.{insert, sort, select, count_added, add_until_ready}
use crunch_concurrency.Wait.Any.{posted, waits-eq-posts}
use crunch_concurrency.Wait.Context.{
  Reply, at_once, notified, silent, is_silent, added_in, posted_in, silent_in, settle, Current,
  on_semaphore, wait_one, numbers, wait_each, wait_added, wait_all, wait_any, Wait, waits_one,
  waits_all, waits_any, waits,
}

module _ (replies : ℕ → Reply) where
  -- Of `n` calls from the `k`th, every one is answered false or has its waiter notified; some one is.
  abbrev pub all_answered : (k n : ℕ) → Bool
  all_answered k zero = true
  all_answered k (suc n) = not (is_silent (replies k)) && all_answered (suc k) n

  abbrev pub some_answered : (k n : ℕ) → Bool
  some_answered k zero = false
  some_answered k (suc n) = not (is_silent (replies k)) || some_answered (suc k) n

-- Whether a wait should return
abbrev pub is_answered : Wait → Bool
is_answered (waits_one reply w) = not (is_silent reply)
is_answered (waits_all ordered replies ws) = all_answered replies 0 (length ws)
is_answered (waits_any replies ws) = some_answered replies 0 (length ws)

abbrev pub are_answered : List Wait → Bool
are_answered [] = true
are_answered (w ∷ ws) = is_answered w && are_answered ws

-- The semaphore of the context, if there is one, has no posts.
abbrev pub IsClean : Current → Type 0
IsClean none = Unit
IsClean (some count) = count ≡ 0

on_semaphore-same : (p w : ℕ) (c : Current) → IsClean c → p ≡ w → on_semaphore p w c ≡ some c
unfolding on_semaphore settle
on_semaphore-same p w none k e = ground arith
on_semaphore-same p w (some count) k e = ground arith

on_semaphore-short : (p w : ℕ) (c : Current) → IsClean c → p < w → on_semaphore p w c ≡ none
unfolding on_semaphore settle
on_semaphore-short p w none k l = ground arith
on_semaphore-short p w (some count) k l = ground arith

wait_one-returns :
    (reply : Reply) (w : ℕ) (c : Current)
    → IsClean c
    → wait_one reply w c ≡ (if not (is_silent reply) then some c else none)
unfolding wait_one
wait_one-returns at_once w c k = on_semaphore-same 0 0 c k refl
wait_one-returns notified w c k = on_semaphore-same 1 1 c k refl
wait_one-returns silent w c k = on_semaphore-short 0 1 c k (omega arith)

Reply-cases : (r : Reply) → (r ≡ at_once) ⊎ ((r ≡ notified) ⊎ (r ≡ silent))
Reply-cases at_once = inl refl
Reply-cases notified = inr (inl refl)
Reply-cases silent = inr (inr refl)

module _ (replies : ℕ → Reply) where
  wait_each-returns :
      (k : ℕ) (ws : List ℕ) (c : Current)
      → IsClean c
      → wait_each replies k ws c ≡ (if all_answered replies k (length ws) then some c else none)
  unfolding wait_each
  wait_each-returns k [] c clean = refl
  wait_each-returns k (w ∷ ws) c clean = elim (Bool-cases (is_silent (replies k))) [
    | inl e ↦ rw (wait_one-returns (replies k) w c clean) (rw e refl)
    | inr e ↦
        rw (wait_one-returns (replies k) w c clean) (rw e (wait_each-returns (suc k) ws c clean))
  ]

  added-answered :
      (k : ℕ) (ws : List ℕ)
      → let p = length (select (posted_in replies) (numbers k ws)) in
        let a = count_added (added_in replies) (numbers k ws) in
        (p ≤ a)
        × (all_answered replies k (length ws) ≡ true → p ≡ a)
        × (all_answered replies k (length ws) ≡ false → p < a)
  unfolding numbers select count_added
  added-answered k [] = (omega arith, λ e. refl, λ e. cc)
  added-answered k (w ∷ ws) =
      let rest = added-answered (suc k) ws in
      elim (Reply-cases (replies k)) [
        | inl e ↦ rw e rest
        | inr (inl e) ↦
            rw e
              (omega (arith, rest.0), λ a. ap (λ x. suc x) (rest.1 a), λ a. omega (arith, rest.2 a))
        | inr (inr e) ↦ rw e (omega (arith, rest.0), λ a. cc, λ a. omega (arith, rest.0))
      ]

  wait_added-returns :
      (k : ℕ) (ws : List ℕ) (c : Current)
      → IsClean c
      → wait_added replies k ws c ≡ (if all_answered replies k (length ws) then some c else none)
  unfolding wait_added
  wait_added-returns k ws c clean =
      let (l, same, less) = added-answered k ws in
      elim (Bool-cases (all_answered replies k (length ws))) [
        | inl e ↦ rw e (on_semaphore-same _ _ c clean (same e))
        | inr e ↦ rw e (on_semaphore-short _ _ c clean (less e))
      ]

  all_answered-add :
      (k n m : ℕ)
      → all_answered replies k (n + m)
        ≡ (all_answered replies k n && all_answered replies (k + n) m)
  all_answered-add k zero m =
      let same : 0 + m ≡ m = omega arith in
      let here : k ≡ k + 0 = omega arith in rw same (ap (λ x. all_answered replies x m) here)
  all_answered-add k (suc n) m =
      let there : suc k + n ≡ k + suc n = omega arith in
      let step : suc n + m ≡ suc (n + m) = omega arith in
      let rest =
        all_answered-add (suc k) n m
        ∙ ap (λ x. all_answered replies (suc k) n && all_answered replies x m) there in
      rw step (elim (Bool-cases (is_silent (replies k))) [ inl e ↦ rw e refl | inr e ↦ rw e rest ])

  -- Where some call is answered, `WaitForAny` has something to wait for.
  some-posted :
      (k : ℕ) (ws : List ℕ)
      → some_answered replies k (length ws) ≡ true
      → length (add_until_ready (added_in replies) (numbers k ws)).added ≡ length (numbers k ws)
      → 1 ≤ length (posted (added_in replies) (silent_in replies) (numbers k ws))
  unfolding numbers add_until_ready select
  some-posted k [] e full = cc
  some-posted k (w ∷ ws) e full = elim (Reply-cases (replies k)) [
    | inl r ↦ absurd (ground (arith, full))
    | inr (inl r) ↦ rw r (rw r (omega arith))
    | inr (inr r) ↦ rw r (rw r (some-posted (suc k) ws (ground (arith, e)) (ground (arith, full))))
  ]

  -- Where none is, it waits once, for no post.
  none-posted :
      (k : ℕ) (ws : List ℕ)
      → some_answered replies k (length ws) ≡ false
      → ((add_until_ready (added_in replies) (numbers k ws)).ready ≡ [])
        × ((add_until_ready (added_in replies) (numbers k ws)).added ≡ numbers k ws)
        × (posted (added_in replies) (silent_in replies) (numbers k ws) ≡ [])
  unfolding numbers add_until_ready select
  none-posted k [] e = (refl, refl, refl)
  none-posted k (w ∷ ws) e = elim (Reply-cases (replies k)) [
    | inl r ↦ absurd (ground (arith, e))
    | inr (inl r) ↦ absurd (ground (arith, e))
    | inr (inr r) ↦
        let (a, b, c) = none-posted (suc k) ws (ground (arith, e)) in
        rw r (a, ap (λ xs. k ∷ xs) b, rw r c)
  ]

  wait_any-returns :
      (ws : List ℕ) (c : Current)
      → IsClean c
      → wait_any replies ws c ≡ (if some_answered replies 0 (length ws) then some c else none)
  unfolding wait_any
  wait_any-returns ws c clean = elim (Bool-cases (some_answered replies 0 (length ws))) [
    | inl e ↦ rw e (
        on_semaphore-same _ _ c clean
          (sym (waits-eq-posts _ _ (numbers 0 ws) (some-posted 0 ws e))))
    | inr e ↦
        let (r, a, p) = none-posted 0 ws e in rw e (on_semaphore-short _ _ c clean (ground arith))
  ]

length-insert : (a : ℕ) (xs : List ℕ) → length (insert a xs) ≡ suc (length xs)
unfolding insert
length-insert a [] = refl
length-insert a (x ∷ xs) = ground (arith, length-insert a xs)

length-sort : (xs : List ℕ) → length (sort xs) ≡ length xs
unfolding sort
length-sort [] = refl
length-sort (x ∷ xs) = length-insert x (sort xs) ∙ ap (λ n. suc n) (length-sort xs)

length-select :
    (test : ℕ → Bool) (ws : List ℕ)
    → length (select test ws) + length (select (λ w. not (test w)) ws) ≡ length ws
unfolding select
length-select test [] = omega arith
length-select test (w ∷ ws) = ground (arith, length-select test ws)

length-take : (n : ℕ) (ws : List ℕ) → n ≤ length ws → length (take n ws) ≡ n
length-take zero ws l = refl
length-take (suc n) [] l = absurd (omega arith)
length-take (suc n) (w ∷ ws) l = ap (λ k. suc k) (length-take n ws (omega arith))

module _ (ordered : ℕ → Bool) (replies : ℕ → Reply) (ws : List ℕ) where
  abbrev first : List ℕ
  first = sort (select ordered ws)

  abbrev second : List ℕ
  second = take (length (select (λ w. not (ordered w)) ws)) ws

  -- `WaitForAll` calls `AddWaiter` as often as there are waitables.
  length-calls : length first + length second ≡ length ws
  length-calls =
      let parts = length-select ordered ws in
      omega (
        arith,
        parts,
        length-sort (select ordered ws),
        length-take (length (select (λ w. not (ordered w)) ws)) ws (omega (arith, parts)),
      )

  all_answered-calls : all_answered replies 0 (length ws) ≡ (
      all_answered replies 0 (length first) && all_answered replies (length first) (length second))
  all_answered-calls =
      let same : 0 + length first ≡ length first = omega arith in
      ap (λ n. all_answered replies 0 n) (sym length-calls)
      ∙ all_answered-add replies 0 (length first) (length second)
      ∙ ap (λ n. all_answered replies 0 (length first) && all_answered replies n (length second))
          same

  wait_all-returns :
      (c : Current)
      → IsClean c
      → wait_all ordered replies ws c
        ≡ (if all_answered replies 0 (length ws) then some c else none)
  unfolding wait_all
  wait_all-returns c clean =
      rw (all_answered-calls, wait_each-returns replies 0 first c clean)
        (elim (Bool-cases (all_answered replies 0 (length first))) [
          | inl e ↦ rw e (wait_added-returns replies (length first) second c clean)
          | inr e ↦ rw e refl
        ])

-- A sequence of waits of a thread, of any kinds, returns exactly where a `WaitFor` is answered false or
-- its waiter notified, a `WaitForAll` the same for every call of `AddWaiter` that it makes, and a
-- `WaitForAny` for at least one of the waitables. The thread then has the semaphore of its context as it
-- was: no post of one wait ends another. At first the thread has no context, or one whose semaphore has
-- no posts.
pub waits-returns :
    (ws : List Wait) (c : Current)
    → IsClean c
    → waits ws c ≡ (if are_answered ws then some c else none)
unfolding waits
waits-returns [] c clean = refl
waits-returns (waits_one reply w ∷ ws) c clean =
    rw (wait_one-returns reply w c clean) (elim (Bool-cases (is_silent reply)) [
      | inl e ↦ rw e refl
      | inr e ↦ rw e (waits-returns ws c clean)
    ])
waits-returns (waits_all ordered replies xs ∷ ws) c clean =
    rw (wait_all-returns ordered replies xs c clean)
      (elim (Bool-cases (all_answered replies 0 (length xs))) [
        | inl e ↦ rw e (waits-returns ws c clean)
        | inr e ↦ rw e refl
      ])
waits-returns (waits_any replies xs ∷ ws) c clean =
    rw (wait_any-returns replies xs c clean)
      (elim (Bool-cases (some_answered replies 0 (length xs))) [
        | inl e ↦ rw e (waits-returns ws c clean)
        | inr e ↦ rw e refl
      ])
