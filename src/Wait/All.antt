-- ===== src/Wait/All.antt =====
-- source/meta_scheduler.cpp: the order and the completeness of `WaitForAllImpl`.
use crunch_concurrency.Base.{
  ℕ, zero, suc, ◌≤◌, ◌≡◌, refl, ap, ◌∙◌, arith, Bool, true, false, not, List, [], ◌∷◌, ◌++◌, map,
  leb, Bool-cases, inl, inr, length, take,
}
use mathlib.Core.List.{Perm}
use mathlib.Core.List.Perm
use crunch_concurrency.Wait.Steps.{
  Action, add, wait_for, spin_wait, times, insert, sort, select, count_added, wait_for_all_impl,
}

-- Every element passes a test.
abbrev pub Each : (ℕ → Bool) → List ℕ → Type 0
Each test [] = Unit
Each test (x ∷ xs) = (test x ≡ true) × Each test xs

-- Ascending from a bound
abbrev pub Ascends : ℕ → List ℕ → Type 0
Ascends n [] = Unit
Ascends n (x ∷ xs) = (n ≤ x) × Ascends x xs

insert-Ascends : (n a : ℕ) (xs : List ℕ) → n ≤ a → Ascends n xs → Ascends n (insert a xs)
unfolding insert
insert-Ascends n a [] h s = ground arith
insert-Ascends n a (x ∷ xs) h s = ground (arith, insert-Ascends x a xs)

sort-Ascends : (xs : List ℕ) → Ascends 0 (sort xs)
unfolding sort
sort-Ascends [] = tt
sort-Ascends (x ∷ xs) = insert-Ascends 0 x (sort xs) (omega arith) (sort-Ascends xs)

insert-perm : (a : ℕ) (xs : List ℕ) → Perm (insert a xs) (a ∷ xs)
unfolding insert
insert-perm a [] = Perm.refl (a ∷ [])
insert-perm a (x ∷ xs) = elim (Bool-cases (leb a x)) [
  | inl e ↦ rw e (Perm.refl (a ∷ x ∷ xs))
  | inr e ↦ rw e (Perm.trans (Perm.cons x (insert-perm a xs)) (Perm.swap a x xs))
]

sort-perm : (xs : List ℕ) → Perm (sort xs) xs
unfolding sort
sort-perm [] = Perm.refl []
sort-perm (x ∷ xs) = Perm.trans (insert-perm x (sort xs)) (Perm.cons x (sort-perm xs))

-- The waitables that are waited for one at a time.
abbrev pub waited : List Action → List ℕ
waited [] = []
waited (wait_for w ∷ rest) = w ∷ waited rest
waited (_ ∷ rest) = waited rest

-- The waitables to which a waiter is added.
abbrev pub adds : List Action → List ℕ
adds [] = []
adds (add w ∷ rest) = w ∷ adds rest
adds (_ ∷ rest) = adds rest

waited-map :
    (xs : List ℕ) (rest : List Action) → waited rest ≡ [] → waited (map wait_for xs ++ rest) ≡ xs
waited-map [] rest h = h
waited-map (x ∷ xs) rest h = ap (λ ys. x ∷ ys) (waited-map xs rest h)

waited-add : (xs : List ℕ) (n : ℕ) → waited (map add xs ++ times n spin_wait) ≡ []
waited-add [] zero = refl
waited-add [] (suc n) = waited-add [] n
waited-add (x ∷ xs) n = waited-add xs n

adds-map : (xs : List ℕ) (rest : List Action) → adds (map wait_for xs ++ rest) ≡ adds rest
adds-map [] rest = refl
adds-map (x ∷ xs) rest = adds-map xs rest

adds-add : (xs : List ℕ) (n : ℕ) → adds (map add xs ++ times n spin_wait) ≡ xs
adds-add [] zero = refl
adds-add [] (suc n) = adds-add [] n
adds-add (x ∷ xs) n = ap (λ ys. x ∷ ys) (adds-add xs n)

module _ (ordered answer : ℕ → Bool) (ws : List ℕ) where
  -- The waitables of the second loop.
  abbrev first : List ℕ
  first = take (length (select (λ w. not (ordered w)) ws)) ws

  waited-lem : waited (wait_for_all_impl ordered answer ws) ≡ sort (select ordered ws)
  unfolding wait_for_all_impl
  waited-lem = waited-map (sort (select ordered ws)) _ (waited-add first (count_added answer first))

  adds-lem :
      adds (wait_for_all_impl ordered answer ws)
      ≡ take (length (select (λ w. not (ordered w)) ws)) ws
  unfolding wait_for_all_impl
  adds-lem = adds-map (sort (select ordered ws)) _ ∙ adds-add first (count_added answer first)

  -- `WaitForAll` waits one at a time for exactly the waitables that depend on an order, each as
  -- often as it is given, and by ascending address.
  pub waited_in_order :
      Ascends 0 (waited (wait_for_all_impl ordered answer ws))
      × Perm (waited (wait_for_all_impl ordered answer ws)) (select ordered ws)
  waited_in_order = rw waited-lem (sort-Ascends (select ordered ws), sort-perm (select ordered ws))

select-all : (test : ℕ → Bool) (ws : List ℕ) → Each test ws → select test ws ≡ ws
unfolding select
select-all test [] h = refl
select-all test (w ∷ ws) h = ground (arith, select-all test ws h.1)

take-length : (ws : List ℕ) → take (length ws) ws ≡ ws
take-length [] = refl
take-length (w ∷ ws) = ap (λ ys. w ∷ ys) (take-length ws)

Each-snoc :
    (test : ℕ → Bool) (last : ℕ) (ws : List ℕ)
    → Each test ws
    → test last ≡ true
    → Each test (ws ++ last ∷ [])
Each-snoc test last [] h e = (e, tt)
Each-snoc test last (w ∷ ws) h e = (h.0, Each-snoc test last ws h.1 e)

length-snoc : (ws : List ℕ) (last : ℕ) → length (ws ++ last ∷ []) ≡ suc (length ws)
length-snoc [] last = refl
length-snoc (w ∷ ws) last = ap suc (length-snoc ws last)

take-snoc : (ws : List ℕ) (last : ℕ) → take (length ws) (ws ++ last ∷ []) ≡ ws
take-snoc [] last = refl
take-snoc (w ∷ ws) last = ap (λ ys. w ∷ ys) (take-snoc ws last)

-- Where no waitable depends on an order, `WaitForAll` adds a waiter to every one of them.
pub adds_all_unordered :
    (ordered answer : ℕ → Bool) (ws : List ℕ)
    → Each (λ w. not (ordered w)) ws
    → adds (wait_for_all_impl ordered answer ws) ≡ ws
adds_all_unordered ordered answer ws h =
    adds-lem ordered answer ws
    ∙ ap (λ (n : List ℕ). take (length n) ws) (select-all (λ w. not (ordered w)) ws h)
    ∙ take-length ws

-- Where the first waitable depends on an order and the others do not, `WaitForAll` adds a waiter to
-- the first and to all of the others but the last: it never waits for the last one.
pub adds_misses_last :
    (ordered answer : ℕ → Bool) (o last : ℕ) (ws : List ℕ)
    → ordered o ≡ true
    → Each (λ w. not (ordered w)) ws
    → ordered last ≡ false
    → adds (wait_for_all_impl ordered answer (o ∷ (ws ++ last ∷ []))) ≡ o ∷ ws
unfolding select
adds_misses_last ordered answer o last ws ho hs hl =
    adds-lem ordered answer (o ∷ (ws ++ last ∷ []))
    ∙ ap (λ (n : List ℕ). take (length n) (o ∷ (ws ++ last ∷ []))) rest
    ∙ ap (λ (n : ℕ). take n (o ∷ (ws ++ last ∷ []))) (length-snoc ws last)
    ∙ ap (λ ys. o ∷ ys) (take-snoc ws last)
  where
    test : ℕ → Bool
    test w = not (ordered w)

    all : Each test (ws ++ last ∷ [])
    all = Each-snoc test last ws hs (rw hl)

    rest : select test (o ∷ (ws ++ last ∷ [])) ≡ ws ++ last ∷ []
    rest = rw ho (select-all test (ws ++ last ∷ []) all)
