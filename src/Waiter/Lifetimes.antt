-- ===== src/Waiter/Lifetimes.antt =====
-- include/crunch/concurrency/waiter.hpp: the waiters and their function objects, against a map that
-- does not know where a function object is kept.
use crunch_concurrency.Base.{
  ℕ, ◌≡◌, ◌≢◌, refl, sym, subst, arith, Bool, true, false, Option, none, some, List, ◌>>=◌, ◌==◌,
  ==_iff, Bool-cases, inl, inr,
}
use crunch_concurrency.Base.Machine.{update}
use crunch_concurrency.Waiter.{
  Callback, invokes, invokes_and_destroys, Storage, object, pointer, Waiter, World, is_large,
  function_of, destroy_object,
}

abbrev pub size_of : Callback → ℕ
size_of (invokes size) = size
size_of (invokes_and_destroys size) = size

abbrev pub destroys_itself : Callback → Bool
destroys_itself (invokes size) = false
destroys_itself (invokes_and_destroys size) = true

-- The storage of the waiter at `a` holds what its size says; a pointer is to an object of its own.
abbrev pub FitsStorage : (owner : ℕ → ℕ) → (heap : ℕ → Option ℕ) → ℕ → Bool → Storage → Type 0
FitsStorage owner heap a large (object f) = large ≡ false
FitsStorage owner heap a large (pointer p) =
    (large ≡ true) × (owner p ≡ a) × ((f : ℕ) × (heap p ≡ some f))

abbrev pub FitsAt : (owner : ℕ → ℕ) → (heap : ℕ → Option ℕ) → ℕ → Option Waiter → Type 0
FitsAt owner heap a none = Unit
FitsAt owner heap a (some x) = FitsStorage owner heap a (is_large (size_of x.callback)) x.storage

abbrev pub pointed : Storage → Option ℕ
pointed (object f) = none
pointed (pointer p) = some p

abbrev pub pointer_at : Option Waiter → Option ℕ
pointer_at none = none
pointer_at (some x) = pointed x.storage

-- Each waiter in use has its function object, and each object on the heap is of a waiter in use.
pub record IsSound (w : World) : Type 0 where
  pub owner : ℕ → ℕ
  pub fits : (a : ℕ) → FitsAt owner w.heap a (w.waiters a)
  pub owned : (p f : ℕ) → w.heap p ≡ some f → pointer_at (w.waiters (owner p)) ≡ some p

-- The waiters in use: whether each destroys itself, and its function object
abbrev pub View : Type 0
View = ℕ → Option (Bool × ℕ)

abbrev pub shown : Option Waiter → World → Option (Bool × ℕ)
shown none w = none
shown (some x) w = do
  f ← function_of (size_of x.callback) x.storage w
  some (destroys_itself x.callback, f)

abbrev pub view : World → View
view w a = shown (w.waiters a) w

-- Where the objects of a waiter stay, it stays as it is.
FitsStorage-other :
    (owner owner' : ℕ → ℕ) (w w' : World) (b size : ℕ) (st : Storage)
    → ((q f : ℕ) → w.heap q ≡ some f → owner q ≡ b → (owner' q ≡ b) × (w'.heap q ≡ some f))
    → FitsStorage owner w.heap b (is_large size) st
    → FitsStorage owner' w'.heap b (is_large size) st
      × (function_of size st w' ≡ function_of size st w)
unfolding function_of
FitsStorage-other owner owner' w w' b size (object f) h k = (k, refl)
FitsStorage-other owner owner' w w' b size (pointer p) h (l, o, (f, e)) =
    let (o', e') = h p f e o in ((l, o', (f, e')), rw (e, e') refl)

pub FitsAt-other :
    (owner owner' : ℕ → ℕ) (w w' : World) (b : ℕ) (x : Option Waiter)
    → ((q f : ℕ) → w.heap q ≡ some f → owner q ≡ b → (owner' q ≡ b) × (w'.heap q ≡ some f))
    → FitsAt owner w.heap b x
    → FitsAt owner' w'.heap b x × (shown x w' ≡ shown x w)
FitsAt-other owner owner' w w' b none h k = (tt, refl)
FitsAt-other owner owner' w w' b (some x) h k =
    let (k', e) = FitsStorage-other owner owner' w w' b (size_of x.callback) x.storage h k in
    (k', rw e refl)

-- A waiter in use has the function object that it shows.
pub has_object :
    (owner : ℕ → ℕ) (w : World) (a size : ℕ) (st : Storage)
    → FitsStorage owner w.heap a (is_large size) st
    → (f : ℕ) × (function_of size st w ≡ some f)
unfolding function_of
has_object owner w a size (object f) k = (f, rw k refl)
has_object owner w a size (pointer p) (l, o, (f, e)) = (f, rw (l, e) refl)

module _ (w : World) (s : IsSound w) (a : ℕ) where
  -- The owner of an object is not the waiter at `a`, where that does not point to it.
  pub owned-update :
      (y : Option Waiter) (p f : ℕ)
      → w.heap p ≡ some f
      → pointer_at (w.waiters a) ≢ some p
      → pointer_at (update w.waiters a y (s.owner p)) ≡ some p
  owned-update y p f h ne = elim (Bool-cases (a == s.owner p)) [
    | inl same ↦ absurd (
        ne (
          subst (λ b. pointer_at (w.waiters b) ≡ some p) (sym ((==_iff a (s.owner p)).0 same))
            (s.owned p f h)))
    | inr other ↦ rw other (s.owned p f h)
  ]

  module _ (owner : ℕ → ℕ) (y : Option Waiter) (heap : ℕ → Option ℕ) (called : List ℕ)
      (others : (b : ℕ)
        → (a == b) ≡ false
        → (q f : ℕ) → w.heap q ≡ some f
        → s.owner q ≡ b
        → (owner q ≡ b) × (heap q ≡ some f)) where
    abbrev pub replaced : World
    replaced = record { waiters = update w.waiters a y; heap = heap; called = called }

    pub replaced-IsSound :
        FitsAt owner heap a y
        → ((p f : ℕ) → heap p ≡ some f → pointer_at (update w.waiters a y (owner p)) ≡ some p)
        → IsSound replaced
    replaced-IsSound new own = record {
      owner = owner;
      fits = λ b. elim (Bool-cases (a == b)) [
        | inl same ↦ rw same (subst (λ i. FitsAt owner heap i y) ((==_iff a b).0 same) new)
        | inr other ↦
            rw other
              (FitsAt-other s.owner owner w replaced b (w.waiters b) (others b other) (s.fits b)).0
      ];
      owned = own;
    }

    pub view-replaced : (b : ℕ) → view replaced b ≡ update (view w) a (shown y replaced) b
    view-replaced b = elim (Bool-cases (a == b)) [
      | inl same ↦ rw same refl
      | inr other ↦
          rw other
            (FitsAt-other s.owner owner w replaced b (w.waiters b) (others b other) (s.fits b)).1
    ]

  -- What `Destroy` of a waiter in use leaves
  pub destroy_lem :
      (size : ℕ) (st : Storage)
      → FitsStorage s.owner w.heap a (is_large size) st
      → pointer_at (w.waiters a) ≡ pointed st
      → (w' : World) × (destroy_object size a st w ≡ some w')
        × IsSound w'
        × ((b : ℕ) → view w' b ≡ update (view w) a none b)
        × (w'.called ≡ w.called)
  unfolding destroy_object
  destroy_lem size (object f) small e = (
    record w { waiters = update w.waiters a none },
    rw small refl,
    replaced-IsSound s.owner none w.heap w.called (λ b ne q g h o. (o, h)) tt
        (λ p g h. owned-update none p g h (λ x. ground (arith, e, x))),
    view-replaced s.owner none w.heap w.called (λ b ne q g h o. (o, h)),
    refl,
  )
  destroy_lem size (pointer p) (large, o, (f, h)) e =
      let stay : (b : ℕ)
          → (a == b) ≡ false
          → (q g : ℕ) → w.heap q ≡ some g
          → s.owner q ≡ b
          → (s.owner q ≡ b) × (update w.heap p none q ≡ some g) =
        λ b ne q g k o'. (o', ground (arith, o, o', k, ==_iff p q, ==_iff a b)) in
      (
        record w { waiters = update w.waiters a none; heap = update w.heap p none },
        rw (large, h) refl,
        replaced-IsSound s.owner none (update w.heap p none) w.called stay tt (λ q g k.
            owned-update none q g (ground (arith, k, ==_iff p q)) (λ x. ground (arith, e, x, k))),
        view-replaced s.owner none (update w.heap p none) w.called stay,
        refl,
      )
