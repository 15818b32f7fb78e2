-- ===== src/Waiter/Refinement.antt =====
-- include/crunch/concurrency/waiter.hpp: any calls on waiters, against a map from waiters to function
-- objects.
use crunch_concurrency.Base.{
  ℕ, ◌≡◌, refl, ◌∙◌, subst, arith, Bool, true, false, Option, none, some, List, ◌∷◌, if◌then◌else◌,
  ◌==◌, ==_iff, Bool-cases, inl, inr,
}
use crunch_concurrency.Base.Machine.{update}
use crunch_concurrency.Waiter.{
  Callback, invokes, invokes_and_destroys, Storage, object, pointer, Waiter, World, is_large,
  callback_for, create, function_of, invoke, destroy, invoke_and_destroy, call_back, notify,
}
use crunch_concurrency.Waiter.Lifetimes.{
  size_of, destroys_itself, FitsStorage, FitsAt, IsSound, View, view, FitsAt-other, has_object,
  owned-update, replaced, replaced-IsSound, view-replaced, destroy_lem,
}

pub data Call : Type 0 where
  creates : (size f : ℕ) → (destroy_on_notify : Bool) → (address p : ℕ) → Call
  notifies : (address : ℕ) → Call
  destroys : (size address : ℕ) → Call

unfoldable pub run_call : Call → World → Option World
unfolding create notify destroy
run_call (creates size f destroy_on_notify address p) w =
    some (create size f destroy_on_notify address p w)
run_call (notifies address) w = notify address w
run_call (destroys size address) w = destroy size address w

-- `Allocate` and `new` return addresses that are not in use. `Notify` and `Destroy` are called on a
-- waiter in use, `Destroy` through a pointer of its type.
abbrev pub IsAllowed : Call → World → Type 0
IsAllowed (creates size f destroy_on_notify address p) w =
    (w.waiters address ≡ none) × (w.heap p ≡ none)
IsAllowed (notifies address) w = (x : Waiter) × (w.waiters address ≡ some x)
IsAllowed (destroys size address) w =
    (x : Waiter) × (w.waiters address ≡ some x) × (size_of x.callback ≡ size)

-- What a call does to the map, and to the function objects called so far
abbrev pub notified : (address : ℕ) → Option (Bool × ℕ) → View × List ℕ → View × List ℕ
notified address none (v, called) = (v, called)
notified address (some (once, f)) (v, called) =
    (if once then update v address none else v, f ∷ called)

unfoldable pub call : Call → View × List ℕ → View × List ℕ
call (creates size f destroy_on_notify address p) (v, called) =
    (update v address (some (destroy_on_notify, f)), called)
call (notifies address) (v, called) = notified address (v address) (v, called)
call (destroys size address) (v, called) = (update v address none, called)

-- The call goes through, and leaves what the map says.
abbrev Goes : (next : Option World) → View × List ℕ → Type 0
Goes next (v, called) =
    (w' : World) × (next ≡ some w')
    × IsSound w'
    × ((b : ℕ) → view w' b ≡ v b)
    × (w'.called ≡ called)

size-callback_for : (size : ℕ) (once : Bool) → size_of (callback_for size once) ≡ size
size-callback_for size true = refl
size-callback_for size false = refl

itself-callback_for : (size : ℕ) (once : Bool) → destroys_itself (callback_for size once) ≡ once
itself-callback_for size true = refl
itself-callback_for size false = refl

module _ (w : World) (s : IsSound w) (size f : ℕ) (once : Bool) (a p : ℕ)
    (free : w.waiters a ≡ none) where
  create_small :
      is_large size ≡ false
      → Goes (some (create size f once a p w)) (call (creates size f once a p) (view w, w.called))
  unfolding create call function_of
  create_small small =
      let y : Option Waiter =
        some (record { callback = callback_for size once; storage = object f }) in
      let stay : (b : ℕ)
          → (a == b) ≡ false
          → (q g : ℕ) → w.heap q ≡ some g
          → s.owner q ≡ b
          → (s.owner q ≡ b) × (w.heap q ≡ some g) =
        λ b ne q g h o. (o, h) in
      (
        replaced w s a s.owner y w.heap w.called stay,
        rw small refl,
        replaced-IsSound w s a s.owner y w.heap w.called stay
            (rw (size-callback_for size once) small)
            (λ q g h. owned-update w s a y q g h (λ x. ground (arith, free, x))),
        λ b.
            view-replaced w s a s.owner y w.heap w.called stay b
            ∙ rw (size-callback_for size once, itself-callback_for size once, small) refl,
        refl,
      )

  create_large :
      w.heap p ≡ none
      → is_large size ≡ true
      → Goes (some (create size f once a p w)) (call (creates size f once a p) (view w, w.called))
  unfolding create call function_of
  create_large unused large =
      let y : Option Waiter =
        some (record { callback = callback_for size once; storage = pointer p }) in
      let heap : ℕ → Option ℕ = update w.heap p (some f) in
      let owner : ℕ → ℕ = update s.owner p a in
      let there : (heap p ≡ some f) × (owner p ≡ a) = ground (arith, ==_iff p p) in
      let stay : (b : ℕ)
          → (a == b) ≡ false
          → (q g : ℕ) → w.heap q ≡ some g
          → s.owner q ≡ b
          → (owner q ≡ b) × (heap q ≡ some g) =
        λ b ne q g h o. ground (arith, h, o, unused, ==_iff p q) in
      (
        replaced w s a owner y heap w.called stay,
        rw large refl,
        replaced-IsSound w s a owner y heap w.called stay
            (rw (size-callback_for size once, large) (refl, there.1, (f, there.0)))
            (λ q g h. elim (Bool-cases (p == q)) [
              | inl same ↦ ground (arith, same, ==_iff p q, ==_iff a a)
              | inr other ↦
                  let old : w.heap q ≡ some g = ground (arith, h, other) in
                  rw other (owned-update w s a y q g old (λ x. ground (arith, free, x)))
            ]),
        λ b.
            view-replaced w s a owner y heap w.called stay b
            ∙ rw (size-callback_for size once, itself-callback_for size once, large, there.0) refl,
        refl,
      )

  create_lem :
      w.heap p ≡ none
      → Goes (some (create size f once a p w)) (call (creates size f once a p) (view w, w.called))
  create_lem unused = elim (Bool-cases (is_large size)) [
    | inr small ↦ create_small small
    | inl large ↦ create_large unused large
  ]

-- A call of the function object
log : ℕ → World → World
log f w = record w { called = f ∷ w.called }

log_lem :
    (f : ℕ) (w : World) (s : IsSound w) (b : ℕ)
    → FitsAt s.owner w.heap b (w.waiters b) × (view (log f w) b ≡ view w b)
unfolding log
log_lem f w s b =
    FitsAt-other s.owner s.owner w (log f w) b (w.waiters b) (λ q g h o. (o, h)) (s.fits b)

view-update : (v v' : View) (a b : ℕ) → v' b ≡ v b → update v' a none b ≡ update v a none b
view-update v v' a b e = elim (Bool-cases (a == b)) [
  | inl same ↦ rw same refl
  | inr other ↦ rw other e
]

call_back_lem :
    (w : World) (s : IsSound w) (a f : ℕ) (c : Callback) (st : Storage)
    → w.waiters a ≡ some (record { callback = c; storage = st })
    → FitsStorage s.owner w.heap a (is_large (size_of c)) st
    → function_of (size_of c) st w ≡ some f
    → Goes (call_back c a w) (notified a (some (destroys_itself c, f)) (view w, w.called))
unfolding call_back invoke invoke_and_destroy destroy log
call_back_lem w s a f (invokes size) st e k h = (
  log f w,
  rw (e, h) refl,
  record { owner = s.owner; fits = λ b. (log_lem f w s b).0; owned = s.owned },
  λ b. (log_lem f w s b).1,
  refl,
)
call_back_lem w s a f (invokes_and_destroys size) st e k h =
    let s' : IsSound (log f w) = record {
      owner = s.owner;
      fits = λ b. (log_lem f w s b).0;
      owned = s.owned;
    } in
    let (w', d, s'', v', l) = destroy_lem (log f w) s' a size st k (rw e refl) in
    (
      w',
      rw (e, h, e) d,
      s'',
      λ b. v' b ∙ view-update (view w) (view (log f w)) a b (log_lem f w s b).1,
      l,
    )

notify_lem :
    (w : World) (s : IsSound w) (a : ℕ) (x : Waiter)
    → w.waiters a ≡ some x
    → Goes (notify a w) (call (notifies a) (view w, w.called))
unfolding notify call
notify_lem w s a x e =
    let k = subst (FitsAt s.owner w.heap a) e (s.fits a) in
    let (f, h) = has_object s.owner w a (size_of x.callback) x.storage k in
    rw (e, h) (call_back_lem w s a f x.callback x.storage e k h)

-- From waiters that are each sound, every allowed call on them meets what it expects in the storage of
-- its waiter and on the heap, and leaves them sound; where the function object is kept makes no
-- difference to what is called and destroyed.
pub run_call-refines :
    (c : Call) (w : World)
    → IsSound w
    → IsAllowed c w
    → (w' : World) × (run_call c w ≡ some w')
      × IsSound w'
      × ((b : ℕ) → view w' b ≡ (call c (view w, w.called)).0 b)
      × (w'.called ≡ (call c (view w, w.called)).1)
unfolding run_call destroy call
run_call-refines (creates size f once a p) w s (free, unused) =
    create_lem w s size f once a p free unused
run_call-refines (notifies a) w s (x, e) = notify_lem w s a x e
run_call-refines (destroys size a) w s (x, e, z) =
    let k = subst (FitsAt s.owner w.heap a) e (s.fits a) in
    let (w', d, s', v, l) = destroy_lem w s a size x.storage (rw (← z) k) (rw e refl) in
    (w', rw e d, s', v, l)
