-- ===== src/WaiterList/Chain.antt =====
-- include/crunch/concurrency/waiter_utility.hpp: the linked list under a head, and its walks.
use crunch_concurrency.Base.{
  ℕ, zero, suc, ◌<◌, ◌≡◌, refl, Bool, true, false, List, [], ◌∷◌, ◌++◌, arith, ◌==◌, if◌then◌else◌,
  Option, none, some, Bool-cases, inl, inr, has, erase, length, append_assoc, append-nil,
}
use crunch_concurrency.Base.Machine.{update}
use crunch_concurrency.WaiterList.Packed.{IsWaiter, IsPointer, get_pointer, has_lock}
use crunch_concurrency.WaiterList.Memory.{Waiters, notify}

-- From `p` the `next` fields lead through the waiters `xs`, each once, to null.
abbrev pub Chain : (ℕ → ℕ) → ℕ → List ℕ → Type 0
Chain next p [] = p ≡ 0
Chain next p (x ∷ xs) = (p ≡ x) × IsWaiter x × (has x xs ≡ false) × Chain next (next x) xs

pub Chain-IsPointer : (next : ℕ → ℕ) {p : ℕ} (xs : List ℕ) → Chain next p xs → IsPointer p
Chain-IsPointer next [] c = omega arith
Chain-IsPointer next (x ∷ xs) c = omega arith

pub Chain-nil : (next : ℕ → ℕ) (xs : List ℕ) → Chain next 0 xs → xs ≡ []
Chain-nil next [] c = refl
Chain-nil next (x ∷ xs) c = absurd (omega arith)

-- A write to the link of an address that is not in the chain leaves the chain.
pub Chain-update :
    (next : ℕ → ℕ) (p a b : ℕ) (xs : List ℕ)
    → has a xs ≡ false
    → Chain next p xs
    → Chain (update next a b) p xs
Chain-update next p a b [] h c = c
Chain-update next p a b (x ∷ xs) h c = ground (arith, Chain-update next (next x) a b xs)

-- One round of the loop of `RemoveWaiterFromListNotAtHead`.
pub data Walk : Type 0 where
  found : (ℕ → ℕ) → Walk
  missing : Walk
  onward : ℕ → Walk

unfoldable pub walk_round : (ℕ → ℕ) → (cur waiter : ℕ) → Walk
walk_round next cur waiter =
    if next cur == 0
    then missing
    else (if next cur == waiter then found (update next cur (next waiter)) else onward (next cur))

-- `RemoveWaiterFromListNotAtHead`, with fuel: the links and whether the waiter was removed. `none`
-- means that the fuel ran out.
unfoldable pub remove_not_at_head : ℕ → (ℕ → ℕ) → (head waiter : ℕ) → Option ((ℕ → ℕ) × Bool)
unfolding walk_round
remove_not_at_head zero next cur waiter = none
remove_not_at_head (suc fuel) next cur waiter = elim (walk_round next cur waiter) [
  | missing ↦ some (next, false)
  | found next' ↦ some (next', true)
  | onward cur' ↦ remove_not_at_head fuel next cur' waiter
]

-- `RemoveWaiterFromList`: the links and the new head.
unfoldable pub remove_from_list : ℕ → (ℕ → ℕ) → (head waiter : ℕ) → Option ((ℕ → ℕ) × ℕ)
remove_from_list fuel next head waiter =
    if head == waiter
    then some (next, next head)
    else elim (remove_not_at_head fuel next head waiter) [
      | none ↦ none
      | some (next', _) ↦ some (next', head)
    ]

-- `NotifyAllWaiters`, with fuel. The next waiter is read before the callback runs.
unfoldable pub notify_all : ℕ → Waiters → ℕ → Option Waiters
notify_all zero m cur = none
notify_all (suc fuel) m cur = elim (cur == 0) [
  | true ↦ some m
  | false ↦ notify_all fuel (notify m cur) (m.next cur)
]

-- What a walk that starts at `cur`, before the waiters `xs`, makes of the links.
pub record Removed (next : ℕ → ℕ) (cur waiter : ℕ) (xs : List ℕ) (next' : ℕ → ℕ) : Type 0 where
  pub chain : Chain next' (next' cur) (erase waiter xs)
  pub outside : (a : ℕ) → has a (cur ∷ xs) ≡ false → next' a ≡ next a

pub has-erase : (a w : ℕ) (xs : List ℕ) → has a xs ≡ false → has a (erase w xs) ≡ false
has-erase a w [] h = refl
has-erase a w (x ∷ xs) h = ground (arith, has-erase a w xs)

-- The walk ends, finds the waiter exactly when it stands in the list behind the head, and unlinks it.
pub remove_not_at_head-Removed :
    (fuel : ℕ) (next : ℕ → ℕ) (cur waiter : ℕ) (xs : List ℕ)
    → length xs < fuel
    → has cur xs ≡ false
    → Chain next (next cur) xs
    → (next' : ℕ → ℕ) × (remove_not_at_head fuel next cur waiter ≡ some (next', has waiter xs))
      × Removed next cur waiter xs next'
unfolding remove_not_at_head
remove_not_at_head-Removed zero next cur waiter xs f h c = absurd (omega arith)
remove_not_at_head-Removed (suc fuel) next cur waiter [] f h c =
    (next, ground arith, record { chain = ground arith; outside = λ a o. refl })
remove_not_at_head-Removed (suc fuel) next cur waiter (x ∷ xs) f h c =
    elim (Bool-cases (x == waiter)) [
      | inl hit ↦ (
        update next cur (next waiter),
        ground arith,
        record {
          chain = rw hit (ground (arith, Chain-update next (next x) cur (next waiter) xs));
          outside = λ a o. ground arith;
        },
      )
      | inr miss ↦
          let (next', e, r) =
            remove_not_at_head-Removed fuel next x waiter xs (omega arith) c.2 c.3 in
          (
            next',
            ground arith,
            record {
              chain =
                  rw miss (ground (arith, r.outside cur), c.1, has-erase x waiter xs c.2, r.chain);
              outside = λ a o. ground (arith, r.outside a);
            },
          )
    ]

-- The same with the head itself: the new head starts the list without the waiter.
pub remove_from_list-erase :
    (fuel : ℕ) (next : ℕ → ℕ) (head waiter : ℕ) (xs : List ℕ)
    → length xs < fuel
    → Chain next head (head ∷ xs)
    → (next' : ℕ → ℕ) × (head' : ℕ) × (remove_from_list fuel next head waiter ≡ some (next', head'))
      × Chain next' head' (erase waiter (head ∷ xs))
unfolding remove_from_list
remove_from_list-erase fuel next head waiter xs f c = elim (Bool-cases (head == waiter)) [
  | inl hit ↦ (next, next head, rw hit, rw hit c.3)
  | inr miss ↦
      let (next', e, r) = remove_not_at_head-Removed fuel next head waiter xs f c.2 c.3 in
      (next', head, rw (miss, e), rw miss (refl, c.1, has-erase head waiter xs c.2, r.chain))
]

-- Every waiter of the list is notified once, in the list's order.
pub notify_all-append :
    (fuel : ℕ) (m : Waiters) (p : ℕ) (xs : List ℕ)
    → length xs < fuel
    → Chain m.next p xs
    → notify_all fuel m p ≡ some (record m { notified = m.notified ++ xs })
unfolding notify_all
notify_all-append zero m p xs f c = absurd (omega arith)
notify_all-append (suc fuel) m p [] f c = ground (arith, append-nil m.notified)
notify_all-append (suc fuel) m p (x ∷ xs) f c =
    ground (
      arith,
      notify_all-append fuel (notify m x) (m.next x) xs,
      append_assoc m.notified (x ∷ []) xs,
    )

-- The list `xs` hangs under the word, and no call has it locked.
pub record IsOpen (m : Waiters) (xs : List ℕ) : Type 0 where
  pub chain : Chain m.next (get_pointer m.word) xs
  pub unlocked : has_lock m.word ≡ false
