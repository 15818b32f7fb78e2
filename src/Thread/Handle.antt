-- ===== src/Thread/Handle.antt =====
-- source/platform/linux/thread.cpp and source/thread.cpp: the handle of a thread, from its creation to
-- its destruction.
use crunch_concurrency.Base.{
  ℕ, ◌+◌, ◌∙◌, ◌≡◌, ◌≢◌, refl, ap, arith, Bool, true, false, Option, none, some, List, [], ◌∷◌, inl,
  inr, Bool-cases, ◌==◌, ==_iff, bit, if◌then◌else◌,
}
use crunch_concurrency.Thread.{
  Heap, Pointer, Effect, cancel, cancellation_point, detach, join, destroy, move, move_assign,
  nothing, joins, detaches,
}

-- What the owner does with the handle. A handle that is moved from is destroyed, and the owner goes on
-- with the new one. `assigned` moves another handle, with pointer `rhs`, onto it.
pub data HandleCall : Type 0 where
  joined : HandleCall
  detached : HandleCall
  moved : HandleCall
  cancelled : HandleCall
  assigned : (rhs : Pointer) → HandleCall

-- The calls of `pthread_join` and `pthread_detach` that a sequence of calls makes, by a thread whose own
-- object is at `current`, and then the destructor.
unfoldable pub released : List HandleCall → (current self : Pointer) → Heap → List Effect
unfolding join detach destroy move move_assign cancel
released [] current self h = (destroy self h).1 ∷ []
released (joined ∷ cs) current self h =
    let (h', self', e, thrown) = join current self h in e ∷ released cs current self' h'
released (detached ∷ cs) current self h =
    let (self', e) = detach self h in e ∷ released cs current self' h
released (moved ∷ cs) current self h =
    let (self', old) = move self in (destroy old h).1 ∷ released cs current self' (destroy old h).0
released (cancelled ∷ cs) current self h = released cs current self (cancel self h)
released (assigned rhs ∷ cs) current self h = released cs current (move_assign self rhs).0 h

-- The calls for the thread with id `i`
abbrev pub is_for : ℕ → Option ℕ → Bool
is_for i none = false
is_for i (some k) = k == i

abbrev pub releases_of : ℕ → List Effect → ℕ
releases_of i [] = 0
releases_of i (nothing ∷ es) = releases_of i es
releases_of i (joins id ∷ es) = bit (is_for i id) + releases_of i es
releases_of i (detaches id ∷ es) = bit (is_for i id) + releases_of i es

-- Another handle is assigned while this one still has its thread, with the object at `p`: before a
-- `Join` that returns, and before a `Detach`.
abbrev pub overwritten : List HandleCall → (current : Pointer) → (p : ℕ) → Heap → Bool
overwritten [] current p h = false
overwritten (joined ∷ cs) current p h =
    let (h', thrown) = cancellation_point current h in
    let later = overwritten cs current p h' in if thrown then later else false
overwritten (detached ∷ cs) current p h = false
overwritten (moved ∷ cs) current p h = overwritten cs current p h
overwritten (cancelled ∷ cs) current p h = overwritten cs current p (cancel (some p) h)
overwritten (assigned rhs ∷ cs) current p h = true

-- The ids of the objects, and the handles that are assigned: none has the thread `i`.
abbrev pub HasIds : (ids : ℕ → Option ℕ) → Heap → Type 0
HasIds ids h = (q : ℕ) → (h q).id ≡ ids q

abbrev pub IsOther : (ids : ℕ → Option ℕ) → (i : ℕ) → Pointer → Type 0
IsOther ids i none = Unit
IsOther ids i (some q) = ids q ≢ some i

abbrev pub AssignsOthers : (ids : ℕ → Option ℕ) → (i : ℕ) → List HandleCall → Type 0
AssignsOthers ids i [] = Unit
AssignsOthers ids i (assigned rhs ∷ cs) = IsOther ids i rhs × AssignsOthers ids i cs
AssignsOthers ids i (_ ∷ cs) = AssignsOthers ids i cs

is_for-other : (i : ℕ) (id : Option ℕ) → id ≢ some i → is_for i id ≡ false
is_for-other i none o = refl
is_for-other i (some k) o = elim (Bool-cases (k == i)) [
  | inl e ↦ absurd (o (ap (λ x. some x) ((==_iff k i).0 e)))
  | inr e ↦ e
]

is_for-same : (i : ℕ) (id : Option ℕ) → id ≡ some i → is_for i id ≡ true
is_for-same i id e = rw e ((==_iff i i).1 refl)

cancellation_point-HasIds :
    (ids : ℕ → Option ℕ) (current : Pointer) (h : Heap)
    → HasIds ids h
    → HasIds ids (cancellation_point current h).0
unfolding cancellation_point
cancellation_point-HasIds ids none h k q = k q
cancellation_point-HasIds ids (some p) h k q = ground (arith, ==_iff p q, k q)

cancel-HasIds :
    (ids : ℕ → Option ℕ) (self : Pointer) (h : Heap) → HasIds ids h → HasIds ids (cancel self h)
unfolding cancel
cancel-HasIds ids none h k q = k q
cancel-HasIds ids (some p) h k q = ground (arith, ==_iff p q, k q)

module _ (ids : ℕ → Option ℕ) (i : ℕ) where
  abbrev released_count : List HandleCall → Pointer → Pointer → Heap → ℕ
  released_count cs current self h = releases_of i (released cs current self h)

  other-id : (self : ℕ) (h : Heap) → HasIds ids h → ids self ≢ some i → is_for i (h self).id ≡ false
  other-id self h k o = rw (k self) (is_for-other i (ids self) o)

  released-others :
      (cs : List HandleCall) (current self : Pointer) (h : Heap)
      → HasIds ids h
      → IsOther ids i self
      → AssignsOthers ids i cs
      → released_count cs current self h ≡ 0
  unfolding released
  released-others [] current none h k o a = refl
  released-others [] current (some p) h k o a =
      ground (arith, other-id p (cancel (some p) h) (cancel-HasIds ids (some p) h k) o)
  released-others (joined ∷ cs) current none h k o a =
      let h' = (cancellation_point current h).0 in
      let same = cancellation_point-HasIds ids current h k in
      ground (arith, released-others cs current none h' same tt a)
  released-others (joined ∷ cs) current (some p) h k o a =
      let h' = (cancellation_point current h).0 in
      let same = cancellation_point-HasIds ids current h k in
      ground (
        arith,
        released-others cs current none h' same tt a,
        released-others cs current (some p) h' same o a,
        other-id p h' same o,
      )
  released-others (detached ∷ cs) current none h k o a = released-others cs current none h k tt a
  released-others (detached ∷ cs) current (some p) h k o a =
      ground (arith, released-others cs current none h k tt a, other-id p h k o)
  released-others (moved ∷ cs) current self h k o a = released-others cs current self h k o a
  released-others (cancelled ∷ cs) current self h k o a =
      released-others cs current self (cancel self h) (cancel-HasIds ids self h k) o a
  released-others (assigned rhs ∷ cs) current self h k o (other, a) =
      released-others cs current rhs h k other a

-- A handle has the thread with id `i`. Whatever is called on it, by whatever thread, and also where
-- `Join` throws: until the handle's destruction the thread is joined or detached, once in all, except
-- where another handle is assigned while this one still has the thread; then it is neither joined nor
-- detached. The handles that are assigned have other threads or none.
pub released_once :
    (ids : ℕ → Option ℕ) (i : ℕ) (cs : List HandleCall) (current : Pointer) (p : ℕ) (h : Heap)
    → HasIds ids h
    → ids p ≡ some i
    → AssignsOthers ids i cs
    → releases_of i (released cs current (some p) h) + bit (overwritten cs current p h) ≡ 1
unfolding released
released_once ids i [] current p h k e a =
    ground (arith, is_for-same i _ (cancel-HasIds ids (some p) h k p ∙ e))
released_once ids i (joined ∷ cs) current p h k e a =
    let h' = (cancellation_point current h).0 in
    let same = cancellation_point-HasIds ids current h k in
    elim (Bool-cases (cancellation_point current h).1) [
      | inl thrown ↦ ground (arith, released_once ids i cs current p h' same e a)
      | inr quiet ↦
          ground (
            arith,
            is_for-same i _ (same p ∙ e),
            released-others ids i cs current none h' same tt a,
          )
    ]
released_once ids i (detached ∷ cs) current p h k e a =
    ground (arith, is_for-same i _ (k p ∙ e), released-others ids i cs current none h k tt a)
released_once ids i (moved ∷ cs) current p h k e a = released_once ids i cs current p h k e a
released_once ids i (cancelled ∷ cs) current p h k e a =
    released_once ids i cs current p (cancel (some p) h) (cancel-HasIds ids (some p) h k) e a
released_once ids i (assigned rhs ∷ cs) current p h k e (other, a) =
    ground (arith, released-others ids i cs current rhs h k other a)
