-- ===== src/Future/Invariants.antt =====
-- include/crunch/concurrency/promise.hpp and future.hpp: what every call on the handles of a datum keeps
-- of it, while it lives.
use crunch_concurrency.Base.{
  ℕ, ◌+◌, ◌-◌, ◌%◌, ◌^◌, ◌≡◌, subst, Bool, true, false, Option, none, some, not, if◌then◌else◌,
  List, [], ◌∷◌, ltb, ◌==◌, Bool-cases, inl, inr,
}
use crunch_concurrency.Future.{
  FutureData, set_value, set_exception, add_ref, release, Released, fails, destroyed, keeps,
}
use crunch_concurrency.Future.Handles.{
  HandleCall, sets_value, sets_exception, gets_future, copies_future, drops_future, moves_promise,
  drops_promise, Shared, copy_pointer, drop_pointer, on_datum, with_datum, call, calls,
}

-- A predicate of a datum that lives
abbrev pub Alive : {A : Type 0} → (A → Type 0) → Released A → Type 0
Alive P fails = Unit
Alive P destroyed = Unit
Alive P (keeps d) = P d

module _ {T E : Type 0} (P : FutureData T E → Type 0)
    (counts : (d : FutureData T E) (n : ℕ) → P d → P (record d { ref_count = n }))
    (sets : (d : FutureData T E) (v : T)
      → d.ready ≡ false
      → P d
      → P (record d { result = some v; ready = true }))
    (throws : (d : FutureData T E) (e : E)
      → d.ready ≡ false
      → P d
      → P (record d { exception = some e; ready = true })) where
  -- Where a step on the datum goes on, the predicate holds.
  abbrev Stays : Option (Released (FutureData T E)) → Type 0
  Stays none = Unit
  Stays (some r) = Alive P r

  copy-Stays : (r : Released (FutureData T E)) → Alive P r → Stays (copy_pointer r)
  unfolding copy_pointer add_ref
  copy-Stays fails h = tt
  copy-Stays destroyed h = tt
  copy-Stays (keeps d) h = counts d ((d.ref_count + 1) % 2 ^ 32) h

  if-Alive :
      (b : Bool) (r r' : Released (FutureData T E))
      → Alive P r
      → Alive P r'
      → Alive P (if b then r else r')
  if-Alive true r r' h k = h
  if-Alive false r r' h k = k

  release-Alive : (d : FutureData T E) → P d → Alive P (release d)
  unfolding release
  release-Alive d h =
      let less : FutureData T E = record d { ref_count = d.ref_count - 1 } in
      if-Alive (not (ltb 0 d.ref_count)) fails (if d.ref_count == 1 then destroyed else keeps less)
        tt (if-Alive (d.ref_count == 1) destroyed (keeps less) tt (counts d (d.ref_count - 1) h))

  drop-Stays : (r : Released (FutureData T E)) → Alive P r → Stays (drop_pointer r)
  unfolding drop_pointer
  drop-Stays fails h = tt
  drop-Stays destroyed h = tt
  drop-Stays (keeps d) h = released (release d) (release-Alive d h)
    where
      released :
          (r : Released (FutureData T E))
          → Alive P r
          → Stays
              (elim r [ fails ↦ none | destroyed ↦ some destroyed | keeps d' ↦ some (keeps d') ])
      released fails k = tt
      released destroyed k = tt
      released (keeps d') k = k

  value-Stays :
      (v : T) (r : Released (FutureData T E)) → Alive P r → Stays (on_datum (set_value v) r)
  unfolding on_datum set_value
  value-Stays v fails h = tt
  value-Stays v destroyed h = tt
  value-Stays v (keeps d) h = elim (Bool-cases d.ready) [
    | inl late ↦ rw late tt
    | inr early ↦ rw early (sets d v early h)
  ]

  exception-Stays :
      (e : E) (r : Released (FutureData T E)) → Alive P r → Stays (on_datum (set_exception e) r)
  unfolding on_datum set_exception
  exception-Stays e fails h = tt
  exception-Stays e destroyed h = tt
  exception-Stays e (keeps d) h = elim (Bool-cases d.ready) [
    | inl late ↦ rw late tt
    | inr early ↦ rw early (throws d e early h)
  ]

  -- The datum of what a call leaves, where it succeeds
  abbrev Kept : Option (Shared T E) → Type 0
  Kept none = Unit
  Kept (some s) = Alive P s.datum

  guarded-Kept :
      (b : Bool) (next : Option (Released (FutureData T E))) (p : Bool) (n : ℕ)
      → Stays next
      → Kept (if b then with_datum next p n else none)
  unfolding with_datum
  guarded-Kept true (some r) p n h = h
  guarded-Kept true none p n h = tt
  guarded-Kept false next p n h = tt

  if-Kept : (b : Bool) (s : Shared T E) → Alive P s.datum → Kept (if b then some s else none)
  if-Kept true s h = h
  if-Kept false s h = tt

  call-Kept : (c : HandleCall T E) (s : Shared T E) → Alive P s.datum → Kept (call c s)
  unfolding call
  call-Kept (sets_value v) s h = guarded-Kept s.promise _ true s.futures (value-Stays v s.datum h)
  call-Kept (sets_exception x) s h =
      guarded-Kept s.promise _ true s.futures (exception-Stays x s.datum h)
  call-Kept gets_future s h = guarded-Kept s.promise _ true (s.futures + 1) (copy-Stays s.datum h)
  call-Kept copies_future s h =
      guarded-Kept (ltb 0 s.futures) _ s.promise (s.futures + 1) (copy-Stays s.datum h)
  call-Kept drops_future s h =
      guarded-Kept (ltb 0 s.futures) _ s.promise (s.futures - 1) (drop-Stays s.datum h)
  call-Kept moves_promise s h = if-Kept s.promise s h
  call-Kept drops_promise s h = guarded-Kept s.promise _ false s.futures (drop-Stays s.datum h)

  then-Kept :
      (r : Option (Shared T E)) (f : Shared T E → Option (Shared T E))
      → Kept r
      → ((t : Shared T E) → Alive P t.datum → Kept (f t))
      → Kept (elim r [ none ↦ none | some t ↦ f t ])
  then-Kept none f h k = tt
  then-Kept (some t) f h k = k t h

  calls-Kept : (cs : List (HandleCall T E)) (s : Shared T E) → Alive P s.datum → Kept (calls cs s)
  unfolding calls
  calls-Kept [] s h = h
  calls-Kept (c ∷ cs) s h =
      then-Kept (call c s) (calls cs) (call-Kept c s h) λ t k. calls-Kept cs t k

  -- What the three kinds of changes keep of a datum, every sequence of calls keeps.
  pub calls-Alive :
      (cs : List (HandleCall T E)) (s s' : Shared T E)
      → Alive P s.datum
      → calls cs s ≡ some s'
      → Alive P s'.datum
  calls-Alive cs s s' h e = subst Kept e (calls-Kept cs s h)
