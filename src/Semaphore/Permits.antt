-- ===== src/Semaphore/Permits.antt =====
-- source/semaphore.cpp under interleaving: no permit is made up.
use crunch_concurrency.Base.{
  ℕ, ◌+◌, ◌-◌, ◌%◌, ◌^◌, ◌<◌, ◌≤◌, ◌≡◌, if◌then◌else◌, refl, ap, List, [], ◌∷◌, arith, length,
  length-append,
}
use crunch_concurrency.Base.Machine.{
  System, update, run, run-keeps, total, total-update, total-eq-zero,
}
use crunch_concurrency.WaiterList.Remove.{Remove, remove_step-notified}
use crunch_concurrency.Semaphore.Steps.{
  Memory, Pc, idle, post, post_load, post_loop, post_pop, post_notify, post_done, add, add_load,
  add_loop, add_link, added, removing, Choice, posts, adds, removes, goes_on, init, start, step,
  is_positive,
}

-- A `Post` that may still notify.
abbrev pub posting : Pc → ℕ
posting post_load = 1
posting (post_loop _) = 1
posting (post_pop _ _) = 1
posting (post_notify _) = 1
posting _ = 0

-- The permits that an `AddWaiter` can take now.
abbrev pub available : Memory → ℕ
available m = if is_positive m.count then m.count else 0

-- What a step adds to both sides of the account.
record Paid (m : Memory) (p : Pc) (r : Memory × Pc) : Type 0 where
  posts_grow : m.posts ≤ r.0.posts
  adds_grow : m.adds ≤ r.0.adds
  counted : (m.count + m.adds + r.0.posts) % 2 ^ 32 ≡ (r.0.count + r.0.adds + m.posts) % 2 ^ 32
  range : r.0.count < 2 ^ 32
  account :
      (m.count ≡ 2 ^ 31 - 1 → r.0.posts ≡ m.posts)
      → (m.count ≡ 2 ^ 31 → r.0.adds ≡ m.adds)
      → available r.0 + r.0.acquired + length r.0.waiters.notified + posting r.1 + m.posts
        ≤ available m + m.acquired + length m.waiters.notified + posting p + r.0.posts

start-posting : (c : Choice) → posting (start c) ≡ 0
unfolding start
start-posting (adds w) = ground arith
start-posting (removes w) = refl
start-posting posts = refl
start-posting goes_on = refl

step-Paid : (c : Choice) (p : Pc) (m : Memory) → m.count < 2 ^ 32 → Paid m p (step c p m)
unfolding step
step-Paid c idle m h = ground (arith, start-posting c)
step-Paid c post m h = ground arith
step-Paid c post_load m h = ground arith
step-Paid c (post_loop head) m h = ground arith
step-Paid c (post_pop head next) m h = ground arith
step-Paid c (post_notify w) m h = ground (arith, length-append m.waiters.notified (w ∷ []))
step-Paid c post_done m h = ground (arith, start-posting c)
step-Paid c (add w) m h = ground arith
step-Paid c (add_load w) m h = ground arith
step-Paid c (add_loop head w) m h = ground arith
step-Paid c (add_link head w) m h = ground arith
step-Paid c (added answer) m h = ground (arith, start-posting c)
step-Paid c (removing (Remove.done answer)) m h = ground (arith, start-posting c)
step-Paid c (removing r) m h =
    ground (arith, ap (λ xs. length {A = ℕ} xs) (remove_step-notified r m.waiters))

-- The account of a system of `n` threads that began with `initial` permits. It holds while the count
-- cannot have wrapped.
record Inv (n initial : ℕ) (s : System Memory Pc) : Type 0 where
  range : s.mem.count < 2 ^ 32
  counted : (s.mem.count + s.mem.adds) % 2 ^ 32 ≡ (initial + s.mem.posts) % 2 ^ 32
  account :
      initial + s.mem.posts < 2 ^ 31
      → s.mem.adds < 2 ^ 31
      → available s.mem + s.mem.acquired + length s.mem.waiters.notified + total posting n s.pc
        ≤ initial + s.mem.posts

-- A semaphore with `initial` permits, and threads that have not called it.
abbrev pub fresh : ℕ → System Memory Pc
fresh initial = record { mem = init initial; pc = λ _. idle }

fresh-Inv : (n initial : ℕ) → Inv n initial (fresh initial)
unfolding init
fresh-Inv n initial = record {
  range = omega arith;
  counted = omega arith;
  account = λ a b. ground (arith, total-eq-zero posting n idle refl);
}

turn-Inv :
    (n initial : ℕ) (s : System Memory Pc) (i : ℕ) (c : Choice)
    → i < n
    → Inv n initial s
    → let r = step c (s.pc i) s.mem in Inv n initial (record { mem = r.0; pc = update s.pc i r.1 })
turn-Inv n initial s i c lt v = record {
  range = paid.range;
  counted = omega (arith, paid.counted, v.counted);
  account = λ a b.
      let old = v.account (omega (arith, a, paid.posts_grow)) (omega (arith, b, paid.adds_grow)) in
      let top : s.mem.count ≡ 2 ^ 31 - 1 → r.0.posts ≡ s.mem.posts =
        λ e. omega (arith, e, a, b, paid.posts_grow, paid.adds_grow, v.counted) in
      let bottom : s.mem.count ≡ 2 ^ 31 → r.0.adds ≡ s.mem.adds =
        λ e. omega (arith, e, a, b, paid.posts_grow, paid.adds_grow, v.counted) in
      omega (arith, old, paid.account top bottom, total-update posting n s.pc i r.1 lt);
}
  where
    r : Memory × Pc
    r = step c (s.pc i) s.mem

    paid : Paid s.mem (s.pc i) r
    paid = step-Paid c (s.pc i) s.mem v.range

-- After every schedule of `n` threads in which fewer than 2 ^ 31 permits have been put in and fewer
-- than 2 ^ 31 waiters added: the permits that can be taken now, the calls of `AddWaiter` that
-- returned false and the notifications made are together at most the initial count and the calls of
-- `Post`.
pub grants-le-posts :
    (n initial : ℕ) (cs : List (ℕ × Choice))
    → initial + (run step n (fresh initial) cs).mem.posts < 2 ^ 31
    → (run step n (fresh initial) cs).mem.adds < 2 ^ 31
    → let m = (run step n (fresh initial) cs).mem in
      available m + m.acquired + length m.waiters.notified ≤ initial + m.posts
grants-le-posts n initial cs a b = omega (
  arith,
  (run-keeps step n (Inv n initial) (turn-Inv n initial) (fresh initial) cs
        (fresh-Inv n initial)).account
      a b,
)
