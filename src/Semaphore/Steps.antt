-- ===== src/Semaphore/Steps.antt =====
-- source/semaphore.cpp, an access of shared memory at a time. `mCount` is an `int32_t`, kept as its
-- bit pattern.
use crunch_concurrency.Base.{
  ℕ, ◌+◌, ◌-◌, ◌%◌, ◌^◌, [], Bool, true, false, ◌==◌, if◌then◌else◌, ltb, leb, ◌&&◌,
}
use crunch_concurrency.WaiterList.Packed.{get_pointer, set_pointer, add_aba, has_lock, is_waiter}
use crunch_concurrency.WaiterList.Memory.{Waiters, cas, link, notify}
use crunch_concurrency.WaiterList.Remove.{Remove, remove_step}

-- The fields of the class, and three counts that only the proofs read: the calls of `Post`, the calls
-- of `AddWaiter`, and those of them that returned false.
pub record Memory : Type 0 where
  pub count : ℕ
  pub waiters : Waiters
  pub posts : ℕ
  pub adds : ℕ
  pub acquired : ℕ

-- `Semaphore::Semaphore`
unfoldable pub init : ℕ → Memory
init initial_count = record {
  count = initial_count % 2 ^ 32;
  waiters = record { word = 0; next = λ _. 0; notified = [] };
  posts = 0;
  adds = 0;
  acquired = 0;
}

-- The sign of an `int32_t`.
abbrev pub is_negative : ℕ → Bool
is_negative c = leb (2 ^ 31) c

abbrev pub is_positive : ℕ → Bool
is_positive c = ltb 0 c && ltb c (2 ^ 31)

-- Where a thread stands, with its locals.
pub data Pc : Type 0 where
  idle : Pc
  post : Pc  -- `Post`: before the increment
  post_load : Pc
  post_loop : (head : ℕ) → Pc
  post_pop : (head next : ℕ) → Pc  -- before the compare-and-swap that pops
  post_notify : (waiter : ℕ) → Pc
  post_done : Pc  -- `Post` has returned
  add : (waiter : ℕ) → Pc  -- `AddWaiter`: before the decrement
  add_load : (waiter : ℕ) → Pc
  add_loop : (head waiter : ℕ) → Pc
  add_link : (head waiter : ℕ) → Pc  -- `waiter->next` is set: before the compare-and-swap
  added : (answer : Bool) → Pc  -- `AddWaiter` has returned
  removing : (call : Remove) → Pc

pub data Choice : Type 0 where
  adds removes : (waiter : ℕ) → Choice
  posts goes_on : Choice

unfoldable pub start : Choice → Pc
start (adds w) = if is_waiter w then add w else idle
start (removes w) = removing (Remove.load w)
start posts = post
start goes_on = idle

-- A step that touches the waiter list only.
abbrev pub with_waiters : Memory → Waiters × Pc → Memory × Pc
with_waiters m (ws, p) = (record m { waiters = ws }, p)

-- One step of a thread. `Increment` and `Decrement` return the old value.
unfoldable pub step : Choice → Pc → Memory → Memory × Pc
step c idle m = (m, start c)
step c post m = (
  record m { count = (m.count + 1) % 2 ^ 32; posts = m.posts + 1 },
  if is_negative m.count then post_load else post_done,
)
step c post_load m = (m, post_loop m.waiters.word)
step c (post_loop head) m = if get_pointer head == 0 then (m, post_done) else (
  m,
  if has_lock head then post_loop head else post_pop head (m.waiters.next (get_pointer head)),
)
step c (post_pop head next) m = with_waiters m (
    cas m.waiters head (add_aba (set_pointer head next)) (post_notify (get_pointer head)) post_loop)
step c (post_notify w) m = (record m { waiters = notify m.waiters w }, post_done)
step c post_done m = (m, start c)
step c (add w) m = (
  record m {
    count = (m.count + 2 ^ 32 - 1) % 2 ^ 32;
    adds = m.adds + 1;
    acquired = if is_positive m.count then m.acquired + 1 else m.acquired;
  },
  if is_positive m.count then added false else add_load w,
)
step c (add_load w) m = (m, add_loop m.waiters.word w)
step c (add_loop head w) m =
    (record m { waiters = link m.waiters w (get_pointer head) }, add_link head w)
step c (add_link head w) m =
    with_waiters m
      (cas m.waiters head (add_aba (set_pointer head w)) (added true) (λ met. add_loop met w))
step c (added answer) m = (m, start c)
step c (removing (Remove.done answer)) m = (m, start c)
step c (removing r) m =
    let (ws, r') = remove_step r m.waiters in (record m { waiters = ws }, removing r')
