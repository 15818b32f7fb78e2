-- ===== src/ThreadPool/Post.antt =====
-- include/crunch/concurrency/thread_pool.hpp: `Post` and `Runner`, over the pool and the data of the
-- futures. Each function posted has a number, and an entry of the store for its datum.
use crunch_concurrency.Base.{
  ℕ, Bool, true, false, Option, none, some, ◌&&◌, List, [], ◌∷◌, has, ◌==◌, if◌then◌else◌,
}
use crunch_concurrency.Base.Machine.{update}
use crunch_concurrency.Future.Handles.{
  Shared, new_promise, calls, gets_future, sets_value, drops_promise,
}
use crunch_concurrency.ThreadPool.{Memory, Pc, Choice, adds, client, running, joining, step}

abbrev pub Store : (T E : Type 0) → Type 0
Store T E = ℕ → Option (Shared T E)

pub record Posted (T E : Type 0) : Type 0 where
  pub pool : Memory
  pub store : Store T E

module _ {T E : Type 0} where
  -- The promise and the future of `Post`, before `AddWorkItem`
  unfoldable pub post : Option (Shared T E)
  post = calls (gets_future ∷ []) new_promise

-- `f` gives what each function returns; `none` where it throws.
module _ {T E : Type 0} (f : ℕ → Option T) where
  -- `Runner`: the function, `SetValue`, and the end of the promise. An exception passes it.
  unfoldable pub run_item : ℕ → Option (Shared T E) → Option (Shared T E)
  run_item item none = none
  run_item item (some s) = elim (f item) [
    | none ↦ some s
    | some v ↦ calls (sets_value v ∷ drops_promise ∷ []) s
  ]

  unfoldable pub run_items : List ℕ → Store T E → Store T E
  run_items [] st = st
  run_items (x ∷ xs) st = run_items xs (update st x (run_item x (st x)))

  -- What a step of the pool does to the data
  unfoldable pub effect : Pc → Choice → Memory → Store T E → Store T E
  effect client (adds item) m st = if m.stop then st else update st item post
  effect (running item) c m st = update st item (run_item item (st item))
  effect joining c m st = if m.ended == m.threads then run_items m.work st else st
  effect p c m st = st

module _ {T : Type 0} (f : ℕ → Option T) where
  unfoldable pub throws_in : List ℕ → Bool
  throws_in [] = false
  throws_in (x ∷ xs) = elim (f x) [ none ↦ true | some v ↦ throws_in xs ]

  -- A number is given to one function only. An exception that leaves the destructor ends the program:
  -- the destructor never returns.
  unfoldable pub stays : Pc → Choice → Memory → Bool
  stays client (adds item) m = has item m.added
  stays joining c m = (m.ended == m.threads) && throws_in m.work
  stays p c m = false

-- `max` is `mMaxThreadCount`.
module _ {T E : Type 0} (f : ℕ → Option T) (max : ℕ) where
  unfoldable pub act : Choice → Pc → Posted T E → Posted T E × Pc
  act c p s = if stays f p c s.pool then (s, p) else (
    record { pool = (step max c p s.pool).0; store = effect f p c s.pool s.store },
    (step max c p s.pool).1,
  )
