-- ===== src/ThreadPool/Answers.antt =====
-- include/crunch/concurrency/thread_pool.hpp: what the futures of a pool answer, after any schedule.
use crunch_concurrency.Base.{
  ℕ, ◌+◌, ◌%◌, ◌^◌, ◌<◌, ◌≡◌, refl, ap, ◌∙◌, arith, Bool, true, false, Option, none, some, List, [],
  ◌++◌, has, count, count-has, count-not_has, ◌==◌, ==_iff, if◌then◌else◌, Bool-cases, inl, inr,
}
use crunch_concurrency.Base.Machine.{System, update, run, run-keeps, total}
use crunch_concurrency.Future.{get, keeps, FutureData}
use crunch_concurrency.Future.Handles.{Shared}
use crunch_concurrency.ThreadPool.{
  Memory, Pc, Choice, adds, destroys, goes_on, unborn, top, enter, asleep, woken, running, client,
  joining, destroyed, init, step, add_work_item,
}
use crunch_concurrency.ThreadPool.Accounts.{Beside, is_idle, is_born, is_ended, is_joining, runs}
use crunch_concurrency.ThreadPool.Work.{
  Accounts, mine, all_run, others, turn-Accounts, rest-Accounts, fresh, fresh-Accounts,
}
use crunch_concurrency.ThreadPool.Post.{Store, Posted, post, run_items, effect, stays, act}
use crunch_concurrency.ThreadPool.Promised.{
  answer_of, is_none, promised-outcome, taken-or-work, same-Kept, take-Same, added-Kept, run-Kept,
  rest-Kept, promised, Kept,
}

module _ {T E : Type 0} (f : ℕ → Option T) (max idle born over joins : ℕ) (items : ℕ → ℕ) where
  add_call-Kept :
      (item : ℕ) (m : Memory) (st : Store T E) (late : Bool)
      → has item m.added ≡ false
      → count item m.done ≡ 0
      → Kept f m st
      → Kept f
          (if late then m else add_work_item max item m)
          (if late then st else update st item post)
  add_call-Kept item m st true fresh unrun k = k
  add_call-Kept item m st false fresh unrun k = added-Kept f max item m st fresh unrun k

  join-Kept :
      (m : Memory) (st : Store T E) (all : Bool)
      → (all ≡ true → (a : ℕ) → count a m.done + count a m.work ≡ count a m.added)
      → Kept f m st
      → Kept f
          (if◌then◌else◌ {A = Memory × Pc} all
            (
              record m {
                done = m.done ++ m.work;
                taken = m.taken ++ m.work;
                work = [];
                gone = true;
              },
              destroyed,
            )
            (m, joining)).0
          (if all then run_items f m.work st else st)
  join-Kept m st true h k = rest-Kept f m st (h refl) k
  join-Kept m st false h k = k

  step-Kept :
      (c : Choice) (p : Pc) (m : Memory) (st : Store T E)
      → Beside max idle born over joins items m p
      → stays f p c m ≡ false
      → Kept f m st
      → Kept f (step max c p m).0 (effect f p c m st)
  unfolding step effect stays
  step-Kept c unborn m st b s k = same-Kept f m (step max c unborn m) st (ground arith) k
  step-Kept c top m st b s k = same-Kept f m (step max c top m) st (ground arith) k
  step-Kept c enter m st b s k =
      same-Kept f m (step max c enter m) st
        (take-Same m.work (record m { idle_count = (m.idle_count + 1) % 2 ^ 32 })) k
  step-Kept c asleep m st b s k = k
  step-Kept c woken m st b s k =
      same-Kept f m (step max c woken m) st (ground (arith, take-Same m.work m)) k
  step-Kept c (running item) m st b s k =
      let both = taken-or-work m item b.order in
      let once = k.0 item in
      run-Kept f item m st (ground (arith, b.run item, both, once))
        (ground (arith, b.run item, both, once)) k
  step-Kept c Pc.ended m st b s k = k
  step-Kept (adds item) client m st b s k =
      let both = taken-or-work m item b.order in
      add_call-Kept item m st m.stop s
        (omega (arith, b.run item, both, count-not_has item m.added s)) k
  step-Kept destroys client m st b s k =
      same-Kept f m (step max destroys client m) st (ground arith) k
  step-Kept goes_on client m st b s k = k
  step-Kept c joining m st b s k =
      join-Kept m st (m.ended == m.threads)
        (λ e a. ground (
          arith,
          b.apart a,
          b.starts,
          b.ends,
          b.room,
          b.run a,
          taken-or-work m a b.order,
          ==_iff m.ended m.threads,
        ))
        k
  step-Kept c destroyed m st b s k = k

module _ {T E : Type 0} (f : ℕ → Option T) (n max : ℕ) (small : n + 1 < 2 ^ 32) where
  abbrev pool_of : System (Posted T E) Pc → System Memory Pc
  pool_of s = record { mem = s.mem.pool; pc = s.pc }

  record Inv (s : System (Posted T E) Pc) : Type 0 where
    accounts : Accounts n max (pool_of s)
    kept : Kept f s.mem.pool s.mem.store

  turn-Inv :
      (s : System (Posted T E) Pc) (i : ℕ) (c : Choice)
      → i < n
      → Inv s
      → let r = act f max c (s.pc i) s.mem in Inv (record { mem = r.0; pc = update s.pc i r.1 })
  unfolding act
  turn-Inv s i c lt v =
      let pc = others n max (pool_of s) i lt in
      elim (Bool-cases (stays f (s.pc i) c s.mem.pool)) [
        | inl stay ↦ rw stay (record {
          accounts = rest-Accounts n max small (pool_of s) i lt v.accounts;
          kept = v.kept;
        })
        | inr go ↦ rw go (record {
          accounts = turn-Accounts n max small (pool_of s) i lt v.accounts c;
          kept =
              step-Kept f max (total is_idle n pc) (total is_born n pc) (total is_ended n pc)
                (total is_joining n pc) (λ a. total (runs a) n pc) c (s.pc i) s.mem.pool s.mem.store
                (mine n max (pool_of s) i lt small v.accounts) go v.kept;
        })
      ]

  -- A pool, and no function posted yet
  abbrev pub fresh_posts : (clients : ℕ → Bool) → System (Posted T E) Pc
  fresh_posts clients = record {
    mem = record { pool = (fresh clients).mem; store = λ _. none };
    pc = (fresh clients).pc;
  }

  fresh-Inv : (clients : ℕ → Bool) → Inv (fresh_posts clients)
  unfolding init
  fresh-Inv clients = record {
    accounts = fresh-Accounts n max clients;
    kept = (λ a. omega arith, λ a. refl);
  }

  module _ (clients : ℕ → Bool) (cs : List (ℕ × Choice)) where
    abbrev pub after_posts : System (Posted T E) Pc
    after_posts = run (act f max) n (fresh_posts clients) cs

    after-Inv : Inv after_posts
    after-Inv = run-keeps (act f max) n Inv turn-Inv (fresh_posts clients) cs (fresh-Inv clients)

    -- After every schedule, fewer than 2 ^ 32 - 1 threads in all: once the destructor of the pool has
    -- returned, the future of every function that was posted answers the value that the function
    -- returns, and its promise is deleted; where the function throws, its future still waits, and its
    -- promise is never deleted.
    pub posted-answers :
        after_posts.mem.pool.gone ≡ true
        → (a : ℕ) → has a after_posts.mem.pool.added ≡ true
        → (s : Shared T E) × (d : FutureData T E) × (after_posts.mem.store a ≡ some s)
          × (s.datum ≡ keeps d)
          × (get d ≡ answer_of (f a))
          × (s.promise ≡ is_none (f a))
          × (s.futures ≡ 1)
    posted-answers g a posted =
        let (once, k) = after-Inv.kept in
        let one : count a after_posts.mem.pool.added ≡ 1 =
          omega (arith, once a, count-has a after_posts.mem.pool.added posted) in
        let ran = all_run n max (pool_of after_posts) after-Inv.accounts g a ∙ one in
        let (s, d, e, i, j, l, o) = promised-outcome {E = E} f a (f a) refl in
        (
          s,
          d,
          k a
              ∙ ap (λ c. promised f a c (count a after_posts.mem.pool.done)) one
              ∙ ap (promised f a 1) ran
              ∙ e,
          i,
          j,
          l,
          o,
        )
