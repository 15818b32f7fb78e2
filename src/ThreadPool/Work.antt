-- ===== src/ThreadPool/Work.antt =====
-- source/thread_pool.cpp: the work of a pool and its threads, after any schedule.
use crunch_concurrency.Base.{
  ℕ, zero, suc, ◌+◌, ◌^◌, ◌<◌, ◌≤◌, ◌≡◌, refl, ap, ◌∙◌, sym, arith, Bool, true, List, [], ◌++◌,
  append-nil, count, bit, if◌then◌else◌,
}
use crunch_concurrency.Base.Machine.{System, update, run, run-keeps, total, total-update}
use crunch_concurrency.Base.Totals.{total-le, total-add, total-bound}
use crunch_concurrency.ThreadPool.{
  Memory, Pc, Choice, init, unborn, client, destroyed, top, enter, asleep, woken, running, joining,
  step,
}
use crunch_concurrency.ThreadPool.Accounts.{is_idle, is_born, is_ended, is_joining, runs, Beside}
use crunch_concurrency.ThreadPool.Turns.{step-Beside}

runs-born : (a : ℕ) (p : Pc) → runs a p + is_ended p ≤ is_born p
runs-born a unborn = omega arith
runs-born a top = omega arith
runs-born a enter = omega arith
runs-born a asleep = omega arith
runs-born a woken = omega arith
runs-born a (running item) = ground arith
runs-born a Pc.ended = omega arith
runs-born a client = omega arith
runs-born a joining = omega arith
runs-born a destroyed = omega arith

is_idle-le : (p : Pc) → is_idle p ≤ 1
is_idle-le unborn = omega arith
is_idle-le asleep = omega arith
is_idle-le woken = omega arith
is_idle-le p = omega arith

born-le :
    (n : ℕ) (pc : ℕ → Pc) (a : ℕ) → total (runs a) n pc + total is_ended n pc ≤ total is_born n pc
born-le n pc a = omega (
  arith,
  total-add (runs a) is_ended n pc,
  total-le (λ p. runs a p + is_ended p) is_born n pc (runs-born a),
)

-- The accounts of the whole pool.
pub record Accounts (n max : ℕ) (s : System Memory Pc) : Type 0 where
  pub idles : s.mem.idle_count ≡ total is_idle n s.pc
  pub starts : s.mem.started ≡ total is_born n s.pc
  pub ends : s.mem.ended ≡ total is_ended n s.pc
  pub room : s.mem.started ≤ s.mem.threads
  pub capped : s.mem.threads ≤ max
  pub late : total is_joining n s.pc ≤ bit s.mem.stop
  pub order : s.mem.taken ++ s.mem.work ≡ s.mem.added
  pub run_once : (a : ℕ) → count a s.mem.done + total (runs a) n s.pc ≡ count a s.mem.taken
  pub closed :
      s.mem.gone ≡ true → (s.mem.ended ≡ s.mem.threads) × (s.mem.work ≡ []) × (s.mem.stop ≡ true)

-- Where the destructor has returned, nothing that was added is left to run.
pub all_run :
    (n max : ℕ) (s : System Memory Pc)
    → Accounts n max s
    → s.mem.gone ≡ true
    → (a : ℕ) → count a s.mem.done ≡ count a s.mem.added
all_run n max s v g a =
    let (all, none_left, stopped) = v.closed g in
    let same = sym v.order ∙ ap (λ w. s.mem.taken ++ w) none_left ∙ append-nil s.mem.taken in
    omega (arith, v.run_once a, v.starts, v.ends, v.room, all, ap (count a) same, born-le n s.pc a)

module _ (n max : ℕ) (s : System Memory Pc) (i : ℕ) (lt : i < n) where
  abbrev pub others : ℕ → Pc
  others = update s.pc i client

  -- The sum of a weight that a client has not: this thread's, and that of the others.
  split : (w : Pc → ℕ) → w client ≡ 0 → total w n s.pc ≡ w (s.pc i) + total w n others
  split w z = omega (arith, total-update w n s.pc i client lt)

  joined :
      (w : Pc → ℕ) (p : Pc) → w client ≡ 0 → total w n (update s.pc i p) ≡ w p + total w n others
  joined w p z = omega (arith, total-update w n s.pc i client lt, total-update w n s.pc i p lt)

  abbrev pub Mine : Memory → Pc → Type 0
  Mine =
      Beside max (total is_idle n others) (total is_born n others) (total is_ended n others)
        (total is_joining n others) (λ a. total (runs a) n others)

  pub mine : n + 1 < 2 ^ 32 → Accounts n max s → Mine s.mem (s.pc i)
  mine small v = record {
    small = omega (arith, total-bound is_idle n others is_idle-le);
    apart = λ a. omega (
      arith,
      total-add (runs a) is_ended n others,
      total-le (λ p. runs a p + is_ended p) is_born n others (runs-born a),
    );
    idles = v.idles ∙ split is_idle refl;
    starts = v.starts ∙ split is_born refl;
    ends = v.ends ∙ split is_ended refl;
    room = v.room;
    capped = v.capped;
    late = omega (arith, v.late, split is_joining refl);
    order = v.order;
    run = λ a. omega (arith, v.run_once a, split (runs a) refl);
    closed = v.closed;
  }

  all_of :
      (m : Memory) (p : Pc) → Mine m p → Accounts n max (record { mem = m; pc = update s.pc i p })
  all_of m p b = record {
    idles = omega (arith, b.idles, joined is_idle p refl);
    starts = omega (arith, b.starts, joined is_born p refl);
    ends = omega (arith, b.ends, joined is_ended p refl);
    room = b.room;
    capped = b.capped;
    late = omega (arith, b.late, joined is_joining p refl);
    order = b.order;
    run_once = λ a. omega (arith, b.run a, joined (runs a) p refl);
    closed = b.closed;
  }

module _ (n max : ℕ) (small : n + 1 < 2 ^ 32) (s : System Memory Pc) (i : ℕ) (lt : i < n)
    (v : Accounts n max s) where
  pub turn-Accounts :
      (c : Choice)
      → let r = step max c (s.pc i) s.mem in
        Accounts n max (record { mem = r.0; pc = update s.pc i r.1 })
  turn-Accounts c =
      let r = step max c (s.pc i) s.mem in
      let pc = others n max s i lt in
      all_of n max s i lt r.0 r.1 (
        step-Beside max (total is_idle n pc) (total is_born n pc) (total is_ended n pc)
          (total is_joining n pc) (λ a. total (runs a) n pc) c (s.pc i) s.mem
          (mine n max s i lt small v))

  pub rest-Accounts : Accounts n max (record { mem = s.mem; pc = update s.pc i (s.pc i) })
  rest-Accounts = all_of n max s i lt s.mem (s.pc i) (mine n max s i lt small v)

-- The pool at its construction. Thread `i` is a client where `clients i` says so.
abbrev pub fresh : (clients : ℕ → Bool) → System Memory Pc
fresh clients = record { mem = init; pc = λ i. if clients i then client else unborn }

none_at_first :
    (w : Pc → ℕ) (clients : ℕ → Bool) (n : ℕ)
    → w client ≡ 0
    → w unborn ≡ 0
    → total w n (λ i. if clients i then client else unborn) ≡ 0
unfolding total
none_at_first w clients zero c u = refl
none_at_first w clients (suc n) c u = ground (arith, none_at_first w clients n c u)

pub fresh-Accounts : (n max : ℕ) (clients : ℕ → Bool) → Accounts n max (fresh clients)
unfolding init
fresh-Accounts n max clients = record {
  idles = sym (none_at_first is_idle clients n refl refl);
  starts = sym (none_at_first is_born clients n refl refl);
  ends = sym (none_at_first is_ended clients n refl refl);
  room = omega arith;
  capped = omega arith;
  late = omega (arith, none_at_first is_joining clients n refl refl);
  order = refl;
  run_once = λ a. omega (arith, none_at_first (runs a) clients n refl refl);
  closed = λ g. absurd (ground arith);
}

module _ (n max : ℕ) (clients : ℕ → Bool) (cs : List (ℕ × Choice)) (small : n + 1 < 2 ^ 32) where
  abbrev pub after : System Memory Pc
  after = run (step max) n (fresh clients) cs

  after-Accounts : Accounts n max after
  after-Accounts =
      run-keeps (step max) n (Accounts n max) (λ s i c lt v. turn-Accounts n max small s i lt v c)
        (fresh clients) cs (fresh-Accounts n max clients)

  -- After every schedule, fewer than 2 ^ 32 - 1 threads in all: the items that were taken and then those
  -- still in the queue are the items added, in their order; no item has been run more often than it was
  -- taken; the pool has at most `mMaxThreadCount` threads; and `mIdleThreadCount` is the number of
  -- threads that wait for work.
  pub work_in_order :
      (after.mem.taken ++ after.mem.work ≡ after.mem.added)
      × ((a : ℕ) → count a after.mem.done ≤ count a after.mem.taken)
      × (after.mem.threads ≤ max)
      × (after.mem.idle_count ≡ total is_idle n after.pc)
  work_in_order =
      let v = after-Accounts in (v.order, λ a. omega (arith, v.run_once a), v.capped, v.idles)

  -- Once the destructor has returned, every item that was added has been run, as often as it was added,
  -- and no thread of the pool is left.
  pub gone-all_run :
      after.mem.gone ≡ true
      → ((a : ℕ) → count a after.mem.done ≡ count a after.mem.added)
        × (total is_ended n after.pc ≡ total is_born n after.pc)
  gone-all_run g =
      let v = after-Accounts in
      let (all, none_left, stopped) = v.closed g in
      (all_run n max after v g, omega (arith, v.starts, v.ends, v.room, all, born-le n after.pc 0))
