-- ===== src/ThreadPool/Accounts.antt =====
-- source/thread_pool.cpp: what one step of the pool keeps.
use crunch_concurrency.Base.{
  ℕ, ◌+◌, ◌-◌, ◌%◌, ◌^◌, ◌<◌, ◌≤◌, ◌≡◌, refl, ap, ◌∙◌, sym, arith, Bool, true, false, List, [], ◌∷◌,
  ◌++◌, append_assoc, count, count-append, bit, ◌==◌, ltb, if◌then◌else◌,
}
use crunch_concurrency.ThreadPool.{
  Memory, Pc, unborn, top, enter, asleep, woken, running, client, joining, destroyed, take_or_wait,
  add_work_item,
}

-- The thread is counted in `mIdleThreadCount`.
abbrev pub is_idle : Pc → ℕ
is_idle asleep = 1
is_idle woken = 1
is_idle _ = 0

abbrev pub is_born : Pc → ℕ
is_born top = 1
is_born enter = 1
is_born asleep = 1
is_born woken = 1
is_born (running _) = 1
is_born Pc.ended = 1
is_born _ = 0

abbrev pub is_ended : Pc → ℕ
is_ended Pc.ended = 1
is_ended _ = 0

abbrev pub runs : ℕ → Pc → ℕ
runs a (running b) = bit (b == a)
runs a _ = 0

-- The thread is in the destructor, or has been.
abbrev pub is_joining : Pc → ℕ
is_joining joining = 1
is_joining destroyed = 1
is_joining _ = 0

-- The accounts of the pool, with one thread at `p`, and the sums over the other threads.
pub record Beside (max idle born over joins : ℕ) (items : ℕ → ℕ) (m : Memory) (p : Pc)
    : Type 0 where
  pub small : idle + 1 < 2 ^ 32
  pub apart : (a : ℕ) → items a + over ≤ born
  pub idles : m.idle_count ≡ is_idle p + idle
  pub starts : m.started ≡ is_born p + born
  pub ends : m.ended ≡ is_ended p + over
  pub room : m.started ≤ m.threads
  pub capped : m.threads ≤ max
  pub late : is_joining p + joins ≤ bit m.stop
  pub order : m.taken ++ m.work ≡ m.added
  pub run : (a : ℕ) → count a m.done + runs a p + items a ≡ count a m.taken
  pub closed : m.gone ≡ true → (m.ended ≡ m.threads) × (m.work ≡ []) × (m.stop ≡ true)

module _ (max idle born over joins : ℕ) (items : ℕ → ℕ) where
  abbrev pub After : Memory × Pc → Type 0
  After (m, p) = Beside max idle born over joins items m p

  pub After-if :
      (t : Bool) (x y : Memory × Pc)
      → (t ≡ true → After x)
      → (t ≡ false → After y)
      → After (if t then x else y)
  After-if true x y h k = h refl
  After-if false x y h k = k refl

  pub add-Beside :
      (a : ℕ) (m : Memory)
      → m.stop ≡ false
      → Beside max idle born over joins items m client
      → Beside max idle born over joins items (add_work_item max a m) client
  unfolding add_work_item
  add-Beside a m live b = record {
    small = b.small;
    apart = b.apart;
    idles = b.idles;
    starts = b.starts;
    ends = b.ends;
    room = ground (arith, b.room);
    capped = ground (arith, b.capped);
    late = b.late;
    order = sym (append_assoc m.taken m.work (a ∷ [])) ∙ ap (λ xs. xs ++ a ∷ []) b.order;
    run = b.run;
    closed = λ g. absurd (ground (arith, b.closed g));
  }

  pub take-Beside :
      (xs : List ℕ) (m : Memory)
      → m.work ≡ xs
      → Beside max idle born over joins items m asleep
      → After (take_or_wait xs m)
  unfolding take_or_wait
  take-Beside [] m e b = b
  take-Beside (x ∷ xs) m e b = record {
    small = b.small;
    apart = b.apart;
    idles = omega (arith, b.small, b.idles);
    starts = b.starts;
    ends = b.ends;
    room = b.room;
    capped = b.capped;
    late = b.late;
    order = append_assoc m.taken (x ∷ []) xs ∙ ap (λ ys. m.taken ++ ys) (sym e) ∙ b.order;
    run = λ a. omega (arith, b.run a, count-append m.taken (x ∷ []) a);
    closed = λ g. absurd (omega (arith, (b.closed g).0, b.apart 0));
  }

  pub enter-Beside :
      (m : Memory)
      → Beside max idle born over joins items m enter
      → Beside max idle born over joins items
          (record m { idle_count = (m.idle_count + 1) % 2 ^ 32 })
          asleep
  enter-Beside m b = record {
    small = b.small;
    apart = b.apart;
    idles = omega (arith, b.small, b.idles);
    starts = b.starts;
    ends = b.ends;
    room = b.room;
    capped = b.capped;
    late = b.late;
    order = b.order;
    run = b.run;
    closed = b.closed;
  }

  pub start-Beside :
      (m : Memory)
      → ltb m.started m.threads ≡ true
      → Beside max idle born over joins items m unborn
      → Beside max idle born over joins items (record m { started = m.started + 1 }) top
  start-Beside m lt b = record {
    small = b.small;
    apart = b.apart;
    idles = b.idles;
    starts = omega (arith, b.starts);
    ends = b.ends;
    room = ground arith;
    capped = b.capped;
    late = b.late;
    order = b.order;
    run = b.run;
    closed = λ g. absurd (ground (arith, b.closed g, b.apart 0));
  }

  pub end-Beside :
      (m : Memory)
      → Beside max idle born over joins items m top
      → Beside max idle born over joins items (record m { ended = m.ended + 1 }) Pc.ended
  end-Beside m b = record {
    small = b.small;
    apart = b.apart;
    idles = b.idles;
    starts = b.starts;
    ends = omega (arith, b.ends);
    room = b.room;
    capped = b.capped;
    late = b.late;
    order = b.order;
    run = b.run;
    closed = λ g. absurd (omega (arith, (b.closed g).0, b.apart 0));
  }

  pub leave-Beside :
      (m : Memory)
      → Beside max idle born over joins items m woken
      → Beside max idle born over joins items
          (record m { idle_count = (m.idle_count + 2 ^ 32 - 1) % 2 ^ 32; ended = m.ended + 1 })
          Pc.ended
  leave-Beside m b = record {
    small = b.small;
    apart = b.apart;
    idles = omega (arith, b.small, b.idles);
    starts = b.starts;
    ends = omega (arith, b.ends);
    room = b.room;
    capped = b.capped;
    late = b.late;
    order = b.order;
    run = b.run;
    closed = λ g. absurd (omega (arith, (b.closed g).0, b.apart 0));
  }

  pub done-Beside :
      (item : ℕ) (m : Memory)
      → Beside max idle born over joins items m (running item)
      → Beside max idle born over joins items (record m { done = m.done ++ item ∷ [] }) top
  done-Beside item m b = record {
    small = b.small;
    apart = b.apart;
    idles = b.idles;
    starts = b.starts;
    ends = b.ends;
    room = b.room;
    capped = b.capped;
    late = b.late;
    order = b.order;
    run = λ a. omega (arith, b.run a, count-append m.done (item ∷ []) a);
    closed = b.closed;
  }
