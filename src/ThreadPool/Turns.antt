-- ===== src/ThreadPool/Turns.antt =====
-- source/thread_pool.cpp: the destructor of the pool, and every step of it against its accounts.
use crunch_concurrency.Base.{
  ℕ, ◌+◌, ◌%◌, ◌^◌, ◌≡◌, refl, ◌∙◌, arith, Bool, true, false, [], ◌++◌, append-nil, count-append,
  ◌==◌, ==_iff, ltb, if◌then◌else◌,
}
use crunch_concurrency.ThreadPool.{
  Memory, Pc, Choice, adds, destroys, goes_on, unborn, top, enter, asleep, woken, running, client,
  joining, destroyed, step, add_work_item,
}
use crunch_concurrency.ThreadPool.Accounts.{
  Beside, After, After-if, add-Beside, take-Beside, enter-Beside, start-Beside, end-Beside,
  leave-Beside, done-Beside,
}

module _ (max idle born over joins : ℕ) (items : ℕ → ℕ) where
  stop-Beside :
      (m : Memory)
      → m.stop ≡ false
      → Beside max idle born over joins items m client
      → Beside max idle born over joins items (record m { stop = true }) joining
  stop-Beside m live b = record {
    small = b.small;
    apart = b.apart;
    idles = b.idles;
    starts = b.starts;
    ends = b.ends;
    room = b.room;
    capped = b.capped;
    late = ground (arith, b.late);
    order = b.order;
    run = b.run;
    closed = λ g. absurd (ground (arith, b.closed g));
  }

  destroy-Beside :
      (m : Memory)
      → (m.ended == m.threads) ≡ true
      → m.stop ≡ true
      → Beside max idle born over joins items m joining
      → Beside max idle born over joins items
          (record m { done = m.done ++ m.work; taken = m.taken ++ m.work; work = []; gone = true })
          destroyed
  destroy-Beside m all stopped b = record {
    small = b.small;
    apart = b.apart;
    idles = b.idles;
    starts = b.starts;
    ends = b.ends;
    room = b.room;
    capped = b.capped;
    late = b.late;
    order = append-nil (m.taken ++ m.work) ∙ b.order;
    run = λ a. omega (arith, b.run a, count-append m.done m.work a, count-append m.taken m.work a);
    closed = λ g. ((==_iff m.ended m.threads).0 all, refl, stopped);
  }

  add_call-Beside :
      (a : ℕ) (m : Memory) (late : Bool)
      → m.stop ≡ late
      → Beside max idle born over joins items m client
      → Beside max idle born over joins items (if late then m else add_work_item max a m) client
  add_call-Beside a m true e b = b
  add_call-Beside a m false e b = add-Beside max idle born over joins items a m e b

  pub step-Beside :
      (c : Choice) (p : Pc) (m : Memory)
      → Beside max idle born over joins items m p
      → After max idle born over joins items (step max c p m)
  unfolding step
  step-Beside c unborn m b =
      After-if max idle born over joins items (ltb m.started m.threads) _ _
        (λ lt. start-Beside max idle born over joins items m lt b) (λ full. b)
  step-Beside c top m b =
      After-if max idle born over joins items m.stop _ _
        (λ late. end-Beside max idle born over joins items m b)
        (λ live. record {
          small = b.small;
          apart = b.apart;
          idles = b.idles;
          starts = b.starts;
          ends = b.ends;
          room = b.room;
          capped = b.capped;
          late = b.late;
          order = b.order;
          run = b.run;
          closed = b.closed;
        })
  step-Beside c enter m b =
      take-Beside max idle born over joins items m.work
        (record m { idle_count = (m.idle_count + 1) % 2 ^ 32 }) refl
        (enter-Beside max idle born over joins items m b)
  step-Beside c asleep m b = record {
    small = b.small;
    apart = b.apart;
    idles = b.idles;
    starts = b.starts;
    ends = b.ends;
    room = b.room;
    capped = b.capped;
    late = b.late;
    order = b.order;
    run = b.run;
    closed = b.closed;
  }
  step-Beside c woken m b =
      After-if max idle born over joins items m.stop _ _
        (λ late. leave-Beside max idle born over joins items m b)
        (λ live. take-Beside max idle born over joins items m.work m refl (record {
          small = b.small;
          apart = b.apart;
          idles = b.idles;
          starts = b.starts;
          ends = b.ends;
          room = b.room;
          capped = b.capped;
          late = b.late;
          order = b.order;
          run = b.run;
          closed = b.closed;
        }))
  step-Beside c (running item) m b = done-Beside max idle born over joins items item m b
  step-Beside c Pc.ended m b = b
  step-Beside (adds a) client m b = add_call-Beside a m m.stop refl b
  step-Beside destroys client m b =
      After-if max idle born over joins items m.stop _ _ (λ late. b) (λ live. stop-Beside m live b)
  step-Beside goes_on client m b = b
  step-Beside c joining m b =
      After-if max idle born over joins items (m.ended == m.threads) _ _
        (λ all. destroy-Beside m all (ground (arith, b.late)) b) (λ some_left. b)
  step-Beside c destroyed m b = b
