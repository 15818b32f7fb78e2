-- ===== src/Meta/Loop/Counts.antt =====
-- The counts of the loop of `ContextImpl::Run` in source/meta_scheduler.cpp.
use crunch_concurrency.Base.{
  ℕ, suc, ◌+◌, ◌^◌, ◌<◌, ◌≤◌, ◌≡◌, refl, ap, sym, ◌∙◌, arith, Bool, true, false, Option, none, some,
  List, [], ◌∷◌, ◌++◌, ◌==◌, if◌then◌else◌, length, length-append, Bool-cases, inl, inr,
}
use crunch_concurrency.Meta.Loop.{
  State, idle, working, polling, Scheduler, Loop, is_idle, is_polling, init, init_loop, signal,
  notify_ready, signaled, asleep, begin_round, visit, Choice, runs, notifies, step, run, visit_next,
}

-- How many schedulers polled when they last ran.
abbrev pub pollers : List Scheduler → ℕ
pollers [] = 0
pollers (s ∷ ss) = (if is_polling s.last then 1 else 0) + pollers ss

-- No scheduler of the list is idle.
abbrev pub AllBusy : List Scheduler → Type 0
AllBusy [] = Unit
AllBusy (s ∷ ss) = (is_idle s.last ≡ false) × AllBusy ss

-- `bound` is the number of schedulers.
pub record Inv (bound : ℕ) (l : Loop) : Type 0 where
  pub small : bound < 2 ^ 64
  pub all : length l.visited + length l.pending + length l.idle_schedulers ≡ bound
  pub busy_visited : AllBusy l.visited
  pub busy_pending : AllBusy l.pending
  pub active :
      l.active_count ≡ length l.visited + length l.pending + length (signaled l.idle_schedulers)
  pub polls : l.polling_count ≡ pollers l.visited + pollers l.pending
  pub quiet : pollers l.idle_schedulers ≡ 0

pollers-append : (xs ys : List Scheduler) → pollers (xs ++ ys) ≡ pollers xs + pollers ys
pollers-append [] ys = omega arith
pollers-append (x ∷ xs) ys = omega (arith, pollers-append xs ys)

pollers-le : (xs : List Scheduler) → pollers xs ≤ length xs
pollers-le [] = omega arith
pollers-le (x ∷ xs) = ground (arith, pollers-le xs)

AllBusy-append : (xs ys : List Scheduler) → AllBusy xs → AllBusy ys → AllBusy (xs ++ ys)
AllBusy-append [] ys h k = k
AllBusy-append (x ∷ xs) ys h k = (h.0, AllBusy-append xs ys h.1 k)

AllBusy-signaled : (xs : List Scheduler) → AllBusy (signaled xs)
unfolding signaled
AllBusy-signaled [] = tt
AllBusy-signaled (x ∷ xs) = ground (arith, AllBusy-signaled xs)

length-signaled : (xs : List Scheduler) → length (signaled xs) + length (asleep xs) ≡ length xs
unfolding signaled asleep
length-signaled [] = refl
length-signaled (x ∷ xs) = ground (arith, length-signaled xs)

pollers-signaled : (xs : List Scheduler) → pollers (signaled xs) ≤ pollers xs
unfolding signaled
pollers-signaled [] = omega arith
pollers-signaled (x ∷ xs) = ground (arith, pollers-signaled xs)

pollers-asleep : (xs : List Scheduler) → pollers (asleep xs) ≤ pollers xs
unfolding asleep
pollers-asleep [] = omega arith
pollers-asleep (x ∷ xs) = ground (arith, pollers-asleep xs)

signaled-asleep : (xs : List Scheduler) → signaled (asleep xs) ≡ []
unfolding signaled asleep
signaled-asleep [] = refl
signaled-asleep (x ∷ xs) = ground (arith, signaled-asleep xs)

signaled-append :
    (xs ys : List Scheduler)
    → length (signaled (xs ++ ys)) ≡ length (signaled xs) + length (signaled ys)
unfolding signaled
signaled-append [] ys = omega arith
signaled-append (x ∷ xs) ys = ground (arith, signaled-append xs ys)

-- What a callback does to the idle schedulers.
record Woken (xs ys : List Scheduler) : Type 0 where
  size : length ys ≡ length xs
  one_more : length (signaled ys) ≡ suc (length (signaled xs))
  polls : pollers ys ≡ pollers xs

signal-Woken : (i : ℕ) (xs ys : List Scheduler) → signal i xs ≡ some ys → Woken xs ys
unfolding signal signaled
signal-Woken i [] ys e = cc
signal-Woken i (x ∷ xs) ys e = go (signal i xs) refl (signal-Woken i xs)
  where
    go :
        (o : Option (List Scheduler))
        → signal i xs ≡ o
        → ((zs : List Scheduler) → signal i xs ≡ some zs → Woken xs zs)
        → Woken (x ∷ xs) ys
    go none q rec = ground arith
    go (some zs) q rec = ground (arith, rec zs q)

notify_ready-Inv : (n i : ℕ) (l : Loop) → Inv n l → Inv n (notify_ready i l)
unfolding notify_ready
notify_ready-Inv n i l v = go (signal i l.idle_schedulers) refl
  where
    go : (o : Option (List Scheduler)) → signal i l.idle_schedulers ≡ o → Inv n (notify_ready i l)
    go none q = rw (q, notify_ready) v
    go (some ss) q =
        rw (q, notify_ready)
          (ground (
            arith,
            signal-Woken i l.idle_schedulers ss q,
            length-signaled l.idle_schedulers,
            length-signaled ss,
          ))

begin_round-Inv : (n : ℕ) (l : Loop) → Inv n l → Inv n (begin_round l)
unfolding begin_round
begin_round-Inv n l v = elim (Bool-cases (l.active_count == length (l.visited ++ l.pending))) [
  | inl e ↦
      rw (e, begin_round)
        (ground (
          arith,
          length-append l.visited l.pending,
          pollers-append l.visited l.pending,
          AllBusy-append l.visited l.pending,
        ))
  | inr e ↦
      let active = l.visited ++ l.pending in
      rw (e, begin_round)
        (ground (
          arith,
          length-append l.visited l.pending,
          pollers-append l.visited l.pending,
          AllBusy-append l.visited l.pending,
          length-append active (signaled l.idle_schedulers),
          pollers-append active (signaled l.idle_schedulers),
          AllBusy-append active (signaled l.idle_schedulers),
          AllBusy-signaled l.idle_schedulers,
          length-signaled l.idle_schedulers,
          pollers-signaled l.idle_schedulers,
          pollers-asleep l.idle_schedulers,
          signaled-asleep l.idle_schedulers,
        ))
]

visit-Inv :
    (n : ℕ) (state : State) (added : Bool) (s : Scheduler) (rest : List Scheduler) (l : Loop)
    → l.pending ≡ s ∷ rest
    → Inv n l
    → Inv n (visit state added s rest l)
unfolding visit signaled
visit-Inv n idle true s rest l e v = ground (
  arith,
  length-append l.idle_schedulers (record s { last = idle } ∷ []),
  length-signaled l.idle_schedulers,
  signaled-append l.idle_schedulers (record s { last = idle } ∷ []),
  pollers-append l.idle_schedulers (record s { last = idle } ∷ []),
  pollers-le l.visited,
  pollers-le rest,
)
visit-Inv n idle false s rest l e v = ground (
  arith,
  length-append l.visited (record s { last = working } ∷ []),
  pollers-append l.visited (record s { last = working } ∷ []),
  AllBusy-append l.visited (record s { last = working } ∷ []),
  pollers-le l.visited,
  pollers-le rest,
)
visit-Inv n working added s rest l e v = ground (
  arith,
  length-append l.visited (record s { last = working } ∷ []),
  pollers-append l.visited (record s { last = working } ∷ []),
  AllBusy-append l.visited (record s { last = working } ∷ []),
  pollers-le l.visited,
  pollers-le rest,
)
visit-Inv n polling added s rest l e v = ground (
  arith,
  length-append l.visited (record s { last = polling } ∷ []),
  pollers-append l.visited (record s { last = polling } ∷ []),
  AllBusy-append l.visited (record s { last = polling } ∷ []),
  pollers-le l.visited,
  pollers-le rest,
)

step-Inv : (n : ℕ) (c : Choice) (l : Loop) → Inv n l → Inv n (step c l)
unfolding step
step-Inv n (notifies i) l v = notify_ready-Inv n i l v
step-Inv n (runs state added) l v = next l.pending refl
  where
    next : (ss : List Scheduler) → l.pending ≡ ss → Inv n (visit_next state added ss l)
    next [] e = begin_round-Inv n l v
    next (s ∷ rest) e = visit-Inv n state added s rest l e v

run-Inv : (n : ℕ) (cs : List Choice) (l : Loop) → Inv n l → Inv n (run cs l)
unfolding run
run-Inv n [] l v = v
run-Inv n (c ∷ cs) l v = run-Inv n cs (step c l) (step-Inv n c l v)

init-busy : (is : List ℕ) → AllBusy (init is)
unfolding init
init-busy [] = tt
init-busy (i ∷ is) = (refl, init-busy is)

init-pollers : (is : List ℕ) → pollers (init is) ≡ 0
unfolding init
init-pollers [] = refl
init-pollers (i ∷ is) = omega (arith, init-pollers is)

init-length : (is : List ℕ) → length (init is) ≡ length is
unfolding init
init-length [] = refl
init-length (i ∷ is) = ap suc (init-length is)

init-Inv : (is : List ℕ) → length is < 2 ^ 64 → Inv (length is) (init_loop is)
unfolding init_loop signaled
init-Inv is h = record {
  small = h;
  all = omega (arith, init-length is);
  busy_visited = tt;
  busy_pending = init-busy is;
  active = omega arith;
  polls = omega (arith, init-pollers is);
  quiet = refl;
}

-- After every run of the loop over the schedulers `is`, fewer than 2 ^ 64, with its callbacks at any
-- points between its steps: `pollingCount` is the number of active schedulers whose last state is
-- polling, so that no decrement wrapped; `activeCount` is the number of active schedulers and of idle
-- ones that have been signaled; no active scheduler is recorded as idle; and no scheduler is lost.
pub loop_counts :
    (is : List ℕ) (cs : List Choice)
    → length is < 2 ^ 64
    → let l = run cs (init_loop is) in
      (l.polling_count ≡ pollers (l.visited ++ l.pending))
      × (l.active_count ≡ length (l.visited ++ l.pending) + length (signaled l.idle_schedulers))
      × AllBusy (l.visited ++ l.pending)
      × (length (l.visited ++ l.pending) + length l.idle_schedulers ≡ length is)
loop_counts is cs h = (
  v.polls ∙ sym (pollers-append l.visited l.pending),
  omega (arith, v.active, length-append l.visited l.pending),
  AllBusy-append l.visited l.pending v.busy_visited v.busy_pending,
  omega (arith, v.all, length-append l.visited l.pending),
)
  where
    l : Loop
    l = run cs (init_loop is)

    v : Inv (length is) l
    v = run-Inv (length is) cs (init_loop is) (init-Inv is h)
