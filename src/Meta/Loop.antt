-- ===== src/Meta/Loop.antt =====
-- source/meta_scheduler.cpp: the loop of `ContextImpl::Run` over its schedulers. Between two steps of
-- the loop a has-work condition may notify; that callback runs under `stateLock`, so it is one step.
pub mod Counts
use crunch_concurrency.Base.{
  ℕ, zero, suc, ◌+◌, ◌-◌, ◌%◌, ◌^◌, ◌<◌, ◌≤◌, ◌≡◌, ◌≢◌, refl, ap, arith, Bool, true, false, Option,
  none, some, List, [], ◌∷◌, ◌++◌, ◌==◌, if◌then◌else◌, length, length-append, ◌&&◌, not,
}

-- `ISchedulerContext::State`
pub data State : Type 0 where
  idle working polling : State

-- `SchedulerState`: which scheduler, and `lastState`.
pub record Scheduler : Type 0 where
  pub id : ℕ
  pub last : State

-- The variables of the loop. `activeSchedulers` is `visited ++ pending`: `pending` is what the inner
-- loop has still before it.
pub record Loop : Type 0 where
  pub visited : List Scheduler
  pub pending : List Scheduler
  pub idle_schedulers : List Scheduler
  pub polling_count : ℕ  -- size_t
  pub active_count : ℕ  -- size_t

abbrev pub is_idle : State → Bool
is_idle idle = true
is_idle _ = false

abbrev pub is_polling : State → Bool
is_polling polling = true
is_polling _ = false

abbrev pub same_state : State → State → Bool
same_state idle idle = true
same_state working working = true
same_state polling polling = true
same_state _ _ = false

-- `pollingCount--`
abbrev pub decrement : ℕ → ℕ
decrement n = (n + 2 ^ 64 - 1) % 2 ^ 64

abbrev pub increment : ℕ → ℕ
increment n = (n + 1) % 2 ^ 64

-- The loop before its first round: every scheduler is active, and its last state is working.
unfoldable pub init : List ℕ → List Scheduler
init [] = []
init (i ∷ is) = record { id = i; last = working } ∷ init is

unfoldable pub init_loop : List ℕ → Loop
unfolding init
init_loop is = record {
  visited = [];
  pending = init is;
  idle_schedulers = [];
  polling_count = 0;
  active_count = length (init is);
}

-- The callback of a has-work waiter: it wakes the idle scheduler `i`. A waiter notifies once, so it
-- changes nothing where the scheduler is not idle.
unfoldable pub signal : ℕ → List Scheduler → Option (List Scheduler)
signal i [] = none
signal i (s ∷ ss) =
    if (s.id == i) && is_idle s.last
    then some (record s { last = working } ∷ ss)
    else elim (signal i ss) [ none ↦ none | some ss' ↦ some (s ∷ ss') ]

unfoldable pub notify_ready : ℕ → Loop → Loop
unfolding signal
notify_ready i l = elim (signal i l.idle_schedulers) [
  | none ↦ l
  | some ss ↦ record l { idle_schedulers = ss; active_count = increment l.active_count }
]

-- The idle schedulers that have been signaled, and those that have not.
unfoldable pub signaled : List Scheduler → List Scheduler
signaled [] = []
signaled (s ∷ ss) = if is_idle s.last then signaled ss else s ∷ signaled ss

unfoldable pub asleep : List Scheduler → List Scheduler
asleep [] = []
asleep (s ∷ ss) = if is_idle s.last then s ∷ asleep ss else asleep ss

-- The start of a round: where `activeCount` differs, the signaled schedulers join the active ones.
unfoldable pub begin_round : Loop → Loop
unfolding signaled asleep
begin_round l =
    let active = l.visited ++ l.pending in
    if l.active_count == length active
    then record l { visited = []; pending = active }
    else record l {
      visited = [];
      pending = active ++ signaled l.idle_schedulers;
      idle_schedulers = asleep l.idle_schedulers;
      active_count = length (active ++ signaled l.idle_schedulers);
    }

-- The inner loop's body for the scheduler `s`: `state` is what its runner returns, and `added` what
-- `AddWaiter` of its has-work condition returns where the runner came back idle.
unfoldable pub visit : (state : State) (added : Bool) → Scheduler → List Scheduler → Loop → Loop
visit idle added s rest l =
    let count = if is_polling s.last then decrement l.polling_count else l.polling_count in
    if added
    then record l {
      pending = rest;
      idle_schedulers = l.idle_schedulers ++ record s { last = idle } ∷ [];
      polling_count = count;
      active_count = decrement l.active_count;
    }
    else record l {
      visited = l.visited ++ record s { last = working } ∷ [];
      pending = rest;
      polling_count = count;
    }
visit state added s rest l = record l {
  visited = l.visited ++ record s { last = state } ∷ [];
  pending = rest;
  polling_count =
      if same_state state s.last
      then l.polling_count
      else (if is_polling state then increment l.polling_count else decrement l.polling_count);
}

-- One step of the loop, or of a callback. At the end of the active list a new round begins.
pub data Choice : Type 0 where
  runs : (state : State) (added : Bool) → Choice
  notifies : (id : ℕ) → Choice

unfoldable pub visit_next : State → Bool → List Scheduler → Loop → Loop
unfolding visit begin_round
visit_next state added [] l = begin_round l
visit_next state added (s ∷ rest) l = visit state added s rest l

unfoldable pub step : Choice → Loop → Loop
unfolding visit_next notify_ready
step (runs state added) l = visit_next state added l.pending l
step (notifies i) l = notify_ready i l

unfoldable pub run : List Choice → Loop → Loop
unfolding step
run [] l = l
run (c ∷ cs) l = run cs (step c l)
