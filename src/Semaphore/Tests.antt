-- ===== src/Semaphore/Tests.antt =====
-- Runs of the semaphore: a permit that one thread takes and another waits for; a semaphore with two
-- waiters; and one whose list is locked.
use crunch_concurrency.Base.{ℕ, List, [], ◌∷◌, ◌+◌, ◌-◌, ◌^◌, ◌≤◌, ◌≡◌, refl, length, arith}
use crunch_concurrency.Base.Machine.{System, turn, run}
use crunch_concurrency.WaiterList.Packed.{is_waiter, has_lock, get_pointer, set_pointer, add_aba}
use crunch_concurrency.WaiterList.Tests.{two_waiters, two_IsOpen}
use crunch_concurrency.Semaphore.Steps.{Memory, Pc, post_load, post_loop, Choice, init, start, step}
use crunch_concurrency.Semaphore.Permits.{available, fresh, grants-le-posts}
use crunch_concurrency.Semaphore.Alone.{Posted, post_alone}
use crunch_concurrency.Semaphore.Stuck.{post_never_returns}

-- Thread 0 takes the permit, thread 1 waits, thread 0 gives the permit back.
abbrev handed : List (ℕ × Choice)
handed =
    (0, Choice.adds 4)
    ∷ (0, Choice.goes_on)
    ∷ (1, Choice.adds 8)
    ∷ (1, Choice.goes_on)
    ∷ (1, Choice.goes_on)
    ∷ (1, Choice.goes_on)
    ∷ (1, Choice.goes_on)
    ∷ (0, Choice.posts)
    ∷ (0, Choice.posts)
    ∷ (0, Choice.goes_on)
    ∷ (0, Choice.goes_on)
    ∷ (0, Choice.goes_on)
    ∷ (0, Choice.goes_on)
    ∷ (0, Choice.goes_on)
    ∷ []

grants-le-posts_example :
    let m = (run step 2 (fresh 1) handed).mem in
    available m + m.acquired + length m.waiters.notified ≤ 1 + m.posts
unfolding run turn step start init is_waiter has_lock get_pointer set_pointer add_aba
grants-le-posts_example = grants-le-posts 2 1 handed (omega arith) (omega arith)

-- The count is -2 for the two waiters.
abbrev two_wait : Memory
two_wait = record { count = 2 ^ 32 - 2; waiters = two_waiters; posts = 0; adds = 2; acquired = 0 }

post_alone_example : (m' : Memory) × Posted Choice.goes_on two_wait (4 ∷ 8 ∷ []) m'
post_alone_example = post_alone Choice.goes_on two_wait (4 ∷ 8 ∷ []) two_IsOpen

-- Thread 0 is in `Post`, about to load the word of a list that another call has locked.
abbrev locked_list : System Memory Pc
locked_list = record {
  mem = record two_wait { waiters = record two_waiters { word = 6 } };
  pc = λ _. post_load;
}

post_never_returns_example :
    (run step 2 (turn step 2 locked_list (0, Choice.goes_on)) handed).pc 0 ≡ post_loop 6
unfolding has_lock get_pointer
post_never_returns_example =
    post_never_returns 2 locked_list 0 Choice.goes_on handed (omega arith) refl
      (λ e. omega (arith, e)) refl
