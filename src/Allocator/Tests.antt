-- ===== src/Allocator/Tests.antt =====
-- Thread 0 allocates a waiter, thread 1 frees it and allocates it again.
use crunch_concurrency.Base.{ℕ, ◌≤◌, List, [], ◌∷◌, count, has, bit, arith}
use crunch_concurrency.Base.Machine.{Each}
use crunch_concurrency.Allocator.{Choice}
use crunch_concurrency.Allocator.Ownership.{IsPrivate}
use crunch_concurrency.Allocator.Schedules.{after, in_use-once}

abbrev passed_on : List (ℕ × Choice)
passed_on =
    (0, Choice.allocates)
    ∷ (0, Choice.allocates)
    ∷ (0, Choice.mallocs 16)
    ∷ (0, Choice.links 16 5)
    ∷ (1, Choice.frees 16)
    ∷ (1, Choice.allocates)
    ∷ []

all_private : Each IsPrivate passed_on
all_private = omega arith

in_use-once_example :
    count 16 (after 2 passed_on all_private).mem.in_use
    ≤ bit (has 16 (after 2 passed_on all_private).mem.allocations)
in_use-once_example = in_use-once 2 passed_on all_private 16
