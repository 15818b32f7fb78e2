-- ===== src/WaiterList.antt =====
-- include/crunch/concurrency/detail/waiter_list.hpp (64-bit branch), waiter_utility.hpp and
-- source/waiter_list.cpp: the word that packs a list head with its flags and its ABA counter, the
-- links of the waiters, and `RemoveWaiter` as a machine of atomic steps.
pub mod Packed
pub mod Memory
pub mod Chain
pub mod Remove
pub mod Tests
