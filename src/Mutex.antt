-- ===== src/Mutex.antt =====
-- include/crunch/concurrency/mutex.hpp and source/mutex.cpp: `Mutex` as a machine of atomic steps, in
-- the hands of threads that lock it, wait for it, give up waiting and unlock it.
pub mod Steps
pub mod Invariant
pub mod Exclusion
pub mod Alone
mod Tests
