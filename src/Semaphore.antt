-- ===== src/Semaphore.antt =====
-- include/crunch/concurrency/semaphore.hpp and source/semaphore.cpp: `Semaphore` as a machine of
-- atomic steps.
pub mod Steps
pub mod Alone
pub mod Permits
pub mod Stuck
mod Tests
