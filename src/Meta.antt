-- ===== src/Meta.antt =====
-- include/crunch/concurrency/meta_scheduler.hpp and source/meta_scheduler.cpp: run modes, the
-- configuration, meta threads, contexts and the loop of `ContextImpl::Run`.
pub mod RunMode
pub mod Config
pub mod Threads
pub mod Loop
pub mod Sleep
pub mod Selection
pub mod Wakeups
mod Tests
