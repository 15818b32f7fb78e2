-- ===== src/Event.antt =====
-- include/crunch/concurrency/event.hpp and source/event.cpp: `Event` as a machine of atomic steps.
pub mod Steps
pub mod Alone
pub mod Monotone
pub mod Stuck
mod Tests
