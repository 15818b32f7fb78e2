-- ===== src/Wait.antt =====
-- source/meta_scheduler.cpp: `WaitFor`, `WaitForAll` and `WaitForAny` over any waitables.
pub mod Steps
pub mod All
pub mod Any
pub mod Mode
pub mod Context
pub mod Returns
mod Tests
