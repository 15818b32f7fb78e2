-- ===== src/Atomic.antt =====
-- include/crunch/concurrency/atomic.hpp over platform/linux/atomic_ops_x86.hpp: atomic integers as
-- functions from the cell to the new cell and the result. A cell of `w` values holds a number below
-- `w`, the bit pattern; the memory orders have no part in the values.
pub mod Builtins
pub mod Linux
pub mod Integer
pub mod Laws
pub mod Converted
pub mod Win32
pub mod Equivalence
mod Tests
