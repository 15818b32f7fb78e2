-- ===== src/Lib.antt =====
-- crunch.concurrency
--
-- A library of concurrency primitives in C++: atomics, a lock-free waiter list, and on it a mutex, an
-- event and a semaphore that threads and schedulers wait on; functions that wait for one, all or any of
-- such waitables; and a meta scheduler that runs cooperative schedulers on the calling thread. A waitable
-- keeps its state and the head of a list of waiters in one 64-bit word. `AddWaiter` answers false where
-- the waitable is ready at once, and otherwise links the waiter, whose callback runs when the waitable
-- becomes ready.
--
-- Parts and files. Paths are from the repository's root; H is include/crunch/concurrency.
-- - Base: names, lists, Base/Machine, the schedules of a machine of atomic steps, and Base/Totals,
--   sums over its threads. A system is a shared memory and a program counter for each thread; a
--   schedule is a list of turns, each of a thread with a choice; a statement about `run` is about all
--   schedules, of all numbers of threads, that its conditions allow. `Reaches` is a run of one thread
--   with no step of others between its own.
-- - Atomic: H/atomic.hpp, H/platform/linux/atomic_ops_x86.hpp and H/platform/win32/atomic_ops_x86.hpp.
--   The built-ins of the one compiler are the parameter `Builtins`, the intrinsics of the other the
--   parameter `Intrinsics`, each with its documented laws; `plain` and `plain_intrinsics` are
--   instances. Orders of memory are not modelled: an operation is a function from the cell to the new
--   cell and the result. `fallback_atomic_op` takes the list of the values that the cell has at its
--   exchanges, and is `none` where the list ends first. Converted is the base for types that are
--   converted through a union, which is the parameter `Converter`. Equivalence compares the platforms.
-- - WaiterList: H/detail/waiter_list.hpp (the 64-bit branch), H/waiter_utility.hpp and
--   source/waiter_list.cpp. Packed has the word, Memory the word with the links and the notified
--   waiters, Chain the walks, Remove `RemoveWaiter`. A walk takes fuel; one more than the length of
--   the list is enough, and the theorems say so. The steps walk link by link and take no fuel.
-- - Mutex, Event, Semaphore: H/mutex.hpp, H/event.hpp, H/semaphore.hpp and the files of the same names
--   in source. Steps has one constructor of `Pc` for each point between two atomic accesses. A backoff
--   only delays, and is no step. A waiter's callback is recorded in `notified`; for the mutex the
--   callback is that of `WaitFor`. `Alone` says what the calls do with no other step between.
-- - Wait: `WaitForImpl`, `WaitForAllImpl` and `WaitForAnyImpl` of source/meta_scheduler.cpp, as the
--   sequences of the calls they make. What the waitables answer is a parameter. Context has `WaitFor`,
--   `WaitForAll` and `WaitForAny`, which choose the semaphore; there the parameter is what becomes of
--   each waiter that is added, and a call that never returns is `none`. Returns is about those. Mode
--   is H/wait_mode.hpp.
-- - SystemSemaphore: H/detail/system_semaphore.hpp and source/platform/darwin/system_semaphore.cpp. A
--   call of the kernel is an effect that a call returns.
-- - SpinBarrier: H/spin_barrier.hpp, each thread calling `Wait` once.
-- - SystemEvent: H/detail/system_event.hpp and source/platform/linux/system_event.cpp. The mutex and
--   the condition of pthreads are a flag and the number of broadcasts; a sleeping thread may wake by
--   itself. The test of the state and the sleep of `Wait` are two steps, as are the test and the write
--   of `Set`.
-- - LifoList: H/mpmc_lifo_list.hpp (the 64-bit branch). History puts beside its memory the nodes that
--   the program holds, the events of the list and the number of exchanges; each thread has that number
--   as of its last load of the root. A node stays readable after it is popped.
-- - LifoQueue: H/mpmc_lifo_queue.hpp over lists of nodes, for one thread at a time; `new` is the
--   parameter `new_node`. `TryPop` has no return statement where it finds a value, which is `none`.
-- - Future: H/detail/future_data.hpp, a call at a time. `Set` and `SetException` are modelled with
--   CRUNCH_ASSERT on and off; where Handles and what builds on it use them, it is on. Handles has H/promise.hpp and H/future.hpp:
--   the handles of one datum, whose pointers call `AddRef` and `Release` as intrusive pointers do.
--   Storage has the destructor and `FutureData<void>`. VersionedData: H/versioned_data.hpp, a call at
--   a time, since the lock makes it so.
-- - Waiter: H/waiter.hpp, the waiters by address with their function objects, in the waiter or on the
--   heap. The addresses of `Allocate` and `new` come with a call.
-- - Allocator: source/waiter.cpp, the lists of free waiters. `malloc` returns an address that is not
--   in use, which is `is_fresh`; it frees nothing before the end of the program.
-- - ThreadPool: H/thread_pool.hpp and source/thread_pool.cpp. A section under the lock of the pool is
--   one step, and a wait on its condition may end by itself. The creation of a thread succeeds, a work
--   item adds no work, and no work is added once the destructor has begun. Post adds the promises and
--   futures of Future: a function posted has a number, and what it returns, or that it throws, is a
--   parameter.
-- - Thread: H/thread.hpp, source/thread.cpp, source/thread_data.hpp, source/thread_data.cpp and
--   source/platform/linux/thread.cpp. The calls of pthreads are effects. Cancellation has the code of
--   a thread as cancellation points, exceptions, handlers and scopes of a policy, with the calls of
--   `Cancel` that come meanwhile, Handle the calls on a handle, move assignment with them.
-- - Backoff: the three policies of H/*_backoff.hpp.
-- - Meta: H/meta_scheduler.hpp, H/scheduler.hpp and source/meta_scheduler.cpp. RunMode has the modes
--   and their throttlers, Config the schedulers, Threads the idle meta threads and the contexts, Loop
--   the loop of `ContextImpl::Run`, whose callbacks are steps of their own under the lock of its
--   state. Selection is the choice of its schedulers, Sleep the places at which it waits, with the
--   same callbacks.
-- - Affinity: H/processor_affinity.hpp, source/processor_affinity.cpp, and processor_affinity.cpp of
--   source/platform/linux and of source/platform/win32. A mask is a function from processors below 32,
--   the set of linux one from processors below 1024, and the word of win32 one from its bits; the
--   calls of win32 are parameters.
-- - Topology: source/processor_topology.cpp. The record `Platform` has what it takes from elsewhere:
--   cpuid by processor, the bit operations of crunch/base, and the processor on which a thread of an
--   affinity runs. Widths of fields are below 32, so that no shift of the source is undefined. The
--   loop over the levels of cpuid takes fuel; more than the first unused level is enough.
--
-- Numbers are natural numbers; an integer of w bits wraps at 2 ^ w where the source can wrap, and a signed
-- one is the number below 2 ^ w with its bits.
--
-- Not modelled: the system's mutex and condition, the semaphores of linux and win32, the yield and the
-- files for win32 but its atomic operations and its processor affinity, which wrap what the operating
-- system does; tests and benchmarks.
pub mod Affinity
pub mod Allocator
pub mod Atomic
pub mod Backoff
pub mod Base
pub mod Event
pub mod Future
pub mod LifoList
pub mod LifoQueue
pub mod Meta
pub mod Mutex
pub mod Semaphore
pub mod SpinBarrier
pub mod SystemEvent
pub mod SystemSemaphore
pub mod Thread
pub mod ThreadPool
pub mod Topology
pub mod VersionedData
pub mod Wait
pub mod Waiter
pub mod WaiterList
