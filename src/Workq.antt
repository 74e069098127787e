-- ===== src/Workq.antt =====
-- src/workq.cc and include/ilias/workq.h: jobs that are run from the queues of a workq.
pub mod Job
pub mod Locks
pub mod RunLock
pub mod Switch
pub mod SpinLock
pub mod Coroutine
pub mod Service
mod Tests
