-- ===== src/Threads.antt =====
-- code/threads: the scheduler and the synchronisation of threads.
pub mod Condition
pub mod Life
pub mod Lock
pub mod Scheduler
