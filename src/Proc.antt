-- ===== src/Proc.antt =====
-- proc: threads and the queues that they wait in.
pub mod Threads
pub mod Processes
pub mod Schedule
pub mod Tqueue
