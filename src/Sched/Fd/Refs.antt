-- ===== src/Sched/Fd/Refs.antt =====
-- The reference counts of the open files of a slot: the invariant, and that every call of
-- src/sched_fd.c keeps it.
pub mod Inv
pub mod Share
pub mod Open
pub mod Loops
pub mod Keep
pub mod Run
