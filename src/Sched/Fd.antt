-- ===== src/Sched/Fd.antt =====
-- The file descriptor layer of a task: src/sched_fd.c with the types of src/sched_internal.h.
pub mod State
pub mod Pipe
pub mod Table
pub mod Ops
pub mod File
pub mod PipeIo
pub mod Calls
pub mod Refs
pub mod Clone
pub mod Position
pub mod Dup
pub mod Channel
mod Tests
