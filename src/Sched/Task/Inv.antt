-- ===== src/Sched/Task/Inv.antt =====
-- The invariant of the queues: a task stands in the run queue of its processor exactly while it is
-- runnable, and in a wait queue exactly while it waits there.
pub mod Sound
pub mod Moves
pub mod Wake
pub mod Ready
pub mod Sleep
pub mod Run
pub mod Turn
pub mod End
pub mod Spawn
pub mod Vfork
pub mod Keeps
pub mod KeepsLife
pub mod KeepsStart
pub mod Homes
pub mod Signal
pub mod Release
pub mod Steps
