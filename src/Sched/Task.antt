-- ===== src/Sched/Task.antt =====
-- The scheduler: src/sched.c and src/sched_task.c, with the types of src/sched_internal.h.
pub mod State
pub mod Queue
pub mod Slots
pub mod Life
pub mod Vfork
pub mod Loop
pub mod Signals
pub mod Deliver
pub mod Killed
pub mod Stats
pub mod Attr
pub mod Mask
pub mod Boot
pub mod Pick
pub mod Reap
pub mod Due
pub mod Doze
pub mod Sleeper
pub mod Inv
mod Tests
