-- ===== src/Sched.antt =====
-- The scheduler: the file descriptors of a task (src/sched_fd.c), and tasks and their queues
-- (src/sched.c and src/sched_task.c).
pub mod Fd
pub mod Task
