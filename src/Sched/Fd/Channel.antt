-- ===== src/Sched/Fd/Channel.antt =====
-- The bytes of a pipe as a queue: the ring buffer of `sched_pipe_t` against a list.
pub mod Queue
pub mod Transfer
pub mod Replies
