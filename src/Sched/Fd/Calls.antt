-- ===== src/Sched/Fd/Calls.antt =====
-- The calls of src/sched_fd.c as one data type, and what a sequence of them does to the layer.
use octans.Prelude.{ℕ, ℤ, Bool, List, [], ◌∷◌}
use octans.Sched.Fd.State.{System}
use octans.Sched.Fd.Ops.{
  sched_fd_close, sched_fd_dup, sched_fd_dup_min, sched_fd_dup2, sched_fd_open_special,
  sched_fd_open_regular, sched_fd_pipe, sched_fd_close_cloexec,
}
use octans.Sched.Fd.File.{
  sched_fd_fcntl_setfd, sched_fd_fcntl_setfl, sched_fd_lseek, sched_fd_regular_advance,
  sched_fd_regular_commit_write, sched_fd_sock_set,
}
use octans.Sched.Fd.PipeIo.{
  sched_fd_pipe_read, sched_fd_pipe_write, sched_fd_pipe_read_ready, sched_fd_pipe_write_ready,
}

-- The calls that can change a slot or the pipes; the others are queries.
pub data Call : Type 0 where
  close : ℤ → Call
  dup : ℤ → Call
  dup_min : ℤ → ℤ → ℕ → Call
  dup2 : ℤ → ℤ → Call
  setfd : ℤ → ℕ → Call
  setfl : ℤ → ℕ → Call
  open_special : ℕ → ℕ → Call
  open_regular : ℕ → ℕ → ℕ → ℕ → Bool → Call
  pipe : Call
  close_cloexec : Call
  lseek : ℤ → ℤ → ℕ → Call
  pipe_read : ℤ → Bool → ℕ → Call
  pipe_write : ℤ → Bool → List ℕ → Call
  read_ready : ℤ → Call
  write_ready : ℤ → Call
  advance : ℤ → ℕ → Call
  commit_write : ℤ → ℕ → ℕ → Call
  sock_set : ℤ → ℕ → Call

unfoldable pub step : Call → System → System
step (close fd) s = (sched_fd_close fd s).0
step (dup fd) s = (sched_fd_dup fd s).0
step (dup_min fd m flags) s = (sched_fd_dup_min fd m flags s).0
step (dup2 fd n) s = (sched_fd_dup2 fd n s).0
step (setfd fd flags) s = (sched_fd_fcntl_setfd fd flags s).0
step (setfl fd flags) s = (sched_fd_fcntl_setfl fd flags s).0
step (open_special t flags) s = (sched_fd_open_special t flags s).0
step (open_regular flags b id size dir) s = (sched_fd_open_regular flags b id size dir s).0
step pipe s = (sched_fd_pipe s).0
step close_cloexec s = (sched_fd_close_cloexec s).0
step (lseek fd off whence) s = (sched_fd_lseek fd off whence s).0
step (pipe_read fd dst len) s = (sched_fd_pipe_read fd dst len s).0
step (pipe_write fd src bytes) s = (sched_fd_pipe_write fd src bytes s).0
step (read_ready fd) s = (sched_fd_pipe_read_ready fd s).0
step (write_ready fd) s = (sched_fd_pipe_write_ready fd s).0
step (advance fd delta) s = (sched_fd_regular_advance fd delta s).0
step (commit_write fd n size) s = (sched_fd_regular_commit_write fd n size s).0
step (sock_set fd p) s = (sched_fd_sock_set fd p s).0

unfoldable pub run : List Call → System → System
unfolding step
run [] s = s
run (c ∷ cs) s = run cs (step c s)
