-- ===== src/Sched/Fd/State.antt =====
-- The data of src/sched_fd.c: open files, descriptor entries, pipes, and the constants of
-- include/kernel/sched.h. `used`, `inited` and `file_is_dir` are 0 or 1 in the source and Bool here.
use octans.Prelude.{ℕ, ◌/◌, ◌%◌, ◌*◌, ◌^◌, List, [], Option, Bool, false, Result}

-- SCHED_MAX_FDS, SCHED_PIPE_MAX, SCHED_PIPE_CAP, SCHED_FD_OFILE_INVALID.
abbrev pub max_fds : ℕ
max_fds = 32

abbrev pub pipe_max : ℕ
pipe_max = 16

abbrev pub pipe_cap : ℕ
pipe_cap = 256

abbrev pub ofile_invalid : ℕ
ofile_invalid = 0xffff_ffff

-- SCHED_FD_TYPE_*, which are the SCHED_OFILE_TYPE_* too.
abbrev pub type_none : ℕ
type_none = 0

abbrev pub type_stdin : ℕ
type_stdin = 1

abbrev pub type_stdout : ℕ
type_stdout = 2

abbrev pub type_stderr : ℕ
type_stderr = 3

abbrev pub type_dev_null : ℕ
type_dev_null = 4

abbrev pub type_dev_zero : ℕ
type_dev_zero = 5

abbrev pub type_dev_tty : ℕ
type_dev_tty = 6

abbrev pub type_socket : ℕ
type_socket = 7

abbrev pub type_regular : ℕ
type_regular = 8

abbrev pub type_pipe_read : ℕ
type_pipe_read = 9

abbrev pub type_pipe_write : ℕ
type_pipe_write = 10

-- SCHED_FD_SPECIAL_*.
abbrev pub special_dev_null : ℕ
special_dev_null = 1

abbrev pub special_dev_zero : ℕ
special_dev_zero = 2

abbrev pub special_dev_tty : ℕ
special_dev_tty = 3

abbrev pub special_socket : ℕ
special_socket = 4

-- SCHED_FD_O_RDONLY, SCHED_FD_O_WRONLY, SCHED_FD_O_RDWR, and SYS_SEEK_*.
abbrev pub o_rdonly : ℕ
o_rdonly = 0

abbrev pub o_wronly : ℕ
o_wronly = 1

abbrev pub o_rdwr : ℕ
o_rdwr = 2

abbrev pub seek_set : ℕ
seek_set = 0

abbrev pub seek_cur : ℕ
seek_cur = 1

abbrev pub seek_end : ℕ
seek_end = 2

-- flags & SCHED_FD_O_ACCMODE (3), flags & SCHED_FD_O_NONBLOCK (0x800), flags & SCHED_FD_CLOEXEC (1).
abbrev pub accmode : ℕ → ℕ
accmode flags = flags % 4

abbrev pub nonblock : ℕ → ℕ
nonblock flags = flags / 2 ^ 11 % 2 * 2 ^ 11

abbrev pub cloexec : ℕ → ℕ
cloexec flags = flags % 2

-- SCHED_FD_EBADF, SCHED_FD_EMFILE, SCHED_FD_EINVAL, SCHED_FD_ESPIPE, SCHED_FD_EAGAIN, SCHED_FD_EPIPE.
pub data FdError : Type 0 where
  ebadf emfile einval espipe eagain epipe : FdError

-- What a call returns: a value that is not negative (SCHED_FD_OK is 0), or an error.
abbrev pub Reply : Type 0
Reply = Result FdError ℕ

-- `sched_ofile_t`.
pub record Ofile : Type 0 where
  pub used : Bool
  pub refs : ℕ
  pub kind : ℕ
  pub status_flags : ℕ
  pub fs_backend : ℕ
  pub file_id : ℕ
  pub file_size : ℕ
  pub file_offset : ℕ
  pub file_is_dir : Bool
  pub sock_ptr : ℕ

-- `sched_fdent_t`.
pub record Fdent : Type 0 where
  pub used : Bool
  pub ofile_idx : ℕ
  pub fd_flags : ℕ

-- The two tables of `sched_task_slot_t`, each of `max_fds` entries.
pub record Slot : Type 0 where
  pub ofiles : List Ofile
  pub fdtab : List Fdent

-- `sched_pipe_t`.
pub record Pipe : Type 0 where
  pub used : Bool
  pub read_refs : ℕ
  pub write_refs : ℕ
  pub head : ℕ
  pub len : ℕ
  pub buf : List ℕ

-- `g_pipe_inited` and `g_pipes`.
pub record Pipes : Type 0 where
  pub inited : Bool
  pub pipes : List Pipe

-- What a call of the layer works on: the caller's slot and the pipes that all tasks share.
pub record State : Type 0 where
  pub slot : Slot
  pub shared : Pipes

-- The whole layer: `sched_current_slot_fd_locked` finds a slot or gives NULL.
pub record System : Type 0 where
  pub current : Option Slot
  pub shared : Pipes

-- What stands for a read out of bounds. The guards of the code rule it out.
abbrev pub no_ofile : Ofile
no_ofile = record {
  used = false;
  refs = 0;
  kind = type_none;
  status_flags = 0;
  fs_backend = 0;
  file_id = 0;
  file_size = 0;
  file_offset = 0;
  file_is_dir = false;
  sock_ptr = 0;
}

abbrev pub no_fdent : Fdent
no_fdent = record { used = false; ofile_idx = ofile_invalid; fd_flags = 0 }

abbrev pub no_pipe : Pipe
no_pipe = record { used = false; read_refs = 0; write_refs = 0; head = 0; len = 0; buf = [] }
