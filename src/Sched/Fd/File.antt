-- ===== src/Sched/Fd/File.antt =====
-- The calls of src/sched_fd.c that read or change the state of one open file: flags, queries,
-- positions of regular files, sockets. Out pointers are values of the result; a call that a NULL
-- out pointer refuses takes `out`, which tells whether the pointer is there.
use octans.Prelude.{
  ℕ, ◌+◌, ◌-◌, ℤ, pos, negsuc, Option, none, some, Bool, false, ◌&&◌, ◌||◌, not, ltb, leb, ◌==◌,
  if◌then◌else◌, add32, u32_max, Result, ok, err,
}
use octans.Sched.Fd.State.{
  Ofile, State, System, Reply, FdError, ebadf, einval, espipe, max_fds, type_stdin, type_stdout,
  type_stderr, type_dev_null, type_dev_zero, type_dev_tty, type_socket, type_regular,
  type_pipe_read, type_pipe_write, o_rdonly, o_wronly, o_rdwr, accmode, nonblock, cloexec, seek_set,
  seek_cur, seek_end,
}
use octans.Sched.Fd.Table.{put_ofile, put_fdent, ofile_at, fdent_at, sched_slot_ofile_by_fd}
use octans.Sched.Fd.Ops.{with_slot}

-- The look-up of the descriptor in the current slot, and the answer where it fails.
abbrev pub on_ofile : {A : Type 0} → A → ℤ → (ℕ → ℕ → State → State × A) → State → State × A
on_ofile missing fd body st = elim (sched_slot_ofile_by_fd st.slot fd) [
  | none ↦ (st, missing)
  | some (i, o) ↦ body i o st
]

-- With one answer for a slot and a descriptor that are missing.
abbrev pub with_ofile : {A : Type 0} → A → ℤ → (ℕ → ℕ → State → State × A) → System → System × A
with_ofile missing fd body = with_slot missing (on_ofile missing fd body)

unfoldable pub sched_fd_fcntl_getfl : ℤ → Bool → System → System × Reply
unfolding sched_slot_ofile_by_fd
sched_fd_fcntl_getfl fd out s =
    if not out
    then (s, err einval)
    else with_ofile (err ebadf) fd (λ i o st. (st, ok (ofile_at st.slot o).status_flags)) s

unfoldable pub sched_fd_fcntl_getfd : ℤ → Bool → System → System × Reply
unfolding sched_slot_ofile_by_fd
sched_fd_fcntl_getfd fd out s =
    if not out
    then (s, err einval)
    else with_ofile (err ebadf) fd (λ i o st. (st, ok (fdent_at st.slot i).fd_flags)) s

unfoldable pub setfd_at : ℕ → ℕ → ℕ → State → State × Reply
setfd_at flags i o st =
    (record st { slot = put_fdent i (λ e. record e { fd_flags = cloexec flags }) st.slot }, ok 0)

unfoldable pub sched_fd_fcntl_setfd : ℤ → ℕ → System → System × Reply
unfolding sched_slot_ofile_by_fd setfd_at
sched_fd_fcntl_setfd fd flags = with_ofile (err ebadf) fd (setfd_at flags)

-- (status_flags & ~NONBLOCK) | (flags & NONBLOCK)
abbrev pub set_nonblock : ℕ → ℕ → ℕ
set_nonblock old flags = old - nonblock old + nonblock flags

unfoldable pub setfl_at : ℕ → ℕ → ℕ → State → State × Reply
setfl_at flags i o st = (
  record st {
    slot = put_ofile o (λ f. record f { status_flags = set_nonblock f.status_flags flags }) st.slot;
  },
  ok 0,
)

unfoldable pub sched_fd_fcntl_setfl : ℤ → ℕ → System → System × Reply
unfolding sched_slot_ofile_by_fd setfl_at
sched_fd_fcntl_setfl fd flags = with_ofile (err ebadf) fd (setfl_at flags)

abbrev pub sched_fd_is_readable_type : ℕ → Bool
sched_fd_is_readable_type t =
    t == type_stdin
    || t == type_dev_zero
    || t == type_dev_null
    || t == type_dev_tty
    || t == type_regular
    || t == type_pipe_read
    || t == type_socket

abbrev pub sched_fd_is_writable_type : ℕ → Bool
sched_fd_is_writable_type t =
    t == type_stdout
    || t == type_stderr
    || t == type_dev_null
    || t == type_dev_zero
    || t == type_dev_tty
    || t == type_regular
    || t == type_pipe_write
    || t == type_socket

unfoldable pub sched_fd_can_read : ℤ → System → System × Bool
unfolding sched_slot_ofile_by_fd
sched_fd_can_read fd = with_ofile false fd λ i o st.
    let f = ofile_at st.slot o in
    let acc = accmode f.status_flags in
    (st, (acc == o_rdonly || acc == o_rdwr) && sched_fd_is_readable_type f.kind)

unfoldable pub sched_fd_can_write : ℤ → System → System × Bool
unfolding sched_slot_ofile_by_fd
sched_fd_can_write fd = with_ofile false fd λ i o st.
    let f = ofile_at st.slot o in
    let acc = accmode f.status_flags in
    (st, (acc == o_wronly || acc == o_rdwr) && sched_fd_is_writable_type f.kind)

unfoldable pub sched_fd_is_nonblock : ℤ → System → System × Bool
unfolding sched_slot_ofile_by_fd
sched_fd_is_nonblock fd =
    with_ofile false fd λ i o st. (st, not (nonblock (ofile_at st.slot o).status_flags == 0))

abbrev pub open_at : ℤ → State → Bool
open_at (negsuc n) st = false
open_at (pos fd) st = if leb max_fds fd then false else (fdent_at st.slot fd).used

unfoldable pub sched_fd_is_open : ℤ → System → System × Bool
sched_fd_is_open fd = with_slot false λ st. (st, open_at fd st)

unfoldable pub sched_fd_is_stdin : ℤ → System → System × Bool
unfolding sched_slot_ofile_by_fd
sched_fd_is_stdin fd = with_ofile false fd λ i o st. (st, (ofile_at st.slot o).kind == type_stdin)

unfoldable pub sched_fd_is_tty : ℤ → System → System × Bool
unfolding sched_slot_ofile_by_fd
sched_fd_is_tty fd = with_ofile false fd λ i o st.
    let t = (ofile_at st.slot o).kind in
    (st, t == type_stdin || t == type_stdout || t == type_stderr || t == type_dev_tty)

unfoldable pub sched_fd_get_type : ℤ → Bool → System → System × Reply
unfolding sched_slot_ofile_by_fd
sched_fd_get_type fd out s =
    if not out
    then (s, err einval)
    else with_ofile (err ebadf) fd (λ i o st. (st, ok (ofile_at st.slot o).kind)) s

-- The open file whose fields the caller may take.
unfoldable pub sched_fd_regular_get : ℤ → System → System × Result FdError Ofile
unfolding sched_slot_ofile_by_fd
sched_fd_regular_get fd = with_ofile (err ebadf) fd λ i o st.
    let f = ofile_at st.slot o in
    if not (f.kind == type_regular) then (st, err ebadf) else (st, ok f)

-- The switch over `whence`; `none` is its default.
abbrev pub seek_base : ℕ → Ofile → Option ℕ
seek_base whence f =
    if whence == seek_set
    then some 0
    else if whence == seek_cur
    then some f.file_offset
    else if whence == seek_end
    then some f.file_size
    else none

-- The position after the move, with the source's checks; -(offset + 1) is `n` for `negsuc n`.
abbrev pub seek_next : ℕ → ℤ → Option ℕ
seek_next base (negsuc n) = let mag = add32 n 1 in if ltb base mag then none else some (base - mag)
seek_next base (pos n) = if ltb (u32_max - n) base then none else some (base + n)

abbrev pub set_offset : ℕ → ℕ → State → State × Reply
set_offset o next st =
    (record st { slot = put_ofile o (λ f. record f { file_offset = next }) st.slot }, ok next)

unfoldable pub lseek_at : ℤ → ℕ → ℕ → ℕ → State → State × Reply
lseek_at offset whence i o st =
    let f = ofile_at st.slot o in
    if not (f.kind == type_regular) then (st, err espipe) else elim (seek_base whence f) [
      | none ↦ (st, err einval)
      | some base ↦ elim (seek_next base offset) [
        | none ↦ (st, err einval)
        | some next ↦ set_offset o next st
      ]
    ]

unfoldable pub sched_fd_lseek : ℤ → ℤ → ℕ → System → System × Reply
unfolding sched_slot_ofile_by_fd lseek_at
sched_fd_lseek fd offset whence = with_ofile (err ebadf) fd (lseek_at offset whence)

-- `next` of `sched_fd_regular_advance`: a sum that wraps is the largest number, and the size caps.
abbrev pub advance_next : ℕ → ℕ → ℕ → ℕ
advance_next cur size delta =
    let sum = add32 cur delta in
    let next = if ltb sum cur then u32_max else sum in if ltb size next then size else next

unfoldable pub advance_at : ℕ → ℕ → ℕ → State → State × Reply
advance_at delta i o st =
    let f = ofile_at st.slot o in
    if not (f.kind == type_regular)
    then (st, err ebadf)
    else set_offset o (advance_next f.file_offset f.file_size delta) st

unfoldable pub sched_fd_regular_advance : ℤ → ℕ → System → System × Reply
unfolding sched_slot_ofile_by_fd advance_at
sched_fd_regular_advance fd delta = with_ofile (err ebadf) fd (advance_at delta)

-- `next` of `sched_fd_regular_commit_write`: a sum that wraps is the size, and the size caps.
abbrev pub commit_next : ℕ → ℕ → ℕ → ℕ
commit_next cur size written =
    let sum = add32 cur written in
    let next = if ltb sum cur then size else sum in if ltb size next then size else next

abbrev pub committed : ℕ → ℕ → Ofile → Ofile
committed written new_size f =
    let size = if ltb f.file_size new_size then new_size else f.file_size in
    record f { file_size = size; file_offset = commit_next f.file_offset size written }

unfoldable pub commit_at : ℕ → ℕ → ℕ → ℕ → State → State × Reply
commit_at written new_size i o st =
    let f = ofile_at st.slot o in
    if not (f.kind == type_regular) then (st, err ebadf) else (
      record st { slot = put_ofile o (committed written new_size) st.slot },
      ok (committed written new_size f).file_offset,
    )

unfoldable pub sched_fd_regular_commit_write : ℤ → ℕ → ℕ → System → System × Reply
unfolding sched_slot_ofile_by_fd commit_at
sched_fd_regular_commit_write fd written new_size =
    with_ofile (err ebadf) fd (commit_at written new_size)

-- `none` is -1.
unfoldable pub sched_fd_sock_get : ℤ → System → System × Option ℕ
unfolding sched_slot_ofile_by_fd
sched_fd_sock_get fd = with_ofile none fd λ i o st.
    let f = ofile_at st.slot o in
    if not (f.kind == type_socket) then (st, none) else (st, some f.sock_ptr)

unfoldable pub sock_set_at : ℕ → ℕ → ℕ → State → State × Unit {0}
sock_set_at sock_ptr i o st =
    if (ofile_at st.slot o).kind == type_socket
    then (record st { slot = put_ofile o (λ f. record f { sock_ptr = sock_ptr }) st.slot }, tt)
    else (st, tt)

unfoldable pub sched_fd_sock_set : ℤ → ℕ → System → System × Unit {0}
unfolding sched_slot_ofile_by_fd sock_set_at
sched_fd_sock_set fd sock_ptr = with_ofile tt fd (sock_set_at sock_ptr)

-- A NULL `refs` is met with the lock held, which the source does not give back: not modelled.
unfoldable pub sched_fd_sock_refs : ℤ → System → System × Option ℕ
unfolding sched_slot_ofile_by_fd
sched_fd_sock_refs fd = with_ofile none fd λ i o st.
    let f = ofile_at st.slot o in
    if not (f.kind == type_socket) then (st, none) else (st, some f.refs)
