-- ===== src/Sched/Fd/Ops.antt =====
-- The calls of src/sched_fd.c that make, share and close descriptors. Each takes the current slot
-- with its lock held, runs as one step, and gives the lock back on every path.
use octans.Prelude.{
  ℕ, ◌+◌, ℤ, pos, negsuc, Option, none, some, Bool, true, false, ◌||◌, not, leb, ◌==◌,
  if◌then◌else◌, modify, for_range, find_pair, add32, Result, ok, err, is_ok,
}
use octans.Sched.Fd.State.{
  Ofile, Slot, State, System, Reply, FdError, ebadf, emfile, einval, max_fds, no_pipe,
  type_dev_null, type_dev_zero, type_dev_tty, type_socket, type_regular, type_pipe_read,
  type_pipe_write, special_dev_null, special_dev_zero, special_dev_tty, special_socket, o_rdonly,
  o_wronly, o_rdwr, accmode, nonblock, cloexec,
}
use octans.Sched.Fd.Pipe.{sched_pipe_init_once, sched_pipe_alloc_locked, sched_pipe_endpoint_inc}
use octans.Sched.Fd.Table.{
  put_ofile, put_fdent, ofile_at, fdent_at, sched_slot_ofile_by_fd, sched_slot_find_free_fd,
  sched_slot_find_free_ofile, sched_slot_close_fd,
}

-- `sched_current_slot_fd_locked` and what follows it: the answer at NULL, or the body.
abbrev pub with_slot : {A : Type 0} → A → (State → State × A) → System → System × A
with_slot missing body s = elim s.current [
  | none ↦ (s, missing)
  | some slot ↦
      let (t, a) = body (record { slot = slot; shared = s.shared }) in
      (record { current = some t.slot; shared = t.shared }, a)
]

unfoldable pub sched_fd_close : ℤ → System → System × Reply
unfolding sched_slot_close_fd
sched_fd_close fd = with_slot (err ebadf) (λ st. sched_slot_close_fd st fd)

-- The new descriptor `n` is made to share the open file `o` of the entry `i`.
unfoldable pub share_at : ℕ → ℕ → ℕ → ℕ → State → State
unfolding sched_pipe_endpoint_inc
share_at i o n flags st = record {
  slot =
      put_ofile o (λ f. record f { refs = add32 f.refs 1 })
        (put_fdent n
          (λ e. record {
            used = true;
            ofile_idx = (fdent_at st.slot i).ofile_idx;
            fd_flags = flags;
          })
          st.slot);
  shared =
      sched_pipe_endpoint_inc (ofile_at st.slot o).kind (ofile_at st.slot o).fs_backend st.shared;
}

unfoldable pub dup_min_locked : ℤ → ℤ → ℕ → State → State × Reply
unfolding sched_slot_ofile_by_fd sched_slot_find_free_fd share_at
dup_min_locked oldfd (negsuc m) fd_flags st = (st, err einval)
dup_min_locked oldfd (pos m) fd_flags st =
    if leb max_fds m then (st, err ebadf) else elim (sched_slot_ofile_by_fd st.slot oldfd) [
      | none ↦ (st, err ebadf)
      | some (i, o) ↦ elim (sched_slot_find_free_fd st.slot m) [
        | none ↦ (st, err emfile)
        | some n ↦ (share_at i o n (cloexec fd_flags) st, ok n)
      ]
    ]

unfoldable pub sched_fd_dup_min : ℤ → ℤ → ℕ → System → System × Reply
unfolding dup_min_locked
sched_fd_dup_min oldfd minfd fd_flags = with_slot (err ebadf) (dup_min_locked oldfd minfd fd_flags)

unfoldable pub sched_fd_dup : ℤ → System → System × Reply
unfolding sched_fd_dup_min
sched_fd_dup oldfd = sched_fd_dup_min oldfd (pos 0) 0

unfoldable pub dup2_locked : ℤ → ℤ → State → State × Reply
unfolding sched_slot_ofile_by_fd sched_slot_close_fd share_at
dup2_locked oldfd (negsuc m) st = (st, err einval)
dup2_locked oldfd (pos n) st =
    if leb max_fds n then (st, err einval) else elim (sched_slot_ofile_by_fd st.slot oldfd) [
      | none ↦ (st, err ebadf)
      | some (i, o) ↦
          if i == n
          then (st, ok n)
          else if (fdent_at st.slot n).used
          then (share_at i o n 0 (sched_slot_close_fd st (pos n)).0, ok n)
          else (share_at i o n 0 st, ok n)
    ]

unfoldable pub sched_fd_dup2 : ℤ → ℤ → System → System × Reply
unfolding dup2_locked
sched_fd_dup2 oldfd newfd = with_slot (err ebadf) (dup2_locked oldfd newfd)

-- The assignments to a fresh open file; `sock_ptr` is left as it was.
abbrev pub fresh_ofile : ℕ → ℕ → ℕ → ℕ → ℕ → Bool → Ofile → Ofile
fresh_ofile kind flags backend id size is_dir o = record {
  used = true;
  refs = 1;
  kind = kind;
  status_flags = flags;
  fs_backend = backend;
  file_id = id;
  file_size = size;
  file_offset = 0;
  file_is_dir = is_dir;
  sock_ptr = o.sock_ptr;
}

-- A fresh open file at index `o` behind the descriptor `fd`.
unfoldable pub install_at : ℕ → ℕ → (Ofile → Ofile) → Slot → Slot
install_at fd o f s =
    put_fdent fd (λ e. record { used = true; ofile_idx = o; fd_flags = 0 }) (put_ofile o f s)

-- The part that `sched_fd_open_special` and `sched_fd_open_regular` share.
unfoldable pub open_free : (Ofile → Ofile) → State → State × Reply
unfolding sched_slot_find_free_fd sched_slot_find_free_ofile install_at
open_free f st = elim (sched_slot_find_free_fd st.slot 0) [
  | none ↦ (st, err emfile)
  | some fd ↦ elim (sched_slot_find_free_ofile st.slot) [
    | none ↦ (st, err emfile)
    | some o ↦ (record st { slot = install_at fd o f st.slot }, ok fd)
  ]
]

-- The switch over `special_type`; `none` is its default.
abbrev pub special_kind : ℕ → Option ℕ
special_kind t =
    if t == special_dev_null
    then some type_dev_null
    else if t == special_dev_zero
    then some type_dev_zero
    else if t == special_dev_tty
    then some type_dev_tty
    else if t == special_socket
    then some type_socket
    else none

unfoldable pub open_special_locked : ℕ → ℕ → State → State × Reply
unfolding open_free
open_special_locked special_type status_flags st = elim (special_kind special_type) [
  | none ↦ (st, err einval)
  | some kind ↦
      open_free (fresh_ofile kind (accmode status_flags + nonblock status_flags) 0 0 0 false) st
]

unfoldable pub sched_fd_open_special : ℕ → ℕ → System → System × Reply
unfolding open_free open_special_locked
sched_fd_open_special special_type status_flags =
    with_slot (err ebadf) (open_special_locked special_type status_flags)

unfoldable pub open_regular_locked : ℕ → ℕ → ℕ → ℕ → Bool → State → State × Reply
unfolding open_free
open_regular_locked status_flags fs_backend file_id file_size is_dir st =
    let acc = accmode status_flags in
    if not (acc == o_rdonly || acc == o_wronly || acc == o_rdwr)
    then (st, err einval)
    else open_free
        (fresh_ofile type_regular (accmode status_flags + nonblock status_flags) fs_backend file_id
          file_size is_dir)
        st

unfoldable pub sched_fd_open_regular : ℕ → ℕ → ℕ → ℕ → Bool → System → System × Reply
unfolding open_free open_regular_locked
sched_fd_open_regular status_flags fs_backend file_id file_size is_dir =
    with_slot (err ebadf) (open_regular_locked status_flags fs_backend file_id file_size is_dir)

-- Two ends of the pipe `id`, once all four indices and the pipe are found.
unfoldable pub install_pipe : ℕ → ℕ → ℕ → ℕ → ℕ → Slot → Slot
unfolding install_at
install_pipe rfd wfd rof wof id s =
    install_at wfd wof (fresh_ofile type_pipe_write o_wronly id 0 0 false)
      (install_at rfd rof (fresh_ofile type_pipe_read o_rdonly id 0 0 false) s)

-- `read_of`, and `write_of` searched while `read_of` is marked as used.
unfoldable pub find_two_ofiles : Slot → Option (ℕ × ℕ)
unfolding sched_slot_find_free_ofile find_pair
find_two_ofiles s =
    find_pair (sched_slot_find_free_ofile s)
      (λ r. sched_slot_find_free_ofile (put_ofile r (λ o. record o { used = true }) s))

-- `read_fd` and the next free descriptor after it.
unfoldable pub find_two_fds : Slot → Option (ℕ × ℕ)
unfolding sched_slot_find_free_fd find_pair
find_two_fds s = find_pair (sched_slot_find_free_fd s 0) (λ r. sched_slot_find_free_fd s (r + 1))

unfoldable pub pipe_locked : State → State × Result FdError (ℕ × ℕ)
unfolding find_two_fds find_two_ofiles install_pipe sched_pipe_alloc_locked sched_pipe_init_once
pipe_locked st = elim (find_two_fds st.slot) [
  | none ↦ (st, err emfile)
  | some (rfd, wfd) ↦ elim (find_two_ofiles st.slot) [
    | none ↦ (st, err emfile)
    | some (rof, wof) ↦
        let (g, found) = sched_pipe_alloc_locked (sched_pipe_init_once st.shared) in
        elim found [
          | none ↦ (record st { shared = g }, err emfile)
          | some id ↦ (
            record {
              slot = install_pipe rfd wfd rof wof id st.slot;
              shared = record g {
                pipes = modify g.pipes id (λ p. record p { read_refs = 1; write_refs = 1 }) no_pipe;
              };
            },
            ok (rfd, wfd),
          )
        ]
  ]
]

-- The two descriptors that the source stores through `pipefd_addr` are the value.
unfoldable pub sched_fd_pipe : System → System × Result FdError (ℕ × ℕ)
unfolding pipe_locked
sched_fd_pipe = with_slot (err ebadf) pipe_locked

-- One round of the loop, with the count of the descriptors closed so far.
abbrev pub cloexec_round : ℕ → State × ℕ → State × ℕ
cloexec_round i (st, closed) =
    let e = fdent_at st.slot i in
    let (st', rc) = sched_slot_close_fd st (pos i) in
    if not e.used
    then (st, closed)
    else if cloexec e.fd_flags == 0
    then (st, closed)
    else (st', if is_ok rc then closed + 1 else closed)

unfoldable pub cloexec_locked : State → State × Reply
unfolding sched_slot_close_fd for_range
cloexec_locked st =
    let (st', closed) = for_range max_fds 0 cloexec_round (st, 0) in (st', ok closed)

unfoldable pub sched_fd_close_cloexec : System → System × Reply
unfolding cloexec_locked
sched_fd_close_cloexec = with_slot (err ebadf) cloexec_locked
