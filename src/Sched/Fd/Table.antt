-- ===== src/Sched/Fd/Table.antt =====
-- The descriptor table of one slot: reset, clear, stdio, clone, look-up and close
-- (`sched_ofile_reset` to `sched_slot_close_all_fds` of src/sched_fd.c). The operations that take
-- `fd_lock` run as one step. A pointer into a table is its index.
use octans.Prelude.{
  ℕ, zero, suc, ◌+◌, ◌-◌, ℤ, pos, negsuc, Option, none, some, true, false, ◌||◌, not, leb, ◌==◌,
  if◌then◌else◌, get_or, modify, for_range, find_from, add32, ok, err,
}
use octans.Sched.Fd.State.{
  Ofile, Fdent, Slot, State, Reply, ebadf, max_fds, ofile_invalid, no_ofile, no_fdent, type_none,
  type_stdin, type_stdout, type_stderr, o_rdonly, o_wronly,
}
use octans.Sched.Fd.Pipe.{sched_pipe_init_once, sched_pipe_endpoint_inc, sched_pipe_endpoint_dec}

-- `sock_ptr` is not among the fields that the source resets.
abbrev pub sched_ofile_reset : Ofile → Ofile
sched_ofile_reset o = record {
  used = false;
  refs = 0;
  kind = type_none;
  status_flags = 0;
  fs_backend = 0;
  file_id = 0;
  file_size = 0;
  file_offset = 0;
  file_is_dir = false;
  sock_ptr = o.sock_ptr;
}

abbrev pub sched_fdent_reset : Fdent → Fdent
sched_fdent_reset e = record { used = false; ofile_idx = ofile_invalid; fd_flags = 0 }

abbrev pub put_ofile : ℕ → (Ofile → Ofile) → Slot → Slot
put_ofile i f s = record s { ofiles = modify s.ofiles i f no_ofile }

abbrev pub put_fdent : ℕ → (Fdent → Fdent) → Slot → Slot
put_fdent i f s = record s { fdtab = modify s.fdtab i f no_fdent }

abbrev pub ofile_at : Slot → ℕ → Ofile
ofile_at s i = get_or s.ofiles i no_ofile

abbrev pub fdent_at : Slot → ℕ → Fdent
fdent_at s i = get_or s.fdtab i no_fdent

abbrev pub clear_entry : ℕ → Slot → Slot
clear_entry i s = put_fdent i sched_fdent_reset (put_ofile i sched_ofile_reset s)

unfoldable pub sched_fd_table_clear : Slot → Slot
unfolding for_range
sched_fd_table_clear s = for_range max_fds 0 clear_entry s

-- The assignments for one of the three standard descriptors.
abbrev pub stdio_entry : ℕ → ℕ → ℕ → Slot → Slot
stdio_entry i kind flags s =
    put_fdent i (λ e. record e { used = true; ofile_idx = i })
      (put_ofile i (λ o. record o { used = true; refs = 1; kind = kind; status_flags = flags }) s)

unfoldable pub sched_fd_table_init_stdio : State → State
unfolding sched_fd_table_clear sched_pipe_init_once
sched_fd_table_init_stdio st = record {
  shared = sched_pipe_init_once st.shared;
  slot = stdio_entry 2 type_stderr o_wronly (
      stdio_entry 1 type_stdout o_wronly
        (stdio_entry 0 type_stdin o_rdonly (sched_fd_table_clear st.slot)));
}

-- The fields that the clone copies: all but `sock_ptr`.
abbrev pub ofile_copy : Ofile → Ofile → Ofile
ofile_copy src o = record o {
  used = src.used;
  refs = src.refs;
  kind = src.kind;
  status_flags = src.status_flags;
  fs_backend = src.fs_backend;
  file_id = src.file_id;
  file_size = src.file_size;
  file_offset = src.file_offset;
  file_is_dir = src.file_is_dir;
}

abbrev pub clone_entry : Slot → ℕ → Slot → Slot
clone_entry src i s =
    put_fdent i (λ _. fdent_at src i) (put_ofile i (ofile_copy (ofile_at src i)) s)

abbrev pub clone_zero : ℕ → Slot → Slot
clone_zero i = put_ofile i (λ o. record o { refs = 0 })

-- One more descriptor of the open file that the entry `i` names.
unfoldable pub clone_ref : ℕ → State → State
unfolding sched_pipe_endpoint_inc
clone_ref i st =
    let o = (fdent_at st.slot i).ofile_idx in
    record {
      slot = put_ofile o (λ f. record f { refs = add32 f.refs 1 }) st.slot;
      shared =
          sched_pipe_endpoint_inc (ofile_at st.slot o).kind (ofile_at st.slot o).fs_backend
            st.shared;
    }

-- The last loop of the clone, with the source's early return; `n` rounds are left, `i` is next.
unfoldable pub clone_count : ℕ → ℕ → State → State × Reply
clone_count zero i st = (st, ok 0)
clone_count (suc n) i st =
    let e = fdent_at st.slot i in
    let skipped = clone_count n (i + 1) st in
    let counted = clone_count n (i + 1) (clone_ref i st) in
    if not e.used
    then skipped
    else if leb max_fds e.ofile_idx || not (ofile_at st.slot e.ofile_idx).used
    then (st, err ebadf)
    else counted

-- `sched_fd_table_clone(dst, src)`: the state's slot is `dst`.
unfoldable pub sched_fd_table_clone : State → Slot → State × Reply
unfolding sched_fd_table_clear clone_count for_range
sched_fd_table_clone st src =
    let copied = for_range max_fds 0 (clone_entry src) (sched_fd_table_clear st.slot) in
    clone_count max_fds 0 (record st { slot = for_range max_fds 0 clone_zero copied })

-- The test of a descriptor that is not negative, with the indices of its entry and its open file.
abbrev pub slot_ofile_at : Slot → ℕ → Option (ℕ × ℕ)
slot_ofile_at s fd =
    let e = fdent_at s fd in
    let o = ofile_at s e.ofile_idx in
    if leb max_fds fd
    then none
    else if not e.used || leb max_fds e.ofile_idx || not o.used || o.refs == 0
    then none
    else some (fd, e.ofile_idx)

-- `none` is NULL.
unfoldable pub sched_slot_ofile_by_fd : Slot → ℤ → Option (ℕ × ℕ)
sched_slot_ofile_by_fd s (negsuc n) = none
sched_slot_ofile_by_fd s (pos fd) = slot_ofile_at s fd

unfoldable pub sched_slot_find_free_fd : Slot → ℕ → Option ℕ
unfolding find_from
sched_slot_find_free_fd s start =
    if leb max_fds start
    then none
    else find_from (λ i. not (fdent_at s i).used) (max_fds - start) start

unfoldable pub sched_slot_find_free_ofile : Slot → Option ℕ
unfolding find_from
sched_slot_find_free_ofile s = find_from (λ i. not (ofile_at s i).used) max_fds 0

-- The end of `sched_slot_close_fd`: one reference less, and a reset with the last.
abbrev pub ofile_drop : Ofile → Ofile
ofile_drop o =
    let left = o.refs - 1 in if left == 0 then sched_ofile_reset o else record o { refs = left }

-- What closing the descriptor `fd` on the open file `i` does.
unfoldable pub close_at : State → ℕ → ℕ → State
unfolding sched_pipe_endpoint_dec
close_at st fd i = record {
  slot = put_ofile i ofile_drop (put_fdent fd sched_fdent_reset st.slot);
  shared =
      sched_pipe_endpoint_dec (ofile_at st.slot i).kind (ofile_at st.slot i).fs_backend st.shared;
}

unfoldable pub sched_slot_close_fd : State → ℤ → State × Reply
unfolding sched_slot_ofile_by_fd close_at
sched_slot_close_fd st fd = elim (sched_slot_ofile_by_fd st.slot fd) [
  | none ↦ (st, err ebadf)
  | some (i, o) ↦ (close_at st i o, ok 0)
]

abbrev pub close_used : ℕ → State → State
close_used i st = if (fdent_at st.slot i).used then (sched_slot_close_fd st (pos i)).0 else st

unfoldable pub sched_slot_close_all_fds : State → State
unfolding sched_slot_close_fd for_range
sched_slot_close_all_fds st = for_range max_fds 0 close_used st
