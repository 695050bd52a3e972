-- ===== src/Sched/Fd/Refs/Run.antt =====
-- Every call of src/sched_fd.c keeps the counts, and so does every sequence of calls.
use octans.Prelude.{
  ℕ, ℤ, Bool, false, ◌==◌, refl, arith, inl, inr, Bool-cases, some, Option-cases, List, [], ◌∷◌,
  ◌+◌, pos, ◌||◌,
}
use octans.Sched.Fd.State.{
  Pipe, State, System, type_pipe_read, type_pipe_write, type_regular, type_socket, accmode,
  nonblock, cloexec, o_rdonly, o_wronly, o_rdwr,
}
use octans.Sched.Fd.Table.{sched_fd_table_init_stdio, ofile_at, sched_slot_close_fd}
use octans.Sched.Fd.Ops.{
  dup_min_locked, dup2_locked, sched_fd_close, sched_fd_dup, sched_fd_dup_min, sched_fd_dup2,
  sched_fd_open_special, sched_fd_open_regular, sched_fd_pipe, sched_fd_close_cloexec, pipe_locked,
  cloexec_locked, open_special_locked, open_regular_locked, special_kind, fresh_ofile,
}
use octans.Sched.Fd.File.{
  sched_fd_fcntl_setfd, sched_fd_fcntl_setfl, sched_fd_lseek, sched_fd_regular_advance,
  sched_fd_regular_commit_write, sched_fd_sock_set, seek_base, seek_next, set_offset, advance_next,
  committed, set_nonblock, setfd_at, setfl_at, lseek_at, advance_at, commit_at, sock_set_at,
}
use octans.Sched.Fd.PipeIo.{
  sched_fd_pipe_id_for_fd, sched_fd_pipe_read, sched_fd_pipe_write, sched_fd_pipe_read_ready,
  sched_fd_pipe_write_ready, pipe_id_at, pipe_ready, read_test, write_test,
}
use octans.Sched.Fd.Calls.{
  Call, close, dup, dup_min, dup2, setfd, setfl, open_special, open_regular, pipe, close_cloexec,
  lseek, pipe_read, pipe_write, read_ready, write_ready, advance, commit_write, sock_set, step, run,
}
use octans.Sched.Fd.Refs.Inv.{IsCounted}
use octans.Sched.Fd.Refs.Share.{IsOn, close_fd-IsCounted}
use octans.Sched.Fd.Refs.Open.{open_free-IsCounted, pipe_locked-IsCounted}
use octans.Sched.Fd.Refs.Loops.{Sized, cloexec_locked-IsCounted, init_stdio-IsCounted}
use octans.Sched.Fd.Refs.Keep.{
  Counted, Keeps, with_slot-Keeps, with_ofile-Keeps, put_ofile-IsCounted, set_flags-IsCounted,
  dup_min-IsCounted, dup2-IsCounted,
}

setfd-Keeps : (fd : ℤ) (flags : ℕ) → Keeps (sched_fd_fcntl_setfd fd flags)
unfolding sched_fd_fcntl_setfd
setfd-Keeps fd flags =
    with_ofile-Keeps _ fd (setfd_at flags)
      (λ i o st v on. set_flags-IsCounted i o (cloexec flags) st.slot v on)

setfl-Keeps : (fd : ℤ) (flags : ℕ) → Keeps (sched_fd_fcntl_setfl fd flags)
unfolding sched_fd_fcntl_setfl
setfl-Keeps fd flags = with_ofile-Keeps _ fd (setfl_at flags) λ i o st v on.
    put_ofile-IsCounted o (λ f. record f { status_flags = set_nonblock f.status_flags flags })
      st.slot v on.ofile_in refl refl

open_special-IsCounted :
    (t flags : ℕ) (st : State)
    → IsCounted st.slot
    → IsCounted (open_special_locked t flags st).0.slot
unfolding open_special_locked
open_special-IsCounted t flags st v = elim (Option-cases (special_kind t)) [
  | inl e ↦ rw (e, open_special_locked) v
  | inr (kind, e) ↦
      rw (e, open_special_locked)
        (open_free-IsCounted (fresh_ofile kind (accmode flags + nonblock flags) 0 0 0 false) st v
          (λ o. refl) (λ o. refl))
]

open_special-Keeps : (t flags : ℕ) → Keeps (sched_fd_open_special t flags)
unfolding sched_fd_open_special
open_special-Keeps t flags =
    with_slot-Keeps _ (open_special_locked t flags) (open_special-IsCounted t flags)

open_regular-IsCounted :
    (flags b id size : ℕ) (dir : Bool) (st : State)
    → IsCounted st.slot
    → IsCounted (open_regular_locked flags b id size dir st).0.slot
unfolding open_regular_locked
open_regular-IsCounted flags b id size dir st v =
    elim (Bool-cases
      (accmode flags == o_rdonly || accmode flags == o_wronly || accmode flags == o_rdwr)) [
        | inl e ↦ rw e (
            open_free-IsCounted
              (fresh_ofile type_regular (accmode flags + nonblock flags) b id size dir) st v
              (λ o. refl) (λ o. refl))
        | inr e ↦ rw e v
      ]

open_regular-Keeps :
    (flags b id size : ℕ) (dir : Bool) → Keeps (sched_fd_open_regular flags b id size dir)
unfolding sched_fd_open_regular
open_regular-Keeps flags b id size dir =
    with_slot-Keeps _ (open_regular_locked flags b id size dir)
      (open_regular-IsCounted flags b id size dir)

-- A move of the position of a regular file.
set_offset-IsCounted :
    (i o next : ℕ) (st : State)
    → IsCounted st.slot
    → IsOn st.slot i o
    → IsCounted (set_offset o next st).0.slot
set_offset-IsCounted i o next st v on =
    put_ofile-IsCounted o (λ f. record f { file_offset = next }) st.slot v on.ofile_in refl refl

lseek-IsCounted :
    (offset : ℤ) (whence i o : ℕ) (st : State)
    → IsCounted st.slot
    → IsOn st.slot i o
    → IsCounted (lseek_at offset whence i o st).0.slot
unfolding lseek_at
lseek-IsCounted offset whence i o st v on =
    elim (Bool-cases ((ofile_at st.slot o).kind == type_regular)) [
      | inr e ↦ rw e v
      | inl e ↦ elim (Option-cases (seek_base whence (ofile_at st.slot o))) [
        | inl e' ↦ rw (e, e') v
        | inr (base, e') ↦ elim (Option-cases (seek_next base offset)) [
          | inl e'' ↦ rw (e, e', e'') v
          | inr (next, e'') ↦ rw (e, e', e'') (set_offset-IsCounted i o next st v on)
        ]
      ]
    ]

lseek-Keeps : (fd offset : ℤ) (whence : ℕ) → Keeps (sched_fd_lseek fd offset whence)
unfolding sched_fd_lseek
lseek-Keeps fd offset whence =
    with_ofile-Keeps _ fd (lseek_at offset whence) (lseek-IsCounted offset whence)

advance-IsCounted :
    (delta i o : ℕ) (st : State)
    → IsCounted st.slot
    → IsOn st.slot i o
    → IsCounted (advance_at delta i o st).0.slot
unfolding advance_at
advance-IsCounted delta i o st v on =
    let f = ofile_at st.slot o in
    elim (Bool-cases ((ofile_at st.slot o).kind == type_regular)) [
      | inr e ↦ rw e v
      | inl e ↦
          rw e (set_offset-IsCounted i o (advance_next f.file_offset f.file_size delta) st v on)
    ]

advance-Keeps : (fd : ℤ) (delta : ℕ) → Keeps (sched_fd_regular_advance fd delta)
unfolding sched_fd_regular_advance
advance-Keeps fd delta = with_ofile-Keeps _ fd (advance_at delta) (advance-IsCounted delta)

commit-IsCounted :
    (written size i o : ℕ) (st : State)
    → IsCounted st.slot
    → IsOn st.slot i o
    → IsCounted (commit_at written size i o st).0.slot
unfolding commit_at
commit-IsCounted written size i o st v on =
    elim (Bool-cases ((ofile_at st.slot o).kind == type_regular)) [
      | inr e ↦ rw e v
      | inl e ↦
          rw e (put_ofile-IsCounted o (committed written size) st.slot v on.ofile_in refl refl)
    ]

commit-Keeps : (fd : ℤ) (written size : ℕ) → Keeps (sched_fd_regular_commit_write fd written size)
unfolding sched_fd_regular_commit_write
commit-Keeps fd written size =
    with_ofile-Keeps _ fd (commit_at written size) (commit-IsCounted written size)

sock_set-IsCounted :
    (p i o : ℕ) (st : State)
    → IsCounted st.slot
    → IsOn st.slot i o
    → IsCounted (sock_set_at p i o st).0.slot
unfolding sock_set_at
sock_set-IsCounted p i o st v on = elim (Bool-cases ((ofile_at st.slot o).kind == type_socket)) [
  | inr e ↦ rw e v
  | inl e ↦
      rw e (put_ofile-IsCounted o (λ f. record f { sock_ptr = p }) st.slot v on.ofile_in refl refl)
]

sock_set-Keeps : (fd : ℤ) (p : ℕ) → Keeps (sched_fd_sock_set fd p)
unfolding sched_fd_sock_set
sock_set-Keeps fd p = with_ofile-Keeps _ fd (sock_set_at p) (sock_set-IsCounted p)

pipe_id-IsCounted :
    (want i o : ℕ) (st : State)
    → IsCounted st.slot
    → IsOn st.slot i o
    → IsCounted (pipe_id_at want i o st).0.slot
unfolding pipe_id_at
pipe_id-IsCounted want i o st v on = ground (arith, v)

pipe_id-Keeps : (fd : ℤ) (want : ℕ) → Keeps (sched_fd_pipe_id_for_fd fd want)
unfolding sched_fd_pipe_id_for_fd
pipe_id-Keeps fd want = with_ofile-Keeps _ fd (pipe_id_at want) (pipe_id-IsCounted want)

-- What a read, a write or a ready test does after the look-up changes the pipes alone.
pipe_read-Counted :
    (fd : ℤ) (dst : Bool) (len : ℕ) (s : System)
    → Counted s.current
    → Counted (sched_fd_pipe_read fd dst len s).0.current
unfolding sched_fd_pipe_read
pipe_read-Counted fd dst len s v = ground (arith, v, pipe_id-Keeps fd type_pipe_read s v)

pipe_write-Keeps : (fd : ℤ) (p : Bool) (src : List ℕ) → Keeps (sched_fd_pipe_write fd p src)
unfolding sched_fd_pipe_write
pipe_write-Keeps fd p src s v = ground (arith, v, pipe_id-Keeps fd type_pipe_write s v)

ready-Keeps : (fd : ℤ) (want : ℕ) (test : Pipe → Bool) → Keeps (pipe_ready fd want test)
ready-Keeps fd want test s v = ground (arith, v, pipe_id-Keeps fd want s v)

-- A call of the layer keeps the counts of the current slot, whatever its arguments.
pub step-Counted : (c : Call) (s : System) → Counted s.current → Counted (step c s).current
unfolding step sched_fd_close sched_fd_dup sched_fd_dup_min sched_fd_dup2 sched_fd_pipe
    sched_fd_close_cloexec sched_fd_pipe_read_ready sched_fd_pipe_write_ready
step-Counted (close fd) s v =
    with_slot-Keeps _ (λ st. sched_slot_close_fd st fd) (λ st. close_fd-IsCounted st fd) s v
step-Counted (dup fd) s v =
    with_slot-Keeps _ (dup_min_locked fd (pos 0) 0) (dup_min-IsCounted fd (pos 0) 0) s v
step-Counted (dup_min fd m flags) s v =
    with_slot-Keeps _ (dup_min_locked fd m flags) (dup_min-IsCounted fd m flags) s v
step-Counted (dup2 fd n) s v = with_slot-Keeps _ (dup2_locked fd n) (dup2-IsCounted fd n) s v
step-Counted (setfd fd flags) s v = setfd-Keeps fd flags s v
step-Counted (setfl fd flags) s v = setfl-Keeps fd flags s v
step-Counted (open_special t flags) s v = open_special-Keeps t flags s v
step-Counted (open_regular flags b id size dir) s v = open_regular-Keeps flags b id size dir s v
step-Counted pipe s v = with_slot-Keeps _ pipe_locked pipe_locked-IsCounted s v
step-Counted close_cloexec s v = with_slot-Keeps _ cloexec_locked cloexec_locked-IsCounted s v
step-Counted (lseek fd off whence) s v = lseek-Keeps fd off whence s v
step-Counted (pipe_read fd dst len) s v = pipe_read-Counted fd dst len s v
step-Counted (pipe_write fd src bytes) s v = pipe_write-Keeps fd src bytes s v
step-Counted (read_ready fd) s v = ready-Keeps fd type_pipe_read read_test s v
step-Counted (write_ready fd) s v = ready-Keeps fd type_pipe_write write_test s v
step-Counted (advance fd delta) s v = advance-Keeps fd delta s v
step-Counted (commit_write fd n size) s v = commit-Keeps fd n size s v
step-Counted (sock_set fd p) s v = sock_set-Keeps fd p s v

pub run-Counted : (cs : List Call) (s : System) → Counted s.current → Counted (run cs s).current
unfolding run
run-Counted [] s v = v
run-Counted (c ∷ cs) s v = run-Counted cs (step c s) (step-Counted c s v)

-- The layer as a task starts with it.
abbrev pub started : State → System
started st =
    let t = sched_fd_table_init_stdio st in record { current = some t.slot; shared = t.shared }

-- From a slot whose tables have their 32 entries, with any contents, `sched_fd_table_init_stdio`
-- and then any sequence of calls leave every open file with a count equal to the number of
-- descriptors that refer to it, in use exactly while that count is not 0, and every used
-- descriptor referring into the table.
pub run-started-Counted :
    (cs : List Call) (st : State) → Sized st.slot → Counted (run cs (started st)).current
run-started-Counted cs st h = run-Counted cs (started st) (init_stdio-IsCounted st h)
