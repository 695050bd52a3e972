-- ===== src/Sched/Fd/Tests.antt =====
-- Concrete runs of the descriptor layer, and its theorems at concrete inputs.
use octans.Prelude.{
  ◌≡◌, refl, arith, pos, List, [], ◌∷◌, true, false, replicate, ok, set, take, drop, length, min,
  not, is_ok, ◌++◌, ◌-◌,
}
use octans.Sched.Fd.State.{
  System, State, Slot, Pipes, Pipe, max_fds, pipe_max, pipe_cap, no_ofile, no_fdent, no_pipe,
}
use octans.Sched.Fd.Calls.{Call, close, dup, dup2, pipe, run}
use octans.Sched.Fd.Refs.Run.{started, run-started-Counted}
use octans.Sched.Fd.Refs.Keep.{Counted}
use octans.Sched.Fd.Refs.Loops.{FreeBelow, close_all-FreeBelow, init_stdio-IsCounted}
use octans.Sched.Fd.Table.{
  sched_fd_table_init_stdio, sched_fd_table_clone, sched_slot_close_all_fds,
}
use octans.Sched.Fd.PipeIo.{pipe_at, pipe_read_locked, pipe_write_locked, read_test, write_test}
use octans.Sched.Fd.Clone.{clone_lem}
use octans.Sched.Fd.Channel.Queue.{contents, IsRing}
use octans.Sched.Fd.Channel.Transfer.{transfer, transfer-contents, reading, writing}
use octans.Sched.Fd.Channel.Replies.{
  read_spec, write_spec, OthersSame, would_block, pipe_read_refines, pipe_write_refines,
  read_ready_exact, write_ready_exact,
}
use octans.Prelude.{ℕ, ◌<◌, ◌≤◌, ◌≢◌, ◌⊎◌, negsuc, err, u32_max}
use octans.Sched.Fd.State.{type_regular, einval, emfile, cloexec}
use octans.Sched.Fd.Table.{ofile_at, fdent_at, sched_slot_ofile_by_fd}
use octans.Sched.Fd.Ops.{install_at, fresh_ofile, dup_min_locked, dup2_locked}
use octans.Sched.Fd.File.{lseek_at}
use octans.Sched.Fd.Position.{Moved, OutOfRange, lseek_exact}
use octans.Sched.Fd.Dup.{IsLowestFree, Shared, dup_min_exact, dup2_exact}

abbrev blank : State
blank = record {
  slot = record { ofiles = replicate max_fds no_ofile; fdtab = replicate max_fds no_fdent };
  shared = record {
    inited = false;
    pipes = replicate pipe_max (record no_pipe { buf = replicate pipe_cap 0 });
  };
}

abbrev script : List Call
script = pipe ∷ dup (pos 3) ∷ dup2 (pos 4) (pos 0) ∷ close (pos 3) ∷ []

run-started-Counted_example : Counted (run script (started blank)).current
run-started-Counted_example = run-started-Counted script blank (refl, refl)

abbrev system : System
system = started blank

-- The slot after the script, as another task's.
abbrev forked : Slot
forked = (sched_fd_table_init_stdio blank).slot

clone_lem_example : (sched_fd_table_clone blank forked).1 ≡ ok 0
clone_lem_example =
    (clone_lem forked blank (init_stdio-IsCounted blank (refl, refl)) (refl, refl)).0

-- A live pipe with three bytes that go round the end of its buffer.
abbrev wrapped : Pipe
wrapped = record {
  used = true;
  read_refs = 1;
  write_refs = 1;
  head = 254;
  len = 3;
  buf = set (set (set (replicate pipe_cap 0) 254 7) 255 8) 0 9;
}

abbrev shared : Pipes
shared = record { inited = true; pipes = wrapped ∷ replicate 15 no_pipe }

wrapped-IsRing : IsRing wrapped
wrapped-IsRing = record { storage = refl; head_in = omega arith; len_in = omega arith }

transfer-contents_example :
    let (q, gone, come) = transfer (reading 2 ∷ writing (5 ∷ 6 ∷ []) ∷ []) wrapped in
    (gone ++ contents q ≡ contents wrapped ++ come) × IsRing q
transfer-contents_example =
    transfer-contents (reading 2 ∷ writing (5 ∷ 6 ∷ []) ∷ []) wrapped wrapped-IsRing

pipe_read_refines_example :
    let (h, reply, bytes) = pipe_read_locked 0 2 shared in
    (reply ≡ read_spec 2 (contents wrapped) 1)
    × (bytes ≡ take 2 (contents wrapped))
    × (contents (pipe_at h 0) ≡ drop 2 (contents wrapped))
    × IsRing (pipe_at h 0)
    × OthersSame 0 shared h
pipe_read_refines_example = pipe_read_refines shared 0 refl refl 2 (omega arith) wrapped-IsRing

pipe_write_refines_example :
    let room = pipe_cap - length (contents wrapped) in
    let (h, reply) = pipe_write_locked 0 (5 ∷ []) shared in
    (reply ≡ write_spec 1 room 1)
    × (contents (pipe_at h 0) ≡ contents wrapped ++ take (min 1 room) (5 ∷ []))
    × IsRing (pipe_at h 0)
    × OthersSame 0 shared h
pipe_write_refines_example = pipe_write_refines shared 0 refl refl (5 ∷ []) wrapped-IsRing

read_ready_exact_example : would_block (pipe_read_locked 0 2 shared).1 ≡ not (read_test wrapped)
read_ready_exact_example = read_ready_exact shared 0 refl refl 2 (omega arith) wrapped-IsRing

write_ready_exact_example : is_ok (pipe_write_locked 0 (5 ∷ []) shared).1 ≡ write_test wrapped
write_ready_exact_example =
    write_ready_exact shared 0 refl refl (5 ∷ []) (omega arith) wrapped-IsRing

close_all-FreeBelow_example :
    FreeBelow max_fds (sched_slot_close_all_fds (sched_fd_table_init_stdio blank)).slot
close_all-FreeBelow_example =
    close_all-FreeBelow (sched_fd_table_init_stdio blank) (init_stdio-IsCounted blank (refl, refl))

-- A slot whose descriptor 3 stands on a regular file of 100 bytes, at 90.
abbrev reading_file : State
reading_file = record {
  slot =
      install_at 3 3 (λ o. record (fresh_ofile type_regular 0 1 7 100 false o) { file_offset = 90 })
        (sched_fd_table_init_stdio blank).slot;
  shared = blank.shared;
}

-- Ten back from the end, as `SEEK_END` counts.
lseek_exact_example :
    let (t, reply) = lseek_at (negsuc 9) 2 3 3 reading_file in
    ((next : ℕ) × Moved 100 (negsuc 9) next
      × (next ≤ u32_max)
      × (reply ≡ ok next)
      × ((ofile_at t.slot 3).file_offset ≡ next))
    ⊎ (OutOfRange 100 (negsuc 9) × (reply ≡ err einval) × (t ≡ reading_file))
unfolding install_at sched_fd_table_init_stdio
lseek_exact_example =
    lseek_exact 3 3 reading_file (omega arith) (negsuc 9) 2 100 refl refl (omega arith)
      (omega arith)

-- Duplicating and replacing on the standard streams.
abbrev streams : State
streams = sched_fd_table_init_stdio blank

dup_min_exact_example :
    let (t, reply) = dup_min_locked (pos 1) (pos 10) 1 streams in
    ((n : ℕ) × IsLowestFree streams.slot 10 n
      × (reply ≡ ok n)
      × Shared streams.slot t.slot 1 n (cloexec 1))
    ⊎ (((j : ℕ) → 10 ≤ j → j < max_fds → (fdent_at streams.slot j).used ≡ true)
        × (reply ≡ err emfile)
        × (t ≡ streams))
unfolding sched_fd_table_init_stdio sched_slot_ofile_by_fd
dup_min_exact_example =
    dup_min_exact streams (pos 1) 1 1 10 1 (init_stdio-IsCounted blank (refl, refl)) refl
      (omega arith)

dup2_exact_example :
    let (t, reply) = dup2_locked (pos 1) (pos 2) streams in
    (reply ≡ ok 2)
    × (fdent_at t.slot 2 ≡ record { used = true; ofile_idx = 1; fd_flags = 0 })
    × ((j : ℕ) → ◌≢◌ {A = ℕ} 2 j → fdent_at t.slot j ≡ fdent_at streams.slot j)
unfolding sched_fd_table_init_stdio sched_slot_ofile_by_fd
dup2_exact_example =
    dup2_exact streams (pos 1) 1 1 2 (init_stdio-IsCounted blank (refl, refl)) refl (omega arith)
      (ground arith)
