-- ===== src/Fs/Tests.antt =====
-- The file system switch over a disk that counts the calls it gets.
use octans.Prelude.{
  ◌↔◌, ◌≢◌, ℕ, zero, suc, ◌+◌, ◌<◌, ◌≡◌, refl, ◌⊎◌, pos, [], ◌∷◌, some, true, false, arith, inl,
  err, replicate, get_or,
}
use octans.Sched.Fd.State.{
  FdError, emfile, eagain, epipe, State, Slot, Fdent, max_fds, no_ofile, no_fdent, no_pipe,
  pipe_max,
}
use octans.Sched.Fd.Table.{sched_fd_table_init_stdio}
use octans.Sched.Fd.Refs.Loops.{init_stdio-IsCounted}
use octans.Fs.Base.{
  Backend, World, FilePath, dev_null, proc_prefix, fs_err_noent, fs_err_rofs, fd_error_code,
}
use octans.Fs.Ops.{fs_open, fs_stat, fs_fstat, fs_unlink, fs_mkdir, fs_rmdir, fs_rename}
use octans.Fs.Errno.{
  errno_enoent, errno_emfile, errno_from_fs_rc, errno_from_sched_fd_rc, open_full_errno,
  errno_agrees_exact,
}
use octans.Fs.Stat.{fstat_of_open}
use octans.Fs.Guard.{IsReserved, tree_calls_exact}

-- Every call of the disk adds one to it.
called : World ℕ → World ℕ
called w = record w { disk = w.disk + 1 }

counting : Backend ℕ
counting = record {
  ext4_open = λ p flags w. (called w, fs_err_noent);
  proc_open = λ p flags w. (w, fs_err_noent);
  ext4_stat = λ p w. (called w, err fs_err_noent);
  proc_stat = λ p w. (w, err fs_err_noent);
  ext4_getdents_fd = λ fd len w. (called w, (pos 0, []));
  proc_getdents_fd = λ fd len w. (w, (pos 0, []));
  ext4_readlink = λ p len w. (called w, (fs_err_noent, []));
  ext4_unlink = λ p w. (called w, pos 0);
  ext4_mkdir = λ p mode w. (called w, pos 0);
  ext4_rmdir = λ p w. (called w, pos 0);
  ext4_rename = λ o n w. (called w, pos 0);
  ext4_read_fd = λ fd len w. (called w, (pos 0, []));
  proc_read_fd = λ fd len w. (w, (pos 0, []));
  ext4_write_fd = λ fd src w. (called w, pos 0);
}

abbrev blank : State
blank = record {
  slot = record { ofiles = replicate max_fds no_ofile; fdtab = replicate max_fds no_fdent };
  shared = record { inited = false; pipes = replicate pipe_max no_pipe };
}

abbrev world : Slot → World ℕ
world slot = record { fds = record { current = some slot; shared = blank.shared }; disk = 0 }

abbrev taken : Fdent
taken = record { used = true; ofile_idx = 0; fd_flags = 0 }

abbrev full_slot : Slot
full_slot = record { ofiles = replicate max_fds no_ofile; fdtab = replicate max_fds taken }

used_below : (n i : ℕ) → i < n → (get_or (replicate n taken) i no_fdent).used ≡ true
used_below zero i h = absurd (omega (arith, h))
used_below (suc n) zero h = refl
used_below (suc n) (suc i) h = used_below n i (omega (arith, h))

errno_agrees_exact_example :
    (errno_from_fs_rc (fd_error_code epipe) ≡ errno_from_sched_fd_rc (fd_error_code epipe))
    ↔ ((◌≢◌ {A = FdError} epipe emfile) × (◌≢◌ {A = FdError} epipe eagain))
errno_agrees_exact_example = errno_agrees_exact epipe

open_full_errno_example :
    let rc = (fs_open counting (some dev_null) 0 (world full_slot)).1 in
    (errno_from_fs_rc rc ≡ errno_enoent) × (errno_from_sched_fd_rc rc ≡ errno_emfile)
open_full_errno_example =
    open_full_errno counting dev_null 0 (world full_slot) full_slot (inl refl)
      (record { current = refl; full = used_below max_fds })

abbrev streams : Slot
streams = (sched_fd_table_init_stdio blank).slot

fstat_of_open_example :
    (fs_fstat (pos 3) true (fs_open counting (some dev_null) 2 (world streams)).0).1
    ≡ (fs_stat counting (some dev_null) true (world streams)).1
unfolding fs_open sched_fd_table_init_stdio
fstat_of_open_example =
    fstat_of_open counting dev_null 2 3 (world streams) streams (inl refl) refl
      (init_stdio-IsCounted blank (refl, refl)) refl

abbrev etc : FilePath
etc = b'/' ∷ b'e' ∷ b't' ∷ b'c' ∷ []

tree_calls_exact_example :
    (IsReserved etc
      × (fs_unlink counting (some etc) (world streams) ≡ (world streams, fs_err_rofs))
      × (fs_mkdir counting (some etc) 0 (world streams) ≡ (world streams, fs_err_rofs))
      × (fs_rmdir counting (some etc) (world streams) ≡ (world streams, fs_err_rofs)))
    ⊎ ((¬ IsReserved etc)
        × (fs_unlink counting (some etc) (world streams) ≡ counting.ext4_unlink etc (world streams))
        × (fs_mkdir counting (some etc) 0 (world streams)
            ≡ counting.ext4_mkdir etc 0 (world streams))
        × (fs_rmdir counting (some etc) (world streams) ≡ counting.ext4_rmdir etc (world streams)))
tree_calls_exact_example =
    tree_calls_exact counting (world streams) etc 0 (λ e. absurd (ground arith))

-- The rename above is refused.
rename_runs :
    fs_rename counting (some etc) (some proc_prefix) (world streams) ≡ (world streams, fs_err_rofs)
unfolding fs_rename
rename_runs = refl
