-- ===== src/Fs/Base.antt =====
-- The data of src/fs.c: codes, paths, `fs_stat_t`, and the interface to src/fs_ext4.c and
-- src/fs_proc.c, which the switch calls.
use octans.Prelude.{
  ℕ, ℤ, pos, negsuc, List, [], ◌∷◌, Bool, true, false, ◌&&◌, ◌==◌, drop, Result, ok, err,
}
use octans.Sched.Fd.State.{System, FdError, Reply, ebadf, emfile, einval, espipe, eagain, epipe}

-- FS_ERR_*: `negsuc n` is -(n + 1).
abbrev pub fs_err_noent : ℤ
fs_err_noent = negsuc 1

abbrev pub fs_err_badf : ℤ
fs_err_badf = negsuc 8

abbrev pub fs_err_notdir : ℤ
fs_err_notdir = negsuc 19

abbrev pub fs_err_inval : ℤ
fs_err_inval = negsuc 21

abbrev pub fs_err_rofs : ℤ
fs_err_rofs = negsuc 29

-- FS_BACKEND_*.
abbrev pub backend_none : ℕ
backend_none = 0

abbrev pub backend_ext4 : ℕ
backend_ext4 = 1

abbrev pub backend_proc : ℕ
backend_proc = 2

-- The `int` that a call of the descriptor layer returns.
abbrev pub fd_error_code : FdError → ℤ
fd_error_code ebadf = negsuc 0
fd_error_code emfile = negsuc 1
fd_error_code einval = negsuc 2
fd_error_code espipe = negsuc 3
fd_error_code eagain = negsuc 4
fd_error_code epipe = negsuc 5

abbrev pub reply_code : Reply → ℤ
reply_code (ok n) = pos n
reply_code (err e) = fd_error_code e

-- `fs_stat_t`.
pub record Stat : Type 0 where
  pub st_dev : ℕ
  pub st_ino : ℕ
  pub st_mode : ℕ
  pub st_nlink : ℕ
  pub st_uid : ℕ
  pub st_gid : ℕ
  pub st_rdev : ℕ
  pub st_size : ℕ
  pub st_blksize : ℕ
  pub st_blocks : ℕ

-- A path is its bytes up to the terminating 0, which is not among them.
abbrev pub FilePath : Type 0
FilePath = List ℕ

-- `str_eq` of two strings that are there.
unfoldable pub str_eq : FilePath → FilePath → Bool
str_eq [] [] = true
str_eq [] (b ∷ bs) = false
str_eq (a ∷ as_) [] = false
str_eq (a ∷ as_) (b ∷ bs) = a == b && str_eq as_ bs

-- path[0] == p0 && path[1] == p1 && …; the byte behind the last one is 0.
abbrev pub has_prefix : FilePath → FilePath → Bool
has_prefix [] path = true
has_prefix (p ∷ ps) [] = false
has_prefix (p ∷ ps) (c ∷ cs) = c == p && has_prefix ps cs

abbrev pub dev_prefix : FilePath
dev_prefix = b'/' ∷ b'd' ∷ b'e' ∷ b'v' ∷ b'/' ∷ []

abbrev pub dev_null : FilePath
dev_null = b'/' ∷ b'd' ∷ b'e' ∷ b'v' ∷ b'/' ∷ b'n' ∷ b'u' ∷ b'l' ∷ b'l' ∷ []

abbrev pub dev_zero : FilePath
dev_zero = b'/' ∷ b'd' ∷ b'e' ∷ b'v' ∷ b'/' ∷ b'z' ∷ b'e' ∷ b'r' ∷ b'o' ∷ []

abbrev pub dev_tty : FilePath
dev_tty = b'/' ∷ b'd' ∷ b'e' ∷ b'v' ∷ b'/' ∷ b't' ∷ b't' ∷ b'y' ∷ []

abbrev pub proc_prefix : FilePath
proc_prefix = b'/' ∷ b'p' ∷ b'r' ∷ b'o' ∷ b'c' ∷ []

-- path[5] == '\0' || path[5] == '/', of what stands behind the prefix.
abbrev pub ends_or_slash : FilePath → Bool
ends_or_slash [] = true
ends_or_slash (c ∷ cs) = c == b'/'

unfoldable pub fs_proc_path_match : FilePath → Bool
fs_proc_path_match path = has_prefix proc_prefix path && ends_or_slash (drop 5 path)

unfoldable pub is_dev_path : FilePath → Bool
is_dev_path path = has_prefix dev_prefix path

-- What the switch works on: the descriptor layer and the disk, of which it knows nothing.
pub record World (D : Type 0) : Type 0 where
  pub fds : System
  pub disk : D

-- The calls of src/fs_ext4.c and src/fs_proc.c that the switch makes. A call that fills a buffer
-- gives back its code and the bytes.
pub record Backend (D : Type 0) : Type 0 where
  pub ext4_open : FilePath → ℕ → World D → World D × ℤ
  pub proc_open : FilePath → ℕ → World D → World D × ℤ
  pub ext4_stat : FilePath → World D → World D × Result ℤ Stat
  pub proc_stat : FilePath → World D → World D × Result ℤ Stat
  pub ext4_getdents_fd : ℤ → ℕ → World D → World D × (ℤ × List ℕ)
  pub proc_getdents_fd : ℤ → ℕ → World D → World D × (ℤ × List ℕ)
  pub ext4_readlink : FilePath → ℕ → World D → World D × (ℤ × List ℕ)
  pub ext4_unlink : FilePath → World D → World D × ℤ
  pub ext4_mkdir : FilePath → ℕ → World D → World D × ℤ
  pub ext4_rmdir : FilePath → World D → World D × ℤ
  pub ext4_rename : FilePath → FilePath → World D → World D × ℤ
  pub ext4_read_fd : ℤ → ℕ → World D → World D × (ℤ × List ℕ)
  pub proc_read_fd : ℤ → ℕ → World D → World D × (ℤ × List ℕ)
  pub ext4_write_fd : ℤ → List ℕ → World D → World D × ℤ
