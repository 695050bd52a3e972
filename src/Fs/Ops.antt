-- ===== src/Fs/Ops.antt =====
-- The calls of src/fs.c. A path is `none` for NULL, and a Bool `there` tells whether an out pointer
-- is not NULL.
use octans.Prelude.{
  ℕ, ◌+◌, ◌-◌, ◌/◌, ◌%◌, ◌^◌, ℤ, pos, negsuc, List, [], ◌∷◌, Option, none, some, Bool, true, ◌&&◌,
  ◌||◌, not, ◌==◌, if◌then◌else◌, length, Result, ok, err, add32,
}
use octans.Sched.Fd.State.{
  System, type_stdin, type_stdout, type_stderr, type_dev_null, type_dev_zero, type_dev_tty,
  type_socket, type_regular, type_pipe_read, type_pipe_write, special_dev_null, special_dev_zero,
  special_dev_tty, accmode, nonblock,
}
use octans.Sched.Fd.Ops.{sched_fd_open_special}
use octans.Sched.Fd.File.{sched_fd_get_type, sched_fd_regular_get}
use octans.Fs.Base.{
  Stat, FilePath, World, Backend, str_eq, is_dev_path, fs_proc_path_match, dev_null, dev_zero,
  dev_tty, reply_code, fs_err_noent, fs_err_badf, fs_err_notdir, fs_err_inval, fs_err_rofs,
  backend_none, backend_ext4, backend_proc,
}

-- SYS_S_IF* | permissions.
abbrev pub mode_chr : ℕ
mode_chr = 0x2000 + 0o666

abbrev pub mode_sock : ℕ
mode_sock = 0xc000 + 0o666

abbrev pub mode_fifo : ℕ
mode_fifo = 0x1000 + 0o600

-- (is_dir ? IFDIR : IFREG) | (backend == PROC ? (is_dir ? 0555 : 0444) : 0644)
abbrev pub mode_regular : Bool → ℕ → ℕ
mode_regular is_dir backend =
    (if is_dir then 0x4000 else 0x8000)
    + (if backend == backend_proc then if is_dir then 0o555 else 0o444 else 0o644)

-- The fields that every branch fills alike, with 4096-byte blocks, one link and the owner 0.
abbrev pub plain_stat : ℕ → ℕ → ℕ → ℕ → ℕ → ℕ → Stat
plain_stat dev ino mode rdev size blocks = record {
  st_dev = dev;
  st_ino = ino;
  st_mode = mode;
  st_nlink = 1;
  st_uid = 0;
  st_gid = 0;
  st_rdev = rdev;
  st_size = size;
  st_blksize = 4096;
  st_blocks = blocks;
}

abbrev pub fs_stat_fill_dev : ℕ → Stat
fs_stat_fill_dev rdev = plain_stat backend_none rdev mode_chr rdev 0 0

unfoldable pub fs_stat_dev : FilePath → Bool → Result ℤ Stat
unfolding str_eq
fs_stat_dev path there =
    if not there
    then err fs_err_inval
    else if str_eq path dev_null
    then ok (fs_stat_fill_dev type_dev_null)
    else if str_eq path dev_zero
    then ok (fs_stat_fill_dev type_dev_zero)
    else if str_eq path dev_tty
    then ok (fs_stat_fill_dev type_dev_tty)
    else err fs_err_noent

-- (file_size + 511) / 512
abbrev pub blocks_of : ℕ → ℕ
blocks_of size = add32 size 511 / 512

-- The three device types and the standard streams.
abbrev pub is_char_type : ℕ → Bool
is_char_type t =
    t == type_stdin
    || t == type_stdout
    || t == type_stderr
    || t == type_dev_null
    || t == type_dev_zero
    || t == type_dev_tty

-- The part of `fs_fstat` behind the look-up of the type; `fd` as a uint32_t is `ino`.
abbrev pub fstat_of_type : ℕ → ℕ → Result ℤ Stat
fstat_of_type t ino =
    if t == type_socket
    then ok (plain_stat backend_none ino mode_sock 0 0 0)
    else if t == type_pipe_read || t == type_pipe_write
    then ok (plain_stat backend_none ino mode_fifo 0 0 0)
    else if is_char_type t
    then ok (fs_stat_fill_dev t)
    else err fs_err_badf

-- (uint32_t)fd
abbrev pub fd_word : ℤ → ℕ
fd_word (pos n) = n % 2 ^ 32
fd_word (negsuc n) = (2 ^ 32 - 1 - n) % 2 ^ 32

module _ {D : Type 0} where
  abbrev pub with_fds : {A : Type 0} → (System → System × A) → World D → World D × A
  with_fds f w = let (s, a) = f w.fds in (record w { fds = s }, a)

  unfoldable pub fs_open_dev : FilePath → ℕ → World D → World D × ℤ
  unfolding str_eq sched_fd_open_special
  fs_open_dev path flags w =
      let status = accmode flags + nonblock flags in
      let special = λ (t : ℕ).
        let (w', r) = with_fds (sched_fd_open_special t status) w in
        let out : World D × ℤ = (w', reply_code r) in out in
      if str_eq path dev_null
      then special special_dev_null
      else if str_eq path dev_zero
      then special special_dev_zero
      else if str_eq path dev_tty
      then special special_dev_tty
      else (w, fs_err_noent)

  unfoldable pub fs_fstat : ℤ → Bool → World D → World D × Result ℤ Stat
  unfolding sched_fd_get_type sched_fd_regular_get
  fs_fstat fd there w =
      let (w', t) = with_fds (sched_fd_get_type fd true) w in
      let (w'', r) = with_fds (sched_fd_regular_get fd) w' in
      if not there then (w, err fs_err_inval) else elim t [
        | err e ↦ (w', err fs_err_badf)
        | ok t ↦
            if t == type_regular
            then elim r [
              | err e ↦ (w'', err fs_err_badf)
              | ok f ↦ (
                w'',
                ok (
                    plain_stat f.fs_backend f.file_id (mode_regular f.file_is_dir f.fs_backend) 0
                      f.file_size (blocks_of f.file_size)),
              )
            ]
            else (w', fstat_of_type t (fd_word fd))
      ]

module _ {D : Type 0} (b : Backend D) where
  unfoldable pub fs_open : Option FilePath → ℕ → World D → World D × ℤ
  unfolding fs_open_dev is_dev_path fs_proc_path_match
  fs_open none flags w = (w, fs_err_inval)
  fs_open (some []) flags w = (w, fs_err_inval)
  fs_open (some (c ∷ cs)) flags w =
      let path = c ∷ cs in
      if is_dev_path path
      then fs_open_dev path flags w
      else if fs_proc_path_match path
      then b.proc_open path flags w
      else b.ext4_open path flags w

  unfoldable pub fs_stat : Option FilePath → Bool → World D → World D × Result ℤ Stat
  unfolding fs_stat_dev is_dev_path fs_proc_path_match
  fs_stat none there w = (w, err fs_err_inval)
  fs_stat (some []) there w = (w, err fs_err_inval)
  fs_stat (some (c ∷ cs)) there w =
      let path = c ∷ cs in
      if not there
      then (w, err fs_err_inval)
      else if is_dev_path path
      then (w, fs_stat_dev path there)
      else if fs_proc_path_match path
      then b.proc_stat path w
      else b.ext4_stat path w

  unfoldable pub fs_getdents : ℤ → Bool → ℕ → World D → World D × (ℤ × List ℕ)
  unfolding sched_fd_get_type sched_fd_regular_get
  fs_getdents fd there len w =
      let (w', t) = with_fds (sched_fd_get_type fd true) w in
      let (w'', r) = with_fds (sched_fd_regular_get fd) w' in
      if not there && not (len == 0) then (w, (fs_err_inval, [])) else elim t [
        | err e ↦ (w', (fs_err_badf, []))
        | ok t ↦ if not (t == type_regular) then (w', (fs_err_notdir, [])) else elim r [
          | err e ↦ (w'', (fs_err_badf, []))
          | ok f ↦
              if not f.file_is_dir
              then (w'', (fs_err_notdir, []))
              else if f.fs_backend == backend_ext4
              then b.ext4_getdents_fd fd len w''
              else if f.fs_backend == backend_proc
              then b.proc_getdents_fd fd len w''
              else (w'', (fs_err_badf, []))
        ]
      ]

  unfoldable pub fs_readlink : Option FilePath → Bool → ℕ → World D → World D × (ℤ × List ℕ)
  unfolding is_dev_path fs_proc_path_match
  fs_readlink none there len w = (w, (fs_err_inval, []))
  fs_readlink (some []) there len w = (w, (fs_err_inval, []))
  fs_readlink (some (c ∷ cs)) there len w =
      let path = c ∷ cs in
      if not there || len == 0
      then (w, (fs_err_inval, []))
      else if is_dev_path path || fs_proc_path_match path
      then (w, (fs_err_inval, []))
      else b.ext4_readlink path len w

  -- The guard of the calls that change the tree: a path that is there, not empty, and on the disk.
  abbrev pub on_disk : Option FilePath → World D → (FilePath → World D × ℤ) → World D × ℤ
  on_disk none w act = (w, fs_err_inval)
  on_disk (some []) w act = (w, fs_err_inval)
  on_disk (some (c ∷ cs)) w act =
      let path = c ∷ cs in
      if is_dev_path path || fs_proc_path_match path then (w, fs_err_rofs) else act path

  unfoldable pub fs_unlink : Option FilePath → World D → World D × ℤ
  unfolding is_dev_path fs_proc_path_match
  fs_unlink path w = on_disk path w (λ p. b.ext4_unlink p w)

  unfoldable pub fs_mkdir : Option FilePath → ℕ → World D → World D × ℤ
  unfolding is_dev_path fs_proc_path_match
  fs_mkdir path mode w = on_disk path w (λ p. b.ext4_mkdir p mode w)

  unfoldable pub fs_rmdir : Option FilePath → World D → World D × ℤ
  unfolding is_dev_path fs_proc_path_match
  fs_rmdir path w = on_disk path w (λ p. b.ext4_rmdir p w)

  -- Both paths are there and not empty before either is looked at.
  unfoldable pub fs_rename : Option FilePath → Option FilePath → World D → World D × ℤ
  unfolding is_dev_path fs_proc_path_match
  fs_rename (some (o ∷ os)) (some (n ∷ ns)) w =
      let old = o ∷ os in
      let new = n ∷ ns in
      if is_dev_path old || is_dev_path new || fs_proc_path_match old || fs_proc_path_match new
      then (w, fs_err_rofs)
      else b.ext4_rename old new w
  fs_rename old new w = (w, fs_err_inval)

  unfoldable pub fs_read : ℤ → Bool → ℕ → World D → World D × (ℤ × List ℕ)
  unfolding sched_fd_get_type sched_fd_regular_get
  fs_read fd there len w =
      let (w', t) = with_fds (sched_fd_get_type fd true) w in
      let (w'', r) = with_fds (sched_fd_regular_get fd) w' in
      if not there || len == 0 then (w, (pos 0, [])) else elim t [
        | err e ↦ (w', (fs_err_badf, []))
        | ok t ↦ if not (t == type_regular) then (w', (fs_err_badf, [])) else elim r [
          | err e ↦ (w'', (fs_err_badf, []))
          | ok f ↦
              if f.fs_backend == backend_proc
              then b.proc_read_fd fd len w''
              else b.ext4_read_fd fd len w''
        ]
      ]

  -- The list is `src[0..len)`.
  unfoldable pub fs_write : ℤ → Bool → List ℕ → World D → World D × ℤ
  unfolding sched_fd_get_type sched_fd_regular_get
  fs_write fd there src w =
      let (w', t) = with_fds (sched_fd_get_type fd true) w in
      let (w'', r) = with_fds (sched_fd_regular_get fd) w' in
      if not there || length src == 0 then (w, pos 0) else elim t [
        | err e ↦ (w', fs_err_badf)
        | ok t ↦ if not (t == type_regular) then (w', fs_err_badf) else elim r [
          | err e ↦ (w'', fs_err_badf)
          | ok f ↦
              if f.fs_backend == backend_proc
              then (w'', fs_err_rofs)
              else b.ext4_write_fd fd src w''
        ]
      ]
