-- ===== src/Fs/Proc/Ops.antt =====
-- The calls of src/fs_proc.c, over the descriptor layer of src/sched_fd.c.
use octans.Prelude.{
  ℕ, ◌+◌, ◌-◌, ℤ, pos, negsuc, List, [], ◌∷◌, Option, none, some, Bool, true, false, ◌||◌, not, ltb,
  leb, ◌==◌, if◌then◌else◌, take, drop, length, get_or, find_from, add32, sub32, bit_at, Result, ok,
  err,
}
use octans.Sched.Fd.State.{System, Ofile, FdError, accmode, nonblock, o_rdonly}
use octans.Sched.Fd.Ops.{sched_fd_open_regular}
use octans.Sched.Fd.File.{sched_fd_regular_get, sched_fd_regular_advance}
use octans.Sched.Task.State.{max_tasks}
use octans.Sched.Task.Stats.{sched_proc_task_by_pid, sched_proc_task_by_slot}
use octans.Fs.Base.{
  FilePath, Stat, reply_code, fs_err_noent, fs_err_badf, fs_err_notdir, fs_err_inval, fs_err_rofs,
  backend_proc,
}
use octans.Fs.Ops.{plain_stat, mode_regular, blocks_of}
use octans.Fs.Proc.Buffer.{empty_buffer, proc_buf_u64}
use octans.Fs.Proc.Inode.{
  Entry, ino_root, dt_dir, dt_reg, entry, task_dir_ino, task_stat_ino, proc_entries,
  proc_entry_count, proc_directory_size, proc_is_task_dir, proc_task_pid, proc_lookup,
}
use octans.Fs.Proc.Build.{Kernel, proc_build}

-- FS_ERR_ISDIR.
abbrev pub fs_err_isdir : ℤ
fs_err_isdir = negsuc 20

-- PROC_CONTENT_CAP.
abbrev pub proc_content_cap : ℕ
proc_content_cap = 12288

-- The bytes of a file, as the calls build them anew each time.
abbrev pub content : ℕ → Kernel → List ℕ
content ino k = proc_build ino proc_content_cap k

abbrev pub size_of : ℕ × Bool → Kernel → ℕ
size_of (ino, is_dir) k = if is_dir then proc_directory_size ino else length (content ino k)

-- (flags & ACCMODE) != RDONLY || (flags & (CREAT | TRUNC | APPEND)) != 0
abbrev pub wants_write : ℕ → Bool
wants_write flags =
    not (accmode flags == o_rdonly)
    || not (bit_at flags 6 == 0)
    || not (bit_at flags 9 == 0)
    || not (bit_at flags 10 == 0)

unfoldable pub fs_proc_open : FilePath → ℕ → Kernel → System → System × ℤ
fs_proc_open path flags k s =
    let found = proc_lookup path k.sched in
    if found.0 == 0
    then (s, fs_err_noent)
    else if wants_write flags
    then (s, fs_err_rofs)
    else let (s', r) =
        sched_fd_open_regular (accmode flags + nonblock flags) backend_proc found.0
          (size_of found k) found.1 s in
      let out : System × ℤ = (s', reply_code r) in out

-- `there` tells whether `st` is not NULL.
unfoldable pub fs_proc_stat : FilePath → Bool → Kernel → Result ℤ Stat
fs_proc_stat path there k =
    let found = proc_lookup path k.sched in
    let size = size_of found k in
    if not there
    then err fs_err_inval
    else if found.0 == 0
    then err fs_err_noent
    else ok
        (record (plain_stat backend_proc found.0 (mode_regular found.1 backend_proc) 0 size
          (blocks_of size)) { st_nlink = if found.1 then 2 else 1 })

-- `fs_dirent_t`, of 272 bytes.
pub record Dirent : Type 0 where
  pub d_ino : ℕ
  pub d_off : ℕ
  pub d_reclen : ℕ
  pub d_type : ℕ
  pub d_name : List ℕ

abbrev pub dirent_size : ℕ
dirent_size = 272

-- The name is cut to the 255 bytes that its field has for it.
abbrev pub dirent_of : ℕ → Entry → Dirent
dirent_of d_off e = record {
  d_ino = e.ino;
  d_off = d_off;
  d_reclen = dirent_size;
  d_type = e.kind;
  d_name = take 255 e.name;
}

-- `task_entries`, with the two numbers that depend on the directory.
abbrev pub task_entries : ℕ → ℕ → List Entry
task_entries ino pid =
    entry ino "." dt_dir ∷ entry ino_root ".." dt_dir ∷ entry (task_stat_ino pid) "stat" dt_reg ∷ []

abbrev pub no_entry : Entry
no_entry = record { ino = 0; name = []; kind = 0 }

-- What a directory of a task shows at an offset.
unfoldable pub task_dirent : ℕ → Kernel → ℕ → Option Dirent
task_dirent ino k offset = elim (sched_proc_task_by_pid (proc_task_pid ino) k.sched) [
  | none ↦ none
  | some t ↦
      if leb 3 offset
      then none
      else some
          (dirent_of (offset + 1) (get_or (task_entries ino (proc_task_pid ino)) offset no_entry))
]

abbrev pub task_pid_at : Kernel → ℕ → Option ℕ
task_pid_at k i = elim (sched_proc_task_by_slot i k.sched) [ none ↦ none | some t ↦ some t.pid ]

abbrev pub is_listed : Kernel → ℕ → Bool
is_listed k i = elim (task_pid_at k i) [ none ↦ false | some pid ↦ true ]

-- The entry of the task in a slot; `find_from` gives only slots that have one.
unfoldable pub slot_dirent : Kernel → ℕ → Dirent
slot_dirent k i =
    let pid : ℕ = elim (task_pid_at k i) [ none ↦ 0 | some pid ↦ pid ] in
    record {
      d_ino = task_dir_ino pid;
      d_off = i;
      d_reclen = dirent_size;
      d_type = dt_dir;
      d_name = (proc_buf_u64 pid (empty_buffer 256)).bytes;
    }

-- The part behind the loop over the slots.
abbrev pub static_dirent : ℕ → Option Dirent
static_dirent offset =
    let static_index = if ltb offset max_tasks then 0 else offset - max_tasks in
    if ltb offset (max_tasks + proc_entry_count)
    then some (dirent_of (max_tasks + static_index + 1) (get_or proc_entries static_index no_entry))
    else none

-- The end of the loop: a slot was found, or the loop ran through.
abbrev pub found_dirent : Kernel → ℕ → Option ℕ → Option Dirent
found_dirent k offset none = static_dirent offset
found_dirent k offset (some i) = some (slot_dirent k i)

-- What /proc shows at an offset.
unfoldable pub root_dirent : Kernel → ℕ → Option Dirent
root_dirent k offset =
    let start = add32 offset 1 in
    found_dirent k offset (find_from (is_listed k) (max_tasks - start) start)

-- What a call of `fs_proc_getdents_fd` or `fs_proc_read_fd` gives: the code and what it has filled.
abbrev pub Filled : Type 0 → Type 0
Filled A = System × ℤ × Option A

abbrev pub refuse : {A : Type 0} → System → ℤ → Filled A
refuse s code = (s, code, none)

-- The entry is filled in and the position moves to its `d_off`; without one the answer is 0.
unfoldable pub give_dirent : ℤ → ℕ → Option Dirent → System → Filled Dirent
give_dirent fd offset none s = refuse s (pos 0)
give_dirent fd offset (some d) s =
    let (s', r) = sched_fd_regular_advance fd (sub32 d.d_off offset) s in
    let out : Filled Dirent = (s', pos dirent_size, some d) in out

-- The part behind the look-up of the descriptor.
unfoldable pub getdents_found : ℤ → Kernel → System × Result FdError Ofile → Filled Dirent
getdents_found fd k (s, err e) = refuse s fs_err_badf
getdents_found fd k (s, ok f) =
    if not (f.fs_backend == backend_proc)
    then refuse s fs_err_badf
    else if not f.file_is_dir
    then refuse s fs_err_notdir
    else if proc_is_task_dir f.file_id
    then give_dirent fd f.file_offset (task_dirent f.file_id k f.file_offset) s
    else if not (f.file_id == ino_root)
    then refuse s fs_err_badf
    else give_dirent fd f.file_offset (root_dirent k f.file_offset) s

unfoldable pub fs_proc_getdents_fd : ℤ → Bool → ℕ → Kernel → System → Filled Dirent
fs_proc_getdents_fd fd there len k s =
    if not there || ltb len dirent_size
    then refuse s fs_err_inval
    else getdents_found fd k (sched_fd_regular_get fd s)

-- The part of `fs_proc_read_fd` behind its tests: the bytes from the offset on, at most `len`.
unfoldable pub give_bytes : ℤ → ℕ → ℕ → List ℕ → System → Filled (List ℕ)
give_bytes fd len offset bytes s =
    let size = length bytes in
    let n = if ltb (size - offset) len then size - offset else len in
    let (s', r) = sched_fd_regular_advance fd n s in
    if leb size offset then refuse s (pos 0) else (s', pos n, some (take n (drop offset bytes)))

-- The part behind the look-up of the descriptor.
unfoldable pub read_found : ℤ → ℕ → Kernel → System × Result FdError Ofile → Filled (List ℕ)
read_found fd len k (s, err e) = refuse s fs_err_badf
read_found fd len k (s, ok f) =
    if not (f.fs_backend == backend_proc)
    then refuse s fs_err_badf
    else if f.file_is_dir
    then refuse s fs_err_isdir
    else give_bytes fd len f.file_offset (content f.file_id k) s

unfoldable pub fs_proc_read_fd : ℤ → Bool → ℕ → Kernel → System → Filled (List ℕ)
fs_proc_read_fd fd there len k s =
    if not there || len == 0
    then refuse s (pos 0)
    else read_found fd len k (sched_fd_regular_get fd s)
