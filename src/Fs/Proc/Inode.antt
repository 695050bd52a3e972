-- ===== src/Fs/Proc/Inode.antt =====
-- The numbers of the files of src/fs_proc.c, its table of entries, and the search of a path.
use octans.Prelude.{
  ℕ, ◌+◌, ◌-◌, ◌*◌, ◌/◌, ◌%◌, ◌^◌, String, codes, List, [], ◌∷◌, Option, none, some, Bool, true,
  false, ◌&&◌, ◌||◌, not, ltb, leb, ◌==◌, if◌then◌else◌, drop, bit_at,
}
use octans.Sched.Task.State.{Sched, max_tasks}
use octans.Sched.Task.Stats.{sched_proc_task_by_pid}
use octans.Fs.Base.{FilePath, str_eq, has_prefix, proc_prefix, fs_proc_path_match}

-- PROC_INO_*; 0 is no file.
abbrev pub ino_root : ℕ
ino_root = 1

abbrev pub ino_cpuinfo : ℕ
ino_cpuinfo = 2

abbrev pub ino_meminfo : ℕ
ino_meminfo = 3

abbrev pub ino_uptime : ℕ
ino_uptime = 4

abbrev pub ino_stat : ℕ
ino_stat = 5

abbrev pub ino_version : ℕ
ino_version = 6

abbrev pub ino_loadavg : ℕ
ino_loadavg = 7

abbrev pub ino_lampvm : ℕ
ino_lampvm = 8

-- PROC_INO_TASK_PID_MASK + 1.
abbrev pub pid_mod : ℕ
pid_mod = 2 ^ 30

-- word | (1 << k)
abbrev pub or_bit : ℕ → ℕ → ℕ
or_bit word k = word - bit_at word k + 2 ^ k

-- PROC_INO_TASK_DIR | pid and PROC_INO_TASK_STAT | pid.
abbrev pub task_dir_ino : ℕ → ℕ
task_dir_ino pid = or_bit pid 30

abbrev pub task_stat_ino : ℕ → ℕ
task_stat_ino pid = or_bit pid 31

abbrev pub proc_is_task_dir : ℕ → Bool
proc_is_task_dir ino = ino - ino % pid_mod == 2 ^ 30

abbrev pub proc_is_task_stat : ℕ → Bool
proc_is_task_stat ino = ino - ino % pid_mod == 2 ^ 31

abbrev pub proc_task_pid : ℕ → ℕ
proc_task_pid ino = ino % pid_mod

-- SYS_DT_*.
abbrev pub dt_dir : ℕ
dt_dir = 4

abbrev pub dt_reg : ℕ
dt_reg = 8

-- `proc_entry_t`; the field `type` is `kind`.
pub record Entry : Type 0 where
  pub ino : ℕ
  pub name : List ℕ
  pub kind : ℕ

abbrev pub entry : ℕ → String → ℕ → Entry
entry ino name kind = record { ino = ino; name = codes name; kind = kind }

-- `g_proc_entries`.
abbrev pub proc_entries : List Entry
proc_entries =
    entry ino_root "." dt_dir
    ∷ entry ino_root ".." dt_dir
    ∷ entry ino_cpuinfo "cpuinfo" dt_reg
    ∷ entry ino_meminfo "meminfo" dt_reg
    ∷ entry ino_uptime "uptime" dt_reg
    ∷ entry ino_stat "stat" dt_reg
    ∷ entry ino_version "version" dt_reg
    ∷ entry ino_loadavg "loadavg" dt_reg
    ∷ entry ino_lampvm "lampvm" dt_reg
    ∷ []

abbrev pub proc_entry_count : ℕ
proc_entry_count = 9

abbrev pub proc_directory_size : ℕ → ℕ
proc_directory_size ino =
    if ino == ino_root then proc_entry_count + max_tasks else if proc_is_task_dir ino then 3 else 0

-- c >= '0' && c <= '9'
abbrev pub is_digit : ℕ → Bool
is_digit c = leb b'0' c && leb c b'9'

-- The loop over the digits: the number and what stands behind it, or the return on a large number.
unfoldable pub scan_pid : FilePath → ℕ → Option (ℕ × FilePath)
scan_pid [] pid = some (pid, [])
scan_pid (c ∷ p) pid =
    let digit = c - b'0' in
    let rest = scan_pid p (pid * 10 + digit) in
    if not (is_digit c)
    then some (pid, c ∷ p)
    else if ltb ((pid_mod - 1 - digit) / 10) pid
    then none
    else rest

abbrev pub starts_with_digit : FilePath → Bool
starts_with_digit [] = false
starts_with_digit (c ∷ p) = is_digit c

-- A pid counts when it is not 0 and a task has it.
abbrev pub live_pid : ℕ → Sched → Bool
live_pid pid s =
    not (pid == 0) && (elim (sched_proc_task_by_pid pid s) [ none ↦ false | some t ↦ true ])

-- The pid and the tail; `none` for 0. The out pointers are not NULL.
unfoldable pub proc_parse_task_path : FilePath → Sched → Option (ℕ × FilePath)
proc_parse_task_path path s =
    if not (has_prefix (codes "/proc/") path) || not (starts_with_digit (drop 6 path))
    then none
    else elim (scan_pid (drop 6 path) 0) [
      | none ↦ none
      | some (pid, tail) ↦ if live_pid pid s then some (pid, tail) else none
    ]

-- The loop over the entries from the third on.
unfoldable pub find_entry : FilePath → List Entry → ℕ
find_entry name [] = 0
find_entry name (e ∷ es) = if str_eq name e.name then e.ino else find_entry name es

-- What is found under /proc/<pid>.
abbrev pub task_file : ℕ → FilePath → ℕ × Bool
task_file pid tail =
    if str_eq tail [] || str_eq tail (codes "/")
    then (task_dir_ino pid, true)
    else if str_eq tail (codes "/stat")
    then (task_stat_ino pid, false)
    else (0, false)

-- The number and `is_dir`, which the callers set to 0 before. The path is not NULL.
unfoldable pub proc_lookup : FilePath → Sched → ℕ × Bool
proc_lookup path s =
    if str_eq path proc_prefix || str_eq path (codes "/proc/")
    then (ino_root, true)
    else if not (fs_proc_path_match path)
    then (0, false)
    else elim (proc_parse_task_path path s) [
      | some (pid, tail) ↦ task_file pid tail
      | none ↦
          if str_eq (drop 6 path) []
          then (ino_root, true)
          else (find_entry (drop 6 path) (drop 2 proc_entries), false)
    ]
