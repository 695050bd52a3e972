-- ===== src/Fs/Proc/Names.antt =====
-- The numbers that src/fs_proc.c prints as names of directories, and their way back from a path.
use octans.Prelude.{
  ℕ, zero, suc, ◌+◌, ◌-◌, ◌*◌, ◌/◌, ◌%◌, ◌^◌, ◌<◌, ◌≤◌, ◌≡◌, refl, sym, ap, ◌∙◌, codes, [], ◌∷◌,
  ◌++◌, Bool, true, false, some, inl, inr, Bool-cases, Option-cases, ltb, leb, ◌==◌, ◌&&◌, ◌||◌,
  not, length, length-append, add32, u32_max, find_from, find_from-none, arith,
}
use octans.Sched.Task.State.{Sched, max_tasks, task_at}
use native.Mathlib.Numerals.{unary_clauses}
use octans.Sched.Task.Stats.{
  has_pid, ProcInfo, sched_proc_task_by_pid, sched_proc_task_by_slot, sched_proc_task_copy,
}
use octans.Fs.Base.{FilePath, str_eq, fs_proc_path_match}
use mathlib.Core.List.{append-nil, append_assoc}
use octans.Fs.Proc.Build.{Kernel}
use octans.Fs.Proc.Ops.{slot_dirent}
use octans.Fs.Proc.Buffer.{
  Buffer, digit_loop, decimal, proc_buf_u64, proc_buf_bytes, proc_buf_putc, empty_buffer,
}
use octans.Fs.Proc.Inode.{
  scan_pid, pid_mod, is_digit, starts_with_digit, live_pid, proc_parse_task_path, proc_lookup,
  task_file, task_dir_ino, task_stat_ino, proc_is_task_dir, proc_is_task_stat, proc_task_pid,
}

tenth : (v m : ℕ) → v < m * 10 → v / 10 < m
tenth v m h = omega arith

-- The round of the loop at the last digit of `v`.
scan_digit :
    (v : ℕ) (acc : FilePath)
    → v < pid_mod
    → scan_pid ((b'0' + v % 10) ∷ acc) (v / 10) ≡ scan_pid acc v
unfolding scan_pid
scan_digit v acc h =
    let digit : is_digit (b'0' + v % 10) ≡ true = ground arith in
    let fits : ltb ((pid_mod - 1 - (b'0' + v % 10 - b'0')) / 10) (v / 10) ≡ false = ground arith in
    let number : v / 10 * 10 + (b'0' + v % 10 - b'0') ≡ v = omega arith in
    rw (digit, fits, number) refl

-- Reading on from the digits of `v` is reading on with the number `v`.
scan_pid-digit_loop :
    (n v : ℕ) (acc : FilePath)
    → v < 10 ^ n
    → v < pid_mod
    → scan_pid (digit_loop n v acc) 0 ≡ scan_pid acc v
unfolding digit_loop scan_pid
scan_pid-digit_loop zero v acc h h' = let e : v ≡ 0 = omega arith in ap (scan_pid acc) (sym e)
scan_pid-digit_loop (suc n) v acc h h' = elim (Bool-cases (v == 0)) [
  | inl e ↦ let z : v ≡ 0 = ground arith in rw e (ap (scan_pid acc) (sym z))
  | inr e ↦ rw e (
      scan_pid-digit_loop n (v / 10) ((b'0' + v % 10) ∷ acc)
        (tenth v (10 ^ n) (simp unary_clauses at h)) (omega arith)
      ∙ scan_digit v acc h')
]

digit_loop-append :
    (n v : ℕ) (acc tail : FilePath) → digit_loop n v acc ++ tail ≡ digit_loop n v (acc ++ tail)
unfolding digit_loop
digit_loop-append zero v acc tail = refl
digit_loop-append (suc n) v acc tail = elim (Bool-cases (v == 0)) [
  | inl e ↦ rw e refl
  | inr e ↦ rw e (digit_loop-append n (v / 10) ((b'0' + v % 10) ∷ acc) tail)
]

digit_loop-starts :
    (n v : ℕ) (acc : FilePath)
    → starts_with_digit acc ≡ true
    → starts_with_digit (digit_loop n v acc) ≡ true
unfolding digit_loop
digit_loop-starts zero v acc h = h
digit_loop-starts (suc n) v acc h = elim (Bool-cases (v == 0)) [
  | inl e ↦ rw e h
  | inr e ↦ rw e (digit_loop-starts n (v / 10) ((b'0' + v % 10) ∷ acc) (ground arith))
]

-- The slot of a task: its bounds, and what is copied from it.
slot_facts :
    (i : ℕ) (s : Sched) (t : ProcInfo)
    → sched_proc_task_by_slot i s ≡ some t
    → (0 < i) × (i < max_tasks) × (has_pid t.pid s i ≡ true)
unfolding sched_proc_task_by_slot sched_proc_task_copy
slot_facts i s t e = elim (Bool-cases (i == 0 || leb max_tasks i)) [
  | inl b ↦ absurd (ground (arith, e, b))
  | inr b ↦ elim (Bool-cases ((task_at s i).used && not (task_at s i).is_idle)) [
    | inl u ↦
        let copied : some (sched_proc_task_copy (task_at s i)) ≡ some t = ground (arith, b, u) in
        let pid : (task_at s i).pid ≡ t.pid = ground (arith, copied) in
        (ground arith, ground arith, rw (← pid) (ground (arith, u)))
    | inr u ↦ absurd (ground (arith, e, b, u))
  ]
]

-- The search by pid does not miss a slot that has it.
search_hits :
    (p : ℕ → Bool) (n i j : ℕ)
    → i ≤ j
    → j < i + n
    → p j ≡ true
    → (k : ℕ) × (find_from p n i ≡ some k)
search_hits p n i j h h' e = elim (Option-cases (find_from p n i)) [
  | inl miss ↦ absurd (ground (arith, find_from-none p n i j miss h h'))
  | inr hit ↦ hit
]

-- A task in a slot is found by its pid.
found_by_pid :
    (i : ℕ) (s : Sched) (t : ProcInfo)
    → sched_proc_task_by_slot i s ≡ some t
    → 0 < t.pid
    → live_pid t.pid s ≡ true
unfolding sched_proc_task_by_pid
found_by_pid i s t e h =
    let (low, high, fits) = slot_facts i s t e in
    let (k, found) = search_hits (has_pid t.pid s) 63 1 i (omega arith) (omega arith) fits in
    let positive : (t.pid == 0) ≡ false = ground arith in rw (positive, found) refl

starts-append :
    (xs ys : FilePath) → starts_with_digit xs ≡ true → starts_with_digit (xs ++ ys) ≡ true
starts-append [] ys h = absurd (ground arith)
starts-append (x ∷ xs) ys h = h

-- The digits of a pid, with what may stand behind them.
scan_decimal :
    (pid : ℕ) (tail : FilePath)
    → 0 < pid
    → pid < pid_mod
    → scan_pid (decimal pid ++ tail) 0 ≡ scan_pid tail pid
unfolding decimal
scan_decimal pid tail h h' =
    let positive : (pid == 0) ≡ false = ground arith in
    rw (positive, digit_loop-append 24 pid [] tail)
      (scan_pid-digit_loop 24 pid tail (omega arith) h')

digit_loop_starts_pos : (n v : ℕ) → 0 < v → starts_with_digit (digit_loop (suc n) v []) ≡ true
unfolding digit_loop
digit_loop_starts_pos n v h =
    let positive : (v == 0) ≡ false = ground arith in
    rw positive (digit_loop-starts n (v / 10) ((b'0' + v % 10) ∷ []) (ground arith))

decimal_starts :
    (pid : ℕ) (tail : FilePath) → 0 < pid → starts_with_digit (decimal pid ++ tail) ≡ true
unfolding decimal
decimal_starts pid tail h =
    let positive : (pid == 0) ≡ false = ground arith in
    rw positive (starts-append (digit_loop 24 pid []) tail (digit_loop_starts_pos 23 pid h))

parse_decimal :
    (pid : ℕ) (s : Sched) (tail : FilePath)
    → 0 < pid
    → pid < pid_mod
    → live_pid pid s ≡ true
    → scan_pid tail pid ≡ some (pid, tail)
    → proc_parse_task_path (codes "/proc/" ++ (decimal pid ++ tail)) s ≡ some (pid, tail)
unfolding proc_parse_task_path
parse_decimal pid s tail h h' live stops =
    rw (decimal_starts pid tail h, scan_decimal pid tail h h', stops, live) refl

length-digit_loop : (n v : ℕ) (acc : FilePath) → length (digit_loop n v acc) ≤ n + length acc
unfolding digit_loop
length-digit_loop zero v acc = omega arith
length-digit_loop (suc n) v acc =
    ground (arith, length-digit_loop n (v / 10) ((b'0' + v % 10) ∷ acc))

length-decimal : (v : ℕ) → length (decimal v) ≤ 24
unfolding decimal
length-decimal v = ground (arith, length-digit_loop 24 v [])

-- A text that fits is printed whole.
proc_buf_bytes-whole :
    (text : FilePath) (out : Buffer)
    → length out.bytes + length text < out.capacity
    → out.capacity ≤ u32_max
    → (proc_buf_bytes text out).bytes ≡ out.bytes ++ text
unfolding proc_buf_bytes proc_buf_putc
proc_buf_bytes-whole [] out h h' = sym (append-nil out.bytes)
proc_buf_bytes-whole (c ∷ text) out h h' =
    let room : ltb (add32 (length out.bytes) 1) out.capacity ≡ true = ground arith in
    rw (room, proc_buf_bytes)
      (proc_buf_bytes-whole text (record out { bytes = out.bytes ++ (c ∷ []) })
          (omega (arith, length-append out.bytes (c ∷ []))) h'
        ∙ append_assoc out.bytes (c ∷ []) text)

-- What stands in `d_name`.
printed_name : (pid : ℕ) → (proc_buf_u64 pid (empty_buffer 256)).bytes ≡ decimal pid
unfolding proc_buf_u64
printed_name pid =
    proc_buf_bytes-whole (decimal pid) (empty_buffer 256) (omega (arith, length-decimal pid))
      (omega arith)

slot_dirent_of :
    (i : ℕ) (k : Kernel) (t : ProcInfo)
    → sched_proc_task_by_slot i k.sched ≡ some t
    → ((slot_dirent k i).d_name ≡ decimal t.pid) × ((slot_dirent k i).d_ino ≡ task_dir_ino t.pid)
unfolding slot_dirent
slot_dirent_of i k t e = rw e (printed_name t.pid, refl)

starts_not_empty : (rest : FilePath) → starts_with_digit rest ≡ true → str_eq rest [] ≡ false
unfolding str_eq
starts_not_empty [] h = absurd (ground arith)
starts_not_empty (c ∷ rest) h = refl

proc_lookup_path :
    (pid : ℕ) (s : Sched) (tail : FilePath)
    → 0 < pid
    → pid < pid_mod
    → live_pid pid s ≡ true
    → scan_pid tail pid ≡ some (pid, tail)
    → proc_lookup (codes "/proc/" ++ (decimal pid ++ tail)) s ≡ task_file pid tail
unfolding proc_lookup fs_proc_path_match str_eq
proc_lookup_path pid s tail h h' live stops =
    let rest = decimal pid ++ tail in
    rw (starts_not_empty rest (decimal_starts pid tail h), parse_decimal pid s tail h h' live stops)
      refl

-- The directory that getdents shows for the task of a slot is found under the name it shows: with
-- nothing, or a slash, behind it, the path leads to the number of the entry, and with "/stat" behind
-- it to the file of that task's process. The pid is not 0 and fits the 30 bits that the numbers of
-- the files leave for it.
pub slot_dirent-opens :
    (i : ℕ) (k : Kernel) (t : ProcInfo)
    → sched_proc_task_by_slot i k.sched ≡ some t
    → 0 < t.pid
    → t.pid < pid_mod
    → let d = slot_dirent k i in
      (proc_lookup (codes "/proc/" ++ d.d_name) k.sched ≡ (d.d_ino, true))
      × (proc_lookup (codes "/proc/" ++ (d.d_name ++ codes "/")) k.sched ≡ (d.d_ino, true))
      × (proc_lookup (codes "/proc/" ++ (d.d_name ++ codes "/stat")) k.sched
          ≡ (task_stat_ino t.pid, false))
      × (proc_is_task_dir d.d_ino ≡ true)
      × (proc_task_pid d.d_ino ≡ t.pid)
      × (proc_is_task_stat (task_stat_ino t.pid) ≡ true)
      × (proc_task_pid (task_stat_ino t.pid) ≡ t.pid)
unfolding str_eq scan_pid
slot_dirent-opens i k t e h h' =
    let (name, ino) = slot_dirent_of i k t e in
    let live = found_by_pid i k.sched t e h in
    let path = proc_lookup_path t.pid k.sched in
    rw (name, ino)
      (
        rw (← append-nil (decimal t.pid)) (path [] h h' live refl),
        path (codes "/") h h' live refl,
        path (codes "/stat") h h' live refl,
        ground arith,
        omega arith,
        ground arith,
        omega arith,
      )
