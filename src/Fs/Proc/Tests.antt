-- ===== src/Fs/Proc/Tests.antt =====
-- src/fs_proc.c on a table with two tasks.
use octans.Prelude.{
  ℕ, ◌≡◌, refl, negsuc, codes, [], ◌∷◌, none, some, Bool, true, false, replicate, take, length,
  ◌++◌, ◌≤◌, ◌<◌, arith, u32_max, map, find_from, ◌+◌,
}
use octans.Sched.Fd.State.{Ofile, Slot, Pipes, no_ofile, no_fdent, no_pipe, pipe_max, type_regular}
use octans.Sched.Task.State.{Sched, Task, task_at, zero_task, runnable, running, kind_user}
use octans.Sched.Task.Stats.{
  ProcInfo, sched_proc_task_by_slot, sched_proc_task_by_pid, sched_proc_task_copy,
  sched_stats_snapshot,
}
use octans.Fs.Base.{backend_proc}
use octans.Fs.Proc.Boot.{Machine, vm_info_load_boot}
use octans.Fs.Proc.Buffer.{
  digit_loop, decimal, proc_buf_putc, proc_buf_bytes, proc_buf_u64, proc_buf_i32, proc_buf_kib_line,
}
use octans.Fs.Proc.Inode.{
  task_stat_ino, proc_is_task_dir, proc_is_task_stat, proc_task_pid, proc_entries, ino_root,
  ino_version, ino_meminfo, proc_lookup,
}
use octans.Fs.Proc.Build.{
  Kernel, proc_build, proc_file, proc_build_meminfo, proc_memory_values, proc_task_stat,
  task_stat_line,
}
use octans.Fs.Proc.Ops.{content, slot_dirent}
use octans.Fs.Proc.Handle.{IsOpen, running_on}
use octans.Fs.Proc.Listing.{list_dir, task_dirents, numbered, list_dir-lists}
use octans.Fs.Proc.Names.{slot_dirent-opens}
use octans.Fs.Proc.Cut.{proc_build-cuts}
use octans.Fs.Proc.Reading.{read_all, read_all-content, read_all-endless}

abbrev shell : Task
shell = record zero_task {
  tid = 1;
  pid = 41;
  ppid = negsuc 0;
  state = running;
  kind = kind_user;
  used = true;
  name = some (codes "sh");
}

abbrev pipes : Pipes
pipes = record { inited = true; pipes = replicate pipe_max no_pipe }

abbrev sched : Sched
sched = record {
  tasks =
      record zero_task { used = true; is_idle = true }
      ∷ shell
      ∷ zero_task
      ∷ record zero_task { tid = 3; pid = 7; state = runnable; used = true }
      ∷ replicate 60 zero_task;
  runq = [];
  waitqs = [];
  current = 1 ∷ [];
  need_resched = false;
  ticks = 9;
  user_ticks = 5;
  system_ticks = 3;
  idle_ticks = 1;
  next_tid = 4;
  spawn_cpu_rr = 0;
  stack_bitmap = [];
  stack_reserved = 0;
  online = 1;
  pipes = pipes;
  snapshot_valid = false;
  snapshot_child_tid = 0;
}

-- A machine whose registers all read 0.
abbrev machine : Machine
machine = record { read32 = λ addr. 0; cache = none; kernel_end = 0x1f0001 }

abbrev kernel : Kernel
kernel = record { machine = machine; sched = sched }

-- The descriptor 3 stands for a file of /proc.
abbrev opened : ℕ → ℕ → ℕ → Bool → Ofile
opened ino size offset is_dir = record no_ofile {
  used = true;
  refs = 1;
  kind = type_regular;
  fs_backend = backend_proc;
  file_id = ino;
  file_size = size;
  file_offset = offset;
  file_is_dir = is_dir;
}

abbrev slot_of : Ofile → Slot
slot_of f = record {
  ofiles = no_ofile ∷ f ∷ replicate 30 no_ofile;
  fdtab =
      no_fdent
      ∷ no_fdent
      ∷ no_fdent
      ∷ record { used = true; ofile_idx = 1; fd_flags = 0 }
      ∷ replicate 28 no_fdent;
}

stat_line :
    take 55 (proc_build (0x80000000 + 41) 128 kernel)
    ≡ codes "41 (sh) R -1 41 41 0 0 0 0 0 0 0 0 0 0 0 20 0 1 0 0  16"
unfolding proc_build proc_task_stat task_stat_line proc_buf_putc proc_buf_bytes proc_buf_u64
    proc_buf_i32 decimal digit_loop sched_proc_task_by_pid sched_proc_task_copy find_from
stat_line = refl

meminfo :
    take 45 (proc_build ino_meminfo 128 kernel)
    ≡ codes "MemTotal: 65536 kB\nMemFree: 47164 kB\nMemAvail"
unfolding proc_build proc_file proc_build_meminfo proc_memory_values vm_info_load_boot
    sched_stats_snapshot proc_buf_kib_line proc_buf_putc proc_buf_bytes proc_buf_u64 decimal
    digit_loop
meminfo = refl

proc_build-cuts_example :
    (length (proc_build ino_meminfo 20 kernel) < 20)
    × (proc_build ino_meminfo 20 kernel ≡ take 19 (proc_build ino_meminfo 128 kernel))
proc_build-cuts_example =
    proc_build-cuts ino_meminfo 20 128 kernel (omega arith) (omega arith) (omega arith)

abbrev task3 : ProcInfo
task3 = sched_proc_task_copy (task_at sched 3)

slot_dirent-opens_example :
    (proc_lookup (codes "/proc/" ++ (slot_dirent kernel 3).d_name) sched
      ≡ ((slot_dirent kernel 3).d_ino, true))
    × (proc_lookup (codes "/proc/" ++ ((slot_dirent kernel 3).d_name ++ codes "/")) sched
        ≡ ((slot_dirent kernel 3).d_ino, true))
    × (proc_lookup (codes "/proc/" ++ ((slot_dirent kernel 3).d_name ++ codes "/stat")) sched
        ≡ (task_stat_ino 7, false))
    × (proc_is_task_dir (slot_dirent kernel 3).d_ino ≡ true)
    × (proc_task_pid (slot_dirent kernel 3).d_ino ≡ 7)
    × (proc_is_task_stat (task_stat_ino 7) ≡ true)
    × (proc_task_pid (task_stat_ino 7) ≡ 7)
unfolding sched_proc_task_by_slot sched_proc_task_copy
slot_dirent-opens_example = slot_dirent-opens 3 kernel task3 refl (omega arith) (omega arith)

abbrev root_dir : Ofile
root_dir = opened ino_root 73 0 true

opened-IsOpen :
    (ino size : ℕ) (is_dir : Bool)
    → size ≤ u32_max
    → IsOpen 3 (opened ino size 0 is_dir) (slot_of (opened ino size 0 is_dir))
opened-IsOpen ino size is_dir h = record {
  fits = refl;
  taken = refl;
  index = refl;
  inside = omega arith;
  file = refl;
  live = refl;
  shared = refl;
  regular = refl;
  offset = omega arith;
  size = h;
}

list_dir-lists_example :
    list_dir 73 3 kernel (running_on (slot_of root_dir) pipes)
    ≡ task_dirents kernel 63 1 ++ numbered 65 proc_entries
list_dir-lists_example =
    list_dir-lists 73 3 root_dir (slot_of root_dir) pipes kernel
      (opened-IsOpen ino_root 73 true (omega arith))
      (record { backend = refl; is_dir = refl; file_id = refl; size = refl; within = omega arith })
      refl (omega arith)

names_listed : map (λ d. d.d_name) (task_dirents kernel 63 1) ≡ codes "41" ∷ codes "7" ∷ []
unfolding task_dirents slot_dirent sched_proc_task_by_slot sched_proc_task_copy proc_buf_u64
    proc_buf_bytes proc_buf_putc decimal digit_loop
names_listed = refl

abbrev version_file : Ofile
version_file = opened ino_version 36 0 false

read_all-content_example :
    read_all 36 3 10 kernel (running_on (slot_of version_file) pipes) ≡ content ino_version kernel
unfolding proc_build proc_file proc_buf_bytes proc_buf_putc
read_all-content_example =
    read_all-content 3 10 pipes kernel (omega arith) (omega arith) 36 version_file
      (slot_of version_file) (opened-IsOpen ino_version 36 false (omega arith))
      (record { backend = refl; is_file = refl }) refl refl (omega arith)

-- A file of /proc that was empty when it was opened.
abbrev grown_file : Ofile
grown_file = opened ino_version 0 0 false

read_all-endless_example :
    100 ≤ length (read_all 100 3 10 kernel (running_on (slot_of grown_file) pipes))
unfolding proc_build proc_file proc_buf_bytes proc_buf_putc
read_all-endless_example =
    read_all-endless 3 10 pipes kernel (omega arith) (omega arith) 100 grown_file
      (slot_of grown_file) (opened-IsOpen ino_version 0 false (omega arith))
      (record { backend = refl; is_file = refl }) (omega arith) refl
