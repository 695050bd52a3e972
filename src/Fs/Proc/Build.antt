-- ===== src/Fs/Proc/Build.antt =====
-- The contents of the files of src/fs_proc.c.
use octans.Prelude.{
  ℕ, ◌+◌, ◌-◌, ◌*◌, ◌/◌, ◌%◌, ◌^◌, List, [], none, some, ◌||◌, ltb, ◌==◌, if◌then◌else◌, for_range,
  add32,
}
use octans.Sched.Task.State.{Sched, running, runnable, sleeping, blocked, zombie, kind_user}
use octans.Sched.Task.Stats.{Stats, ProcInfo, sched_stats_snapshot, sched_proc_task_by_pid}
use octans.Fs.Proc.Boot.{Machine, boot_of, proc_read64, proc_runtime_available}
use octans.Fs.Proc.Buffer.{
  Fill, ◌▷◌, empty_buffer, proc_buf_putc, proc_buf_bytes, proc_buf_puts, proc_buf_u64, proc_buf_i32,
  proc_buf_fixed3, proc_buf_kib_line, digit_at,
}
use octans.Fs.Proc.Inode.{
  ino_cpuinfo, ino_meminfo, ino_uptime, ino_stat, ino_version, ino_loadavg, ino_lampvm,
  proc_is_task_stat, proc_task_pid,
}

-- What the files show, and no call of src/fs_proc.c changes.
pub record Kernel : Type 0 where
  pub machine : Machine
  pub sched : Sched

-- KERNEL_MEM_SIZE and USER_REGION_SIZE.
abbrev pub kernel_mem_size : ℕ
kernel_mem_size = 0x4000000

abbrev pub user_region_size : ℕ
user_region_size = 0x1000000

-- SCHED_TICK_PERIOD_US.
abbrev pub tick_period_us : ℕ
tick_period_us = 5000

abbrev pub proc_task_state : ℕ → ℕ
proc_task_state state =
    if state == running || state == runnable
    then b'R'
    else if state == sleeping
    then b'S'
    else if state == blocked
    then b'D'
    else if state == zombie
    then b'Z'
    else b'S'

-- The prints of `proc_task_stat`, for the task that was found.
unfoldable pub task_stat_line : ProcInfo → Fill
task_stat_line task =
    proc_buf_u64 task.pid
    ▷ proc_buf_puts " ("
    ▷ proc_buf_bytes task.name
    ▷ proc_buf_puts ") "
    ▷ proc_buf_putc (proc_task_state task.state)
    ▷ proc_buf_putc b' '
    ▷ proc_buf_i32 task.ppid
    ▷ proc_buf_putc b' '
    ▷ proc_buf_u64 task.pid
    ▷ proc_buf_putc b' '
    ▷ proc_buf_u64 task.pid
    ▷ proc_buf_puts " 0 0 0 0 0 0 0 "
    ▷ proc_buf_u64 task.run_ticks
    ▷ proc_buf_puts " 0 0 0 20 0 1 0 0 "
    ▷ proc_buf_putc b' '
    ▷ proc_buf_u64 (if task.kind == kind_user then user_region_size else task.stack_bytes)
    ▷ proc_buf_putc b' '
    ▷ proc_buf_u64 (add32 task.stack_bytes 4095 / 4096)
    ▷ proc_buf_putc b'\n'

-- `dst` is not NULL; its bytes up to the length that is returned.
unfoldable pub proc_task_stat : ℕ → ℕ → Kernel → List ℕ
proc_task_stat pid capacity k =
    if capacity == 0 then [] else elim (sched_proc_task_by_pid pid k.sched) [
      | none ↦ []
      | some task ↦ (task_stat_line task (empty_buffer capacity)).bytes
    ]

-- The text of one processor.
unfoldable pub cpu_block : ℕ → ℕ → ℕ → Fill
cpu_block frequency_hz timer_hz cpu =
    proc_buf_puts "processor\t: "
    ▷ proc_buf_u64 cpu
    ▷ proc_buf_puts "\nvendor_id\t: LampVM\nmodel name\t: LampVM LAMP32 virtual CPU\n"
    ▷ proc_buf_puts "cpu MHz\t\t: "
    ▷ proc_buf_fixed3 (frequency_hz / 1000)
    ▷ proc_buf_puts "\ncycle model\t: one-cycle-per-instruction v1\ntimer Hz\t: "
    ▷ proc_buf_u64 timer_hz
    ▷ proc_buf_puts "\nflags\t\t: smp mmu iommu pcie msi\n\n"

-- A 64-bit register, or 0 where the machine has none.
abbrev pub runtime64 : ℕ → ℕ → Machine → ℕ
runtime64 low high m = if proc_runtime_available m then proc_read64 low high m else 0

unfoldable pub proc_build_cpuinfo : Kernel → Fill
proc_build_cpuinfo k =
    let boot = boot_of k.machine in
    let cores : ℕ = elim boot [
      | none ↦ 1
      | some info ↦ if info.smp_cores == 0 then 1 else info.smp_cores
    ] in
    let timer_hz : ℕ = elim boot [ none ↦ 0 | some info ↦ info.timer_freq_hz ] in
    for_range cores 0 (cpu_block (runtime64 0x5c 0x60 k.machine) timer_hz)

-- The out values of `proc_memory_values`.
pub record Memory : Type 0 where
  pub total : ℕ
  pub used : ℕ
  pub available : ℕ
  pub stats : Stats

unfoldable pub proc_memory_values : Kernel → Memory
proc_memory_values k =
    let stats = sched_stats_snapshot k.sched in
    let total : ℕ = elim (boot_of k.machine) [
      | none ↦ kernel_mem_size
      | some info ↦ if info.mem_bytes_hi == 0 then info.mem_bytes_lo else kernel_mem_size
    ] in
    let kernel_reserved = (k.machine.kernel_end + 4095) / 4096 * 4096 in
    let users = if stats.user_tasks == 0 then 0 else user_region_size in
    let sum = kernel_reserved + stats.stack_bytes + users in
    let used = if ltb total sum then total else sum in
    record { total = total; used = used; available = total - used; stats = stats }

-- The three values, to pointers that are not NULL.
abbrev pub fs_proc_memory_snapshot : Kernel → ℕ × ℕ × ℕ
fs_proc_memory_snapshot k = let v = proc_memory_values k in (v.total, v.used, v.available)

unfoldable pub proc_build_meminfo : Kernel → Fill
proc_build_meminfo k =
    let v = proc_memory_values k in
    proc_buf_kib_line "MemTotal" v.total
    ▷ proc_buf_kib_line "MemFree" (v.total - v.used)
    ▷ proc_buf_kib_line "MemAvailable" v.available
    ▷ proc_buf_kib_line "Buffers" 0
    ▷ proc_buf_kib_line "Cached" 0
    ▷ proc_buf_kib_line "SReclaimable" 0
    ▷ proc_buf_kib_line "KernelStack" v.stats.stack_bytes

unfoldable pub proc_build_uptime : Kernel → Fill
proc_build_uptime k =
    let uptime_ns = runtime64 0x7c 0x80 k.machine in
    let idle_us = (sched_stats_snapshot k.sched).idle_ticks * tick_period_us in
    proc_buf_u64 (uptime_ns / 1000000000)
    ▷ proc_buf_putc b'.'
    ▷ proc_buf_putc (digit_at 100000000 uptime_ns)
    ▷ proc_buf_putc (digit_at 10000000 uptime_ns)
    ▷ proc_buf_putc b' '
    ▷ proc_buf_u64 (idle_us / 1000000)
    ▷ proc_buf_putc b'.'
    ▷ proc_buf_putc (digit_at 100000 idle_us)
    ▷ proc_buf_putc (digit_at 10000 idle_us)
    ▷ proc_buf_putc b'\n'

-- running_tasks + runnable_tasks
abbrev pub ready_tasks : Stats → ℕ
ready_tasks stats = add32 stats.running_tasks stats.runnable_tasks

unfoldable pub proc_build_stat : Kernel → Fill
proc_build_stat k =
    let stats = sched_stats_snapshot k.sched in
    let boot_seconds : ℕ = elim (boot_of k.machine) [
      | none ↦ 0
      | some info ↦ (info.boot_realtime_ns_hi * 2 ^ 32 + info.boot_realtime_ns_lo) / 1000000000
    ] in
    proc_buf_puts "cpu  "
    ▷ proc_buf_u64 stats.user_ticks
    ▷ proc_buf_puts " 0 "
    ▷ proc_buf_u64 stats.system_ticks
    ▷ proc_buf_putc b' '
    ▷ proc_buf_u64 stats.idle_ticks
    ▷ proc_buf_puts " 0 0 0 0 0 0\n"
    ▷ proc_buf_puts "btime "
    ▷ proc_buf_u64 boot_seconds
    ▷ proc_buf_puts "\nprocesses "
    ▷ proc_buf_u64 stats.task_count
    ▷ proc_buf_puts "\nprocs_running "
    ▷ proc_buf_u64 (ready_tasks stats)
    ▷ proc_buf_puts "\nprocs_blocked "
    ▷ proc_buf_u64 stats.blocked_tasks
    ▷ proc_buf_putc b'\n'

unfoldable pub proc_build_loadavg : Kernel → Fill
proc_build_loadavg k =
    let stats = sched_stats_snapshot k.sched in
    let cpus = if stats.online_cpus == 0 then 1 else stats.online_cpus in
    let runnable_milli = ready_tasks stats * 1000 % 2 ^ 64 / cpus in
    proc_buf_fixed3 runnable_milli
    ▷ proc_buf_putc b' '
    ▷ proc_buf_fixed3 runnable_milli
    ▷ proc_buf_putc b' '
    ▷ proc_buf_fixed3 runnable_milli
    ▷ proc_buf_putc b' '
    ▷ proc_buf_u64 (ready_tasks stats)
    ▷ proc_buf_putc b'/'
    ▷ proc_buf_u64 stats.task_count
    ▷ proc_buf_puts " 0\n"

unfoldable pub proc_build_lampvm : Kernel → Fill
proc_build_lampvm k =
    let v = proc_memory_values k in
    proc_buf_puts "clock_model paced-monotonic-v1\ncycle_model one-cycle-per-instruction-v1\n"
    ▷ proc_buf_puts "cpu_frequency_hz "
    ▷ proc_buf_u64 (runtime64 0x5c 0x60 k.machine)
    ▷ proc_buf_puts "\nvirtual_cycles "
    ▷ proc_buf_u64 (runtime64 0x64 0x68 k.machine)
    ▷ proc_buf_puts "\nexecuted_instructions "
    ▷ proc_buf_u64 (runtime64 0x6c 0x70 k.machine)
    ▷ proc_buf_puts "\nexecution_rate_ips "
    ▷ proc_buf_u64 (runtime64 0x74 0x78 k.machine)
    ▷ proc_buf_puts "\nuptime_ns "
    ▷ proc_buf_u64 (runtime64 0x7c 0x80 k.machine)
    ▷ proc_buf_puts "\nguest_ram_bytes "
    ▷ proc_buf_u64 v.total
    ▷ proc_buf_puts "\nguest_estimated_used_bytes "
    ▷ proc_buf_u64 v.used
    ▷ proc_buf_puts "\nguest_available_bytes "
    ▷ proc_buf_u64 v.available
    ▷ proc_buf_puts "\nhost_rss_bytes "
    ▷ proc_buf_u64 (runtime64 0x84 0x88 k.machine)
    ▷ proc_buf_puts "\ntasks "
    ▷ proc_buf_u64 v.stats.task_count
    ▷ proc_buf_putc b'\n'

-- The switch over `ino`.
unfoldable pub proc_file : ℕ → Kernel → Fill
proc_file ino k =
    if ino == ino_cpuinfo
    then proc_build_cpuinfo k
    else if ino == ino_meminfo
    then proc_build_meminfo k
    else if ino == ino_uptime
    then proc_build_uptime k
    else if ino == ino_stat
    then proc_build_stat k
    else if ino == ino_version
    then proc_buf_puts "Lamp kernel 0.31 (lamp32) procfs-v1\n"
    else if ino == ino_loadavg
    then proc_build_loadavg k
    else if ino == ino_lampvm
    then proc_build_lampvm k
    else λ out. out

-- `dst` is not NULL; its bytes up to the length that is returned.
unfoldable pub proc_build : ℕ → ℕ → Kernel → List ℕ
proc_build ino capacity k =
    if capacity == 0
    then []
    else if proc_is_task_stat ino
    then proc_task_stat (proc_task_pid ino) capacity k
    else (proc_file ino k (empty_buffer capacity)).bytes
