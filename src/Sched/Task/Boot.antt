-- ===== src/Sched/Task/Boot.antt =====
-- `sched_init` of src/sched.c, on the memory as it is at the start.
use octans.Prelude.{
  ℕ, ◌+◌, negsuc, some, true, false, ltb, ◌==◌, if◌then◌else◌, [], ◌∷◌, replicate, for_range,
  bits_set,
}
use octans.Sched.Fd.State.{Pipes}
use octans.Sched.Fd.Table.{sched_fd_table_init_stdio}
use octans.Sched.Task.State.{
  Task, Sched, max_tasks, max_cpus, stack_slots, runnable, kind_kernel, exec_kernel, no_bits,
  put_task, zero_task,
}
use octans.Sched.Task.Queue.{sched_waitq_init_locked}
use octans.Sched.Task.Slots.{sched_clear_task}
use octans.Sched.Task.Life.{with_fds}

-- The memory with all bytes 0, with room for `queues` wait queues behind those of the tasks.
abbrev pub zero_memory : ℕ → ℕ → Pipes → Sched
zero_memory queues online pipes = record {
  tasks = replicate max_tasks zero_task;
  runq = replicate max_cpus no_bits;
  waitqs = replicate (max_tasks + queues) no_bits;
  current = replicate max_cpus 0;
  need_resched = false;
  ticks = 0;
  user_ticks = 0;
  system_ticks = 0;
  idle_ticks = 0;
  next_tid = 0;
  spawn_cpu_rr = 0;
  stack_bitmap = no_bits;
  stack_reserved = 0;
  online = online;
  pipes = pipes;
  snapshot_valid = false;
  snapshot_child_tid = 0;
}

-- `target_cpus` is what `smp_target_cpus` answers.
unfoldable pub sched_stack_pool_init_locked : ℕ → Sched → Sched
unfolding for_range bits_set
sched_stack_pool_init_locked target_cpus s =
    let asked = if target_cpus == 0 then 1 else target_cpus in
    let reserve = if ltb stack_slots asked then stack_slots else asked in
    record s {
      stack_bitmap = for_range reserve 0 (λ i b. bits_set b i) no_bits;
      stack_reserved = reserve;
    }

-- The assignments to the root's slot.
abbrev pub root_fields : ℕ → Task → Task
root_fields idle_entry t = record t {
  used = true;
  is_idle = true;
  entry = some idle_entry;
  name = some (b'i' ∷ b'd' ∷ b'l' ∷ b'e' ∷ []);
  parent_tid = negsuc 0;
  exit_code = 0;
  tid = 0;
  pid = 0;
  ppid = negsuc 0;
  state = runnable;
  kind = kind_kernel;
  exec_state = exec_kernel;
  wake_tick = 0;
  run_ticks = 0;
  arg = 0;
  cwd = b'/' ∷ [];
  file_umask = 0o022;
  run_cpu = 0;
}

-- The global variables but for the tasks.
unfoldable pub init_globals : ℕ → Sched → Sched
unfolding sched_stack_pool_init_locked
init_globals target_cpus s = sched_stack_pool_init_locked target_cpus (record s {
  ticks = 0;
  user_ticks = 0;
  system_ticks = 0;
  idle_ticks = 0;
  need_resched = false;
  current = replicate max_cpus 0;
  runq = replicate max_cpus no_bits;
  next_tid = 1;
  spawn_cpu_rr = 0;
})

-- `idle_entry` is the address of `sched_idle_task`.
unfoldable pub sched_init : ℕ → ℕ → Sched → Sched
unfolding for_range sched_clear_task init_globals sched_waitq_init_locked sched_fd_table_init_stdio
sched_init idle_entry target_cpus s =
    let wiped = init_globals target_cpus (for_range max_tasks 0 sched_clear_task s) in
    with_fds 0 sched_fd_table_init_stdio
      (put_task 0 (root_fields idle_entry) (sched_waitq_init_locked (some 0) wiped))
