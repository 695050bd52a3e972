-- ===== src/Sched/Task/State.antt =====
-- The data of the scheduler: `sched_task_slot_t` and the global variables of src/sched.c. A flag of
-- 0 or 1 is a Bool.
use octans.Prelude.{ℕ, ℤ, pos, List, [], Option, none, Bool, false, get_or, modify, replicate}
use octans.Sched.Fd.State.{Pipes, Slot, Fdent, no_ofile, no_fdent, max_fds}

-- SCHED_MAX_TASKS, SCHED_MAX_CPUS, SCHED_QUANTUM_TICKS, SCHED_SIGNAL_MAX, VM_STACK_POOL_SLOTS.
abbrev pub max_tasks : ℕ
max_tasks = 64

abbrev pub max_cpus : ℕ
max_cpus = 32

abbrev pub quantum_ticks : ℕ
quantum_ticks = 4

abbrev pub signal_max : ℕ
signal_max = 31

abbrev pub stack_slots : ℕ
stack_slots = 64

-- SCHED_TASK_*.
abbrev pub unused : ℕ
unused = 0

abbrev pub runnable : ℕ
runnable = 1

abbrev pub running : ℕ
running = 2

abbrev pub sleeping : ℕ
sleeping = 3

abbrev pub blocked : ℕ
blocked = 4

abbrev pub zombie : ℕ
zombie = 5

-- SCHED_TASK_KIND_* and SCHED_EXEC_STATE_*.
abbrev pub kind_kernel : ℕ
kind_kernel = 0

abbrev pub kind_user : ℕ
kind_user = 1

abbrev pub exec_none : ℕ
exec_none = 0

abbrev pub exec_kernel : ℕ
exec_kernel = 1

abbrev pub exec_user : ℕ
exec_user = 2

-- `sched_sigaction32_t`.
pub record SigAction : Type 0 where
  pub handler : ℕ
  pub flags : ℕ
  pub mask : ℕ
  pub restorer : ℕ

-- `sched_stack_ctx_t`, less the saved registers but for the two stack pointers, 30 and 31.
pub record StackCtx : Type 0 where
  pub call_base : ℕ
  pub data_base : ℕ
  pub isr_base : ℕ
  pub csp : ℕ
  pub dsp : ℕ
  pub isp : ℕ
  pub irq_masked : Bool
  pub in_interrupt : Bool
  pub pool_slot : ℕ
  pub valid : Bool
  pub sp30 : ℕ
  pub sp31 : ℕ

-- `sched_task_slot_t`. A wait queue is named by its index in `Sched.waitqs`, and `child_waitq` of the
-- slot `i` is the queue `i`. `name` and `cwd` are the bytes before the 0; `name` is `none` for NULL.
-- `entry` is the address of the task's function. The contexts that `vfork` saves and the user's
-- stack pointers are left out.
pub record Task : Type 0 where
  pub tid : ℕ
  pub pid : ℕ
  pub ppid : ℤ
  pub state : ℕ
  pub kind : ℕ
  pub exec_state : ℕ
  pub wake_tick : ℕ
  pub run_ticks : ℕ
  pub arg : ℕ
  pub used : Bool
  pub is_idle : Bool
  pub quantum_used : ℕ
  pub run_cpu : ℕ
  pub parent_tid : ℤ
  pub exit_code : ℕ
  pub entry : Option ℕ
  pub name : Option (List ℕ)
  pub vfork_child_active : Bool
  pub waitq : Option ℕ
  pub fds : Slot
  pub stack_ctx : StackCtx
  pub vfork_resume_valid : Bool
  pub syscall_abi_addr : ℕ
  pub cwd : List ℕ
  pub file_umask : ℕ
  pub sig_mask : ℕ
  pub sig_pending : ℕ
  pub sig_frame_top : ℕ
  pub sig_action : List SigAction

abbrev pub no_action : SigAction
no_action = record { handler = 0; flags = 0; mask = 0; restorer = 0 }

abbrev pub no_stack : StackCtx
no_stack = record {
  call_base = 0;
  data_base = 0;
  isr_base = 0;
  csp = 0;
  dsp = 0;
  isp = 0;
  irq_masked = false;
  in_interrupt = false;
  pool_slot = 0;
  valid = false;
  sp30 = 0;
  sp31 = 0;
}

-- A descriptor entry with all bytes 0, which names the open file 0.
abbrev pub zero_fdent : Fdent
zero_fdent = record no_fdent { ofile_idx = 0 }

-- The slot with all bytes 0.
abbrev pub zero_task : Task
zero_task = record {
  tid = 0;
  pid = 0;
  ppid = pos 0;
  state = unused;
  kind = kind_kernel;
  exec_state = exec_none;
  wake_tick = 0;
  run_ticks = 0;
  arg = 0;
  used = false;
  is_idle = false;
  quantum_used = 0;
  run_cpu = 0;
  parent_tid = pos 0;
  exit_code = 0;
  entry = none;
  name = none;
  vfork_child_active = false;
  waitq = none;
  fds = record { ofiles = replicate max_fds no_ofile; fdtab = replicate max_fds zero_fdent };
  stack_ctx = no_stack;
  vfork_resume_valid = false;
  syscall_abi_addr = 0;
  cwd = [];
  file_umask = 0;
  sig_mask = 0;
  sig_pending = 0;
  sig_frame_top = 0;
  sig_action = replicate 32 no_action;
}

-- The global variables. `runq` holds the words of each processor's queue, `current` is
-- `g_cpu_current_idx`, and `waitqs` is the memory of the wait queues. `online` is what
-- `smp_online_cpus` answers.
pub record Sched : Type 0 where
  pub tasks : List Task
  pub runq : List (List ℕ)
  pub waitqs : List (List ℕ)
  pub current : List ℕ
  pub need_resched : Bool
  pub ticks : ℕ
  pub user_ticks : ℕ
  pub system_ticks : ℕ
  pub idle_ticks : ℕ
  pub next_tid : ℕ
  pub spawn_cpu_rr : ℕ
  pub stack_bitmap : List ℕ
  pub stack_reserved : ℕ
  pub online : ℕ
  pub pipes : Pipes
  pub snapshot_valid : Bool
  pub snapshot_child_tid : ℕ

-- A queue with no task in it.
abbrev pub no_bits : List ℕ
no_bits = replicate 2 0

abbrev pub task_at : Sched → ℕ → Task
task_at s i = get_or s.tasks i zero_task

abbrev pub put_task : ℕ → (Task → Task) → Sched → Sched
put_task i f s = record s { tasks = modify s.tasks i f zero_task }

abbrev pub current_at : Sched → ℕ → ℕ
current_at s cpu = get_or s.current cpu 0
