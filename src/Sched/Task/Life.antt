-- ===== src/Sched/Task/Life.antt =====
-- The life of a task: starting, yielding, sleeping, exiting, being killed and being waited for. The
-- copies of user memory that `vfork` makes are not modelled; whether one is held is.
use octans.Prelude.{
  ℕ, zero, suc, ◌+◌, ◌-◌, ◌*◌, ◌%◌, ℤ, pos, negsuc, Option, none, some, Bool, true, false, ◌&&◌,
  ◌||◌, not, ◌==◌, if◌then◌else◌, List, [], ◌∷◌, add32,
}
use octans.Sched.Fd.State.{State}
use octans.Sched.Fd.Table.{sched_slot_close_all_fds, sched_fd_table_init_stdio}
use octans.Sched.Task.State.{
  Task, Sched, max_tasks, runnable, running, sleeping, zombie, kind_kernel, exec_kernel, task_at,
  put_task,
}
use octans.Sched.Task.Queue.{
  cap_of, normalize_of, sched_cpu_cap, sched_cpu_normalize, sched_mark_resched_all, sched_runq_add,
  sched_runq_del, sched_current_slot, sched_detach_waitq, sched_waitq_init_locked, sched_wake_slot,
  wake_members, sched_waitq_sleep_locked,
}
use octans.Sched.Task.Slots.{
  sched_stack_alloc_locked, sched_stack_prepare_bootstrap_locked, sched_stack_free_locked,
  sched_clear_task, sched_alloc_slot, sched_find_by_tid, sched_task_is_child_of, sched_cwd_copy,
  to_i32, int_eq,
}

-- A call on the descriptor table of the task `i`.
abbrev pub with_fds : ℕ → (State → State) → Sched → Sched
with_fds i f s =
    let t = f (record { slot = (task_at s i).fds; shared = s.pipes }) in
    put_task i (λ k. record k { fds = t.slot }) (record s { pipes = t.shared })

-- The assignments of `sched_spawn` before the stack is allocated.
abbrev pub spawn_fields : List ℕ → ℕ → ℕ → Option Task → ℕ → Task → Task
spawn_fields name entry arg parent tid t = record t {
  used = true;
  is_idle = false;
  entry = some entry;
  name = some name;
  vfork_child_active = false;
  syscall_abi_addr = 0;
  waitq = none;
  quantum_used = 0;
  exit_code = 0;
  parent_tid = elim parent [ none ↦ pos 0 | some p ↦ to_i32 p.tid ];
  tid = tid;
  pid = tid;
  ppid = elim parent [ none ↦ pos 0 | some p ↦ to_i32 p.pid ];
  kind = kind_kernel;
  exec_state = exec_kernel;
  state = runnable;
  wake_tick = 0;
  run_ticks = 0;
  arg = arg;
  cwd = elim parent [ none ↦ b'/' ∷ [] | some p ↦ sched_cwd_copy p.cwd ];
  file_umask = elim parent [ none ↦ 0o022 | some p ↦ p.file_umask ];
}

-- The part behind the allocation of the stack.
abbrev pub spawn_start : ℕ → Sched → Sched
spawn_start i s =
    let booted = sched_stack_prepare_bootstrap_locked i s in
    let cpu = sched_cpu_normalize booted (booted.spawn_cpu_rr % sched_cpu_cap booted) in
    let placed =
      put_task i (λ t. record t { run_cpu = cpu })
        (record booted { spawn_cpu_rr = add32 booted.spawn_cpu_rr 1 }) in
    sched_mark_resched_all (sched_runq_add cpu i (with_fds i sched_fd_table_init_stdio placed))

-- The part of `sched_spawn` between the search for a slot and the allocation of the stack. The slot
-- of the caller is in use, and so is not the one found.
unfoldable pub spawn_named : List ℕ → ℕ → ℕ → ℕ → ℕ → Sched → Sched
unfolding sched_current_slot sched_waitq_init_locked sched_cwd_copy
spawn_named name entry arg cpu i s =
    let parent : Option Task = elim (sched_current_slot cpu s) [
      | none ↦ none
      | some p ↦ some (task_at s p)
    ] in
    let next = add32 s.next_tid 1 in
    put_task i (spawn_fields name entry arg parent s.next_tid)
      (sched_waitq_init_locked (some i) (record s { next_tid = if next == 0 then 1 else next }))

-- The rest, with what the allocation of the stack answered.
unfoldable pub spawn_finish : ℕ → ℤ → Sched × Bool → Sched × ℤ
unfolding sched_clear_task sched_stack_prepare_bootstrap_locked sched_runq_add
    sched_fd_table_init_stdio normalize_of cap_of
spawn_finish i tid (s, true) = (spawn_start i s, tid)
spawn_finish i tid (s, false) = (sched_clear_task i s, negsuc 0)

-- The tid, or -1. `entry` is `none` for NULL.
unfoldable pub sched_spawn : List ℕ → Option ℕ → ℕ → ℕ → Sched → Sched × ℤ
unfolding sched_alloc_slot spawn_named sched_stack_alloc_locked spawn_finish
sched_spawn name none arg cpu s = (s, negsuc 0)
sched_spawn name (some entry) arg cpu s = elim (sched_alloc_slot s) [
  | none ↦ (s, negsuc 0)
  | some i ↦
      spawn_finish i (to_i32 s.next_tid)
        (sched_stack_alloc_locked i (spawn_named name entry arg cpu i s))
]

-- The part of `sched_yield` behind the test for NULL, for the slot that runs.
unfoldable pub yield_slot : ℕ → ℕ → Sched → Sched
unfolding sched_runq_add
yield_slot cpu i s =
    let t =
      if (task_at s i).state == running
      then sched_runq_add cpu i (put_task i (λ k. record k { state = runnable; run_cpu = cpu }) s)
      else s in
    sched_mark_resched_all (put_task i (λ k. record k { quantum_used = 0 }) t)

-- The Bool tells whether the task then switches to the scheduler.
unfoldable pub sched_yield : ℕ → Sched → Sched × Bool
unfolding sched_current_slot yield_slot
sched_yield cpu s = elim (sched_current_slot cpu s) [
  | none ↦ (s, false)
  | some i ↦ (yield_slot cpu i s, (task_at s i).state == running)
]

-- The same for `sched_sleep_ticks`.
unfoldable pub sleep_slot : ℕ → ℕ → Sched → Sched
unfolding sched_runq_del
sleep_slot ticks i s =
    let wake = add32 s.ticks (if ticks == 0 then 1 else ticks) in
    let asleep =
      put_task i (λ k. record k { wake_tick = wake; state = sleeping; quantum_used = 0 }) s in
    if (task_at s i).is_idle
    then s
    else sched_mark_resched_all (sched_runq_del (task_at s i).run_cpu i asleep)

unfoldable pub sched_sleep_ticks : ℕ → ℕ → Sched → Sched
unfolding sched_current_slot sleep_slot
sched_sleep_ticks ticks cpu s = elim (sched_current_slot cpu s) [
  | none ↦ s
  | some i ↦ sleep_slot ticks i s
]

-- What is left of `sched_vfork_restore_parent_user_locked` without the copies.
unfoldable pub sched_vfork_restore_parent_user_locked : ℕ → Sched → Sched
sched_vfork_restore_parent_user_locked i s =
    let held = s.snapshot_valid && s.snapshot_child_tid == (task_at s i).tid in
    record s {
      snapshot_valid = if held then false else s.snapshot_valid;
      snapshot_child_tid = if held then 0 else s.snapshot_child_tid;
    }

-- What exiting and being killed have in common, up to the parent: the task is a zombie with the
-- exit code, holds no descriptor and stands in no queue.
unfoldable pub make_zombie : ℕ → ℕ → Sched → Sched
unfolding sched_detach_waitq sched_vfork_restore_parent_user_locked sched_slot_close_all_fds
    sched_runq_del
make_zombie i code s =
    let restored = sched_vfork_restore_parent_user_locked i (sched_detach_waitq i s) in
    let closed =
      with_fds i sched_slot_close_all_fds
        (put_task i (λ k. record k { vfork_child_active = false }) restored) in
    sched_runq_del (task_at closed i).run_cpu i (
      put_task i
        (λ k. record k { exit_code = code; state = zombie; wake_tick = 0; quantum_used = 0 })
        closed)

-- The slot of the task with the tid `parent_tid`, where that is not negative.
abbrev pub parent_of : ℕ → Sched → Option ℕ
parent_of i s = elim (task_at s i).parent_tid [
  | pos tid ↦ sched_find_by_tid tid s
  | negsuc _ ↦ none
]

-- The part of `sched_exit_code` behind the test for NULL, for the slot that runs.
unfoldable pub exit_slot : ℕ → ℕ → Sched → Sched
unfolding make_zombie sched_find_by_tid sched_wake_slot wake_members
exit_slot code i s =
    let dead = make_zombie i code s in
    let told : Sched = elim (parent_of i dead) [
      | none ↦ dead
      | some p ↦
          wake_members p
            (if (task_at dead p).vfork_resume_valid then sched_wake_slot p dead else dead)
    ] in
    if (task_at s i).is_idle then s else sched_mark_resched_all told

unfoldable pub sched_exit_code : ℕ → ℕ → Sched → Sched
unfolding sched_current_slot exit_slot
sched_exit_code code cpu s = elim (sched_current_slot cpu s) [
  | none ↦ s
  | some i ↦ exit_slot code i s
]

unfoldable pub sched_signal_wake_parent_locked : ℕ → Sched → Sched
unfolding sched_find_by_tid wake_members
sched_signal_wake_parent_locked i s = elim (parent_of i s) [ none ↦ s | some p ↦ wake_members p s ]

-- 128u + (sig & 0x7Fu)
abbrev pub killed_code : ℕ → ℕ
killed_code sig = 128 + sig % 128

unfoldable pub sched_signal_terminate_slot_locked : ℕ → ℕ → Sched → Sched
unfolding make_zombie sched_signal_wake_parent_locked
sched_signal_terminate_slot_locked i sig s =
    let t = task_at s i in
    let dead = put_task i (λ k. record k { sig_pending = 0 }) (make_zombie i (killed_code sig) s) in
    if not t.used || t.is_idle || t.state == zombie
    then s
    else sched_mark_resched_all (sched_signal_wake_parent_locked i dead)

-- The loop of `sched_try_reap_child`: the first zombie among the children, and `has_child`.
unfoldable pub reap_from : ℤ → ℤ → ℕ → ℕ → Bool → Sched → Option ℕ × Bool
unfolding sched_task_is_child_of
reap_from parent_tid pid zero i has_child s = (none, has_child)
reap_from parent_tid pid (suc left) i has_child s =
    let skipped = reap_from parent_tid pid left (i + 1) has_child s in
    let seen = reap_from parent_tid pid left (i + 1) true s in
    if not (sched_task_is_child_of (task_at s i) parent_tid pid)
    then skipped
    else if not ((task_at s i).state == zombie)
    then seen
    else (some i, true)

-- The tid of the child, -1 for no child, or 0; and the status where a child is reaped.
unfoldable pub sched_try_reap_child : ℤ → ℤ → Sched → Sched × ℤ × Option ℕ
unfolding reap_from sched_runq_del sched_stack_free_locked sched_clear_task
sched_try_reap_child parent_tid pid s =
    let (found, has_child) = reap_from parent_tid pid (max_tasks - 1) 1 false s in
    elim found [
      | none ↦ (s, (if has_child then pos 0 else negsuc 0), none)
      | some i ↦
          let t = task_at s i in
          (
            sched_clear_task i (sched_stack_free_locked i (sched_runq_del t.run_cpu i s)),
            to_i32 t.tid,
            some (t.exit_code % 256 * 256),
          )
    ]

-- The part of `sched_waitpid` behind the test for NULL, for the slot that runs. WNOHANG is the
-- lowest bit of the options.
unfoldable pub wait_slot : ℤ → ℕ → ℕ → ℕ → Sched → Sched × ℤ × Option ℕ
unfolding sched_try_reap_child sched_waitq_sleep_locked
wait_slot pid options cpu i s =
    let r = sched_try_reap_child (to_i32 (task_at s i).tid) pid s in
    let t = r.0 in
    let rc = r.1 in
    let status = r.2 in
    if (task_at s i).is_idle
    then (s, negsuc 0, none)
    else if not (int_eq rc (pos 0))
    then (t, rc, status)
    else if options % 2 == 1
    then (t, pos 0, status)
    else (sched_waitq_sleep_locked (some i) 0 cpu t, negsuc 1, status)

-- SCHED_WAITPID_BLOCKED is -2.
unfoldable pub sched_waitpid : ℤ → ℕ → ℕ → Sched → Sched × ℤ × Option ℕ
unfolding sched_current_slot wait_slot
sched_waitpid pid options cpu s = elim (sched_current_slot cpu s) [
  | none ↦ (s, negsuc 0, none)
  | some i ↦ wait_slot pid options cpu i s
]
