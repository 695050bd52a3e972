-- ===== src/Sched/Task/Vfork.antt =====
-- `sched_vfork` of src/sched_task.c, which runs the child in the parent's memory while the parent
-- waits. The copies of stacks and of user memory are not modelled, nor the contexts saved for the
-- return to user mode: whether a task has one is.
use octans.Prelude.{
  ℕ, ◌+◌, ◌-◌, Option, none, some, Bool, true, false, ◌||◌, not, ltb, ◌==◌, if◌then◌else◌, add32,
  find_from, is_ok,
}
use octans.Sched.Fd.Table.{sched_fd_table_clone}
use octans.Sched.Task.State.{StackCtx, Task, Sched, runnable, stack_slots, task_at, put_task}
use octans.Sched.Task.Queue.{
  sched_mark_resched_all, sched_runq_add, sched_current_slot, sched_waitq_init_locked,
  sched_waitq_sleep_locked,
}
use octans.Sched.Task.Slots.{
  stack_entries, call_stack_bytes, data_stack_bytes, stack_slot_bytes, sched_stack_pool_slot_base,
  sched_stack_alloc_locked, sched_stack_prepare_bootstrap_locked, sched_stack_free_locked,
  sched_clear_task, sched_alloc_slot, sched_cwd_copy, to_i32,
}

-- What the call finds in the machine: the context that `sched_ctx_capture` stores, the answers of
-- `irq_saved_user_csp`, `_dsp`, `_call_base` and `_data_base`, and the address of
-- `sched_vfork_child_entry`.
pub record UserFrame : Type 0 where
  pub live : StackCtx
  pub csp : ℕ
  pub dsp : ℕ
  pub call_base : ℕ
  pub data_base : ℕ
  pub child_entry : ℕ

-- The slot of the pool whose stack starts at `base`, or none for -1.
unfoldable pub sched_stack_slot_index_for_base : ℕ → Option ℕ
unfolding find_from sched_stack_pool_slot_base
sched_stack_slot_index_for_base base =
    find_from (λ slot. sched_stack_pool_slot_base slot == base) stack_slots 0

-- The context of the caller: the live one on the caller's stack, or on the stack that the interrupt
-- came from where the caller's is not one of the pool.
unfoldable pub self_ctx : UserFrame → StackCtx → StackCtx
unfolding sched_stack_slot_index_for_base
self_ctx m own = elim (sched_stack_slot_index_for_base own.call_base) [
  | some _ ↦ record m.live {
    call_base = own.call_base;
    data_base = own.data_base;
    isr_base = own.isr_base;
    pool_slot = own.pool_slot;
    valid = true;
  }
  | none ↦ record m.live {
    call_base = m.call_base;
    data_base = m.data_base;
    isr_base = add32 m.call_base (call_stack_bytes + data_stack_bytes);
    pool_slot = elim (sched_stack_slot_index_for_base m.call_base) [
      | none ↦ own.pool_slot
      | some slot ↦ slot
    ];
    valid = true;
  }
]

-- The assignments to the child, whose slot is cleared before.
abbrev pub vfork_fields : ℕ → ℕ → Task → ℕ → Task → Task
vfork_fields child_entry cpu self tid t = record t {
  used = true;
  is_idle = false;
  entry = some child_entry;
  name = self.name;
  vfork_child_active = true;
  waitq = none;
  quantum_used = 0;
  run_cpu = cpu;
  exit_code = 0;
  parent_tid = to_i32 self.tid;
  tid = tid;
  pid = tid;
  ppid = to_i32 self.pid;
  state = runnable;
  kind = self.kind;
  exec_state = self.exec_state;
  wake_tick = 0;
  run_ticks = self.run_ticks;
  arg = 0;
  cwd = sched_cwd_copy self.cwd;
  file_umask = self.file_umask;
  sig_mask = self.sig_mask;
  sig_pending = 0;
  sig_frame_top = self.sig_frame_top;
  sig_action = self.sig_action;
  syscall_abi_addr = self.syscall_abi_addr;
  vfork_resume_valid = false;
}

-- The part of `sched_vfork_trampoline` between the search for a slot and the allocation of a stack.
unfoldable pub vfork_named : UserFrame → ℕ → ℕ → ℕ → Sched → Sched
unfolding sched_clear_task sched_waitq_init_locked sched_cwd_copy
vfork_named m cpu self i s =
    let next = add32 s.next_tid 1 in
    put_task i (vfork_fields m.child_entry cpu (task_at s self) s.next_tid) (
      sched_waitq_init_locked (some i)
        (sched_clear_task i (record s { next_tid = if next == 0 then 1 else next })))

-- The tests of the numbers that come from the interrupted program.
abbrev pub unusable : UserFrame → Bool
unusable m =
    m.csp == 0
    || ltb stack_entries m.csp
    || ltb stack_entries m.dsp
    || ltb stack_entries m.live.isp
    || m.call_base == 0
    || m.data_base == 0

abbrev pub resume_ctx : UserFrame → StackCtx → StackCtx
resume_ctx m c = record c {
  csp = m.csp - 1;
  dsp = stack_entries;
  isp = m.live.isp;
  irq_masked = false;
  in_interrupt = false;
  sp30 = add32 c.call_base stack_slot_bytes;
  sp31 = add32 c.call_base stack_slot_bytes;
}

abbrev pub resumes : UserFrame → Task → Task
resumes m t = record t { stack_ctx = resume_ctx m t.stack_ctx; vfork_resume_valid = true }

-- The Bool is false for -1. The two calls below differ in the entry that they put on the stack and
-- in the answer that they keep for the parent.
abbrev pub prepare_user : UserFrame → ℕ → Sched → Sched × Bool
prepare_user m i s =
    let fails = not (task_at s i).stack_ctx.valid || unusable m in
    (if fails then s else put_task i (resumes m) s, not fails)

abbrev pub sched_vfork_prepare_child_user_locked : UserFrame → ℕ → Sched → Sched × Bool
sched_vfork_prepare_child_user_locked m child s = prepare_user m child s

abbrev pub sched_vfork_prepare_parent_resume_locked : UserFrame → ℕ → Sched → Sched × Bool
sched_vfork_prepare_parent_resume_locked m self s = prepare_user m self s

-- What is left of `sched_vfork_snapshot_parent_user_locked` without the copies.
abbrev pub sched_vfork_snapshot_parent_user_locked : ℕ → Sched → Sched
sched_vfork_snapshot_parent_user_locked child s = record s {
  snapshot_valid = true;
  snapshot_child_tid = (task_at s child).tid;
}

abbrev pub vfork_give_up : ℕ → Sched → Sched
vfork_give_up i s = sched_clear_task i (sched_stack_free_locked i s)

-- The last part: the child may run, and the parent waits.
unfoldable pub vfork_run : ℕ → ℕ → ℕ → Sched → Sched
unfolding sched_runq_add sched_waitq_sleep_locked
vfork_run cpu self i s =
    let held = sched_vfork_snapshot_parent_user_locked i s in
    sched_mark_resched_all
      (sched_waitq_sleep_locked (some self) 0 cpu (sched_runq_add (task_at held i).run_cpu i held))

-- What follows on the answer for the parent, for the child, for the descriptors, and for the stack.
-- The Bool of the results tells whether the call switches to the scheduler; else it answers -1.
unfoldable pub on_parent : ℕ → ℕ → ℕ → Sched × Bool → Sched × Bool
unfolding vfork_run sched_clear_task sched_stack_free_locked
on_parent cpu self i (s, true) = (vfork_run cpu self i s, true)
on_parent cpu self i (s, false) =
    (put_task self (λ t. record t { vfork_resume_valid = false }) (vfork_give_up i s), false)

unfoldable pub on_child : UserFrame → ℕ → ℕ → ℕ → Sched × Bool → Sched × Bool
unfolding on_parent sched_clear_task sched_stack_free_locked
on_child m cpu self i (s, true) =
    on_parent cpu self i (sched_vfork_prepare_parent_resume_locked m self s)
on_child m cpu self i (s, false) = (vfork_give_up i s, false)

unfoldable pub on_clone : UserFrame → ℕ → ℕ → ℕ → Sched × Bool → Sched × Bool
unfolding on_child sched_clear_task sched_stack_free_locked
on_clone m cpu self i (s, true) =
    on_child m cpu self i (sched_vfork_prepare_child_user_locked m i s)
on_clone m cpu self i (s, false) = (vfork_give_up i s, false)

-- `sched_fd_table_clone` on two tasks.
unfoldable pub clone_tasks : ℕ → ℕ → Sched → Sched × Bool
unfolding sched_fd_table_clone
clone_tasks self i s =
    let (t, reply) =
      sched_fd_table_clone (record { slot = (task_at s i).fds; shared = s.pipes })
        (task_at s self).fds in
    (put_task i (λ k. record k { fds = t.slot }) (record s { pipes = t.shared }), is_ok reply)

unfoldable pub on_stack : UserFrame → ℕ → ℕ → ℕ → Sched × Bool → Sched × Bool
unfolding on_clone clone_tasks sched_stack_prepare_bootstrap_locked sched_clear_task
on_stack m cpu self i (s, true) =
    on_clone m cpu self i (clone_tasks self i (sched_stack_prepare_bootstrap_locked i s))
on_stack m cpu self i (s, false) = (sched_clear_task i s, false)

-- The part of `sched_vfork_trampoline` behind the tests of the caller, which runs in the slot `self`.
unfoldable pub vfork_slot : UserFrame → ℕ → ℕ → ℕ → Sched → Sched × Bool
unfolding self_ctx sched_alloc_slot vfork_named sched_stack_alloc_locked on_stack
vfork_slot m abi_addr cpu self s =
    let t =
      put_task self
        (λ k. record k { syscall_abi_addr = abi_addr; stack_ctx = self_ctx m k.stack_ctx }) s in
    elim (sched_alloc_slot t) [
      | none ↦ (t, false)
      | some i ↦ on_stack m cpu self i (sched_stack_alloc_locked i (vfork_named m cpu self i t))
    ]

-- The caller is none of the processor's tasks or the root, has no stack, or another `vfork` is under
-- way: then nothing is done.
unfoldable pub vfork_caller : UserFrame → ℕ → ℕ → ℕ → Sched → Sched × Bool
unfolding vfork_slot
vfork_caller m abi_addr cpu self s =
    let k = task_at s self in
    let refused = k.is_idle || not k.stack_ctx.valid || s.snapshot_valid in
    if refused then (s, false) else vfork_slot m abi_addr cpu self s

unfoldable pub sched_vfork : UserFrame → ℕ → ℕ → Sched → Sched × Bool
unfolding sched_current_slot vfork_caller
sched_vfork m abi_addr cpu s = elim (sched_current_slot cpu s) [
  | none ↦ (s, false)
  | some self ↦ vfork_caller m abi_addr cpu self s
]
