-- ===== src/Sched/Task/Loop.antt =====
-- The scheduler's loop, the timer and the initial state: `sched_run`, `schedule_tick`, `sched_init`
-- and `sched_stats_snapshot` of src/sched.c. The switch of stacks is a point between two steps.
use octans.Prelude.{
  ℕ, Option, none, some, Bool, true, false, ◌&&◌, ◌||◌, not, leb, ◌==◌, if◌then◌else◌, set, add32,
}
use octans.Sched.Task.State.{
  Task, Sched, max_tasks, quantum_ticks, runnable, running, kind_kernel, kind_user, task_at,
  put_task, current_at,
}
use octans.Sched.Task.Queue.{
  sched_current_slot, sched_mark_resched_all, sched_runq_add, sched_runq_del, sched_pick_next_idx,
  sched_idx_runnable, sched_try_wake_sleepers,
}
use octans.Sched.Task.Slots.{stack_entries, sched_stack_prepare_bootstrap_locked}

-- `*idx_ptr = idx`
abbrev pub put_current : ℕ → ℕ → Sched → Sched
put_current cpu idx s = record s { current = set s.current cpu idx }

-- Whether a round of `sched_run` looks for a task.
abbrev pub must_choose : ℕ → Sched → Bool
must_choose cpu s = s.need_resched || not (sched_idx_runnable (current_at s cpu) s)

-- The slot that a round of `sched_run` comes to; 0 is the root's.
unfoldable pub run_choose : ℕ → Sched → ℕ
unfolding sched_idx_runnable sched_pick_next_idx
run_choose cpu s =
    if must_choose cpu s then sched_pick_next_idx cpu (current_at s cpu) s else current_at s cpu

-- The stale entry, which leaves the queue.
unfoldable pub run_stale : ℕ → ℕ → Sched → Sched
unfolding sched_runq_del
run_stale cpu next s = put_current cpu 0 (sched_mark_resched_all (sched_runq_del cpu next s))

-- The writes that make `next` the task that runs.
unfoldable pub run_start : ℕ → ℕ → Sched → Sched
unfolding sched_runq_del sched_stack_prepare_bootstrap_locked
run_start cpu next s =
    let t = task_at s next in
    let taken =
      sched_runq_del cpu next
        (put_task next (λ k. record k { run_cpu = cpu }) (put_current cpu next s)) in
    let booted =
      if t.kind == kind_kernel && t.stack_ctx.csp == stack_entries
      then sched_stack_prepare_bootstrap_locked next taken
      else taken in
    put_task next (λ k. record k { state = running; run_ticks = add32 k.run_ticks 1 }) booted

-- What one round of `sched_run` does before the switch of stacks, and the task that it switches to,
-- if it switches. The root's slot and the stale entries end the round.
unfoldable pub sched_run_pick : ℕ → Sched → Sched × Option ℕ
unfolding run_choose run_stale run_start
sched_run_pick cpu s =
    let next = run_choose cpu s in
    let t = task_at s next in
    let s1 = record s { need_resched = s.need_resched && not (must_choose cpu s) } in
    if next == 0
    then (put_current cpu 0 s1, none)
    else if not t.used || elim t.entry [ none ↦ true | some _ ↦ false ] || not (t.state == runnable)
    then (run_stale cpu next s1, none)
    else (run_start cpu next s1, some next)

-- What the round does after the task `next` has switched back.
unfoldable pub sched_run_return : ℕ → ℕ → Sched → Sched
unfolding sched_runq_add
sched_run_return cpu next s =
    let t = put_current cpu 0 s in
    if (task_at t next).state == running
    then sched_runq_add cpu next (put_task next (λ k. record k { state = runnable }) t)
    else t

-- What `sched_task_bootstrap` does after the function of a task has returned, before it switches to
-- the scheduler.
unfoldable pub bootstrap_return : ℕ → ℕ → Sched → Sched
unfolding sched_runq_add
bootstrap_return cpu i s =
    let ready =
      sched_runq_add cpu i (put_task i (λ k. record k { state = runnable; run_cpu = cpu }) s) in
    if (task_at s i).state == running
    then sched_mark_resched_all (put_task i (λ k. record k { quantum_used = 0 }) ready)
    else s

unfoldable pub sched_task_bootstrap : ℕ → Sched → Sched
unfolding sched_current_slot bootstrap_return
sched_task_bootstrap cpu s = elim (sched_current_slot cpu s) [
  | none ↦ s
  | some i ↦ bootstrap_return cpu i s
]

-- The counters of `schedule_tick`, for the task `t` that the processor runs.
abbrev pub tick_counters : Task → Sched → Sched
tick_counters t s =
    let lazy = not t.used || t.is_idle in
    let by_user = not lazy && t.kind == kind_user in
    let by_system = not lazy && not (t.kind == kind_user) in
    record s {
      idle_ticks = if lazy then add32 s.idle_ticks 1 else s.idle_ticks;
      user_ticks = if by_user then add32 s.user_ticks 1 else s.user_ticks;
      system_ticks = if by_system then add32 s.system_ticks 1 else s.system_ticks;
    }

-- A tick more of the quantum, at whose end the scheduler is asked for.
abbrev pub spend_quantum : ℕ → Sched → Sched
spend_quantum idx s =
    let used = add32 (task_at s idx).quantum_used 1 in
    put_task idx (λ k. record k { quantum_used = used })
      (record s { need_resched = s.need_resched || leb quantum_ticks used })

unfoldable pub count_tick : ℕ → Sched → Sched
count_tick idx s =
    let t = task_at s idx in
    let counted = tick_counters t s in
    if leb max_tasks idx
    then s
    else if t.used && not t.is_idle && t.state == running
    then spend_quantum idx counted
    else counted

unfoldable pub schedule_tick : ℕ → Sched → Sched
unfolding sched_try_wake_sleepers count_tick
schedule_tick cpu s =
    let now = add32 s.ticks 1 in
    let woken = sched_try_wake_sleepers now (record s { ticks = now }) in
    count_tick (current_at woken cpu) woken
