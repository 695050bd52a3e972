-- ===== src/Sched/Task/Queue.antt =====
-- Run queues, wait queues and the stack pool: the helpers of src/sched.c and src/sched_task.c that
-- work on bit maps. `cpu` is what `sched_cpu_id` answers.
use octans.Prelude.{
  ℕ, ◌-◌, ◌%◌, Option, none, some, Bool, true, false, ◌&&◌, ◌||◌, not, ltb, leb, ◌==◌,
  if◌then◌else◌, List, get_or, modify, find_from, for_range, add32, bits_test, bits_set, bits_clear,
}
use octans.Sched.Task.State.{
  Sched, max_tasks, max_cpus, runnable, sleeping, blocked, no_bits, task_at, put_task, current_at,
  zero_task,
}

-- `sched_cpu_cap` and `sched_cpu_normalize` of what `smp_online_cpus` answers.
unfoldable pub cap_of : ℕ → ℕ
cap_of online = let n = if online == 0 then 1 else online in if ltb max_cpus n then max_cpus else n

unfoldable pub normalize_of : ℕ → ℕ → ℕ
unfolding cap_of
normalize_of online cpu_id = if leb (cap_of online) cpu_id then 0 else cpu_id

abbrev pub sched_cpu_cap : Sched → ℕ
sched_cpu_cap s = cap_of s.online

abbrev pub sched_cpu_normalize : Sched → ℕ → ℕ
sched_cpu_normalize s cpu_id = normalize_of s.online cpu_id

abbrev pub sched_mark_resched_all : Sched → Sched
sched_mark_resched_all s = record s { need_resched = true }

abbrev pub runq_at : Sched → ℕ → List ℕ
runq_at s cpu = get_or s.runq cpu no_bits

-- The guard of the two calls below, which take the lock of one queue.
abbrev pub with_runq : (List ℕ → List ℕ) → ℕ → ℕ → Sched → Sched
with_runq f cpu_id idx s = record s {
  runq =
      if idx == 0 || leb max_tasks idx
      then s.runq
      else modify s.runq (sched_cpu_normalize s cpu_id) f no_bits;
}

unfoldable pub sched_runq_add : ℕ → ℕ → Sched → Sched
unfolding bits_set normalize_of
sched_runq_add cpu_id idx s = with_runq (λ b. bits_set b idx) cpu_id idx s

unfoldable pub sched_runq_del : ℕ → ℕ → Sched → Sched
unfolding bits_clear normalize_of
sched_runq_del cpu_id idx s = with_runq (λ b. bits_clear b idx) cpu_id idx s

-- `start_idx + off` for `off` from 1 to 64, modulo 64; the answer is 0 where no bit is set.
unfoldable pub sched_runq_pick_local : ℕ → ℕ → Sched → ℕ
unfolding find_from bits_test normalize_of
sched_runq_pick_local cpu_id start_idx s =
    let bits = runq_at s (sched_cpu_normalize s cpu_id) in
    let cand = λ (off : ℕ). add32 start_idx off % max_tasks in
    elim (find_from (λ off. not (cand off == 0) && bits_test bits (cand off)) max_tasks 1) [
      | none ↦ 0
      | some off ↦ cand off
    ]

-- `sched_runq_steal_to` answers 0 for every processor: the code behind its `return` is left out by
-- the preprocessor.
unfoldable pub sched_runq_steal_to : ℕ → ℕ
sched_runq_steal_to dst_cpu_id = 0

unfoldable pub sched_pick_next_idx : ℕ → ℕ → Sched → ℕ
unfolding sched_runq_pick_local sched_runq_steal_to
sched_pick_next_idx cpu_id start_idx s =
    let idx = sched_runq_pick_local cpu_id start_idx s in
    if not (idx == 0) then idx else sched_runq_steal_to cpu_id

unfoldable pub sched_idx_runnable : ℕ → Sched → Bool
sched_idx_runnable idx s =
    if idx == 0
    then false
    else if leb max_tasks idx
    then false
    else if not (task_at s idx).used
    then false
    else (task_at s idx).state == runnable

-- The index of the slot, or `none` for NULL.
unfoldable pub sched_current_slot : ℕ → Sched → Option ℕ
sched_current_slot cpu s =
    let idx = current_at s cpu in
    if leb max_tasks idx then none else if not (task_at s idx).used then none else some idx

abbrev pub waitq_at : Sched → ℕ → List ℕ
waitq_at s q = get_or s.waitqs q no_bits

abbrev pub put_waitq : ℕ → (List ℕ → List ℕ) → Sched → Sched
put_waitq q f s = record s { waitqs = modify s.waitqs q f no_bits }

unfoldable pub sched_detach_waitq : ℕ → Sched → Sched
unfolding bits_clear
sched_detach_waitq i s = record s {
  tasks = elim (task_at s i).waitq [
    | none ↦ s.tasks
    | some q ↦ modify s.tasks i (λ k. record k { waitq = none }) zero_task
  ];
  waitqs = elim (task_at s i).waitq [
    | none ↦ s.waitqs
    | some q ↦ if ltb i max_tasks then modify s.waitqs q (λ b. bits_clear b i) no_bits else s.waitqs
  ];
}

unfoldable pub sched_waitq_init_locked : Option ℕ → Sched → Sched
sched_waitq_init_locked none s = s
sched_waitq_init_locked (some q) s = put_waitq q (λ b. no_bits) s

-- What waking a task and finding it due have in common: it leaves its wait queue, is runnable, and
-- stands in the run queue of its processor.
unfoldable pub make_ready : ℕ → Sched → Sched
unfolding sched_detach_waitq sched_runq_add normalize_of
make_ready i s =
    let t = sched_detach_waitq i s in
    let cpu = sched_cpu_normalize t (task_at t i).run_cpu in
    let up =
      put_task i
        (λ k. record k { wake_tick = 0; state = runnable; run_cpu = cpu; quantum_used = 0 }) t in
    sched_mark_resched_all (sched_runq_add cpu i up)

unfoldable pub sched_wake_slot : ℕ → Sched → Sched
unfolding make_ready
sched_wake_slot i s =
    let t = task_at s i in
    if not t.used || t.is_idle
    then s
    else if not (t.state == blocked) && not (t.state == sleeping)
    then s
    else make_ready i s

-- One round of `sched_try_wake_sleepers`.
unfoldable pub wake_due : ℕ → ℕ → Sched → Sched
unfolding make_ready
wake_due now_tick i s =
    let t = task_at s i in
    if not t.used
    then s
    else if not (t.state == sleeping) && not (t.state == blocked)
    then s
    else if t.wake_tick == 0 || ltb now_tick t.wake_tick
    then s
    else make_ready i s

unfoldable pub sched_try_wake_sleepers : ℕ → Sched → Sched
unfolding for_range wake_due
sched_try_wake_sleepers now_tick s = for_range max_tasks 0 (wake_due now_tick) s

-- The part of `sched_waitq_sleep_locked` behind the tests for NULL, for the slot that runs.
unfoldable pub waitq_sleep_slot : ℕ → ℕ → ℕ → Sched → Sched
unfolding sched_detach_waitq sched_runq_del bits_set
waitq_sleep_slot q timeout_ticks i s =
    let t = sched_detach_waitq i s in
    let wake = if timeout_ticks == 0 then 0 else add32 s.ticks timeout_ticks in
    let asleep =
      put_task i
        (λ k. record k { waitq = some q; state = blocked; wake_tick = wake; quantum_used = 0 })
        (put_waitq q (λ b. bits_set b i) t) in
    if (task_at s i).is_idle
    then s
    else sched_mark_resched_all (sched_runq_del (task_at s i).run_cpu i asleep)

unfoldable pub sched_waitq_sleep_locked : Option ℕ → ℕ → ℕ → Sched → Sched
unfolding sched_current_slot waitq_sleep_slot
sched_waitq_sleep_locked none timeout_ticks cpu s = s
sched_waitq_sleep_locked (some q) timeout_ticks cpu s = elim (sched_current_slot cpu s) [
  | none ↦ s
  | some i ↦ waitq_sleep_slot q timeout_ticks i s
]

unfoldable pub sched_waitq_sleep : Option ℕ → ℕ → ℕ → Sched → Sched
unfolding sched_waitq_sleep_locked
sched_waitq_sleep q timeout_ticks cpu s = sched_waitq_sleep_locked q timeout_ticks cpu s

-- The first task of the queue is handed to `sched_wake_slot`.
unfoldable pub sched_waitq_wake_one : Option ℕ → Sched → Sched
unfolding find_from bits_test sched_wake_slot
sched_waitq_wake_one none s = s
sched_waitq_wake_one (some q) s =
    elim (find_from (λ i. bits_test (waitq_at s q) i) (max_tasks - 1) 1) [
      | none ↦ s
      | some i ↦ sched_wake_slot i s
    ]

-- The loop over the tasks of a queue; the queue is read anew in each round.
unfoldable pub wake_member : ℕ → ℕ → Sched → Sched
unfolding bits_test sched_wake_slot
wake_member q i s = if bits_test (waitq_at s q) i then sched_wake_slot i s else s

unfoldable pub wake_members : ℕ → Sched → Sched
unfolding for_range wake_member
wake_members q s = for_range (max_tasks - 1) 1 (wake_member q) s

unfoldable pub sched_waitq_wake_all : Option ℕ → Sched → Sched
unfolding wake_members
sched_waitq_wake_all none s = s
sched_waitq_wake_all (some q) s = wake_members q s
