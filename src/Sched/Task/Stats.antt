-- ===== src/Sched/Task/Stats.antt =====
-- The snapshots of the table: `sched_stats_snapshot`, `sched_proc_task_by_slot` and
-- `sched_proc_task_by_pid` of src/sched.c.
use octans.Prelude.{
  ℕ, subst, zero, suc, ◌+◌, ◌-◌, ◌<◌, ◌≤◌, ◌≡◌, refl, ℤ, Option, none, some, Bool, true, false,
  ◌&&◌, ◌||◌, not, leb, ◌==◌, if◌then◌else◌, arith, List, [], ◌∷◌, take, find_from, for_range,
  for_range_inv, add32,
}
use octans.Sched.Task.State.{
  Task, Sched, max_tasks, runnable, running, sleeping, blocked, zombie, kind_user, task_at,
}
use octans.Sched.Task.Queue.{cap_of, sched_cpu_cap}
use octans.Sched.Task.Slots.{stack_slot_bytes}

-- `sched_stats_t`.
pub record Stats : Type 0 where
  pub ticks : ℕ
  pub user_ticks : ℕ
  pub system_ticks : ℕ
  pub idle_ticks : ℕ
  pub task_count : ℕ
  pub runnable_tasks : ℕ
  pub running_tasks : ℕ
  pub sleeping_tasks : ℕ
  pub blocked_tasks : ℕ
  pub zombie_tasks : ℕ
  pub user_tasks : ℕ
  pub stack_bytes : ℕ
  pub online_cpus : ℕ

-- One round of the loop: the slot of the task `t` is counted.
unfoldable pub count_task : Task → Stats → Stats
count_task t o =
    let seen = not (not t.used || t.is_idle) in
    let more = λ (test : Bool) (n : ℕ). if seen && test then add32 n 1 else n in
    record o {
      task_count = if seen then add32 o.task_count 1 else o.task_count;
      user_tasks = more (t.kind == kind_user) o.user_tasks;
      stack_bytes =
          if seen && t.stack_ctx.valid then add32 o.stack_bytes stack_slot_bytes else o.stack_bytes;
      runnable_tasks = more (t.state == runnable) o.runnable_tasks;
      running_tasks = more (t.state == running) o.running_tasks;
      sleeping_tasks = more (t.state == sleeping) o.sleeping_tasks;
      blocked_tasks = more (t.state == blocked) o.blocked_tasks;
      zombie_tasks = more (t.state == zombie) o.zombie_tasks;
    }

abbrev pub no_stats : Sched → Stats
no_stats s = record {
  ticks = s.ticks;
  user_ticks = s.user_ticks;
  system_ticks = s.system_ticks;
  idle_ticks = s.idle_ticks;
  task_count = 0;
  runnable_tasks = 0;
  running_tasks = 0;
  sleeping_tasks = 0;
  blocked_tasks = 0;
  zombie_tasks = 0;
  user_tasks = 0;
  stack_bytes = 0;
  online_cpus = sched_cpu_cap s;
}

unfoldable pub sched_stats_snapshot : Sched → Stats
unfolding for_range count_task cap_of
sched_stats_snapshot s = for_range max_tasks 0 (λ i o. count_task (task_at s i) o) (no_stats s)

-- `sched_proc_task_info_t`. The name is the bytes before its 0.
pub record ProcInfo : Type 0 where
  pub pid : ℕ
  pub ppid : ℤ
  pub state : ℕ
  pub kind : ℕ
  pub run_ticks : ℕ
  pub stack_bytes : ℕ
  pub name : List ℕ

-- SCHED_NAME_MAX is 16, which leaves 15 bytes of the name; a task without a name is "task".
unfoldable pub sched_proc_task_copy : Task → ProcInfo
sched_proc_task_copy t = record {
  pid = t.pid;
  ppid = t.ppid;
  state = t.state;
  kind = t.kind;
  run_ticks = t.run_ticks;
  stack_bytes = if t.stack_ctx.valid then stack_slot_bytes else 0;
  name = take 15 (elim t.name [ none ↦ b't' ∷ b'a' ∷ b's' ∷ b'k' ∷ [] | some name ↦ name ]);
}

-- `none` for -1. `out` is not NULL.
unfoldable pub sched_proc_task_by_slot : ℕ → Sched → Option ProcInfo
unfolding sched_proc_task_copy
sched_proc_task_by_slot slot_idx s =
    let t = task_at s slot_idx in
    if slot_idx == 0 || leb max_tasks slot_idx
    then none
    else if t.used && not t.is_idle
    then some (sched_proc_task_copy t)
    else none

-- The test of the loop over the slots.
abbrev pub has_pid : ℕ → Sched → ℕ → Bool
has_pid pid s i =
    not (not (task_at s i).used || (task_at s i).is_idle || not ((task_at s i).pid == pid))

unfoldable pub sched_proc_task_by_pid : ℕ → Sched → Option ProcInfo
sched_proc_task_by_pid pid s =
    if pid == 0 then none else elim (find_from (has_pid pid s) (max_tasks - 1) 1) [
      | none ↦ none
      | some i ↦ some (sched_proc_task_copy (task_at s i))
    ]

-- The number of slots below `n` that pass the test.
unfoldable pub count_slots : (Task → Bool) → ℕ → Sched → ℕ
count_slots p zero s = 0
count_slots p (suc n) s = count_slots p n s + (if p (task_at s n) then 1 else 0)

abbrev pub is_task : Task → Bool
is_task t = not (not t.used || t.is_idle)

abbrev pub in_state : ℕ → Task → Bool
in_state state t = is_task t && t.state == state

pub count_slots-bound : (p : Task → Bool) (n : ℕ) (s : Sched) → count_slots p n s ≤ n
unfolding count_slots
count_slots-bound p zero s = omega arith
count_slots-bound p (suc n) s = ground (arith, count_slots-bound p n s)

-- The counters after the rounds below `n`.
pub record Counts (s : Sched) (n : ℕ) (o : Stats) : Type 0 where
  pub tasks : o.task_count ≡ count_slots is_task n s
  pub user : o.user_tasks ≡ count_slots (λ t. is_task t && t.kind == kind_user) n s
  pub ready : o.runnable_tasks ≡ count_slots (in_state runnable) n s
  pub runs : o.running_tasks ≡ count_slots (in_state running) n s
  pub sleeps : o.sleeping_tasks ≡ count_slots (in_state sleeping) n s
  pub blocks : o.blocked_tasks ≡ count_slots (in_state blocked) n s
  pub ended : o.zombie_tasks ≡ count_slots (in_state zombie) n s

more_num :
    (b : Bool) (old c : ℕ)
    → old ≡ c
    → c < max_tasks
    → (if b then add32 old 1 else old) ≡ c + (if b then 1 else 0)
more_num true old c e h = omega (arith, e)
more_num false old c e h = omega (arith, e)

more_lem :
    (p : Task → Bool) (n : ℕ) (s : Sched) (old : ℕ)
    → n < max_tasks
    → old ≡ count_slots p n s
    → (if p (task_at s n) then add32 old 1 else old) ≡ count_slots p (n + 1) s
unfolding count_slots
more_lem p n s old h e =
    let next : suc n ≡ n + 1 = omega arith in
    subst (λ m. (if p (task_at s n) then add32 old 1 else old) ≡ count_slots p m s) next
      (more_num (p (task_at s n)) old (count_slots p n s) e
        (omega (arith, count_slots-bound p n s)))

count_task-Counts :
    (n : ℕ) (s : Sched) (o : Stats)
    → n < max_tasks
    → Counts s n o
    → Counts s (n + 1) (count_task (task_at s n) o)
unfolding count_task
count_task-Counts n s o h c = record {
  tasks = more_lem is_task n s o.task_count h c.tasks;
  user = more_lem (λ t. is_task t && t.kind == kind_user) n s o.user_tasks h c.user;
  ready = more_lem (in_state runnable) n s o.runnable_tasks h c.ready;
  runs = more_lem (in_state running) n s o.running_tasks h c.runs;
  sleeps = more_lem (in_state sleeping) n s o.sleeping_tasks h c.sleeps;
  blocks = more_lem (in_state blocked) n s o.blocked_tasks h c.blocks;
  ended = more_lem (in_state zombie) n s o.zombie_tasks h c.ended;
}

-- The seven counters of `sched_stats_snapshot` are, without a wrap, the numbers of slots of the table
-- that hold a task other than the root, a user's task, and a task in each of the five states.
pub sched_stats_snapshot-Counts : (s : Sched) → Counts s max_tasks (sched_stats_snapshot s)
unfolding sched_stats_snapshot count_slots
sched_stats_snapshot-Counts s =
    for_range_inv (Counts s) (λ i o. count_task (task_at s i) o) 0 max_tasks
      (λ k o low high c. count_task-Counts k s o high c) max_tasks (no_stats s) refl
      (record {
        tasks = zero_slots is_task;
        user = zero_slots (λ t. is_task t && t.kind == kind_user);
        ready = zero_slots (in_state runnable);
        runs = zero_slots (in_state running);
        sleeps = zero_slots (in_state sleeping);
        blocks = zero_slots (in_state blocked);
        ended = zero_slots (in_state zombie);
      })
  where
    zero_slots : (p : Task → Bool) → 0 ≡ count_slots p 0 s
    zero_slots p = refl
