-- ===== src/Sched/Task/Inv/Steps.antt =====
-- The scheduler as a system of steps: every state that is reached from `sched_init` by the operations
-- of the tasks, the processors and the timer has queues that are right.
use octans.Prelude.{
  ℕ, ◌+◌, ◌<◌, ◌≤◌, ◌≡◌, ◌≢◌, refl, sym, ap, ◌∙◌, ℤ, List, Option, none, some, true, false, arith,
  ◌==◌, Bool-cases, inl, inr, length, length-replicate, get_or-replicate, get_or-set, length-set,
  for_range, for_range_inv,
}
use octans.Sched.Fd.State.{Pipes}
use octans.Sched.Fd.Table.{sched_fd_table_init_stdio}
use octans.Sched.Task.State.{
  Task, Sched, max_tasks, max_cpus, no_bits, task_at, put_task, zero_task, current_at,
}
use octans.Sched.Task.Queue.{
  waitq_at, put_waitq, sched_waitq_init_locked, sched_waitq_sleep_locked, sched_waitq_wake_one,
  sched_waitq_wake_all,
}
use octans.Sched.Task.Slots.{sched_clear_task}
use octans.Sched.Task.Life.{
  with_fds, sched_spawn, sched_yield, sched_sleep_ticks, sched_exit_code,
  sched_signal_terminate_slot_locked, sched_waitpid,
}
use octans.Sched.Task.Loop.{sched_run_pick, sched_run_return, sched_task_bootstrap, schedule_tick}
use octans.Sched.Task.Boot.{
  zero_memory, root_fields, init_globals, sched_stack_pool_init_locked, sched_init,
}
use octans.Sched.Task.Inv.Sound.{IsSound, SoundBut}
use octans.Sched.Task.Inv.Moves.{but_put}
use octans.Sched.Task.Inv.Wake.{settle_out, touch-IsSound}
use octans.Sched.Task.Inv.Ready.{sched_waitq_wake_one-IsSound, sched_waitq_wake_all-IsSound}
use octans.Sched.Task.Inv.Sleep.{sched_sleep_ticks-IsSound, sched_waitq_sleep_locked-IsSound}
use octans.Sched.Task.Inv.Run.{sched_run_pick-RunsLowest}
use octans.Sched.Task.Inv.Turn.{
  sched_yield-IsSound, sched_task_bootstrap-IsSound, sched_run_return-IsSound,
  schedule_tick-IsSound,
}
use octans.Sched.Task.Inv.End.{
  put_lem, but_reset, no_bits-empty, sched_exit_code-IsSound,
  sched_signal_terminate_slot_locked-IsSound,
}
use octans.Sched.Task.Inv.Signal.{sched_signal_kill-IsSound}
use octans.Sched.Task.Vfork.{UserFrame, sched_vfork}
use octans.Sched.Task.Attr.{sched_vfork_release_parent}
use octans.Sched.Task.Inv.Vfork.{IsQuiet, sched_vfork-IsSound}
use octans.Sched.Task.Inv.Keeps.{
  Keeps, Keeps-refl, put-Keeps, waitq_sleep-Keeps, wake_one-Keeps, wake_all-Keeps,
}
use octans.Sched.Task.Inv.KeepsLife.{
  yield-Keeps, bootstrap-Keeps, sleep-Keeps, exit-Keeps, terminate-Keeps, kill-Keeps, waitpid-Keeps,
  tick-Keeps, release-Keeps,
}
use octans.Sched.Task.Inv.KeepsStart.{spawn-Keeps, vfork-Keeps}
use octans.Sched.Task.Inv.Homes.{
  AllHome, Keeps-AllHome, sched_run_pick-AllHome, sched_run_return-AllHome,
}
use octans.Sched.Task.Inv.Release.{sched_vfork_release_parent-IsSound}
use octans.Sched.Task.Signals.{sched_signal_kill}
use octans.Sched.Task.Inv.Spawn.{sched_spawn-IsSound, sched_waitpid-IsSound}

-- The memory while `sched_init` clears the slots.
record Cleared (n : ℕ) (s : Sched) : Type 0 where
  pub tasks_len : length s.tasks ≡ max_tasks
  pub waitqs_len : length s.waitqs ≡ max_tasks + n
  pub tasks : (j : ℕ) → task_at s j ≡ zero_task
  pub waitqs : (q : ℕ) → waitq_at s q ≡ no_bits

clear-Cleared :
    (n k : ℕ) (s : Sched) → k < max_tasks → Cleared n s → Cleared n (sched_clear_task k s)
unfolding sched_clear_task
clear-Cleared n k s hk c = record {
  tasks_len = length-set s.tasks k _ ∙ c.tasks_len;
  waitqs_len = length-set s.waitqs k _ ∙ c.waitqs_len;
  tasks = λ j. elim (Bool-cases (k == j)) [
    | inl e ↦ rw (get_or-set s.tasks k j zero_task zero_task (omega (arith, c.tasks_len)), e) refl
    | inr e ↦
        rw (get_or-set s.tasks k j zero_task zero_task (omega (arith, c.tasks_len)), e) (c.tasks j)
  ];
  waitqs = λ q. elim (Bool-cases (k == q)) [
    | inl e ↦ rw (get_or-set s.waitqs k q no_bits no_bits (omega (arith, c.waitqs_len)), e) refl
    | inr e ↦
        rw (get_or-set s.waitqs k q no_bits no_bits (omega (arith, c.waitqs_len)), e) (c.waitqs q)
  ];
}

start-Cleared :
    (queues online : ℕ) (pipes : Pipes) → Cleared queues (zero_memory queues online pipes)
start-Cleared queues online pipes = record {
  tasks_len = length-replicate max_tasks zero_task;
  waitqs_len = length-replicate (max_tasks + queues) no_bits;
  tasks = λ j. get_or-replicate {A = Task} max_tasks j zero_task;
  waitqs = λ q. get_or-replicate {A = List ℕ} (max_tasks + queues) q no_bits;
}

-- All slots are free and all queues empty.
wiped-SoundBut :
    (n target_cpus : ℕ) (s : Sched)
    → Cleared n s
    → SoundBut 0 (λ c. false) (λ q. false) (init_globals target_cpus s)
unfolding init_globals sched_stack_pool_init_locked
wiped-SoundBut n target_cpus s c =
    let row = λ (k : ℕ). get_or-replicate {A = List ℕ} max_cpus k no_bits in
    record {
      shape = record {
        tasks_len = c.tasks_len;
        runq_len = length-replicate max_cpus no_bits;
        runq_rows = λ k hk. rw (row k) refl;
        waitqs_len = omega (arith, c.waitqs_len);
        wait_rows = λ q hq. rw (c.waitqs q) refl;
      };
      agree = λ j hj ne. record {
        runs = λ k hk. rw (row k, c.tasks j) (no_bits-empty j ∙ ground arith);
        waits = λ q hq. rw (c.waitqs q, c.tasks j) (no_bits-empty j);
        may = λ q e. absurd (no_queue q (sym (ap (λ (k : Task). k.waitq) (c.tasks j)) ∙ e));
        root = λ u. absurd (not_used (sym (ap (λ (k : Task). k.used) (c.tasks j)) ∙ u));
      };
      at_run = λ k hk. rw (row k) (no_bits-empty 0);
      at_wait = λ q hq. rw (c.waitqs q) (no_bits-empty 0);
    }
  where
    no_queue : (q : ℕ) → none ≢ some q
    no_queue q e = absurd cc

    not_used : false ≢ true
    not_used e = absurd cc

-- The state that `sched_init` leaves has queues that are right.
pub sched_init-IsSound :
    (idle_entry target_cpus queues online : ℕ) (pipes : Pipes)
    → IsSound (sched_init idle_entry target_cpus (zero_memory queues online pipes))
unfolding sched_init sched_waitq_init_locked
sched_init-IsSound idle_entry target_cpus queues online pipes =
    let start = zero_memory queues online pipes in
    let c =
      for_range_inv (λ k t. Cleared queues t) sched_clear_task 0 max_tasks
        (λ k t low high h. clear-Cleared queues k t high h) max_tasks start refl
        (start-Cleared queues online pipes) in
    let s = init_globals target_cpus (for_range max_tasks 0 sched_clear_task start) in
    let rb = λ (c : ℕ). false in
    let wb = λ (q : ℕ). false in
    let b0 = but_reset 0 rb s (wiped-SoundBut queues target_cpus _ c) (omega arith) in
    let s0 = put_waitq 0 (λ m. no_bits) s in
    let f1 = root_fields idle_entry in
    let s1 = put_task 0 f1 s0 in
    let std = sched_fd_table_init_stdio (record { slot = (task_at s1 0).fds; shared = s1.pipes }) in
    let f2 = λ (k : Task). record k { fds = std.slot } in
    let b1 = but_put 0 rb wb s0 f1 b0 in
    let b2 = but_put 0 rb wb s1 f2 b1 in
    let e1 = put_lem 0 f1 s0 (task_at s0 0) b0.shape.tasks_len (omega arith) refl in
    let e2 = put_lem 0 f2 s1 (f1 (task_at s0 0)) b1.shape.tasks_len (omega arith) e1 in
    settle_out 0 (with_fds 0 sched_fd_table_init_stdio s1) (f2 (f1 (task_at s0 0))) b2 e2
      (λ c. refl) (ap (λ (k : Task). k.waitq) (c.tasks 0)) (λ u. (refl, refl))

-- The operations. `cpu` is the processor that calls. A wait queue that is slept on by name is none of
-- the tasks' queues of children, as those are slept on by `sched_waitpid` and `sched_vfork` only. A
-- round of the scheduler starts with the root as the current task, and the task that it picks is not
-- still the current one of any processor: `sched_run` does not test this, and a processor that has
-- not left a task yet may lose the slot to another task. `back` is the end of the round whose task is
-- the current one. `writes` stands for the calls that change nothing the queues tell of, on
-- descriptors, signals, names and kinds.
pub data Step : Sched → Sched → Type 0 where
  spawn :
      (name : List ℕ) (entry : Option ℕ) (arg cpu : ℕ) {s : Sched}
      → Step s (sched_spawn name entry arg cpu s).0
  vforks :
      (machine : UserFrame) (abi_addr cpu : ℕ) {s : Sched}
      → Step s (sched_vfork machine abi_addr cpu s).0
  releases : (cpu : ℕ) {s : Sched} → Step s (sched_vfork_release_parent cpu s)
  ends : (cpu : ℕ) {s : Sched} → Step s (sched_task_bootstrap cpu s)
  yields : (cpu : ℕ) {s : Sched} → Step s (sched_yield cpu s).0
  sleep : (ticks cpu : ℕ) {s : Sched} → Step s (sched_sleep_ticks ticks cpu s)
  wait_on :
      (q timeout_ticks cpu : ℕ) {s : Sched}
      → max_tasks ≤ q
      → q < length s.waitqs
      → Step s (sched_waitq_sleep_locked (some q) timeout_ticks cpu s)
  wake_one : (q : Option ℕ) {s : Sched} → Step s (sched_waitq_wake_one q s)
  wake_all : (q : Option ℕ) {s : Sched} → Step s (sched_waitq_wake_all q s)
  exits : (code cpu : ℕ) {s : Sched} → Step s (sched_exit_code code cpu s)
  killed :
      (i sig : ℕ) {s : Sched} → i < max_tasks → Step s (sched_signal_terminate_slot_locked i sig s)
  sends : (pid : ℤ) (sig cpu : ℕ) {s : Sched} → Step s (sched_signal_kill pid sig cpu s).0
  wait_child : (pid : ℤ) (options cpu : ℕ) {s : Sched} → Step s (sched_waitpid pid options cpu s).0
  tick : (cpu : ℕ) {s : Sched} → Step s (schedule_tick cpu s)
  pick :
      (cpu : ℕ) {s : Sched}
      → current_at s cpu ≡ 0
      → ((c next : ℕ) → (sched_run_pick cpu s).1 ≡ some next → current_at s c ≢ next)
      → Step s (sched_run_pick cpu s).0
  back :
      (cpu next : ℕ) {s : Sched}
      → 0 < next
      → next < max_tasks
      → current_at s cpu ≡ next
      → Step s (sched_run_return cpu next s)
  writes :
      (i : ℕ) (f : Task → Task) (pipes : Pipes) {s : Sched}
      → i < max_tasks
      → IsQuiet f
      → Step s (record (put_task i f s) { pipes = pipes })

-- Any number of steps, the last one first.
pub data Steps : Sched → Sched → Type 0 where
  start : {s : Sched} → Steps s s
  step : {s t u : Sched} → Steps s t → Step t u → Steps s u

-- What holds between two steps.
record Holds (s : Sched) : Type 0 where
  sound : IsSound s
  homes : AllHome s

-- A step that makes no task run.
kept :
    (s t : Sched)
    → (IsSound s → IsSound t)
    → (IsSound s → Keeps s s → Keeps s t)
    → Holds s
    → Holds t
kept s t sound keeps h = record {
  sound = sound h.sound;
  homes = Keeps-AllHome s t (keeps h.sound (Keeps-refl s)) h.homes;
}

quiet-Keeps :
    (o : Sched) (i : ℕ) (f : Task → Task) (s : Sched)
    → IsQuiet f
    → Keeps o s
    → Keeps o (put_task i f s)
quiet-Keeps o i f s quiet v =
    let (used, state, home, _, _, _) = quiet (task_at s i) in
    put-Keeps o i f s (λ x. (sym state ∙ x, used, home)) v

Step-Holds : {s t : Sched} → Step s t → Holds s → Holds t
Step-Holds {s = s} (spawn name entry arg cpu) h =
    kept s (sched_spawn name entry arg cpu s).0 (sched_spawn-IsSound name entry arg cpu s)
      (λ v. spawn-Keeps s name entry arg cpu s v) h
Step-Holds {s = s} (vforks frame abi_addr cpu) h =
    kept s (sched_vfork frame abi_addr cpu s).0 (sched_vfork-IsSound frame abi_addr cpu s)
      (λ v. vfork-Keeps s frame abi_addr cpu s) h
Step-Holds {s = s} (releases cpu) h =
    kept s (sched_vfork_release_parent cpu s) (sched_vfork_release_parent-IsSound cpu s)
      (λ v. release-Keeps s cpu s) h
Step-Holds {s = s} (ends cpu) h =
    kept s (sched_task_bootstrap cpu s) (sched_task_bootstrap-IsSound cpu s)
      (λ v. bootstrap-Keeps s cpu s) h
Step-Holds {s = s} (yields cpu) h =
    kept s (sched_yield cpu s).0 (sched_yield-IsSound cpu s) (λ v. yield-Keeps s cpu s) h
Step-Holds {s = s} (sleep ticks cpu) h =
    kept s (sched_sleep_ticks ticks cpu s) (sched_sleep_ticks-IsSound ticks cpu s)
      (λ v. sleep-Keeps s ticks cpu s) h
Step-Holds {s = s} (wait_on q timeout_ticks cpu behind inside) h =
    kept s (sched_waitq_sleep_locked (some q) timeout_ticks cpu s)
      (λ v.
        sched_waitq_sleep_locked-IsSound q timeout_ticks cpu s v inside
          (λ h. absurd (omega (arith, h))))
      (λ v. waitq_sleep-Keeps s (some q) timeout_ticks cpu s) h
Step-Holds {s = s} (wake_one q) h =
    kept s (sched_waitq_wake_one q s) (sched_waitq_wake_one-IsSound q s) (λ v. wake_one-Keeps s q s)
      h
Step-Holds {s = s} (wake_all q) h =
    kept s (sched_waitq_wake_all q s) (sched_waitq_wake_all-IsSound q s) (λ v. wake_all-Keeps s q s)
      h
Step-Holds {s = s} (exits code cpu) h =
    kept s (sched_exit_code code cpu s) (sched_exit_code-IsSound code cpu s)
      (λ v. exit-Keeps s code cpu s) h
Step-Holds {s = s} (killed i sig hi) h =
    kept s (sched_signal_terminate_slot_locked i sig s)
      (λ v. sched_signal_terminate_slot_locked-IsSound i sig s v hi)
      (λ v. terminate-Keeps s i sig s) h
Step-Holds {s = s} (sends pid sig cpu) h =
    kept s (sched_signal_kill pid sig cpu s).0 (sched_signal_kill-IsSound pid sig cpu s)
      (λ v. kill-Keeps s pid sig cpu s) h
Step-Holds {s = s} (wait_child pid options cpu) h =
    kept s (sched_waitpid pid options cpu s).0 (sched_waitpid-IsSound pid options cpu s)
      (λ v. waitpid-Keeps s pid options cpu s) h
Step-Holds {s = s} (tick cpu) h =
    kept s (schedule_tick cpu s) (schedule_tick-IsSound cpu s) (λ v. tick-Keeps s cpu s) h
Step-Holds {s = s} (writes i f pipes hi quiet) h =
    kept s (record (put_task i f s) { pipes = pipes })
      (λ v. touch-IsSound i f s v hi (quiet (task_at s i))) (λ v. quiet-Keeps s i f s quiet) h
Step-Holds {s = s} (pick cpu idle left) h = record {
  sound = (sched_run_pick-RunsLowest cpu s h.sound idle).0;
  homes = sched_run_pick-AllHome cpu s h.sound h.homes idle left;
}
Step-Holds {s = s} (back cpu next low hi runs) h = record {
  sound = sched_run_return-IsSound cpu next s h.sound hi (h.homes.home cpu next runs low);
  homes = sched_run_return-AllHome cpu next s h.homes;
}

Steps-Holds : {s t : Sched} → Steps s t → Holds s → Holds t
Steps-Holds start h = h
Steps-Holds (step before last) h = Step-Holds last (Steps-Holds before h)

-- No processor runs a task after `sched_init`.
sched_init-AllHome :
    (idle_entry target_cpus queues online : ℕ) (pipes : Pipes)
    → AllHome (sched_init idle_entry target_cpus (zero_memory queues online pipes))
unfolding sched_init sched_waitq_init_locked
sched_init-AllHome idle_entry target_cpus queues online pipes = record {
  home = λ c i e low r. absurd (omega (arith, get_or-replicate {A = ℕ} max_cpus c 0, e, low));
}

-- From `sched_init` on zeroed memory, any sequence of the operations of `Step` leads to a state in
-- which every task of the table stands in the run queue of a processor exactly when it is in use,
-- runnable, not the root and that processor's, and in a wait queue exactly when it names that queue;
-- a task that waits is in use and blocked or asleep, and waits on no other task's children. A step
-- may be taken by any processor; a queue that is slept on by name is none of the tasks' queues; a
-- round of the scheduler starts with the root as current task and picks no task that is still the
-- current one of a processor; and the task that switches back is the current one.
pub reached-IsSound :
    (idle_entry target_cpus queues online : ℕ) (pipes : Pipes) {t : Sched}
    → Steps (sched_init idle_entry target_cpus (zero_memory queues online pipes)) t
    → IsSound t
reached-IsSound idle_entry target_cpus queues online pipes steps =
    (Steps-Holds steps (record {
      sound = sched_init-IsSound idle_entry target_cpus queues online pipes;
      homes = sched_init-AllHome idle_entry target_cpus queues online pipes;
    })).sound
