-- ===== src/Sched/Task/Tests.antt =====
-- The theorems about the scheduler at concrete states.
use octans.Prelude.{
  take, ◌-◌, ◌&&◌, not, ℕ, none, false, ◌+◌, ◌==◌, ◌^◌, length, ◌≡◌, ◌≢◌, ◌∙◌, sym,
  get_or-replicate, refl, arith, pos, negsuc, [], ◌∷◌, some, true, bits_test,
}
use octans.Sched.Fd.State.{Pipes}
use octans.Sched.Fd.Table.{clone_ref}
use octans.Sched.Task.State.{
  Sched, zombie, blocked, no_stack, runnable, sleeping, task_at, current_at,
}
use octans.Sched.Task.Queue.{
  normalize_of, runq_at, sched_runq_pick_local, sched_try_wake_sleepers, sched_current_slot,
}
use octans.Sched.Task.Life.{sched_spawn, sched_sleep_ticks, sched_exit_code}
use octans.Sched.Task.Loop.{sched_run_pick, sched_run_return}
use octans.Sched.Task.Vfork.{UserFrame, sched_vfork}
use octans.Sched.Task.Boot.{zero_memory, sched_init}
use octans.Sched.Task.Signals.{
  signal_slot, has_signal, sched_signal_mask, choose_signal, kill_target, sched_signal_kill,
  signal_kill, signal_dfl, signal_ok, action_of,
}
use octans.Sched.Task.Mask.{is_certain, masks, sched_signal_mask_lem}
use octans.Sched.Task.Attr.{sched_current_setcwd, sched_current_getcwd, getcwd-setcwd}
use octans.Sched.Task.Deliver.{IsChoice, choose_signal-IsChoice}
use octans.Sched.Task.Killed.{closed_fds, sched_signal_kill-ended}
use octans.Sched.Task.Stats.{Counts, sched_stats_snapshot, sched_stats_snapshot-Counts}
use octans.Sched.Task.Pick.{IsNextOf, sched_runq_pick_local_lem}
use octans.Sched.Task.Reap.{ReapsFirst, sched_try_reap_child_lem}
use octans.Sched.Task.Due.{after_tick, sched_try_wake_sleepers_lem}
use octans.Sched.Task.Sleeper.{pass, sched_sleep_ticks-pass}
use octans.Sched.Task.Inv.Sound.{IsSound}
use octans.Sched.Task.Inv.Run.{RunsLowest, sched_run_pick-RunsLowest}
use octans.Sched.Task.Inv.Steps.{
  Steps, start, step, spawn, vforks, back, sleep, pick, exits, reached-IsSound,
}

abbrev no_pipes : Pipes
no_pipes = record { inited = false; pipes = [] }

-- One processor, right after `sched_init`, with one wait queue besides the tasks'.
abbrev booted : Sched
booted = sched_init 100 1 (zero_memory 1 1 no_pipes)

-- Two tasks are started.
abbrev one_task : Sched
one_task = (sched_spawn (b'a' ∷ []) (some 200) 0 0 booted).0

abbrev two_tasks : Sched
two_tasks = (sched_spawn (b'b' ∷ []) (some 300) 0 0 one_task).0

-- The first of them runs.
abbrev first_runs : Sched
first_runs = (sched_run_pick 0 two_tasks).0

two_idle : current_at two_tasks 0 ≡ 0
unfolding sched_spawn sched_init
two_idle = refl

two_root : (c : ℕ) → current_at two_tasks c ≡ 0
unfolding sched_spawn sched_init
two_root c = get_or-replicate {A = ℕ} 32 c 0

two_picks : (sched_run_pick 0 two_tasks).1 ≡ some 1
unfolding sched_run_pick sched_spawn sched_init
two_picks = refl

one_next : (next : ℕ) → some 1 ≡ some next → next ≢ 0
one_next next e f = absurd (ground (arith, e, f))

two_left : (c next : ℕ) → (sched_run_pick 0 two_tasks).1 ≡ some next → current_at two_tasks c ≢ next
two_left c next e f = one_next next (sym two_picks ∙ e) (sym f ∙ two_root c)

two_started : Steps booted two_tasks
two_started = step (step start (spawn _ _ 0 0)) (spawn _ _ 0 0)

-- The first task forks.
abbrev frame : UserFrame
frame = record {
  live = no_stack;
  csp = 2000;
  dsp = 2048;
  call_base = 4096;
  data_base = 8192;
  child_entry = 400;
}

abbrev forked : Sched
forked = (sched_vfork frame 0 0 first_runs).0

parent_waits : (task_at forked 1).state ≡ blocked
unfolding sched_vfork sched_run_pick sched_spawn sched_init clone_ref
parent_waits = refl

child_queued : ((task_at forked 3).state ≡ runnable) × (bits_test (runq_at forked 0) 3 ≡ true)
unfolding sched_vfork sched_run_pick sched_spawn sched_init clone_ref
child_queued = (refl, refl)

forked_here : current_at forked 0 ≡ 1
unfolding sched_vfork sched_run_pick sched_spawn sched_init clone_ref
forked_here = refl

-- It waits, and the processor comes back to the scheduler.
reached-IsSound_example : IsSound (sched_run_return 0 1 forked)
reached-IsSound_example = reached-IsSound 100 1 1 1 no_pipes (
    step (step (step two_started (pick 0 two_idle two_left)) (vforks frame 0 0))
      (back 0 1 (omega arith) (omega arith) forked_here))

two-IsSound : IsSound two_tasks
two-IsSound = reached-IsSound 100 1 1 1 no_pipes two_started

sched_run_pick-RunsLowest_example : RunsLowest 0 two_tasks
sched_run_pick-RunsLowest_example = sched_run_pick-RunsLowest 0 two_tasks two-IsSound two_idle

first_is_one : sched_current_slot 0 first_runs ≡ some 1
unfolding sched_current_slot sched_run_pick sched_spawn sched_init
first_is_one = refl

first_no_root : (task_at first_runs 1).is_idle ≡ false
unfolding sched_run_pick sched_spawn sched_init
first_no_root = refl

first_clock : first_runs.ticks ≡ 0
unfolding sched_run_pick sched_spawn sched_init
first_clock = refl

sched_sleep_ticks-pass_example :
    ((task_at (pass 0 2 (sched_sleep_ticks 3 0 first_runs)) 1).state ≡ sleeping)
    × ((task_at (pass 0 3 (sched_sleep_ticks 3 0 first_runs)) 1).state ≡ runnable)
    × (bits_test
          (runq_at
            (pass 0 3 (sched_sleep_ticks 3 0 first_runs))
            (normalize_of first_runs.online (task_at first_runs 1).run_cpu))
          1
        ≡ true)
sched_sleep_ticks-pass_example =
    sched_sleep_ticks-pass 3 0 1 2 first_runs
      (reached-IsSound 100 1 1 1 no_pipes (step two_started (pick 0 two_idle two_left)))
      first_is_one first_no_root (omega arith) (omega (arith, first_clock)) (omega arith)

sched_runq_pick_local_lem_example :
    IsNextOf
      (runq_at two_tasks (normalize_of two_tasks.online 0))
      1
      (sched_runq_pick_local 0 1 two_tasks)
sched_runq_pick_local_lem_example = sched_runq_pick_local_lem 0 1 two_tasks (omega arith)

sched_try_wake_sleepers_lem_example :
    task_at (sched_try_wake_sleepers 5 (sched_sleep_ticks 3 0 first_runs)) 1
    ≡ after_tick 5
        (sched_sleep_ticks 3 0 first_runs).online
        (task_at (sched_sleep_ticks 3 0 first_runs) 1)
sched_try_wake_sleepers_lem_example =
    sched_try_wake_sleepers_lem 5 1 (sched_sleep_ticks 3 0 first_runs)
      (reached-IsSound 100 1 1 1 no_pipes
        (step (step two_started (pick 0 two_idle two_left)) (sleep 3 0))).shape.tasks_len
      (omega arith)

-- The first task has ended, and the root is its parent.
abbrev first_ended_state : Sched
first_ended_state = sched_exit_code 7 0 first_runs

sched_try_reap_child_lem_example : ReapsFirst (pos 0) (negsuc 0) first_ended_state
sched_try_reap_child_lem_example =
    sched_try_reap_child_lem (pos 0) (negsuc 0) first_ended_state
      (reached-IsSound 100 1 1 1 no_pipes
        (step (step two_started (pick 0 two_idle two_left)) (exits 7 0))).shape.tasks_len

-- The signals 17, which is ignored by default, and 20.
abbrev two_signals : ℕ
two_signals = 2 ^ 16 + 2 ^ 19

choose_signal-IsChoice_example : IsChoice [] 0 two_signals (choose_signal 32 [] 0 two_signals).1
choose_signal-IsChoice_example = choose_signal-IsChoice [] 0 two_signals

second_found : kill_target 2 first_runs ≡ some 2
unfolding kill_target sched_run_pick sched_spawn sched_init
second_found = refl

second_other :
    elim (sched_current_slot 0 first_runs) [ none ↦ false | some self ↦ self == 2 ] ≡ false
unfolding sched_current_slot sched_run_pick sched_spawn sched_init
second_other = refl

second_default : (action_of (task_at first_runs 2) signal_kill).handler ≡ signal_dfl
unfolding sched_run_pick sched_spawn sched_init
second_default = refl

first_runs_len : length first_runs.tasks ≡ 64
first_runs_len = (sched_run_pick-RunsLowest 0 two_tasks two-IsSound two_idle).0.shape.tasks_len

sched_signal_kill-ended_example :
    ((sched_signal_kill (pos 2) signal_kill 0 first_runs).1 ≡ signal_ok)
    × ((task_at (sched_signal_kill (pos 2) signal_kill 0 first_runs).0 2).state ≡ zombie)
    × ((task_at (sched_signal_kill (pos 2) signal_kill 0 first_runs).0 2).exit_code ≡ 137)
    × ((task_at (sched_signal_kill (pos 2) signal_kill 0 first_runs).0 2).fds
        ≡ closed_fds 2 first_runs)
sched_signal_kill-ended_example =
    sched_signal_kill-ended 2 2 0 first_runs first_runs_len (omega arith) second_found second_other
      second_default

sched_stats_snapshot-Counts_example : Counts first_runs 64 (sched_stats_snapshot first_runs)
sched_stats_snapshot-Counts_example = sched_stats_snapshot-Counts first_runs

first_signals : signal_slot 0 first_runs ≡ some 1
unfolding signal_slot sched_current_slot sched_run_pick sched_spawn sched_init
first_signals = refl

-- The first task asks for all signals to be masked.
sched_signal_mask_lem_example :
    ((sched_signal_mask 2 (2 ^ 32 - 1) 0 first_runs).1 ≡ signal_ok)
    × (has_signal (task_at (sched_signal_mask 2 (2 ^ 32 - 1) 0 first_runs).0 1).sig_mask 15 ≡ (
        not (is_certain 15)
        && masks 2 (has_signal (task_at first_runs 1).sig_mask 15) (has_signal (2 ^ 32 - 1) 15)))
sched_signal_mask_lem_example =
    sched_signal_mask_lem 2 (2 ^ 32 - 1) 15 0 1 first_runs first_runs_len (omega arith)
      first_signals (omega arith) (omega arith) (omega arith)

getcwd-setcwd_example :
    ((sched_current_setcwd (b'/' ∷ b'a' ∷ []) 0 first_runs).1 ≡ true)
    × (sched_current_getcwd 64 0 (sched_current_setcwd (b'/' ∷ b'a' ∷ []) 0 first_runs).0
        ≡ some (take 63 (b'/' ∷ b'a' ∷ [])))
getcwd-setcwd_example =
    getcwd-setcwd (b'/' ∷ b'a' ∷ []) 64 0 1 first_runs first_runs_len first_is_one refl
      (omega arith)
