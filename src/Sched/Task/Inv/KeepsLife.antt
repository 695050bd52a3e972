-- ===== src/Sched/Task/Inv/KeepsLife.antt =====
-- The calls of tasks keep who runs: starting, yielding, sleeping, exiting, being killed, waiting for
-- a child, `vfork` and the tick of the timer.
use octans.Prelude.{
  ℕ, ◌-◌, ◌%◌, refl, ℤ, pos, negsuc, Option, none, some, Bool, true, false, ◌&&◌, ◌||◌, not, leb,
  ltb, ◌==◌, if◌then◌else◌, arith, inl, inr, add32, bits_test, Option-cases,
}
use octans.Sched.Fd.Table.{sched_slot_close_all_fds}
use octans.Sched.Task.State.{
  Task, Sched, max_tasks, runnable, running, sleeping, zombie, task_at, put_task, current_at,
}
use octans.Sched.Task.Queue.{
  waitq_at, sched_mark_resched_all, sched_runq_add, sched_runq_del, sched_current_slot,
  sched_detach_waitq, sched_wake_slot, sched_waitq_sleep_locked, wake_members,
  sched_try_wake_sleepers,
}
use octans.Sched.Task.Slots.{sched_stack_free_locked, to_i32, int_eq}
use octans.Sched.Task.Life.{
  yield_slot, sched_yield, sleep_slot, sched_sleep_ticks, sched_vfork_restore_parent_user_locked,
  make_zombie, parent_of, exit_slot, sched_exit_code, killed_code, sched_signal_wake_parent_locked,
  sched_signal_terminate_slot_locked, reap_from, sched_try_reap_child, wait_slot, sched_waitpid,
}
use octans.Sched.Task.Loop.{
  bootstrap_return, sched_task_bootstrap, tick_counters, spend_quantum, count_tick, schedule_tick,
}
use octans.Sched.Task.Signals.{
  signal_kill, signal_stop, signal_ign, signal_dfl, signal_ok, signal_einval, action_of, has_signal,
  add_signal, sched_signal_is_default_terminate, signal_slot, kill_target, kill_slot,
  sched_signal_kill,
}
use octans.Sched.Task.Attr.{release_slot, sched_vfork_release_parent}
use octans.Sched.Task.Inv.Keeps.{
  Keeps, put-Keeps, if-Keeps, option-Keeps, detach-Keeps, wake_slot-Keeps, sleepers-Keeps,
  wake_members-Keeps, waitq_sleep-Keeps, clear-Keeps, free-Keeps,
}

module _ (o : Sched) where
  yield_slot-Keeps : (cpu i : ℕ) (s : Sched) → Keeps o s → Keeps o (yield_slot cpu i s)
  unfolding yield_slot sched_runq_add
  yield_slot-Keeps cpu i s v =
      let f = λ (k : Task). record k { state = runnable; run_cpu = cpu } in
      let ready = sched_runq_add cpu i (put_task i f s) in
      let test = (task_at s i).state == running in
      put-Keeps o i (λ k. record k { quantum_used = 0 }) (if test then ready else s)
        (λ x. (x, refl, refl))
        (if-Keeps o test ready s (put-Keeps o i f s (λ x. absurd (omega (arith, x))) v) v)

  pub yield-Keeps : (cpu : ℕ) (s : Sched) → Keeps o s → Keeps o (sched_yield cpu s).0
  unfolding sched_yield
  yield-Keeps cpu s v = elim (Option-cases (sched_current_slot cpu s)) [
    | inl e ↦ rw (e, sched_yield) v
    | inr (i, e) ↦ rw (e, sched_yield) (yield_slot-Keeps cpu i s v)
  ]

  pub bootstrap-Keeps : (cpu : ℕ) (s : Sched) → Keeps o s → Keeps o (sched_task_bootstrap cpu s)
  unfolding sched_task_bootstrap bootstrap_return sched_runq_add
  bootstrap-Keeps cpu s v =
      option-Keeps o (sched_current_slot cpu s) s (λ i. bootstrap_return cpu i s) v
        (λ i.
          let f = λ (k : Task). record k { state = runnable; run_cpu = cpu } in
          let g = λ (k : Task). record k { quantum_used = 0 } in
          let ready = sched_runq_add cpu i (put_task i f s) in
          if-Keeps o ((task_at s i).state == running) (sched_mark_resched_all (put_task i g ready))
            s
            (put-Keeps o i g ready (λ x. (x, refl, refl))
              (put-Keeps o i f s (λ x. absurd (omega (arith, x))) v))
            v)

  pub sleep-Keeps :
      (ticks cpu : ℕ) (s : Sched) → Keeps o s → Keeps o (sched_sleep_ticks ticks cpu s)
  unfolding sched_sleep_ticks sleep_slot sched_runq_del
  sleep-Keeps ticks cpu s v =
      option-Keeps o (sched_current_slot cpu s) s (λ i. sleep_slot ticks i s) v
        (λ i.
          let wake = add32 s.ticks (if ticks == 0 then 1 else ticks) in
          let f = λ (k : Task). record k { wake_tick = wake; state = sleeping; quantum_used = 0 } in
          if-Keeps o (task_at s i).is_idle s
            (sched_mark_resched_all (sched_runq_del (task_at s i).run_cpu i (put_task i f s))) v
            (put-Keeps o i f s (λ x. absurd (omega (arith, x))) v))

  make_zombie-Keeps : (i code : ℕ) (s : Sched) → Keeps o s → Keeps o (make_zombie i code s)
  unfolding make_zombie sched_vfork_restore_parent_user_locked sched_runq_del
  make_zombie-Keeps i code s v =
      let t = sched_vfork_restore_parent_user_locked i (sched_detach_waitq i s) in
      let f = λ (k : Task). record k { vfork_child_active = false } in
      let t1 = put_task i f t in
      let closed =
        sched_slot_close_all_fds (record { slot = (task_at t1 i).fds; shared = t1.pipes }) in
      let t2 = record t1 { pipes = closed.shared } in
      let g = λ (k : Task). record k { fds = closed.slot } in
      let h = λ (k : Task). record k {
        exit_code = code;
        state = zombie;
        wake_tick = 0;
        quantum_used = 0;
      } in
      put-Keeps o i h (put_task i g t2) (λ x. absurd (omega (arith, x)))
        (put-Keeps o i g t2 (λ x. (x, refl, refl))
          (put-Keeps o i f t (λ x. (x, refl, refl)) (detach-Keeps o i s v)))

  pub exit-Keeps : (code cpu : ℕ) (s : Sched) → Keeps o s → Keeps o (sched_exit_code code cpu s)
  unfolding sched_exit_code exit_slot
  exit-Keeps code cpu s v =
      option-Keeps o (sched_current_slot cpu s) s (λ i. exit_slot code i s) v
        (λ i.
          let dead = make_zombie i code s in
          let w = make_zombie-Keeps i code s v in
          let woken = λ (p : ℕ).
            if (task_at dead p).vfork_resume_valid then sched_wake_slot p dead else dead in
          let told : Sched = elim (parent_of i dead) [
            | none ↦ dead
            | some p ↦ wake_members p (woken p)
          ] in
          if-Keeps o (task_at s i).is_idle s (sched_mark_resched_all told) v (
            option-Keeps o (parent_of i dead) dead (λ p. wake_members p (woken p)) w
              (λ p. wake_members-Keeps o p (woken p) (
                if-Keeps o (task_at dead p).vfork_resume_valid (sched_wake_slot p dead) dead
                  (wake_slot-Keeps o p dead w) w))))

  pub terminate-Keeps :
      (i sig : ℕ) (s : Sched) → Keeps o s → Keeps o (sched_signal_terminate_slot_locked i sig s)
  unfolding sched_signal_terminate_slot_locked sched_signal_wake_parent_locked
  terminate-Keeps i sig s v =
      let f = λ (k : Task). record k { sig_pending = 0 } in
      let zombie_ = make_zombie i (killed_code sig) s in
      let w =
        put-Keeps o i f zombie_ (λ x. (x, refl, refl))
          (make_zombie-Keeps i (killed_code sig) s v) in
      let dead = put_task i f zombie_ in
      let k = task_at s i in
      if-Keeps o (not k.used || k.is_idle || k.state == zombie) s
        (sched_mark_resched_all (sched_signal_wake_parent_locked i dead)) v
        (option-Keeps o (parent_of i dead) dead (λ p. wake_members p dead) w
          (λ p. wake_members-Keeps o p dead w))

  kill_slot-Keeps : (i sig cpu : ℕ) (s : Sched) → Keeps o s → Keeps o (kill_slot i sig cpu s)
  unfolding kill_slot
  kill_slot-Keeps i sig cpu s v =
      let f = λ (k : Task). record k { sig_pending = add_signal k.sig_pending sig } in
      let sent = put_task i f s in
      let w = put-Keeps o i f s (λ x. (x, refl, refl)) v in
      let t = task_at s i in
      let is_self : Bool = elim (sched_current_slot cpu s) [
        | none ↦ false
        | some self ↦ self == i
      ] in
      let certain = sig == signal_kill || sig == signal_stop in
      let dies = (action_of t sig).handler == signal_dfl && sched_signal_is_default_terminate sig in
      let masked = has_signal t.sig_mask sig && not certain in
      let by_exit = sched_exit_code (killed_code sig) cpu sent in
      let by_kill = sched_signal_terminate_slot_locked i sig sent in
      let a = if is_self then by_exit else by_kill in
      let b = if dies then a else sent in
      let c = if masked then sent else b in
      let wa =
        if-Keeps o is_self by_exit by_kill (exit-Keeps (killed_code sig) cpu sent w)
          (terminate-Keeps i sig sent w) in
      if-Keeps o (not certain && (action_of t sig).handler == signal_ign) s c v
        (if-Keeps o masked sent b w (if-Keeps o dies a sent wa w))

  reply-Keeps :
      (test : Bool) (x y : Sched × ℤ)
      → Keeps o x.0
      → Keeps o y.0
      → Keeps o (if test then x else y).0
  reply-Keeps true x y a b = a
  reply-Keeps false x y a b = b

  pub kill-Keeps :
      (pid : ℤ) (sig cpu : ℕ) (s : Sched) → Keeps o s → Keeps o (sched_signal_kill pid sig cpu s).0
  unfolding sched_signal_kill
  kill-Keeps (negsuc n) sig cpu s v = v
  kill-Keeps (pos pid) sig cpu s v =
      reply-Keeps _ (s, signal_einval) _ v
        (reply-Keeps (pid == 0) (s, signal_einval) _ v
          (elim (Option-cases (kill_target pid s)) [
            | inl e ↦ rw e v
            | inr (i, e) ↦
                rw e (reply-Keeps (sig == 0) (s, signal_ok) _ v (kill_slot-Keeps i sig cpu s v))
          ]))

  reap-Keeps :
      (parent_tid pid : ℤ) (s : Sched)
      → Keeps o s
      → Keeps o (sched_try_reap_child parent_tid pid s).0
  unfolding sched_try_reap_child sched_runq_del
  reap-Keeps parent_tid pid s v =
      elim (Option-cases (reap_from parent_tid pid (max_tasks - 1) 1 false s).0) [
        | inl e ↦ rw (e, sched_try_reap_child) v
        | inr (i, e) ↦
            let d = sched_runq_del (task_at s i).run_cpu i s in
            rw (e, sched_try_reap_child)
              (clear-Keeps o i (sched_stack_free_locked i d) (free-Keeps o i d v))
      ]

  answer-Keeps :
      (test : Bool) (x y : Sched × ℤ × Option ℕ)
      → Keeps o x.0
      → Keeps o y.0
      → Keeps o (if test then x else y).0
  answer-Keeps true x y a b = a
  answer-Keeps false x y a b = b

  pub waitpid-Keeps :
      (pid : ℤ) (options cpu : ℕ) (s : Sched)
      → Keeps o s
      → Keeps o (sched_waitpid pid options cpu s).0
  unfolding sched_waitpid wait_slot
  waitpid-Keeps pid options cpu s v = elim (Option-cases (sched_current_slot cpu s)) [
    | inl e ↦ rw (e, sched_waitpid) v
    | inr (i, e) ↦
        let r = sched_try_reap_child (to_i32 (task_at s i).tid) pid s in
        let w = reap-Keeps (to_i32 (task_at s i).tid) pid s v in
        rw (e, sched_waitpid)
          (answer-Keeps (task_at s i).is_idle (s, negsuc 0, none) _ v
            (answer-Keeps (not (int_eq r.1 (pos 0))) r _ w (
              answer-Keeps (options % 2 == 1) (r.0, pos 0, r.2)
                (sched_waitq_sleep_locked (some i) 0 cpu r.0, negsuc 1, r.2) w
                (waitq_sleep-Keeps o (some i) 0 cpu r.0 w))))
  ]

  pub tick-Keeps : (cpu : ℕ) (s : Sched) → Keeps o s → Keeps o (schedule_tick cpu s)
  unfolding schedule_tick count_tick
  tick-Keeps cpu s v =
      let t = sched_try_wake_sleepers (add32 s.ticks 1) (record s { ticks = add32 s.ticks 1 }) in
      let w : Keeps o t =
        sleepers-Keeps o (add32 s.ticks 1) (record s { ticks = add32 s.ticks 1 }) v in
      let idx = current_at t cpu in
      let used = add32 (task_at t idx).quantum_used 1 in
      let k = task_at t idx in
      let counted = tick_counters k t in
      let run =
        if k.used && not k.is_idle && k.state == running
        then spend_quantum idx counted
        else counted in
      if-Keeps o (leb max_tasks idx) t run w (
        if-Keeps o (k.used && not k.is_idle && k.state == running) (spend_quantum idx counted)
          counted
          (put-Keeps o idx (λ k. record k { quantum_used = used }) t (λ x. (x, refl, refl)) w) w)

  pub release-Keeps : (cpu : ℕ) (s : Sched) → Keeps o s → Keeps o (sched_vfork_release_parent cpu s)
  unfolding sched_vfork_release_parent release_slot sched_vfork_restore_parent_user_locked
  release-Keeps cpu s v =
      option-Keeps o (signal_slot cpu s) s
        (λ i. if not (task_at s i).vfork_child_active then s else release_slot i s) v
        (λ i.
          let f = λ (k : Task). record k { vfork_child_active = false } in
          let t = put_task i f (sched_vfork_restore_parent_user_locked i s) in
          let w : Keeps o t = put-Keeps o i f s (λ x. (x, refl, refl)) v in
          if-Keeps o (not (task_at s i).vfork_child_active) s (release_slot i s) v (
            option-Keeps o (parent_of i t) t
              (λ p.
                if ltb p max_tasks && bits_test (waitq_at t p) p then sched_wake_slot p t else t)
              w
              (λ p.
                if-Keeps o (ltb p max_tasks && bits_test (waitq_at t p) p) (sched_wake_slot p t) t
                  (wake_slot-Keeps o p t w) w)))
