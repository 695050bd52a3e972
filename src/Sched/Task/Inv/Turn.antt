-- ===== src/Sched/Task/Inv/Turn.antt =====
-- Yielding, the return to the scheduler and the tick of the timer keep the queues right.
use octans.Prelude.{
  ℕ, ◌<◌, ◌≡◌, refl, ◌∙◌, true, false, ◌&&◌, not, ◌==◌, if◌then◌else◌, arith, inl, inr,
  Option-cases, leb, add32, get_or-set_self,
}
use octans.Sched.Task.State.{
  Task, Sched, max_tasks, runnable, running, task_at, put_task, zero_task, current_at,
}
use octans.Sched.Task.Queue.{
  normalize_of, sched_runq_add, sched_current_slot, sched_try_wake_sleepers,
}
use octans.Sched.Task.Life.{yield_slot, sched_yield}
use octans.Sched.Task.Loop.{
  bootstrap_return, sched_task_bootstrap, put_current, sched_run_return, tick_counters,
  spend_quantum, count_tick, schedule_tick,
}
use octans.Sched.Task.Inv.Sound.{is_queued, IsKept, IsSound}
use octans.Sched.Task.Inv.Moves.{but_put}
use octans.Sched.Task.Inv.Wake.{settle_ready, touch-IsSound}
use octans.Sched.Task.Inv.Ready.{sched_try_wake_sleepers-IsSound}
use octans.Sched.Task.Inv.Sleep.{current-IsSound, if-IsSound, current_lem}
use octans.Sched.Task.Inv.Run.{awake_lem, but_awake}

-- A running task becomes runnable, on the processor that it then names.
requeue :
    (i cpu : ℕ) (f : Task → Task) (s : Sched)
    → IsSound s
    → i < max_tasks
    → (task_at s i).state ≡ running
    → (let k = task_at s i in
        ((f k).used ≡ true) × ((f k).state ≡ runnable) × ((f k).waitq ≡ k.waitq) × IsKept i (f k))
    → normalize_of s.online (f (task_at s i)).run_cpu ≡ normalize_of s.online cpu
    → IsSound (sched_runq_add cpu i (put_task i f s))
requeue i cpu f s v hi runs (used, ready, out, kept) home =
    let k = task_at s i in
    let dry =
      awake_lem i s v hi (λ x. absurd (omega (arith, x, runs)))
        (λ x. absurd (omega (arith, x, runs))) in
    let rb = λ (c : ℕ). is_queued s.online c i k in
    settle_ready i cpu rb (put_task i f s) (f k)
      (but_put i rb (λ q. false) s f (but_awake i s v hi dry))
      (get_or-set_self s.tasks i (f k) zero_task (omega (arith, v.shape.tasks_len))) hi
      (used, ready, out ∙ dry, kept) home (λ c e. absurd (ground (arith, e, runs)))

yield_slot-IsSound :
    (cpu i : ℕ) (s : Sched)
    → IsSound s
    → i < max_tasks
    → (task_at s i).used ≡ true
    → IsSound (yield_slot cpu i s)
unfolding yield_slot
yield_slot-IsSound cpu i s v hi used =
    let f = λ (k : Task). record k { state = runnable; run_cpu = cpu } in
    let t = if (task_at s i).state == running then sched_runq_add cpu i (put_task i f s) else s in
    let w : IsSound t =
      if-IsSound ((task_at s i).state == running) _ s
        (λ e.
          requeue i cpu f s v hi (ground arith) (used, refl, refl, (v.agree i hi).root used) refl)
        (λ e. v) in
    touch-IsSound i (λ k. record k { quantum_used = 0 }) t w hi (refl, refl, refl, refl, refl, refl)

pub sched_yield-IsSound : (cpu : ℕ) (s : Sched) → IsSound s → IsSound (sched_yield cpu s).0
unfolding sched_yield
sched_yield-IsSound cpu s v = elim (Option-cases (sched_current_slot cpu s)) [
  | inl e ↦ rw (e, sched_yield) v
  | inr (i, e) ↦
      let (hi, used, _) = current_lem cpu i s e in
      rw (e, sched_yield) (yield_slot-IsSound cpu i s v hi used)
]

bootstrap_return-IsSound :
    (cpu i : ℕ) (s : Sched)
    → IsSound s
    → i < max_tasks
    → (task_at s i).used ≡ true
    → IsSound (bootstrap_return cpu i s)
unfolding bootstrap_return
bootstrap_return-IsSound cpu i s v hi used =
    let f = λ (k : Task). record k { state = runnable; run_cpu = cpu } in
    let t = sched_runq_add cpu i (put_task i f s) in
    if-IsSound ((task_at s i).state == running) _ s
      (λ e.
        touch-IsSound i (λ k. record k { quantum_used = 0 }) t
          (requeue i cpu f s v hi (ground arith) (used, refl, refl, (v.agree i hi).root used) refl)
          hi (refl, refl, refl, refl, refl, refl))
      (λ e. v)

pub sched_task_bootstrap-IsSound :
    (cpu : ℕ) (s : Sched) → IsSound s → IsSound (sched_task_bootstrap cpu s)
unfolding sched_task_bootstrap
sched_task_bootstrap-IsSound cpu s v =
    current-IsSound cpu (bootstrap_return cpu) s v
      (λ i hi used. bootstrap_return-IsSound cpu i s v hi used)

-- A task that comes back while it is marked as running is in use and names the processor.
pub sched_run_return-IsSound :
    (cpu next : ℕ) (s : Sched)
    → IsSound s
    → next < max_tasks
    → ((task_at s next).state ≡ running
        → ((task_at s next).used ≡ true)
          × (normalize_of s.online (task_at s next).run_cpu ≡ normalize_of s.online cpu))
    → IsSound (sched_run_return cpu next s)
unfolding sched_run_return
sched_run_return-IsSound cpu next s v hi back =
    let t = put_current cpu 0 s in
    let f = λ (k : Task). record k { state = runnable } in
    if-IsSound ((task_at s next).state == running) _ t
      (λ e.
        let runs : (task_at s next).state ≡ running = ground arith in
        let (used, home) = back runs in
        requeue next cpu f t v hi runs (used, refl, refl, (v.agree next hi).root used) home)
      (λ e. v)

pub count_tick-IsSound : (idx : ℕ) (s : Sched) → IsSound s → IsSound (count_tick idx s)
unfolding count_tick
count_tick-IsSound idx s v =
    let t = task_at s idx in
    let counted = tick_counters t s in
    if-IsSound (leb max_tasks idx) s _ (λ e. v)
      (λ e.
        let hi : idx < max_tasks = ground arith in
        let f = λ (k : Task). record k { quantum_used = add32 t.quantum_used 1 } in
        if-IsSound (t.used && not t.is_idle && t.state == running) (spend_quantum idx counted)
          counted (λ e. touch-IsSound idx f s v hi (refl, refl, refl, refl, refl, refl)) (λ e. v))

pub schedule_tick-IsSound : (cpu : ℕ) (s : Sched) → IsSound s → IsSound (schedule_tick cpu s)
unfolding schedule_tick
schedule_tick-IsSound cpu s v =
    let t = sched_try_wake_sleepers (add32 s.ticks 1) (record s { ticks = add32 s.ticks 1 }) in
    count_tick-IsSound (current_at t cpu) t
      (sched_try_wake_sleepers-IsSound (add32 s.ticks 1) (record s { ticks = add32 s.ticks 1 }) v)
