-- ===== src/Sched/Task/Doze.antt =====
-- A task that sleeps for a number of ticks, from `sched_sleep_ticks` to the tick that wakes it.
use octans.Prelude.{
  ℕ, ◌<◌, ◌≡◌, ◌≢◌, refl, ◌∙◌, Bool, true, false, ◌&&◌, not, ◌==◌, leb, if◌then◌else◌, arith, inl,
  inr, Bool-cases, length, length-set, for_range_inv, add32,
}
use octans.Sched.Task.State.{Task, Sched, max_tasks, running, task_at, current_at}
use octans.Sched.Task.Queue.{
  sched_detach_waitq, sched_runq_add, make_ready, wake_due, sched_try_wake_sleepers,
}
use octans.Sched.Task.Loop.{tick_counters, spend_quantum, count_tick, schedule_tick}
use octans.Sched.Task.Due.{
  is_due, after_tick, wake_due_lem, Woke-all, sched_try_wake_sleepers_lem, put_task_other,
}

-- The tick's counters leave the task `j` that does not run, the clock and the lengths.
record Counted (j : ℕ) (s t : Sched) : Type 0 where
  pub len : length t.tasks ≡ length s.tasks
  pub clock : t.ticks ≡ s.ticks
  pub online : t.online ≡ s.online
  pub same : task_at t j ≡ task_at s j

Counted-if :
    (test : Bool) (j : ℕ) (s a b : Sched)
    → (test ≡ true → Counted j s a)
    → (test ≡ false → Counted j s b)
    → Counted j s (if test then a else b)
Counted-if true j s a b x y = x refl
Counted-if false j s a b x y = y refl

count_tick-Counted :
    (idx j : ℕ) (s : Sched) → (task_at s j).state ≢ running → Counted j s (count_tick idx s)
unfolding count_tick
count_tick-Counted idx j s rests =
    let t = task_at s idx in
    let counted = tick_counters t s in
    let plain : Counted j s s = record { len = refl; clock = refl; online = refl; same = refl } in
    Counted-if (leb max_tasks idx) j s s _ (λ e. plain)
      (λ e.
        Counted-if (t.used && not t.is_idle && t.state == running) j s (spend_quantum idx counted)
          counted
          (λ e. record {
            len = length-set s.tasks idx _;
            clock = refl;
            online = refl;
            same =
                put_task_other idx j (λ k. record k { quantum_used = add32 t.quantum_used 1 }) s
                  (elim (Bool-cases (idx == j)) [
                    | inr ne ↦ ne
                    | inl same ↦
                        let eq : idx ≡ j = ground arith in absurd (rests (rw (← eq) (runs t e)))
                  ]);
          })
          (λ e. record { len = refl; clock = refl; online = refl; same = refl }))
  where
    runs : (t : Task) → (t.used && not t.is_idle && t.state == running) ≡ true → t.state ≡ running
    runs t e = ground arith

make_ready-ticks : (i : ℕ) (s : Sched) → (make_ready i s).ticks ≡ s.ticks
unfolding make_ready sched_runq_add sched_detach_waitq
make_ready-ticks i s = refl

wake_due-ticks : (now i : ℕ) (s : Sched) → (wake_due now i s).ticks ≡ s.ticks
wake_due-ticks now i s = rw (wake_due_lem now i s) (elim (Bool-cases (is_due now (task_at s i))) [
  | inl e ↦ rw e (make_ready-ticks i s)
  | inr e ↦ rw e refl
])

wake-ticks : (now : ℕ) (s : Sched) → (sched_try_wake_sleepers now s).ticks ≡ s.ticks
unfolding sched_try_wake_sleepers
wake-ticks now s =
    for_range_inv (λ k t. t.ticks ≡ s.ticks) (wake_due now) 0 max_tasks
      (λ k t low high h. wake_due-ticks now k t ∙ h) max_tasks s refl refl

-- What a tick of the timer makes of a task that does not run.
pub record Ticked (cpu j : ℕ) (s : Sched) : Type 0 where
  pub len : length (schedule_tick cpu s).tasks ≡ length s.tasks
  pub clock : (schedule_tick cpu s).ticks ≡ add32 s.ticks 1
  pub online : (schedule_tick cpu s).online ≡ s.online
  pub task : task_at (schedule_tick cpu s) j ≡ after_tick (add32 s.ticks 1) s.online (task_at s j)

after_tick-rests :
    (now online : ℕ) (t : Task) → t.state ≢ running → (after_tick now online t).state ≢ running
after_tick-rests now online t rests = elim (Bool-cases (is_due now t)) [
  | inl e ↦ rw e (λ x. absurd (omega (arith, x)))
  | inr e ↦ rw e rests
]

pub schedule_tick-Ticked :
    (cpu j : ℕ) (s : Sched)
    → length s.tasks ≡ max_tasks
    → j < max_tasks
    → (task_at s j).state ≢ running
    → Ticked cpu j s
unfolding schedule_tick
schedule_tick-Ticked cpu j s len hj rests =
    let now = add32 s.ticks 1 in
    let s1 = record s { ticks = now } in
    let t = sched_try_wake_sleepers now s1 in
    let w = Woke-all now s1 len in
    let woke = sched_try_wake_sleepers_lem now j s1 len hj in
    let c =
      count_tick-Counted (current_at t cpu) j t
        (rw woke (after_tick-rests now s.online (task_at s j) rests)) in
    record {
      len = c.len ∙ w.len;
      clock = c.clock ∙ wake-ticks now s1;
      online = c.online ∙ w.online;
      task = c.same ∙ woke;
    }
