-- ===== src/Sched/Task/Sleeper.antt =====
-- From `sched_sleep_ticks` to the tick that wakes the task, whoever runs in between.
use octans.Prelude.{
  ℕ, zero, suc, ◌+◌, ◌^◌, ◌<◌, ◌≡◌, ◌≢◌, refl, sym, ap, ◌∙◌, some, Bool, true, false, subst, ◌==◌,
  if◌then◌else◌, arith, length, length-set, add32, bits_test,
}
use octans.Sched.Task.State.{Task, Sched, max_tasks, runnable, running, sleeping, task_at}
use octans.Sched.Task.Queue.{normalize_of, runq_at, sched_runq_del, sched_current_slot}
use octans.Sched.Task.Life.{sleep_slot, sched_sleep_ticks}
use octans.Sched.Task.Loop.{schedule_tick}
use octans.Sched.Task.Due.{is_due, woken, put_task_same}
use octans.Sched.Task.Doze.{schedule_tick-Ticked}
use octans.Sched.Task.Inv.Sound.{is_queued, IsSound, normalize_bound, normalize_twice}
use octans.Sched.Task.Inv.Sleep.{current_lem, sched_sleep_ticks-IsSound}
use octans.Sched.Task.Inv.Turn.{schedule_tick-IsSound}

-- `n` ticks of the timer, taken by the processor `cpu`.
unfoldable pub pass : ℕ → ℕ → Sched → Sched
pass cpu zero s = s
pass cpu (suc n) s = schedule_tick cpu (pass cpu n s)

pub pass-IsSound : (cpu n : ℕ) (s : Sched) → IsSound s → IsSound (pass cpu n s)
unfolding pass
pass-IsSound cpu zero s v = v
pass-IsSound cpu (suc n) s v = schedule_tick-IsSound cpu (pass cpu n s) (pass-IsSound cpu n s v)

-- The clock has gone on by `n` ticks, and the task is what it was.
record Passed (cpu i n : ℕ) (s : Sched) : Type 0 where
  pub len : length (pass cpu n s).tasks ≡ length s.tasks
  pub clock : (pass cpu n s).ticks ≡ s.ticks + n
  pub online : (pass cpu n s).online ≡ s.online
  pub same : task_at (pass cpu n s) i ≡ task_at s i

too_early : (now : ℕ) (t : Task) → now < t.wake_tick → is_due now t ≡ false
too_early now t h = ground arith

in_time :
    (now : ℕ) (t : Task)
    → t.used ≡ true
    → t.state ≡ sleeping
    → now ≡ t.wake_tick
    → 0 < now
    → is_due now t ≡ true
in_time now t used sleeps e h = ground arith

module _ (cpu i : ℕ) (s : Sched) where
  -- While the time has not come the task sleeps on.
  sleeps_on :
      (n : ℕ)
      → length s.tasks ≡ max_tasks
      → i < max_tasks
      → (task_at s i).state ≡ sleeping
      → s.ticks + n < 2 ^ 32
      → s.ticks + n < (task_at s i).wake_tick
      → Passed cpu i n s
  unfolding pass
  sleeps_on zero len hi asleep low early = record {
    len = refl;
    clock = omega arith;
    online = refl;
    same = refl;
  }
  sleeps_on (suc n) len hi asleep low early =
      let p = sleeps_on n len hi asleep (omega arith) (omega arith) in
      let t = pass cpu n s in
      let rests : (task_at t i).state ≢ running =
        rw (p.same) (λ x. absurd (omega (arith, x, asleep))) in
      let k = schedule_tick-Ticked cpu i t (p.len ∙ len) hi rests in
      let now : add32 t.ticks 1 ≡ s.ticks + suc n = omega (arith, p.clock) in
      record {
        len = k.len ∙ p.len;
        clock = k.clock ∙ now;
        online = k.online ∙ p.online;
        same = k.task ∙ rw (now, p.same, too_early (s.ticks + suc n) (task_at s i) early) refl;
      }

  -- The tick at which it comes wakes it.
  wakes_up :
      (n : ℕ)
      → length s.tasks ≡ max_tasks
      → i < max_tasks
      → (task_at s i).used ≡ true
      → (task_at s i).state ≡ sleeping
      → s.ticks + suc n < 2 ^ 32
      → s.ticks + suc n ≡ (task_at s i).wake_tick
      → (task_at (pass cpu (suc n) s) i ≡ woken s.online (task_at s i))
        × ((pass cpu (suc n) s).online ≡ s.online)
  unfolding pass
  wakes_up n len hi used asleep low due =
      let p = sleeps_on n len hi asleep (omega arith) (omega arith) in
      let t = pass cpu n s in
      let rests : (task_at t i).state ≢ running =
        rw (p.same) (λ x. absurd (omega (arith, x, asleep))) in
      let k = schedule_tick-Ticked cpu i t (p.len ∙ len) hi rests in
      let now : add32 t.ticks 1 ≡ s.ticks + suc n = omega (arith, p.clock) in
      (
        k.task
            ∙ rw
                (
                  now,
                  p.online,
                  p.same,
                  in_time (s.ticks + suc n) (task_at s i) used asleep due (omega arith),
                )
                refl,
        k.online ∙ p.online,
      )

-- What `sched_sleep_ticks` leaves.
record Dozes (ticks i : ℕ) (s t : Sched) : Type 0 where
  pub len : length t.tasks ≡ length s.tasks
  pub clock : t.ticks ≡ s.ticks
  pub online : t.online ≡ s.online
  pub task :
      task_at t i
      ≡ record (task_at s i) { wake_tick = s.ticks + ticks; state = sleeping; quantum_used = 0 }

if_false : (b : Bool) (x y : Sched) → b ≡ false → (if b then x else y) ≡ y
if_false b x y e = rw e refl

sleep_slot-Dozes :
    (ticks i : ℕ) (s : Sched)
    → length s.tasks ≡ max_tasks
    → i < max_tasks
    → (task_at s i).is_idle ≡ false
    → 0 < ticks
    → s.ticks + ticks < 2 ^ 32
    → Dozes ticks i s (sleep_slot ticks i s)
unfolding sleep_slot sched_runq_del
sleep_slot-Dozes ticks i s len hi idle some_ticks low =
    let wake = add32 s.ticks (if ticks == 0 then 1 else ticks) in
    let f = λ (k : Task). record k { wake_tick = wake; state = sleeping; quantum_used = 0 } in
    let same : wake ≡ s.ticks + ticks = ground arith in
    subst (λ t. Dozes ticks i s t) (sym (if_false _ _ _ idle))
      (record {
        len = length-set s.tasks i _;
        clock = refl;
        online = refl;
        task =
            put_task_same i f s len hi
            ∙ ap (λ w. record (task_at s i) { wake_tick = w; state = sleeping; quantum_used = 0 })
                same;
      })

queued_woken :
    (online i c : ℕ) (k : Task)
    → k.used ≡ true
    → (i == 0) ≡ false
    → normalize_of online k.run_cpu ≡ c
    → is_queued online c i (woken online k) ≡ true
queued_woken online i c k used low home =
    rw (used, low, normalize_twice online k.run_cpu, home) (ground arith)

-- In a state whose queues are right, let a task other than the root call `sched_sleep_ticks` for some
-- ticks, such that the clock does not reach 2 ^ 32 meanwhile. As long as nothing but the timer
-- ticks, it is asleep after fewer ticks, and after that many it is runnable and stands in the run
-- queue of its processor.
pub sched_sleep_ticks-pass :
    (ticks cpu i n : ℕ) (s : Sched)
    → IsSound s
    → sched_current_slot cpu s ≡ some i
    → (task_at s i).is_idle ≡ false
    → 0 < ticks
    → s.ticks + ticks < 2 ^ 32
    → n < ticks
    → (let t = sched_sleep_ticks ticks cpu s in
        let u = pass cpu ticks t in
        ((task_at (pass cpu n t) i).state ≡ sleeping)
        × ((task_at u i).state ≡ runnable)
        × (bits_test (runq_at u (normalize_of s.online (task_at s i).run_cpu)) i ≡ true))
unfolding sched_sleep_ticks
sched_sleep_ticks-pass zero cpu i n s v e idle some_ticks low early = elim some_ticks [ ]
sched_sleep_ticks-pass (suc m) cpu i n s v e idle some_ticks low early =
    let (hi, used, _) = current_lem cpu i s e in
    let t = sched_sleep_ticks (suc m) cpu s in
    let vt = sched_sleep_ticks-IsSound (suc m) cpu s v in
    let d : Dozes (suc m) i s t =
      rw (e, sched_sleep_ticks)
        (sleep_slot-Dozes (suc m) i s v.shape.tasks_len hi idle some_ticks low) in
    let asleep : (task_at t i).state ≡ sleeping = ap (λ (k : Task). k.state) d.task in
    let wakes : (task_at t i).wake_tick ≡ s.ticks + suc m = ap (λ (k : Task). k.wake_tick) d.task in
    let in_use : (task_at t i).used ≡ true = ap (λ (k : Task). k.used) d.task ∙ used in
    let home : (task_at t i).run_cpu ≡ (task_at s i).run_cpu =
      ap (λ (k : Task). k.run_cpu) d.task in
    let p =
      sleeps_on cpu i t n vt.shape.tasks_len hi asleep (omega (arith, d.clock))
        (omega (arith, d.clock, wakes)) in
    let (woke, online) =
      wakes_up cpu i t m vt.shape.tasks_len hi in_use asleep (omega (arith, d.clock))
        (omega (arith, d.clock, wakes)) in
    let u = pass cpu (suc m) t in
    let vu = pass-IsSound cpu (suc m) t vt in
    let c = normalize_of s.online (task_at s i).run_cpu in
    (
      ap (λ (k : Task). k.state) p.same ∙ asleep,
      ap (λ (k : Task). k.state) woke,
      (vu.agree i hi).runs c (normalize_bound s.online (task_at s i).run_cpu)
          ∙ rw (woke, online, d.online)
              (queued_woken s.online i c (task_at t i) in_use
                (sym ((v.agree i hi).root used).0 ∙ idle) (ap (λ x. normalize_of s.online x) home)),
    )
