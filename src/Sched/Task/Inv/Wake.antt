-- ===== src/Sched/Task/Inv/Wake.antt =====
-- Sleeping on a wait queue and waking keep the queues right.
use octans.Prelude.{
  ℕ, zero, suc, ◌<◌, ◌≡◌, refl, ap, sym, ◌∙◌, none, some, Bool, true, false, arith, inl, inr,
  Option-cases, length, length-set, get_or-set_self, bits_clear, ltb,
}
use octans.Sched.Task.State.{Task, Sched, max_tasks, runnable, task_at, put_task, zero_task}
use octans.Sched.Task.Queue.{
  normalize_of, put_waitq, sched_runq_add, sched_detach_waitq, make_ready,
}
use octans.Sched.Task.Inv.Sound.{is_queued, waits_on, IsKept, IsAsleep, MayWait, IsSound, SoundBut}
use octans.Sched.Task.Inv.Moves.{but_open, but_close, but_ext, but_put, but_add, but_leave}

-- After `sched_detach_waitq` the task `i` waits nowhere, and is otherwise what it was.
pub record Detached (i : ℕ) (rb : ℕ → Bool) (s : Sched) : Type 0 where
  pub but : SoundBut i rb (λ q. false) (sched_detach_waitq i s)
  pub task : task_at (sched_detach_waitq i s) i ≡ record (task_at s i) { waitq = none }
  pub waitqs_len : length (sched_detach_waitq i s).waitqs ≡ length s.waitqs

pub detach_lem :
    (i : ℕ) (rb : ℕ → Bool) (s : Sched)
    → SoundBut i rb (λ q. waits_on q (task_at s i)) s
    → ((q : ℕ) → (task_at s i).waitq ≡ some q → q < length s.waitqs)
    → i < max_tasks
    → Detached i rb s
unfolding sched_detach_waitq
detach_lem i rb s b inside hi = elim (Option-cases (task_at s i).waitq) [
  | inl e ↦
      let t = task_at s i in
      record {
        but =
            rw (e, sched_detach_waitq)
              (but_ext i rb (λ q. waits_on q t) s rb (λ q. false) b (λ c hc. refl)
                (λ q hq. rw (e, waits_on) refl));
        task = rw (sched_detach_waitq, e) (ap (λ w. record t { waitq = w }) e);
        waitqs_len = rw (sched_detach_waitq, e, length) refl;
      }
  | inr (q, e) ↦
      let near : ltb i max_tasks ≡ true = ground arith in
      let t = put_waitq q (λ m. bits_clear m i) s in
      let left = but_leave i rb (λ k. waits_on k (task_at s i)) s q b hi (inside q e) in
      let out = λ (k : Task). record k { waitq = none } in
      record {
        but =
            rw (e, near, sched_detach_waitq)
              (but_ext i rb _ (put_task i out t) rb (λ k. false) (but_put i rb _ t out left)
                (λ c hc. refl) (λ k hk. rw (e, waits_on) (ground arith)));
        task =
            rw (e, sched_detach_waitq)
              (get_or-set_self s.tasks i (out (task_at s i)) zero_task
                (omega (arith, b.shape.tasks_len)));
        waitqs_len = rw (e, near, sched_detach_waitq) (length-set s.waitqs q _);
      }
]

-- The same for a task of a state in which all agree.
pub detach-Detached :
    (i : ℕ) (s : Sched)
    → IsSound s
    → i < max_tasks
    → Detached i (λ c. is_queued s.online c i (task_at s i)) s
detach-Detached i s v hi =
    detach_lem i _ s (but_open s i v hi) (λ q e. ((v.agree i hi).may q e).inside) hi

-- The task settles with no queue but the wait queue it may be in.
pub settle_still :
    (i : ℕ) (wb : ℕ → Bool) (t : Sched) (k : Task)
    → SoundBut i (λ c. false) wb t
    → task_at t i ≡ k
    → ((c : ℕ) → is_queued t.online c i k ≡ false)
    → ((q : ℕ) → q < length t.waitqs → wb q ≡ waits_on q k)
    → ((q : ℕ) → k.waitq ≡ some q → MayWait (length t.waitqs) i q k)
    → (k.used ≡ true → IsKept i k)
    → IsSound t
settle_still i wb t k b now rest waits may root =
    but_close i _ _ t b (λ c hc. rw now (sym (rest c))) (λ q hq. rw now (waits q hq))
      (λ q e. rw now (may q (ap (λ (x : Task). x.waitq) (sym now) ∙ e)))
      (λ u. rw now (root (ap (λ (x : Task). x.used) (sym now) ∙ u)))

-- The same for a task that waits nowhere.
pub settle_out :
    (i : ℕ) (t : Sched) (k : Task)
    → SoundBut i (λ c. false) (λ q. false) t
    → task_at t i ≡ k
    → ((c : ℕ) → is_queued t.online c i k ≡ false)
    → k.waitq ≡ none
    → (k.used ≡ true → IsKept i k)
    → IsSound t
settle_out i t k b now rest out root =
    settle_still i (λ q. false) t k b now rest (λ q hq. rw (out, waits_on) refl) (λ q e. absurd cc)
      root

-- The task `i`, which is `k`, settles: it is runnable, and enters the run queue of its processor
-- unless it is the root.
pub settle_ready :
    (i cpu : ℕ) (rb : ℕ → Bool) (t : Sched) (k : Task)
    → SoundBut i rb (λ q. false) t
    → task_at t i ≡ k
    → i < max_tasks
    → (k.used ≡ true) × (k.state ≡ runnable) × (k.waitq ≡ none) × IsKept i k
    → normalize_of t.online k.run_cpu ≡ normalize_of t.online cpu
    → ((c : ℕ) → rb c ≡ true → (0 < i) × (normalize_of t.online cpu ≡ c))
    → IsSound (sched_runq_add cpu i t)
unfolding sched_runq_add
settle_ready zero cpu rb t k b now hi (used, runs, out, kept) same only =
    settle_out 0 t k
      (but_ext 0 rb _ t _ (λ q. false) b (λ c hc. ground (arith, only c)) (λ q hq. refl)) now
      (λ c. refl) out (λ u. kept)
settle_ready (suc i) cpu rb t k b now hi (used, runs, out, kept) same only =
    let low : 0 < suc i = omega arith in
    but_close (suc i) _ _ (sched_runq_add cpu (suc i) t)
      (but_add (suc i) rb (λ q. false) t cpu b low hi) (λ c hc. rw now (ground (arith, only c)))
      (λ q hq. rw (now, out) refl)
      (λ q e.
        let gone : (task_at t (suc i)).waitq ≡ none = ap (λ (x : Task). x.waitq) now ∙ out in
        absurd cc)
      (λ u. rw now kept)

-- A task that sleeps may be made ready.
pub make_ready-IsSound :
    (i : ℕ) (s : Sched)
    → IsSound s
    → i < max_tasks
    → (task_at s i).used ≡ true
    → IsAsleep (task_at s i)
    → IsSound (make_ready i s)
unfolding make_ready
make_ready-IsSound i s v hi used asleep =
    let d = detach-Detached i s v hi in
    let t = sched_detach_waitq i s in
    let cpu = normalize_of s.online (task_at t i).run_cpu in
    let ready =
      λ (k : Task). record k { wake_tick = 0; state = runnable; run_cpu = cpu; quantum_used = 0 } in
    let up = put_task i ready t in
    let rb = λ (c : ℕ). is_queued s.online c i (task_at s i) in
    let k = ready (record (task_at s i) { waitq = none }) in
    let now : task_at up i ≡ k =
      get_or-set_self t.tasks i (ready (task_at t i)) zero_task
        (omega (arith, d.but.shape.tasks_len))
      ∙ ap ready d.task in
    settle_ready i cpu rb up k (but_put i rb (λ q. false) t ready d.but) now hi
      (used, refl, refl, (v.agree i hi).root used) refl (λ c e. absurd (ground (arith, e, asleep)))

-- A write to a task that changes nothing the queues tell of.
pub touch-IsSound :
    (i : ℕ) (f : Task → Task) (s : Sched)
    → IsSound s
    → i < max_tasks
    → (let k = task_at s i in
        ((f k).used ≡ k.used)
        × ((f k).state ≡ k.state)
        × ((f k).run_cpu ≡ k.run_cpu)
        × ((f k).waitq ≡ k.waitq)
        × ((f k).is_idle ≡ k.is_idle)
        × ((f k).entry ≡ k.entry))
    → IsSound (put_task i f s)
touch-IsSound i f s v hi (used, state, cpu, out, idle, entry) =
    let k = task_at s i in
    let a = v.agree i hi in
    let now : task_at (put_task i f s) i ≡ f k =
      get_or-set_self s.tasks i (f k) zero_task (omega (arith, v.shape.tasks_len)) in
    but_close i _ _ (put_task i f s) (but_put i _ _ s f (but_open s i v hi))
      (λ c hc. rw (now, used, state, cpu) refl) (λ q hq. rw (now, out) refl)
      (λ q e.
        let m = a.may q (sym out ∙ ap (λ (x : Task). x.waitq) (sym now) ∙ e) in
        rw now (record {
          in_use = used ∙ m.in_use;
          asleep = rw state m.asleep;
          inside = m.inside;
          own = m.own;
        }))
      (λ u. rw (now, idle, entry) (a.root (sym used ∙ ap (λ (x : Task). x.used) (sym now) ∙ u)))
