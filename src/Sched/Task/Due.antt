-- ===== src/Sched/Task/Due.antt =====
-- Which tasks `sched_try_wake_sleepers` wakes, and what it makes of them.
use octans.Prelude.{
  ℕ, ◌+◌, ◌<◌, ◌≡◌, refl, sym, ap, ◌∙◌, none, Bool, true, false, ◌&&◌, ◌||◌, not, ◌==◌, ltb,
  if◌then◌else◌, arith, inl, inr, Bool-cases, Option-cases, length, length-set, get_or-set_self,
  get_or-set_ne, for_range_inv,
}
use octans.Sched.Task.State.{
  Task, Sched, max_tasks, runnable, sleeping, blocked, task_at, put_task, zero_task,
}
use octans.Sched.Task.Queue.{
  normalize_of, sched_detach_waitq, sched_runq_add, make_ready, wake_due, sched_try_wake_sleepers,
}

-- A task that sleeps, has a time to wake, and that time has come.
abbrev pub is_due : ℕ → Task → Bool
is_due now t =
    t.used
    && (t.state == sleeping || t.state == blocked)
    && not (t.wake_tick == 0 || ltb now t.wake_tick)

-- What waking makes of a task: it is runnable, on its processor, and waits no longer.
abbrev pub woken : ℕ → Task → Task
woken online t = record t {
  wake_tick = 0;
  state = runnable;
  run_cpu = normalize_of online t.run_cpu;
  quantum_used = 0;
  waitq = none;
}

abbrev pub after_tick : ℕ → ℕ → Task → Task
after_tick now online t = if is_due now t then woken online t else t

-- A write to the slot `i` as another slot sees it, and as `i` does.
pub put_task_other :
    (i j : ℕ) (f : Task → Task) (s : Sched)
    → (i == j) ≡ false
    → task_at (put_task i f s) j ≡ task_at s j
put_task_other i j f s ne = get_or-set_ne s.tasks i j (f (task_at s i)) zero_task (ground arith)

pub put_task_same :
    (i : ℕ) (f : Task → Task) (s : Sched)
    → length s.tasks ≡ max_tasks
    → i < max_tasks
    → task_at (put_task i f s) i ≡ f (task_at s i)
put_task_same i f s len hi =
    get_or-set_self s.tasks i (f (task_at s i)) zero_task (omega (arith, len))

-- What `sched_detach_waitq` does to the table of tasks.
pub record DetachTasks (i : ℕ) (s : Sched) : Type 0 where
  pub len : length (sched_detach_waitq i s).tasks ≡ length s.tasks
  pub same : task_at (sched_detach_waitq i s) i ≡ record (task_at s i) { waitq = none }
  pub other : (j : ℕ) → (i == j) ≡ false → task_at (sched_detach_waitq i s) j ≡ task_at s j

pub detach_tasks :
    (i : ℕ) (s : Sched) → length s.tasks ≡ max_tasks → i < max_tasks → DetachTasks i s
unfolding sched_detach_waitq
detach_tasks i s len hi =
    let f = λ (k : Task). record k { waitq = none } in
    let t = task_at s i in
    elim (Option-cases (task_at s i).waitq) [
      | inl e ↦ record {
        len = rw (e, sched_detach_waitq, length) refl;
        same = rw (sched_detach_waitq, e) (ap (λ w. record t { waitq = w }) e);
        other = λ j ne. rw (e, sched_detach_waitq) refl;
      }
      | inr (q, e) ↦ record {
        len = rw (e, sched_detach_waitq) (length-set s.tasks i (f t));
        same = rw (e, sched_detach_waitq) (put_task_same i f s len hi);
        other = λ j ne. rw (e, sched_detach_waitq) (put_task_other i j f s ne);
      }
    ]

-- The tasks after one of them is made ready.
pub record ReadyTasks (i : ℕ) (s : Sched) : Type 0 where
  pub len : length (make_ready i s).tasks ≡ length s.tasks
  pub same : task_at (make_ready i s) i ≡ woken s.online (task_at s i)
  pub other : (j : ℕ) → (i == j) ≡ false → task_at (make_ready i s) j ≡ task_at s j

pub ready_tasks : (i : ℕ) (s : Sched) → length s.tasks ≡ max_tasks → i < max_tasks → ReadyTasks i s
unfolding make_ready
ready_tasks i s len hi =
    let d = detach_tasks i s len hi in
    let t = sched_detach_waitq i s in
    let cpu = normalize_of s.online (task_at t i).run_cpu in
    let f =
      λ (k : Task). record k { wake_tick = 0; state = runnable; run_cpu = cpu; quantum_used = 0 } in
    record {
      len = length-set t.tasks i _ ∙ d.len;
      same =
          put_task_same i f t (d.len ∙ len) hi
          ∙ ap
              (λ (k : Task). record k {
                wake_tick = 0;
                state = runnable;
                run_cpu = normalize_of s.online k.run_cpu;
                quantum_used = 0;
              })
              d.same;
      other = λ j ne. put_task_other i j f t ne ∙ d.other j ne;
    }

nested_tests :
    (a b c d : Bool) (ready idle : Sched)
    → (if not a then idle else if not b && not c then idle else if d then idle else ready)
      ≡ (if a && (b || c) && not d then ready else idle)
nested_tests a b c d ready idle = ground arith

-- One round of the loop is one test.
pub wake_due_lem :
    (now i : ℕ) (s : Sched)
    → wake_due now i s ≡ (if is_due now (task_at s i) then make_ready i s else s)
unfolding wake_due
wake_due_lem now i s =
    let t = task_at s i in
    nested_tests t.used (t.state == sleeping) (t.state == blocked)
      (t.wake_tick == 0 || ltb now t.wake_tick) (make_ready i s) s

-- The tasks after the rounds below `k`.
pub record Woke (now : ℕ) (s : Sched) (k : ℕ) (t : Sched) : Type 0 where
  pub len : length t.tasks ≡ length s.tasks
  pub online : t.online ≡ s.online
  pub tasks :
      (j : ℕ)
      → task_at t j ≡ (if ltb j k then after_tick now s.online (task_at s j) else task_at s j)

make_ready-online : (i : ℕ) (s : Sched) → (make_ready i s).online ≡ s.online
unfolding make_ready sched_runq_add sched_detach_waitq
make_ready-online i s = refl

ltb_self : (k : ℕ) → ltb k k ≡ false
ltb_self k = ground arith

ltb_next : (k : ℕ) → ltb k (k + 1) ≡ true
ltb_next k = ground arith

ltb_other : (k j : ℕ) → (k == j) ≡ false → ltb j k ≡ ltb j (k + 1)
ltb_other k j e = ground arith

-- A round that wakes its task, and one that does not.
Woke-ready :
    (now k : ℕ) (s t : Sched)
    → length s.tasks ≡ max_tasks
    → k < max_tasks
    → is_due now (task_at t k) ≡ true
    → Woke now s k t
    → Woke now s (k + 1) (make_ready k t)
Woke-ready now k s t len hk due w =
    let r = ready_tasks k t (w.len ∙ len) hk in
    let here : task_at t k ≡ task_at s k = w.tasks k ∙ rw (ltb_self k) refl in
    let now_due : is_due now (task_at s k) ≡ true = ap (λ x. is_due now x) (sym here) ∙ due in
    record {
      len = r.len ∙ w.len;
      online = make_ready-online k t ∙ w.online;
      tasks = λ j. elim (Bool-cases (k == j)) [
        | inl e ↦
            let eq : k ≡ j = ground arith in
            rw (← eq, ltb_next k) (r.same ∙ rw (w.online, here, now_due) refl)
        | inr e ↦ r.other j e ∙ w.tasks j ∙ rw (ltb_other k j e) refl
      ];
    }

Woke-idle :
    (now k : ℕ) (s t : Sched)
    → is_due now (task_at t k) ≡ false
    → Woke now s k t
    → Woke now s (k + 1) t
Woke-idle now k s t due w =
    let here : task_at t k ≡ task_at s k = w.tasks k ∙ rw (ltb_self k) refl in
    let not_due : is_due now (task_at s k) ≡ false = ap (λ x. is_due now x) (sym here) ∙ due in
    record {
      len = w.len;
      online = w.online;
      tasks = λ j. elim (Bool-cases (k == j)) [
        | inl e ↦ let eq : k ≡ j = ground arith in rw (← eq, ltb_next k) (here ∙ rw not_due refl)
        | inr e ↦ w.tasks j ∙ rw (ltb_other k j e) refl
      ];
    }

Woke-round :
    (now k : ℕ) (s t : Sched)
    → length s.tasks ≡ max_tasks
    → k < max_tasks
    → Woke now s k t
    → Woke now s (k + 1) (wake_due now k t)
Woke-round now k s t len hk w =
    rw (wake_due_lem now k t) (elim (Bool-cases (is_due now (task_at t k))) [
      | inl due ↦ rw due (Woke-ready now k s t len hk due w)
      | inr due ↦ rw due (Woke-idle now k s t due w)
    ])

pub Woke-all :
    (now : ℕ) (s : Sched)
    → length s.tasks ≡ max_tasks
    → Woke now s max_tasks (sched_try_wake_sleepers now s)
unfolding sched_try_wake_sleepers
Woke-all now s len =
    for_range_inv (Woke now s) (wake_due now) 0 max_tasks
      (λ k t low high h. Woke-round now k s t len high h) max_tasks s refl
      (record { len = refl; online = refl; tasks = λ i. rw (below_zero i) refl })
  where
    below_zero : (i : ℕ) → ltb i 0 ≡ false
    below_zero i = ground arith

-- In a table of 64 slots `sched_try_wake_sleepers` makes every task that sleeps, on a wait queue or
-- for a time, and whose time has come runnable on its processor and waiting on no queue, and leaves
-- every other task as it was.
pub sched_try_wake_sleepers_lem :
    (now j : ℕ) (s : Sched)
    → length s.tasks ≡ max_tasks
    → j < max_tasks
    → task_at (sched_try_wake_sleepers now s) j ≡ after_tick now s.online (task_at s j)
sched_try_wake_sleepers_lem now j s len hj =
    (Woke-all now s len).tasks j ∙ rw (below j max_tasks hj) refl
  where
    below : (i n : ℕ) → i < n → ltb i n ≡ true
    below i n h = ground arith
