-- ===== src/Sched/Task/Inv/Run.antt =====
-- Switching to a task and back, yielding and the tick of the timer keep the queues right.
use octans.Prelude.{
  ℕ, zero, suc, ◌<◌, ◌≤◌, ◌≡◌, ◌≢◌, refl, ap, sym, ◌∙◌, none, some, Bool, true, false, ◌&&◌, ◌||◌,
  not, ◌==◌, if◌then◌else◌, arith, inl, inr, ◌⊎◌, Bool-cases, Option-cases, add32, bits_test,
  get_or-set_self, subst,
}
use octans.Sched.Task.State.{
  Task, Sched, max_tasks, runnable, running, sleeping, blocked, kind_kernel, task_at, put_task,
  zero_task, current_at,
}
use octans.Sched.Task.Queue.{normalize_of, runq_at, sched_runq_del}
use octans.Sched.Task.Slots.{boot_ctx, stack_entries, sched_stack_prepare_bootstrap_locked}
use octans.Sched.Task.Loop.{put_current, must_choose, run_choose, run_start, sched_run_pick}
use octans.Sched.Task.Pick.{run_choose_lem}
use octans.Sched.Task.Inv.Sound.{
  is_queued, waits_on, IsKept, has_entry, IsSound, SoundBut, normalize_bound,
}
use octans.Sched.Task.Inv.Moves.{but_open, but_put, but_ext}
use octans.Sched.Task.Inv.Wake.{settle_out}
use octans.Sched.Task.Inv.Sleep.{leave_runq}

-- A task that does not sleep waits nowhere.
pub awake_lem :
    (i : ℕ) (s : Sched)
    → IsSound s
    → i < max_tasks
    → (task_at s i).state ≢ blocked
    → (task_at s i).state ≢ sleeping
    → (task_at s i).waitq ≡ none
awake_lem i s v hi a b = elim (Option-cases (task_at s i).waitq) [
  | inl e ↦ e
  | inr (q, e) ↦ elim (((v.agree i hi).may q e).asleep) [
    | inl x ↦ absurd (a x)
    | inr x ↦ absurd (b x)
  ]
]

-- The same as the queues tell it.
pub but_awake :
    (i : ℕ) (s : Sched)
    → IsSound s
    → i < max_tasks
    → (task_at s i).waitq ≡ none
    → SoundBut i (λ c. is_queued s.online c i (task_at s i)) (λ q. false) s
but_awake i s v hi out =
    but_ext i _ _ s _ (λ q. false) (but_open s i v hi) (λ c hc. refl)
      (λ q hq. rw (out, waits_on) refl)

-- The last write of a switch.
run_started :
    (i : ℕ) (u : Sched) (k : Task)
    → SoundBut i (λ c. false) (λ q. false) u
    → task_at u i ≡ k
    → i < max_tasks
    → k.waitq ≡ none
    → (k.used ≡ true → IsKept i k)
    → IsSound (put_task i (λ k. record k { state = running; run_ticks = add32 k.run_ticks 1 }) u)
run_started i u k b now hi out kept =
    let f = λ (k : Task). record k { state = running; run_ticks = add32 k.run_ticks 1 } in
    settle_out i (put_task i f u) (f k) (but_put i _ _ u f b)
      (get_or-set_self u.tasks i (f (task_at u i)) zero_task (omega (arith, b.shape.tasks_len))
        ∙ ap f now)
      (λ c. ground arith) out kept

-- A queued task is in use, runnable and not the root, and the queue is that of its processor.
pub queued_lem :
    (online c i : ℕ) (k : Task)
    → is_queued online c i k ≡ true
    → (0 < i) × (k.used ≡ true) × (k.state ≡ runnable) × (normalize_of online k.run_cpu ≡ c)
queued_lem online c i k e = (ground arith, ground arith, ground arith, ground arith)

run_start-IsSound :
    (cpu next : ℕ) (s : Sched)
    → IsSound s
    → next < max_tasks
    → is_queued s.online (normalize_of s.online cpu) next (task_at s next) ≡ true
    → IsSound (run_start cpu next s)
unfolding run_start sched_stack_prepare_bootstrap_locked
run_start-IsSound cpu next s v hi e =
    let k = task_at s next in
    let (low, used, runs, home) = queued_lem s.online (normalize_of s.online cpu) next k e in
    let out =
      awake_lem next s v hi (λ x. absurd (omega (arith, x, runs)))
        (λ x. absurd (omega (arith, x, runs))) in
    let f = λ (k : Task). record k { run_cpu = cpu } in
    let g = λ (k : Task). record k { stack_ctx = boot_ctx k.stack_ctx } in
    let u = put_task next f (put_current cpu next s) in
    let b = but_put next _ _ (put_current cpu next s) f (but_awake next s v hi out) in
    let taken = sched_runq_del cpu next u in
    let c : SoundBut next (λ c. false) (λ q. false) taken =
      leave_runq next cpu (λ q. false) (f k) u
        (but_ext next _ _ u _ (λ q. false) b (λ c hc. rw home refl) (λ q hq. refl)) refl low hi in
    let now : task_at taken next ≡ f k =
      get_or-set_self s.tasks next (f k) zero_task (omega (arith, v.shape.tasks_len)) in
    let kept = (v.agree next hi).root in
    elim (Bool-cases (k.kind == kind_kernel && k.stack_ctx.csp == stack_entries)) [
      | inl x ↦ rw x (
          run_started next (put_task next g taken) (g (f k)) (but_put next _ _ taken g c)
            (get_or-set_self taken.tasks next (g (task_at taken next)) zero_task
                (omega (arith, c.shape.tasks_len))
              ∙ ap g now)
            hi out kept)
      | inr x ↦ rw x (run_started next taken (f k) c now hi out kept)
    ]

-- `r` is the lowest task that is runnable on the processor `c`, or 0 where none is.
abbrev pub IsLowest : Sched → ℕ → ℕ → Type 0
IsLowest s c r =
    ((r ≡ 0) × ((j : ℕ) → j < max_tasks → is_queued s.online c j (task_at s j) ≡ false))
    ⊎ ((r < max_tasks)
        × (is_queued s.online c r (task_at s r) ≡ true)
        × ((j : ℕ) → j < max_tasks → is_queued s.online c j (task_at s j) ≡ true → r ≤ j))

queued_positive : (online c j : ℕ) (k : Task) → is_queued online c j k ≡ true → 0 < j
queued_positive online c j k e = ground arith

none_queued :
    (cpu : ℕ) (s : Sched)
    → IsSound s
    → ((j : ℕ)
        → 0 < j
        → j < max_tasks
        → bits_test (runq_at s (normalize_of s.online cpu)) j ≡ false)
    → (j : ℕ) → j < max_tasks
    → is_queued s.online (normalize_of s.online cpu) j (task_at s j) ≡ false
none_queued cpu s v empty zero hj = refl
none_queued cpu s v empty (suc j) hj =
    sym ((v.agree (suc j) hj).runs (normalize_of s.online cpu) (normalize_bound s.online cpu))
    ∙ empty (suc j) (omega arith) hj

pub run_choose-IsLowest :
    (cpu : ℕ) (s : Sched)
    → IsSound s
    → current_at s cpu ≡ 0
    → IsLowest s (normalize_of s.online cpu) (run_choose cpu s)
run_choose-IsLowest cpu s v idle =
    let c = normalize_of s.online cpu in
    let hc = normalize_bound s.online cpu in
    elim (run_choose_lem cpu s idle) [
      | inl (e, empty) ↦ inl (e, none_queued cpu s v empty)
      | inr (low, high, set, first) ↦ inr (
        high,
        sym ((v.agree _ high).runs c hc) ∙ set,
        λ j hj queued.
            let lowj = queued_positive s.online c j (task_at s j) queued in
            omega (arith, lowj, low, first j lowj hj ((v.agree j hj).runs c hc ∙ queued)),
      )
    ]

-- What a round of `sched_run` comes to.
abbrev pub RunsLowest : ℕ → Sched → Type 0
RunsLowest cpu s =
    let c = normalize_of s.online cpu in
    IsSound (sched_run_pick cpu s).0
    × (((sched_run_pick cpu s).1 ≡ none)
          × ((j : ℕ) → j < max_tasks → is_queued s.online c j (task_at s j) ≡ false)
        ⊎ ((r : ℕ) × ((sched_run_pick cpu s).1 ≡ some r)
            × (is_queued s.online c r (task_at s r) ≡ true)
            × ((j : ℕ) → j < max_tasks → is_queued s.online c j (task_at s j) ≡ true → r ≤ j)))

pub not_zero : (i : ℕ) → 0 < i → (i == 0) ≡ false
not_zero i low = ground arith

-- A runnable task with a function is no stale entry.
pub not_stale :
    (i : ℕ) (k : Task)
    → 0 < i
    → k.used ≡ true
    → (i == 0 || has_entry k) ≡ true
    → k.state ≡ runnable
    → (not k.used || elim k.entry [ none ↦ true | some _ ↦ false ] || not (k.state == runnable))
      ≡ false
not_stale i k low used entered runs = elim (Option-cases k.entry) [
  | inl e ↦ absurd (ground (arith, e))
  | inr (_, e) ↦ rw e (ground arith)
]

pub last_branch :
    {T : Type 0} (a b : Bool) (x y z : T)
    → a ≡ false
    → b ≡ false
    → (if a then x else if b then y else z) ≡ z
last_branch a b x y z ea eb = rw (ea, eb) refl

-- In a state whose queues are right a processor that runs the root switches to the task of the lowest
-- slot among those that are in use, runnable and its own, whichever ran last; it switches to none
-- just when there is no such task. The queues are right afterwards.
pub sched_run_pick-RunsLowest :
    (cpu : ℕ) (s : Sched) → IsSound s → current_at s cpu ≡ 0 → RunsLowest cpu s
unfolding sched_run_pick
sched_run_pick-RunsLowest cpu s v idle =
    let c = normalize_of s.online cpu in
    elim (run_choose-IsLowest cpu s v idle) [
      | inl (e, empty) ↦ rw e (v, inl (refl, empty))
      | inr (high, queued, first) ↦
          let next = run_choose cpu s in
          let (low, used, runs, home) = queued_lem s.online c next (task_at s next) queued in
          let (_, entered) = (v.agree next high).root used in
          let s1 = record s { need_resched = s.need_resched && not (must_choose cpu s) } in
          let e : sched_run_pick cpu s ≡ (run_start cpu next s1, some next) =
            last_branch _ _ _ _ _ (not_zero next low)
              (not_stale next (task_at s next) low used entered runs) in
          (
            subst (λ p. IsSound p.0) (sym e) (run_start-IsSound cpu next s1 v high queued),
            inr (next, ap (λ p. p.1) e, queued, first),
          )
    ]
