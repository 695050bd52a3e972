-- ===== src/Sched/Task/Inv/Homes.antt =====
-- The task that a processor runs belongs to that processor, as long as no processor picks a task
-- whose slot another one has not left yet.
use octans.Prelude.{
  ℕ, ◌<◌, ◌≡◌, ◌≢◌, refl, sym, ap, ◌∙◌, List, some, true, ◌&&◌, not, ◌==◌, if◌then◌else◌, arith,
  inl, inr, add32, get_or, length-set, Bool-cases, subst, Option,
}
use octans.Sched.Task.State.{
  Task, Sched, max_tasks, runnable, running, kind_kernel, zero_task, task_at, put_task, current_at,
}
use octans.Sched.Task.Queue.{normalize_of, sched_runq_add, sched_runq_del}
use octans.Sched.Task.Slots.{boot_ctx, stack_entries, sched_stack_prepare_bootstrap_locked}
use octans.Sched.Task.Loop.{
  put_current, must_choose, run_choose, run_start, sched_run_pick, sched_run_return,
}
use octans.Sched.Task.Inv.Sound.{is_queued, IsSound}
use octans.Sched.Task.Inv.End.{put_lem}
use octans.Sched.Task.Inv.Run.{queued_lem, run_choose-IsLowest, not_zero, not_stale, last_branch}
use octans.Sched.Task.Inv.Keeps.{Keeps, Keeps-refl, set_seen, put-Keeps, if-Keeps}

-- The current task of a processor, where it is marked as running, is in use and that processor's.
pub record IsHome (tasks : List Task) (current : List ℕ) (online : ℕ) : Type 0 where
  pub home :
      (c i : ℕ)
      → get_or current c 0 ≡ i
      → 0 < i
      → (get_or tasks i zero_task).state ≡ running
      → ((get_or tasks i zero_task).used ≡ true)
        × (normalize_of online (get_or tasks i zero_task).run_cpu ≡ normalize_of online c)

abbrev pub AllHome : Sched → Type 0
AllHome s = IsHome s.tasks s.current s.online

pub Keeps-AllHome : (o t : Sched) → Keeps o t → AllHome o → AllHome t
Keeps-AllHome o t k h = record {
  home = λ c i e low r.
      let (r', used, same) = k.runs i r in
      let (u, at_home) =
        h.home c i (ap (λ (l : List ℕ). get_or l c 0) (sym k.same_current) ∙ e) low r' in
      (used ∙ u, rw (k.same_online, same) at_home);
}

-- A processor that runs the root.
pub idle-AllHome : (cpu : ℕ) (s : Sched) → AllHome s → AllHome (put_current cpu 0 s)
idle-AllHome cpu s h = record {
  home = λ c i e low r. elim (set_seen s.current cpu c 0 0) [
    | inl f ↦ h.home c i (sym f ∙ e) low r
    | inr (_, f) ↦ absurd (omega (arith, f, e, low))
  ];
}

abbrev homed : ℕ → Task → Task
homed cpu k = record k { run_cpu = cpu }

abbrev started : Task → Task
started k = record k { state = running; run_ticks = add32 k.run_ticks 1 }

-- The last write of a switch to `next`, in a state `u` that the writes before have made.
start-AllHome :
    (cpu next : ℕ) (s u : Sched)
    → AllHome s
    → (task_at s next).state ≡ runnable
    → ((c : ℕ) → current_at s c ≢ next)
    → Keeps (put_task next (homed cpu) (put_current cpu next s)) u
    → ((task_at u next).used ≡ true) × ((task_at u next).run_cpu ≡ cpu)
    → AllHome (put_task next started u)
start-AllHome cpu next s u h ready left k (used, home) = record {
  home = λ c i e low r.
      let now = ap (λ (l : List ℕ). get_or l c 0) (sym k.same_current) ∙ e in
      elim (set_seen u.tasks next i (started (task_at u next)) zero_task) [
        | inl f ↦
            let (r', used', home') = k.runs i (ap (λ (t : Task). t.state) (sym f) ∙ r) in
            elim (set_seen s.tasks next i (homed cpu (task_at s next)) zero_task) [
              | inr (same, g) ↦ absurd (omega (arith, ap (λ (t : Task). t.state) g, r', ready))
              | inl g ↦
                  let r'' = ap (λ (t : Task). t.state) (sym g) ∙ r' in
                  elim (set_seen s.current cpu c next 0) [
                    | inr (_, x) ↦
                        let same : i ≡ next = sym now ∙ x in
                        absurd (omega (arith, r'', ap (λ (j : ℕ). (task_at s j).state) same, ready))
                    | inl x ↦
                        let (a, b) = h.home c i (sym x ∙ now) low r'' in
                        (
                          ap (λ (t : Task). t.used) f ∙ used' ∙ ap (λ (t : Task). t.used) g ∙ a,
                          ap (λ (n : ℕ). normalize_of u.online n)
                                (ap (λ (t : Task). t.run_cpu) f
                                  ∙ home'
                                  ∙ ap (λ (t : Task). t.run_cpu) g)
                              ∙ rw (k.same_online) b,
                        )
                  ]
            ]
        | inr (same, f) ↦ elim (set_seen s.current cpu c next 0) [
          | inl x ↦ absurd (left c (sym x ∙ now ∙ sym same))
          | inr (there, x) ↦ (
            ap (λ (t : Task). t.used) f ∙ used,
            ap (λ (n : ℕ). normalize_of u.online n) (ap (λ (t : Task). t.run_cpu) f ∙ home ∙ there),
          )
        ]
      ];
}

run_start-AllHome :
    (cpu next : ℕ) (s : Sched)
    → IsSound s
    → AllHome s
    → next < max_tasks
    → is_queued s.online (normalize_of s.online cpu) next (task_at s next) ≡ true
    → ((c : ℕ) → current_at s c ≢ next)
    → AllHome (run_start cpu next s)
unfolding run_start sched_runq_del sched_stack_prepare_bootstrap_locked
run_start-AllHome cpu next s v h hi queued left =
    let k = task_at s next in
    let (low, used, ready, _) = queued_lem s.online (normalize_of s.online cpu) next k queued in
    let o = put_task next (homed cpu) (put_current cpu next s) in
    let taken = sched_runq_del cpu next o in
    let g = λ (k : Task). record k { stack_ctx = boot_ctx k.stack_ctx } in
    let now : task_at taken next ≡ homed cpu k =
      put_lem next (homed cpu) (put_current cpu next s) k v.shape.tasks_len hi refl in
    let facts : ((task_at taken next).used ≡ true) × ((task_at taken next).run_cpu ≡ cpu) =
      (ap (λ (t : Task). t.used) now ∙ used, ap (λ (t : Task). t.run_cpu) now) in
    let len = length-set s.tasks next (homed cpu k) ∙ v.shape.tasks_len in
    let now' = put_lem next g taken (homed cpu k) len hi now in
    elim (Bool-cases (k.kind == kind_kernel && k.stack_ctx.csp == stack_entries)) [
      | inl x ↦ rw x (
          start-AllHome cpu next s (put_task next g taken) h ready left
            (put-Keeps o next g taken (λ r. (r, refl, refl)) (Keeps-refl o))
            (ap (λ (t : Task). t.used) now' ∙ used, ap (λ (t : Task). t.run_cpu) now'))
      | inr x ↦ rw x (start-AllHome cpu next s taken h ready left (Keeps-refl o) facts)
    ]

-- A round of `sched_run`: the task that it picks is current on no processor.
pub sched_run_pick-AllHome :
    (cpu : ℕ) (s : Sched)
    → IsSound s
    → AllHome s
    → current_at s cpu ≡ 0
    → ((c next : ℕ) → (sched_run_pick cpu s).1 ≡ some next → current_at s c ≢ next)
    → AllHome (sched_run_pick cpu s).0
unfolding sched_run_pick
sched_run_pick-AllHome cpu s v h idle left =
    let s1 = record s { need_resched = s.need_resched && not (must_choose cpu s) } in
    elim (run_choose-IsLowest cpu s v idle) [
      | inl (e, empty) ↦ rw e (idle-AllHome cpu s1 h)
      | inr (high, queued, first) ↦
          let next = run_choose cpu s in
          let (low, used, runs, _) =
            queued_lem s.online (normalize_of s.online cpu) next (task_at s next) queued in
          let (_, entered) = (v.agree next high).root used in
          let e : sched_run_pick cpu s ≡ (run_start cpu next s1, some next) =
            last_branch _ _ _ _ _ (not_zero next low)
              (not_stale next (task_at s next) low used entered runs) in
          subst (λ (p : Sched × Option ℕ). AllHome p.0) (sym e)
            (run_start-AllHome cpu next s1 v h high queued
              (λ c. left c next (ap (λ (p : Sched × Option ℕ). p.1) e)))
    ]

pub sched_run_return-AllHome :
    (cpu next : ℕ) (s : Sched) → AllHome s → AllHome (sched_run_return cpu next s)
unfolding sched_run_return sched_runq_add
sched_run_return-AllHome cpu next s h =
    let t = put_current cpu 0 s in
    let f = λ (k : Task). record k { state = runnable } in
    let ready = sched_runq_add cpu next (put_task next f t) in
    Keeps-AllHome t (if (task_at t next).state == running then ready else t)
      (if-Keeps t ((task_at t next).state == running) ready t
        (put-Keeps t next f t (λ x. absurd (omega (arith, x))) (Keeps-refl t)) (Keeps-refl t))
      (idle-AllHome cpu s h)
