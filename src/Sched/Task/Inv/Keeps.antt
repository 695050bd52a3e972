-- ===== src/Sched/Task/Inv/Keeps.antt =====
-- A task that runs was running before, on the same processor: what every operation keeps but the
-- rounds of `sched_run`.
use octans.Prelude.{
  ℕ, zero, suc, ◌-◌, ◌≡◌, refl, ap, ◌∙◌, ◌⊎◌, inl, inr, List, [], ◌∷◌, Option, none, some, Bool,
  true, false, ◌&&◌, ◌||◌, not, leb, ltb, ◌==◌, if◌then◌else◌, arith, get_or, set, add32,
  for_range_inv, find_from, bits_test, bits_set, bits_clear, Option-cases,
}
use octans.Sched.Task.State.{
  Task, Sched, max_tasks, runnable, running, sleeping, blocked, stack_slots, zero_task, task_at,
  put_task,
}
use octans.Sched.Task.Queue.{
  waitq_at, put_waitq, sched_mark_resched_all, sched_cpu_normalize, sched_runq_add, sched_runq_del,
  sched_current_slot, sched_detach_waitq, make_ready, sched_wake_slot, wake_due,
  sched_try_wake_sleepers, waitq_sleep_slot, sched_waitq_sleep_locked, wake_member, wake_members,
  sched_waitq_wake_one, sched_waitq_wake_all,
}
use octans.Sched.Task.Slots.{
  fresh_stack, sched_stack_alloc_locked, sched_stack_free_locked, sched_clear_task,
}

-- What is read after a write.
pub set_seen {ℓ} :
    {A : Type ℓ} (xs : List A) (i j : ℕ) (v d : A)
    → (get_or (set xs i v) j d ≡ get_or xs j d) ⊎ ((i ≡ j) × (get_or (set xs i v) j d ≡ v))
set_seen [] i j v d = inl refl
set_seen (x ∷ xs) zero zero v d = inr (refl, refl)
set_seen (x ∷ xs) zero (suc j) v d = inl refl
set_seen (x ∷ xs) (suc i) zero v d = inl refl
set_seen (x ∷ xs) (suc i) (suc j) v d = elim (set_seen xs i j v d) [
  | inl e ↦ inl e
  | inr (e, f) ↦ inr (ap suc e, f)
]

-- The task `k` has become `l`.
abbrev pub RunsOn : Task → Task → Type 0
RunsOn k l = l.state ≡ running → (k.state ≡ running) × (l.used ≡ k.used) × (l.run_cpu ≡ k.run_cpu)

pub record Keep (o : Sched) (tasks : List Task) (current : List ℕ) (online : ℕ) : Type 0 where
  pub same_current : current ≡ o.current
  pub same_online : online ≡ o.online
  pub runs : (i : ℕ) → RunsOn (task_at o i) (get_or tasks i zero_task)

-- From `o` to `t` no task has started to run.
abbrev pub Keeps : Sched → Sched → Type 0
Keeps o t = Keep o t.tasks t.current t.online

pub Keeps-refl : (s : Sched) → Keeps s s
Keeps-refl s = record { same_current = refl; same_online = refl; runs = λ i e. (e, refl, refl) }

module _ (o : Sched) where
  pub put-Keeps :
      (i : ℕ) (f : Task → Task) (s : Sched)
      → RunsOn (task_at s i) (f (task_at s i))
      → Keeps o s
      → Keeps o (put_task i f s)
  put-Keeps i f s fine v = record {
    same_current = v.same_current;
    same_online = v.same_online;
    runs = λ j. elim (set_seen s.tasks i j (f (task_at s i)) zero_task) [
      | inl e ↦ rw e (v.runs j)
      | inr (same, e) ↦
          rw (e, ← same)
            (λ x.
              let (r, used, home) = fine x in
              let (r', used', home') = v.runs i r in (r', used ∙ used', home ∙ home'))
    ];
  }

  pub if-Keeps :
      (test : Bool) (s t : Sched) → Keeps o s → Keeps o t → Keeps o (if test then s else t)
  if-Keeps true s t a b = a
  if-Keeps false s t a b = b

  pub option-Keeps :
      (found : Option ℕ) (s : Sched) (f : ℕ → Sched)
      → Keeps o s
      → ((i : ℕ) → Keeps o (f i))
      → Keeps o (elim found [ none ↦ s | some i ↦ f i ])
  option-Keeps none s f v keeps = v
  option-Keeps (some i) s f v keeps = keeps i

  pub detach-Keeps : (i : ℕ) (s : Sched) → Keeps o s → Keeps o (sched_detach_waitq i s)
  unfolding sched_detach_waitq
  detach-Keeps i s v = elim (Option-cases (task_at s i).waitq) [
    | inl e ↦ rw (e, sched_detach_waitq) v
    | inr (q, e) ↦
        rw (e, sched_detach_waitq)
          (put-Keeps i (λ k. record k { waitq = none }) s (λ x. (x, refl, refl)) v)
  ]

  make_ready-Keeps : (i : ℕ) (s : Sched) → Keeps o s → Keeps o (make_ready i s)
  unfolding make_ready sched_runq_add
  make_ready-Keeps i s v =
      let t = sched_detach_waitq i s in
      let cpu = sched_cpu_normalize t (task_at t i).run_cpu in
      put-Keeps i
        (λ k. record k { wake_tick = 0; state = runnable; run_cpu = cpu; quantum_used = 0 }) t
        (λ x. absurd (omega (arith, x))) (detach-Keeps i s v)

  pub wake_slot-Keeps : (i : ℕ) (s : Sched) → Keeps o s → Keeps o (sched_wake_slot i s)
  unfolding sched_wake_slot
  wake_slot-Keeps i s v =
      let k = task_at s i in
      let asleep = not (k.state == blocked) && not (k.state == sleeping) in
      let w = if-Keeps asleep s (make_ready i s) v (make_ready-Keeps i s v) in
      if-Keeps (not k.used || k.is_idle) s (if asleep then s else make_ready i s) v w

  wake_due-Keeps : (now i : ℕ) (s : Sched) → Keeps o s → Keeps o (wake_due now i s)
  unfolding wake_due
  wake_due-Keeps now i s v =
      let k = task_at s i in
      let early = k.wake_tick == 0 || ltb now k.wake_tick in
      let awake = not (k.state == sleeping) && not (k.state == blocked) in
      let a = if early then s else make_ready i s in
      let b = if awake then s else a in
      let w = if-Keeps early s (make_ready i s) v (make_ready-Keeps i s v) in
      if-Keeps (not k.used) s b v (if-Keeps awake s a v w)

  pub sleepers-Keeps : (now : ℕ) (s : Sched) → Keeps o s → Keeps o (sched_try_wake_sleepers now s)
  unfolding sched_try_wake_sleepers
  sleepers-Keeps now s v =
      for_range_inv (λ _ t. Keeps o t) (wake_due now) 0 max_tasks
        (λ k t low high h. wake_due-Keeps now k t h) max_tasks s refl v

  wake_member-Keeps : (q i : ℕ) (s : Sched) → Keeps o s → Keeps o (wake_member q i s)
  unfolding wake_member
  wake_member-Keeps q i s v =
      if-Keeps (bits_test (waitq_at s q) i) (sched_wake_slot i s) s (wake_slot-Keeps i s v) v

  pub wake_members-Keeps : (q : ℕ) (s : Sched) → Keeps o s → Keeps o (wake_members q s)
  unfolding wake_members
  wake_members-Keeps q s v =
      for_range_inv (λ _ t. Keeps o t) (wake_member q) 1 max_tasks
        (λ k t low high h. wake_member-Keeps q k t h) (max_tasks - 1) s refl v

  pub wake_all-Keeps : (q : Option ℕ) (s : Sched) → Keeps o s → Keeps o (sched_waitq_wake_all q s)
  unfolding sched_waitq_wake_all
  wake_all-Keeps none s v = v
  wake_all-Keeps (some q) s v = wake_members-Keeps q s v

  pub wake_one-Keeps : (q : Option ℕ) (s : Sched) → Keeps o s → Keeps o (sched_waitq_wake_one q s)
  unfolding sched_waitq_wake_one
  wake_one-Keeps none s v = v
  wake_one-Keeps (some q) s v =
      option-Keeps (find_from (λ i. bits_test (waitq_at s q) i) (max_tasks - 1) 1) s
        (λ i. sched_wake_slot i s) v (λ i. wake_slot-Keeps i s v)

  sleep_on-Keeps :
      (q timeout_ticks i : ℕ) (s : Sched)
      → Keeps o s
      → Keeps o (waitq_sleep_slot q timeout_ticks i s)
  unfolding waitq_sleep_slot sched_runq_del
  sleep_on-Keeps q timeout_ticks i s v =
      let wake = if timeout_ticks == 0 then 0 else add32 s.ticks timeout_ticks in
      let f = λ (k : Task). record k {
        waitq = some q;
        state = blocked;
        wake_tick = wake;
        quantum_used = 0;
      } in
      let t = sched_detach_waitq i s in
      let u = put_task i f (put_waitq q (λ b. bits_set b i) t) in
      if-Keeps (task_at s i).is_idle s
        (sched_mark_resched_all (sched_runq_del (task_at s i).run_cpu i u)) v
        (put-Keeps i f t (λ x. absurd (omega (arith, x))) (detach-Keeps i s v))

  pub waitq_sleep-Keeps :
      (q : Option ℕ) (timeout_ticks cpu : ℕ) (s : Sched)
      → Keeps o s
      → Keeps o (sched_waitq_sleep_locked q timeout_ticks cpu s)
  unfolding sched_waitq_sleep_locked
  waitq_sleep-Keeps none timeout_ticks cpu s v = v
  waitq_sleep-Keeps (some q) timeout_ticks cpu s v =
      option-Keeps (sched_current_slot cpu s) s (λ i. waitq_sleep_slot q timeout_ticks i s) v
        (λ i. sleep_on-Keeps q timeout_ticks i s v)

  pub clear-Keeps : (i : ℕ) (s : Sched) → Keeps o s → Keeps o (sched_clear_task i s)
  unfolding sched_clear_task
  clear-Keeps i s v = put-Keeps i (λ k. zero_task) s (λ x. absurd (omega (arith, x))) v

  pub free-Keeps : (i : ℕ) (s : Sched) → Keeps o s → Keeps o (sched_stack_free_locked i s)
  unfolding sched_stack_free_locked
  free-Keeps i s v =
      let c = (task_at s i).stack_ctx in
      let f = λ (t : Task). record t { stack_ctx = record t.stack_ctx { valid = false } } in
      let freed =
        put_task i f (record s { stack_bitmap = bits_clear s.stack_bitmap c.pool_slot }) in
      let a = if ltb c.pool_slot s.stack_reserved then s else freed in
      let b = if leb stack_slots c.pool_slot then s else a in
      let w = put-Keeps i f s (λ x. (x, refl, refl)) v in
      if-Keeps (not c.valid) s b v (
        if-Keeps (leb stack_slots c.pool_slot) s a v
          (if-Keeps (ltb c.pool_slot s.stack_reserved) s freed v w))

  pub alloc-Keeps : (i : ℕ) (s : Sched) → Keeps o s → Keeps o (sched_stack_alloc_locked i s).0
  unfolding sched_stack_alloc_locked
  alloc-Keeps i s v =
      elim (Option-cases (
        find_from (λ k. not (bits_test s.stack_bitmap k)) (stack_slots - s.stack_reserved)
          s.stack_reserved)) [
            | inl e ↦ rw (e, sched_stack_alloc_locked) v
            | inr (m, e) ↦
                rw (e, sched_stack_alloc_locked)
                  (put-Keeps i (λ t. record t { stack_ctx = fresh_stack m }) s
                    (λ x. (x, refl, refl)) v)
          ]
