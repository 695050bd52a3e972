-- ===== src/Sched/Task/Inv/Vfork.antt =====
-- `sched_vfork` keeps the queues right: the child enters the run queue of the processor, and the
-- parent waits on the queue of its own children.
use octans.Prelude.{
  ℕ, ◌<◌, ◌≡◌, ◌≢◌, refl, sym, ap, ◌∙◌, subst, length-set, Bool, true, false, not, ◌==◌, ◌-◌, ◌||◌,
  if◌then◌else◌, arith, inl, inr, Bool-cases, Option-cases, add32, find_from, find_from-some,
  get_or-set_ne, bits_set, bits_test,
}
use octans.Sched.Task.State.{
  Task, Sched, max_tasks, stack_slots, no_bits, zero_task, task_at, put_task, current_at,
}
use octans.Sched.Task.Queue.{put_waitq, sched_current_slot, sched_runq_add, sched_waitq_init_locked}
use octans.Sched.Task.Slots.{
  boot_ctx, fresh_stack, sched_stack_alloc_locked, sched_stack_prepare_bootstrap_locked,
  sched_clear_task, sched_alloc_slot,
}
use octans.Sched.Fd.Table.{sched_fd_table_clone}
use octans.Sched.Task.Vfork.{
  UserFrame, self_ctx, vfork_fields, vfork_named, unusable, resumes, prepare_user, vfork_give_up,
  vfork_run, on_parent, on_child, on_clone, clone_tasks, on_stack, vfork_slot, vfork_caller,
  sched_vfork,
}
use octans.Sched.Task.Inv.Sound.{Agrees, IsSound, SoundBut}
use octans.Sched.Task.Inv.Moves.{but_put}
use octans.Sched.Task.Inv.Wake.{touch-IsSound, settle_ready}
use octans.Sched.Task.Inv.Sleep.{current_lem, sched_waitq_sleep_locked-IsSound}
use octans.Sched.Task.Inv.End.{put_lem, but_reset, but_free, clear-IsSound}
use octans.Sched.Task.Inv.Spawn.{IsFresh, but_unused}

-- The write changes nothing that the queues tell of.
abbrev pub IsQuiet : (Task → Task) → Type 0
IsQuiet f =
    (k : Task)
    → ((f k).used ≡ k.used)
      × ((f k).state ≡ k.state)
      × ((f k).run_cpu ≡ k.run_cpu)
      × ((f k).waitq ≡ k.waitq)
      × ((f k).is_idle ≡ k.is_idle)
      × ((f k).entry ≡ k.entry)

-- While the child in the slot `i` is made: it stands in no queue yet, and the caller runs in `self`.
record Forked (cpu self i : ℕ) (s : Sched) : Type 0 where
  pub but : SoundBut i (λ c. false) (λ q. false) s
  pub fresh : IsFresh i (task_at s i)
  pub here : current_at s cpu ≡ self

-- One of two answers, by the state that it leaves.
either-IsSound :
    (test : Bool) (x y : Sched × Bool)
    → IsSound x.0
    → IsSound y.0
    → IsSound (if test then x else y).0
either-IsSound true x y a b = a
either-IsSound false x y a b = b

-- What the queues say of a task stays true when a quiet write changes it.
quiet-Agrees :
    (j : ℕ) (f : Task → Task) (s : Sched)
    → IsQuiet f
    → task_at (put_task j f s) j ≡ f (task_at s j)
    → Agrees s.tasks s.runq s.waitqs s.online j
    → Agrees (put_task j f s).tasks s.runq s.waitqs s.online j
quiet-Agrees j f s quiet now a =
    let (used, state, home, out, idle, entry) = quiet (task_at s j) in
    record {
      runs = λ c hc. rw (now, used, state, home) (a.runs c hc);
      waits = λ q hq. rw (now, out) (a.waits q hq);
      may = λ q e.
          let m = a.may q (sym out ∙ ap (λ (x : Task). x.waitq) (sym now) ∙ e) in
          rw now (record {
            in_use = used ∙ m.in_use;
            asleep = rw state m.asleep;
            inside = m.inside;
            own = m.own;
          });
      root =
          λ u. rw (now, idle, entry) (a.root (sym used ∙ ap (λ (x : Task). x.used) (sym now) ∙ u));
    }

module _ (cpu self i : ℕ) (low : 0 < i) (hi : i < max_tasks) (hs : self < max_tasks)
    (apart : i ≢ self) where
  -- A write to the child, and one to another task.
  put-Forked :
      (f : Task → Task) (s : Sched)
      → IsQuiet f
      → Forked cpu self i s
      → Forked cpu self i (put_task i f s)
  put-Forked f s quiet v =
      let k = task_at s i in
      let (used, state, home, out, idle, entry) = quiet k in
      let (u, r, w, kept) = v.fresh in
      record {
        but = but_put i (λ c. false) (λ q. false) s f v.but;
        fresh =
            rw (put_lem i f s k v.but.shape.tasks_len hi refl, idle, entry)
              (used ∙ u, state ∙ r, out ∙ w, kept);
        here = v.here;
      }

  put_self-Forked :
      (f : Task → Task) (s : Sched)
      → IsQuiet f
      → Forked cpu self i s
      → Forked cpu self i (put_task self f s)
  put_self-Forked f s quiet v =
      let k = task_at s self in
      let (used, state, home, out, idle, entry) = quiet k in
      let b = v.but in
      let now = put_lem self f s k b.shape.tasks_len hs refl in
      let there = get_or-set_ne s.tasks self i (f k) zero_task (λ e. apart (sym e)) in
      record {
        but = record {
          shape = record {
            tasks_len = length-set s.tasks self _ ∙ b.shape.tasks_len;
            runq_len = b.shape.runq_len;
            runq_rows = b.shape.runq_rows;
            waitqs_len = b.shape.waitqs_len;
            wait_rows = b.shape.wait_rows;
          };
          agree = λ j hj ne. elim (Bool-cases (self == j)) [
            | inl e ↦
                let same : self ≡ j = ground arith in
                subst (λ (n : ℕ). Agrees (put_task self f s).tasks s.runq s.waitqs s.online n) same
                  (quiet-Agrees self f s quiet now (b.agree self hs apart))
            | inr e ↦
                let other =
                  get_or-set_ne s.tasks self j (f k) zero_task
                    (λ x. absurd (ground (arith, e, x))) in
                let a = b.agree j hj ne in
                record {
                  runs = λ c hc. rw other (a.runs c hc);
                  waits = λ q hq. rw other (a.waits q hq);
                  may = rw other (a.may);
                  root = rw other (a.root);
                }
          ];
          at_run = b.at_run;
          at_wait = b.at_wait;
        };
        fresh = rw there (v.fresh);
        here = v.here;
      }

  -- A call that may have failed, without a change.
  Forked-if :
      (fails : Bool) (s t : Sched)
      → Forked cpu self i s
      → Forked cpu self i t
      → Forked cpu self i (if fails then s else t)
  Forked-if true s t a b = a
  Forked-if false s t a b = b

  give_up-IsSound : (s : Sched) → Forked cpu self i s → IsSound (vfork_give_up i s)
  give_up-IsSound s v = clear-IsSound i _ (but_free i (λ c. false) (λ q. false) s v.but) low hi

  -- The child enters the run queue, and the parent goes to sleep.
  vfork_run-IsSound : (s : Sched) → Forked cpu self i s → IsSound (vfork_run cpu self i s)
  unfolding vfork_run
  vfork_run-IsSound s v =
      let k = task_at s i in
      let added =
        settle_ready i k.run_cpu (λ c. false) s k v.but refl hi v.fresh refl
          (λ c e. absurd (distinct (sym e))) in
      let held = record s { snapshot_valid = true; snapshot_child_tid = k.tid } in
      sched_waitq_sleep_locked-IsSound self 0 cpu (sched_runq_add k.run_cpu i held) added
        (omega (arith, v.but.shape.waitqs_len, hs)) (λ h. sym v.here)
    where
      distinct : true ≢ false
      distinct e = absurd cc

  on_parent-IsSound :
      (p : Sched × Bool) → Forked cpu self i p.0 → IsSound (on_parent cpu self i p).0
  unfolding on_parent
  on_parent-IsSound (s, true) v = vfork_run-IsSound s v
  on_parent-IsSound (s, false) v =
      touch-IsSound self (λ t. record t { vfork_resume_valid = false }) (vfork_give_up i s)
        (give_up-IsSound s v) hs (refl, refl, refl, refl, refl, refl)

  on_child-IsSound :
      (m : UserFrame) (p : Sched × Bool)
      → Forked cpu self i p.0
      → IsSound (on_child m cpu self i p).0
  unfolding on_child
  on_child-IsSound m (s, true) v = on_parent-IsSound (prepare_user m self s) (
      Forked-if (not (task_at s self).stack_ctx.valid || unusable m) s (put_task self (resumes m) s)
        v (put_self-Forked (resumes m) s (λ k. (refl, refl, refl, refl, refl, refl)) v))
  on_child-IsSound m (s, false) v = give_up-IsSound s v

  on_clone-IsSound :
      (m : UserFrame) (p : Sched × Bool)
      → Forked cpu self i p.0
      → IsSound (on_clone m cpu self i p).0
  unfolding on_clone
  on_clone-IsSound m (s, true) v = on_child-IsSound m (prepare_user m i s) (
      Forked-if (not (task_at s i).stack_ctx.valid || unusable m) s (put_task i (resumes m) s) v
        (put-Forked (resumes m) s (λ k. (refl, refl, refl, refl, refl, refl)) v))
  on_clone-IsSound m (s, false) v = give_up-IsSound s v

  clone_tasks-Forked :
      (s : Sched) → Forked cpu self i s → Forked cpu self i (clone_tasks self i s).0
  unfolding clone_tasks
  clone_tasks-Forked s v =
      let st =
        (sched_fd_table_clone (record { slot = (task_at s i).fds; shared = s.pipes })
          (task_at s self).fds).0 in
      put-Forked (λ k. record k { fds = st.slot }) (record s { pipes = st.shared })
        (λ k. (refl, refl, refl, refl, refl, refl))
        (record { but = v.but; fresh = v.fresh; here = v.here })

  on_stack-IsSound :
      (m : UserFrame) (p : Sched × Bool)
      → Forked cpu self i p.0
      → IsSound (on_stack m cpu self i p).0
  unfolding on_stack sched_stack_prepare_bootstrap_locked
  on_stack-IsSound m (s, true) v =
      let f = λ (t : Task). record t { stack_ctx = boot_ctx t.stack_ctx } in
      on_clone-IsSound m _ (
        clone_tasks-Forked (put_task i f s)
          (put-Forked f s (λ k. (refl, refl, refl, refl, refl, refl)) v))
  on_stack-IsSound m (s, false) v = clear-IsSound i s v.but low hi

  stack_alloc-Forked :
      (s : Sched) → Forked cpu self i s → Forked cpu self i (sched_stack_alloc_locked i s).0
  unfolding sched_stack_alloc_locked
  stack_alloc-Forked s v =
      elim (Option-cases (
        find_from (λ k. not (bits_test s.stack_bitmap k)) (stack_slots - s.stack_reserved)
          s.stack_reserved)) [
            | inl e ↦ rw (e, sched_stack_alloc_locked) v
            | inr (m, e) ↦
                let f = λ (t : Task). record t { stack_ctx = fresh_stack m } in
                let t = record s { stack_bitmap = bits_set s.stack_bitmap m } in
                rw (e, sched_stack_alloc_locked)
                  (put-Forked f t (λ k. (refl, refl, refl, refl, refl, refl))
                    (record { but = v.but; fresh = v.fresh; here = v.here }))
          ]

  vfork_named-Forked :
      (m : UserFrame) (s : Sched)
      → IsSound s
      → (task_at s i).used ≡ false
      → current_at s cpu ≡ self
      → Forked cpu self i (vfork_named m cpu self i s)
  unfolding vfork_named sched_clear_task sched_waitq_init_locked
  vfork_named-Forked m s v free here =
      let rb = λ (c : ℕ). false in
      let wb = λ (q : ℕ). false in
      let next = add32 s.next_tid 1 in
      let s1 = record s { next_tid = if next == 0 then 1 else next } in
      let zero = λ (k : Task). zero_task in
      let cleared = put_waitq i (λ b. no_bits) s1 in
      let f = vfork_fields m.child_entry cpu (task_at s self) s.next_tid in
      let b1 = but_reset i rb s1 (but_unused i s v hi free) hi in
      let b2 = but_put i rb wb cleared zero b1 in
      let b3 = but_reset i rb (put_task i zero cleared) b2 hi in
      let t = put_waitq i (λ b. no_bits) (put_task i zero cleared) in
      let now = put_lem i f t (task_at t i) b3.shape.tasks_len hi refl in
      record {
        but = but_put i rb wb t f b3;
        fresh = rw now (refl, refl, refl, (ground arith, ground arith));
        here = here;
      }

vfork_slot-IsSound :
    (m : UserFrame) (abi_addr cpu self : ℕ) (s : Sched)
    → IsSound s
    → self < max_tasks
    → (task_at s self).used ≡ true
    → current_at s cpu ≡ self
    → IsSound (vfork_slot m abi_addr cpu self s).0
unfolding vfork_slot sched_alloc_slot
vfork_slot-IsSound m abi_addr cpu self s v hs used here =
    let f =
      λ (k : Task). record k { syscall_abi_addr = abi_addr; stack_ctx = self_ctx m k.stack_ctx } in
    let t = put_task self f s in
    let w = touch-IsSound self f s v hs (refl, refl, refl, refl, refl, refl) in
    let now : task_at t self ≡ f (task_at s self) = put_lem self f s _ v.shape.tasks_len hs refl in
    let free = λ (j : ℕ). not (task_at t j).used in
    elim (Option-cases (find_from free (max_tasks - 1) 1)) [
      | inl e ↦ rw (e, vfork_slot) w
      | inr (i, e) ↦
          let (unused, low, hi, _) = find_from-some free (max_tasks - 1) 1 i e in
          let idle : (task_at t i).used ≡ false = ground arith in
          let apart : i ≢ self = λ same. distinct (
            sym (ap (λ (k : Task). k.used) now ∙ used)
            ∙ ap (λ (j : ℕ). (task_at t j).used) (sym same)
            ∙ idle) in
          rw (e, vfork_slot)
            (on_stack-IsSound cpu self i low hi hs apart m _ (
              stack_alloc-Forked cpu self i low hi hs apart _
                (vfork_named-Forked cpu self i low hi hs apart m t w idle here)))
    ]
  where
    distinct : true ≢ false
    distinct e = absurd cc

pub sched_vfork-IsSound :
    (m : UserFrame) (abi_addr cpu : ℕ) (s : Sched)
    → IsSound s
    → IsSound (sched_vfork m abi_addr cpu s).0
unfolding sched_vfork vfork_caller
sched_vfork-IsSound m abi_addr cpu s v = elim (Option-cases (sched_current_slot cpu s)) [
  | inl e ↦ rw (e, sched_vfork) v
  | inr (self, e) ↦
      let (hs, used, here) = current_lem cpu self s e in
      let k = task_at s self in
      rw (e, sched_vfork)
        (either-IsSound (k.is_idle || not k.stack_ctx.valid || s.snapshot_valid) (s, false) _ v
          (vfork_slot-IsSound m abi_addr cpu self s v hs used here))
]
