-- ===== src/Sched/Task/Inv/KeepsStart.antt =====
-- Starting a task and `vfork` keep who runs.
use octans.Prelude.{
  ℕ, ◌-◌, ◌%◌, ◌≡◌, refl, ap, ◌∙◌, ℤ, List, Option, none, some, Bool, true, false, ◌||◌, not,
  if◌then◌else◌, arith, inl, inr, add32, find_from, find_from-some, Option-cases,
}
use octans.Sched.Fd.Table.{sched_fd_table_init_stdio, sched_fd_table_clone}
use octans.Sched.Task.State.{Task, Sched, max_tasks, runnable, zero_task, task_at, put_task}
use octans.Sched.Task.Queue.{
  sched_cpu_cap, sched_cpu_normalize, sched_runq_add, sched_current_slot, sched_waitq_init_locked,
}
use octans.Sched.Task.Slots.{
  boot_ctx, sched_stack_alloc_locked, sched_stack_free_locked, sched_stack_prepare_bootstrap_locked,
  sched_clear_task, sched_alloc_slot, to_i32,
}
use octans.Sched.Task.Life.{spawn_fields, spawn_start, spawn_named, spawn_finish, sched_spawn}
use octans.Sched.Task.Vfork.{
  UserFrame, self_ctx, vfork_fields, vfork_named, unusable, resumes, prepare_user, vfork_give_up,
  vfork_run, on_parent, on_child, on_clone, clone_tasks, on_stack, vfork_slot, vfork_caller,
  sched_vfork,
}
use octans.Sched.Task.Inv.Sound.{IsSound}
use octans.Sched.Task.Inv.Spawn.{Named, spawn_named-Named, sched_stack_alloc-Named}
use octans.Sched.Task.Inv.Keeps.{
  Keeps, set_seen, put-Keeps, if-Keeps, waitq_sleep-Keeps, clear-Keeps, free-Keeps, alloc-Keeps,
}

-- A write that leaves the state.
state_seen :
    (i : ℕ) (f : Task → Task) (s : Sched)
    → (f (task_at s i)).state ≡ (task_at s i).state
    → (task_at (put_task i f s) i).state ≡ (task_at s i).state
state_seen i f s same = elim (set_seen s.tasks i i (f (task_at s i)) zero_task) [
  | inl e ↦ ap (λ (k : Task). k.state) e
  | inr (_, e) ↦ ap (λ (k : Task). k.state) e ∙ same
]

module _ (o : Sched) where
  spawn_start-Keeps :
      (i : ℕ) (s : Sched) → (task_at s i).state ≡ runnable → Keeps o s → Keeps o (spawn_start i s)
  unfolding sched_stack_prepare_bootstrap_locked sched_runq_add
  spawn_start-Keeps i s ready v =
      let cpu = sched_cpu_normalize s (s.spawn_cpu_rr % sched_cpu_cap s) in
      let f1 = λ (t : Task). record t { stack_ctx = boot_ctx t.stack_ctx } in
      let s1 = put_task i f1 s in
      let f2 = λ (t : Task). record t { run_cpu = cpu } in
      let s2 = put_task i f2 (record s1 { spawn_cpu_rr = add32 s.spawn_cpu_rr 1 }) in
      let std =
        sched_fd_table_init_stdio (record { slot = (task_at s2 i).fds; shared = s2.pipes }) in
      let f3 = λ (t : Task). record t { fds = std.slot } in
      let still = state_seen i f1 s refl in
      put-Keeps o i f3 s2 (λ x. (x, refl, refl))
        (put-Keeps o i f2 s1 (λ x. absurd (omega (arith, x, still, ready)))
          (put-Keeps o i f1 s (λ x. (x, refl, refl)) v))

  spawn_finish-Keeps :
      (i : ℕ) (tid : ℤ) (p : Sched × Bool)
      → Named i p.0
      → Keeps o p.0
      → Keeps o (spawn_finish i tid p).0
  unfolding spawn_finish
  spawn_finish-Keeps i tid (s, true) n v = spawn_start-Keeps i s (n.fresh.1) v
  spawn_finish-Keeps i tid (s, false) n v = clear-Keeps o i s v

  spawn_named-Keeps :
      (name : List ℕ) (entry arg cpu i : ℕ) (s : Sched)
      → Keeps o s
      → Keeps o (spawn_named name entry arg cpu i s)
  unfolding spawn_named sched_waitq_init_locked
  spawn_named-Keeps name entry arg cpu i s v =
      let parent : Option Task = elim (sched_current_slot cpu s) [
        | none ↦ none
        | some p ↦ some (task_at s p)
      ] in
      put-Keeps o i (spawn_fields name entry arg parent s.next_tid) s
        (λ x. absurd (omega (arith, x))) v

  pub spawn-Keeps :
      (name : List ℕ) (entry : Option ℕ) (arg cpu : ℕ) (s : Sched)
      → IsSound s
      → Keeps o s
      → Keeps o (sched_spawn name entry arg cpu s).0
  unfolding sched_spawn sched_alloc_slot
  spawn-Keeps name none arg cpu s sound v = v
  spawn-Keeps name (some entry) arg cpu s sound v =
      let free = λ (i : ℕ). not (task_at s i).used in
      elim (Option-cases (find_from free (max_tasks - 1) 1)) [
        | inl e ↦ rw (e, sched_spawn) v
        | inr (i, e) ↦
            let (unused, low, high, _) = find_from-some free (max_tasks - 1) 1 i e in
            let n = spawn_named-Named name entry arg cpu i s sound low high (ground arith) in
            let t = spawn_named name entry arg cpu i s in
            rw (e, sched_spawn)
              (spawn_finish-Keeps i (to_i32 s.next_tid) (sched_stack_alloc_locked i t)
                (sched_stack_alloc-Named i t high n)
                (alloc-Keeps o i t (spawn_named-Keeps name entry arg cpu i s v)))
      ]

  give_up-Keeps : (i : ℕ) (s : Sched) → Keeps o s → Keeps o (vfork_give_up i s)
  give_up-Keeps i s v = clear-Keeps o i (sched_stack_free_locked i s) (free-Keeps o i s v)

  on_parent-Keeps :
      (cpu self i : ℕ) (p : Sched × Bool) → Keeps o p.0 → Keeps o (on_parent cpu self i p).0
  unfolding on_parent vfork_run sched_runq_add
  on_parent-Keeps cpu self i (s, true) v =
      let held = record s { snapshot_valid = true; snapshot_child_tid = (task_at s i).tid } in
      waitq_sleep-Keeps o (some self) 0 cpu (sched_runq_add (task_at s i).run_cpu i held) v
  on_parent-Keeps cpu self i (s, false) v =
      put-Keeps o self (λ t. record t { vfork_resume_valid = false }) (vfork_give_up i s)
        (λ x. (x, refl, refl)) (give_up-Keeps i s v)

  prepare-Keeps : (m : UserFrame) (j : ℕ) (s : Sched) → Keeps o s → Keeps o (prepare_user m j s).0
  prepare-Keeps m j s v =
      if-Keeps o (not (task_at s j).stack_ctx.valid || unusable m) s (put_task j (resumes m) s) v
        (put-Keeps o j (resumes m) s (λ x. (x, refl, refl)) v)

  on_child-Keeps :
      (m : UserFrame) (cpu self i : ℕ) (p : Sched × Bool)
      → Keeps o p.0
      → Keeps o (on_child m cpu self i p).0
  unfolding on_child
  on_child-Keeps m cpu self i (s, true) v =
      on_parent-Keeps cpu self i (prepare_user m self s) (prepare-Keeps m self s v)
  on_child-Keeps m cpu self i (s, false) v = give_up-Keeps i s v

  on_clone-Keeps :
      (m : UserFrame) (cpu self i : ℕ) (p : Sched × Bool)
      → Keeps o p.0
      → Keeps o (on_clone m cpu self i p).0
  unfolding on_clone
  on_clone-Keeps m cpu self i (s, true) v =
      on_child-Keeps m cpu self i (prepare_user m i s) (prepare-Keeps m i s v)
  on_clone-Keeps m cpu self i (s, false) v = give_up-Keeps i s v

  clone_tasks-Keeps : (self i : ℕ) (s : Sched) → Keeps o s → Keeps o (clone_tasks self i s).0
  unfolding clone_tasks
  clone_tasks-Keeps self i s v =
      let st =
        (sched_fd_table_clone (record { slot = (task_at s i).fds; shared = s.pipes })
          (task_at s self).fds).0 in
      put-Keeps o i (λ k. record k { fds = st.slot }) s (λ x. (x, refl, refl)) v

  on_stack-Keeps :
      (m : UserFrame) (cpu self i : ℕ) (p : Sched × Bool)
      → Keeps o p.0
      → Keeps o (on_stack m cpu self i p).0
  unfolding on_stack sched_stack_prepare_bootstrap_locked
  on_stack-Keeps m cpu self i (s, true) v =
      let f = λ (t : Task). record t { stack_ctx = boot_ctx t.stack_ctx } in
      on_clone-Keeps m cpu self i (clone_tasks self i (put_task i f s))
        (clone_tasks-Keeps self i (put_task i f s) (put-Keeps o i f s (λ x. (x, refl, refl)) v))
  on_stack-Keeps m cpu self i (s, false) v = clear-Keeps o i s v

  vfork_named-Keeps :
      (m : UserFrame) (cpu self i : ℕ) (s : Sched)
      → Keeps o s
      → Keeps o (vfork_named m cpu self i s)
  unfolding vfork_named sched_clear_task sched_waitq_init_locked
  vfork_named-Keeps m cpu self i s v =
      let zero = λ (k : Task). zero_task in
      put-Keeps o i (vfork_fields m.child_entry cpu (task_at s self) s.next_tid) (put_task i zero s)
        (λ x. absurd (omega (arith, x))) (put-Keeps o i zero s (λ x. absurd (omega (arith, x))) v)

  vfork_slot-Keeps :
      (m : UserFrame) (abi_addr cpu self : ℕ) (s : Sched)
      → Keeps o s
      → Keeps o (vfork_slot m abi_addr cpu self s).0
  unfolding vfork_slot
  vfork_slot-Keeps m abi_addr cpu self s v =
      let f = λ (k : Task). record k {
        syscall_abi_addr = abi_addr;
        stack_ctx = self_ctx m k.stack_ctx;
      } in
      let t = put_task self f s in
      let w = put-Keeps o self f s (λ x. (x, refl, refl)) v in
      elim (Option-cases (sched_alloc_slot t)) [
        | inl e ↦ rw (e, vfork_slot) w
        | inr (i, e) ↦
            let n = vfork_named m cpu self i t in
            rw (e, vfork_slot)
              (on_stack-Keeps m cpu self i (sched_stack_alloc_locked i n)
                (alloc-Keeps o i n (vfork_named-Keeps m cpu self i t w)))
      ]

  either-Keeps :
      (test : Bool) (x y : Sched × Bool)
      → Keeps o x.0
      → Keeps o y.0
      → Keeps o (if test then x else y).0
  either-Keeps true x y a b = a
  either-Keeps false x y a b = b

  pub vfork-Keeps :
      (m : UserFrame) (abi_addr cpu : ℕ) (s : Sched)
      → Keeps o s
      → Keeps o (sched_vfork m abi_addr cpu s).0
  unfolding sched_vfork vfork_caller
  vfork-Keeps m abi_addr cpu s v = elim (Option-cases (sched_current_slot cpu s)) [
    | inl e ↦ rw (e, sched_vfork) v
    | inr (self, e) ↦
        let k = task_at s self in
        rw (e, sched_vfork)
          (either-Keeps (k.is_idle || not k.stack_ctx.valid || s.snapshot_valid) (s, false)
            (vfork_slot m abi_addr cpu self s) v (vfork_slot-Keeps m abi_addr cpu self s v))
  ]
