-- ===== src/Sched/Task/Inv/Spawn.antt =====
-- Starting a task and waiting for one keep the queues right.
use octans.Prelude.{
  ℕ, ◌-◌, ◌<◌, ◌≡◌, ◌≢◌, refl, sym, ◌∙◌, ℤ, pos, negsuc, List, Option, none, some, Bool, true,
  false, not, ◌==◌, ◌%◌, if◌then◌else◌, arith, inl, inr, Option-cases, ltb, leb, add32, bits_set,
  bits_test, find_from, find_from-some,
}
use octans.Sched.Fd.Table.{sched_fd_table_init_stdio}
use octans.Sched.Task.State.{
  Task, Sched, max_tasks, runnable, stack_slots, no_bits, task_at, put_task, current_at,
}
use octans.Sched.Task.Queue.{
  sched_cpu_cap, sched_cpu_normalize, put_waitq, sched_runq_del, sched_current_slot,
  sched_waitq_init_locked, sched_waitq_sleep_locked,
}
use octans.Sched.Task.Slots.{
  boot_ctx, fresh_stack, sched_stack_alloc_locked, sched_stack_prepare_bootstrap_locked,
  sched_stack_free_locked, sched_clear_task, sched_alloc_slot, to_i32, int_eq,
}
use octans.Sched.Task.Life.{
  with_fds, spawn_fields, spawn_start, spawn_named, spawn_finish, sched_spawn, reap_from,
  sched_try_reap_child, wait_slot, sched_waitpid,
}
use octans.Sched.Task.Inv.Sound.{waits_on, IsKept, IsSound, SoundBut}
use octans.Sched.Task.Inv.Moves.{but_open, but_put, but_ext}
use octans.Sched.Task.Inv.Wake.{settle_ready}
use octans.Sched.Task.Inv.Sleep.{current_lem, sched_waitq_sleep_locked-IsSound}
use octans.Sched.Task.Inv.End.{put_lem, but_reset, clear-IsSound, sched_try_reap_child-IsSound}

if-current :
    (test : Bool) (a b : Sched) (c : List ℕ)
    → a.current ≡ c
    → b.current ≡ c
    → (if test then a else b).current ≡ c
if-current true a b c x y = x
if-current false a b c x y = y

free-current : (i : ℕ) (s : Sched) → (sched_stack_free_locked i s).current ≡ s.current
unfolding sched_stack_free_locked
free-current i s =
    let c = (task_at s i).stack_ctx in
    if-current (not c.valid) _ _ s.current refl (
      if-current (leb stack_slots c.pool_slot) _ _ s.current refl
        (if-current (ltb c.pool_slot s.stack_reserved) _ _ s.current refl refl))

-- Reaping a child leaves what the processors run.
reap-current :
    (parent_tid pid : ℤ) (s : Sched) → (sched_try_reap_child parent_tid pid s).0.current ≡ s.current
unfolding sched_try_reap_child sched_clear_task sched_runq_del
reap-current parent_tid pid s =
    elim (Option-cases (reap_from parent_tid pid (max_tasks - 1) 1 false s).0) [
      | inl e ↦ rw (e, sched_try_reap_child) refl
      | inr (i, e) ↦
          rw (e, sched_try_reap_child) (free-current i (sched_runq_del (task_at s i).run_cpu i s))
    ]

-- One of two results of a call, by the state that it leaves.
pub if_wait-IsSound :
    (test : Bool) (x y : Sched × ℤ × Option ℕ)
    → (test ≡ true → IsSound x.0)
    → (test ≡ false → IsSound y.0)
    → IsSound (if test then x else y).0
if_wait-IsSound true x y a b = a refl
if_wait-IsSound false x y a b = b refl

wait_slot-IsSound :
    (pid : ℤ) (options cpu i : ℕ) (s : Sched)
    → IsSound s
    → i ≡ current_at s cpu
    → i < max_tasks
    → IsSound (wait_slot pid options cpu i s).0
unfolding wait_slot
wait_slot-IsSound pid options cpu i s v same hi =
    let parent_tid = to_i32 (task_at s i).tid in
    let r = sched_try_reap_child parent_tid pid s in
    let w = sched_try_reap_child-IsSound parent_tid pid s v in
    if_wait-IsSound (task_at s i).is_idle (s, negsuc 0, none) _ (λ e. v)
      (λ e.
        if_wait-IsSound (not (int_eq r.1 (pos 0))) r _ (λ f. w)
          (λ f.
            if_wait-IsSound (options % 2 == 1) (r.0, pos 0, r.2)
              (sched_waitq_sleep_locked (some i) 0 cpu r.0, negsuc 1, r.2) (λ g. w)
              (λ g.
                sched_waitq_sleep_locked-IsSound i 0 cpu r.0 w (omega (arith, w.shape.waitqs_len))
                  (λ h. same ∙ rw (reap-current parent_tid pid s) refl))))

pub sched_waitpid-IsSound :
    (pid : ℤ) (options cpu : ℕ) (s : Sched)
    → IsSound s
    → IsSound (sched_waitpid pid options cpu s).0
unfolding sched_waitpid
sched_waitpid-IsSound pid options cpu s v = elim (Option-cases (sched_current_slot cpu s)) [
  | inl e ↦ rw (e, sched_waitpid) v
  | inr (i, e) ↦
      let (hi, used, same) = current_lem cpu i s e in
      rw (e, sched_waitpid) (wait_slot-IsSound pid options cpu i s v (sym same) hi)
]

-- A free slot that the search found stands in no queue.
pub but_unused :
    (i : ℕ) (s : Sched)
    → IsSound s
    → i < max_tasks
    → (task_at s i).used ≡ false
    → SoundBut i (λ c. false) (λ q. false) s
but_unused i s v hi free =
    but_ext i _ _ s (λ c. false) (λ q. false) (but_open s i v hi) (λ c hc. rw free (ground arith))
      (λ q hq. elim (Option-cases (task_at s i).waitq) [
        | inl e ↦ rw (e, waits_on) refl
        | inr (r, e) ↦
            let used = ((v.agree i hi).may r e).in_use in absurd (distinct (sym used ∙ free))
      ])
  where
    distinct : true ≢ false
    distinct e = absurd cc

-- The task that starts, with its stack: what the rest of `sched_spawn` makes of it.
spawn_start-IsSound :
    (i : ℕ) (s : Sched) (k : Task)
    → SoundBut i (λ c. false) (λ q. false) s
    → task_at s i ≡ k
    → 0 < i
    → i < max_tasks
    → (k.used ≡ true) × (k.state ≡ runnable) × (k.waitq ≡ none) × IsKept i k
    → IsSound (spawn_start i s)
unfolding sched_stack_prepare_bootstrap_locked
spawn_start-IsSound i s k b now low hi facts =
    let rb = λ (c : ℕ). false in
    let wb = λ (q : ℕ). false in
    let cpu = sched_cpu_normalize s (s.spawn_cpu_rr % sched_cpu_cap s) in
    let f1 = λ (t : Task). record t { stack_ctx = boot_ctx t.stack_ctx } in
    let s1 = put_task i f1 s in
    let f2 = λ (t : Task). record t { run_cpu = cpu } in
    let s2 = put_task i f2 (record s1 { spawn_cpu_rr = add32 s.spawn_cpu_rr 1 }) in
    let std = sched_fd_table_init_stdio (record { slot = (task_at s2 i).fds; shared = s2.pipes }) in
    let f3 = λ (t : Task). record t { fds = std.slot } in
    let b1 = but_put i rb wb s f1 b in
    let b2 = but_put i rb wb s1 f2 b1 in
    let b3 = but_put i rb wb s2 f3 b2 in
    let e1 = put_lem i f1 s k b.shape.tasks_len hi now in
    let e2 = put_lem i f2 s1 (f1 k) b1.shape.tasks_len hi e1 in
    let e3 = put_lem i f3 s2 (f2 (f1 k)) b2.shape.tasks_len hi e2 in
    settle_ready i cpu rb (with_fds i sched_fd_table_init_stdio s2) (f3 (f2 (f1 k))) b3 e3 hi facts
      refl (λ c e. absurd (distinct (sym e)))
  where
    distinct : true ≢ false
    distinct e = absurd cc

-- A fresh task: it is in use, runnable, waits nowhere and is not the root.
abbrev pub IsFresh : ℕ → Task → Type 0
IsFresh i k = (k.used ≡ true) × (k.state ≡ runnable) × (k.waitq ≡ none) × IsKept i k

-- The slot with the writes before the stack is allocated, and with a stack.
pub record Named (i : ℕ) (s : Sched) : Type 0 where
  pub but : SoundBut i (λ c. false) (λ q. false) s
  pub fresh : IsFresh i (task_at s i)

pub spawn_named-Named :
    (name : List ℕ) (entry arg cpu i : ℕ) (s : Sched)
    → IsSound s
    → 0 < i
    → i < max_tasks
    → (task_at s i).used ≡ false
    → Named i (spawn_named name entry arg cpu i s)
unfolding spawn_named sched_waitq_init_locked
spawn_named-Named name entry arg cpu i s v low hi free =
    let rb = λ (c : ℕ). false in
    let wb = λ (q : ℕ). false in
    let parent : Option Task = elim (sched_current_slot cpu s) [
      | none ↦ none
      | some p ↦ some (task_at s p)
    ] in
    let next = add32 s.next_tid 1 in
    let s1 = record s { next_tid = if next == 0 then 1 else next } in
    let t = put_waitq i (λ b. no_bits) s1 in
    let f = spawn_fields name entry arg parent s.next_tid in
    let b = but_reset i rb s1 (but_unused i s v hi free) hi in
    let now = put_lem i f t (task_at s i) b.shape.tasks_len hi refl in
    record {
      but = but_put i rb wb t f b;
      fresh = rw now (refl, refl, refl, (ground arith, ground arith));
    }

pub sched_stack_alloc-Named :
    (i : ℕ) (s : Sched) → i < max_tasks → Named i s → Named i (sched_stack_alloc_locked i s).0
unfolding sched_stack_alloc_locked
sched_stack_alloc-Named i s hi n =
    elim (Option-cases (
      find_from (λ k. not (bits_test s.stack_bitmap k)) (stack_slots - s.stack_reserved)
        s.stack_reserved)) [
          | inl e ↦ rw (e, sched_stack_alloc_locked) n
          | inr (m, e) ↦
              let f = λ (t : Task). record t { stack_ctx = fresh_stack m } in
              let t = record s { stack_bitmap = bits_set s.stack_bitmap m } in
              let now = put_lem i f t (task_at s i) n.but.shape.tasks_len hi refl in
              rw (e, sched_stack_alloc_locked)
                (record {
                  but = but_put i (λ c. false) (λ q. false) t f n.but;
                  fresh = rw now (n.fresh);
                })
        ]

spawn_finish-IsSound :
    (i : ℕ) (tid : ℤ) (p : Sched × Bool)
    → Named i p.0
    → 0 < i
    → i < max_tasks
    → IsSound (spawn_finish i tid p).0
unfolding spawn_finish
spawn_finish-IsSound i tid (s, true) n low hi =
    spawn_start-IsSound i s (task_at s i) n.but refl low hi n.fresh
spawn_finish-IsSound i tid (s, false) n low hi = clear-IsSound i s n.but low hi

pub sched_spawn-IsSound :
    (name : List ℕ) (entry : Option ℕ) (arg cpu : ℕ) (s : Sched)
    → IsSound s
    → IsSound (sched_spawn name entry arg cpu s).0
unfolding sched_spawn sched_alloc_slot
sched_spawn-IsSound name none arg cpu s v = v
sched_spawn-IsSound name (some entry) arg cpu s v =
    let free = λ (i : ℕ). not (task_at s i).used in
    elim (Option-cases (find_from free (max_tasks - 1) 1)) [
      | inl e ↦ rw (e, sched_spawn) v
      | inr (i, e) ↦
          let (unused, low, high, _) = find_from-some free (max_tasks - 1) 1 i e in
          let n = spawn_named-Named name entry arg cpu i s v low high (ground arith) in
          rw (e, sched_spawn)
            (spawn_finish-IsSound i (to_i32 s.next_tid)
              (sched_stack_alloc_locked i (spawn_named name entry arg cpu i s))
              (sched_stack_alloc-Named i _ high n) low high)
    ]
