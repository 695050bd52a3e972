-- ===== src/Sched/Task/Inv/End.antt =====
-- Exiting, being killed and being waited for keep the queues right.
use octans.Prelude.{
  ℕ, ◌-◌, ◌<◌, ◌≡◌, ◌≢◌, refl, ap, sym, ◌∙◌, ℤ, pos, negsuc, Option, none, some, Bool, true, false,
  ◌&&◌, ◌||◌, not, ◌==◌, if◌then◌else◌, arith, inl, inr, Bool-cases, Option-cases, ltb, leb, length,
  ◌/◌, ◌%◌, get_or-replicate, test_bit-zero, find_from, find_from-some, bits_test, get_or-set_self,
}
use octans.Sched.Fd.Table.{sched_slot_close_all_fds}
use octans.Sched.Task.State.{
  Task, Sched, max_tasks, zombie, no_bits, stack_slots, task_at, put_task, zero_task,
}
use octans.Sched.Task.Queue.{
  put_waitq, sched_runq_del, sched_detach_waitq, sched_wake_slot, wake_members,
}
use octans.Sched.Task.Slots.{
  sched_stack_free_locked, sched_clear_task, sched_find_by_tid, sched_task_is_child_of,
}
use octans.Sched.Task.Life.{
  sched_vfork_restore_parent_user_locked, make_zombie, parent_of, exit_slot, sched_exit_code,
  sched_signal_wake_parent_locked, killed_code, sched_signal_terminate_slot_locked, reap_from,
  sched_try_reap_child,
}
use octans.Sched.Task.Inv.Sound.{is_queued, waits_on, Agrees, IsSound, SoundBut}
use octans.Sched.Task.Inv.Moves.{but_put, but_del, but_ext, but_waitq}
use octans.Sched.Task.Inv.Wake.{detach-Detached, settle_out, touch-IsSound}
use octans.Sched.Task.Inv.Ready.{sched_wake_slot-IsSound, wake_members-IsSound}
use octans.Sched.Task.Reap.{is_ended_child, reap_from_first}
use octans.Sched.Task.Inv.Run.{awake_lem, but_awake}
use octans.Sched.Task.Inv.Sleep.{if-IsSound, option-IsSound, current-IsSound, leave_runq}

-- The task that a write has changed.
pub put_lem :
    (i : ℕ) (f : Task → Task) (s : Sched) (k : Task)
    → length s.tasks ≡ max_tasks
    → i < max_tasks
    → task_at s i ≡ k
    → task_at (put_task i f s) i ≡ f k
put_lem i f s k len hi e =
    get_or-set_self s.tasks i (f (task_at s i)) zero_task (omega (arith, len)) ∙ ap f e

make_zombie-IsSound :
    (i code : ℕ) (s : Sched)
    → IsSound s
    → 0 < i
    → i < max_tasks
    → (task_at s i).used ≡ true
    → IsSound (make_zombie i code s)
unfolding make_zombie sched_vfork_restore_parent_user_locked
make_zombie-IsSound i code s v low hi used =
    let d = detach-Detached i s v hi in
    let t = sched_vfork_restore_parent_user_locked i (sched_detach_waitq i s) in
    let k0 = record (task_at s i) { waitq = none } in
    let rb = λ (c : ℕ). is_queued s.online c i (task_at s i) in
    let wb = λ (q : ℕ). false in
    let f1 = λ (k : Task). record k { vfork_child_active = false } in
    let t1 = put_task i f1 t in
    let closed =
      sched_slot_close_all_fds (record { slot = (task_at t1 i).fds; shared = t1.pipes }) in
    let f2 = λ (k : Task). record k { fds = closed.slot } in
    let t2 = put_task i f2 (record t1 { pipes = closed.shared }) in
    let f3 = λ (k : Task). record k {
      exit_code = code;
      state = zombie;
      wake_tick = 0;
      quantum_used = 0;
    } in
    let t3 = put_task i f3 t2 in
    let b1 = but_put i rb wb t f1 d.but in
    let b2 = but_put i rb wb t1 f2 b1 in
    let b3 = but_put i rb wb t2 f3 b2 in
    let e1 = put_lem i f1 t k0 d.but.shape.tasks_len hi d.task in
    let e2 = put_lem i f2 t1 (f1 k0) b1.shape.tasks_len hi e1 in
    let e3 = put_lem i f3 t2 (f2 (f1 k0)) b2.shape.tasks_len hi e2 in
    let home : (task_at s i).run_cpu ≡ (task_at t2 i).run_cpu =
      ap (λ (k : Task). k.run_cpu) (sym e2) in
    settle_out i (sched_runq_del (task_at t2 i).run_cpu i t3) (f3 (f2 (f1 k0)))
      (leave_runq i (task_at t2 i).run_cpu wb (task_at s i) t3 b3 home low hi) e3
      (λ c. ground arith) refl (λ u. (v.agree i hi).root used)

pub sched_find_by_tid-bound :
    (tid p : ℕ) (s : Sched) → sched_find_by_tid tid s ≡ some p → p < max_tasks
unfolding sched_find_by_tid
sched_find_by_tid-bound tid p s e = elim (Bool-cases (tid == 0)) [
  | inl x ↦ ground arith
  | inr x ↦
      let f = λ (i : ℕ). (task_at s i).used && (task_at s i).tid == tid in
      let found : find_from f (max_tasks - 1) 1 ≡ some p =
        skip_zero tid (find_from f (max_tasks - 1) 1) x ∙ e in
      let (_, _, high, _) = find_from-some f (max_tasks - 1) 1 p found in high
]
  where
    skip_zero : (tid : ℕ) (o : Option ℕ) → (tid == 0) ≡ false → o ≡ (if tid == 0 then some 0 else o)
    skip_zero tid o x = rw x refl

parent_of-bound : (i p : ℕ) (s : Sched) → parent_of i s ≡ some p → p < max_tasks
parent_of-bound i p s e = bound (task_at s i).parent_tid e
  where
    bound :
        (t : ℤ)
        → elim t [ pos tid ↦ sched_find_by_tid tid s | negsuc _ ↦ none ] ≡ some p
        → p < max_tasks
    bound (pos tid) e = sched_find_by_tid-bound tid p s e
    bound (negsuc n) e = absurd cc

exit_slot-IsSound :
    (code i : ℕ) (s : Sched)
    → IsSound s
    → i < max_tasks
    → (task_at s i).used ≡ true
    → IsSound (exit_slot code i s)
unfolding exit_slot
exit_slot-IsSound code i s v hi used =
    let dead = make_zombie i code s in
    if-IsSound (task_at s i).is_idle s _ (λ e. v)
      (λ e.
        let low : 0 < i = ground (arith, ((v.agree i hi).root used).0) in
        let w = make_zombie-IsSound i code s v low hi used in
        let f = λ (p : ℕ).
          wake_members p
            (if (task_at dead p).vfork_resume_valid then sched_wake_slot p dead else dead) in
        option-IsSound (parent_of i dead) dead f w (λ p found. wake_members-IsSound p _ (
          if-IsSound (task_at dead p).vfork_resume_valid (sched_wake_slot p dead) dead
            (λ x. sched_wake_slot-IsSound p dead w (parent_of-bound i p dead found)) (λ x. w))))

pub sched_exit_code-IsSound :
    (code cpu : ℕ) (s : Sched) → IsSound s → IsSound (sched_exit_code code cpu s)
unfolding sched_exit_code
sched_exit_code-IsSound code cpu s v =
    current-IsSound cpu (exit_slot code) s v (λ i hi u. exit_slot-IsSound code i s v hi u)

-- The test that being killed makes.
may_kill :
    (k : Task)
    → (not k.used || k.is_idle || k.state == zombie) ≡ false
    → (k.used ≡ true) × (k.is_idle ≡ false)
may_kill k e = (ground arith, ground arith)

pub sched_signal_terminate_slot_locked-IsSound :
    (i sig : ℕ) (s : Sched)
    → IsSound s
    → i < max_tasks
    → IsSound (sched_signal_terminate_slot_locked i sig s)
unfolding sched_signal_terminate_slot_locked sched_signal_wake_parent_locked
sched_signal_terminate_slot_locked-IsSound i sig s v hi =
    let k = task_at s i in
    if-IsSound (not k.used || k.is_idle || k.state == zombie) s _ (λ e. v)
      (λ e.
        let (used, idle) = may_kill k e in
        let low : 0 < i = ground (arith, ((v.agree i hi).root used).0) in
        let w = make_zombie-IsSound i (killed_code sig) s v low hi used in
        let f = λ (k : Task). record k { sig_pending = 0 } in
        let dead = put_task i f (make_zombie i (killed_code sig) s) in
        let x =
          touch-IsSound i f (make_zombie i (killed_code sig) s) w hi
            (refl, refl, refl, refl, refl, refl) in
        option-IsSound (parent_of i dead) dead (λ p. wake_members p dead) x
          (λ p found. wake_members-IsSound p dead x))

pub no_bits-empty : (j : ℕ) → bits_test no_bits j ≡ false
unfolding bits_test
no_bits-empty j = rw (get_or-replicate {A = ℕ} 2 (j / 32) 0) (test_bit-zero (j % 32))

other_queue :
    (i j : ℕ) (s : Sched)
    → Agrees s.tasks s.runq s.waitqs s.online j
    → i < max_tasks
    → i ≢ j
    → waits_on i (task_at s j) ≡ false
other_queue i j s a hi ne = elim (Option-cases (task_at s j).waitq) [
  | inl e ↦ rw (e, waits_on) refl
  | inr (q, e) ↦ rw (e, waits_on) (ground (arith, (a.may q e).own))
]

-- The queue of the children of `i` is empty while `i` does not wait, and may be set to empty.
pub but_reset :
    (i : ℕ) (rb : ℕ → Bool) (s : Sched)
    → SoundBut i rb (λ q. false) s
    → i < max_tasks
    → SoundBut i rb (λ q. false) (put_waitq i (λ m. no_bits) s)
but_reset i rb s b hi =
    let inside : i < length s.waitqs = omega (arith, b.shape.waitqs_len) in
    but_waitq i rb (λ q. false) s (λ m. no_bits) i (λ q. false) b inside refl
      (λ j hj ne.
        no_bits-empty j
        ∙ sym ((b.agree j hj ne).waits i inside ∙ other_queue i j s (b.agree j hj ne) hi ne))
      (λ q hq. elim (Bool-cases (i == q)) [
        | inl e ↦ rw e (no_bits-empty i)
        | inr e ↦ rw e (b.at_wait q hq)
      ])

-- Clearing a slot that stands in no queue; no other task waits on its queue of children.
pub clear-IsSound :
    (i : ℕ) (s : Sched)
    → SoundBut i (λ c. false) (λ q. false) s
    → 0 < i
    → i < max_tasks
    → IsSound (sched_clear_task i s)
unfolding sched_clear_task
clear-IsSound i s b low hi =
    let f = λ (k : Task). zero_task in
    let t = put_waitq i (λ m. no_bits) s in
    let w = but_reset i (λ c. false) s b hi in
    settle_out i (put_task i f t) zero_task (but_put i _ _ t f w)
      (put_lem i f t (task_at t i) w.shape.tasks_len hi refl) (λ c. ground arith) refl
      (λ u. absurd cc)

but_if :
    (test : Bool) (i : ℕ) (rb wb : ℕ → Bool) (s t : Sched)
    → SoundBut i rb wb s
    → SoundBut i rb wb t
    → SoundBut i rb wb (if test then s else t)
but_if true i rb wb s t a b = a
but_if false i rb wb s t a b = b

pub but_free :
    (i : ℕ) (rb wb : ℕ → Bool) (s : Sched)
    → SoundBut i rb wb s
    → SoundBut i rb wb (sched_stack_free_locked i s)
unfolding sched_stack_free_locked
but_free i rb wb s b =
    let c = (task_at s i).stack_ctx in
    let f = λ (t : Task). record t { stack_ctx = record t.stack_ctx { valid = false } } in
    but_if (not c.valid) i rb wb s _ b (
      but_if (leb stack_slots c.pool_slot) i rb wb s _ b
        (but_if (ltb c.pool_slot s.stack_reserved) i rb wb s _ b (but_put i rb wb s f b)))

-- What the search for an ended child tells of the slot that it finds.
ended_lem :
    (k : Task) (parent_tid pid : ℤ)
    → (sched_task_is_child_of k parent_tid pid && k.state == zombie) ≡ true
    → k.state ≡ zombie
ended_lem k parent_tid pid e = and_right (sched_task_is_child_of k parent_tid pid) k.state e
  where
    and_right : (a : Bool) (n : ℕ) → (a && n == zombie) ≡ true → n ≡ zombie
    and_right a n e = ground arith

-- A task that has ended stands in no queue.
but_zombie :
    (i : ℕ) (s : Sched)
    → IsSound s
    → i < max_tasks
    → (task_at s i).state ≡ zombie
    → SoundBut i (λ c. false) (λ q. false) s
but_zombie i s v hi ended =
    let out =
      awake_lem i s v hi (λ x. absurd (omega (arith, x, ended)))
        (λ x. absurd (omega (arith, x, ended))) in
    but_ext i _ _ s _ (λ q. false) (but_awake i s v hi out) (λ c hc. ground (arith, ended))
      (λ q hq. refl)

pub reap_slot-IsSound :
    (i : ℕ) (s : Sched)
    → IsSound s
    → 0 < i
    → i < max_tasks
    → (task_at s i).state ≡ zombie
    → IsSound
        (sched_clear_task i (sched_stack_free_locked i (sched_runq_del (task_at s i).run_cpu i s)))
reap_slot-IsSound i s v low hi ended =
    let b = but_zombie i s v hi ended in
    let cpu = (task_at s i).run_cpu in
    let d =
      but_ext i _ _ (sched_runq_del cpu i s) (λ c. false) (λ q. false)
        (but_del i (λ c. false) (λ q. false) s cpu b low hi) (λ c hc. ground arith)
        (λ q hq. refl) in
    clear-IsSound i _ (but_free i _ _ (sched_runq_del cpu i s) d) low hi

pub sched_try_reap_child-IsSound :
    (parent_tid pid : ℤ) (s : Sched) → IsSound s → IsSound (sched_try_reap_child parent_tid pid s).0
unfolding sched_try_reap_child
sched_try_reap_child-IsSound parent_tid pid s v =
    elim (Option-cases (reap_from parent_tid pid (max_tasks - 1) 1 false s).0) [
      | inl e ↦ rw (e, sched_try_reap_child) v
      | inr (i, e) ↦
          let fits = is_ended_child parent_tid pid s in
          let (ended, low, high, _) =
            find_from-some fits (max_tasks - 1) 1 i
              (sym (reap_from_first parent_tid pid s (max_tasks - 1) 1 false) ∙ e) in
          rw (e, sched_try_reap_child)
            (reap_slot-IsSound i s v low high (ended_lem (task_at s i) parent_tid pid ended))
    ]
