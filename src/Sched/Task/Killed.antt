-- ===== src/Sched/Task/Killed.antt =====
-- What becomes of a task that a signal ends.
use octans.Prelude.{
  ℕ, zero, suc, ◌-◌, ◌<◌, ◌≡◌, ◌≢◌, refl, sym, ap, ◌∙◌, ℤ, pos, Option, none, some, Bool, true,
  false, ◌&&◌, ◌||◌, not, ◌==◌, if◌then◌else◌, arith, inl, inr, Bool-cases, length, length-set,
  for_range_inv, bits_test, find_from-some,
}
use octans.Sched.Fd.State.{Slot}
use octans.Sched.Fd.Table.{sched_slot_close_all_fds}
use octans.Sched.Task.State.{Task, Sched, max_tasks, sleeping, blocked, zombie, task_at, put_task}
use octans.Sched.Task.Queue.{
  waitq_at, sched_current_slot, sched_runq_del, sched_detach_waitq, sched_wake_slot, wake_member,
  wake_members,
}
use octans.Sched.Task.Life.{
  make_zombie, sched_vfork_restore_parent_user_locked, parent_of, killed_code,
  sched_signal_wake_parent_locked, sched_signal_terminate_slot_locked,
}
use octans.Sched.Task.Signals.{
  signal_einval, signal_kill, signal_dfl, signal_ok, action_of, add_signal, kill_target, kill_slot,
  sched_signal_kill, sched_signal_valid, sched_signal_is_default_terminate,
}
use octans.Sched.Task.Due.{detach_tasks, ready_tasks, put_task_same}

-- The table has its length, and the slot `j` holds the task `k`.
record Holds (j : ℕ) (k : Task) (t : Sched) : Type 0 where
  pub len : length t.tasks ≡ max_tasks
  pub here : task_at t j ≡ k

awake_zombie :
    (k : Task) → k.state ≡ zombie → (not (k.state == blocked) && not (k.state == sleeping)) ≡ true
awake_zombie k e = rw e refl

-- Waking leaves a task that has ended alone.
wake_slot-Holds :
    (i j : ℕ) (k : Task) (s : Sched)
    → k.state ≡ zombie
    → i < max_tasks
    → Holds j k s
    → Holds j k (sched_wake_slot i s)
unfolding sched_wake_slot
wake_slot-Holds i j k s ended hi h =
    let t = task_at s i in
    elim (Bool-cases (not t.used || t.is_idle)) [
      | inl e ↦ rw e h
      | inr e ↦ elim (Bool-cases (not (t.state == blocked) && not (t.state == sleeping))) [
        | inl f ↦ rw (e, f) h
        | inr f ↦
            let r = ready_tasks i s h.len hi in
            rw (e, f)
              (record {
                len = r.len ∙ h.len;
                here =
                    r.other j (elim (Bool-cases (i == j)) [
                      | inr ne ↦ ne
                      | inl same ↦
                          let eq : i ≡ j = ground arith in
                          let at_j : task_at s i ≡ k = rw eq (h.here) in
                          let awake =
                            awake_zombie (task_at s i) (ap (λ (x : Task). x.state) at_j ∙ ended) in
                          absurd (distinct (sym awake ∙ f))
                    ])
                    ∙ h.here;
              })
      ]
    ]
  where
    distinct : true ≢ false
    distinct e = absurd cc

wake_member-Holds :
    (q i j : ℕ) (k : Task) (s : Sched)
    → k.state ≡ zombie
    → i < max_tasks
    → Holds j k s
    → Holds j k (wake_member q i s)
unfolding wake_member
wake_member-Holds q i j k s ended hi h = elim (Bool-cases (bits_test (waitq_at s q) i)) [
  | inl e ↦ rw e (wake_slot-Holds i j k s ended hi h)
  | inr e ↦ rw e h
]

wake_members-Holds :
    (q j : ℕ) (k : Task) (s : Sched) → k.state ≡ zombie → Holds j k s → Holds j k (wake_members q s)
unfolding wake_members
wake_members-Holds q j k s ended h =
    for_range_inv (λ n t. Holds j k t) (wake_member q) 1 max_tasks
      (λ i t low high g. wake_member-Holds q i j k t ended high g) (max_tasks - 1) s refl h

-- The task that is left of one that ends: it holds no descriptor but those of an empty table, waits
-- nowhere and keeps its exit code.
abbrev pub ended : ℕ → Slot → Task → Task
ended code fds t = record t {
  waitq = none;
  vfork_child_active = false;
  fds = fds;
  exit_code = code;
  state = zombie;
  wake_tick = 0;
  quantum_used = 0;
}

abbrev pub closed_fds : ℕ → Sched → Slot
closed_fds i s =
    (sched_slot_close_all_fds (record { slot = (task_at s i).fds; shared = s.pipes })).slot

make_zombie-Holds :
    (i code : ℕ) (s : Sched)
    → length s.tasks ≡ max_tasks
    → i < max_tasks
    → Holds i (ended code (closed_fds i s) (task_at s i)) (make_zombie i code s)
unfolding make_zombie sched_vfork_restore_parent_user_locked sched_runq_del
make_zombie-Holds i code s len hi =
    let d = detach_tasks i s len hi in
    let t = sched_vfork_restore_parent_user_locked i (sched_detach_waitq i s) in
    let f1 = λ (k : Task). record k { vfork_child_active = false } in
    let t1 = put_task i f1 t in
    let closed =
      sched_slot_close_all_fds (record { slot = (task_at t1 i).fds; shared = t1.pipes }) in
    let f2 = λ (k : Task). record k { fds = closed.slot } in
    let t2 = put_task i f2 (record t1 { pipes = closed.shared }) in
    let f3 = λ (k : Task). record k {
      exit_code = code;
      state = zombie;
      wake_tick = 0;
      quantum_used = 0;
    } in
    let len1 = length-set t.tasks i (f1 (task_at t i)) ∙ d.len ∙ len in
    let len2 = length-set t1.tasks i (f2 (task_at t1 i)) ∙ len1 in
    let e1 = put_task_same i f1 t (d.len ∙ len) hi ∙ ap f1 d.same in
    let e2 = put_task_same i f2 t1 len1 hi ∙ ap f2 e1 in
    let e3 = put_task_same i f3 t2 len2 hi ∙ ap f3 e2 in
    record {
      len = length-set t2.tasks i (f3 (task_at t2 i)) ∙ len2;
      here =
          e3
          ∙ ap
              (λ (k : Task).
                ended code
                  (sched_slot_close_all_fds (record { slot = k.fds; shared = s.pipes })).slot
                  (task_at s i))
              e1;
    }

-- A task in use, other than the root and not ended before, is ended by
-- `sched_signal_terminate_slot_locked`: it is a zombie with the exit code 128 and the signal, without
-- pending signals, and the descriptor table is the one that closing all descriptors leaves.
pub sched_signal_terminate_slot_locked_lem :
    (i sig : ℕ) (s : Sched)
    → length s.tasks ≡ max_tasks
    → i < max_tasks
    → (not (task_at s i).used || (task_at s i).is_idle || (task_at s i).state == zombie) ≡ false
    → task_at (sched_signal_terminate_slot_locked i sig s) i
      ≡ record (ended (killed_code sig) (closed_fds i s) (task_at s i)) { sig_pending = 0 }
unfolding sched_signal_terminate_slot_locked sched_signal_wake_parent_locked
sched_signal_terminate_slot_locked_lem i sig s len hi alive =
    let z = make_zombie-Holds i (killed_code sig) s len hi in
    let f = λ (k : Task). record k { sig_pending = 0 } in
    let u = make_zombie i (killed_code sig) s in
    let dead = put_task i f u in
    let k = f (ended (killed_code sig) (closed_fds i s) (task_at s i)) in
    let h : Holds i k dead = record {
      len = length-set u.tasks i (f (task_at u i)) ∙ z.len;
      here = put_task_same i f u z.len hi ∙ ap f z.here;
    } in
    ap (λ t. task_at t i) (if_false _ _ _ alive) ∙ (told (parent_of i dead) dead k refl h).here
  where
    if_false : (b : Bool) (x y : Sched) → b ≡ false → (if b then x else y) ≡ y
    if_false b x y e = rw e refl

    told :
        (o : Option ℕ) (t : Sched) (k : Task)
        → k.state ≡ zombie
        → Holds i k t
        → Holds i k (elim o [ none ↦ t | some p ↦ wake_members p t ])
    told none t k e h = h
    told (some p) t k e h = wake_members-Holds p i k t e h

third_branch :
    (masked default_action self : Bool) (a b c : Sched)
    → default_action ≡ true
    → self ≡ false
    → (if masked && false then a else if default_action && true then if self then b else c else a)
      ≡ c
third_branch masked default_action self a b c d e = ground arith

not_zero : (n : ℕ) → (suc n == 0) ≡ false
not_zero n = ground arith

kill_branch :
    (n : ℕ) (a b c : Sched × ℤ) → (if suc n == 0 then a else if signal_kill == 0 then b else c) ≡ c
kill_branch n a b c = rw (not_zero n) refl

-- `kill_target` finds a slot of the table that is in use, not the root's and not ended.
pub kill_target_lem :
    (pid i : ℕ) (s : Sched)
    → kill_target pid s ≡ some i
    → (i < max_tasks)
      × ((not (task_at s i).used || (task_at s i).is_idle || (task_at s i).state == zombie) ≡ false)
unfolding kill_target
kill_target_lem pid i s e =
    let f = λ (i : ℕ).
      not ((not (task_at s i).used || (task_at s i).is_idle || (task_at s i).state == zombie))
      && ((task_at s i).pid == pid || (task_at s i).tid == pid) in
    let (hit, _, high, _) = find_from-some f (max_tasks - 1) 1 i e in (high, not_left _ _ hit)
  where
    not_left : (a b : Bool) → (not a && b) ≡ true → a ≡ false
    not_left a b e = ground arith

-- Sending SIGKILL to a task other than the caller, found by its pid or tid, succeeds and leaves it
-- ended with the exit code 137 and its descriptors closed, whatever it masks, where its action for
-- that signal is the default.
pub sched_signal_kill-ended :
    (pid i cpu : ℕ) (s : Sched)
    → length s.tasks ≡ max_tasks
    → 0 < pid
    → kill_target pid s ≡ some i
    → elim (sched_current_slot cpu s) [ none ↦ false | some self ↦ self == i ] ≡ false
    → (action_of (task_at s i) signal_kill).handler ≡ signal_dfl
    → (let r = sched_signal_kill (pos pid) signal_kill cpu s in
        (r.1 ≡ signal_ok)
        × ((task_at r.0 i).state ≡ zombie)
        × ((task_at r.0 i).exit_code ≡ 137)
        × ((task_at r.0 i).fds ≡ closed_fds i s))
unfolding sched_signal_kill kill_slot sched_signal_is_default_terminate sched_signal_valid
sched_signal_kill-ended zero i cpu s len positive e other default_action = elim positive [ ]
sched_signal_kill-ended (suc n) i cpu s len positive e other default_action =
    let (hi, alive) = kill_target_lem (suc n) i s e in
    let f = λ (k : Task). record k { sig_pending = add_signal k.sig_pending signal_kill } in
    let sent = put_task i f s in
    let same : task_at sent i ≡ f (task_at s i) = put_task_same i f s len hi in
    let dead =
      sched_signal_terminate_slot_locked_lem i signal_kill sent (length-set s.tasks i _ ∙ len) hi
        (rw same alive) in
    let by_default : ((action_of (task_at s i) signal_kill).handler == signal_dfl) ≡ true =
      rw default_action refl in
    let goes : kill_slot i signal_kill cpu s
        ≡ sched_signal_terminate_slot_locked i signal_kill sent =
      third_branch _ _ _ _ _ _ by_default other in
    let r : sched_signal_kill (pos (suc n)) signal_kill cpu s
        ≡ (kill_slot i signal_kill cpu s, signal_ok) =
      rw (sched_signal_kill, e)
        (kill_branch n (s, signal_einval) (s, signal_ok)
          (kill_slot i signal_kill cpu s, signal_ok)) in
    let task = ap (λ p. task_at p.0 i) r ∙ ap (λ t. task_at t i) goes ∙ dead in
    (
      ap (λ p. p.1) r,
      ap (λ (k : Task). k.state) task,
      ap (λ (k : Task). k.exit_code) task,
      ap (λ (k : Task). k.fds) task
          ∙ ap
              (λ (k : Task).
                (sched_slot_close_all_fds (record { slot = k.fds; shared = s.pipes })).slot)
              same,
    )
