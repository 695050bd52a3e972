-- ===== src/Sched/Task/Inv/Ready.antt =====
-- Waking one task, those that are due, and those of a wait queue keeps the queues right.
use octans.Prelude.{
  ℕ, ◌-◌, ◌<◌, ◌≡◌, refl, Option, none, some, false, ◌&&◌, ◌||◌, not, ◌==◌, arith, inl, inr,
  Bool-cases, Option-cases, ltb, for_range_inv, find_from, find_from-some, bits_test,
}
use octans.Sched.Task.State.{Task, Sched, max_tasks, sleeping, blocked, task_at}
use octans.Sched.Task.Queue.{
  waitq_at, sched_wake_slot, wake_due, sched_try_wake_sleepers, sched_waitq_wake_one, wake_member,
  wake_members, sched_waitq_wake_all,
}
use octans.Sched.Task.Inv.Sound.{IsAsleep, IsSound}
use octans.Sched.Task.Inv.Wake.{make_ready-IsSound}

-- The test that both callers make.
IsAsleep-of :
    (k : Task) → (not (k.state == blocked) && not (k.state == sleeping)) ≡ false → IsAsleep k
IsAsleep-of k e = elim (Bool-cases (k.state == blocked)) [
  | inl b ↦ inl (ground arith)
  | inr b ↦ inr (ground arith)
]

pub sched_wake_slot-IsSound :
    (i : ℕ) (s : Sched) → IsSound s → i < max_tasks → IsSound (sched_wake_slot i s)
unfolding sched_wake_slot
sched_wake_slot-IsSound i s v hi =
    let k = task_at s i in
    elim (Bool-cases (not k.used || k.is_idle)) [
      | inl e ↦ rw e v
      | inr e ↦ elim (Bool-cases (not (k.state == blocked) && not (k.state == sleeping))) [
        | inl f ↦ rw (e, f) v
        | inr f ↦ rw (e, f) (make_ready-IsSound i s v hi (ground arith) (IsAsleep-of k f))
      ]
    ]

wake_due-IsSound : (now i : ℕ) (s : Sched) → IsSound s → i < max_tasks → IsSound (wake_due now i s)
unfolding wake_due
wake_due-IsSound now i s v hi =
    let k = task_at s i in
    elim (Bool-cases (not k.used)) [
      | inl e ↦ rw e v
      | inr e ↦ elim (Bool-cases (not (k.state == sleeping) && not (k.state == blocked))) [
        | inl f ↦ rw (e, f) v
        | inr f ↦ elim (Bool-cases (k.wake_tick == 0 || ltb now k.wake_tick)) [
          | inl g ↦ rw (e, f, g) v
          | inr g ↦
              rw (e, f, g)
                (make_ready-IsSound i s v hi (ground arith) (IsAsleep-of k (ground arith)))
        ]
      ]
    ]

pub sched_try_wake_sleepers-IsSound :
    (now : ℕ) (s : Sched) → IsSound s → IsSound (sched_try_wake_sleepers now s)
unfolding sched_try_wake_sleepers
sched_try_wake_sleepers-IsSound now s v =
    for_range_inv (λ k t. IsSound t) (wake_due now) 0 max_tasks
      (λ k t low high h. wake_due-IsSound now k t h high) max_tasks s refl v

wake_member-IsSound :
    (q i : ℕ) (s : Sched) → IsSound s → i < max_tasks → IsSound (wake_member q i s)
unfolding wake_member
wake_member-IsSound q i s v hi = elim (Bool-cases (bits_test (waitq_at s q) i)) [
  | inl e ↦ rw e (sched_wake_slot-IsSound i s v hi)
  | inr e ↦ rw e v
]

pub wake_members-IsSound : (q : ℕ) (s : Sched) → IsSound s → IsSound (wake_members q s)
unfolding wake_members
wake_members-IsSound q s v =
    for_range_inv (λ k t. IsSound t) (wake_member q) 1 max_tasks
      (λ k t low high h. wake_member-IsSound q k t h high) (max_tasks - 1) s refl v

pub sched_waitq_wake_all-IsSound :
    (q : Option ℕ) (s : Sched) → IsSound s → IsSound (sched_waitq_wake_all q s)
unfolding sched_waitq_wake_all
sched_waitq_wake_all-IsSound none s v = v
sched_waitq_wake_all-IsSound (some q) s v = wake_members-IsSound q s v

pub sched_waitq_wake_one-IsSound :
    (q : Option ℕ) (s : Sched) → IsSound s → IsSound (sched_waitq_wake_one q s)
unfolding sched_waitq_wake_one
sched_waitq_wake_one-IsSound none s v = v
sched_waitq_wake_one-IsSound (some q) s v =
    elim (Option-cases (find_from (λ i. bits_test (waitq_at s q) i) (max_tasks - 1) 1)) [
      | inl e ↦ rw (e, sched_waitq_wake_one) v
      | inr (i, e) ↦
          let (_, _, high, _) =
            find_from-some (λ j. bits_test (waitq_at s q) j) (max_tasks - 1) 1 i e in
          rw (e, sched_waitq_wake_one) (sched_wake_slot-IsSound i s v high)
    ]
