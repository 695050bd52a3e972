-- ===== src/Sched/Task/Inv/Release.antt =====
-- `sched_vfork_release_parent` keeps the queues right.
use octans.Prelude.{
  ℕ, ◌<◌, ◌≡◌, ◌≢◌, refl, sym, subst, ◌∙◌, none, some, Bool, true, false, not, ◌||◌, ◌&&◌, ltb,
  if◌then◌else◌, arith, inl, inr, Option-cases, bits_test,
}
use octans.Sched.Task.State.{Task, Sched, max_tasks, task_at, put_task}
use octans.Sched.Task.Queue.{waitq_at, sched_wake_slot, sched_current_slot}
use octans.Sched.Task.Life.{parent_of, sched_vfork_restore_parent_user_locked}
use octans.Sched.Task.Signals.{signal_slot}
use octans.Sched.Task.Attr.{release_slot, sched_vfork_release_parent}
use octans.Sched.Task.Inv.Sound.{IsSound}
use octans.Sched.Task.Inv.Wake.{touch-IsSound}
use octans.Sched.Task.Inv.Ready.{sched_wake_slot-IsSound}
use octans.Sched.Task.Inv.Sleep.{if-IsSound, option-IsSound, current_lem}

-- A test that keeps an index changes none.
kept_index : (test : Bool) (i j : ℕ) → (if test then none else some j) ≡ some i → j ≡ i
kept_index true i j e = absurd cc
kept_index false i j e = ground (arith, e)

signal_slot_inside : (cpu i : ℕ) (s : Sched) → signal_slot cpu s ≡ some i → i < max_tasks
unfolding signal_slot
signal_slot_inside cpu i s e = elim (Option-cases (sched_current_slot cpu s)) [
  | inl f ↦ absurd (none_apart i (sym (rw (f, signal_slot) refl) ∙ e))
  | inr (j, f) ↦
      let (hj, used, _) = current_lem cpu j s f in
      let same : j ≡ i =
        kept_index (not (task_at s j).used || (task_at s j).is_idle) i j
          (sym (rw (f, signal_slot) refl) ∙ e) in
      subst (λ (n : ℕ). n < max_tasks) same hj
]
  where
    none_apart : (i : ℕ) → none ≢ some i
    none_apart i e = absurd cc

-- The child lets the parent go on.
release_slot-IsSound : (i : ℕ) (s : Sched) → IsSound s → i < max_tasks → IsSound (release_slot i s)
unfolding release_slot sched_vfork_restore_parent_user_locked
release_slot-IsSound i s v hi =
    let f = λ (k : Task). record k { vfork_child_active = false } in
    let t = put_task i f (sched_vfork_restore_parent_user_locked i s) in
    let w : IsSound t = touch-IsSound i f s v hi (refl, refl, refl, refl, refl, refl) in
    option-IsSound (parent_of i t) t _ w (λ p e.
      if-IsSound (ltb p max_tasks && bits_test (waitq_at t p) p) (sched_wake_slot p t) t
        (λ both. sched_wake_slot-IsSound p t w (ground arith)) (λ both. w))

pub sched_vfork_release_parent-IsSound :
    (cpu : ℕ) (s : Sched) → IsSound s → IsSound (sched_vfork_release_parent cpu s)
unfolding sched_vfork_release_parent signal_slot sched_current_slot
sched_vfork_release_parent-IsSound cpu s v = option-IsSound (signal_slot cpu s) s _ v (λ i e.
    if-IsSound (not (task_at s i).vfork_child_active) s (release_slot i s) (λ f. v)
      (λ f. release_slot-IsSound i s v (signal_slot_inside cpu i s e)))
