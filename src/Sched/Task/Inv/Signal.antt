-- ===== src/Sched/Task/Inv/Signal.antt =====
-- Sending a signal and setting masks and actions keep the queues right.
use octans.Prelude.{
  ℕ, ◌<◌, ◌≡◌, refl, ℤ, pos, negsuc, Option, none, some, Bool, true, false, ◌&&◌, ◌||◌, not, ◌==◌,
  if◌then◌else◌,
}
use octans.Sched.Task.State.{Task, Sched, max_tasks, task_at, put_task}
use octans.Sched.Task.Queue.{sched_current_slot}
use octans.Sched.Task.Life.{killed_code, sched_exit_code, sched_signal_terminate_slot_locked}
use octans.Sched.Task.Signals.{
  signal_kill, signal_stop, signal_ign, signal_dfl, signal_ok, signal_einval, action_of, has_signal,
  add_signal, sched_signal_is_default_terminate, sched_signal_valid, kill_target, kill_slot,
  sched_signal_kill,
}
use octans.Sched.Task.Inv.Sound.{IsSound}
use octans.Sched.Task.Inv.Wake.{touch-IsSound}
use octans.Sched.Task.Inv.Sleep.{if-IsSound}
use octans.Sched.Task.Inv.End.{sched_exit_code-IsSound, sched_signal_terminate_slot_locked-IsSound}
use octans.Sched.Task.Killed.{kill_target_lem}

kill_slot-IsSound :
    (i sig cpu : ℕ) (s : Sched) → IsSound s → i < max_tasks → IsSound (kill_slot i sig cpu s)
unfolding kill_slot
kill_slot-IsSound i sig cpu s v hi =
    let t = task_at s i in
    let f = λ (k : Task). record k { sig_pending = add_signal k.sig_pending sig } in
    let sent = put_task i f s in
    let w = touch-IsSound i f s v hi (refl, refl, refl, refl, refl, refl) in
    let is_self : Bool = elim (sched_current_slot cpu s) [ none ↦ false | some self ↦ self == i ] in
    let certain = sig == signal_kill || sig == signal_stop in
    if-IsSound (not certain && (action_of t sig).handler == signal_ign) s _ (λ e. v)
      (λ e.
        if-IsSound (has_signal t.sig_mask sig && not certain) sent _ (λ e. w)
          (λ e.
            if-IsSound
              ((action_of t sig).handler == signal_dfl && sched_signal_is_default_terminate sig)
              (if is_self
                then sched_exit_code (killed_code sig) cpu sent
                else sched_signal_terminate_slot_locked i sig sent)
              sent
              (λ e.
                if-IsSound is_self (sched_exit_code (killed_code sig) cpu sent)
                  (sched_signal_terminate_slot_locked i sig sent)
                  (λ x. sched_exit_code-IsSound (killed_code sig) cpu sent w)
                  (λ x. sched_signal_terminate_slot_locked-IsSound i sig sent w hi))
              (λ e. w)))

if_reply-IsSound :
    (test : Bool) (x y : Sched × ℤ) → IsSound x.0 → IsSound y.0 → IsSound (if test then x else y).0
if_reply-IsSound true x y a b = a
if_reply-IsSound false x y a b = b

found-IsSound :
    (o : Option ℕ) (sig cpu : ℕ) (s : Sched)
    → IsSound s
    → ((i : ℕ) → o ≡ some i → i < max_tasks)
    → (let r : Sched × ℤ = elim o [
      | none ↦ (s, negsuc 1)
      | some i ↦ if sig == 0 then (s, signal_ok) else (kill_slot i sig cpu s, signal_ok)
    ] in
        IsSound r.0)
found-IsSound none sig cpu s v inside = v
found-IsSound (some i) sig cpu s v inside =
    if_reply-IsSound (sig == 0) (s, signal_ok) (kill_slot i sig cpu s, signal_ok) v
      (kill_slot-IsSound i sig cpu s v (inside i refl))

pub sched_signal_kill-IsSound :
    (pid : ℤ) (sig cpu : ℕ) (s : Sched) → IsSound s → IsSound (sched_signal_kill pid sig cpu s).0
unfolding sched_signal_kill
sched_signal_kill-IsSound (negsuc n) sig cpu s v = v
sched_signal_kill-IsSound (pos pid) sig cpu s v =
    if_reply-IsSound (not (sig == 0) && not (sched_signal_valid sig)) (s, signal_einval) _ v
      (if_reply-IsSound (pid == 0) (s, signal_einval) _ v
        (found-IsSound (kill_target pid s) sig cpu s v (λ i e. (kill_target_lem pid i s e).0)))
