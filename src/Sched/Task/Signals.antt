-- ===== src/Sched/Task/Signals.antt =====
-- Signals: `sched_signal_action`, `sched_signal_mask`, `sched_signal_kill`, `sched_signal_exec_reset`
-- and the choice that `sched_signal_deliver_pending` makes, of src/sched_task.c. The bit of the signal
-- `sig` is the bit `sig - 1` of a word. The frames of handlers are not modelled.
use octans.Prelude.{
  ℕ, zero, suc, ◌-◌, ℤ, pos, negsuc, Option, none, some, Bool, false, ◌&&◌, ◌||◌, not, leb, ◌==◌,
  if◌then◌else◌, List, get_or, set, modify, find_from, for_range, test_bit, set_bit, clear_bit,
  zip_bits,
}
use octans.Sched.Task.State.{
  Task, Sched, SigAction, max_tasks, signal_max, zombie, no_action, task_at, put_task,
}
use octans.Sched.Task.Queue.{sched_current_slot}
use octans.Sched.Task.Life.{killed_code, sched_exit_code, sched_signal_terminate_slot_locked}

-- SCHED_SIGNAL_DFL, _IGN, _KILL, _CHLD and _STOP.
abbrev pub signal_dfl : ℕ
signal_dfl = 0

abbrev pub signal_ign : ℕ
signal_ign = 1

abbrev pub signal_kill : ℕ
signal_kill = 9

abbrev pub signal_chld : ℕ
signal_chld = 17

abbrev pub signal_stop : ℕ
signal_stop = 19

-- SCHED_SIGNAL_OK, _EINVAL and _ESRCH.
abbrev pub signal_ok : ℤ
signal_ok = pos 0

abbrev pub signal_einval : ℤ
signal_einval = negsuc 0

abbrev pub signal_esrch : ℤ
signal_esrch = negsuc 1

unfoldable pub sched_signal_valid : ℕ → Bool
sched_signal_valid sig = leb 1 sig && leb sig signal_max

-- (w & sched_signal_bit(sig)) != 0, w | sched_signal_bit(sig) and w & ~sched_signal_bit(sig)
unfoldable pub has_signal : ℕ → ℕ → Bool
unfolding sched_signal_valid test_bit
has_signal w sig = sched_signal_valid sig && test_bit w (sig - 1)

unfoldable pub add_signal : ℕ → ℕ → ℕ
unfolding sched_signal_valid set_bit
add_signal w sig = if sched_signal_valid sig then set_bit w (sig - 1) else w

unfoldable pub drop_signal : ℕ → ℕ → ℕ
unfolding sched_signal_valid clear_bit
drop_signal w sig = if sched_signal_valid sig then clear_bit w (sig - 1) else w

-- w & ~sched_signal_uncatchable_mask()
unfoldable pub catchable : ℕ → ℕ
unfolding drop_signal
catchable w = drop_signal (drop_signal w signal_kill) signal_stop

-- a | b and a & ~b
abbrev pub word_or : ℕ → ℕ → ℕ
word_or a b = zip_bits (λ x y. x || y) 32 a b

abbrev pub word_andn : ℕ → ℕ → ℕ
word_andn a b = zip_bits (λ x y. x && not y) 32 a b

unfoldable pub sched_signal_is_default_terminate : ℕ → Bool
unfolding sched_signal_valid
sched_signal_is_default_terminate sig = if sig == signal_chld then false else sched_signal_valid sig

abbrev pub action_of : Task → ℕ → SigAction
action_of t sig = get_or t.sig_action sig no_action

-- The slot that a call on signals works on.
unfoldable pub signal_slot : ℕ → Sched → Option ℕ
unfolding sched_current_slot
signal_slot cpu s = elim (sched_current_slot cpu s) [
  | none ↦ none
  | some i ↦ if not (task_at s i).used || (task_at s i).is_idle then none else some i
]

-- `act` is `none` for NULL; the old action is given back.
unfoldable pub sched_signal_action : ℕ → Option SigAction → ℕ → Sched → Sched × ℤ × Option SigAction
unfolding sched_signal_valid signal_slot
sched_signal_action sig act cpu s =
    let out : Sched × ℤ × Option SigAction = elim (signal_slot cpu s) [
      | none ↦ (s, signal_esrch, none)
      | some i ↦ (
        elim act [
          | none ↦ s
          | some a ↦ put_task i (λ t. record t { sig_action = set t.sig_action sig a }) s
        ],
        signal_ok,
        some (action_of (task_at s i) sig),
      )
    ] in
    if not (sched_signal_valid sig) || sig == signal_kill || sig == signal_stop
    then (s, signal_einval, none)
    else out

-- SCHED_SIG_BLOCK, _UNBLOCK and _SETMASK are 0, 1 and 2.
abbrev pub next_mask : ℕ → ℕ → ℕ → Option ℕ
next_mask how old set =
    if how == 0
    then some (word_or old set)
    else if how == 1
    then some (word_andn old set)
    else if how == 2
    then some set
    else none

-- The old mask is given back, where it is stored.
unfoldable pub sched_signal_mask : ℕ → ℕ → ℕ → Sched → Sched × ℤ × Option ℕ
unfolding catchable signal_slot zip_bits
sched_signal_mask how set cpu s = elim (signal_slot cpu s) [
  | none ↦ (s, signal_esrch, none)
  | some i ↦
      let old = (task_at s i).sig_mask in
      elim (next_mask how old (catchable set)) [
        | none ↦ (s, signal_einval, some old)
        | some next ↦
            (put_task i (λ t. record t { sig_mask = catchable next }) s, signal_ok, some old)
      ]
]

-- The search of `sched_signal_kill`.
unfoldable pub kill_target : ℕ → Sched → Option ℕ
unfolding find_from
kill_target pid s =
    find_from
      (λ i.
        let t = task_at s i in
        not (not t.used || t.is_idle || t.state == zombie) && (t.pid == pid || t.tid == pid))
      (max_tasks - 1) 1

-- The part of `sched_signal_kill` behind the search, for the slot found.
unfoldable pub kill_slot : ℕ → ℕ → ℕ → Sched → Sched
unfolding add_signal has_signal sched_signal_is_default_terminate sched_current_slot sched_exit_code
    sched_signal_terminate_slot_locked
kill_slot i sig cpu s =
    let t = task_at s i in
    let sent = put_task i (λ k. record k { sig_pending = add_signal k.sig_pending sig }) s in
    let is_self : Bool = elim (sched_current_slot cpu s) [ none ↦ false | some self ↦ self == i ] in
    let certain = sig == signal_kill || sig == signal_stop in
    if not certain && (action_of t sig).handler == signal_ign
    then s
    else if has_signal t.sig_mask sig && not certain
    then sent
    else if (action_of t sig).handler == signal_dfl && sched_signal_is_default_terminate sig
    then if is_self
      then sched_exit_code (killed_code sig) cpu sent
      else sched_signal_terminate_slot_locked i sig sent
    else sent

unfoldable pub sched_signal_kill : ℤ → ℕ → ℕ → Sched → Sched × ℤ
unfolding sched_signal_valid kill_target kill_slot
sched_signal_kill (negsuc n) sig cpu s = (s, signal_einval)
sched_signal_kill (pos pid) sig cpu s =
    let found : Sched × ℤ = elim (kill_target pid s) [
      | none ↦ (s, signal_esrch)
      | some i ↦ if sig == 0 then (s, signal_ok) else (kill_slot i sig cpu s, signal_ok)
    ] in
    if not (sig == 0) && not (sched_signal_valid sig)
    then (s, signal_einval)
    else if pid == 0
    then (s, signal_einval)
    else found

-- One round of the loop over the actions.
abbrev pub reset_action : SigAction → SigAction
reset_action a = if not (a.handler == signal_ign) then no_action else a

unfoldable pub sched_signal_exec_reset : ℕ → Sched → Sched
unfolding signal_slot for_range
sched_signal_exec_reset cpu s = elim (signal_slot cpu s) [
  | none ↦ s
  | some i ↦
      put_task i
        (λ t. record t {
          sig_pending = 0;
          sig_frame_top = 0;
          sig_action =
              for_range signal_max 1 (λ sig l. modify l sig reset_action no_action) t.sig_action;
        })
        s
]

-- What the loop of `sched_signal_deliver_pending` comes to: nothing to deliver, the signal that it
-- delivers, or no answer for want of fuel.
pub data Choice : Type 0 where
  no_signal : Choice
  deliver : ℕ → Choice
  no_fuel : Choice

-- The action is to do nothing.
abbrev pub is_ignored : List SigAction → ℕ → Bool
is_ignored actions sig =
    let h = (get_or actions sig no_action).handler in
    h == signal_ign || h == signal_dfl && not (sched_signal_is_default_terminate sig)

-- The loop, with the pending signals that are left. A bit above those of the signals is ignored as
-- the test for 31 signals ignores it.
unfoldable pub choose_signal : ℕ → List SigAction → ℕ → ℕ → ℕ × Choice
unfolding has_signal drop_signal find_from sched_signal_is_default_terminate
choose_signal zero actions mask pending = (pending, no_fuel)
choose_signal (suc fuel) actions mask pending =
    elim (find_from (λ sig. has_signal pending sig && not (has_signal mask sig)) signal_max 1) [
      | none ↦ (pending, no_signal)
      | some sig ↦
          let left = drop_signal pending sig in
          let rest = choose_signal fuel actions mask left in
          if is_ignored actions sig then rest else (left, deliver sig)
    ]
