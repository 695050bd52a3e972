-- ===== src/Sched/Task/Mask.antt =====
-- What `sched_signal_mask` makes of a mask.
use octans.Prelude.{
  ℕ, zero, suc, ◌+◌, ◌-◌, ◌<◌, ◌≤◌, ◌≡◌, refl, ◌∙◌, some, Bool, true, ◌&&◌, ◌||◌, not, ◌==◌, leb,
  if◌then◌else◌, arith, length, zip_bits, test_bit-zip_bits,
}
use octans.Sched.Task.State.{Task, Sched, signal_max, max_tasks, task_at}
use octans.Sched.Task.Signals.{
  signal_kill, signal_stop, signal_ok, sched_signal_valid, has_signal, drop_signal, catchable,
  word_or, word_andn, next_mask, signal_slot, sched_signal_mask,
}
use octans.Sched.Task.Due.{put_task_same}
use octans.Sched.Task.Deliver.{has_signal-drop_signal}

-- The two signals that cannot be caught.
abbrev pub is_certain : ℕ → Bool
is_certain x = signal_stop == x || signal_kill == x

has_signal-catchable :
    (w x : ℕ) → has_signal (catchable w) x ≡ (not (is_certain x) && has_signal w x)
unfolding catchable
has_signal-catchable w x =
    has_signal-drop_signal (drop_signal w signal_kill) signal_stop x (omega arith) (omega arith)
    ∙ rw (has_signal-drop_signal w signal_kill x (omega arith) (omega arith))
        (merge (signal_stop == x) (signal_kill == x) (has_signal w x))
  where
    merge : (a b c : Bool) → (not a && (not b && c)) ≡ (not (a || b) && c)
    merge a b c = ground arith

has_signal-zip_bits :
    (f : Bool → Bool → Bool) (a b x : ℕ)
    → 1 ≤ x
    → x < 1 + signal_max
    → has_signal (zip_bits f 32 a b) x ≡ f (has_signal a x) (has_signal b x)
unfolding has_signal sched_signal_valid
has_signal-zip_bits f a b zero low high = elim low [ ]
has_signal-zip_bits f a b (suc k) low high =
    let valid : (leb 1 (suc k) && leb (suc k) signal_max) ≡ true = ground arith in
    let same : suc k - 1 ≡ k = omega arith in
    rw (valid, same) (test_bit-zip_bits f 32 a b k (omega arith))

-- Whether the mask made of `old` by `how` and `set` holds a signal.
abbrev pub masks : ℕ → Bool → Bool → Bool
masks how old set = if how == 0 then old || set else if how == 1 then old && not set else set

-- The new mask of a `how` that is known.
record Next (how old set : ℕ) : Type 0 where
  pub mask : ℕ
  pub found : next_mask how old set ≡ some mask
  pub tells :
      (x : ℕ)
      → 1 ≤ x
      → x < 1 + signal_max
      → has_signal mask x ≡ masks how (has_signal old x) (has_signal set x)

next_lem : (how old set : ℕ) → how < 3 → Next how old set
next_lem zero old set h = record {
  mask = word_or old set;
  found = refl;
  tells = λ x low high. has_signal-zip_bits (λ a b. a || b) old set x low high;
}
next_lem (suc zero) old set h = record {
  mask = word_andn old set;
  found = refl;
  tells = λ x low high. has_signal-zip_bits (λ a b. a && not b) old set x low high;
}
next_lem (suc (suc zero)) old set h = record {
  mask = set;
  found = refl;
  tells = λ x low high. refl;
}
next_lem (suc (suc (suc n))) old set h = absurd (omega arith)

drop_twice :
    (c old set : Bool) (how : ℕ)
    → (not c && masks how old (not c && set)) ≡ (not c && masks how old set)
drop_twice c old set how = ground arith

-- For a task in use other than the root and a known `how`, `sched_signal_mask` succeeds, and each
-- signal is masked afterwards as `how`, its old mask and `set` say, but SIGKILL and SIGSTOP, which
-- are never masked.
pub sched_signal_mask_lem :
    (how set x cpu i : ℕ) (s : Sched)
    → length s.tasks ≡ max_tasks
    → i < max_tasks
    → signal_slot cpu s ≡ some i
    → how < 3
    → 1 ≤ x
    → x < 1 + signal_max
    → ((sched_signal_mask how set cpu s).1 ≡ signal_ok)
      × (has_signal (task_at (sched_signal_mask how set cpu s).0 i).sig_mask x ≡ (
          not (is_certain x) && masks how (has_signal (task_at s i).sig_mask x) (has_signal set x)))
unfolding sched_signal_mask
sched_signal_mask_lem how set x cpu i s len hi e known low high =
    let old = (task_at s i).sig_mask in
    let n = next_lem how old (catchable set) known in
    let f = λ (t : Task). record t { sig_mask = catchable n.mask } in
    let told =
      has_signal-catchable n.mask x
      ∙ rw (n.tells x low high, has_signal-catchable set x)
          (drop_twice (is_certain x) (has_signal old x) (has_signal set x) how) in
    rw (e, n.found, sched_signal_mask) (refl, rw (put_task_same i f s len hi) told)
