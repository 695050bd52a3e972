-- ===== src/Sched/Task/Inv/Sleep.antt =====
-- Going to sleep, on a wait queue or for a time, and yielding keep the queues right.
use octans.Prelude.{
  ℕ, ◌<◌, ◌≡◌, refl, ap, ◌∙◌, Option, none, some, Bool, true, false, ◌||◌, ◌==◌, if◌then◌else◌,
  arith, inl, inr, Bool-cases, Option-cases, leb, add32, bits_set, length, length-set,
  get_or-set_self,
}
use octans.Sched.Task.State.{
  Task, Sched, max_tasks, sleeping, blocked, task_at, put_task, zero_task, current_at,
}
use octans.Sched.Task.Queue.{
  put_waitq, sched_runq_del, sched_detach_waitq, sched_current_slot, waitq_sleep_slot,
  sched_waitq_sleep_locked,
}
use octans.Sched.Task.Life.{sleep_slot, sched_sleep_ticks}
use octans.Sched.Task.Inv.Sound.{is_queued, waits_on, IsSound, SoundBut}
use octans.Sched.Task.Inv.Moves.{but_open, but_put, but_del, but_ext, but_enter}
use octans.Sched.Task.Inv.Wake.{detach-Detached, settle_still}

-- The slot that a processor runs lies in the table and is in use.
pub current_lem :
    (cpu i : ℕ) (s : Sched)
    → sched_current_slot cpu s ≡ some i
    → (i < max_tasks) × ((task_at s i).used ≡ true) × (current_at s cpu ≡ i)
unfolding sched_current_slot
current_lem cpu i s e = elim (Bool-cases (leb max_tasks (current_at s cpu))) [
  | inl f ↦ absurd (ground arith)
  | inr f ↦
      let same : current_at s cpu ≡ i = ground arith in
      (ground arith, rw (← same) (ground arith), same)
]

-- Taking a task out of the run queue of its processor leaves it in none.
pub leave_runq :
    (i n : ℕ) (wb : ℕ → Bool) (k : Task) (u : Sched)
    → SoundBut i (λ c. is_queued u.online c i k) wb u
    → k.run_cpu ≡ n
    → 0 < i
    → i < max_tasks
    → SoundBut i (λ c. false) wb (sched_runq_del n i u)
leave_runq i n wb k u b same low hi =
    but_ext i _ _ (sched_runq_del n i u) (λ c. false) wb (but_del i _ wb u n b low hi)
      (λ c hc. rw (← same) (ground arith)) (λ q hq. refl)

-- A test with a sound state on either side.
pub if-IsSound :
    (test : Bool) (yes_state no_state : Sched)
    → (test ≡ true → IsSound yes_state)
    → (test ≡ false → IsSound no_state)
    → IsSound (if test then yes_state else no_state)
if-IsSound true a b x y = x refl
if-IsSound false a b x y = y refl

-- A call for the slot that a search found, if it found one.
pub option-IsSound :
    (found : Option ℕ) (s : Sched) (f : ℕ → Sched)
    → IsSound s
    → ((i : ℕ) → found ≡ some i → IsSound (f i))
    → IsSound (elim found [ none ↦ s | some i ↦ f i ])
option-IsSound none s f v keeps = v
option-IsSound (some i) s f v keeps = keeps i refl

-- A call for the slot that runs.
pub current-IsSound :
    (cpu : ℕ) (f : ℕ → Sched → Sched) (s : Sched)
    → IsSound s
    → ((i : ℕ) → i < max_tasks → (task_at s i).used ≡ true → IsSound (f i s))
    → IsSound (elim (sched_current_slot cpu s) [ none ↦ s | some i ↦ f i s ])
current-IsSound cpu f s v keeps =
    option-IsSound (sched_current_slot cpu s) s (λ i. f i s) v
      (λ i e. let (hi, used, _) = current_lem cpu i s e in keeps i hi used)

sleep_slot-IsSound :
    (ticks i : ℕ) (s : Sched)
    → IsSound s
    → i < max_tasks
    → (task_at s i).used ≡ true
    → IsSound (sleep_slot ticks i s)
unfolding sleep_slot
sleep_slot-IsSound ticks i s v hi used =
    if-IsSound (task_at s i).is_idle s _ (λ e. v)
      (λ e.
        let a = v.agree i hi in
        let low : 0 < i = ground (arith, (a.root used).0) in
        let wake = add32 s.ticks (if ticks == 0 then 1 else ticks) in
        let k = task_at s i in
        let doze =
          λ (k : Task). record k { wake_tick = wake; state = sleeping; quantum_used = 0 } in
        let u = put_task i doze s in
        let wb = λ (q : ℕ). waits_on q k in
        let b = but_put i (λ c. is_queued s.online c i k) wb s doze (but_open s i v hi) in
        let t = sched_runq_del k.run_cpu i u in
        settle_still i wb t (doze k) (leave_runq i k.run_cpu wb k u b refl low hi)
          (get_or-set_self s.tasks i (doze k) zero_task (omega (arith, v.shape.tasks_len)))
          (λ c. ground arith) (λ q hq. refl)
          (λ q w.
            let m = a.may q w in
            record { in_use = m.in_use; asleep = inr refl; inside = m.inside; own = m.own })
          a.root)

pub sched_sleep_ticks-IsSound :
    (ticks cpu : ℕ) (s : Sched) → IsSound s → IsSound (sched_sleep_ticks ticks cpu s)
unfolding sched_sleep_ticks
sched_sleep_ticks-IsSound ticks cpu s v =
    current-IsSound cpu (sleep_slot ticks) s v (λ i hi u. sleep_slot-IsSound ticks i s v hi u)

waitq_sleep_slot-IsSound :
    (q timeout_ticks i : ℕ) (s : Sched)
    → IsSound s
    → i < max_tasks
    → (task_at s i).used ≡ true
    → q < length s.waitqs
    → (q < max_tasks → q ≡ i)
    → IsSound (waitq_sleep_slot q timeout_ticks i s)
unfolding waitq_sleep_slot
waitq_sleep_slot-IsSound q timeout_ticks i s v hi used hq own =
    elim (Bool-cases (task_at s i).is_idle) [
      | inl e ↦ rw e v
      | inr e ↦
          let a = v.agree i hi in
          let low : 0 < i = ground (arith, (a.root used).0) in
          let wake = if timeout_ticks == 0 then 0 else add32 s.ticks timeout_ticks in
          let k = task_at s i in
          let d = detach-Detached i s v hi in
          let t = sched_detach_waitq i s in
          let doze = λ (k : Task). record k {
            waitq = some q;
            state = blocked;
            wake_tick = wake;
            quantum_used = 0;
          } in
          let rb = λ (c : ℕ). is_queued s.online c i k in
          let wb = λ (r : ℕ). q == r || false in
          let inside : q < length t.waitqs = omega (arith, d.waitqs_len) in
          let w = put_waitq q (λ b. bits_set b i) t in
          let same : length w.waitqs ≡ length t.waitqs = length-set t.waitqs q _ in
          let u = put_task i doze w in
          let b = but_put i rb wb w doze (but_enter i rb (λ r. false) t q d.but hi inside) in
          rw e (
            settle_still i wb (sched_runq_del k.run_cpu i u) (doze k)
              (leave_runq i k.run_cpu wb k u b refl low hi)
              (get_or-set_self t.tasks i (doze (task_at t i)) zero_task
                  (omega (arith, d.but.shape.tasks_len))
                ∙ ap doze d.task)
              (λ c. ground arith) (λ r hr. ground arith)
              (λ r x. record {
                in_use = used;
                asleep = inl refl;
                inside = ground (arith, same, x);
                own = ground (arith, x, own);
              })
              a.root)
    ]

-- The queue is one of memory, and where it is a task's queue of children, the task's own.
pub sched_waitq_sleep_locked-IsSound :
    (q timeout_ticks cpu : ℕ) (s : Sched)
    → IsSound s
    → q < length s.waitqs
    → (q < max_tasks → q ≡ current_at s cpu)
    → IsSound (sched_waitq_sleep_locked (some q) timeout_ticks cpu s)
unfolding sched_waitq_sleep_locked
sched_waitq_sleep_locked-IsSound q timeout_ticks cpu s v hq own =
    elim (Option-cases (sched_current_slot cpu s)) [
      | inl e ↦ rw (e, sched_waitq_sleep_locked) v
      | inr (i, e) ↦
          let (hi, used, same) = current_lem cpu i s e in
          rw (e, sched_waitq_sleep_locked)
            (waitq_sleep_slot-IsSound q timeout_ticks i s v hi used hq (λ h. own h ∙ same))
    ]
