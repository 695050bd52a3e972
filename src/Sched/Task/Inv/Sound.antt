-- ===== src/Sched/Task/Inv/Sound.antt =====
-- What it is for the tables of tasks and queues to agree, for all tasks and for all tasks but one.
use octans.Prelude.{
  ℕ, ◌<◌, ◌≤◌, ◌≡◌, ◌≢◌, none, some, Bool, true, false, ◌&&◌, ◌||◌, not, ◌==◌, arith, ◌⊎◌, List,
  get_or, length, bits_test,
}
use octans.Sched.Task.State.{
  Task, Sched, max_tasks, max_cpus, runnable, sleeping, blocked, no_bits, zero_task,
}
use octans.Sched.Task.Queue.{normalize_of}

-- A used task other than the root is runnable, and `cpu` is its processor.
abbrev pub is_queued : ℕ → ℕ → ℕ → Task → Bool
is_queued online cpu i t =
    not (i == 0) && (t.used && (t.state == runnable && normalize_of online t.run_cpu == cpu))

abbrev pub waits_on : ℕ → Task → Bool
waits_on q t = elim t.waitq [ none ↦ false | some r ↦ r == q ]

abbrev pub IsAsleep : Task → Type 0
IsAsleep t = (t.state ≡ blocked) ⊎ (t.state ≡ sleeping)

-- The task `i` may wait on the queue `q` of `n`: it is in use and sleeps, and no queue of another
-- task's children is waited on.
pub record MayWait (n i q : ℕ) (t : Task) : Type 0 where
  pub in_use : t.used ≡ true
  pub asleep : IsAsleep t
  pub inside : q < n
  pub own : q < max_tasks → q ≡ i

abbrev pub has_entry : Task → Bool
has_entry t = elim t.entry [ none ↦ false | some _ ↦ true ]

-- The root task is the slot 0 and no other, and the others have a function to run.
abbrev pub IsKept : ℕ → Task → Type 0
IsKept j t = (t.is_idle ≡ (j == 0)) × ((j == 0 || has_entry t) ≡ true)

-- The lengths of the tables.
pub record Shape (tasks : List Task) (runq waitqs : List (List ℕ)) : Type 0 where
  pub tasks_len : length tasks ≡ max_tasks
  pub runq_len : length runq ≡ max_cpus
  pub runq_rows : (c : ℕ) → c < max_cpus → length (get_or runq c no_bits) ≡ 2
  pub waitqs_len : max_tasks ≤ length waitqs
  pub wait_rows : (q : ℕ) → q < length waitqs → length (get_or waitqs q no_bits) ≡ 2

-- What the queues say of the task `j`, and what the task says, agree.
pub record Agrees (tasks : List Task) (runq waitqs : List (List ℕ)) (online j : ℕ) : Type 0 where
  pub runs :
      (c : ℕ)
      → c < max_cpus
      → bits_test (get_or runq c no_bits) j ≡ is_queued online c j (get_or tasks j zero_task)
  pub waits :
      (q : ℕ)
      → q < length waitqs
      → bits_test (get_or waitqs q no_bits) j ≡ waits_on q (get_or tasks j zero_task)
  pub may :
      (q : ℕ)
      → (get_or tasks j zero_task).waitq ≡ some q
      → MayWait (length waitqs) j q (get_or tasks j zero_task)
  pub root : (get_or tasks j zero_task).used ≡ true → IsKept j (get_or tasks j zero_task)

pub record Sound (tasks : List Task) (runq waitqs : List (List ℕ)) (online : ℕ) : Type 0 where
  pub shape : Shape tasks runq waitqs
  pub agree : (j : ℕ) → j < max_tasks → Agrees tasks runq waitqs online j

-- All agree but the task `i`, which stands in the queues that `rb` and `wb` tell.
pub record But (i : ℕ) (rb wb : ℕ → Bool) (tasks : List Task) (runq waitqs : List (List ℕ))
    (online : ℕ) : Type 0 where
  pub shape : Shape tasks runq waitqs
  pub agree : (j : ℕ) → j < max_tasks → i ≢ j → Agrees tasks runq waitqs online j
  pub at_run : (c : ℕ) → c < max_cpus → bits_test (get_or runq c no_bits) i ≡ rb c
  pub at_wait : (q : ℕ) → q < length waitqs → bits_test (get_or waitqs q no_bits) i ≡ wb q

abbrev pub IsSound : Sched → Type 0
IsSound s = Sound s.tasks s.runq s.waitqs s.online

abbrev pub SoundBut : ℕ → (ℕ → Bool) → (ℕ → Bool) → Sched → Type 0
SoundBut i rb wb s = But i rb wb s.tasks s.runq s.waitqs s.online

pub normalize_bound : (online c : ℕ) → normalize_of online c < max_cpus
unfolding normalize_of
normalize_bound online c = ground arith

pub normalize_twice :
    (online c : ℕ) → normalize_of online (normalize_of online c) ≡ normalize_of online c
unfolding normalize_of
normalize_twice online c = ground arith
