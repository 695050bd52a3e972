-- ===== src/Sched/Task/Inv/Moves.antt =====
-- Single writes to the tables, while all tasks but one agree with the queues.
use octans.Prelude.{
  ℕ, ◌*◌, ◌<◌, ◌≡◌, ◌≢◌, ◌∙◌, some, Bool, true, false, ◌&&◌, ◌||◌, not, ◌==◌, if◌then◌else◌, arith,
  inl, inr, Bool-cases, List, modify, length, length-set, get_or-set_ne, bits_test, bits_set,
  bits_clear, bits_test-bits_set, bits_test-bits_clear, length-bits_set, bits_test-modify,
  bits_test-modify_same, length-modify_row, length-bits_clear, leb,
}
use octans.Sched.Task.State.{
  Task, Sched, max_tasks, max_cpus, no_bits, task_at, put_task, zero_task,
}
use octans.Sched.Task.Queue.{
  normalize_of, runq_at, waitq_at, put_waitq, sched_runq_add, sched_runq_del,
}
use octans.Sched.Task.Inv.Sound.{
  is_queued, waits_on, IsKept, MayWait, IsSound, SoundBut, normalize_bound,
}

-- To look away from the task `i`, and back.
pub but_open :
    (s : Sched) (i : ℕ)
    → IsSound s
    → i < max_tasks
    → SoundBut i (λ c. is_queued s.online c i (task_at s i)) (λ q. waits_on q (task_at s i)) s
but_open s i v hi = record {
  shape = v.shape;
  agree = λ j hj ne. v.agree j hj;
  at_run = (v.agree i hi).runs;
  at_wait = (v.agree i hi).waits;
}

module _ (i : ℕ) (rb wb : ℕ → Bool) (s : Sched) where
  pub but_close :
      SoundBut i rb wb s
      → ((c : ℕ) → c < max_cpus → rb c ≡ is_queued s.online c i (task_at s i))
      → ((q : ℕ) → q < length s.waitqs → wb q ≡ waits_on q (task_at s i))
      → ((q : ℕ) → (task_at s i).waitq ≡ some q → MayWait (length s.waitqs) i q (task_at s i))
      → ((task_at s i).used ≡ true → IsKept i (task_at s i))
      → IsSound s
  but_close b run wait may root = record {
    shape = b.shape;
    agree = λ j hj. elim (Bool-cases (i == j)) [
      | inr other ↦ b.agree j hj (ground arith)
      | inl same ↦
          let e : i ≡ j = ground arith in
          rw (← e) (record {
            runs = λ c hc. b.at_run c hc ∙ run c hc;
            waits = λ q hq. b.at_wait q hq ∙ wait q hq;
            may = may;
            root = root;
          })
    ];
  }

  pub but_ext :
      (rb' wb' : ℕ → Bool)
      → SoundBut i rb wb s
      → ((c : ℕ) → c < max_cpus → rb c ≡ rb' c)
      → ((q : ℕ) → q < length s.waitqs → wb q ≡ wb' q)
      → SoundBut i rb' wb' s
  but_ext rb' wb' b run wait = record {
    shape = b.shape;
    agree = b.agree;
    at_run = λ c hc. b.at_run c hc ∙ run c hc;
    at_wait = λ q hq. b.at_wait q hq ∙ wait q hq;
  }

  -- A write to the task itself.
  pub but_put : (f : Task → Task) → SoundBut i rb wb s → SoundBut i rb wb (put_task i f s)
  but_put f b = record {
    shape = record {
      tasks_len = length-set s.tasks i _ ∙ b.shape.tasks_len;
      runq_len = b.shape.runq_len;
      runq_rows = b.shape.runq_rows;
      waitqs_len = b.shape.waitqs_len;
      wait_rows = b.shape.wait_rows;
    };
    agree = λ j hj ne.
        let same = get_or-set_ne s.tasks i j (f (task_at s i)) zero_task ne in
        let a = b.agree j hj ne in
        record {
          runs = λ c hc. rw same (a.runs c hc);
          waits = λ q hq. rw same (a.waits q hq);
          may = rw same (a.may);
          root = rw same (a.root);
        };
    at_run = b.at_run;
    at_wait = b.at_wait;
  }

  -- A write to one row of the run queues, which leaves the other tasks' bits alone.
  but_runq :
      (f : List ℕ → List ℕ) (c : ℕ) (rb' : ℕ → Bool)
      → SoundBut i rb wb s
      → c < max_cpus
      → length (f (runq_at s c)) ≡ 2
      → ((j : ℕ) → i ≢ j → bits_test (f (runq_at s c)) j ≡ bits_test (runq_at s c) j)
      → ((k : ℕ)
          → k < max_cpus
          → (if c == k then bits_test (f (runq_at s c)) i else bits_test (runq_at s k) i) ≡ rb' k)
      → SoundBut i rb' wb (record s { runq = modify s.runq c f no_bits })
  but_runq f c rb' b hc len others here =
      let h : c < length s.runq = omega (arith, b.shape.runq_len) in
      record {
        shape = record {
          tasks_len = b.shape.tasks_len;
          runq_len = length-set s.runq c _ ∙ b.shape.runq_len;
          runq_rows =
              λ k hk. length-modify_row s.runq c f no_bits k 2 h len (b.shape.runq_rows k hk);
          waitqs_len = b.shape.waitqs_len;
          wait_rows = b.shape.wait_rows;
        };
        agree = λ j hj ne.
            let a = b.agree j hj ne in
            record {
              runs = λ k hk.
                  bits_test-modify_same s.runq c f no_bits k j h (others j ne) ∙ a.runs k hk;
              waits = a.waits;
              may = a.may;
              root = a.root;
            };
        at_run = λ k hk. bits_test-modify s.runq c f no_bits k i h ∙ here k hk;
        at_wait = b.at_wait;
      }

  -- A write to one wait queue.
  pub but_waitq :
      (f : List ℕ → List ℕ) (q : ℕ) (wb' : ℕ → Bool)
      → SoundBut i rb wb s
      → q < length s.waitqs
      → length (f (waitq_at s q)) ≡ 2
      → ((j : ℕ)
          → j < max_tasks
          → i ≢ j
          → bits_test (f (waitq_at s q)) j ≡ bits_test (waitq_at s q) j)
      → ((k : ℕ)
          → k < length s.waitqs
          → (if q == k then bits_test (f (waitq_at s q)) i else bits_test (waitq_at s k) i) ≡ wb' k)
      → SoundBut i rb wb' (put_waitq q f s)
  but_waitq f q wb' b h len others here =
      let same : length (modify s.waitqs q f no_bits) ≡ length s.waitqs = length-set s.waitqs q _ in
      record {
        shape = record {
          tasks_len = b.shape.tasks_len;
          runq_len = b.shape.runq_len;
          runq_rows = b.shape.runq_rows;
          waitqs_len = omega (arith, same, b.shape.waitqs_len);
          wait_rows = λ k hk.
              length-modify_row s.waitqs q f no_bits k 2 h len
                (b.shape.wait_rows k (omega (arith, same)));
        };
        agree = λ j hj ne.
            let a = b.agree j hj ne in
            record {
              runs = a.runs;
              waits = λ k hk.
                  bits_test-modify_same s.waitqs q f no_bits k j h (others j hj ne)
                  ∙ a.waits k (omega (arith, same));
              may = rw same (a.may);
              root = a.root;
            };
        at_run = b.at_run;
        at_wait =
            λ k hk. bits_test-modify s.waitqs q f no_bits k i h ∙ here k (omega (arith, same));
      }

  -- Adding the task to a run queue, and taking it out.
  pub but_add :
      (cpu : ℕ)
      → SoundBut i rb wb s
      → 0 < i
      → i < max_tasks
      → SoundBut i (λ k. normalize_of s.online cpu == k || rb k) wb (sched_runq_add cpu i s)
  unfolding sched_runq_add
  but_add cpu b low hi =
      let c = normalize_of s.online cpu in
      let hc = normalize_bound s.online cpu in
      let guard : (i == 0 || leb max_tasks i) ≡ false = ground arith in
      let in_row : i < 32 * length (runq_at s c) = omega (arith, b.shape.runq_rows c hc) in
      rw guard (
        but_runq (λ m. bits_set m i) c (λ k. c == k || rb k) b hc
          (length-bits_set (runq_at s c) i ∙ b.shape.runq_rows c hc)
          (λ j ne. ground (arith, bits_test-bits_set (runq_at s c) i j in_row))
          (λ k hk. ground (arith, bits_test-bits_set (runq_at s c) i i in_row, b.at_run k hk)))

  pub but_del :
      (cpu : ℕ)
      → SoundBut i rb wb s
      → 0 < i
      → i < max_tasks
      → SoundBut i (λ k. not (normalize_of s.online cpu == k) && rb k) wb (sched_runq_del cpu i s)
  unfolding sched_runq_del
  but_del cpu b low hi =
      let c = normalize_of s.online cpu in
      let hc = normalize_bound s.online cpu in
      let guard : (i == 0 || leb max_tasks i) ≡ false = ground arith in
      let in_row : i < 32 * length (runq_at s c) = omega (arith, b.shape.runq_rows c hc) in
      rw guard (
        but_runq (λ m. bits_clear m i) c (λ k. not (c == k) && rb k) b hc
          (length-bits_clear (runq_at s c) i ∙ b.shape.runq_rows c hc)
          (λ j ne. ground (arith, bits_test-bits_clear (runq_at s c) i j in_row))
          (λ k hk. ground (arith, bits_test-bits_clear (runq_at s c) i i in_row, b.at_run k hk)))

  -- Adding the task to a wait queue, and taking it out.
  pub but_enter :
      (q : ℕ)
      → SoundBut i rb wb s
      → i < max_tasks
      → q < length s.waitqs
      → SoundBut i rb (λ k. q == k || wb k) (put_waitq q (λ m. bits_set m i) s)
  but_enter q b hi hq =
      let in_row : i < 32 * length (waitq_at s q) = omega (arith, b.shape.wait_rows q hq) in
      but_waitq (λ m. bits_set m i) q (λ k. q == k || wb k) b hq
        (length-bits_set (waitq_at s q) i ∙ b.shape.wait_rows q hq)
        (λ j hj ne. ground (arith, bits_test-bits_set (waitq_at s q) i j in_row))
        (λ k hk. ground (arith, bits_test-bits_set (waitq_at s q) i i in_row, b.at_wait k hk))

  pub but_leave :
      (q : ℕ)
      → SoundBut i rb wb s
      → i < max_tasks
      → q < length s.waitqs
      → SoundBut i rb (λ k. not (q == k) && wb k) (put_waitq q (λ m. bits_clear m i) s)
  but_leave q b hi hq =
      let in_row : i < 32 * length (waitq_at s q) = omega (arith, b.shape.wait_rows q hq) in
      but_waitq (λ m. bits_clear m i) q (λ k. not (q == k) && wb k) b hq
        (length-bits_clear (waitq_at s q) i ∙ b.shape.wait_rows q hq)
        (λ j hj ne. ground (arith, bits_test-bits_clear (waitq_at s q) i j in_row))
        (λ k hk. ground (arith, bits_test-bits_clear (waitq_at s q) i i in_row, b.at_wait k hk))
