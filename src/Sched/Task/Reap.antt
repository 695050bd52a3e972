-- ===== src/Sched/Task/Reap.antt =====
-- Which child `sched_try_reap_child` finds.
use octans.Prelude.{
  ℕ, zero, suc, ◌+◌, ◌<◌, ◌≡◌, ◌≢◌, refl, ap, sym, ◌∙◌, ℤ, Option, none, some, Bool, true, false,
  ◌&&◌, ◌||◌, not, ◌==◌, if◌then◌else◌, arith, inl, inr, Bool-cases, find_from, find_from-some,
  Option-cases, ◌⊎◌, pos, negsuc, ◌*◌, ◌%◌, ◌-◌, length, length-set, get_or-set_self, leb, ltb,
}
use octans.Sched.Task.State.{Sched, zombie, task_at, zero_task, max_tasks, stack_slots}
use octans.Sched.Task.Slots.{
  sched_task_is_child_of, to_i32, sched_stack_free_locked, sched_clear_task,
}
use octans.Sched.Task.Queue.{sched_runq_del}
use octans.Sched.Task.Life.{reap_from, sched_try_reap_child}

-- The slot holds a child that has ended.
abbrev pub is_ended_child : ℤ → ℤ → Sched → ℕ → Bool
is_ended_child parent_tid pid s k =
    sched_task_is_child_of (task_at s k) parent_tid pid && (task_at s k).state == zombie

abbrev pub is_child : ℤ → ℤ → Sched → ℕ → Bool
is_child parent_tid pid s k = sched_task_is_child_of (task_at s k) parent_tid pid

abbrev pub is_some : Option ℕ → Bool
is_some o = elim o [ none ↦ false | some _ ↦ true ]

nothing_found : (i : ℕ) → none ≢ some i
nothing_found i e = absurd cc

or_false : (b : Bool) → b ≡ (b || false)
or_false b = ground arith

or_true : (b : Bool) → true ≡ (b || true)
or_true b = ground arith

module _ (parent_tid pid : ℤ) (s : Sched) where
  -- The three ways that a round goes.
  module _ (left i : ℕ) (seen : Bool) where
    round_other :
        is_child parent_tid pid s i ≡ false
        → reap_from parent_tid pid (suc left) i seen s
          ≡ reap_from parent_tid pid left (i + 1) seen s
    unfolding reap_from
    round_other e = rw e refl

    round_alive :
        is_child parent_tid pid s i ≡ true
        → ((task_at s i).state == zombie) ≡ false
        → reap_from parent_tid pid (suc left) i seen s
          ≡ reap_from parent_tid pid left (i + 1) true s
    unfolding reap_from
    round_alive e z = rw (e, z) refl

    round_ended :
        is_child parent_tid pid s i ≡ true
        → ((task_at s i).state == zombie) ≡ true
        → reap_from parent_tid pid (suc left) i seen s ≡ (some i, true)
    unfolding reap_from
    round_ended e z = rw (e, z) refl

  -- The first of them is found.
  pub reap_from_first :
      (left i : ℕ) (seen : Bool)
      → (reap_from parent_tid pid left i seen s).0
        ≡ find_from (is_ended_child parent_tid pid s) left i
  unfolding reap_from find_from
  reap_from_first zero i seen = refl
  reap_from_first (suc left) i seen = elim (Bool-cases (is_child parent_tid pid s i)) [
    | inr e ↦ rw e (reap_from_first left (i + 1) seen)
    | inl e ↦ elim (Bool-cases ((task_at s i).state == zombie)) [
      | inl z ↦ rw (e, z) refl
      | inr z ↦ rw (e, z) (reap_from_first left (i + 1) true)
    ]
  ]

  -- Where none is, it is told whether a child is there.
  pub reap_from-none :
      (left i : ℕ) (seen : Bool)
      → (reap_from parent_tid pid left i seen s).0 ≡ none
      → (reap_from parent_tid pid left i seen s).1
        ≡ (seen || is_some (find_from (is_child parent_tid pid s) left i))
  unfolding reap_from find_from
  reap_from-none zero i seen n = or_false seen
  reap_from-none (suc left) i seen n = elim (Bool-cases (is_child parent_tid pid s i)) [
    | inr e ↦
        let same = round_other left i seen e in
        ap (λ p. p.1) same
        ∙ reap_from-none left (i + 1) seen (sym (ap (λ p. p.0) same) ∙ n)
        ∙ rw e refl
    | inl e ↦ elim (Bool-cases ((task_at s i).state == zombie)) [
      | inl z ↦
          let ends = ap (λ p. p.0) (round_ended left i seen e z) in
          absurd (nothing_found i (sym n ∙ ends))
      | inr z ↦
          let same = round_alive left i seen e z in
          ap (λ p. p.1) same
          ∙ reap_from-none left (i + 1) true (sym (ap (λ p. p.0) same) ∙ n)
          ∙ rw e (or_true seen)
    ]
  ]

-- The slot of the first child that has ended.
abbrev pub first_ended : ℤ → ℤ → Sched → Option ℕ
first_ended parent_tid pid s = find_from (is_ended_child parent_tid pid s) (max_tasks - 1) 1

abbrev pub has_child : ℤ → ℤ → Sched → Bool
has_child parent_tid pid s = is_some (find_from (is_child parent_tid pid s) (max_tasks - 1) 1)

free-len : (i : ℕ) (s : Sched) → length (sched_stack_free_locked i s).tasks ≡ length s.tasks
unfolding sched_stack_free_locked
free-len i s =
    let c = (task_at s i).stack_ctx in
    if_len (not c.valid) _ _ _ refl (
      if_len (leb stack_slots c.pool_slot) _ _ _ refl
        (if_len (ltb c.pool_slot s.stack_reserved) _ _ _ refl (length-set s.tasks i _)))
  where
    if_len :
        (test : Bool) (a b : Sched) (n : ℕ)
        → length a.tasks ≡ n
        → length b.tasks ≡ n
        → length (if test then a else b).tasks ≡ n
    if_len true a b n x y = x
    if_len false a b n x y = y

-- What a call answers and leaves, by what the table of tasks holds.
abbrev pub ReapsFirst : ℤ → ℤ → Sched → Type 0
ReapsFirst parent_tid pid s =
    ((first_ended parent_tid pid s ≡ none)
      × (sched_try_reap_child parent_tid pid s
          ≡ (s, (if has_child parent_tid pid s then pos 0 else negsuc 0), none)))
    ⊎ ((i : ℕ) × (first_ended parent_tid pid s ≡ some i)
        × ((sched_try_reap_child parent_tid pid s).1 ≡ to_i32 (task_at s i).tid)
        × ((sched_try_reap_child parent_tid pid s).2 ≡ some ((task_at s i).exit_code % 256 * 256))
        × (task_at (sched_try_reap_child parent_tid pid s).0 i ≡ zero_task))

-- Where no child has ended `sched_try_reap_child` changes nothing, and answers 0 if there is a child
-- and -1 if not. Otherwise it answers the tid and the exit code, shifted by 8, of the first child in
-- the table that has ended, and clears its slot. The table has 64 slots.
pub sched_try_reap_child_lem :
    (parent_tid pid : ℤ) (s : Sched) → length s.tasks ≡ max_tasks → ReapsFirst parent_tid pid s
unfolding sched_try_reap_child sched_clear_task sched_runq_del
sched_try_reap_child_lem parent_tid pid s len =
    let r = reap_from parent_tid pid (max_tasks - 1) 1 false s in
    let same = reap_from_first parent_tid pid s (max_tasks - 1) 1 false in
    elim (Option-cases r.0) [
      | inl e ↦ inl (
        sym same ∙ e,
        rw (e, sched_try_reap_child, reap_from-none parent_tid pid s (max_tasks - 1) 1 false e)
            refl,
      )
      | inr (i, e) ↦
          let (_, _, hi, _) =
            find_from-some (is_ended_child parent_tid pid s) (max_tasks - 1) 1 i (sym same ∙ e) in
          let t = sched_stack_free_locked i (sched_runq_del (task_at s i).run_cpu i s) in
          let inside : i < length t.tasks =
            omega (arith, free-len i (sched_runq_del (task_at s i).run_cpu i s), len) in
          inr (
            i,
            sym same ∙ e,
            rw (e, sched_try_reap_child) refl,
            rw (e, sched_try_reap_child) refl,
            rw (e, sched_try_reap_child) (get_or-set_self t.tasks i zero_task zero_task inside),
          )
    ]
