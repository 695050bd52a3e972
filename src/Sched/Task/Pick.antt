-- ===== src/Sched/Task/Pick.antt =====
-- Which task `sched_runq_pick_local` and a round of `sched_run` choose.
use octans.Prelude.{
  ℕ, List, subst, ltb, ◌+◌, ◌-◌, ◌%◌, ◌<◌, ◌≤◌, ◌≡◌, refl, Bool, true, false, ◌&&◌, ◌||◌, not, ◌==◌,
  if◌then◌else◌, arith, inl, inr, ◌⊎◌, Bool-cases, Option-cases, add32, find_from, find_from-some,
  find_from-none, bits_test,
}
use octans.Sched.Task.State.{Sched, max_tasks, current_at}
use octans.Sched.Task.Queue.{
  normalize_of, runq_at, sched_runq_pick_local, sched_runq_steal_to, sched_pick_next_idx,
  sched_idx_runnable,
}
use octans.Sched.Task.Loop.{run_choose}

-- How many slots behind `start` the slot `j` is reached; `start` itself is the last.
abbrev pub distance : ℕ → ℕ → ℕ
distance start j = (j + 63 - start) % max_tasks

-- The slot that the search looks at in its round `off`.
abbrev pub candidate : ℕ → ℕ → ℕ
candidate start off = add32 start off % max_tasks

-- `r` is the first task of the queue behind `start`, or 0 where the queue is empty.
abbrev pub IsNextOf : List ℕ → ℕ → ℕ → Type 0
IsNextOf row start r =
    ((r ≡ 0) × ((j : ℕ) → 0 < j → j < max_tasks → bits_test row j ≡ false))
    ⊎ ((0 < r)
        × (r < max_tasks)
        × (bits_test row r ≡ true)
        × ((j : ℕ)
            → 0 < j
            → j < max_tasks
            → bits_test row j ≡ true
            → distance start r ≤ distance start j))

candidate-distance :
    (start j : ℕ)
    → start < max_tasks
    → 0 < j
    → j < max_tasks
    → candidate start (distance start j + 1) ≡ j
candidate-distance start j hs low hj = omega arith

distance-candidate :
    (start off : ℕ)
    → start < max_tasks
    → 1 ≤ off
    → off < 1 + max_tasks
    → distance start (candidate start off) + 1 ≡ off
distance-candidate start off hs low hj = omega arith

guarded : (j : ℕ) (b : Bool) → 0 < j → (not (j == 0) && b) ≡ false → b ≡ false
guarded j b low e = ground arith

guarded_hit : (j : ℕ) (b : Bool) → (not (j == 0) && b) ≡ true → (0 < j) × (b ≡ true)
guarded_hit j b e = (ground arith, ground arith)

not_less : (a b : ℕ) → ltb a b ≡ false → b ≤ a
not_less a b e = ground arith

less : (a b : ℕ) → ltb a b ≡ true → a < b
less a b e = ground arith

-- From a slot of the table on, `sched_runq_pick_local` finds the task of the processor's queue that
-- comes next behind it, going round the table and coming to the slot itself last; it answers 0 just
-- when no task is queued.
pub sched_runq_pick_local_lem :
    (cpu start : ℕ) (s : Sched)
    → start < max_tasks
    → IsNextOf (runq_at s (normalize_of s.online cpu)) start (sched_runq_pick_local cpu start s)
unfolding sched_runq_pick_local
sched_runq_pick_local_lem cpu start s hs =
    let row = runq_at s (normalize_of s.online cpu) in
    let fits = λ (off : ℕ). not (candidate start off == 0) && bits_test row (candidate start off) in
    elim (Option-cases (find_from fits max_tasks 1)) [
      | inl e ↦
          rw (e, sched_runq_pick_local)
            (inl (
              refl,
              λ j low hj.
                  let miss =
                    find_from-none fits max_tasks 1 (distance start j + 1) e (omega arith)
                      (omega arith) in
                  let back = candidate-distance start j hs low hj in
                  let at_j : (not (j == 0) && bits_test row j) ≡ false =
                    subst (λ x. (not (x == 0) && bits_test row x) ≡ false) back miss in
                  guarded j (bits_test row j) low at_j,
            ))
      | inr (off, e) ↦
          let (hit, low, high, first) = find_from-some fits max_tasks 1 off e in
          let r = candidate start off in
          let (positive, set) = guarded_hit r (bits_test row r) hit in
          rw (e, sched_runq_pick_local)
            (inr (
              positive,
              omega arith,
              set,
              λ j lowj hj member. elim (Bool-cases (ltb (distance start j + 1) off)) [
                | inr f ↦ omega (
                  arith,
                  distance-candidate start off hs low high,
                  not_less (distance start j + 1) off f,
                )
                | inl f ↦
                    let miss =
                      first (distance start j + 1) (omega arith)
                        (less (distance start j + 1) off f) in
                    let back = candidate-distance start j hs lowj hj in
                    let at_j : (not (j == 0) && bits_test row j) ≡ false =
                      subst (λ x. (not (x == 0) && bits_test row x) ≡ false) back miss in
                    let clear = guarded j (bits_test row j) lowj at_j in absurd (cc)
              ],
            ))
    ]

or_zero : (p : ℕ) → (if not (p == 0) then p else 0) ≡ p
or_zero p = ground arith

any_true : (b : Bool) → (b || true) ≡ true
any_true b = ground arith

-- `sched_run` leaves 0 as its current task whenever a round ends, so that each round starts from 0.
pub run_choose_lem :
    (cpu : ℕ) (s : Sched)
    → current_at s cpu ≡ 0
    → IsNextOf (runq_at s (normalize_of s.online cpu)) 0 (run_choose cpu s)
unfolding run_choose sched_pick_next_idx sched_idx_runnable sched_runq_steal_to
run_choose_lem cpu s idle =
    let p = sched_runq_pick_local_lem cpu 0 s (omega arith) in
    let off : sched_idx_runnable (current_at s cpu) s ≡ false = rw idle refl in
    let e : sched_pick_next_idx cpu 0 s ≡ sched_runq_pick_local cpu 0 s =
      or_zero (sched_runq_pick_local cpu 0 s) in
    rw (run_choose, off, any_true s.need_resched, idle, e) p
