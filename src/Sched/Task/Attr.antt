-- ===== src/Sched/Task/Attr.antt =====
-- What a task asks and sets of itself: its kind, its directory, its file mask and its ids, of
-- src/sched_task.c and src/sched.c.
use octans.Prelude.{
  ℕ, zero, suc, ◌-◌, ◌%◌, ◌<◌, ◌≤◌, ◌≡◌, refl, ap, ◌∙◌, ℤ, negsuc, Option, none, some, Bool, true,
  false, not, ◌==◌, ◌&&◌, ltb, leb, if◌then◌else◌, arith, List, [], ◌∷◌, get_or, take, length,
  bits_test,
}
use octans.Sched.Task.State.{
  Task, Sched, kind_kernel, kind_user, exec_none, exec_kernel, exec_user, max_tasks, task_at,
  put_task,
}
use octans.Sched.Task.Queue.{sched_current_slot, sched_wake_slot, waitq_at}
use octans.Sched.Task.Slots.{to_i32, sched_cwd_copy}
use octans.Sched.Task.Life.{sched_vfork_restore_parent_user_locked, parent_of}
use octans.Sched.Task.Signals.{signal_slot}
use octans.Sched.Task.Due.{put_task_same}
use octans.Sched.Task.Inv.Sleep.{current_lem}

unfoldable pub sched_task_kind_normalize : ℕ → ℕ
sched_task_kind_normalize kind = if kind == kind_user then kind_user else kind_kernel

unfoldable pub sched_exec_state_normalize : ℕ → ℕ
sched_exec_state_normalize exec_state =
    if exec_state == exec_kernel
    then exec_kernel
    else if exec_state == exec_user
    then exec_user
    else exec_none

-- A write to the slot that runs, and a question to it; `sched_current_slot` answers used slots only.
abbrev pub on_current : ℕ → (Task → Task) → Sched → Sched
on_current cpu f s = elim (sched_current_slot cpu s) [ none ↦ s | some i ↦ put_task i f s ]

unfoldable pub sched_task_set_kind : ℕ → ℕ → Sched → Sched
unfolding sched_current_slot sched_task_kind_normalize
sched_task_set_kind kind cpu s =
    on_current cpu (λ t. record t { kind = sched_task_kind_normalize kind }) s

unfoldable pub sched_task_set_exec_state : ℕ → ℕ → Sched → Sched
unfolding sched_current_slot sched_exec_state_normalize
sched_task_set_exec_state exec_state cpu s =
    on_current cpu (λ t. record t { exec_state = sched_exec_state_normalize exec_state }) s

unfoldable pub sched_task_get_kind : ℕ → Sched → ℕ
unfolding sched_current_slot sched_task_kind_normalize
sched_task_get_kind cpu s = elim (sched_current_slot cpu s) [
  | none ↦ kind_kernel
  | some i ↦ sched_task_kind_normalize (task_at s i).kind
]

unfoldable pub sched_task_get_exec_state : ℕ → Sched → ℕ
unfolding sched_current_slot sched_exec_state_normalize
sched_task_get_exec_state cpu s = elim (sched_current_slot cpu s) [
  | none ↦ exec_none
  | some i ↦ sched_exec_state_normalize (task_at s i).exec_state
]

unfoldable pub sched_current_tid : ℕ → Sched → ℤ
unfolding sched_current_slot
sched_current_tid cpu s = elim (sched_current_slot cpu s) [
  | none ↦ negsuc 0
  | some i ↦ to_i32 (task_at s i).tid
]

unfoldable pub sched_current_ppid : ℕ → Sched → ℤ
unfolding sched_current_slot
sched_current_ppid cpu s = elim (sched_current_slot cpu s) [
  | none ↦ negsuc 0
  | some i ↦ (task_at s i).ppid
]

-- The copying loop: `room` bytes fit before the 0.
unfoldable pub copy_cwd : ℕ → List ℕ → Option (List ℕ)
copy_cwd room [] = some []
copy_cwd zero (x ∷ xs) = none
copy_cwd (suc room) (x ∷ xs) = elim (copy_cwd room xs) [ none ↦ none | some ys ↦ some (x ∷ ys) ]

-- The path stored at `dst`, which is not NULL; `none` for -1.
unfoldable pub sched_current_getcwd : ℕ → ℕ → Sched → Option (List ℕ)
unfolding sched_current_slot copy_cwd
sched_current_getcwd size cpu s =
    let there : Option (List ℕ) = elim (sched_current_slot cpu s) [
      | none ↦ none
      | some i ↦ copy_cwd (size - 1) (task_at s i).cwd
    ] in
    if size == 0 then none else there

-- The Bool is false for -1. A path is the bytes before its 0.
unfoldable pub sched_current_setcwd : List ℕ → ℕ → Sched → Sched × Bool
unfolding sched_current_slot sched_cwd_copy
sched_current_setcwd path cpu s =
    let there : Sched × Bool = elim (sched_current_slot cpu s) [
      | none ↦ (s, false)
      | some i ↦ (put_task i (λ t. record t { cwd = sched_cwd_copy path }) s, true)
    ] in
    if not (get_or path 0 0 == b'/') then (s, false) else there

unfoldable pub sched_current_umask : ℕ → ℕ → Sched → Sched × ℕ
unfolding signal_slot
sched_current_umask new_mask cpu s = elim (signal_slot cpu s) [
  | none ↦ (s, 0o022)
  | some i ↦ (
    put_task i (λ t. record t { file_umask = new_mask % 0o1000 }) s,
    (task_at s i).file_umask % 0o1000,
  )
]

unfoldable pub sched_current_umask_get : ℕ → Sched → ℕ
unfolding signal_slot
sched_current_umask_get cpu s = elim (signal_slot cpu s) [
  | none ↦ 0o022
  | some i ↦ (task_at s i).file_umask % 0o1000
]

-- The part of `sched_vfork_release_parent` behind its tests, for the slot that runs. The parent is
-- woken if it stands in the queue of its own children.
unfoldable pub release_slot : ℕ → Sched → Sched
unfolding sched_vfork_restore_parent_user_locked bits_test sched_wake_slot
release_slot i s =
    let t =
      put_task i (λ k. record k { vfork_child_active = false })
        (sched_vfork_restore_parent_user_locked i s) in
    elim (parent_of i t) [
      | none ↦ t
      | some p ↦ if ltb p max_tasks && bits_test (waitq_at t p) p then sched_wake_slot p t else t
    ]

unfoldable pub sched_vfork_release_parent : ℕ → Sched → Sched
unfolding signal_slot release_slot
sched_vfork_release_parent cpu s = elim (signal_slot cpu s) [
  | none ↦ s
  | some i ↦ if not (task_at s i).vfork_child_active then s else release_slot i s
]

copy_cwd_fits : (room : ℕ) (path : List ℕ) → length path ≤ room → copy_cwd room path ≡ some path
unfolding copy_cwd
copy_cwd_fits room [] h = refl
copy_cwd_fits zero (x ∷ xs) h = absurd (omega (arith, h))
copy_cwd_fits (suc room) (x ∷ xs) h = rw (copy_cwd_fits room xs (omega (arith, h))) refl

-- A write that leaves `used` leaves the current slot.
current_keeps :
    (cpu i : ℕ) (f : Task → Task) (s : Sched)
    → length s.tasks ≡ max_tasks
    → sched_current_slot cpu s ≡ some i
    → (f (task_at s i)).used ≡ (task_at s i).used
    → sched_current_slot cpu (put_task i f s) ≡ some i
unfolding sched_current_slot
current_keeps cpu i f s len e same =
    let (hi, used, at_i) = current_lem cpu i s e in
    let now = put_task_same i f s len hi in
    rw (at_i) (inside i _ hi (ap (λ (k : Task). k.used) now ∙ same ∙ used))
  where
    inside :
        (i : ℕ) (used : Bool)
        → i < max_tasks
        → used ≡ true
        → (if leb max_tasks i then none else if not used then none else some i) ≡ some i
    inside i used hi e = rw e (ground arith)

sched_cwd_copy-slash :
    (path : List ℕ) → (get_or path 0 0 == b'/') ≡ true → sched_cwd_copy path ≡ take 63 path
unfolding sched_cwd_copy
sched_cwd_copy-slash path starts = rw starts refl

-- For the task that runs, `sched_current_getcwd` with room enough gives back the path that
-- `sched_current_setcwd` was given, where that starts with a slash, and only the first 63 bytes of a
-- longer one, although setting that succeeds as well.
pub getcwd-setcwd :
    (path : List ℕ) (size cpu i : ℕ) (s : Sched)
    → length s.tasks ≡ max_tasks
    → sched_current_slot cpu s ≡ some i
    → get_or path 0 0 ≡ b'/'
    → length (take 63 path) < size
    → ((sched_current_setcwd path cpu s).1 ≡ true)
      × (sched_current_getcwd size cpu (sched_current_setcwd path cpu s).0 ≡ some (take 63 path))
unfolding sched_current_setcwd sched_current_getcwd
getcwd-setcwd path size cpu i s len e slash room =
    let (hi, _, _) = current_lem cpu i s e in
    let f = λ (t : Task). record t { cwd = sched_cwd_copy path } in
    let t = put_task i f s in
    let starts : (get_or path 0 0 == b'/') ≡ true = rw slash refl in
    let copied = sched_cwd_copy-slash path starts in
    let set : sched_current_setcwd path cpu s ≡ (t, true) =
      accepted _ _ _ starts ∙ found i (sched_current_slot cpu s) f s e in
    let there = current_keeps cpu i f s len e refl in
    let cwd : (task_at t i).cwd ≡ take 63 path =
      ap (λ (k : Task). k.cwd) (put_task_same i f s len hi) ∙ copied in
    let some_room : (size == 0) ≡ false = positive size (length (take 63 path)) room in
    (
      ap (λ p. p.1) set,
      ap (λ p. sched_current_getcwd size cpu p.0) set
          ∙ rw (sched_current_getcwd, some_room, there, cwd)
              (copy_cwd_fits (size - 1) (take 63 path) (omega (arith, room))),
    )
  where
    accepted : (b : Bool) (x y : Sched × Bool) → b ≡ true → (if not b then x else y) ≡ y
    accepted b x y e = rw e refl

    found :
        (i : ℕ) (o : Option ℕ) (f : Task → Task) (s : Sched)
        → o ≡ some i
        → (let r : Sched × Bool = elim o [ none ↦ (s, false) | some j ↦ (put_task j f s, true) ] in
            r ≡ (put_task i f s, true))
    found i o f s e = rw e refl

    positive : (size n : ℕ) → n < size → (size == 0) ≡ false
    positive size n h = ground arith
