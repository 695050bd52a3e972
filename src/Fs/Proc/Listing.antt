-- ===== src/Fs/Proc/Listing.antt =====
-- What a program sees that calls `fs_proc_getdents_fd` on /proc until the answer is 0.
use octans.Prelude.{
  ℕ, zero, suc, ◌+◌, ◌-◌, ◌<◌, ◌≤◌, ◌≡◌, refl, sym, ap, ap₂, subst, ◌∙◌, pos, List, [], ◌∷◌, ◌++◌,
  Bool, true, false, Option, none, some, inl, inr, Bool-cases, Option-cases, ltb, if◌then◌else◌,
  min, drop, get_or, find_from, find_from-some, add32, sub32, ok, arith,
}
use octans.Sched.Fd.State.{Ofile, Slot, Pipes, System}
use octans.Sched.Task.State.{max_tasks}
use octans.Fs.Base.{backend_proc}
use octans.Fs.Proc.Inode.{Entry, ino_root, proc_entries, proc_entry_count, proc_directory_size}
use octans.Fs.Proc.Build.{Kernel}
use octans.Fs.Proc.Handle.{IsOpen, moved_to, running_on, regular_get-IsOpen, regular_advance-IsOpen}
use octans.Fs.Proc.Ops.{
  Dirent, dirent_of, dirent_size, is_listed, slot_dirent, static_dirent, root_dirent, give_dirent,
  found_dirent, fs_proc_getdents_fd, getdents_found, Filled, no_entry,
}

-- The entries of up to `fuel` calls.
unfoldable pub list_dir : ℕ → ℕ → Kernel → System → List Dirent
list_dir zero fd k s = []
list_dir (suc fuel) fd k s =
    let (s', code, found) = fs_proc_getdents_fd (pos fd) true dirent_size k s in
    let rest = list_dir fuel fd k s' in elim found [ none ↦ [] | some d ↦ d ∷ rest ]

-- The entries of the tasks in the `n` slots from `i` on.
unfoldable pub task_dirents : Kernel → ℕ → ℕ → List Dirent
task_dirents k zero i = []
task_dirents k (suc n) i =
    let rest = task_dirents k n (i + 1) in if is_listed k i then slot_dirent k i ∷ rest else rest

-- The entries of a table, the first with the given `d_off`.
unfoldable pub numbered : ℕ → List Entry → List Dirent
numbered d_off [] = []
numbered d_off (e ∷ es) = dirent_of d_off e ∷ numbered (d_off + 1) es

-- The same calls, with the position alone for the layer.
walk : ℕ → Kernel → ℕ → List Dirent
walk zero k offset = []
walk (suc fuel) k offset = elim (root_dirent k offset) [
  | none ↦ []
  | some d ↦ d ∷ walk fuel k d.d_off
]

-- A directory's descriptor for /proc, as `fs_proc_open` makes it, at an offset.
pub record IsRoot (f : Ofile) : Type 0 where
  pub backend : f.fs_backend ≡ backend_proc
  pub is_dir : f.file_is_dir ≡ true
  pub file_id : f.file_id ≡ ino_root
  pub size : f.file_size ≡ proc_directory_size ino_root
  pub within : f.file_offset ≤ f.file_size

entry_if :
    (b : Bool) (x d : Dirent)
    → (if b then some x else none) ≡ some d
    → (b ≡ true) × (x.d_off ≡ d.d_off)
entry_if true x d e = (refl, ground arith)
entry_if false x d e = absurd (ground arith)

static_ahead :
    (offset : ℕ) (d : Dirent)
    → offset ≤ 73
    → static_dirent offset ≡ some d
    → (offset < d.d_off) × (d.d_off ≤ 73)
static_ahead offset d h e =
    let (below, number) = entry_if (ltb offset (max_tasks + proc_entry_count)) _ d e in
    ground (arith, number)

dirent_ahead :
    (k : Kernel) (offset : ℕ) (d : Dirent)
    → offset ≤ 73
    → root_dirent k offset ≡ some d
    → (offset < d.d_off) × (d.d_off ≤ 73)
unfolding root_dirent slot_dirent
dirent_ahead k offset d h e =
    let start = add32 offset 1 in
    elim (Option-cases (find_from (is_listed k) (max_tasks - start) start)) [
      | inl miss ↦ static_ahead offset d h (rw (miss, root_dirent) at e)
      | inr (i, hit) ↦
          let (listed, low, high, first) =
            find_from-some (is_listed k) (max_tasks - start) start i hit in
          let same : slot_dirent k i ≡ d = ground (arith, rw (hit, root_dirent) at e) in
          let number : i ≡ d.d_off = ap (λ (g : Dirent). g.d_off) same in
          (omega (arith, low, high, number), omega (arith, low, high, number))
    ]

root_end : (k : Kernel) → root_dirent k 73 ≡ none
unfolding root_dirent find_from
root_end k = refl

getdents-IsRoot :
    (fd : ℕ) (f : Ofile) (slot : Slot) (pipes : Pipes) (k : Kernel)
    → IsOpen fd f slot
    → IsRoot f
    → fs_proc_getdents_fd (pos fd) true dirent_size k (running_on slot pipes)
      ≡ give_dirent (pos fd) f.file_offset (root_dirent k f.file_offset) (running_on slot pipes)
unfolding fs_proc_getdents_fd getdents_found
getdents-IsRoot fd f slot pipes k h r =
    ap (getdents_found (pos fd) k) (regular_get-IsOpen fd f slot pipes h) ∙ met
  where
    met :
        getdents_found (pos fd) k (running_on slot pipes, ok f)
        ≡ give_dirent (pos fd) f.file_offset (root_dirent k f.file_offset) (running_on slot pipes)
    met = rw (r.backend, r.is_dir, r.file_id, getdents_found) refl

-- What follows the answer to one call.
continue : ℕ → ℕ → Kernel → Filled Dirent → List Dirent
continue fuel fd k (s, code, found) = elim found [ none ↦ [] | some d ↦ d ∷ list_dir fuel fd k s ]

walk_on : ℕ → Kernel → Option Dirent → List Dirent
walk_on fuel k none = []
walk_on fuel k (some d) = d ∷ walk fuel k d.d_off

after :
    (fuel fd : ℕ) (f : Ofile) (slot : Slot) (pipes : Pipes) (k : Kernel)
    → IsOpen fd f slot
    → IsRoot f
    → ((g : Ofile) (slot' : Slot)
        → IsOpen fd g slot'
        → IsRoot g
        → list_dir fuel fd k (running_on slot' pipes) ≡ walk fuel k g.file_offset)
    → (found : Option Dirent) → root_dirent k f.file_offset ≡ found
    → continue fuel fd k (give_dirent (pos fd) f.file_offset found (running_on slot pipes))
      ≡ walk_on fuel k found
unfolding continue give_dirent walk_on
after fuel fd f slot pipes k h r later none e = refl
after fuel fd f slot pipes k h r later (some d) e =
    let (ahead, low) = dirent_ahead k f.file_offset d (omega (arith, r.within, r.size)) e in
    let delta = sub32 d.d_off f.file_offset in
    let (slot', open', moved) = regular_advance-IsOpen fd f slot pipes h delta (omega arith) in
    let next : min (f.file_offset + delta) f.file_size ≡ d.d_off =
      ground (arith, r.within, r.size) in
    let stays : IsRoot (moved_to (min (f.file_offset + delta) f.file_size) f) = record {
      backend = r.backend;
      is_dir = r.is_dir;
      file_id = r.file_id;
      size = r.size;
      within = ground (arith, next);
    } in
    ap (◌∷◌ d) (ap (list_dir fuel fd k) moved ∙ later _ slot' open' stays ∙ ap (walk fuel k) next)

walk-list_dir :
    (fuel fd : ℕ) (f : Ofile) (slot : Slot) (pipes : Pipes) (k : Kernel)
    → IsOpen fd f slot
    → IsRoot f
    → list_dir fuel fd k (running_on slot pipes) ≡ walk fuel k f.file_offset
unfolding list_dir walk continue walk_on
walk-list_dir zero fd f slot pipes k h r = refl
walk-list_dir (suc fuel) fd f slot pipes k h r =
    ap (continue fuel fd k) (getdents-IsRoot fd f slot pipes k h r)
    ∙ after fuel fd f slot pipes k h r (λ g slot' o r'. walk-list_dir fuel fd g slot' pipes k o r')
        (root_dirent k f.file_offset) refl

-- The first task found, and those behind it in the slots below `stop`.
from_found : Kernel → ℕ → Option ℕ → List Dirent
from_found k stop none = []
from_found k stop (some j) = slot_dirent k j ∷ task_dirents k (stop - (j + 1)) (j + 1)

task_dirents-find :
    (k : Kernel) (n i : ℕ) → task_dirents k n i ≡ from_found k (i + n) (find_from (is_listed k) n i)
unfolding task_dirents find_from from_found
task_dirents-find k zero i = refl
task_dirents-find k (suc n) i = elim (Bool-cases (is_listed k i)) [
  | inl e ↦ let left : i + suc n - (i + 1) ≡ n = omega arith in rw (e, left) refl
  | inr e ↦
      let left : (i + 1) + n ≡ i + suc n = omega arith in
      rw e (
        task_dirents-find k n (i + 1)
        ∙ ap (λ (m : ℕ). from_found k m (find_from (is_listed k) n (i + 1))) left)
]

-- The entries behind ".".
walk_static_suc :
    (k : Kernel) (m : ℕ)
    → walk (suc (suc (suc (suc (suc (suc (suc (suc (suc m))))))))) k 65
      ≡ numbered 66 (drop 1 proc_entries)
unfolding walk numbered root_dirent find_from
walk_static_suc k m = refl

walk_static :
    (k : Kernel) (fuel : ℕ) → 9 ≤ fuel → walk fuel k 65 ≡ numbered 66 (drop 1 proc_entries)
walk_static k fuel h =
    let m = fuel - 9 in
    let size : suc (suc (suc (suc (suc (suc (suc (suc (suc m)))))))) ≡ fuel = omega arith in
    subst (λ n. walk n k 65 ≡ numbered 66 (drop 1 proc_entries)) size (walk_static_suc k m)

-- The look-up of the first slot behind `offset`, and what is left to list from there.
find_at : Kernel → ℕ → Option ℕ
find_at k offset = find_from (is_listed k) (63 - offset) (offset + 1)

left_to_list : Kernel → Option ℕ → List Dirent
left_to_list k found = from_found k max_tasks found ++ numbered 65 proc_entries

root_dirent_at :
    (k : Kernel) (offset : ℕ)
    → offset < max_tasks
    → root_dirent k offset ≡ found_dirent k offset (find_at k offset)
unfolding root_dirent find_at
root_dirent_at k offset h =
    let start : add32 offset 1 ≡ offset + 1 = omega arith in
    let span : max_tasks - add32 offset 1 ≡ 63 - offset = omega arith in
    ap (found_dirent k offset) (ap₂ (find_from (is_listed k)) span start)

task_dirents_at :
    (k : Kernel) (offset : ℕ)
    → offset < max_tasks
    → task_dirents k (63 - offset) (offset + 1) ≡ from_found k max_tasks (find_at k offset)
unfolding find_at
task_dirents_at k offset h =
    let stop : offset + 1 + (63 - offset) ≡ max_tasks = omega arith in
    task_dirents-find k (63 - offset) (offset + 1)
    ∙ ap (λ (m : ℕ). from_found k m (find_at k offset)) stop

-- A position among the slots shows "." when no task is left.
static_below :
    (offset : ℕ)
    → offset < max_tasks
    → static_dirent offset ≡ some (dirent_of 65 (get_or proc_entries 0 no_entry))
static_below offset h =
    let among : ltb offset max_tasks ≡ true = ground arith in
    let early : ltb offset (max_tasks + proc_entry_count) ≡ true = ground arith in
    rw (among, early) refl

-- The walk from a slot on, with calls for the slots behind it and the ten that end it.
walk_slots :
    (fuel : ℕ) (k : Kernel) (offset : ℕ)
    → offset < max_tasks
    → 63 - offset + 10 ≤ fuel
    → walk fuel k offset ≡ left_to_list k (find_at k offset)
unfolding walk walk_on left_to_list find_at slot_dirent numbered from_found
walk_slots zero k offset h h' = absurd (omega arith)
walk_slots (suc fuel) k offset h h' =
    ap (walk_on fuel k) (root_dirent_at k offset h)
    ∙ onward (find_at k offset) refl (λ i low high.
      walk_slots fuel k i high (omega arith)
      ∙ ap (λ (ts : List Dirent). ts ++ numbered 65 proc_entries) (sym (task_dirents_at k i high)))
  where
    onward :
        (found : Option ℕ)
        → find_at k offset ≡ found
        → ((i : ℕ)
            → offset < i
            → i < max_tasks
            → walk fuel k i ≡ task_dirents k (63 - i) (i + 1) ++ numbered 65 proc_entries)
        → walk_on fuel k (found_dirent k offset found) ≡ left_to_list k found
    onward none e later = rw (static_below offset h) (
        ap (◌∷◌ (dirent_of 65 (get_or proc_entries 0 no_entry))) (walk_static k fuel (omega arith)))
    onward (some i) e later =
        let (listed, low, high, first) =
          find_from-some (is_listed k) (63 - offset) (offset + 1) i e in
        let span : 63 - i ≡ max_tasks - (i + 1) = omega arith in
        ap (◌∷◌ (slot_dirent k i)) (
          later i (omega arith) (omega arith)
          ∙ ap (λ (n : ℕ). task_dirents k n (i + 1) ++ numbered 65 proc_entries) span)

-- A program that opens /proc, or stands at its start, and calls `fs_proc_getdents_fd` until the answer
-- is 0, or up to any number of calls that is at least 73, while the table stays as it is, gets one
-- entry for each task of the table in the order of the slots, and then the nine fixed entries in the
-- order of their table, numbered from 65 on: none twice, none left out, and then the end.
pub list_dir-lists :
    (fuel fd : ℕ) (f : Ofile) (slot : Slot) (pipes : Pipes) (k : Kernel)
    → IsOpen fd f slot
    → IsRoot f
    → f.file_offset ≡ 0
    → 73 ≤ fuel
    → list_dir fuel fd k (running_on slot pipes) ≡ task_dirents k 63 1 ++ numbered 65 proc_entries
unfolding left_to_list
list_dir-lists fuel fd f slot pipes k h r e bound =
    walk-list_dir fuel fd f slot pipes k h r
    ∙ ap (walk fuel k) e
    ∙ walk_slots fuel k 0 (omega arith) (omega arith)
    ∙ ap (λ (ts : List Dirent). ts ++ numbered 65 proc_entries)
        (sym (task_dirents_at k 0 (omega arith)))
