-- ===== src/Fs/Proc/Cut.antt =====
-- What the files of src/fs_proc.c have in common: a smaller buffer holds the start of what a larger
-- one holds, and none is overrun.
use octans.Prelude.{
  ℕ, zero, suc, ◌+◌, ◌-◌, ◌<◌, ◌≤◌, ◌≡◌, refl, subst, List, [], Bool, true, false, Option, none,
  some, ◌==◌, if◌then◌else◌, length, take, for_range, u32_max, arith,
}
use octans.Fs.Proc.Buffer.{Buffer, Fill, proc_buf_puts, empty_buffer}
use octans.Sched.Task.Stats.{ProcInfo, sched_proc_task_by_pid}
use octans.Fs.Proc.Inode.{proc_is_task_stat, proc_task_pid}
use octans.Fs.Proc.Build.{
  Kernel, task_stat_line, cpu_block, proc_build_cpuinfo, proc_build_meminfo, proc_build_uptime,
  proc_build_stat, proc_build_loadavg, proc_build_lampvm, proc_file, proc_build, proc_task_stat,
}
use octans.Fs.Proc.Room.{IsCut, prints}

-- What a routine keeps as it prints.
KeepsCut : Fill → Type 0
KeepsCut f = (cap : ℕ) (o p : Buffer) → IsCut cap o p → IsCut cap (f o) (f p)

for_range-KeepsCut :
    (f : ℕ → Fill) → ((i : ℕ) → KeepsCut (f i)) → (left i : ℕ) → KeepsCut (for_range left i f)
unfolding for_range KeepsCut
for_range-KeepsCut f keeps zero i cap o p h = h
for_range-KeepsCut f keeps (suc left) i cap o p h =
    for_range-KeepsCut f keeps left (i + 1) cap (f i o) (f i p) (keeps i cap o p h)

if-KeepsCut : (b : Bool) (f g : Fill) → KeepsCut f → KeepsCut g → KeepsCut (if b then f else g)
if-KeepsCut true f g kf kg = kf
if-KeepsCut false f g kf kg = kg

task_stat_line-KeepsCut : (task : ProcInfo) → KeepsCut (task_stat_line task)
unfolding KeepsCut task_stat_line
task_stat_line-KeepsCut task cap o p h = search prints depth 60

cpu_block-KeepsCut : (hz timer cpu : ℕ) → KeepsCut (cpu_block hz timer cpu)
unfolding KeepsCut cpu_block
cpu_block-KeepsCut hz timer cpu cap o p h = search prints depth 60

proc_build_meminfo-KeepsCut : (k : Kernel) → KeepsCut (proc_build_meminfo k)
unfolding KeepsCut proc_build_meminfo
proc_build_meminfo-KeepsCut k cap o p h = search prints depth 60

proc_build_uptime-KeepsCut : (k : Kernel) → KeepsCut (proc_build_uptime k)
unfolding KeepsCut proc_build_uptime
proc_build_uptime-KeepsCut k cap o p h = search prints depth 60

proc_build_stat-KeepsCut : (k : Kernel) → KeepsCut (proc_build_stat k)
unfolding KeepsCut proc_build_stat
proc_build_stat-KeepsCut k cap o p h = search prints depth 60

proc_build_loadavg-KeepsCut : (k : Kernel) → KeepsCut (proc_build_loadavg k)
unfolding KeepsCut proc_build_loadavg
proc_build_loadavg-KeepsCut k cap o p h = search prints depth 60

proc_build_lampvm-KeepsCut : (k : Kernel) → KeepsCut (proc_build_lampvm k)
unfolding KeepsCut proc_build_lampvm
proc_build_lampvm-KeepsCut k cap o p h = search prints depth 60

proc_build_cpuinfo-KeepsCut : (k : Kernel) → KeepsCut (proc_build_cpuinfo k)
unfolding proc_build_cpuinfo
proc_build_cpuinfo-KeepsCut k = for_range-KeepsCut _ (cpu_block-KeepsCut _ _) _ 0

version-KeepsCut : KeepsCut (proc_buf_puts "Lamp kernel 0.31 (lamp32) procfs-v1\n")
unfolding KeepsCut
version-KeepsCut cap o p h = search prints depth 60

same-KeepsCut : KeepsCut (λ out. out)
unfolding KeepsCut
same-KeepsCut cap o p h = h

proc_file-KeepsCut : (ino : ℕ) (k : Kernel) → KeepsCut (proc_file ino k)
unfolding proc_file
proc_file-KeepsCut ino k = if-KeepsCut _ _ _ (proc_build_cpuinfo-KeepsCut k) (
    if-KeepsCut _ _ _ (proc_build_meminfo-KeepsCut k) (
      if-KeepsCut _ _ _ (proc_build_uptime-KeepsCut k) (
        if-KeepsCut _ _ _ (proc_build_stat-KeepsCut k) (
          if-KeepsCut _ _ _ version-KeepsCut (
            if-KeepsCut _ _ _ (proc_build_loadavg-KeepsCut k)
              (if-KeepsCut _ _ _ (proc_build_lampvm-KeepsCut k) same-KeepsCut))))))

IsStart : ℕ → List ℕ → List ℕ → Type 0
IsStart c small large = (length small < c) × (small ≡ take (c - 1) large)

nothing : (n : ℕ) → ◌≡◌ {A = List ℕ} [] (take n [])
nothing zero = refl
nothing (suc n) = refl

fill-IsStart :
    (f : Fill) (c d : ℕ)
    → KeepsCut f
    → 0 < c
    → c ≤ d
    → d ≤ u32_max
    → IsStart c (f (empty_buffer c)).bytes (f (empty_buffer d)).bytes
unfolding KeepsCut IsStart
fill-IsStart f c d keeps h h' h'' =
    let r =
      keeps c (empty_buffer c) (empty_buffer d)
        (record { kept = refl; below = h; smaller = h'; word = h''; start = nothing (c - 1) }) in
    (
      omega (arith, r.below, r.kept),
      subst (λ n. (f (empty_buffer c)).bytes ≡ take (n - 1) (f (empty_buffer d)).bytes) r.kept
          r.start,
    )

if-IsStart :
    (c : ℕ) (b : Bool) (x x' y y' : List ℕ)
    → IsStart c x x'
    → IsStart c y y'
    → IsStart c (if b then x else y) (if b then x' else y')
if-IsStart c true x x' y y' hx hy = hx
if-IsStart c false x x' y y' hx hy = hy

proc_task_stat-IsStart :
    (pid c d : ℕ) (k : Kernel)
    → 0 < c
    → c ≤ d
    → d ≤ u32_max
    → IsStart c (proc_task_stat pid c k) (proc_task_stat pid d k)
unfolding proc_task_stat IsStart
proc_task_stat-IsStart pid c d k h h' h'' =
    let some_c : (c == 0) ≡ false = ground arith in
    let some_d : (d == 0) ≡ false = ground arith in
    rw (some_c, some_d) (found (sched_proc_task_by_pid pid k.sched))
  where
    found :
        (o : Option ProcInfo)
        → IsStart c
            (elim o [ none ↦ [] | some t ↦ (task_stat_line t (empty_buffer c)).bytes ])
            (elim o [ none ↦ [] | some t ↦ (task_stat_line t (empty_buffer d)).bytes ])
    found none = (h, nothing (c - 1))
    found (some t) = fill-IsStart (task_stat_line t) c d (task_stat_line-KeepsCut t) h h' h''

-- Whatever the file, a buffer of at least one byte is not overrun by `proc_build`: what it puts there
-- leaves room for the 0 behind it, and is the start of what a larger buffer would get. So the text
-- of a file does not depend on the buffer, but for where it ends.
pub proc_build-cuts :
    (ino c d : ℕ) (k : Kernel)
    → 0 < c
    → c ≤ d
    → d ≤ u32_max
    → (length (proc_build ino c k) < c) × (proc_build ino c k ≡ take (c - 1) (proc_build ino d k))
unfolding proc_build IsStart
proc_build-cuts ino c d k h h' h'' =
    let some_c : (c == 0) ≡ false = ground arith in
    let some_d : (d == 0) ≡ false = ground arith in
    rw (some_c, some_d)
      (if-IsStart c (proc_is_task_stat ino) _ _ _ _
        (proc_task_stat-IsStart (proc_task_pid ino) c d k h h' h'')
        (fill-IsStart (proc_file ino k) c d (proc_file-KeepsCut ino k) h h' h''))
