-- ===== src/Lib.antt =====
-- Octans: a verification library of the kernel's scheduler, its file descriptors, its file system
-- switch, its process file system, its page tables, its IP and TCP layers and its 64-bit division.
--
-- The scheduler (src/sched.c, src/sched_task.c, with the types of src/sched_internal.h) keeps a
-- table of 64 task slots, a bit map per processor of the tasks that may run there, and a bit map
-- per wait queue of the tasks that wait on it. Tasks yield, sleep, wait, exit and are killed; the
-- timer wakes those whose time has come; and each processor runs `sched_run`, which switches to a
-- task of its queue and back.
--
-- The kernel's system calls (src/syscall.c) act on the descriptors of the running task
-- (src/sched_fd.c). A task has a table of 32 descriptors, each of which names one of 32 open files,
-- and an open file counts the descriptors that name it; an open file is a device, a standard
-- stream, a socket, a regular file or an end of one of 16 pipes, which all tasks share. Above that
-- layer src/fs.c sends a path to the devices, to src/fs_proc.c or to src/fs_ext4.c, and
-- src/syscall.c turns the codes of both layers into error numbers. src/fs_proc.c makes the files
-- under /proc from the task table, from the boot information that src/vm_info.c loads, and from
-- registers. src/mmu.c keeps the page tables that all processors share; the loader src/user_exec.c
-- maps the pages of a program through it. The sockets of src/net/socket.c send and receive their
-- packets through src/net/ip.c, which finds the gateway by src/net/arp.c and hands frames to
-- src/net/ether.c; src/net/tcp.c reads its packets through it and uses its checksum. The compiler
-- calls src/compiler_rt_divmod.c for every division of 64-bit numbers.
--
-- The files:
--  Prelude, Prelude/*: shared names, lists with native indices, counted loops, 32-bit words.
--  Prelude/Bits: bit maps in arrays of 32-bit words, as the `waitq_*_bit` functions keep them.
--  Sched/Task/State: `sched_task_slot_t`, `sched_stack_ctx_t` and the global variables of src/sched.c.
--  Sched/Task/Queue, Slots, Life, Vfork, Loop, Boot, Signals, Stats, Attr: the functions of src/sched.c and
--    src/sched_task.c under their own names, as functions of the global variables and of the
--    processor that calls. A part of a function behind its test for the current slot is a function
--    `*_slot`; what `sched_vfork` does with an answer is `on_*`, and what it finds in the machine is a
--    `UserFrame`; `sched_run` is split at the switch of stacks into `sched_run_pick` and
--    `sched_run_return`.
--  Sched/Task/Pick, Reap, Due, Doze, Sleeper: the choice of a task, the search for an ended child, the
--    tasks that a tick wakes, and sleeping from the call to the tick that ends it. Sched/Task/Deliver,
--    Killed, Mask: the choice of a signal, what SIGKILL does, and signal masks.
--  Sched/Task/Inv/*: the invariant of the queues, for each operation and for the relation `Step`; Keeps,
--    KeepsLife, KeepsStart and Homes follow the task that a processor runs.
--  Sched/Fd/State: `sched_ofile_t`, `sched_fdent_t`, the slot, `sched_pipe_t`, the constants.
--  Sched/Fd/Pipe, Table, Ops, File, PipeIo: the functions of src/sched_fd.c under their own names.
--    A call that finds the current slot and takes `fd_lock` is a function of a `System`; what it does
--    with the lock held is a function `*_locked` or `*_at` of a `State`, a slot and the pipes.
--  Sched/Fd/Calls: a sequence of calls. Sched/Fd/Refs/*: the invariant of the reference counts.
--  Sched/Fd/Clone, Dup, Position: the calls against direct descriptions of their results.
--  Sched/Fd/Channel/*: a pipe against a bounded queue of bytes.
--  Fs/Base, Fs/Ops: src/fs.c, over a record `Backend` of the calls of src/fs_ext4.c and
--    src/fs_proc.c that it makes, which is a parameter. Fs/Errno: `errno_from_sched_fd_rc` and
--    `errno_from_fs_rc` of src/syscall.c. Fs/Guard, Fs/Stat: their theorems.
--  Fs/Proc/Boot: `vm_info_load_boot` of src/vm_info.c and the registers. Fs/Proc/Buffer, Inode, Build,
--    Ops: the functions of src/fs_proc.c under their own names; a routine that prints is a function of
--    the buffer, and the parts of a call behind its tests are functions `*_found`, `give_*` and
--    `*_dirent`. Fs/Proc/Handle: an open file of /proc under the calls of src/sched_fd.c.
--    Fs/Proc/Room, Cut, Names, Listing, Reading: the theorems on buffers, names, directories and files.
--  Mmu: src/mmu.c, over a record `Registers` of the unit's registers and a record `Layout` of the
--    linker's addresses. Mmu/Rights, Pages, Range, Built, Kernel: its theorems.
--  Net/Ip: src/net/ip.c, over a record `Link` of the calls of src/net/arp.c and src/net/ether.c.
--    Net/Ip/Checksum, Net/Ip/Frame: its theorems.
--  Net/Segment, Net/Tcp: src/net/tcp.c, over a record `Card` of the calls of src/net/arp.c and
--    src/net/ether.c; what follows a test in a function is a function of its own (`complete`,
--    `on_segment`, `accept`). Net/Tcp/Receive: its theorem.
--  Runtime/Division, Runtime/Division/*: src/compiler_rt_divmod.c and its theorems.
--
-- How the code is read. A `uint32_t` is a natural number, with `add32` where the source adds with
-- wrap-around; a `uint64_t` one below 2 ^ 64 with `% 2 ^ 64` written out; a signed descriptor or
-- offset is an integer; a `di_int` is its bit pattern. A call that stores through an out pointer
-- gives back what it stores, and a Bool tells whether the pointer is not NULL. An array is a list,
-- and an index is looked up with the entry of a cleared table as the default. A call runs as one
-- step, as the locks `fd_lock` and `g_pipe_lock` make it; `g_pipe_lock` is held within `fd_lock` or
-- alone.
--
-- A file of /proc is made from a `Kernel`, the task table and the machine as they stand when a call
-- runs: the registers do not change while it runs, and what it reads of the boot information is
-- what a load gives; a load before it fills the cache with that and so changes nothing for it.
--
-- Each function of the scheduler runs as one step, as `g_sched_lock` makes it; in `sched_run` the
-- switch of stacks lies between two steps, and a call that ends by switching to the scheduler is a
-- step up to the switch. A task that exits lets go of the lock before its processor leaves it, so
-- that another processor may reap it, give its slot to a new task and pick that one; the first
-- processor then comes back to `sched_run` and finds another's task in the slot. In the relation `Step`
-- a round of `sched_run` picks no task that is still the current one of a processor, which leaves these
-- runs out, as `sched_run` itself does not test it. What `smp_online_cpus` answers is a field of the state.
--
-- Bounds. The loops over the tables run 64, 32 or 16 rounds, as in the source, and a pipe's loops
-- run once for each byte asked for. The loop that shifts the divisor up has fuel for 63 doublings,
-- after which a divisor that is not 0 has its top bit set. Two rounds of the checksum's loop fold
-- any 32 bits into 16. The loop that chooses a signal has fuel for 32 rounds, as each drops one of
-- 31 signals. The polling loops of TCP run 400 rounds, as in the source, and their delays are left
-- out. The loop that makes digits has fuel for 24, the size of its array, and 20 are enough for 64
-- bits.
--
-- Not modelled: in the scheduler, the bytes of stacks and the assembly that switches them, the
-- copies of user memory that `vfork` makes and the frames of signal handlers; the system calls but
-- for the two tables of codes, the file system of src/fs_ext4.c, the other files of the network stack, the
-- drivers, the printing of src/vm_info.c, the consoles, interrupts, and what the hardware makes of
-- the page tables. Sleeping on a pipe and waking up are calls of the scheduler; the calls on pipes
-- here do not sleep.
pub mod Mmu
pub mod Net
pub mod Prelude
pub mod Fs
pub mod Runtime
pub mod Sched
