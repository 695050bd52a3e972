-- ===== src/Fs.antt =====
-- The file system switch: src/fs.c over the descriptor layer, the two file systems behind it, and
-- the error numbers that src/syscall.c makes of its codes.
pub mod Base
pub mod Ops
pub mod Errno
pub mod Stat
pub mod Guard
pub mod Proc
mod Tests
