-- ===== src/Fs/Proc.antt =====
-- src/fs_proc.c: the files and directories under /proc, which it makes from the task table, the
-- boot information of src/vm_info.c and the machine's registers.
pub mod Boot
pub mod Buffer
pub mod Inode
pub mod Build
pub mod Ops
pub mod Room
pub mod Cut
mod Tests
pub mod Reading
pub mod Listing
pub mod Handle
pub mod Names
