-- ===== src/Vfs.antt =====
-- vm-submit/kernel/fs: vnodes, name resolution, and the system calls that work on names.
pub mod Action
pub mod Vnode
pub mod Fs
pub mod Namev
pub mod Calls
mod Examples
