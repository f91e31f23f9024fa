-- ===== src/Syscall.antt =====
-- vm-submit/kernel/api/syscall.c
pub mod Kernel
pub mod Calls
pub mod Dispatch
pub mod Heap
pub mod Balance
pub mod Rest
pub mod Settled
mod Examples
