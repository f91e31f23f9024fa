-- ===== src/Lib.antt =====
-- The Weenix kernel of an operating systems course, as submitted in three stages (procs-submit,
-- vfs-submit, vm-submit; each stage holds a newer copy of the files of the one before), and two warm-up
-- programs. The development models the last stage, vm-submit.
--
-- Parts and files. The address space of a process is a list of areas of pages; system calls and the page
-- fault handler read and change it. Threads wait on queues; the scheduler moves them between the queues
-- and the run queue, and a mutex is a queue and a holder over it.
--
--   Vmmap (vm-submit/kernel/vm/vmmap.c): `Area` is vmarea_t, an address space is the list vmm_list from
--   its head. lookup, is_range_empty, insert, find_range, remove, clone and destroy are the functions
--   vmmap_lookup and so on. Of remove, `remove_loop` is the list iteration, `overlap` chooses among the
--   four cases of the comment in the source, and `upper_part` and `lower_part` are the two cuts.
--     Chain: the order of the areas. Lookup, Range, Insert, FindRange, Destroy: one function each.
--     Remove: Cases (the four cases), Loop (the iteration), Pages (what each
--     page stands for), Refs (reference counts), Main (the function).
--   Sched (vm-submit/kernel/proc/sched.c): `Sched` holds the threads, the queues, curthr and curproc.
--   ktqueue_enqueue, ktqueue_dequeue, ktqueue_remove and the sched_ functions keep their names.
--     Queues: lists of distinct threads. Invariant: waking and cancelling. Switch: giving up the
--     processor. Broadcast: the loop of sched_broadcast_on.
--   Kmutex (vm-submit/kernel/proc/kmutex.c): kmutex_init, kmutex_lock, kmutex_lock_cancellable and
--   kmutex_unlock over Sched. `kmutex_lock` and the cancellable sleep end where the caller sleeps;
--   `lock_cancellable_through` is kmutex_lock_cancellable to its end, over what happens meanwhile.
--     Handover: who holds the mutex.
--   Access (vm-submit/kernel/api/access.c): `addr_perm` and `range_perm` over the areas of Vmmap.
--     Perm: which addresses they accept.
--   Mmap (vm-submit/kernel/vm/mmap.c and brk.c): `do_munmap` and `do_brk`, over Vmmap. do_mmap, which
--   do_brk calls where no area holds the first break, is an argument.
--     Munmap: which calls are refused, and the pages of the others. Brk: do_brk. Extend: an area that
--     grows. Move: the pages between two breaks.
--   Pagefault (vm-submit/kernel/vm/pagefault.c): `handle_pagefault` up to the page that it gets and the entry
--   that it makes in the page table. The rights and causes are bits of other headers, in `Prots` and `Cause`.
--     What finds the page frame of a page is `Objects`.
--     Rights: the rights that a fault needs. Serve: which faults are served, and with which page.
--   FileTable (vm-submit/kernel/fs/open.c and vfs_syscall.c): `Files` is p_files of a process with the
--   reference counts of files; get_empty_fd, do_close, do_dup, do_dup2. `FileOps` stands for fget and
--   fput of fs/file.c, outside of the repository, and `IsFileOps` says that they count references.
--     Slots: entries of the table. Calls: the three calls. Seek: do_lseek, over the positions and
--     lengths of files; its Position says where a file moves to.
--   Process (vm-submit/kernel/proc/proc.c and kthread.c): `Procs` is the list of processes with
--   proc_initproc and next_pid, the scheduler of Sched, the values that threads end with, and a log of the
--   calls to other parts. proc_create, proc_cleanup, proc_kill, proc_lookup, proc_thread_exited, do_exit,
--   do_waitpid, kthread_exit and kthread_cancel keep their names; `proc_getid` is _proc_getid and
--   `dispose_zombie` is disposeZombie.
--     Ids: the search for an id. Tree: the state. Exit and Wait: the functions. Reap: one zombie is taken
--     away, and `IsTree`, what it is for the tree of processes to be in order. Waitpid: the wait. Reparent,
--     Died and Cleanup: the end of a process. Leave: the end of its thread. Newborn and Create: a new
--     process. Family: tests and theorems at four processes.
--   Vfs (vm-submit/kernel/fs): `World` holds the vnodes and p_cwd, and an `Action` is a function on it that
--   may panic; `Ends` says that an action ends, with a property of its result and of the world after it.
--     Vnode (vnode.c): vref, vget, vput. A reference that is not of a cached page is active; Active, Rules
--     and Lifetime count them.
--     Fs: the operations of file systems, in `Fs`, and in `IsFs` what they promise about references.
--     Namev (namev.c): lookup, dir_namev, open_namev, on strings as lists of character codes. `walk` is
--     the loop of dir_namev. Its Refs counts references.
--     Calls (vfs_syscall.c): do_mknod, do_mkdir, do_rmdir, do_unlink, do_link, do_rename, do_chdir and
--     do_stat, each with a function for what follows the resolution of the path (_at) and the lookup.
--     Rules, Entries, Links and Chdir count references.
--   Syscall (vm-submit/kernel/api/syscall.c): `Kernel` is the error number of the thread, the memory that
--     the code of system calls has allocated, and a `world` of which nothing is assumed. `Calls` is the
--     interface to the rest: the work of each call (do_open and so on), the copies from and to user
--     memory, and kmalloc; each but sys_execve changes the world alone.
--     Calls: the functions sys_read and so on, and user_strdup of access.c. Dispatch: syscall_dispatch and
--     syscall_handler. Heap: rules for the memory in use. Balance, Rest and Settled: what each
--     call gives back and returns.
--   My402List (warmup1/my402list.c, of which warmup2 holds a copy): `Store` is the memory of a list, the
--     addresses of its elements with their three fields, and an `Action` of Memory is a step on it that faults
--     where it touches an address that is not in use. list_append and so on are the functions My402ListAppend
--     and so on; `fresh` is what malloc answers.
--     Links: what it is to hold a list, `IsList`. Between and Insert: new elements. Unlink: one element
--     taken out. Walks: the calls that go through the list.
--   Prelude: Boolean tests on numbers, lists over the native numbers, 32-bit addition and subtraction,
--   and `Run`, a result or a panic.
--   The modules named Examples hold tests and each theorem at a concrete input.
--
-- Conventions. A failed KASSERT and the use of a null pointer are `panic`. uint32_t arithmetic wraps
-- (`add32`, `sub32`). Pointers to threads, queues and objects are numbers, and NULL is `none`. The
-- intrusive lists of util/list.h, a header outside of the repository, are lists: an iteration visits the
-- elements in order and reads the next link before its body runs, a thread queue is enqueued at its head
-- and dequeued at its tail. Slab allocations succeed.
--   `Platform` holds what other headers define: the bounds of user memory as page numbers, the size of a
-- page, and which objects have the operations ref and put. `IsPlatform` says of it that pages have 4 KiB
-- and 0 < low < high < 2 ^ 20.
--   Calls out of vmmap.c (the operations of memory objects, the list of areas of a bottom object,
-- pt_unmap_range) are recorded in a log in the order in which they are made.
--   A vnode that another thread brings in or takes away (VN_BUSY) is not part of the state: vget and vput are
-- one step each. The copy of a path that is longer than its buffer in dir_namev is a `panic`.
--   Masking of interrupts is not part of the state: each operation of the scheduler is one step, and
-- interrupts happen in the wait of sched_switch, each by a handler, which is a function on the
-- scheduler. The context switch itself is outside: `sched_switch` ends with the thread that runs next.
--
--   What the other threads do while a thread sleeps in do_waitpid is an argument, one function on the state
-- for each of the sleeps. What a process asks of other parts (fput, vput, vref,
-- vmmap_destroy, kthread_destroy, pt_destroy_pagedir) is recorded in a log, and the iteration of
-- proc_cleanup is over the children that the process has at its start: init, whose loop would meet the
-- children that it moves to its own end, is not meant to end.
--
-- Bounds. The wait of sched_switch ends only if a handler makes a thread runnable, so it runs on the list
-- of the interrupts that arrive, and `none` means that they did not end it. The loop of
-- sched_broadcast_on has the number of waiters as its bound, as each round takes one off the queue, and
-- that of _proc_getid the number PROC_MAX_COUNT of ids, as each round leaves one behind.
-- The loop of sys_getdents has one round more than the buffer has bytes, and `unfinished` means that it
-- has gone on beyond that. The loop of a kernel shell has its bound as an argument, as it runs what is
-- typed.
--
-- Not modelled: vmmap_map, vmmap_read, vmmap_write and the printing of vmmap.c, and with them do_mmap
-- and the copies of access.c; the memory objects and page frames (vm-submit/kernel/vm/anon.c and
-- shadow.c, vm-submit/kernel/mm/pframe.c); the creation of threads and proc_kill_all
-- (vm-submit/kernel/proc/kthread.c, proc.c), the printing of processes, and fork.c; do_open and the
-- calls that read and write files; of vnode.c the special files and the flushing of pages; sys_execve,
-- an action of `Calls` that no theorem is about, and user_vecdup, which only it uses; the mounting of
-- file systems, which is compiled out; kernel start (kmain.c), which sets up hardware and runs tests;
-- the sort and the token bucket of the warm-up programs.
mod Prelude
pub mod Vmmap
pub mod Sched
pub mod Kmutex
pub mod Access
pub mod Mmap
pub mod Pagefault
pub mod FileTable
pub mod Process
pub mod Vfs
pub mod My402List
pub mod Syscall
