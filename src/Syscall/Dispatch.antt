-- ===== src/Syscall/Dispatch.antt =====
-- vm-submit/kernel/api/syscall.c: `syscall_dispatch` and `syscall_handler`.
use csci_402_operating_syste.Prelude.{ℕ, Bool}
use csci_402_operating_syste.Prelude.Run.{ok}
use csci_402_operating_syste.Syscall.Kernel.{
  Action, if◌then◌else◌, ◌>>=◌, ◌>>◌, pure, call, get_errno, set_errno, Calls,
}
use csci_402_operating_syste.Syscall.Calls.{
  Outcome, returned, gone, fail, sys_read, sys_write, sys_close, sys_dup, sys_dup2, sys_mkdir,
  sys_rmdir, sys_unlink, sys_link, sys_rename, sys_chdir, sys_lseek, sys_open, sys_munmap, sys_mmap,
  sys_waitpid, sys_brk, sys_stat, sys_uname, sys_fork, sys_debug, sys_getdents, sys_kshell,
}

-- The numbers of api/syscall.h under their names, and every other number.
pub data Sysnum : Type 0 where
  waitpid exit thr_exit thr_yield fork getpid sync mmap munmap open_file close read write dup :
      Sysnum
  dup2 mkdir rmdir unlink link rename chdir getdents brk lseek halt set_err errno execve : Sysnum
  stat uname debug kshell unknown : Sysnum

-- A call that returns an `int`.
abbrev pub returns : {W : Type 0} → Action W ℕ → Action W Outcome
returns m = do r ← m; pure (returned r)

module _ {W : Type 0} (c : Calls W) where
  -- `rounds` bounds the commands of a kernel shell.
  unfoldable pub syscall_dispatch : (rounds : ℕ) → Sysnum → (args : ℕ) → Action W Outcome
  syscall_dispatch rounds waitpid args = returns (sys_waitpid c args)
  syscall_dispatch rounds exit args = do call (c.do_exit args); pure gone
  syscall_dispatch rounds thr_exit args = do call (c.kthread_exit args); pure gone
  syscall_dispatch rounds thr_yield args = do call c.thr_yield; pure (returned 0)
  syscall_dispatch rounds fork args = returns (sys_fork c)
  syscall_dispatch rounds getpid args = returns (call c.getpid)
  syscall_dispatch rounds sync args = do call c.pframe_clean_all; pure (returned 0)
  syscall_dispatch rounds mmap args = returns (sys_mmap c args)
  syscall_dispatch rounds munmap args = returns (sys_munmap c args)
  syscall_dispatch rounds open_file args = returns (sys_open c args)
  syscall_dispatch rounds close args = returns (sys_close c args)
  syscall_dispatch rounds read args = returns (sys_read c args)
  syscall_dispatch rounds write args = returns (sys_write c args)
  syscall_dispatch rounds dup args = returns (sys_dup c args)
  syscall_dispatch rounds dup2 args = returns (sys_dup2 c args)
  syscall_dispatch rounds mkdir args = returns (sys_mkdir c args)
  syscall_dispatch rounds rmdir args = returns (sys_rmdir c args)
  syscall_dispatch rounds unlink args = returns (sys_unlink c args)
  syscall_dispatch rounds link args = returns (sys_link c args)
  syscall_dispatch rounds rename args = returns (sys_rename c args)
  syscall_dispatch rounds chdir args = returns (sys_chdir c args)
  syscall_dispatch rounds getdents args = sys_getdents c args
  syscall_dispatch rounds brk args = returns (sys_brk c args)
  syscall_dispatch rounds lseek args = returns (sys_lseek c args)
  syscall_dispatch rounds halt args = do call c.sys_halt; pure gone
  syscall_dispatch rounds set_err args = do set_errno args; pure (returned 0)
  syscall_dispatch rounds errno args = returns get_errno
  syscall_dispatch rounds execve args = returns (c.sys_execve args)
  syscall_dispatch rounds stat args = returns (sys_stat c args)
  syscall_dispatch rounds uname args = returns (sys_uname c args)
  syscall_dispatch rounds debug args = returns (sys_debug c args)
  syscall_dispatch rounds kshell args = sys_kshell c rounds args
  syscall_dispatch rounds unknown args = do r ← fail c.enosys; pure (returned r)

  abbrev pub is_cancelled : Action W Bool
  is_cancelled k = ok (c.kt_cancelled k.world, k)

  -- What the handler puts into `r_eax`, unless the thread exits.
  unfoldable pub syscall_handler : (rounds : ℕ) → Sysnum → (args : ℕ) → Action W Outcome
  syscall_handler rounds sysnum args = do
    before ← is_cancelled
    if before then pure gone else do
      ret ← syscall_dispatch rounds sysnum args
      after ← is_cancelled
      if after then pure gone else pure ret
