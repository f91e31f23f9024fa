-- ===== src/Syscall/Examples.antt =====
-- A kernel with an allocator that counts: tests, and the theorems at it.
use csci_402_operating_syste.Prelude.{ℕ, zero, suc, ◌+◌, ◌^◌, ◌-◌, ◌≡◌, refl, false, List, [], ◌∷◌}
use csci_402_operating_syste.Prelude.Run.{ok}
use csci_402_operating_syste.Syscall.Kernel.{
  Kernel, Calls, Struct, Field, minus_one, count, if◌then◌else◌, ◌>>=◌, ◌>>◌, pure, call, set_errno,
  kmalloc, kfree,
}
use csci_402_operating_syste.Syscall.Calls.{
  returned, report, user_strdup, sys_link, sys_getdents, getdents_loop, getdents_end,
}
use csci_402_operating_syste.Syscall.Dispatch.{link, getdents, syscall_dispatch, syscall_handler}

abbrev word_of : Field → ℕ
word_of count = 64
word_of f = 3

abbrev args : Struct
args = record { word = word_of; str = λ f. record { as_len = 7; as_str = 4096 } }

-- An address above all that are in use.
abbrev next : List ℕ → ℕ
next [] = 1
next (p ∷ h) = suc (p + next h)

abbrev answer : {A W : Type 0} → A → W → A × W
answer a w = (a, w)

-- A directory with two entries, of which `W` counts those that are left; `do_link` returns -17.
abbrev entries : ℕ → ℕ × ℕ
entries zero = (0, 0)
entries (suc n) = (32, n)

abbrev calls : Calls ℕ
calls = record {
  efault = 14;
  enomem = 12;
  einval = 22;
  enosys = 38;
  enodev = 19;
  dirent_size = 32;
  stat_size = 48;
  malloc = λ n w h. next h;
  copy_args = λ a. answer (0, args);
  copy_in = λ k u n. answer 0;
  copy_out = λ u k n. answer 0;
  load = λ a f. answer 4096;
  do_read = λ f b n. answer 0;
  do_write = λ f b n. answer 0;
  do_getdent = λ f d. entries;
  do_close = λ f. answer 0;
  do_dup = λ f. answer 0;
  do_dup2 = λ o n. answer 0;
  do_mkdir = λ p. answer 0;
  do_rmdir = λ p. answer 0;
  do_unlink = λ p. answer 0;
  do_link = λ f t. answer (2 ^ 32 - 17);
  do_rename = λ o n. answer 0;
  do_chdir = λ p. answer 0;
  do_lseek = λ f o w. answer 0;
  do_open = λ p f. answer 0;
  do_munmap = λ a l. answer 0;
  do_mmap = λ s. answer (0, 0);
  do_brk = λ a. answer (0, 0);
  do_waitpid = λ p o. answer (1, 0);
  do_stat = λ p. answer (0, 0);
  do_fork = answer 2;
  sys_execve = λ a k. ok (0, k);
  do_exit = λ s. answer tt;
  kthread_exit = λ r. answer tt;
  sys_halt = answer tt;
  getpid = answer 1;
  pframe_clean_all = answer tt;
  thr_yield = answer tt;
  status_at = λ s. s;
  string_at = λ f. 0;
  string_size = λ f. 8;
  field_at = λ a f. a;
  kshell_create = λ t. answer 0;
  kshell_execute_next = λ k. answer 0;
  kshell_destroy = λ k. answer tt;
  kt_cancelled = λ w. false;
}

abbrev start : Kernel ℕ
start = record { world = 2; kt_errno = 0; heap = [] }

linked :
    syscall_handler calls 0 link 4096 start
    ≡ ok (returned minus_one, record { world = 2; kt_errno = 17; heap = [] })
unfolding syscall_handler syscall_dispatch sys_link user_strdup kmalloc kfree call set_errno pure
    ◌>>=◌ ◌>>◌ if◌then◌else◌ report
linked = refl

listed :
    syscall_handler calls 0 getdents 4096 start
    ≡ ok (returned 64, record { world = 0; kt_errno = 0; heap = [] })
unfolding syscall_handler syscall_dispatch sys_getdents getdents_loop getdents_end kmalloc kfree
    call set_errno pure ◌>>=◌ ◌>>◌ if◌then◌else◌
listed = refl
