-- ===== src/Syscall/Kernel.antt =====
-- vm-submit/kernel/api/syscall.c: the state in which a system call runs, and the steps of its code.
use csci_402_operating_syste.Prelude.{
  ℕ, ◌-◌, ◌^◌, Bool, true, false, ◌||◌, List, [], ◌∷◌, ◌==◌, leb, sub32,
}
use csci_402_operating_syste.Prelude.Run.{Run, ok, panic}

-- `argstr_t`
pub record Argstr : Type 0 where
  pub as_len : ℕ
  pub as_str : ℕ

-- The fields of the structs in which user programs pass arguments.
pub data Field : Type 0 where
  fd buf nbytes count dirp ofd nfd offset whence flags addr len : Field
  mma_addr mma_len mma_prot mma_flags mma_fd mma_off : Field
  wpa_pid wpa_options wpa_status : Field
  path to from oldname newname filename : Field
  sysname release version nodename machine : Field

-- What `copy_from_user` has put into the struct: its words, and its strings.
pub record Struct : Type 0 where
  pub word : Field → ℕ
  pub str : Field → Argstr

-- All that a system call works on but the thread's error number and the kernel memory that the code of
-- system calls has allocated, by address. `W` is the rest.
pub record Kernel (W : Type 0) : Type 0 where
  pub world : W
  pub kt_errno : ℕ
  pub heap : List ℕ

abbrev pub Action : Type 0 → Type 0 → Type 0
Action W A = Kernel W → Run (A × Kernel W)

abbrev pub and_then : {W A B : Type 0} → Run (A × Kernel W) → (A → Action W B) → Run (B × Kernel W)
and_then (ok (a, k)) f = f a k
and_then panic f = panic

infixl 5 ◌>>=◌ ◌>>◌
unfoldable pub ◌>>=◌ : {W A B : Type 0} → Action W A → (A → Action W B) → Action W B
◌>>=◌ m f k = and_then (m k) f

unfoldable pub ◌>>◌ : {W A B : Type 0} → Action W A → Action W B → Action W B
m >> n = λ k. and_then (m k) λ _. n

unfoldable pub pure : {W A : Type 0} → A → Action W A
pure a k = ok (a, k)

infix 1 if◌then◌else◌
unfoldable pub if◌then◌else◌ : {W A : Type 0} → Bool → Action W A → Action W A → Action W A
if true then m else n = m
if false then m else n = n

-- An `int` or a pointer is a word of 32 bits; NULL is 0, and -1 is `minus_one`.
abbrev pub null : ℕ
null = 0

abbrev pub minus_one : ℕ
minus_one = 2 ^ 32 - 1

abbrev pub is_negative : ℕ → Bool
is_negative w = leb (2 ^ 31) w

abbrev pub negate : ℕ → ℕ
negate w = sub32 0 w

abbrev pub has : ℕ → List ℕ → Bool
has p [] = false
has p (q ∷ h) = p == q || has p h

abbrev pub erase : ℕ → List ℕ → List ℕ
erase p [] = []
erase p (q ∷ h) = elim (p == q) [ true ↦ h | false ↦ q ∷ erase p h ]

-- A step that does not touch the error number or the heap of system calls.
unfoldable pub call : {W A : Type 0} → (W → A × W) → Action W A
call f k = let (a, w) = f k.world in ok (a, record k { world = w })

unfoldable pub get_errno : {W : Type 0} → Action W ℕ
get_errno k = ok (k.kt_errno, k)

unfoldable pub set_errno : {W : Type 0} → ℕ → Action W (Unit {0})
set_errno e k = ok (tt, record k { kt_errno = e })

-- What the code calls. A string in kernel memory is given by its address.
pub record Calls (W : Type 0) : Type 0 where
  pub efault : ℕ
  pub enomem : ℕ
  pub einval : ℕ
  pub enosys : ℕ
  pub enodev : ℕ
  pub dirent_size : ℕ
  pub stat_size : ℕ
  -- What `kmalloc` answers, for a size and the memory in use.
  pub malloc : ℕ → W → List ℕ → ℕ
  -- The copy of an argument struct, of bytes in and of bytes out.
  pub copy_args : ℕ → W → (ℕ × Struct) × W
  pub copy_in : (kaddr uaddr nbytes : ℕ) → W → ℕ × W
  pub copy_out : (uaddr kaddr nbytes : ℕ) → W → ℕ × W
  -- A read of a field of the struct at a user address.
  pub load : ℕ → Field → W → ℕ × W
  pub do_read : (fd buf nbytes : ℕ) → W → ℕ × W
  pub do_write : (fd buf nbytes : ℕ) → W → ℕ × W
  pub do_getdent : (fd dirp : ℕ) → W → ℕ × W
  pub do_close : ℕ → W → ℕ × W
  pub do_dup : ℕ → W → ℕ × W
  pub do_dup2 : (ofd nfd : ℕ) → W → ℕ × W
  pub do_mkdir : ℕ → W → ℕ × W
  pub do_rmdir : ℕ → W → ℕ × W
  pub do_unlink : ℕ → W → ℕ × W
  pub do_link : (from to : ℕ) → W → ℕ × W
  pub do_rename : (oldname newname : ℕ) → W → ℕ × W
  pub do_chdir : ℕ → W → ℕ × W
  pub do_lseek : (fd offset whence : ℕ) → W → ℕ × W
  pub do_open : (path flags : ℕ) → W → ℕ × W
  pub do_munmap : (addr len : ℕ) → W → ℕ × W
  -- The error number of `do_mmap` and of `do_brk`, and the address.
  pub do_mmap : Struct → W → (ℕ × ℕ) × W
  pub do_brk : ℕ → W → (ℕ × ℕ) × W
  -- The id and the status.
  pub do_waitpid : (pid options : ℕ) → W → (ℕ × ℕ) × W
  -- The error number, and the address of the result on the kernel's stack.
  pub do_stat : ℕ → W → (ℕ × ℕ) × W
  pub do_fork : W → ℕ × W
  -- The whole of `sys_execve`, of which nothing is assumed.
  pub sys_execve : ℕ → Action W ℕ
  -- What ends the thread or the machine; the thread does not come back.
  pub do_exit : ℕ → W → Unit {0} × W
  pub kthread_exit : ℕ → W → Unit {0} × W
  pub sys_halt : W → Unit {0} × W
  pub getpid : W → ℕ × W
  pub pframe_clean_all : W → Unit {0} × W
  pub thr_yield : W → Unit {0} × W
  -- Where a status word and a constant string stand in kernel memory.
  pub status_at : ℕ → ℕ
  pub string_at : Field → ℕ
  pub string_size : Field → ℕ
  pub field_at : ℕ → Field → ℕ
  pub kshell_create : ℕ → W → ℕ × W
  pub kshell_execute_next : ℕ → W → ℕ × W
  pub kshell_destroy : ℕ → W → Unit {0} × W
  pub kt_cancelled : W → Bool

module _ {W : Type 0} (c : Calls W) where
  unfoldable pub kmalloc : ℕ → Action W ℕ
  kmalloc n k =
      let p = c.malloc n k.world k.heap in
      elim (p == null) [ true ↦ ok (null, k) | false ↦ ok (p, record k { heap = p ∷ k.heap }) ]

-- To free what is not in use is a fault.
unfoldable pub kfree : {W : Type 0} → ℕ → Action W (Unit {0})
kfree p k = elim (has p k.heap) [
  | true ↦ ok (tt, record k { heap = erase p k.heap })
  | false ↦ panic
]
