-- ===== src/Syscall/Settled.antt =====
-- What is left when a system call is over.
use csci_402_operating_syste.Prelude.{ℕ, ◌≡◌, ◌⊎◌, Bool, true, false, List, ◌∷◌}
use csci_402_operating_syste.Syscall.Kernel.{
  Kernel, Action, if◌then◌else◌, ◌>>=◌, pure, minus_one, Calls,
}
use csci_402_operating_syste.Syscall.Calls.{Outcome, returned, gone, unfinished}
use csci_402_operating_syste.Syscall.Dispatch.{
  Sysnum, getpid, mmap, getdents, brk, errno, execve, debug, kshell, is_cancelled,
}
use csci_402_operating_syste.Syscall.Balance.{IsResult}

-- Calls that return neither an address nor a number that the user has chosen or that other code gives.
abbrev pub is_int : Sysnum → Bool
is_int mmap = false
is_int brk = false
is_int getpid = false
is_int getdents = false
is_int errno = false
is_int _ = true

abbrev pub is_getdents : Sysnum → Bool
is_getdents getdents = true
is_getdents _ = false

-- `debug`, which prints and frees NULL for a bad string, and `execve`, which is not modelled.
abbrev pub is_excluded : Sysnum → Bool
is_excluded debug = true
is_excluded execve = true
is_excluded _ = false

-- Calls with a loop that has no bound of its own.
abbrev pub has_loop : Sysnum → Bool
has_loop getdents = true
has_loop kshell = true
has_loop _ = false

abbrev pub HasFailed : Outcome → Type 0
HasFailed (returned r) = r ≡ minus_one
HasFailed gone = Unit
HasFailed unfinished = Unit

-- The heap is as before, but for one entry that `getdents` may keep when it fails.
abbrev pub Balanced : Sysnum → List ℕ → Outcome → List ℕ → Type 0
Balanced n h o h' = (h' ≡ h) ⊎ ((is_getdents n ≡ true) × HasFailed o × (p : ℕ) × (h' ≡ p ∷ h))

abbrev pub Answers : Sysnum → Outcome → Type 0
Answers n (returned r) = is_int n ≡ true → IsResult r
Answers n gone = Unit
Answers n unfinished = has_loop n ≡ true

abbrev pub Settled : Sysnum → List ℕ → Outcome → List ℕ → Type 0
Settled n h o h' = Balanced n h o h' × Answers n o

-- What the handler comes to, for a thread that is not cancelled before or after, or is.
abbrev pub Handled : {W : Type 0} → Calls W → Sysnum → Kernel W → Outcome → Kernel W → Type 0
Handled c n k o k' =
    Settled n k.heap o k'.heap
    × ((r : ℕ) → o ≡ returned r → c.kt_cancelled k'.world ≡ false)
    × (c.kt_cancelled k.world ≡ true → (o ≡ gone) × (k' ≡ k))

-- The handler after the call.
abbrev leave : {W : Type 0} → Calls W → Outcome → Action W Outcome
leave c ret = is_cancelled c >>= λ after. if after then pure gone else pure ret
