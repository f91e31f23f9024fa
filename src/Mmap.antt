-- ===== src/Mmap.antt =====
-- vm-submit/kernel/vm/mmap.c and brk.c: the system calls munmap(2), here, and brk(2) over the address
-- space.
pub mod Munmap
pub mod Brk
pub mod Extend
pub mod Move
mod Examples
use csci_402_operating_syste.Prelude.{
  ℕ, ◌+◌, ◌*◌, ◌%◌, ◌^◌, Bool, true, ◌||◌, List, ◌==◌, ltb, if◌then◌else◌, add32,
}
use csci_402_operating_syste.Prelude.Run.{Run, ok, ◌>>=◌}
use csci_402_operating_syste.Vmmap.{Platform, Area, Effect, Removed, remove}
use csci_402_operating_syste.Access.{addr_to_pn}

-- `PAGE_ALIGNED`
abbrev pub page_aligned : Platform → ℕ → Bool
page_aligned l x = x % l.page_size == 0

-- `PN_TO_ADDR`, a 32-bit address.
abbrev pub pn_to_addr : Platform → ℕ → ℕ
pn_to_addr l n = n * l.page_size % 2 ^ 32

-- The length in whole pages.
abbrev pub round_len : Platform → ℕ → ℕ
round_len l len = if page_aligned l len then len else pn_to_addr l (addr_to_pn l len + 1)

-- Whether the call refuses its arguments. The bounds of user memory are whole pages.
pub refuses_munmap : Platform → (addr len : ℕ) → Bool
refuses_munmap l addr len =
    if page_aligned l addr
    then (round_len l len == 0
        || ltb (l.high * l.page_size) (add32 addr (round_len l len))
        || ltb (l.high * l.page_size) addr
        || ltb addr (l.low * l.page_size))
    else true

-- -EINVAL, or 0 with the map after `vmmap_remove`.
pub data Munmapped : Type 0 where
  invalid : Munmapped
  unmapped : Removed → Munmapped

pub do_munmap : Platform → List Area → (addr len : ℕ) → Run Munmapped
unfolding refuses_munmap
do_munmap l m addr len =
    if refuses_munmap l addr len
    then ok invalid
    else do r ← remove l m (addr_to_pn l addr) (addr_to_pn l (round_len l len)); ok (unmapped r)
