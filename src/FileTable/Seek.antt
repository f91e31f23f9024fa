-- ===== src/FileTable/Seek.antt =====
-- vm-submit/kernel/fs/vfs_syscall.c: `do_lseek`.
pub mod Position
mod Examples
use csci_402_operating_syste.Prelude.{
  ℕ, ◌^◌, Option, none, some, List, leb, ◌==◌, if◌then◌else◌, add32,
}
use csci_402_operating_syste.FileTable.{Errno, ebadf, einval, slot, out_of_range}

-- `whence`: the numbers 0, 1 and 2 under the names of fs/lseek.h, and every other number.
pub data Whence : Type 0 where
  seek_set seek_cur seek_end other : Whence

-- The table, the positions of open files, and the lengths of their vnodes.
pub record Open : Type 0 where
  pub p_files : List (Option ℕ)
  pub f_pos : ℕ → ℕ
  pub vn_len : ℕ → ℕ

pub data Sought : Type 0 where
  refused : Errno → Sought
  position : ℕ → Sought

-- The new position, a 32-bit `int`.
abbrev pub target : Open → (f offset : ℕ) → Whence → ℕ
target s f offset seek_set = offset
target s f offset seek_cur = add32 (s.f_pos f) offset
target s f offset seek_end = add32 offset (s.vn_len f)
target s f offset other = s.f_pos f

abbrev pub moved : Open → (f pos : ℕ) → Open
moved s f pos = record s { f_pos = λ g. if g == f then pos else s.f_pos g }

pub seek_file : Open → (f pos : ℕ) → Sought × Open
seek_file s f pos = if leb (2 ^ 31) pos then (refused einval, s) else (position pos, moved s f pos)

pub seek_slot : Open → (offset : ℕ) → Whence → Option ℕ → Sought × Open
unfolding seek_file
seek_slot s offset w none = (refused ebadf, s)
seek_slot s offset w (some f) = seek_file s f (target s f offset w)

pub seek_fd : Open → (fd offset : ℕ) → Whence → Sought × Open
unfolding seek_slot
seek_fd s fd offset w =
    if out_of_range s.p_files fd
    then (refused ebadf, s)
    else seek_slot s offset w (slot s.p_files fd)

pub do_lseek : Open → (fd offset : ℕ) → Whence → Sought × Open
unfolding seek_fd
do_lseek s fd offset seek_set = seek_fd s fd offset seek_set
do_lseek s fd offset seek_cur = seek_fd s fd offset seek_cur
do_lseek s fd offset seek_end = seek_fd s fd offset seek_end
do_lseek s fd offset other = (refused einval, s)
