-- ===== src/FileTable.antt =====
-- vm-submit/kernel/fs/open.c and vfs_syscall.c: the table of file descriptors of a process, and the
-- calls that close and duplicate descriptors.
pub mod Slots
pub mod Calls
pub mod Seek
mod Examples
use csci_402_operating_syste.Prelude.{
  ℕ, zero, suc, ◌-◌, ◌^◌, Option, none, some, Bool, List, [], ◌∷◌, ◌==◌, ◌||◌, true, false, leb,
  length, set, if◌then◌else◌,
}

-- The reference counts of open files. Files are named by numbers.
abbrev pub Counts : Type 0
Counts = ℕ → ℕ

-- What the code takes from fs/file.c: `fget` finds the file of a descriptor and takes a reference,
-- `fput` gives one back.
pub record FileOps : Type 0 where
  pub fget : List (Option ℕ) → ℕ → Counts → Option ℕ × Counts
  pub fput : ℕ → Counts → Counts

-- `p_files`, with `none` for NULL, and the counts.
pub record Files : Type 0 where
  pub p_files : List (Option ℕ)
  pub f_refcount : Counts

pub data Errno : Type 0 where
  ebadf emfile einval : Errno

-- What a call returns: a negated error number, or a descriptor (0 for `do_close`).
pub data Returns : Type 0 where
  error : Errno → Returns
  fd : ℕ → Returns

-- `p_files[fd]`
abbrev pub slot : List (Option ℕ) → ℕ → Option ℕ
slot [] i = none
slot (x ∷ xs) zero = x
slot (x ∷ xs) (suc i) = slot xs i

abbrev pub is_null : Option ℕ → Bool
is_null none = true
is_null (some _) = false

pub empty_from : ℕ → List (Option ℕ) → Returns
empty_from i [] = error emfile
empty_from i (none ∷ xs) = fd i
empty_from i (some _ ∷ xs) = empty_from (suc i) xs

pub get_empty_fd : List (Option ℕ) → Returns
unfolding empty_from
get_empty_fd xs = empty_from 0 xs

-- The tests before the work: a descriptor is a 32-bit `int`, negative from 2 ^ 31 on.
abbrev pub out_of_range : List (Option ℕ) → ℕ → Bool
out_of_range xs d = leb (2 ^ 31) d || leb (length xs) d

abbrev pub is_bad : List (Option ℕ) → ℕ → Bool
is_bad xs d = out_of_range xs d || is_null (slot xs d)

abbrev pub put_back : FileOps → Option ℕ → Counts → Counts
put_back o none c = c
put_back o (some f) c = o.fput f c

pub do_close : FileOps → Files → ℕ → Returns × Files
do_close o s d = if is_bad s.p_files d then (error ebadf, s) else (
  fd 0,
  record {
    p_files = set s.p_files d none;
    f_refcount = put_back o (slot s.p_files d) s.f_refcount;
  },
)

-- The loop of `do_dup` before its first test for -EMFILE, over as many rounds as there are descriptors:
-- each looks at the entry of `fd`.
pub count_loop : Option ℕ → ℕ → ℕ
count_loop f zero = 0
count_loop none (suc n) = count_loop none n
count_loop (some f) (suc n) = suc (count_loop (some f) n)

-- The rest of `do_dup` once it has a file: `error` gives the reference back.
pub dup_into : FileOps → List (Option ℕ) → ℕ → Counts → Returns → Returns × Files
dup_into o xs f c (error e) = (error e, record { p_files = xs; f_refcount = o.fput f c })
dup_into o xs f c (fd new) = (fd new, record { p_files = set xs new (some f); f_refcount = c })

pub dup_file : FileOps → Files → Option ℕ × Counts → Returns × Files
unfolding dup_into get_empty_fd
dup_file o s (none, c) = (error ebadf, record s { f_refcount = c })
dup_file o s (some f, c) = dup_into o s.p_files f c (get_empty_fd s.p_files)

pub do_dup : FileOps → Files → ℕ → Returns × Files
unfolding dup_file count_loop
do_dup o s d =
    if is_bad s.p_files d
    then (error ebadf, s)
    else if count_loop (slot s.p_files d) (length s.p_files) == length s.p_files - 1
    then (error emfile, s)
    else dup_file o s (o.fget s.p_files d s.f_refcount)

-- The rest of `do_dup2` once it has a file.
pub dup2_file : FileOps → Files → (ofd nfd : ℕ) → Option ℕ × Counts → Returns × Files
unfolding do_close
dup2_file o s ofd nfd (none, c) = (error ebadf, record s { f_refcount = c })
dup2_file o s ofd nfd (some f, c) =
    let s' = record s { f_refcount = c } in
    if ofd == nfd
    then (fd nfd, record s { f_refcount = o.fput f c })
    else let t = (if is_null (slot s.p_files nfd) then s' else (do_close o s' nfd).1) in
      (fd nfd, record t { p_files = set t.p_files nfd (some f) })

pub do_dup2 : FileOps → Files → (ofd nfd : ℕ) → Returns × Files
unfolding dup2_file
do_dup2 o s ofd nfd =
    if is_bad s.p_files ofd || out_of_range s.p_files nfd
    then (error ebadf, s)
    else dup2_file o s ofd nfd (o.fget s.p_files ofd s.f_refcount)
