-- ===== src/Vfs/Calls.antt =====
-- vm-submit/kernel/fs/vfs_syscall.c: the system calls that work on names.
pub mod Rules
pub mod Entries
pub mod Links
pub mod Chdir
use csci_402_operating_syste.Prelude.{
  ℕ, zero, ◌-◌, Bool, true, false, ◌&&◌, ◌||◌, List, [], ◌∷◌, ◌==◌, length, ltb, leb, if◌then◌else◌,
}
use csci_402_operating_syste.Prelude.Run.{ok}
use csci_402_operating_syste.Vfs.Action.{World, Action, ◌>>=◌, ◌>>◌, pure, check}
use csci_402_operating_syste.Vfs.Vnode.{negb, vput, fetch}
use csci_402_operating_syste.Vfs.Fs.{
  Fs, Name, Errno, enotdir, einval, enametoolong, eexist, eisdir, enotempty, efault, Ret, error,
  value, Found, missing, found, mknod_op, mkdir_op, rmdir_op, unlink_op, link_op, stat_op,
}
use csci_402_operating_syste.Vfs.Namev.{
  fs_step, lookup, Named, unresolved, resolved, dir_namev, open_namev, cwd,
}

-- The end of a call that gives its directory back.
abbrev pub put_return : ℕ → Ret → Action Ret
put_return dir r = do vput dir; pure r

-- `do_mknod` after its lookup.
pub mknod_new : Fs → (mode devid dir : ℕ) → Name → Found → Action Ret
mknod_new f mode devid dir name (found v) = do vput dir; vput v; pure (error eexist)
mknod_new f mode devid dir name (missing e) = do
  check (f.has mknod_op dir)
  r ← fs_step (f.mknod dir name mode devid)
  put_return dir r

pub mknod_at : Fs → (mode devid : ℕ) → Named → Action Ret
unfolding mknod_new
mknod_at f mode devid (unresolved e) = pure (error e)
mknod_at f mode devid (resolved dir name) =
    if ltb (f.name_len - 1) (length name)
    then (do vput dir; pure (error enametoolong))
    else do r ← lookup f dir name; mknod_new f mode devid dir name r

pub do_mknod : Fs → Name → (mode devid : ℕ) → Action Ret
unfolding mknod_at
do_mknod f path mode devid =
    if negb (f.is_blk mode) && negb (f.is_chr mode)
    then pure (error einval)
    else do r ← dir_namev f path; mknod_at f mode devid r

-- `do_mkdir` after its lookup.
unfoldable pub mkdir_new : Fs → (dir : ℕ) → Name → Found → Action Ret
mkdir_new f dir name (found v) = do vput dir; vput v; pure (error eexist)
mkdir_new f dir name (missing e) = do
  check (f.has mkdir_op dir)
  r ← fs_step (f.mkdir dir name)
  put_return dir r

unfoldable pub mkdir_at : Fs → Named → Action Ret
unfolding mkdir_new
mkdir_at f (unresolved e) = pure (error e)
mkdir_at f (resolved dir name) =
    if leb f.name_len (length name)
    then (do vput dir; pure (error enametoolong))
    else do r ← lookup f dir name; mkdir_new f dir name r

unfoldable pub do_mkdir : Fs → Name → Action Ret
unfolding mkdir_at
do_mkdir f path = do r ← dir_namev f path; mkdir_at f r

-- `strcmp` with "." and with "..".
abbrev pub is_dot_name : Name → Bool
is_dot_name [] = false
is_dot_name (c ∷ []) = c == 46
is_dot_name (c ∷ d ∷ cs) = false

abbrev pub is_dot_dot : Name → Bool
is_dot_dot [] = false
is_dot_dot (c ∷ cs) = c == 46 && is_dot_name cs

pub rmdir_at : Fs → Named → Action Ret
rmdir_at f (unresolved e) = pure (error e)
rmdir_at f (resolved dir name) =
    if leb f.name_len (length name)
    then (do vput dir; pure (error enametoolong))
    else if is_dot_name name
    then (do vput dir; pure (error einval))
    else if is_dot_dot name
    then (do vput dir; pure (error enotempty))
    else do check (f.has rmdir_op dir); r ← fs_step (f.rmdir dir name); put_return dir r

pub do_rmdir : Fs → Name → Action Ret
unfolding rmdir_at
do_rmdir f path = do r ← dir_namev f path; rmdir_at f r

-- `S_ISDIR` of a vnode's mode.
unfoldable pub is_directory : Fs → ℕ → Action Bool
is_directory f v = do x ← fetch v; pure (f.is_dir x.vn_mode)

-- `do_unlink` after its lookup.
pub unlink_found : Fs → (dir : ℕ) → Name → Found → Action Ret
unfolding is_directory
unlink_found f dir name (missing e) = do vput dir; pure (error e)
unlink_found f dir name (found v) = do
  d ← is_directory f v
  if d
      then (do vput dir; vput v; pure (error eisdir))
      else do check (f.has unlink_op dir); r ← fs_step (f.unlink dir name); vput dir; vput v; pure r

pub unlink_at : Fs → Named → Action Ret
unfolding unlink_found
unlink_at f (unresolved e) = pure (error e)
unlink_at f (resolved dir name) =
    if ltb (f.name_len - 1) (length name)
    then (do vput dir; pure (error enametoolong))
    else do r ← lookup f dir name; unlink_found f dir name r

pub do_unlink : Fs → Name → Action Ret
unfolding unlink_at
do_unlink f path = do r ← dir_namev f path; unlink_at f r

-- `do_link` after the lookup of the new name.
unfoldable pub link_new : Fs → (file dir : ℕ) → Name → Found → Action Ret
link_new f file dir name (found v) = do vput v; vput file; pure (error eexist)
link_new f file dir name (missing e) = do
  check (f.has link_op dir)
  r ← fs_step (f.link file dir name)
  vput file
  vput dir
  pure r

unfoldable pub link_at : Fs → (file : ℕ) → Named → Action Ret
unfolding link_new
link_at f file (unresolved e) = do vput file; pure (error e)
link_at f file (resolved dir name) = do r ← lookup f dir name; link_new f file dir name r

-- `do_link` of the file that `from` names.
unfoldable pub link_file : Fs → (to : Name) → Found → Action Ret
unfolding link_at is_directory
link_file f to (missing e) = pure (error e)
link_file f to (found v) = do
  d ← is_directory f v
  if d then (do vput v; pure (error eisdir)) else do r ← dir_namev f to; link_at f v r

unfoldable pub do_link : Fs → (from to : Name) → Action Ret
unfolding link_file
do_link f from to =
    if ltb f.max_path (length to) || ltb f.max_path (length from)
    then pure (error enametoolong)
    else do r ← open_namev f from false; link_file f to r

-- `do_rename` after `do_link`.
pub rename_then : Fs → Name → Ret → Action Ret
unfolding do_unlink
rename_then f old (value zero) = do_unlink f old
rename_then f old r = pure r

pub do_rename : Fs → (old new : Name) → Action Ret
unfolding rename_then do_link
do_rename f old new = do r ← do_link f old new; rename_then f old r

abbrev pub set_cwd : ℕ → Action (Unit {0})
set_cwd v w = ok (tt, record w { p_cwd = v })

-- `do_chdir` after its lookup.
pub chdir_found : Fs → (dir : ℕ) → Found → Action Ret
unfolding is_directory
chdir_found f dir (missing e) = do vput dir; pure (error e)
chdir_found f dir (found v) = do
  d ← is_directory f v
  if negb d
      then (do vput dir; vput v; pure (error enotdir))
      else do vput dir; old ← cwd; vput old; set_cwd v; pure (value 0)

pub chdir_at : Fs → Named → Action Ret
unfolding chdir_found
chdir_at f (unresolved e) = pure (error e)
chdir_at f (resolved dir name) =
    if leb f.name_len (length name)
    then (do vput dir; pure (error enametoolong))
    else do r ← lookup f dir name; chdir_found f dir r

pub do_chdir : Fs → Name → Action Ret
unfolding chdir_at
do_chdir f path = do r ← dir_namev f path; chdir_at f r

-- `do_stat` of the file that the path names. A file system may have no `stat`.
pub stat_found : Fs → Found → Action Ret
stat_found f (missing e) = pure (error e)
stat_found f (found v) =
    if f.has stat_op v
    then (do r ← fs_step (f.stat v); put_return v r)
    else do vput v; pure (value 0)

-- `buf` says whether the buffer's pointer is not NULL.
pub do_stat : Fs → Name → (buf : Bool) → Action Ret
unfolding stat_found
do_stat f path buf =
    if ltb f.max_path (length path)
    then pure (error enametoolong)
    else if negb buf
    then pure (error efault)
    else do r ← open_namev f path false; stat_found f r
