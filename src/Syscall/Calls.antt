-- ===== src/Syscall/Calls.antt =====
-- vm-submit/kernel/api/syscall.c and access.c: a function for each system call.
use csci_402_operating_syste.Prelude.{
  ℕ, zero, suc, ◌||◌, leb, Option, none, some, ◌==◌, List, [], ◌∷◌, add32,
}
use csci_402_operating_syste.Syscall.Kernel.{
  Argstr, Field, fd, buf, nbytes, count, dirp, ofd, nfd, offset, whence, flags, addr, len, wpa_pid,
  wpa_options, wpa_status, path, to, from, oldname, newname, filename, sysname, release, version,
  nodename, machine, Action, if◌then◌else◌, ◌>>=◌, ◌>>◌, pure, null, minus_one, is_negative, negate,
  call, set_errno, Calls, kmalloc, kfree,
}

-- What a system call comes to: it returns, its thread exits, or a loop is not over within its bound.
pub data Outcome : Type 0 where
  returned : ℕ → Outcome
  gone : Outcome
  unfinished : Outcome

-- What the loop of `sys_getdents` ends with.
pub data Dents : Type 0 where
  refused : Dents
  copied : ℕ → Dents
  out_of_rounds : Dents

-- `curthr->kt_errno = e; return -1;`
abbrev pub fail : {W : Type 0} → ℕ → Action W ℕ
fail e = do set_errno e; pure minus_one

-- The end of most calls: a negative result is an error number.
unfoldable pub report : {W : Type 0} → ℕ → Action W ℕ
report err = if is_negative err then fail (negate err) else pure err

module _ {W : Type 0} (c : Calls W) where
  unfoldable pub user_strdup : Argstr → Action W ℕ
  user_strdup ustr = do
    kstr ← kmalloc c (add32 ustr.as_len 1)
    if kstr == null then (do set_errno c.enomem; pure null) else do
      ret ← call (c.copy_in kstr ustr.as_str (add32 ustr.as_len 1))
      if is_negative ret then (do set_errno (negate ret); kfree kstr; pure null) else pure kstr

  unfoldable pub sys_read : ℕ → Action W ℕ
  sys_read arg = do
    r ← call (c.copy_args arg)
    if is_negative r.0 then fail c.efault else do
      mem ← kmalloc c (r.1.word nbytes)
      if mem == null then fail c.enomem else do
        val ← call (c.do_read (r.1.word fd) mem (r.1.word nbytes))
        ubuf ← call (c.load arg buf)
        out ← call (c.copy_out ubuf mem (r.1.word nbytes))
        kfree mem
        report val

  unfoldable pub sys_write : ℕ → Action W ℕ
  sys_write arg = do
    r ← call (c.copy_args arg)
    if is_negative r.0 then fail c.efault else do
      mem ← kmalloc c (r.1.word nbytes)
      if mem == null then (do set_errno c.enomem; pure null) else do
        ubuf ← call (c.load arg buf)
        taken ← call (c.copy_in mem ubuf (r.1.word nbytes))
        val ← call (c.do_write (r.1.word fd) mem (r.1.word nbytes))
        kfree mem
        report val

  unfoldable pub sys_close : ℕ → Action W ℕ
  sys_close arg = do err ← call (c.do_close arg); report err

  unfoldable pub sys_dup : ℕ → Action W ℕ
  sys_dup arg = do err ← call (c.do_dup arg); report err

  unfoldable pub sys_dup2 : ℕ → Action W ℕ
  sys_dup2 arg = do
    r ← call (c.copy_args arg)
    if is_negative r.0
        then fail (negate r.0)
        else do err ← call (c.do_dup2 (r.1.word ofd) (r.1.word nfd)); report err

  unfoldable pub sys_mkdir : ℕ → Action W ℕ
  sys_mkdir arg = do
    r ← call (c.copy_args arg)
    if is_negative r.0 then fail (negate r.0) else do
      name ← user_strdup (r.1.str path)
      if name == null
          then fail c.einval
          else do err ← call (c.do_mkdir name); kfree name; report err

  unfoldable pub sys_rmdir : ℕ → Action W ℕ
  sys_rmdir arg = do
    r ← call (c.copy_args arg)
    if is_negative r.0 then fail (negate r.0) else do
      name ← user_strdup (r.1.str path)
      if name == null
          then fail c.einval
          else do err ← call (c.do_rmdir name); kfree name; report err

  unfoldable pub sys_unlink : ℕ → Action W ℕ
  sys_unlink arg = do
    r ← call (c.copy_args arg)
    if is_negative r.0 then fail (negate r.0) else do
      name ← user_strdup (r.1.str path)
      if name == null
          then fail c.einval
          else do err ← call (c.do_unlink name); kfree name; report err

  unfoldable pub sys_link : ℕ → Action W ℕ
  sys_link arg = do
    r ← call (c.copy_args arg)
    if is_negative r.0 then fail (negate r.0) else do
      new ← user_strdup (r.1.str to)
      if new == null then fail c.einval else do
        old ← user_strdup (r.1.str from)
        if old == null
            then (do set_errno c.einval; kfree new; pure minus_one)
            else do err ← call (c.do_link old new); kfree new; kfree old; report err

  unfoldable pub sys_rename : ℕ → Action W ℕ
  sys_rename arg = do
    r ← call (c.copy_args arg)
    if is_negative r.0 then fail (negate r.0) else do
      old ← user_strdup (r.1.str oldname)
      if old == null then fail c.einval else do
        new ← user_strdup (r.1.str newname)
        if new == null
            then (do set_errno c.einval; kfree old; pure minus_one)
            else do err ← call (c.do_rename old new); kfree new; kfree old; report err

  unfoldable pub sys_chdir : ℕ → Action W ℕ
  sys_chdir arg = do
    r ← call (c.copy_args arg)
    if is_negative r.0 then fail (negate r.0) else do
      name ← user_strdup (r.1.str path)
      if name == null
          then fail c.einval
          else do err ← call (c.do_chdir name); kfree name; report err

  unfoldable pub sys_lseek : ℕ → Action W ℕ
  sys_lseek arg = do
    r ← call (c.copy_args arg)
    if is_negative r.0 then fail (negate r.0) else do
      err ← call (c.do_lseek (r.1.word fd) (r.1.word offset) (r.1.word whence))
      report err

  unfoldable pub sys_open : ℕ → Action W ℕ
  sys_open arg = do
    r ← call (c.copy_args arg)
    if is_negative r.0 then fail (negate r.0) else do
      name ← user_strdup (r.1.str filename)
      if name == null
          then fail c.einval
          else do err ← call (c.do_open name (r.1.word flags)); kfree name; report err

  unfoldable pub sys_munmap : ℕ → Action W ℕ
  sys_munmap arg = do
    r ← call (c.copy_args arg)
    if r.0 == 0
        then (do
          err ← call (c.do_munmap (r.1.word addr) (r.1.word len))
          if is_negative err then fail (negate err) else pure 0)
        else fail c.efault

  -- MAP_FAILED is -1.
  unfoldable pub sys_mmap : ℕ → Action W ℕ
  sys_mmap arg = do
    r ← call (c.copy_args arg)
    if is_negative r.0
        then fail c.efault
        else do m ← call (c.do_mmap r.1); if is_negative m.0 then fail (negate m.0) else pure m.1

  unfoldable pub sys_waitpid : ℕ → Action W ℕ
  sys_waitpid arg = do
    r ← call (c.copy_args arg)
    if is_negative r.0 then fail c.efault else do
      p ← call (c.do_waitpid (r.1.word wpa_pid) (r.1.word wpa_options))
      if is_negative p.0
          then fail (negate p.0)
          else (if r.1.word wpa_status == null then pure p.0 else do
            out ← call (c.copy_out (r.1.word wpa_status) (c.status_at p.1) 4)
            if is_negative out then fail c.efault else pure p.0)

  unfoldable pub sys_brk : ℕ → Action W ℕ
  sys_brk arg = do r ← call (c.do_brk arg); if r.0 == 0 then pure r.1 else fail (negate r.0)

  unfoldable pub sys_stat : ℕ → Action W ℕ
  sys_stat arg = do
    r ← call (c.copy_args arg)
    if is_negative r.0 then fail c.efault else do
      name ← user_strdup (r.1.str path)
      if name == null then fail c.einval else do
        s ← call (c.do_stat name)
        ret ← (if s.0 == 0 then call (c.copy_out (r.1.word buf) s.1 c.stat_size) else pure s.0)
        if ret == 0
            then (do kfree name; pure 0)
            else (do kfree name; set_errno (negate ret); pure minus_one)

  -- The copies of `sys_uname`, one after the other; the first that fails ends them.
  unfoldable pub copy_strings : ℕ → List Field → Action W ℕ
  copy_strings arg [] = pure 0
  copy_strings arg (f ∷ fs) = do
    ret ← call (c.copy_out (c.field_at arg f) (c.string_at f) (c.string_size f))
    if ret == 0 then copy_strings arg fs else fail (negate ret)

  unfoldable pub sys_uname : ℕ → Action W ℕ
  sys_uname arg = copy_strings arg (sysname ∷ release ∷ version ∷ nodename ∷ machine ∷ [])

  unfoldable pub sys_fork : Action W ℕ
  sys_fork = do ret ← call c.do_fork; report ret

  unfoldable pub sys_debug : ℕ → Action W ℕ
  sys_debug arg = do
    r ← call (c.copy_args arg)
    if is_negative r.0
        then fail (negate r.0)
        else do message ← user_strdup (r.1.str path); kfree message; pure 0

  -- The loop of `sys_getdents`, with a bound on its rounds: the bytes copied, with the last result of
  -- `do_getdent`; or its error, at which the function returns at once.
  unfoldable pub getdents_loop : (rounds total bytes arg file entry : ℕ) → Action W Dents
  getdents_loop zero total bytes arg file entry = pure out_of_rounds
  getdents_loop (suc k) total bytes arg file entry =
      if leb total bytes then pure (copied bytes) else do
        val ← call (c.do_getdent file entry)
        if is_negative val
            then (do set_errno (negate val); pure refused)
            else if val == 0
            then pure (copied bytes)
            else do
              ubuf ← call (c.load arg dirp)
              out ← call (c.copy_out ubuf entry c.dirent_size)
              getdents_loop k total (add32 bytes val) arg file entry

  -- What follows the loop. The last result is not negative there.
  unfoldable pub getdents_end : ℕ → Dents → Action W Outcome
  getdents_end entry refused = pure (returned minus_one)
  getdents_end entry (copied bytes) = do kfree entry; pure (returned bytes)
  getdents_end entry out_of_rounds = pure unfinished

  unfoldable pub sys_getdents : ℕ → Action W Outcome
  sys_getdents arg = do
    r ← call (c.copy_args arg)
    if is_negative r.0 then (do set_errno c.efault; pure (returned minus_one)) else do
      entry ← kmalloc c c.dirent_size
      if entry == null then (do set_errno c.enomem; pure (returned null)) else do
        let total = r.1.word count
        d ← getdents_loop (suc total) total 0 arg (r.1.word fd) entry
        getdents_end entry d

  -- The loop of `sys_kshell`: `none` if the shell runs more commands than `rounds`.
  unfoldable pub kshell_loop : (rounds ksh : ℕ) → Action W (Option ℕ)
  kshell_loop zero ksh = pure none
  kshell_loop (suc k) ksh = do
    err ← call (c.kshell_execute_next ksh)
    if is_negative err || err == 0 then pure (some err) else kshell_loop k ksh

  unfoldable pub kshell_end : ℕ → Option ℕ → Action W Outcome
  kshell_end ksh none = pure unfinished
  kshell_end ksh (some err) = do
    call (c.kshell_destroy ksh)
    if is_negative err
        then (do set_errno (negate err); pure (returned minus_one))
        else pure (returned 0)

  unfoldable pub sys_kshell : (rounds tty : ℕ) → Action W Outcome
  sys_kshell rounds tty = do
    ksh ← call (c.kshell_create tty)
    if ksh == null
        then (do set_errno c.enodev; pure (returned minus_one))
        else do err ← kshell_loop rounds ksh; kshell_end ksh err
