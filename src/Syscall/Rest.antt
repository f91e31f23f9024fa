-- ===== src/Syscall/Rest.antt =====
-- The system calls that take no memory, and the loops of `sys_getdents` and `sys_kshell`.
use csci_402_operating_syste.Prelude.{
  ℕ, zero, suc, ◌≡◌, refl, ◌⊎◌, inl, inr, List, [], ◌∷◌, ◌==◌, Option, none, some, sym, subst,
  add32,
}
use csci_402_operating_syste.Syscall.Kernel.{
  Field, Action, if◌then◌else◌, ◌>>◌, pure, minus_one, negate, kfree, set_errno, Calls,
}
use csci_402_operating_syste.Syscall.Calls.{
  Outcome, returned, gone, unfinished, sys_close, sys_dup, sys_dup2, sys_lseek, sys_munmap,
  sys_mmap, sys_waitpid, sys_brk, sys_stat, sys_uname, copy_strings, sys_fork, sys_getdents,
  getdents_loop, getdents_end, Dents, refused, copied, out_of_rounds, sys_kshell, kshell_loop,
  kshell_end,
}
use csci_402_operating_syste.Syscall.Heap.{
  Runs, IsAllocator, Runs-pure, Runs->>=, Runs-call, Runs-call_then, Runs-call_only, Runs-errno,
  Runs-if, Runs-kmalloc, Runs-user_strdup,
}
use csci_402_operating_syste.Syscall.Balance.{
  Fine, Same, fail-Runs, value-Runs, report-Runs, Runs-free,
}

-- The memory of the entry is given back, or the call fails and keeps it.
abbrev pub Listed : List ℕ → Outcome → List ℕ → Type 0
Listed h (returned r) h' = (h' ≡ h) ⊎ ((r ≡ minus_one) × (p : ℕ) × (h' ≡ p ∷ h))
Listed h gone h' = ⊥
Listed h unfinished h' = (p : ℕ) × (h' ≡ p ∷ h)

-- A kernel shell that is left, or runs more commands than were allowed for.
abbrev pub Served : List ℕ → Outcome → List ℕ → Type 0
Served h (returned r) h' = Fine h r h'
Served h gone h' = ⊥
Served h unfinished h' = h' ≡ h

module _ {W : Type 0} (c : Calls W) where
  pub sys_close-Runs : (arg : ℕ) (h : List ℕ) → Runs (sys_close c arg) h (Fine h)
  unfolding sys_close
  sys_close-Runs arg h = Runs-call _ _ _ _ λ err. report-Runs err h

  pub sys_dup-Runs : (arg : ℕ) (h : List ℕ) → Runs (sys_dup c arg) h (Fine h)
  unfolding sys_dup
  sys_dup-Runs arg h = Runs-call _ _ _ _ λ err. report-Runs err h

  pub sys_fork-Runs : (h : List ℕ) → Runs (sys_fork c) h (Fine h)
  unfolding sys_fork
  sys_fork-Runs h = Runs-call _ _ _ _ λ err. report-Runs err h

  pub sys_dup2-Runs : (arg : ℕ) (h : List ℕ) → Runs (sys_dup2 c arg) h (Fine h)
  unfolding sys_dup2
  sys_dup2-Runs arg h =
      Runs-call _ _ _ _
        λ r. Runs-if _ _ _ _ _ (λ _. fail-Runs _ h) λ _. Runs-call _ _ _ _ λ err. report-Runs err h

  pub sys_lseek-Runs : (arg : ℕ) (h : List ℕ) → Runs (sys_lseek c arg) h (Fine h)
  unfolding sys_lseek
  sys_lseek-Runs arg h =
      Runs-call _ _ _ _
        λ r. Runs-if _ _ _ _ _ (λ _. fail-Runs _ h) λ _. Runs-call _ _ _ _ λ err. report-Runs err h

  pub sys_munmap-Runs : (arg : ℕ) (h : List ℕ) → Runs (sys_munmap c arg) h (Fine h)
  unfolding sys_munmap
  sys_munmap-Runs arg h = Runs-call _ _ _ _ λ r.
      Runs-if _ _ _ _ _
        (λ _.
          Runs-call _ _ _ _ λ err. Runs-if _ _ _ _ _ (λ _. fail-Runs _ h) λ _. value-Runs 0 h refl)
        λ _. fail-Runs _ h

  pub sys_mmap-Runs : (arg : ℕ) (h : List ℕ) → Runs (sys_mmap c arg) h (Same h)
  unfolding sys_mmap
  sys_mmap-Runs arg h = Runs-call _ _ _ _ λ r.
      Runs-if _ _ _ _ _ (λ _. Runs-errno _ _ _ _ (Runs-pure _ _ _ refl))
        λ _. Runs-call _ _ _ _ λ m.
          Runs-if _ _ _ _ _ (λ _. Runs-errno _ _ _ _ (Runs-pure _ _ _ refl))
            λ _. Runs-pure _ _ _ refl

  pub sys_brk-Runs : (arg : ℕ) (h : List ℕ) → Runs (sys_brk c arg) h (Same h)
  unfolding sys_brk
  sys_brk-Runs arg h = Runs-call _ _ _ _ λ r.
      Runs-if _ _ _ _ _ (λ _. Runs-pure _ _ _ refl) λ _. Runs-errno _ _ _ _ (Runs-pure _ _ _ refl)

  pub sys_waitpid-Runs : (arg : ℕ) (h : List ℕ) → Runs (sys_waitpid c arg) h (Fine h)
  unfolding sys_waitpid
  sys_waitpid-Runs arg h = Runs-call _ _ _ _ λ r.
      Runs-if _ _ _ _ _ (λ _. fail-Runs _ h)
        λ _. Runs-call _ _ _ _ λ p.
          Runs-if _ _ _ _ _ (λ _. fail-Runs _ h)
            λ e.
              Runs-if _ _ _ _ _ (λ _. value-Runs p.0 h e)
                λ _.
                  Runs-call _ _ _ _
                    λ out. Runs-if _ _ _ _ _ (λ _. fail-Runs _ h) λ _. value-Runs p.0 h e

  copy_strings-Runs :
      (arg : ℕ) (fs : List Field) (h : List ℕ) → Runs (copy_strings c arg fs) h (Fine h)
  unfolding copy_strings
  copy_strings-Runs arg [] h = value-Runs 0 h refl
  copy_strings-Runs arg (f ∷ fs) h =
      Runs-call _ _ _ _
        λ ret. Runs-if _ _ _ _ _ (λ _. copy_strings-Runs arg fs h) λ _. fail-Runs _ h

  pub sys_uname-Runs : (arg : ℕ) (h : List ℕ) → Runs (sys_uname c arg) h (Fine h)
  unfolding sys_uname
  sys_uname-Runs arg h = copy_strings-Runs arg _ h

  getdents_loop-Runs :
      (k total bytes arg file entry : ℕ) (h : List ℕ)
      → Runs (getdents_loop c k total bytes arg file entry) h (Same h)
  unfolding getdents_loop
  getdents_loop-Runs zero total bytes arg file entry h = Runs-pure _ _ _ refl
  getdents_loop-Runs (suc k) total bytes arg file entry h =
      Runs-if _ _ _ _ _ (λ _. Runs-pure _ _ _ refl)
        λ _. Runs-call _ _ _ _ λ val.
          Runs-if _ _ _ _ _ (λ _. Runs-errno _ _ _ _ (Runs-pure _ _ _ refl))
            λ _.
              Runs-if _ _ _ _ _ (λ _. Runs-pure _ _ _ refl)
                λ _. Runs-call _ _ _ _ λ ubuf.
                  Runs-call _ _ _ _
                    λ out. getdents_loop-Runs k total (add32 bytes val) arg file entry h

  getdents_end-Runs :
      (entry : ℕ) (d : Dents) (h : List ℕ) → Runs (getdents_end c entry d) (entry ∷ h) (Listed h)
  unfolding getdents_end
  getdents_end-Runs entry refused h = Runs-pure _ _ _ (inr (refl, entry, refl))
  getdents_end-Runs entry (copied bytes) h = Runs-free entry _ h _ (Runs-pure _ _ _ (inl refl))
  getdents_end-Runs entry out_of_rounds h = Runs-pure _ _ _ (entry, refl)

  kshell_loop-Runs : (k ksh : ℕ) (h : List ℕ) → Runs (kshell_loop c k ksh) h (Same h)
  unfolding kshell_loop
  kshell_loop-Runs zero ksh h = Runs-pure _ _ _ refl
  kshell_loop-Runs (suc k) ksh h =
      Runs-call _ _ _ _
        λ err. Runs-if _ _ _ _ _ (λ _. Runs-pure _ _ _ refl) λ _. kshell_loop-Runs k ksh h

  kshell_end-Runs :
      (ksh : ℕ) (err : Option ℕ) (h : List ℕ) → Runs (kshell_end c ksh err) h (Served h)
  unfolding kshell_end
  kshell_end-Runs ksh none h = Runs-pure _ _ _ refl
  kshell_end-Runs ksh (some err) h = Runs-call_then _ _ _ _ (
      Runs-if _ _ _ _ _ (λ _. Runs-errno _ _ _ _ (Runs-pure _ _ _ (refl, refl)))
        λ _. Runs-pure _ _ _ (refl, refl))

  pub sys_kshell-Runs : (rounds tty : ℕ) (h : List ℕ) → Runs (sys_kshell c rounds tty) h (Served h)
  unfolding sys_kshell
  sys_kshell-Runs rounds tty h = Runs-call _ _ _ _ λ ksh.
      Runs-if _ _ _ _ _ (λ _. Runs-errno _ _ _ _ (Runs-pure _ _ _ (refl, refl)))
        λ _. Runs->>= _ _ h (Same h) _ (kshell_loop-Runs rounds ksh h) λ err h' e.
          subst (λ k. Runs (kshell_end c ksh err) k (Served h)) (sym e) (kshell_end-Runs ksh err h)

-- The end of `sys_stat`.
abbrev stat_end : {W : Type 0} → (name ret : ℕ) → Action W ℕ
stat_end name ret =
    if ret == 0
    then (do kfree name; pure 0)
    else (do kfree name; set_errno (negate ret); pure minus_one)

stat_end-Runs :
    {W : Type 0} (name ret : ℕ) (h : List ℕ) → Runs {W = W} (stat_end name ret) (name ∷ h) (Fine h)
stat_end-Runs name ret h =
    Runs-if _ _ _ _ _ (λ _. Runs-free name _ h _ (value-Runs 0 h refl))
      λ _. Runs-free name _ h _ (fail-Runs _ h)

module _ {W : Type 0} (c : Calls W) where
  module _ (al : IsAllocator c) where
    pub sys_stat-Runs : (arg : ℕ) (h : List ℕ) → Runs (sys_stat c arg) h (Fine h)
    unfolding sys_stat
    sys_stat-Runs arg h = Runs-call _ _ _ _ λ r.
        Runs-if _ _ _ _ _ (λ _. fail-Runs _ h)
          λ _. Runs-user_strdup c al _ _ _ _ _ (fail-Runs _ h) λ p f n. Runs-call _ _ _ _ λ s.
            Runs->>= _ _ _ (Same (p ∷ h)) _
              (Runs-if _ _ _ _ _ (λ _. Runs-call_only _ _ _ λ _. refl) (λ _. Runs-pure _ _ _ refl))
              λ ret h' e.
                subst (λ k. Runs {W = W} (stat_end p ret) k (Fine h)) (sym e)
                  (stat_end-Runs p ret h)

    pub sys_getdents-Runs : (arg : ℕ) (h : List ℕ) → Runs (sys_getdents c arg) h (Listed h)
    unfolding sys_getdents
    sys_getdents-Runs arg h = Runs-call _ _ _ _ λ r.
        Runs-if _ _ _ _ _ (λ _. Runs-errno _ _ _ _ (Runs-pure _ _ _ (inl refl)))
          λ _.
            Runs-kmalloc c al _ _ _ _ _ (Runs-errno _ _ _ _ (Runs-pure _ _ _ (inl refl))) λ p f n.
              Runs->>= _ _ (p ∷ h) (Same (p ∷ h)) _ (getdents_loop-Runs c _ _ _ _ _ _ (p ∷ h))
                λ d h' e.
                  subst (λ k. Runs (getdents_end c p d) k (Listed h)) (sym e)
                    (getdents_end-Runs c p d h)
