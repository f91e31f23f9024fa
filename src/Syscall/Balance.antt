-- ===== src/Syscall/Balance.antt =====
-- Each system call gives back the kernel memory that it takes, and returns -1 or a number that is not
-- negative.
use csci_402_operating_syste.Prelude.{
  ℕ, ◌^◌, ◌≡◌, refl, true, false, ◌||◌, List, ◌∷◌, ◌==◌, arith, ltb,
}
use csci_402_operating_syste.Syscall.Kernel.{
  Argstr, flags, path, filename, Struct, Action, if◌then◌else◌, ◌>>=◌, ◌>>◌, pure, null, minus_one,
  is_negative, negate, has, call, Calls, kfree,
}
use csci_402_operating_syste.Syscall.Calls.{
  fail, report, user_strdup, sys_read, sys_write, sys_mkdir, sys_rmdir, sys_unlink, sys_link,
  sys_rename, sys_chdir, sys_open,
}
use csci_402_operating_syste.Syscall.Heap.{
  Runs, IsAllocator, Runs-pure, Runs-call, Runs-errno, Runs-if, Runs-kfree, Runs-kmalloc,
  Runs-user_strdup,
}

-- -1, or an `int` that is not negative.
abbrev pub IsResult : ℕ → Type 0
IsResult r = (r == minus_one || ltb r (2 ^ 31)) ≡ true

abbrev pub Fine : List ℕ → ℕ → List ℕ → Type 0
Fine h r h' = (h' ≡ h) × IsResult r

-- The same where the result is an address.
abbrev pub Same {ℓ} : {A : Type ℓ} → List ℕ → A → List ℕ → Type 0
Same h _ h' = h' ≡ h

module _ {W : Type 0} where
  pub fail-Runs : (e : ℕ) (h : List ℕ) → Runs {W = W} (fail e) h (Fine h)
  fail-Runs e h = Runs-errno _ _ _ _ (Runs-pure _ _ _ (refl, refl))

  pub value-Runs : (n : ℕ) (h : List ℕ) → is_negative n ≡ false → Runs {W = W} (pure n) h (Fine h)
  value-Runs n h e = Runs-pure _ _ _ (refl, ground arith)

  pub report-Runs : (err : ℕ) (h : List ℕ) → Runs {W = W} (report err) h (Fine h)
  unfolding report
  report-Runs err h = Runs-if _ _ _ _ _ (λ _. fail-Runs _ h) (λ e. value-Runs err h e)

  -- The memory that was allocated last is given back, or the one before it.
  pub Runs-free :
      {B : Type 0} (p : ℕ) (n : Action W B) (h : List ℕ) (Q : B → List ℕ → Type 0)
      → Runs n h Q
      → Runs (kfree p >> n) (p ∷ h) Q
  Runs-free p n h Q r = Runs-kfree p n (p ∷ h) h Q (ground arith) (ground arith) r

  Runs-free_second :
      {B : Type 0} (p q : ℕ) (n : Action W B) (h : List ℕ) (Q : B → List ℕ → Type 0)
      → has q (p ∷ h) ≡ false
      → Runs n (q ∷ h) Q
      → Runs (kfree p >> n) (q ∷ p ∷ h) Q
  Runs-free_second p q n h Q f r =
      Runs-kfree p n (q ∷ p ∷ h) (q ∷ h) Q (ground arith) (ground arith) r

module _ {W : Type 0} (c : Calls W) (al : IsAllocator c) where
  -- A call with one path: the copies, the work, and the path's memory given back.
  path_call-Runs :
      (arg : ℕ) (sel : Struct → Argstr) (work : Struct → ℕ → W → ℕ × W) (h : List ℕ)
      → Runs
          (do
            r ← call (c.copy_args arg)
            if is_negative r.0 then fail (negate r.0) else do
              name ← user_strdup c (sel r.1)
              if name == null
                  then fail c.einval
                  else do err ← call (work r.1 name); kfree name; report err)
          h
          (Fine h)
  path_call-Runs arg sel work h = Runs-call _ _ _ _ λ r.
      Runs-if _ _ _ _ _ (λ _. fail-Runs _ h)
        λ _.
          Runs-user_strdup c al _ _ _ _ _ (fail-Runs _ h)
            λ p f n. Runs-call _ _ _ _ λ err. Runs-free p _ h _ (report-Runs err h)

  pub sys_mkdir-Runs : (arg : ℕ) (h : List ℕ) → Runs (sys_mkdir c arg) h (Fine h)
  unfolding sys_mkdir
  sys_mkdir-Runs arg h = path_call-Runs arg (λ s. s.str path) (λ _. c.do_mkdir) h

  pub sys_rmdir-Runs : (arg : ℕ) (h : List ℕ) → Runs (sys_rmdir c arg) h (Fine h)
  unfolding sys_rmdir
  sys_rmdir-Runs arg h = path_call-Runs arg (λ s. s.str path) (λ _. c.do_rmdir) h

  pub sys_unlink-Runs : (arg : ℕ) (h : List ℕ) → Runs (sys_unlink c arg) h (Fine h)
  unfolding sys_unlink
  sys_unlink-Runs arg h = path_call-Runs arg (λ s. s.str path) (λ _. c.do_unlink) h

  pub sys_chdir-Runs : (arg : ℕ) (h : List ℕ) → Runs (sys_chdir c arg) h (Fine h)
  unfolding sys_chdir
  sys_chdir-Runs arg h = path_call-Runs arg (λ s. s.str path) (λ _. c.do_chdir) h

  pub sys_open-Runs : (arg : ℕ) (h : List ℕ) → Runs (sys_open c arg) h (Fine h)
  unfolding sys_open
  sys_open-Runs arg h =
      path_call-Runs arg (λ s. s.str filename) (λ s name. c.do_open name (s.word flags)) h

  pub sys_link-Runs : (arg : ℕ) (h : List ℕ) → Runs (sys_link c arg) h (Fine h)
  unfolding sys_link
  sys_link-Runs arg h = Runs-call _ _ _ _ λ r.
      Runs-if _ _ _ _ _ (λ _. fail-Runs _ h)
        λ _. Runs-user_strdup c al _ _ _ _ _ (fail-Runs _ h) λ p f n.
          Runs-user_strdup c al _ _ _ _ _
            (Runs-errno _ _ _ _ (Runs-free p _ h _ (Runs-pure _ _ _ (refl, refl))))
            λ q g m.
              Runs-call _ _ _ _
                λ err. Runs-free_second p q _ h _ m (Runs-free q _ h _ (report-Runs err h))

  pub sys_rename-Runs : (arg : ℕ) (h : List ℕ) → Runs (sys_rename c arg) h (Fine h)
  unfolding sys_rename
  sys_rename-Runs arg h = Runs-call _ _ _ _ λ r.
      Runs-if _ _ _ _ _ (λ _. fail-Runs _ h)
        λ _. Runs-user_strdup c al _ _ _ _ _ (fail-Runs _ h) λ p f n.
          Runs-user_strdup c al _ _ _ _ _
            (Runs-errno _ _ _ _ (Runs-free p _ h _ (Runs-pure _ _ _ (refl, refl))))
            λ q g m.
              Runs-call _ _ _ _ λ err. Runs-free q _ _ _ (Runs-free p _ h _ (report-Runs err h))

  pub sys_read-Runs : (arg : ℕ) (h : List ℕ) → Runs (sys_read c arg) h (Fine h)
  unfolding sys_read
  sys_read-Runs arg h = Runs-call _ _ _ _ λ r.
      Runs-if _ _ _ _ _ (λ _. fail-Runs _ h)
        λ _. Runs-kmalloc c al _ _ _ _ _ (fail-Runs _ h) λ p f n. Runs-call _ _ _ _ λ val.
          Runs-call _ _ _ _ λ ubuf. Runs-call _ _ _ _ λ out. Runs-free p _ h _ (report-Runs val h)

  pub sys_write-Runs : (arg : ℕ) (h : List ℕ) → Runs (sys_write c arg) h (Fine h)
  unfolding sys_write
  sys_write-Runs arg h = Runs-call _ _ _ _ λ r.
      Runs-if _ _ _ _ _ (λ _. fail-Runs _ h)
        λ _.
          Runs-kmalloc c al _ _ _ _ _ (Runs-errno _ _ _ _ (Runs-pure _ _ _ (refl, refl))) λ p f n.
            Runs-call _ _ _ _ λ ubuf.
              Runs-call _ _ _ _
                λ out. Runs-call _ _ _ _ λ val. Runs-free p _ h _ (report-Runs val h)
