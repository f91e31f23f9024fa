-- ===== src/Syscall/Heap.antt =====
-- The kernel memory that the code of system calls allocates.
use csci_402_operating_syste.Prelude.{
  ℕ, ◌≡◌, refl, ap, sym, ◌∙◌, ◌⊎◌, inl, inr, Bool, true, false, List, ◌∷◌, ◌==◌, subst, arith,
  Bool-cases,
}
use csci_402_operating_syste.Prelude.Run.{ok}
use csci_402_operating_syste.Syscall.Kernel.{
  Argstr, Kernel, Action, and_then, if◌then◌else◌, ◌>>=◌, ◌>>◌, pure, null, has, erase, call,
  get_errno, set_errno, Calls, kmalloc, kfree,
}
use csci_402_operating_syste.Syscall.Calls.{user_strdup}

-- From every state with the heap `h` the action passes without a fault, and its result and the heap
-- after it satisfy `Q`.
pub record Runs {W A : Type 0} (m : Action W A) (h : List ℕ) (Q : A → List ℕ → Type 0)
    : Type 0 where
  pub run :
      (k : Kernel W) → k.heap ≡ h → (a : A) × (k' : Kernel W) × (m k ≡ ok (a, k')) × Q a k'.heap

-- `kmalloc` answers NULL or memory that is not in use.
pub record IsAllocator {W : Type 0} (c : Calls W) : Type 0 where
  pub fresh : (n : ℕ) (w : W) (h : List ℕ) → has (c.malloc n w h) h ≡ false

module _ {W : Type 0} where
  pub Runs-pure :
      {A : Type 0} (a : A) (h : List ℕ) (Q : A → List ℕ → Type 0)
      → Q a h
      → Runs {W = W} (pure a) h Q
  unfolding pure
  Runs-pure a h Q q = record { run = λ k e. (a, k, refl, subst (Q a) (sym e) q) }

  pub Runs->>= :
      {A B : Type 0} (m : Action W A) (f : A → Action W B) (h : List ℕ) (P : A → List ℕ → Type 0)
      (Q : B → List ℕ → Type 0)
      → Runs m h P
      → ((a : A) (h' : List ℕ) → P a h' → Runs (f a) h' Q)
      → Runs (m >>= f) h Q
  unfolding ◌>>=◌
  Runs->>= m f h P Q r s = record {
    run = λ k e.
        let (a, k', e', p) = r.run k e in
        let (b, k'', e'', q) = (s a k'.heap p).run k' refl in
        (b, k'', ap (λ z. and_then z f) e' ∙ e'', q);
  }

  -- A step before the rest of an action.
  pub Runs-call :
      {A B : Type 0} (g : W → A × W) (f : A → Action W B) (h : List ℕ) (Q : B → List ℕ → Type 0)
      → ((a : A) → Runs (f a) h Q)
      → Runs (call g >>= f) h Q
  unfolding call ◌>>=◌
  Runs-call g f h Q r = record {
    run = λ k e. (r (g k.world).0).run (record k { world = (g k.world).1 }) e;
  }

  -- The same where every result of the step has a property.
  pub Runs-call_fact :
      {A B : Type 0} (g : W → A × W) (P : A → Type 0) (f : A → Action W B) (h : List ℕ)
      (Q : B → List ℕ → Type 0)
      → ((w : W) → P (g w).0)
      → ((a : A) → P a → Runs (f a) h Q)
      → Runs (call g >>= f) h Q
  unfolding call ◌>>=◌
  Runs-call_fact g P f h Q p r = record {
    run = λ k e. (r (g k.world).0 (p k.world)).run (record k { world = (g k.world).1 }) e;
  }

  pub Runs-call_then :
      {A B : Type 0} (g : W → A × W) (n : Action W B) (h : List ℕ) (Q : B → List ℕ → Type 0)
      → Runs n h Q
      → Runs (call g >> n) h Q
  unfolding call ◌>>◌
  Runs-call_then g n h Q r = record { run = λ k e. r.run (record k { world = (g k.world).1 }) e }

  pub Runs-call_only :
      {A : Type 0} (g : W → A × W) (h : List ℕ) (Q : A → List ℕ → Type 0)
      → ((a : A) → Q a h)
      → Runs (call g) h Q
  unfolding call
  Runs-call_only g h Q q = record {
    run = λ k e. (
      (g k.world).0,
      record k { world = (g k.world).1 },
      refl,
      subst (Q (g k.world).0) (sym e) (q (g k.world).0),
    );
  }

  pub Runs-get_errno :
      (h : List ℕ) (Q : ℕ → List ℕ → Type 0) → ((e : ℕ) → Q e h) → Runs {W = W} get_errno h Q
  unfolding get_errno
  Runs-get_errno h Q q = record {
    run = λ k e. (k.kt_errno, k, refl, subst (Q k.kt_errno) (sym e) (q k.kt_errno));
  }

  pub Runs-errno :
      {B : Type 0} (e : ℕ) (n : Action W B) (h : List ℕ) (Q : B → List ℕ → Type 0)
      → Runs n h Q
      → Runs (set_errno e >> n) h Q
  unfolding set_errno ◌>>◌
  Runs-errno e n h Q r = record { run = λ k p. r.run (record k { kt_errno = e }) p }

  pub Runs-if :
      {A : Type 0} (b : Bool) (m n : Action W A) (h : List ℕ) (Q : A → List ℕ → Type 0)
      → (b ≡ true → Runs m h Q)
      → (b ≡ false → Runs n h Q)
      → Runs (if b then m else n) h Q
  unfolding if◌then◌else◌
  Runs-if true m n h Q r s = r refl
  Runs-if false m n h Q r s = s refl

  pub Runs-kfree :
      {B : Type 0} (p : ℕ) (n : Action W B) (h h' : List ℕ) (Q : B → List ℕ → Type 0)
      → has p h ≡ true
      → erase p h ≡ h'
      → Runs n h' Q
      → Runs (kfree p >> n) h Q
  unfolding kfree ◌>>◌
  Runs-kfree p n h h' Q i e r = record {
    run = λ k f.
        let (b, k', e', q) = r.run (record k { heap = erase p k.heap }) (ap (erase p) f ∙ e) in
        (b, k', rw (ap (has p) f ∙ i, kfree) e', q);
  }

  pub Runs-weaken :
      {A : Type 0} (m : Action W A) (h : List ℕ) (P Q : A → List ℕ → Type 0)
      → Runs m h P
      → ((a : A) (h' : List ℕ) → P a h' → Q a h')
      → Runs m h Q
  Runs-weaken m h P Q r w = record {
    run = λ k e. let (a, k', e', p) = r.run k e in (a, k', e', w a k'.heap p);
  }

-- The first of the memory in use is freed.
erase_first : (p : ℕ) (h : List ℕ) → erase p (p ∷ h) ≡ h
erase_first p h = ground arith

has_first : (p : ℕ) (h : List ℕ) → has p (p ∷ h) ≡ true
has_first p h = ground arith

module _ {W : Type 0} (c : Calls W) (al : IsAllocator c) where
  pub Runs-kmalloc :
      {B : Type 0} (n : ℕ) (a : Action W B) (b : ℕ → Action W B) (h : List ℕ)
      (Q : B → List ℕ → Type 0)
      → Runs a h Q
      → ((p : ℕ) → (p == null) ≡ false → has p h ≡ false → Runs (b p) (p ∷ h) Q)
      → Runs (kmalloc c n >>= λ p. if p == null then a else b p) h Q
  unfolding kmalloc ◌>>=◌ if◌then◌else◌
  Runs-kmalloc n a b h Q r s = record {
    run = λ k e.
        let p = c.malloc n k.world k.heap in
        elim (Bool-cases (p == null)) [
          | inl t ↦ rw (t, kmalloc) (r.run k e)
          | inr f ↦
              rw (f, kmalloc, f)
                ((s p f (subst (λ h. has p h ≡ false) e (al.fresh n k.world k.heap))).run
                  (record k { heap = p ∷ k.heap }) (ap (λ h. p ∷ h) e))
        ];
  }

  -- A string in new memory, or NULL with the heap as before.
  abbrev Copied : List ℕ → ℕ → List ℕ → Type 0
  Copied h p h' =
      ((p ≡ null) × (h' ≡ h)) ⊎ (((p == null) ≡ false) × (has p h ≡ false) × (h' ≡ p ∷ h))

  user_strdup-Runs : (s : Argstr) (h : List ℕ) → Runs (user_strdup c s) h (Copied h)
  unfolding user_strdup
  user_strdup-Runs s h =
      Runs-kmalloc _ _ _ h (Copied h)
        (Runs-errno _ _ h _ (Runs-pure null h (Copied h) (inl (refl, refl))))
        λ p f n. Runs-call _ _ _ _ λ ret.
          Runs-if _ _ _ _ _
            (λ _. Runs-errno _ _ _ _ (
              Runs-kfree p _ _ h _ (has_first p h) (erase_first p h)
                (Runs-pure null h (Copied h) (inl (refl, refl)))))
            λ _. Runs-pure p (p ∷ h) (Copied h) (inr (f, n, refl))

  pub Runs-user_strdup :
      {B : Type 0} (s : Argstr) (a : Action W B) (b : ℕ → Action W B) (h : List ℕ)
      (Q : B → List ℕ → Type 0)
      → Runs a h Q
      → ((p : ℕ) → (p == null) ≡ false → has p h ≡ false → Runs (b p) (p ∷ h) Q)
      → Runs (user_strdup c s >>= λ p. if p == null then a else b p) h Q
  unfolding if◌then◌else◌
  Runs-user_strdup s a b h Q r g =
      Runs->>= _ _ h (Copied h) Q (user_strdup-Runs s h)
        λ p h' x. elim x [ inl (z, e) ↦ rw (z, e) r | inr (f, n, e) ↦ rw (f, e) (g p f n) ]
