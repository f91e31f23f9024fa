-- ===== src/Process/Reap.antt =====
-- `disposeZombie`, and the invariant of the tree of processes.
use csci_402_operating_syste.Prelude.{
  ℕ, ◌≡◌, refl, sym, ap, ◌∙◌, inl, inr, Bool, true, false, ◌&&◌, Option, none, some, ◌==◌, arith,
  if◌then◌else◌, Bool-cases, ==→eq, Option-cases, subst, if_true, if_false,
}
use csci_402_operating_syste.Prelude.Run.{ok}
use csci_402_operating_syste.Sched.{unlink, negb}
use csci_402_operating_syste.Sched.Queues.{elem, distinct, elem-unlink}
use csci_402_operating_syste.Process.Tree.{
  Procs, kthread_destroy, pt_destroy_pagedir, slab_obj_free, me, log, set_parent, set_children,
  is_dead, is_exited,
}
use csci_402_operating_syste.Process.Wait.{head, destroy_first, dispose_zombie}

abbrev pub thread_exited : Procs → Option ℕ → Bool
thread_exited s none = false
thread_exited s (some t) = is_exited (s.sched.threads t).kt_state

-- Lists hold a process once, a child knows its parent and is a process of the list, two processes have
-- different ids, and a process that is dead has a thread that has exited.
pub record IsTree (s : Procs) : Type 0 where
  pub once : distinct s.proc_list ≡ true
  pub children_once : (p : ℕ) → distinct (s.proc p).p_children ≡ true
  pub child :
      (p c : ℕ)
      → elem c (s.proc p).p_children ≡ true
      → ((s.proc c).p_pproc ≡ some p) × (elem c s.proc_list ≡ true)
  pub ids :
      (p q : ℕ)
      → elem p s.proc_list ≡ true
      → elem q s.proc_list ≡ true
      → (s.proc p).p_pid ≡ (s.proc q).p_pid
      → p ≡ q
  pub zombie :
      (p : ℕ)
      → elem p s.proc_list ≡ true
      → is_dead (s.proc p).p_state ≡ true
      → thread_exited s (head (s.proc p).p_threads) ≡ true

-- The state after a child of the current process, with the thread `t`, is disposed of.
abbrev pub disposed : (t c : ℕ) → Procs → Procs
disposed t c s =
    let s1 = set_parent c none (log (kthread_destroy t) s) in
    let s2 = log (pt_destroy_pagedir c) s1 in
    let s3 = set_children (me s) (unlink c (s2.proc (me s)).p_children) s2 in
    log (slab_obj_free c) (record s3 { proc_list = unlink c s3.proc_list })

dispose-run :
    (c t : ℕ) (s : Procs)
    → head (s.proc c).p_threads ≡ some t
    → is_exited (s.sched.threads t).kt_state ≡ true
    → dispose_zombie c s ≡ ok (disposed t c s)
unfolding dispose_zombie destroy_first
dispose-run c t s h e = rw (h, e)

module _ (s : Procs) (v : IsTree s) (t c : ℕ)
    (mine : elem c (s.proc (me s)).p_children ≡ true) where
  -- Each process but the one disposed of keeps its parent, and its children but for that one.
  disposed-parent :
      (p : ℕ) → (p == c) ≡ false → ((disposed t c s).proc p).p_pproc ≡ (s.proc p).p_pproc
  disposed-parent p ne = ground arith

  disposed-children :
      (p : ℕ)
      → ((disposed t c s).proc p).p_children
        ≡ (if p == me s then unlink c (s.proc (me s)).p_children else (s.proc p).p_children)
  disposed-children p = ground arith

  disposed-threads : (p : ℕ) → ((disposed t c s).proc p).p_threads ≡ (s.proc p).p_threads
  disposed-threads p = ground arith

  disposed-pid : (p : ℕ) → ((disposed t c s).proc p).p_pid ≡ (s.proc p).p_pid
  disposed-pid p = ground arith

  disposed-listed : (p : ℕ) → elem p (unlink c s.proc_list) ≡ true → elem p s.proc_list ≡ true
  disposed-listed p i = ground (arith, i, elem-unlink p c s.proc_list v.once)

  disposed-state : (p : ℕ) → ((disposed t c s).proc p).p_state ≡ (s.proc p).p_state
  disposed-state p = ground arith

  -- No other process has it as a child.
  only_mine : (p : ℕ) → (p == me s) ≡ false → elem c (s.proc p).p_children ≡ false
  only_mine p ne = elim (Bool-cases (elem c (s.proc p).p_children)) [
    | inl i ↦ ground (arith, v.child p c i, v.child (me s) c mine)
    | inr o ↦ o
  ]

  other : (p x : ℕ) → (p == me s) ≡ false → elem x (s.proc p).p_children ≡ true → (x == c) ≡ false
  other p x ne i = elim (Bool-cases (x == c)) [
    | inl e ↦ ground (arith, only_mine p ne, ap (λ z. elem z (s.proc p).p_children) (==→eq x c e))
    | inr f ↦ f
  ]

  disposed-child :
      (p x : ℕ)
      → elem x (if p == me s then unlink c (s.proc (me s)).p_children else (s.proc p).p_children)
        ≡ true
      → (((disposed t c s).proc x).p_pproc ≡ some p) × (elem x (unlink c s.proc_list) ≡ true)
  disposed-child p x i = elim (Bool-cases (p == me s)) [
    | inl e ↦
        let u = elem-unlink x c (s.proc (me s)).p_children (v.children_once (me s)) in
        let l = elem-unlink x c s.proc_list v.once in
        let ne : (x == c) ≡ false = ground (arith, i, u.0) in
        let k = v.child (me s) x (ground (arith, i, u.0)) in
        (
          disposed-parent x ne ∙ k.0 ∙ ap some (sym (==→eq p (me s) e)),
          ground (arith, l.0, k.1, ne),
        )
    | inr e ↦
        let l = elem-unlink x c s.proc_list v.once in
        let xi : elem x (s.proc p).p_children ≡ true = ground (arith, i) in
        let k = v.child p x xi in
        let ne : (x == c) ≡ false = other p x e xi in
        (disposed-parent x ne ∙ k.0, ground (arith, l.0, k.1, ne))
  ]

  disposed-IsTree : IsTree (disposed t c s)
  disposed-IsTree = record {
    once = (elem-unlink c c s.proc_list v.once).1;
    children_once = λ p.
        subst (λ l. distinct l ≡ true) (sym (disposed-children p))
          (ground (
            arith,
            v.children_once p,
            v.children_once (me s),
            elem-unlink c c (s.proc (me s)).p_children,
          ));
    child = λ p x i. disposed-child p x (subst (λ l. elem x l ≡ true) (disposed-children p) i);
    ids = λ p q i j e.
        v.ids p q (disposed-listed p i) (disposed-listed q j)
          (sym (disposed-pid p) ∙ e ∙ disposed-pid q);
    zombie = λ p i d.
        subst (λ l. thread_exited s (head l) ≡ true) (sym (disposed-threads p))
          (v.zombie p (disposed-listed p i) (subst (λ z. is_dead z ≡ true) (disposed-state p) d));
  }

-- What is left of a child of the current process that has been waited for: it is gone from the lists,
-- every other process keeps its parent and its other children, and the tree is in order.
pub record Gone (s : Procs) (c : ℕ) (s' : Procs) : Type 0 where
  pub tree : IsTree s'
  pub listed : (p : ℕ) → elem p s'.proc_list ≡ (negb (p == c) && elem p s.proc_list)
  pub siblings :
      (p : ℕ)
      → elem p (s'.proc (me s)).p_children ≡ (negb (p == c) && elem p (s.proc (me s)).p_children)
  pub parents : (p : ℕ) → (p == c) ≡ false → (s'.proc p).p_pproc ≡ (s.proc p).p_pproc
  pub others : (p : ℕ) → (p == me s) ≡ false → (s'.proc p).p_children ≡ (s.proc p).p_children
  pub same_sched : s'.sched ≡ s.sched

same : (n : ℕ) → (n == n) ≡ true
same n = ground arith

-- A dead child of the current process is disposed of.
pub dispose_zombie_lem :
    (s : Procs) (c : ℕ)
    → IsTree s
    → elem c (s.proc (me s)).p_children ≡ true
    → is_dead (s.proc c).p_state ≡ true
    → (s' : Procs) × (dispose_zombie c s ≡ ok s') × Gone s c s'
dispose_zombie_lem s c v i d = elim (Option-cases (head (s.proc c).p_threads)) [
  | inl e ↦ ground (arith, v.zombie c (v.child (me s) c i).1 d, ap (thread_exited s) e)
  | inr (t, e) ↦ (
    disposed t c s,
    dispose-run c t s e (sym (ap (thread_exited s) e) ∙ v.zombie c (v.child (me s) c i).1 d),
    record {
      tree = disposed-IsTree s v t c i;
      listed = λ p. (elem-unlink p c s.proc_list v.once).0;
      siblings = λ p.
          ap (elem p) (disposed-children s v t c i (me s) ∙ if_true _ _ _ (same (me s)))
          ∙ (elem-unlink p c (s.proc (me s)).p_children (v.children_once (me s))).0;
      parents = disposed-parent s v t c i;
      others = λ p ne. disposed-children s v t c i p ∙ if_false _ _ _ ne;
      same_sched = refl;
    },
  )
]
