-- ===== src/Process/Died.antt =====
-- `proc_cleanup`: the tree of processes after it.
use csci_402_operating_syste.Prelude.{
  ℕ, ◌≡◌, ◌≢◌, refl, sym, ap, ◌∙◌, inl, inr, true, false, Option, none, some, List, [], ◌∷◌, ◌++◌,
  ◌==◌, arith, if◌then◌else◌, Bool-cases, ==→eq, subst, if_true, if_false,
}
use csci_402_operating_syste.Sched.{Sched, kt_runq}
use csci_402_operating_syste.Sched.Queues.{elem, distinct, elem-append}
use csci_402_operating_syste.Sched.Invariant.{IsSched, runnable, dequeued}
use csci_402_operating_syste.Process.Tree.{
  dead, Procs, Call, fput, vput, vmmap_destroy, me, log, set_proc, is_dead, is_exited,
}
use csci_402_operating_syste.Process.Exit.{put_files}
use csci_402_operating_syste.Process.Wait.{head}
use csci_402_operating_syste.Process.Reap.{IsTree, thread_exited}
use csci_402_operating_syste.Process.Reparent.{Moved}

-- The calls for the files that are open.
abbrev pub puts : List (Option ℕ) → List Call → List Call
puts [] cs = cs
puts (none ∷ fs) cs = puts fs cs
puts (some f ∷ fs) cs = puts fs (fput f ∷ cs)

pub put_files-calls :
    (fs : List (Option ℕ)) (s : Procs) → put_files fs s ≡ record s { calls = puts fs s.calls }
unfolding put_files
put_files-calls [] s = refl
put_files-calls (none ∷ fs) s = put_files-calls fs s
put_files-calls (some f ∷ fs) s = put_files-calls fs (log (fput f) s)

-- Files, directory and address space have been given back, and the parent has been woken.
abbrev pub closed : Sched → Procs → Procs
closed w s = record s {
  sched = w;
  calls = vmmap_destroy (me s) ∷ vput (s.proc (me s)).p_cwd ∷ puts (s.proc (me s)).p_files s.calls;
}

abbrev pub died : ℕ → Procs → Procs
died p s = set_proc p (record (s.proc p) { p_state = dead }) s

distinct-append :
    (xs ys : List ℕ)
    → distinct xs ≡ true
    → distinct ys ≡ true
    → ((c : ℕ) → elem c xs ≡ true → elem c ys ≡ false)
    → distinct (xs ++ ys) ≡ true
distinct-append [] ys dx dy apart = dy
distinct-append (x ∷ xs) ys dx dy apart =
    let tail = distinct-append xs ys (ground arith) dy (λ c i. apart c (ground arith)) in
    ground (arith, tail, elem-append x xs ys, apart x (ground arith))

-- A thread that has exited is not woken.
pub wakeup-exited :
    (q u t : ℕ) (xs : List ℕ) (w : Sched)
    → IsSched w
    → q ≢ kt_runq
    → (w.queues q).tq_list ≡ xs ++ t ∷ []
    → is_exited (w.threads u).kt_state ≡ true
    → is_exited ((runnable t (dequeued q t xs w)).threads u).kt_state ≡ true
unfolding runnable
wakeup-exited q u t xs w v ne l x = elim (Bool-cases (u == t)) [
  | inl e ↦ ground (arith, v.queued u q, v.placed u, ap (elem u) l, elem-append u xs (t ∷ []))
  | inr e ↦ ground arith
]

-- The process `me s` has ended in a tree in order: `t` is the state after the loop over its children.
module _ (s : Procs) (v : IsTree s) (init : ℕ) (w : Sched) (ne : (me s == init) ≡ false)
    (ended : thread_exited s (head (s.proc (me s)).p_threads) ≡ true)
    (keeps : (u : ℕ)
      → is_exited (s.sched.threads u).kt_state ≡ true
      → is_exited (w.threads u).kt_state ≡ true)
    (t : Procs) (m : Moved (me s) init (s.proc (me s)).p_children (closed w s) t) where
  pub died-children : (p : ℕ) → ((died (me s) t).proc p).p_children ≡ (t.proc p).p_children
  died-children p = ground arith

  pub died-pproc : (p : ℕ) → ((died (me s) t).proc p).p_pproc ≡ (t.proc p).p_pproc
  died-pproc p = ground arith

  died-pid : (p : ℕ) → ((died (me s) t).proc p).p_pid ≡ (s.proc p).p_pid
  died-pid p = ground (arith, ap (λ r. r.0) (m.same p))

  died-threads : (p : ℕ) → ((died (me s) t).proc p).p_threads ≡ (s.proc p).p_threads
  died-threads p = ground (arith, ap (λ r. r.1) (m.same p))

  pub died-state :
      (p : ℕ) → ((died (me s) t).proc p).p_state ≡ (if p == me s then dead else (s.proc p).p_state)
  died-state p = ground (arith, ap (λ r. r.3) (m.same p))

  -- Where the children are.
  pub moved-children :
      (p : ℕ)
      → (t.proc p).p_children ≡ (
          if p == me s
          then []
          else if p == init
          then (s.proc init).p_children ++ (s.proc (me s)).p_children
          else (s.proc p).p_children)
  moved-children p = elim (Bool-cases (p == me s)) [
    | inl e ↦ ap (λ z. (t.proc z).p_children) (==→eq p (me s) e) ∙ m.old ∙ sym (if_true _ _ _ e)
    | inr n ↦ elim (Bool-cases (p == init)) [
      | inl e ↦
          ap (λ z. (t.proc z).p_children) (==→eq p init e)
          ∙ m.new
          ∙ sym (if_false _ _ _ n ∙ if_true _ _ _ e)
      | inr f ↦ m.others p n f ∙ sym (if_false _ _ _ n ∙ if_false _ _ _ f)
    ]
  ]

  -- A child of one process is not a child of another.
  apart :
      (p q c : ℕ)
      → (p == q) ≡ false
      → elem c (s.proc p).p_children ≡ true
      → elem c (s.proc q).p_children ≡ false
  apart p q c n i = elim (Bool-cases (elem c (s.proc q).p_children)) [
    | inl j ↦ ground (arith, (v.child p c i).0, (v.child q c j).0)
    | inr j ↦ j
  ]

  not_me : (init == me s) ≡ false
  not_me = ground arith

  moved-once : (p : ℕ) → distinct (t.proc p).p_children ≡ true
  moved-once p =
      subst (λ l. distinct l ≡ true) (sym (moved-children p))
        (ground (
          arith,
          v.children_once p,
          distinct-append (s.proc init).p_children (s.proc (me s)).p_children (v.children_once init)
              (v.children_once (me s)) (λ c. apart init (me s) c not_me),
        ))

  moved-child :
      (p c : ℕ)
      → elem c (t.proc p).p_children ≡ true
      → ((t.proc c).p_pproc ≡ some p) × (elem c t.proc_list ≡ true)
  moved-child p c i =
      let j = subst (λ l. elem c l ≡ true) (moved-children p) i in
      elim (Bool-cases (p == me s)) [
        | inl e ↦ ground (arith, j)
        | inr n ↦ elim (Bool-cases (p == init)) [
          | inl e ↦ elim (Bool-cases (elem c (s.proc (me s)).p_children)) [
            | inl k ↦ (
              m.parents c ∙ if_true _ _ _ k ∙ ap some (sym (==→eq p init e)),
              ap (elem c) m.same_list ∙ (v.child (me s) c k).1,
            )
            | inr k ↦
                let o : elem c (s.proc init).p_children ≡ true =
                  ground
                    (arith, j, elem-append c (s.proc init).p_children (s.proc (me s)).p_children) in
                (
                  m.parents c
                      ∙ if_false _ _ _ k
                      ∙ (v.child init c o).0
                      ∙ ap some (sym (==→eq p init e)),
                  ap (elem c) m.same_list ∙ (v.child init c o).1,
                )
          ]
          | inr f ↦
              let o : elem c (s.proc p).p_children ≡ true = ground (arith, j) in
              (
                m.parents c ∙ if_false _ _ _ (apart p (me s) c n o) ∙ (v.child p c o).0,
                ap (elem c) m.same_list ∙ (v.child p c o).1,
              )
        ]
      ]

  still_exited : (h : Option ℕ) → thread_exited s h ≡ true → thread_exited (died (me s) t) h ≡ true
  still_exited none e = ground (arith, e)
  still_exited (some u) e = ap (λ x. is_exited (x.threads u).kt_state) m.same_sched ∙ keeps u e

  died-zombie :
      (p : ℕ)
      → elem p s.proc_list ≡ true
      → is_dead ((died (me s) t).proc p).p_state ≡ true
      → thread_exited s (head (s.proc p).p_threads) ≡ true
  died-zombie p i d = elim (Bool-cases (p == me s)) [
    | inl e ↦
        subst (λ z. thread_exited s (head (s.proc z).p_threads) ≡ true) (sym (==→eq p (me s) e))
          ended
    | inr n ↦ v.zombie p i (sym (ap is_dead (died-state p ∙ if_false _ _ _ n)) ∙ d)
  ]

  pub died-IsTree : IsTree (died (me s) t)
  died-IsTree = record {
    once = ap distinct m.same_list ∙ v.once;
    children_once = λ p. ap distinct (died-children p) ∙ moved-once p;
    child = λ p c i.
        let k = moved-child p c (sym (ap (elem c) (died-children p)) ∙ i) in
        (died-pproc c ∙ k.0, k.1);
    ids = λ p q i j e.
        v.ids p q (sym (ap (elem p) m.same_list) ∙ i) (sym (ap (elem q) m.same_list) ∙ j)
          (sym (died-pid p) ∙ e ∙ died-pid q);
    zombie = λ p i d.
        ap (λ l. thread_exited (died (me s) t) (head l)) (died-threads p)
        ∙ still_exited _ (died-zombie p (sym (ap (elem p) m.same_list) ∙ i) d);
  }
