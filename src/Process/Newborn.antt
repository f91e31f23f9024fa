-- ===== src/Process/Newborn.antt =====
-- `proc_create`: the tree of processes after it.
use csci_402_operating_syste.Prelude.{
  ℕ, ◌≡◌, ◌≢◌, sym, ap, ◌∙◌, inl, inr, true, false, Option, none, some, List, [], ◌∷◌, ◌++◌, ◌==◌,
  arith, if◌then◌else◌, Bool-cases, ==→eq, if_true, if_false, map, subst,
}
use csci_402_operating_syste.Sched.{set_queue, sched_queue_init}
use csci_402_operating_syste.Sched.Queues.{elem, distinct, elem-append, distinct-snoc}
use csci_402_operating_syste.Process.{taken}
use csci_402_operating_syste.Process.Tree.{running, Proc, Procs, me, vref, set_proc, is_dead}
use csci_402_operating_syste.Process.Wait.{head, pids, takes_cwd, new_proc, add_child}
use csci_402_operating_syste.Process.Reap.{IsTree, thread_exited}

-- An id that is not taken is no process's of the list.
not_taken :
    (proc : ℕ → Proc) (pid p : ℕ) (ps : List ℕ)
    → taken pid (map (λ q. (proc q).p_pid) ps) ≡ false
    → elem p ps ≡ true
    → (proc p).p_pid ≢ pid
not_taken proc pid p [] e i q = cc
not_taken proc pid p (x ∷ ps) e i q = elim (Bool-cases (x == p)) [
  | inl t ↦ ground (arith, e, q, ap (λ z. (proc z).p_pid) (==→eq x p t))
  | inr f ↦ not_taken proc pid p ps (ground (arith, e)) (ground (arith, i, f)) q
]

-- The state that `proc_create` leaves, for a process other than idle.
abbrev pub created : (pid next fresh waitq nfiles root : ℕ) → Procs → Procs
created pid next fresh waitq nfiles root s =
    let s1 = set_proc fresh (new_proc pid fresh waitq nfiles root s) s in
    let s2 = record s1 { sched = set_queue s.sched waitq sched_queue_init; next_pid = next } in
    let s3 = record s2 {
      calls = if takes_cwd pid s then vref (s.proc (me s)).p_cwd ∷ s.calls else s.calls;
    } in
    let s4 = record s3 { initproc = if pid == 1 then some fresh else s.initproc } in
    add_child (me s) fresh (record s4 { proc_list = s.proc_list ++ fresh ∷ [] })

abbrev with_child : ℕ → Proc → Proc
with_child c p = record p { p_children = p.p_children ++ c ∷ [] }

module _ (pid next fresh waitq nfiles root : ℕ) (s : Procs) (v : IsTree s)
    (there : elem (me s) s.proc_list ≡ true) (new : elem fresh s.proc_list ≡ false) where
  pub distinct_names : (fresh == me s) ≡ false
  distinct_names = elim (Bool-cases (fresh == me s)) [
    | inl e ↦ ground (arith, new, there, ap (λ z. elem z s.proc_list) (==→eq fresh (me s) e))
    | inr n ↦ n
  ]

  pub created-proc :
      (p : ℕ)
      → (created pid next fresh waitq nfiles root s).proc p ≡ (
          if p == me s
          then record (s.proc (me s)) { p_children = (s.proc (me s)).p_children ++ fresh ∷ [] }
          else if p == fresh
          then new_proc pid fresh waitq nfiles root s
          else s.proc p)
  created-proc p = elim (Bool-cases (p == me s)) [
    | inl e ↦
        let same : (me s == fresh) ≡ false = ground (arith, distinct_names) in
        if_true _ _ _ e ∙ ap (with_child fresh) (if_false _ _ _ same) ∙ sym (if_true _ _ _ e)
    | inr n ↦ if_false _ _ _ n ∙ sym (if_false _ _ _ n)
  ]

  abbrev after : ℕ → Proc
  after = (created pid next fresh waitq nfiles root s).proc

  created-children :
      (p : ℕ)
      → (after p).p_children ≡ (
          if p == me s
          then (s.proc (me s)).p_children ++ fresh ∷ []
          else if p == fresh
          then []
          else (s.proc p).p_children)
  created-children p = ap (λ z. z.p_children) (created-proc p) ∙ ground arith

  created-pproc :
      (p : ℕ)
      → (pid == 0) ≡ false
      → (after p).p_pproc ≡ (if p == fresh then some (me s) else (s.proc p).p_pproc)
  created-pproc p z = ap (λ z. z.p_pproc) (created-proc p) ∙ ground (arith, distinct_names)

  created-pid : (p : ℕ) → (after p).p_pid ≡ (if p == fresh then pid else (s.proc p).p_pid)
  created-pid p = ap (λ z. z.p_pid) (created-proc p) ∙ ground (arith, distinct_names)

  created-threads :
      (p : ℕ) → (after p).p_threads ≡ (if p == fresh then [] else (s.proc p).p_threads)
  created-threads p = ap (λ z. z.p_threads) (created-proc p) ∙ ground (arith, distinct_names)

  created-state : (p : ℕ) → (after p).p_state ≡ (if p == fresh then running else (s.proc p).p_state)
  created-state p = ap (λ z. z.p_state) (created-proc p) ∙ ground (arith, distinct_names)

  -- What is in the list.
  created-listed :
      (p : ℕ)
      → elem p (s.proc_list ++ fresh ∷ []) ≡ true
      → (p == fresh) ≡ false
      → elem p s.proc_list ≡ true
  created-listed p i n = ground (arith, i, n, elem-append p s.proc_list (fresh ∷ []))

  grows : (p : ℕ) → elem p s.proc_list ≡ true → elem p (s.proc_list ++ fresh ∷ []) ≡ true
  grows p i = ground (arith, i, elem-append p s.proc_list (fresh ∷ []))

  no_child : (p : ℕ) → elem fresh (s.proc p).p_children ≡ false
  no_child p = elim (Bool-cases (elem fresh (s.proc p).p_children)) [
    | inl i ↦ ground (arith, (v.child p fresh i).1, new)
    | inr n ↦ n
  ]

  not_fresh : (p c : ℕ) → elem c (s.proc p).p_children ≡ true → (c == fresh) ≡ false
  not_fresh p c i = elim (Bool-cases (c == fresh)) [
    | inl e ↦
        ground (arith, no_child p, i, ap (λ z. elem z (s.proc p).p_children) (==→eq c fresh e))
    | inr n ↦ n
  ]

  module _ (z : (pid == 0) ≡ false) (free : taken pid (pids s) ≡ false) where
    kept :
        (p c : ℕ)
        → elem c (s.proc p).p_children ≡ true
        → ((after c).p_pproc ≡ some p) × (elem c (s.proc_list ++ fresh ∷ []) ≡ true)
    kept p c i =
        let k = v.child p c i in
        (created-pproc c z ∙ if_false _ _ _ (not_fresh p c i) ∙ k.0, grows c k.1)

    created-child :
        (p c : ℕ)
        → elem c (after p).p_children ≡ true
        → ((after c).p_pproc ≡ some p) × (elem c (s.proc_list ++ fresh ∷ []) ≡ true)
    created-child p c i =
        let j = subst (λ l. elem c l ≡ true) (created-children p) i in
        elim (Bool-cases (p == me s)) [
          | inr n ↦ elim (Bool-cases (p == fresh)) [
            | inl f ↦ ground (arith, j)
            | inr f ↦ kept p c (ground (arith, j))
          ]
          | inl e ↦ elim (Bool-cases (c == fresh)) [
            | inl f ↦ (
              created-pproc c z ∙ if_true _ _ _ f ∙ ap some (sym (==→eq p (me s) e)),
              ground (arith, f, elem-append c s.proc_list (fresh ∷ [])),
            )
            | inr f ↦ kept p c (
                subst (λ q. elem c (s.proc q).p_children ≡ true) (sym (==→eq p (me s) e))
                  (ground (arith, j, f, elem-append c (s.proc (me s)).p_children (fresh ∷ []))))
          ]
        ]

    created-ids :
        (p q : ℕ)
        → elem p (s.proc_list ++ fresh ∷ []) ≡ true
        → elem q (s.proc_list ++ fresh ∷ []) ≡ true
        → (after p).p_pid ≡ (after q).p_pid
        → p ≡ q
    created-ids p q i j e =
        let same = sym (created-pid p) ∙ e ∙ created-pid q in
        elim (Bool-cases (p == fresh)) [
          | inl f ↦ elim (Bool-cases (q == fresh)) [
            | inl g ↦ ==→eq p fresh f ∙ sym (==→eq q fresh g)
            | inr g ↦ absurd (
                not_taken s.proc pid q s.proc_list free (created-listed q j g)
                  (sym (sym (if_true _ _ _ f) ∙ same ∙ if_false _ _ _ g)))
          ]
          | inr f ↦ elim (Bool-cases (q == fresh)) [
            | inl g ↦ absurd (
                not_taken s.proc pid p s.proc_list free (created-listed p i f)
                  (sym (if_false _ _ _ f) ∙ same ∙ if_true _ _ _ g))
            | inr g ↦
                v.ids p q (created-listed p i f) (created-listed q j g)
                  (sym (if_false _ _ _ f) ∙ same ∙ if_false _ _ _ g)
          ]
        ]

    still :
        (h : Option ℕ)
        → thread_exited s h ≡ true
        → thread_exited (created pid next fresh waitq nfiles root s) h ≡ true
    still none e = ground (arith, e)
    still (some u) e = e

    created-zombie :
        (p : ℕ)
        → elem p (s.proc_list ++ fresh ∷ []) ≡ true
        → is_dead (after p).p_state ≡ true
        → thread_exited s (head (after p).p_threads) ≡ true
    created-zombie p i d = elim (Bool-cases (p == fresh)) [
      | inl f ↦ ground (arith, d, ap is_dead (created-state p ∙ if_true _ _ _ f))
      | inr f ↦
          ap (λ l. thread_exited s (head l)) (created-threads p ∙ if_false _ _ _ f)
          ∙ v.zombie p (created-listed p i f)
              (sym (ap is_dead (created-state p ∙ if_false _ _ _ f)) ∙ d)
    ]

    pub created-IsTree : IsTree (created pid next fresh waitq nfiles root s)
    created-IsTree = record {
      once = distinct-snoc fresh s.proc_list ∙ ground (arith, v.once, new);
      children_once = λ p.
          ap distinct (created-children p)
          ∙ ground (
            arith,
            v.children_once p,
            v.children_once (me s),
            no_child (me s),
            distinct-snoc fresh (s.proc (me s)).p_children,
          );
      child = created-child;
      ids = created-ids;
      zombie = λ p i d. still _ (created-zombie p i d);
    }
