-- ===== src/Process/Create.antt =====
-- `proc_create`.
use csci_402_operating_syste.Prelude.{
  ℕ, ◌+◌, ◌<◌, ◌≡◌, refl, ap, ◌∙◌, inl, inr, true, false, ◌||◌, some, List, [], ◌∷◌, ◌++◌, ◌==◌,
  arith, if◌then◌else◌, Bool-cases, ==→eq, if_true, if_false,
}
use csci_402_operating_syste.Prelude.Run.{ok, kassert-pass}
use csci_402_operating_syste.Sched.{negb, is_empty}
use csci_402_operating_syste.Sched.Queues.{elem}
use csci_402_operating_syste.Process.{taken, proc_getid}
use csci_402_operating_syste.Process.Ids.{proc_getid_lem}
use csci_402_operating_syste.Process.Tree.{Procs, me, vref}
use csci_402_operating_syste.Process.Wait.{
  pids, create_for, takes_cwd, new_proc, create_with, proc_create,
}
use csci_402_operating_syste.Process.Reap.{IsTree}
use csci_402_operating_syste.Process.Newborn.{created, created-proc, created-IsTree, distinct_names}

create-run :
    (max pid next fresh waitq nfiles root : ℕ) (s : Procs)
    → proc_getid max s.next_pid (pids s) ≡ some (some pid, next)
    → (pid == 0) ≡ false
    → (negb (pid == 1) || (s.proc (me s)).p_pid == 0) ≡ true
    → proc_create max fresh waitq nfiles root s
      ≡ ok (fresh, created pid next fresh waitq nfiles root s)
unfolding proc_create create_with
create-run max pid next fresh waitq nfiles root s e z o =
    ap (create_for fresh waitq nfiles root s) e
    ∙ kassert-pass (negb (pid == 0) || is_empty s.proc_list) _ (ground (arith, z))
    ∙ kassert-pass (negb (pid == 1) || (s.proc (me s)).p_pid == 0) _ o
    ∙ ap ok (ap (λ x. (fresh, x)) (if_false _ _ _ z))

-- The process `fresh` is a new, last child of the current process and the last of the list; other
-- processes are as they were.
pub record Created (pid fresh waitq nfiles root : ℕ) (s s' : Procs) : Type 0 where
  pub tree : IsTree s'
  pub is_new : s'.proc fresh ≡ new_proc pid fresh waitq nfiles root s
  pub free : taken pid (pids s) ≡ false
  pub listed : s'.proc_list ≡ s.proc_list ++ fresh ∷ []
  pub mine : (s'.proc (me s)).p_children ≡ (s.proc (me s)).p_children ++ fresh ∷ []
  pub others : (p : ℕ) → (p == me s) ≡ false → (p == fresh) ≡ false → s'.proc p ≡ s.proc p
  pub init : s'.initproc ≡ (if pid == 1 then some fresh else s.initproc)
  pub cwd : s'.calls ≡ (if takes_cwd pid s then vref (s.proc (me s)).p_cwd ∷ s.calls else s.calls)

-- An id that is not taken differs from one that is.
apart : (x pid : ℕ) (ps : List ℕ) → taken x ps ≡ true → taken pid ps ≡ false → (pid == x) ≡ false
apart x pid ps t f = elim (Bool-cases (pid == x)) [
  | inl e ↦ ground (arith, t, f, ap (λ z. taken z ps) (==→eq pid x e))
  | inr n ↦ n
]

self : (n : ℕ) → (n == n) ≡ true
self n = ground arith

-- While the idle process is there, an id below PROC_MAX_COUNT is free, and init is there or idle runs:
-- `proc_create`, called in a process of a tree in order, passes its assertions. The new process has an id
-- that was free, no children, threads or files, and is the last child of its creator and the last of
-- `_proc_list`. It takes its creator's directory, with one more reference, unless that is idle. It is init
-- exactly if its id is 1. The tree is in order, and every other process as it was.
pub proc_create_lem :
    (max fresh waitq nfiles root x : ℕ) (s : Procs)
    → IsTree s
    → elem (me s) s.proc_list ≡ true
    → elem fresh s.proc_list ≡ false
    → s.next_pid < max
    → x < max
    → taken x (pids s) ≡ false
    → taken 0 (pids s) ≡ true
    → (taken 1 (pids s) || (s.proc (me s)).p_pid == 0) ≡ true
    → (pid : ℕ) × (s' : Procs) × (proc_create max fresh waitq nfiles root s ≡ ok (fresh, s'))
      × Created pid fresh waitq nfiles root s s'
proc_create_lem max fresh waitq nfiles root x s v there new b xb xf idle one =
    elim (proc_getid_lem max s.next_pid (pids s) b) [
      | inr (e, all) ↦ ground (arith, all x xb, xf)
      | inl (pid, e, pb, free, first) ↦
          let next = if pid + 1 == max then 0 else pid + 1 in
          let z = apart 0 pid (pids s) idle free in
          let o : (negb (pid == 1) || (s.proc (me s)).p_pid == 0) ≡ true =
            ground (arith, one, apart 1 pid (pids s)) in
          let q = created-proc pid next fresh waitq nfiles root s v there new in
          let n = distinct_names pid next fresh waitq nfiles root s v there new in
          (
            pid,
            created pid next fresh waitq nfiles root s,
            create-run max pid next fresh waitq nfiles root s e z o,
            record {
              tree = created-IsTree pid next fresh waitq nfiles root s v there new z free;
              is_new = q fresh ∙ if_false _ _ _ n ∙ if_true _ _ _ (self fresh);
              free = free;
              listed = refl;
              mine = ap (λ y. y.p_children) (q (me s)) ∙ ground arith;
              others = λ p m f. q p ∙ if_false _ _ _ m ∙ if_false _ _ _ f;
              init = refl;
              cwd = refl;
            },
          )
    ]
