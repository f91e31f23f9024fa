-- ===== src/Process/Leave.antt =====
-- vm-submit/kernel/proc/kthread.c: `kthread_exit`.
use csci_402_operating_syste.Prelude.{
  ℕ, ◌≡◌, ◌≢◌, ap, ◌∙◌, true, false, ◌&&◌, Option, none, some, List, [], ◌∷◌, ◌++◌, ◌==◌, arith,
  Bool-cases, ==→eq, inl, inr,
}
use csci_402_operating_syste.Prelude.Run.{Run, ok, ◌>>=◌, kassert-pass}
use csci_402_operating_syste.Sched.{
  Sched, exited, Interrupt, kt_runq, is_empty, is_null, set_thread, sched_switch,
}
use csci_402_operating_syste.Sched.Invariant.{IsSched, state-IsSched}
use csci_402_operating_syste.Sched.Switch.{IsRunning, switched, switch-ready}
use csci_402_operating_syste.Process.Tree.{Procs, me, is_exited}
use csci_402_operating_syste.Process.Exit.{
  set_retval, set_sched, resume, is_positive, proc_cleanup, proc_thread_exited, kthread_exit,
}
use csci_402_operating_syste.Process.Wait.{head}
use csci_402_operating_syste.Process.Reap.{IsTree, thread_exited}
use csci_402_operating_syste.Process.Cleanup.{Ended, proc_cleanup_lem}

-- The current thread has its value and the state KT_EXITED.
abbrev pub leaving : (retval : ℕ) → Procs → Procs
leaving retval s =
    let w = s.sched in
    let t = record (w.threads w.curthr) { kt_state = exited } in
    set_sched (set_thread w w.curthr t) (set_retval w.curthr retval s)

leaving-IsTree : (retval : ℕ) (s : Procs) → IsTree s → IsTree (leaving retval s)
leaving-IsTree retval s v = record {
  once = v.once;
  children_once = v.children_once;
  child = v.child;
  ids = v.ids;
  zombie = λ p i d. still (head (s.proc p).p_threads) (v.zombie p i d);
}
  where
    still : (h : Option ℕ) → thread_exited s h ≡ true → thread_exited (leaving retval s) h ≡ true
    still none e = ground arith
    still (some t) e = ground arith

switched-IsTree :
    (t : ℕ) (xs : List ℕ) (s : Procs) → IsTree s → IsTree (set_sched (switched t xs s.sched) s)
switched-IsTree t xs s v = record {
  once = v.once;
  children_once = v.children_once;
  child = v.child;
  ids = v.ids;
  zombie = λ p i d. still (head (s.proc p).p_threads) (v.zombie p i d);
}
  where
    still :
        (h : Option ℕ)
        → thread_exited s h ≡ true
        → thread_exited (set_sched (switched t xs s.sched) s) h ≡ true
    still none e = ground arith
    still (some u) e = ground arith

-- The state in which the thread's process has ended, and the thread `next` that runs on.
pub record Left (retval init parent : ℕ) (s : Procs) (r : Run (Option Procs)) : Type 0 where
  pub gone : Procs
  pub next : ℕ
  pub before : List ℕ
  pub result : r ≡ ok (some (set_sched (switched next before gone.sched) gone))
  pub queue : (gone.sched.queues kt_runq).tq_list ≡ before ++ next ∷ []
  pub ended : Ended (leaving retval s) init parent gone
  pub tree : IsTree (set_sched (switched next before gone.sched) gone)
  pub scheduled : IsSched (switched next before gone.sched)
  pub running : IsRunning (switched next before gone.sched)
  pub thread : is_exited (gone.sched.threads s.sched.curthr).kt_state ≡ true
  pub other : (next == s.sched.curthr) ≡ false

exit-run :
    (irqs : List Interrupt) (retval : ℕ) (s g : Procs) (w : Sched)
    → IsRunning s.sched
    → proc_cleanup retval (leaving retval s) ≡ ok g
    → sched_switch irqs g.sched ≡ ok (some w)
    → kthread_exit irqs retval s ≡ ok (some (set_sched w g))
unfolding kthread_exit proc_thread_exited
exit-run irqs retval s g w r e f =
    kassert-pass _ _ (ap is_null r.off_queue)
    ∙ kassert-pass ((s.sched.threads s.sched.curthr).kt_proc == me s) _ (ground (arith, r.process))
    ∙ ap (λ z. z >>= λ s'. sched_switch irqs s'.sched >>= λ next. ok (resume s' next)) e
    ∙ ap (λ z. z >>= λ next. ok (resume g next)) f

-- For a running thread that is the first of a process other than init and idle, with a parent, in a tree
-- and a scheduler that are in order, and a thread that is ready or waits on the parent's queue:
-- `kthread_exit` passes its assertions and waits for no interrupt. The thread has the state KT_EXITED,
-- its process has ended as `proc_cleanup` ends it, so that the parent can wait for it, and the thread that
-- was on the run queue longest, another one, runs in a tree and a scheduler that are in order.
pub kthread_exit_lem :
    (irqs : List Interrupt) (retval init parent : ℕ) (s : Procs)
    → IsTree s
    → IsSched s.sched
    → IsRunning s.sched
    → s.initproc ≡ some init
    → (me s == init) ≡ false
    → is_positive (s.proc (me s)).p_pid ≡ true
    → (s.proc (me s)).p_pproc ≡ some parent
    → (s.proc parent).p_wait ≢ kt_runq
    → head (s.proc (me s)).p_threads ≡ some s.sched.curthr
    → (is_empty (s.sched.queues kt_runq).tq_list
        && is_empty (s.sched.queues (s.proc parent).p_wait).tq_list)
      ≡ false
    → Left retval init parent s (kthread_exit irqs retval s)
kthread_exit_lem irqs retval init parent s v vs r i ne p q nr h b =
    let l = leaving retval s in
    let exit : thread_exited l (some s.sched.curthr) ≡ true = ground arith in
    let (g, e, k) =
      proc_cleanup_lem retval init parent l (leaving-IsTree retval s v)
        (state-IsSched s.sched vs s.sched.curthr exited r.off_queue) i ne p q nr
        (ap (thread_exited l) h ∙ exit) in
    let busy = k.ready b in
    let (t, xs, split, f, vw, rw') =
      switch-ready irqs g.sched k.scheduled (λ o. ground (arith, busy, ap is_empty o)) in
    let x : is_exited (g.sched.threads s.sched.curthr).kt_state ≡ true =
      k.exits s.sched.curthr exit in
    record {
      gone = g;
      next = t;
      before = xs;
      result = exit-run irqs retval s g _ r e f;
      queue = split;
      ended = k;
      tree = switched-IsTree t xs g k.tree;
      scheduled = vw;
      running = rw';
      thread = x;
      other = elim (Bool-cases (t == s.sched.curthr)) [
        | inl y ↦ ground (
          arith,
          rw'.state,
          x,
          ap (λ z. is_exited (g.sched.threads z).kt_state) (==→eq t s.sched.curthr y),
        )
        | inr n ↦ n
      ];
    }
