-- ===== src/Process/Cleanup.antt =====
-- `proc_cleanup`.
use csci_402_operating_syste.Prelude.{
  ℕ, ◌≡◌, ◌≢◌, refl, sym, ap, ◌∙◌, inl, inr, Bool, true, false, ◌&&◌, Option, none, some, List, [],
  ◌∷◌, ◌++◌, ◌==◌, arith, if◌then◌else◌, subst, if_false,
}
use csci_402_operating_syste.Prelude.Run.{Run, ok, ◌>>=◌, ◌>>◌, kassert}
use csci_402_operating_syste.Sched.{Sched, kt_runq, is_empty, sched_wakeup_on}
use csci_402_operating_syste.Sched.Queues.{elem}
use csci_402_operating_syste.Sched.Invariant.{IsSched, runnable, dequeued, sched_wakeup_on_lem}
use csci_402_operating_syste.Process.Tree.{Procs, vput, vmmap_destroy, me, log, is_dead, is_exited}
use csci_402_operating_syste.Process.Exit.{
  deref, put_files, reparent_one, reparent_loop, set_sched, is_positive, proc_cleanup,
}
use csci_402_operating_syste.Process.Wait.{head}
use csci_402_operating_syste.Process.Reap.{IsTree, thread_exited}
use csci_402_operating_syste.Process.Reparent.{reparent_loop-Moved}
use csci_402_operating_syste.Process.Died.{
  puts, closed, died, wakeup-exited, died-children, died-pproc, died-state, moved-children,
  died-IsTree, put_files-calls,
}

-- The process `me s` has ended and its children are those of `init`.
pub record Ended (s : Procs) (init parent : ℕ) (s' : Procs) : Type 0 where
  pub tree : IsTree s'
  pub scheduled : IsSched s'.sched
  pub woken : (x : Option ℕ) × (sched_wakeup_on (s.proc parent).p_wait s.sched ≡ ok (x, s'.sched))
  pub ready :
      (is_empty (s.sched.queues kt_runq).tq_list
          && is_empty (s.sched.queues (s.proc parent).p_wait).tq_list)
        ≡ false
      → is_empty (s'.sched.queues kt_runq).tq_list ≡ false
  pub exits :
      (u : ℕ)
      → is_exited (s.sched.threads u).kt_state ≡ true
      → is_exited (s'.sched.threads u).kt_state ≡ true
  pub is_zombie : is_dead (s'.proc (me s)).p_state ≡ true
  pub others_state : (p : ℕ) → (p == me s) ≡ false → (s'.proc p).p_state ≡ (s.proc p).p_state
  pub status : (p : ℕ) → (s'.proc p).p_status ≡ (s.proc p).p_status
  pub children :
      (p : ℕ)
      → (s'.proc p).p_children ≡ (
          if p == me s
          then []
          else if p == init
          then (s.proc init).p_children ++ (s.proc (me s)).p_children
          else (s.proc p).p_children)
  pub parents :
      (p : ℕ)
      → (s'.proc p).p_pproc
        ≡ (if elem p (s.proc (me s)).p_children then some init else (s.proc p).p_pproc)
  pub listed : s'.proc_list ≡ s.proc_list
  pub given_back :
      s'.calls
      ≡ vmmap_destroy (me s) ∷ vput (s.proc (me s)).p_cwd ∷ puts (s.proc (me s)).p_files s.calls

-- The state that `proc_cleanup` leaves.
abbrev cleaned : (init : ℕ) → Sched → Procs → Procs
cleaned init w s = died (me s) (reparent_loop (me s) init (s.proc (me s)).p_children (closed w s))

-- `proc_cleanup` from the call of vput on.
abbrev after_files : (init parent : ℕ) → Procs → Procs → Run Procs
after_files init parent s z = do
  let s2 = log (vmmap_destroy (me s)) (log (vput (s.proc (me s)).p_cwd) z)
  woken ← sched_wakeup_on (s2.proc parent).p_wait s2.sched
  let s3 = set_sched woken.1 s2
  let s4 = reparent_loop (me s) init (s3.proc (me s)).p_children s3
  ok (died (me s) s4)

-- `proc_cleanup` over what its assertions test.
abbrev cleanup_from : Procs → Option ℕ → Bool → Option ℕ → Run Procs
cleanup_from s i b q = do
  init ← deref i
  kassert b
  parent ← deref q
  after_files init parent s (put_files (s.proc (me s)).p_files s)

cleanup-run :
    (status init parent : ℕ) (x : Option ℕ) (w : Sched) (s : Procs)
    → s.initproc ≡ some init
    → is_positive (s.proc (me s)).p_pid ≡ true
    → (s.proc (me s)).p_pproc ≡ some parent
    → sched_wakeup_on (s.proc parent).p_wait s.sched ≡ ok (x, w)
    → proc_cleanup status s ≡ ok (cleaned init w s)
unfolding proc_cleanup
cleanup-run status init parent x w s i p q e =
    ap (λ z. cleanup_from s z (is_positive (s.proc (me s)).p_pid) (s.proc (me s)).p_pproc) i
    ∙ ap (λ z. cleanup_from s (some init) z (s.proc (me s)).p_pproc) p
    ∙ ap (cleanup_from s (some init) true) q
    ∙ ap (after_files init parent s) (put_files-calls (s.proc (me s)).p_files s)
    ∙ ap
        (λ z. z >>= λ woken.
          ok
            (died (me s) (reparent_loop (me s) init (s.proc (me s)).p_children (closed woken.1 s))))
        e

cleaned-calls :
    (parent init : ℕ) (cs : List ℕ) (s : Procs) → (reparent_loop parent init cs s).calls ≡ s.calls
unfolding reparent_loop reparent_one
cleaned-calls parent init [] s = refl
cleaned-calls parent init (c ∷ cs) s = cleaned-calls parent init cs _

cleaned-Ended :
    (init parent : ℕ) (x : Option ℕ) (w : Sched) (s : Procs)
    → IsTree s
    → (me s == init) ≡ false
    → thread_exited s (head (s.proc (me s)).p_threads) ≡ true
    → sched_wakeup_on (s.proc parent).p_wait s.sched ≡ ok (x, w)
    → IsSched w
    → ((u : ℕ)
        → is_exited (s.sched.threads u).kt_state ≡ true
        → is_exited (w.threads u).kt_state ≡ true)
    → ((is_empty (s.sched.queues kt_runq).tq_list
            && is_empty (s.sched.queues (s.proc parent).p_wait).tq_list)
          ≡ false
        → is_empty (w.queues kt_runq).tq_list ≡ false)
    → Ended s init parent (cleaned init w s)
cleaned-Ended init parent x w s v ne ended e vw keeps ready =
    let cs = (s.proc (me s)).p_children in
    let t = reparent_loop (me s) init cs (closed w s) in
    let m = reparent_loop-Moved (me s) init ne cs (closed w s) refl in
    record {
      tree = died-IsTree s v init w ne ended keeps t m;
      scheduled = subst IsSched (sym m.same_sched) vw;
      woken = (x, e ∙ ap (λ z. ok (x, z)) (sym m.same_sched));
      ready = λ b. ap (λ z. is_empty (z.queues kt_runq).tq_list) m.same_sched ∙ ready b;
      exits = λ u z. ap (λ x. is_exited (x.threads u).kt_state) m.same_sched ∙ keeps u z;
      is_zombie = ap is_dead (died-state s v init w ne ended keeps t m (me s)) ∙ ground arith;
      others_state = λ p n. died-state s v init w ne ended keeps t m p ∙ if_false _ _ _ n;
      status = λ p. ground (arith, ap (λ r. r.2) (m.same p));
      children = λ p.
          died-children s v init w ne ended keeps t m p
          ∙ moved-children s v init w ne ended keeps t m p;
      parents = λ p. died-pproc s v init w ne ended keeps t m p ∙ m.parents p;
      listed = m.same_list;
      given_back = cleaned-calls (me s) init cs (closed w s);
    }

runnable-ready : (t : ℕ) (w : Sched) → is_empty ((runnable t w).queues kt_runq).tq_list ≡ false
unfolding runnable
runnable-ready t w = ground arith

-- For a process other than init and idle, with a parent, whose first thread has exited, in a tree of
-- processes and a scheduler that are in order: `proc_cleanup` passes its assertions. It gives back every
-- open file, the current directory and the address space, wakes the longest waiter on the parent's queue,
-- and leaves the process dead, with its children, in their order, at the end of those of init, whose
-- children they are from now on. All else in the tree is as before, the exit status of the process
-- included, whatever `status` is; tree and scheduler are in order again.
pub proc_cleanup_lem :
    (status init parent : ℕ) (s : Procs)
    → IsTree s
    → IsSched s.sched
    → s.initproc ≡ some init
    → (me s == init) ≡ false
    → is_positive (s.proc (me s)).p_pid ≡ true
    → (s.proc (me s)).p_pproc ≡ some parent
    → (s.proc parent).p_wait ≢ kt_runq
    → thread_exited s (head (s.proc (me s)).p_threads) ≡ true
    → (s' : Procs) × (proc_cleanup status s ≡ ok s') × Ended s init parent s'
proc_cleanup_lem status init parent s v vs i ne p q nr ended =
    elim (sched_wakeup_on_lem (s.proc parent).p_wait s.sched vs nr) [
      | inl (l, e) ↦ (
        cleaned init s.sched s,
        cleanup-run status init parent none s.sched s i p q e,
        cleaned-Ended init parent none s.sched s v ne ended e vs (λ u z. z)
            (λ b. ground (arith, b, ap is_empty l)),
      )
      | inr (t, xs, l, e, vw) ↦
          let w = runnable t (dequeued (s.proc parent).p_wait t xs s.sched) in
          (
            cleaned init w s,
            cleanup-run status init parent (some t) w s i p q e,
            cleaned-Ended init parent (some t) w s v ne ended e vw
                (λ u z. wakeup-exited (s.proc parent).p_wait u t xs s.sched vs nr l z)
                (λ b. runnable-ready t _),
          )
    ]
