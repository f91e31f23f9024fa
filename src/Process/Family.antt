-- ===== src/Process/Family.antt =====
-- Idle, init, a process that runs and its child: tests, and the theorems at them.
use csci_402_operating_syste.Prelude.{
  ℕ, ◌+◌, ◌≡◌, refl, Bool, true, false, none, some, [], ◌∷◌, ◌==◌, arith, if◌then◌else◌,
}
use csci_402_operating_syste.Prelude.Run.{ok}
use csci_402_operating_syste.Sched.{Sched, Thread, State, run, sleep, exited}
use csci_402_operating_syste.Sched.Invariant.{IsSched}
use csci_402_operating_syste.Sched.Switch.{IsRunning}
use csci_402_operating_syste.Process.Tree.{running, dead, Procs}
use csci_402_operating_syste.Process.Exit.{kthread_exit}
use csci_402_operating_syste.Process.Wait.{
  only, echild, do_waitpid, wait_child, last_with, proc_create,
}
use csci_402_operating_syste.Process.Reap.{IsTree}
use csci_402_operating_syste.Process.Leave.{Left, kthread_exit_lem}
use csci_402_operating_syste.Process.Create.{Created, proc_create_lem}

abbrev thread : State → ℕ → Thread
thread st p = record { kt_state = st; kt_cancelled = false; kt_wchan = none; kt_proc = p }

-- The thread of idle is ready, that of init waits for its child, that of the process 2 runs, and that of
-- its child may have exited.
abbrev threads_at : Bool → Sched
threads_at gone = record {
  threads = λ t.
      if t == 10
      then record (thread run 0) { kt_wchan = some 0 }
      else if t == 11
      then record (thread sleep 1) { kt_wchan = some 21 }
      else if t == 12
      then thread run 2
      else thread (if gone then exited else run) 3;
  queues = λ q.
      if q == 0
      then record { tq_list = 10 ∷ []; tq_size = 1 }
      else if q == 21
      then record { tq_list = 11 ∷ []; tq_size = 1 }
      else record { tq_list = []; tq_size = 0 };
  curthr = 12;
  curproc = 2;
}

abbrev family : Bool → Procs
family gone = record {
  proc = λ p. record {
    p_pid = p;
    p_pproc = some (if p == 3 then 2 else if p == 2 then 1 else 0);
    p_children =
        if p == 0 then 1 ∷ [] else if p == 1 then 2 ∷ [] else if p == 2 then 3 ∷ [] else [];
    p_threads = (p + 10) ∷ [];
    p_status = 0;
    p_state = if gone then (if p == 3 then dead else running) else running;
    p_wait = p + 20;
    p_files = some 7 ∷ none ∷ [];
    p_cwd = 6;
  };
  proc_list = 0 ∷ 1 ∷ 2 ∷ 3 ∷ [];
  initproc = some 1;
  next_pid = 2;
  sched = threads_at gone;
  kt_retval = λ t. 0;
  calls = [];
}

threads-IsSched : (gone : Bool) → IsSched (threads_at gone)
threads-IsSched gone = record {
  sized = λ q. ground arith;
  queued = λ t q. ground arith;
  once = λ q. ground arith;
  placed = λ t. ground arith;
}

family-IsRunning : (gone : Bool) → IsRunning (threads_at gone)
family-IsRunning gone = record { state = refl; off_queue = refl; process = refl }

family-IsTree : (gone : Bool) → IsTree (family gone)
family-IsTree gone = record {
  once = refl;
  children_once = λ p. ground arith;
  child = λ p c i. (ground (arith, i), ground (arith, i));
  ids = λ p q i j e. e;
  zombie = λ p i d. ground (arith, d);
}

no_such_child : do_waitpid (only 5) [] (family true) ≡ ok (echild (family true))
unfolding do_waitpid wait_child last_with
no_such_child = refl

kthread_exit_lem_example : Left 5 1 1 (family true) (kthread_exit [] 5 (family true))
kthread_exit_lem_example =
    kthread_exit_lem [] 5 1 1 (family true) (family-IsTree true) (threads-IsSched true)
      (family-IsRunning true) refl refl refl refl (λ e. omega arith) refl refl

proc_create_lem_example :
    (pid : ℕ) × (s' : Procs) × (proc_create 8 4 24 2 6 (family true) ≡ ok (4, s'))
    × Created pid 4 24 2 6 (family true) s'
proc_create_lem_example =
    proc_create_lem 8 4 24 2 6 4 (family true) (family-IsTree true) refl refl (omega arith)
      (omega arith) refl refl refl
