-- ===== src/Process/Tree.antt =====
-- vm-submit/kernel/proc/proc.c: processes, their parents and children, and the state of the functions
-- that create, end and wait for them.
use csci_402_operating_syste.Prelude.{ℕ, Bool, true, false, Option, List, ◌∷◌}
use csci_402_operating_syste.Sched.{Sched, update, State}

-- `proc_state_t`
pub data ProcState : Type 0 where
  running dead : ProcState

-- `proc_t`. Processes, threads, wait queues, files and vnodes are named by numbers.
pub record Proc : Type 0 where
  pub p_pid : ℕ
  pub p_pproc : Option ℕ
  pub p_children : List ℕ
  pub p_threads : List ℕ
  pub p_status : ℕ
  pub p_state : ProcState
  pub p_wait : ℕ
  pub p_files : List (Option ℕ)
  pub p_cwd : ℕ

-- Calls to other parts, with the file, vnode, process or thread that they are about.
pub data Call : Type 0 where
  fput vput vref vmmap_destroy kthread_destroy pt_destroy_pagedir slab_obj_free : ℕ → Call

-- `_proc_list`, `proc_initproc` and `next_pid`, the scheduler with `curproc` and `curthr`, `kt_retval` of
-- the threads, and the calls made, the last one first.
pub record Procs : Type 0 where
  pub proc : ℕ → Proc
  pub proc_list : List ℕ
  pub initproc : Option ℕ
  pub next_pid : ℕ
  pub sched : Sched
  pub kt_retval : ℕ → ℕ
  pub calls : List Call

abbrev pub me : Procs → ℕ
me s = s.sched.curproc

abbrev pub log : Call → Procs → Procs
log c s = record s { calls = c ∷ s.calls }

abbrev pub set_proc : ℕ → Proc → Procs → Procs
set_proc p v s = record s { proc = update s.proc p v }

abbrev pub set_parent : ℕ → Option ℕ → Procs → Procs
set_parent p q s = set_proc p (record (s.proc p) { p_pproc = q }) s

abbrev pub set_children : ℕ → List ℕ → Procs → Procs
set_children p cs s = set_proc p (record (s.proc p) { p_children = cs }) s

abbrev pub is_dead : ProcState → Bool
is_dead running = false
is_dead dead = true

abbrev pub is_exited : State → Bool
is_exited State.no_state = false
is_exited State.run = false
is_exited State.sleep = false
is_exited State.sleep_cancellable = false
is_exited State.exited = true
