-- ===== src/Process/Wait.antt =====
-- vm-submit/kernel/proc/proc.c: `proc_create`, `disposeZombie` and `do_waitpid`.
use csci_402_operating_syste.Prelude.{
  ℕ, zero, suc, ◌^◌, ◌-◌, Bool, true, false, ◌&&◌, ◌||◌, Option, none, some, List, [], ◌∷◌, ◌++◌,
  ◌==◌, if◌then◌else◌, map,
}
use csci_402_operating_syste.Prelude.Run.{Run, ok, panic, ◌>>=◌, ◌>>◌, kassert}
use csci_402_operating_syste.Sched.{
  State, is_run, is_empty, set_queue, sched_queue_init, fall_asleep, unlink, negb,
}
use csci_402_operating_syste.Process.{proc_getid}
use csci_402_operating_syste.Process.Tree.{
  running, Proc, Procs, vref, kthread_destroy, pt_destroy_pagedir, slab_obj_free, me, log, set_proc,
  set_parent, set_children, is_dead, is_exited,
}
use csci_402_operating_syste.Process.Exit.{set_sched}

-- The ids of processes, in the order of `_proc_list`.
abbrev pub pids : Procs → List ℕ
pids s = map (λ p. (s.proc p).p_pid) s.proc_list

-- A `pid_t`: -1 if `_proc_getid` has found none.
abbrev pub pid_of : Option ℕ → ℕ
pid_of none = 2 ^ 32 - 1
pid_of (some pid) = pid

abbrev pub no_files : ℕ → List (Option ℕ)
no_files zero = []
no_files (suc n) = none ∷ no_files n

-- The directory of the new process, and whether it is one more reference to that of its creator.
abbrev pub takes_cwd : (pid : ℕ) → Procs → Bool
takes_cwd pid s = negb (pid == 0) && negb ((s.proc (me s)).p_pid == 0)

-- The record that `proc_create` fills in.
abbrev pub new_proc : (pid fresh waitq nfiles root : ℕ) → Procs → Proc
new_proc pid fresh waitq nfiles root s = record {
  p_pid = pid;
  p_pproc = some (if pid == 0 then fresh else me s);
  p_children = [];
  p_threads = [];
  p_status = 0;
  p_state = running;
  p_wait = waitq;
  p_files = no_files nfiles;
  p_cwd = if takes_cwd pid s then (s.proc (me s)).p_cwd else root;
}

-- `list_insert_tail` of the new process into the children of its creator.
abbrev pub add_child : (parent child : ℕ) → Procs → Procs
add_child parent child s = set_children parent ((s.proc parent).p_children ++ child ∷ []) s

-- `proc_create` with the id that `_proc_getid` has returned.
unfoldable pub create_with : (pid next fresh waitq nfiles root : ℕ) → Procs → Run (ℕ × Procs)
create_with pid next fresh waitq nfiles root s = do
  kassert (negb (pid == 0) || is_empty s.proc_list)
  kassert (negb (pid == 1) || (s.proc (me s)).p_pid == 0)
  let s1 = set_proc fresh (new_proc pid fresh waitq nfiles root s) s
  let s2 = record s1 { sched = set_queue s.sched waitq sched_queue_init; next_pid = next }
  let s3 = record s2 {
    calls = if takes_cwd pid s then vref (s.proc (me s)).p_cwd ∷ s.calls else s.calls;
  }
  let s4 = record s3 { initproc = if pid == 1 then some fresh else s.initproc }
  let s5 = record s4 { proc_list = s.proc_list ++ fresh ∷ [] }
  ok (fresh, if pid == 0 then s5 else add_child (me s) fresh s5)

abbrev pub create_for :
    (fresh waitq nfiles root : ℕ) → Procs → Option (Option ℕ × ℕ) → Run (ℕ × Procs)
create_for fresh waitq nfiles root s none = panic
create_for fresh waitq nfiles root s (some (id, next)) =
    create_with (pid_of id) next fresh waitq nfiles root s

-- `fresh` is what the slab allocator answers, and `waitq` the name of the queue in it. `max` is
-- PROC_MAX_COUNT, `root` the root directory. The name and the page directory are left out.
unfoldable pub proc_create : (max fresh waitq nfiles root : ℕ) → Procs → Run (ℕ × Procs)
unfolding create_with
proc_create max fresh waitq nfiles root s =
    create_for fresh waitq nfiles root s (proc_getid max s.next_pid (pids s))

-- `proc_lookup`: the first process of the list with the id.
unfoldable pub lookup_pid : (ℕ → Proc) → ℕ → List ℕ → Option ℕ
lookup_pid proc pid [] = none
lookup_pid proc pid (p ∷ ps) = if (proc p).p_pid == pid then some p else lookup_pid proc pid ps

unfoldable pub proc_lookup : ℕ → Procs → Option ℕ
unfolding lookup_pid
proc_lookup pid s = lookup_pid s.proc pid s.proc_list

-- `list_head` of an empty list is no thread.
abbrev pub head : List ℕ → Option ℕ
head [] = none
head (t ∷ ts) = some t

unfoldable pub destroy_first : Option ℕ → (zombie : ℕ) → Procs → Run Procs
destroy_first none zombie s = panic
destroy_first (some t) zombie s = do
  kassert (is_exited (s.sched.threads t).kt_state)
  let s1 = set_parent zombie none (log (kthread_destroy t) s)
  let s2 = log (pt_destroy_pagedir zombie) s1
  let s3 = set_children (me s) (unlink zombie (s2.proc (me s)).p_children) s2
  let s4 = record s3 { proc_list = unlink zombie s3.proc_list }
  ok (log (slab_obj_free zombie) s4)

-- `disposeZombie` of a child of the current process.
unfoldable pub dispose_zombie : (zombie : ℕ) → Procs → Run Procs
unfolding destroy_first
dispose_zombie zombie s = destroy_first (head (s.proc zombie).p_threads) zombie s

-- The process ids that `do_waitpid` takes: -1, or one that is positive.
pub data Wanted : Type 0 where
  any : Wanted
  only : ℕ → Wanted

-- -ECHILD; an id with its status; or the wait is not over.
pub data Waited : Type 0 where
  echild : Procs → Waited
  reaped : (pid status : ℕ) → Procs → Waited
  waiting : Waited

unfoldable pub first_dead : (ℕ → Proc) → List ℕ → Option ℕ
first_dead proc [] = none
first_dead proc (c ∷ cs) = if is_dead (proc c).p_state then some c else first_dead proc cs

-- The loop over the children for one id, which does not stop at a match.
unfoldable pub last_with : (ℕ → Proc) → (pid : ℕ) → Option ℕ → List ℕ → Option ℕ
last_with proc pid child [] = child
last_with proc pid child (c ∷ cs) =
    last_with proc pid (if (proc c).p_pid == pid then some c else child) cs

abbrev pub reap : ℕ → Procs → Run Waited
reap c s = do s' ← dispose_zombie c s; ok (reaped (s.proc c).p_pid (s.proc c).p_status s')

-- What happens from the moment at which the current thread sleeps until it runs again.
abbrev pub Meanwhile : Type 0
Meanwhile = Procs → Procs

-- `sched_sleep_on` of the queue of the current process.
unfoldable pub wait_on_children : Meanwhile → Procs → Run Procs
wait_on_children others s = do
  kassert (is_run (s.sched.threads s.sched.curthr).kt_state)
  w ← fall_asleep State.sleep (s.proc (me s)).p_wait s.sched
  ok (others (set_sched w s))

-- The two loops, over what happens in each sleep; `waiting` if the sleeps given do not end the wait.
unfoldable pub wait_any : List Meanwhile → Procs → Run Waited
wait_any [] s = elim (first_dead s.proc (s.proc (me s)).p_children) [
  | some c ↦ reap c s
  | none ↦ ok waiting
]
wait_any (others ∷ sleeps) s = elim (first_dead s.proc (s.proc (me s)).p_children) [
  | some c ↦ reap c s
  | none ↦ do s' ← wait_on_children others s; wait_any sleeps s'
]

unfoldable pub wait_for : ℕ → List Meanwhile → Procs → Run Waited
wait_for c [] s = if is_dead (s.proc c).p_state then reap c s else ok waiting
wait_for c (others ∷ sleeps) s = elim (is_dead (s.proc c).p_state) [
  | true ↦ reap c s
  | false ↦ do s' ← wait_on_children others s; wait_for c sleeps s'
]

unfoldable pub wait_child : Option ℕ → List Meanwhile → Procs → Run Waited
unfolding wait_for
wait_child none sleeps s = ok (echild s)
wait_child (some c) sleeps s = wait_for c sleeps s

unfoldable pub do_waitpid : Wanted → List Meanwhile → Procs → Run Waited
unfolding wait_any wait_child last_with
do_waitpid any sleeps s =
    if is_empty (s.proc (me s)).p_children then ok (echild s) else wait_any sleeps s
do_waitpid (only pid) sleeps s =
    if is_empty (s.proc (me s)).p_children
    then ok (echild s)
    else wait_child (last_with s.proc pid none (s.proc (me s)).p_children) sleeps s
