-- ===== src/Process/Exit.antt =====
-- vm-submit/kernel/proc/proc.c and kthread.c: how threads and processes end.
use csci_402_operating_syste.Prelude.{
  ℕ, Bool, Option, none, some, List, [], ◌∷◌, ◌++◌, ◌==◌, ltb, ◌&&◌, ◌^◌, if◌then◌else◌,
}
use csci_402_operating_syste.Prelude.Run.{Run, ok, panic, ◌>>=◌, ◌>>◌, kassert}
use csci_402_operating_syste.Sched.{
  Sched, exited, Interrupt, is_null, set_thread, unlink, sched_wakeup_on, sched_cancel,
  sched_switch,
}
use csci_402_operating_syste.Process.Tree.{
  dead, Procs, fput, vput, vmmap_destroy, me, log, set_proc, set_parent, set_children,
}

-- The use of a pointer that may be NULL.
abbrev pub deref : Option ℕ → Run ℕ
deref none = panic
deref (some p) = ok p

unfoldable pub put_files : List (Option ℕ) → Procs → Procs
put_files [] s = s
put_files (none ∷ fs) s = put_files fs s
put_files (some f ∷ fs) s = put_files fs (log (fput f) s)

-- One child of `parent` becomes the last child of `init`.
unfoldable pub reparent_one : (parent init child : ℕ) → Procs → Procs
reparent_one parent init child s =
    let s1 = set_children parent (unlink child (s.proc parent).p_children) s in
    let s2 = set_parent child (some init) s1 in
    set_children init ((s2.proc init).p_children ++ child ∷ []) s2

-- The iteration over the children that the process has at its start.
unfoldable pub reparent_loop : (parent init : ℕ) → List ℕ → Procs → Procs
reparent_loop parent init [] s = s
reparent_loop parent init (c ∷ cs) s = reparent_loop parent init cs (reparent_one parent init c s)

abbrev pub set_sched : Sched → Procs → Procs
set_sched w s = record s { sched = w }

-- A `pid_t` is a signed 32-bit integer.
abbrev pub is_positive : ℕ → Bool
is_positive pid = ltb 0 pid && ltb pid (2 ^ 31)

-- The status is not used.
unfoldable pub proc_cleanup : (status : ℕ) → Procs → Run Procs
unfolding put_files
proc_cleanup status s = do
  init ← deref s.initproc
  kassert (is_positive (s.proc (me s)).p_pid)
  parent ← deref (s.proc (me s)).p_pproc
  let s1 = log (vput (s.proc (me s)).p_cwd) (put_files (s.proc (me s)).p_files s)
  let s2 = log (vmmap_destroy (me s)) s1
  woken ← sched_wakeup_on (s2.proc parent).p_wait s2.sched
  let s3 = set_sched woken.1 s2
  let s4 = reparent_loop (me s) init (s3.proc (me s)).p_children s3
  ok (set_proc (me s) (record (s4.proc (me s)) { p_state = dead }) s4)

-- The state with what `sched_switch` returns in it.
abbrev pub resume : Procs → Option Sched → Option Procs
resume s none = none
resume s (some w) = some (set_sched w s)

-- `none`: the interrupts given do not bring a thread to run.
unfoldable pub proc_thread_exited : List Interrupt → (retval : ℕ) → Procs → Run (Option Procs)
proc_thread_exited irqs retval s = do
  s' ← proc_cleanup retval s
  next ← sched_switch irqs s'.sched
  ok (resume s' next)

abbrev pub set_retval : (thr retval : ℕ) → Procs → Procs
set_retval thr retval s = record s { kt_retval = λ t. if t == thr then retval else s.kt_retval t }

-- The current thread's links are NULL, as `kt_wchan` is, on no queue.
unfoldable pub kthread_exit : List Interrupt → (retval : ℕ) → Procs → Run (Option Procs)
kthread_exit irqs retval s = do
  let thr = s.sched.curthr
  let t = s.sched.threads thr
  kassert (is_null t.kt_wchan)
  kassert (t.kt_proc == me s)
  let s' = set_retval thr retval s
  proc_thread_exited irqs retval
      (set_sched (set_thread s'.sched thr (record t { kt_state = exited })) s')

-- What a cancellation comes to: the current thread has left, or the call returns.
pub data Cancelled : Type 0 where
  left : Option Procs → Cancelled
  back : Procs → Cancelled

-- The cancellation of a thread that is not the current one.
unfoldable pub cancel_other : (thr retval : ℕ) → Procs → Run Procs
cancel_other thr retval s = do
  let s' = set_retval thr retval s
  w ← sched_cancel thr s'.sched
  ok (set_sched w s')

unfoldable pub kthread_cancel : List Interrupt → (thr retval : ℕ) → Procs → Run Cancelled
unfolding kthread_exit cancel_other
kthread_cancel irqs thr retval s =
    if s.sched.curthr == thr
    then (do s' ← kthread_exit irqs retval s; ok (left s'))
    else (do s' ← cancel_other thr retval s; ok (back s'))

-- The loop of `do_exit`: each thread but the current one is cancelled.
unfoldable pub cancel_others : (retval : ℕ) → List ℕ → Procs → Run Procs
cancel_others retval [] s = ok s
cancel_others retval (t ∷ ts) s =
    if s.sched.curthr == t
    then cancel_others retval ts s
    else (do s' ← cancel_other t retval s; cancel_others retval ts s')

-- `status_at` is the address of the argument: what the threads get is `&status`.
unfoldable pub do_exit : List Interrupt → (status_at : ℕ) → Procs → Run (Option Procs)
unfolding cancel_others kthread_cancel
do_exit irqs status_at s = do
  s' ← cancel_others status_at (s.proc (me s)).p_threads s
  kthread_exit irqs status_at s'

-- The loop of `proc_kill`.
unfoldable pub cancel_each : List Interrupt → (retval : ℕ) → List ℕ → Procs → Run Cancelled
unfolding kthread_cancel
cancel_each irqs retval [] s = ok (back s)
cancel_each irqs retval (t ∷ ts) s = do
  r ← kthread_cancel irqs t retval s
  elim r [ left s' ↦ ok (left s') | back s' ↦ cancel_each irqs retval ts s' ]

unfoldable pub proc_kill : List Interrupt → (p status status_at : ℕ) → Procs → Run Cancelled
unfolding do_exit cancel_each
proc_kill irqs p status status_at s =
    if me s == p
    then (do s' ← do_exit irqs status_at s; ok (left s'))
    else cancel_each irqs status (s.proc p).p_threads s
