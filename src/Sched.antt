-- ===== src/Sched.antt =====
-- vm-submit/kernel/proc/sched.c: thread queues, sleeping, waking and the switch to the next thread.
pub mod Queues
pub mod Invariant
pub mod Switch
pub mod Broadcast
pub mod Examples
use mathlib.Core.Option
use csci_402_operating_syste.Prelude.{
  ℕ, zero, suc, ◌+◌, ◌-◌, Bool, true, false, ◌&&◌, ◌||◌, Option, none, some, List, [], ◌∷◌, ◌++◌,
  ◌==◌, if◌then◌else◌, length,
}
use csci_402_operating_syste.Prelude.Run.{Run, ok, panic, ◌>>=◌, ◌>>◌, kassert}

-- `kthread_state_t`
pub data State : Type 0 where
  no_state run sleep sleep_cancellable exited : State

-- The fields of `kthread_t` that scheduling reads or writes. Threads and queues are named by numbers.
pub record Thread : Type 0 where
  pub kt_state : State
  pub kt_cancelled : Bool
  pub kt_wchan : Option ℕ
  pub kt_proc : ℕ

-- `ktqueue_t`, with the head of the list (`l_next`) first.
pub record Queue : Type 0 where
  pub tq_list : List ℕ
  pub tq_size : ℕ

pub record Sched : Type 0 where
  pub threads : ℕ → Thread
  pub queues : ℕ → Queue
  pub curthr : ℕ
  pub curproc : ℕ

-- The name of `kt_runq`.
abbrev pub kt_runq : ℕ
kt_runq = 0

abbrev pub update {ℓ} : {A : Type ℓ} → (ℕ → A) → ℕ → A → ℕ → A
update f k v j = if j == k then v else f j

abbrev pub set_thread : Sched → ℕ → Thread → Sched
set_thread s t v = record s { threads = update s.threads t v }

abbrev pub set_queue : Sched → ℕ → Queue → Sched
set_queue s q v = record s { queues = update s.queues q v }

abbrev pub is_null : Option ℕ → Bool
is_null none = true
is_null (some _) = false

abbrev pub is_empty : List ℕ → Bool
is_empty [] = true
is_empty (_ ∷ _) = false

unfoldable pub sched_queue_init : Queue
sched_queue_init = record { tq_list = []; tq_size = 0 }

unfoldable pub sched_queue_empty : Sched → ℕ → Bool
sched_queue_empty s q = is_empty (s.queues q).tq_list

pub ktqueue_enqueue : ℕ → ℕ → Sched → Run Sched
ktqueue_enqueue q thr s = do
  kassert (is_null (s.threads thr).kt_wchan)
  let tq = s.queues q
  let s' = set_queue s q (record { tq_list = thr ∷ tq.tq_list; tq_size = tq.tq_size + 1 })
  ok (set_thread s' thr (record (s.threads thr) { kt_wchan = some q }))

-- The last element of a list (`l_prev` of the anchor), and the rest.
unfoldable pub split_last : ℕ → List ℕ → List ℕ × ℕ
split_last x [] = ([], x)
split_last x (y ∷ ys) = let (init, last) = split_last y ys in (x ∷ init, last)

-- `none` is NULL.
pub ktqueue_dequeue : ℕ → Sched → Option ℕ × Sched
ktqueue_dequeue q s = elim (s.queues q).tq_list [
  | [] ↦ (none, s)
  | x ∷ xs ↦
      let (init, thr) = split_last x xs in
      let s' = set_queue s q (record { tq_list = init; tq_size = (s.queues q).tq_size - 1 }) in
      (some thr, set_thread s' thr (record (s.threads thr) { kt_wchan = none }))
]

-- `list_remove` of one thread's link.
unfoldable pub unlink : ℕ → List ℕ → List ℕ
unlink t [] = []
unlink t (x ∷ xs) = if x == t then xs else x ∷ unlink t xs

-- `ktqueue_remove` after its assertion.
pub take_out : ℕ → ℕ → Sched → Sched
take_out q thr s =
    let tq = s.queues q in
    let s' = set_queue s q (record { tq_list = unlink thr tq.tq_list; tq_size = tq.tq_size - 1 }) in
    set_thread s' thr (record (s.threads thr) { kt_wchan = none })

abbrev pub on : ℕ → Option ℕ → Bool
on q none = false
on q (some r) = r == q

abbrev pub negb : Bool → Bool
negb true = false
negb false = true

-- The links of a thread are set exactly while it is on a queue, as `kt_wchan` is.
pub ktqueue_remove : ℕ → ℕ → Sched → Run Sched
unfolding take_out
ktqueue_remove q thr s = do kassert (negb (is_null (s.threads thr).kt_wchan)); ok (take_out q thr s)

pub sched_make_runnable : ℕ → Sched → Run Sched
sched_make_runnable thr s = do
  kassert (negb (on kt_runq (s.threads thr).kt_wchan))
  ktqueue_enqueue kt_runq thr (set_thread s thr (record (s.threads thr) { kt_state = run }))

-- An interrupt handler that runs while the processor waits.
abbrev pub Interrupt : Type 0
Interrupt = Sched → Run Sched

-- The wait for a runnable thread: each interrupt that arrives runs its handler. `none` means that
-- the interrupts given do not end the wait.
pub wait_runnable : List Interrupt → Sched → Run (Option Sched)
wait_runnable [] s = ok (if sched_queue_empty s kt_runq then none else some s)
wait_runnable (handler ∷ irqs) s = elim (sched_queue_empty s kt_runq) [
  | true ↦ do s' ← handler s; wait_runnable irqs s'
  | false ↦ ok (some s)
]

abbrev pub current : Option ℕ × Sched → Sched
current (none, s) = s
current (some thr, s) = record s { curthr = thr; curproc = (s.threads thr).kt_proc }

-- `sched_switch` up to the context switch: the thread that it picks runs on.
pub sched_switch : List Interrupt → Sched → Run (Option Sched)
sched_switch irqs s = do
  ready ← wait_runnable irqs s
  ok (Option.map (λ s'. current (ktqueue_dequeue kt_runq s')) ready)

abbrev pub is_run : State → Bool
is_run no_state = false
is_run run = true
is_run sleep = false
is_run sleep_cancellable = false
is_run exited = false

abbrev pub is_asleep : State → Bool
is_asleep no_state = false
is_asleep run = false
is_asleep sleep = true
is_asleep sleep_cancellable = true
is_asleep exited = false

abbrev pub is_cancellable : State → Bool
is_cancellable no_state = false
is_cancellable run = false
is_cancellable sleep = false
is_cancellable sleep_cancellable = true
is_cancellable exited = false

abbrev pub is_alive : State → Bool
is_alive no_state = false
is_alive run = true
is_alive sleep = true
is_alive sleep_cancellable = true
is_alive exited = false

-- The current thread goes to sleep: its state is set and it joins the queue.
pub fall_asleep : State → ℕ → Sched → Run Sched
fall_asleep state q s =
    let me = s.curthr in
    ktqueue_enqueue q me (set_thread s me (record (s.threads me) { kt_state = state }))

pub sched_sleep_on : List Interrupt → ℕ → Sched → Run (Option Sched)
sched_sleep_on irqs q s = do
  kassert (is_run (s.threads s.curthr).kt_state)
  s' ← fall_asleep sleep q s
  sched_switch irqs s'

-- A cancellable sleep returns -EINTR at once, or sleeps and returns 0 when the thread runs again.
pub data Sleep : Type 0 where
  interrupted : Sched → Sleep
  slept : Option Sched → Sleep

pub sched_cancellable_sleep_on : List Interrupt → ℕ → Sched → Run Sleep
sched_cancellable_sleep_on irqs q s =
    if (s.threads s.curthr).kt_cancelled
    then ok (interrupted s)
    else do s' ← fall_asleep sleep_cancellable q s; next ← sched_switch irqs s'; ok (slept next)

pub wake : Option ℕ × Sched → Run (Option ℕ × Sched)
wake (none, s) = panic
wake (some t, s) = do
  kassert (is_asleep (s.threads t).kt_state)
  s' ← sched_make_runnable t s
  ok (some t, s')

pub sched_wakeup_on : ℕ → Sched → Run (Option ℕ × Sched)
sched_wakeup_on q s = if sched_queue_empty s q then ok (none, s) else wake (ktqueue_dequeue q s)

pub broadcast_one : Option ℕ × Sched → Run Sched
broadcast_one (none, s) = panic
broadcast_one (some t, s) = sched_make_runnable t s

-- The loop of `sched_broadcast_on`, with a bound on its rounds; `none` if the bound is too low.
pub broadcast_loop : ℕ → ℕ → Sched → Run (Option Sched)
broadcast_loop zero q s = ok (if sched_queue_empty s q then some s else none)
broadcast_loop (suc k) q s = elim (sched_queue_empty s q) [
  | true ↦ ok (some s)
  | false ↦ do s' ← broadcast_one (ktqueue_dequeue q s); broadcast_loop k q s'
]

pub sched_broadcast_on : ℕ → Sched → Run (Option Sched)
sched_broadcast_on q s = broadcast_loop (length (s.queues q).tq_list) q s

pub cancel_from : Option ℕ → ℕ → Sched → Run Sched
cancel_from none thr s = panic
cancel_from (some q) thr s = do s' ← ktqueue_remove q thr s; sched_make_runnable thr s'

pub sched_cancel : ℕ → Sched → Run Sched
sched_cancel thr s = do
  let t = s.threads thr
  kassert (is_alive t.kt_state && negb (is_null t.kt_wchan))
  let s' = set_thread s thr (record t { kt_cancelled = true })
  if is_cancellable t.kt_state && negb (on kt_runq t.kt_wchan)
      then cancel_from t.kt_wchan thr s'
      else ok s'
