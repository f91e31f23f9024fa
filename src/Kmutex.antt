-- ===== src/Kmutex.antt =====
-- vm-submit/kernel/proc/kmutex.c: mutexes over the scheduler.
pub mod Handover
mod Examples
use mathlib.Core.Option
use csci_402_operating_syste.Prelude.{
  ℕ, Bool, true, false, Option, none, some, List, ◌==◌, if◌then◌else◌,
}
use csci_402_operating_syste.Prelude.Run.{Run, ok, ◌>>=◌, ◌>>◌, kassert}
use csci_402_operating_syste.Sched.{
  Sched, Interrupt, Sleep, interrupted, slept, on, negb, is_null, sched_queue_empty, sched_sleep_on,
  sched_cancellable_sleep_on, sched_wakeup_on, set_queue, sched_queue_init,
}

-- `kmutex_t`, with its wait queue by name.
pub record Mutex : Type 0 where
  pub km_waitq : ℕ
  pub km_holder : Option ℕ

-- A mutex and the scheduler.
pub record Locks : Type 0 where
  pub mtx : Mutex
  pub sched : Sched

abbrev pub set_holder : Locks → Option ℕ → Locks
set_holder k h = record k { mtx = record k.mtx { km_holder = h } }

abbrev pub set_sched : Locks → Sched → Locks
set_sched k s = record k { sched = s }

-- The mutex whose wait queue is at `q`.
pub kmutex_init : ℕ → Sched → Locks
kmutex_init q s = record {
  mtx = record { km_waitq = q; km_holder = none };
  sched = set_queue s q sched_queue_init;
}

-- `none` is the wait for an interrupt in `sched_switch`.
pub kmutex_lock : List Interrupt → Locks → Run (Option Locks)
kmutex_lock irqs k = do
  kassert (negb (on k.sched.curthr k.mtx.km_holder))
  if is_null k.mtx.km_holder
      then ok (some (set_holder k (some k.sched.curthr)))
      else do next ← sched_sleep_on irqs k.mtx.km_waitq k.sched; ok (Option.map (set_sched k) next)

-- How `kmutex_lock_cancellable` leaves the caller: it has returned 0 or -EINTR, or it sleeps, and will
-- return the 0 of `sched_cancellable_sleep_on` when it runs again.
pub data LockCancellable : Type 0 where
  returned : Bool → Locks → LockCancellable
  blocked : Option Locks → LockCancellable

pub after_sleep : Locks → Sleep → LockCancellable
after_sleep k (interrupted s) = returned true (set_sched k s)
after_sleep k (slept next) = blocked (Option.map (set_sched k) next)

pub kmutex_lock_cancellable : List Interrupt → Locks → Run LockCancellable
kmutex_lock_cancellable irqs k = do
  kassert (negb (on k.sched.curthr k.mtx.km_holder))
  if is_null k.mtx.km_holder
      then ok (returned false (set_holder k (some k.sched.curthr)))
      else do s ← sched_cancellable_sleep_on irqs k.mtx.km_waitq k.sched; ok (after_sleep k s)

-- What the whole call returns (`true` is -EINTR), if the caller runs again: `others` is what happens from
-- its sleep until then, and `sched_cancellable_sleep_on` then returns 0.
pub resumed : (Locks → Locks) → LockCancellable → Option (Bool × Locks)
resumed others (returned r k) = some (r, k)
resumed others (blocked none) = none
resumed others (blocked (some k)) = some (false, others k)

pub lock_cancellable_through :
    List Interrupt → (others : Locks → Locks) → Locks → Run (Option (Bool × Locks))
unfolding resumed
lock_cancellable_through irqs others k = do
  r ← kmutex_lock_cancellable irqs k
  ok (resumed others r)

pub kmutex_unlock : Locks → Run Locks
kmutex_unlock k = do
  kassert (on k.sched.curthr k.mtx.km_holder)
  if sched_queue_empty k.sched k.mtx.km_waitq then ok (set_holder k none) else do
    (next, s) ← sched_wakeup_on k.mtx.km_waitq k.sched
    ok (set_holder (set_sched k s) next)
