-- ===== src/Sched/Examples.antt =====
-- A scheduler with a running thread, one ready thread, and two that wait on queue 5.
use csci_402_operating_syste.Prelude.{
  ℕ, ◌≡◌, ◌≢◌, ◌⊎◌, inl, inr, ap, refl, true, false, Option, none, some, List, [], ◌∷◌, ◌++◌, arith,
  ◌==◌, if◌then◌else◌,
}
use csci_402_operating_syste.Prelude.Run.{ok, ◌>>=◌}
use csci_402_operating_syste.Sched.{
  Sched, State, Interrupt, exited, run, sleep, sleep_cancellable, Thread, interrupted, slept,
  kt_runq, ktqueue_dequeue, sched_switch, sched_sleep_on, sched_cancellable_sleep_on,
  sched_wakeup_on, sched_broadcast_on, sched_cancel, wait_runnable, sched_queue_empty, split_last,
}
use csci_402_operating_syste.Sched.Invariant.{
  IsSched, runnable, dequeued, sched_wakeup_on_lem, sched_cancel_lem,
}
use csci_402_operating_syste.Sched.Switch.{
  IsRunning, Slept, switched, switch-ready, sched_switch_lem, Keeps, Wakes, sched_sleep_on_lem,
  sched_cancellable_sleep_on_lem,
}
use csci_402_operating_syste.Sched.Broadcast.{sched_broadcast_on_lem}

abbrev thread : State → Option ℕ → Thread
thread st q = record { kt_state = st; kt_cancelled = false; kt_wchan = q; kt_proc = 1 }

abbrev pub busy : Sched
busy = record {
  threads = λ t.
      if t == 1
      then thread run none
      else if t == 2
      then thread run (some 0)
      else if t == 3
      then thread sleep (some 5)
      else if t == 4
      then thread sleep_cancellable (some 5)
      else thread State.no_state none;
  queues = λ q.
      if q == 0
      then record { tq_list = 2 ∷ []; tq_size = 1 }
      else if q == 5
      then record { tq_list = 4 ∷ 3 ∷ []; tq_size = 2 }
      else record { tq_list = []; tq_size = 0 };
  curthr = 1;
  curproc = 1;
}

pub busy-IsSched : IsSched busy
busy-IsSched = record {
  sized = λ q. ground arith;
  queued = λ t q. ground arith;
  once = λ q. ground arith;
  placed = λ t. ground arith;
}

pub busy-IsRunning : IsRunning busy
busy-IsRunning = record { state = refl; off_queue = refl; process = refl }

pub other_queue : 5 ≢ kt_runq
other_queue e = omega arith

pub ready : (busy.queues kt_runq).tq_list ≢ []
ready e = cc

-- `sched_switch` on the state above.
switch_busy : sched_switch [] busy ≡ ok (some (switched 2 [] busy))
unfolding sched_switch wait_runnable sched_queue_empty ktqueue_dequeue split_last
switch_busy = refl

switch_to_ready :
    (t : ℕ) × (xs : List ℕ) × ((busy.queues kt_runq).tq_list ≡ xs ++ t ∷ [])
    × (sched_switch [] busy ≡ ok (some (switched t xs busy)))
    × IsSched (switched t xs busy)
    × IsRunning (switched t xs busy)
switch_to_ready = switch-ready [] busy busy-IsSched ready

-- Nobody is ready, and two threads wait on the queue 5.
abbrev idle : Sched
idle = record {
  threads = λ t.
      if t == 1
      then thread exited none
      else if t == 3
      then thread sleep (some 5)
      else if t == 4
      then thread sleep_cancellable (some 5)
      else thread State.no_state none;
  queues = λ q.
      if q == 5
      then record { tq_list = 4 ∷ 3 ∷ []; tq_size = 2 }
      else record { tq_list = []; tq_size = 0 };
  curthr = 1;
  curproc = 1;
}

idle-IsSched : IsSched idle
idle-IsSched = record {
  sized = λ q. ground arith;
  queued = λ t q. ground arith;
  once = λ q. ground arith;
  placed = λ t. ground arith;
}

-- The clock, which wakes nobody, and the disk, which wakes a thread that waits for it.
abbrev clock : Interrupt
clock s = ok s

abbrev disk : Interrupt
disk s = do r ← sched_wakeup_on 5 s; ok r.1

disk-Keeps : Keeps disk
disk-Keeps s v = elim (sched_wakeup_on_lem 5 s v other_queue) [
  | inl (e, g) ↦ (s, ap (λ z. z >>= λ r. ok r.1) g, v)
  | inr (t, xs, e, g, i) ↦ (runnable t (dequeued 5 t xs s), ap (λ z. z >>= λ r. ok r.1) g, i)
]

sched_switch_lem_example :
    (Wakes (clock ∷ disk ∷ []) idle
      × ((u : Sched) × (t : ℕ) × (xs : List ℕ) × (wait_runnable (clock ∷ disk ∷ []) idle
            ≡ ok (some u))
          × ((u.queues kt_runq).tq_list ≡ xs ++ t ∷ [])
          × (sched_switch (clock ∷ disk ∷ []) idle ≡ ok (some (switched t xs u)))
          × IsSched (switched t xs u)
          × IsRunning (switched t xs u)))
    ⊎ ((¬ Wakes (clock ∷ disk ∷ []) idle) × (sched_switch (clock ∷ disk ∷ []) idle ≡ ok none))
sched_switch_lem_example =
    sched_switch_lem (clock ∷ disk ∷ []) idle ((λ s v. (s, refl, v)), (disk-Keeps, tt)) idle-IsSched

sched_sleep_on_lem_example :
    (next : Option Sched) × (sched_sleep_on [] 5 busy ≡ ok next) × Slept busy 5 sleep next
sched_sleep_on_lem_example =
    sched_sleep_on_lem [] busy 5 busy-IsSched busy-IsRunning other_queue ready

sched_cancellable_sleep_on_lem_example :
    (((busy.threads 1).kt_cancelled ≡ true)
      × (sched_cancellable_sleep_on [] 5 busy ≡ ok (interrupted busy)))
    ⊎ (((busy.threads 1).kt_cancelled ≡ false)
        × ((next : Option Sched) × (sched_cancellable_sleep_on [] 5 busy ≡ ok (slept next))
            × Slept busy 5 sleep_cancellable next))
sched_cancellable_sleep_on_lem_example =
    sched_cancellable_sleep_on_lem [] busy 5 busy-IsSched busy-IsRunning other_queue ready

sched_wakeup_on_lem_example :
    (((busy.queues 5).tq_list ≡ []) × (sched_wakeup_on 5 busy ≡ ok (none, busy)))
    ⊎ ((t : ℕ) × (xs : List ℕ) × ((busy.queues 5).tq_list ≡ xs ++ t ∷ [])
        × (sched_wakeup_on 5 busy ≡ ok (some t, runnable t (dequeued 5 t xs busy)))
        × IsSched (runnable t (dequeued 5 t xs busy)))
sched_wakeup_on_lem_example = sched_wakeup_on_lem 5 busy busy-IsSched other_queue

sched_broadcast_on_lem_example :
    (s' : Sched) × (sched_broadcast_on 5 busy ≡ ok (some s'))
    × IsSched s'
    × ((s'.queues 5).tq_list ≡ [])
    × ((s'.queues kt_runq).tq_list ≡ 4 ∷ 3 ∷ 2 ∷ [])
sched_broadcast_on_lem_example = sched_broadcast_on_lem 5 busy other_queue busy-IsSched

sched_cancel_lem_example :
    (s' : Sched) × (sched_cancel 4 busy ≡ ok s')
    × IsSched s'
    × ((s'.threads 4).kt_cancelled ≡ true)
    × (((s'.threads 4).kt_wchan ≡ some kt_runq) × ((s'.threads 4).kt_state ≡ run))
    × ((u : ℕ) → (u == 4) ≡ false → s'.threads u ≡ busy.threads u)
sched_cancel_lem_example = sched_cancel_lem 4 5 busy busy-IsSched refl
