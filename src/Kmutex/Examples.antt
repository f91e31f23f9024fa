-- ===== src/Kmutex/Examples.antt =====
-- A mutex held by the running thread, with the two waiters of queue 5.
use csci_402_operating_syste.Prelude.{
  ℕ, ◌≡◌, ◌≢◌, ◌⊎◌, refl, true, false, none, some, [], ◌∷◌, arith,
}
use csci_402_operating_syste.Prelude.Run.{ok}
use csci_402_operating_syste.Sched.{kt_runq, Sched, sleep, sleep_cancellable, set_thread}
use csci_402_operating_syste.Sched.Switch.{IsRunning}
use csci_402_operating_syste.Sched.Examples.{busy, busy-IsSched, busy-IsRunning, other_queue, ready}
use csci_402_operating_syste.Kmutex.{
  kmutex_init, Locks, set_holder, set_sched, kmutex_lock, lock_cancellable_through, kmutex_unlock,
}
use csci_402_operating_syste.Kmutex.Handover.{
  IsMutex, Unlocked, kmutex_init_lem, kmutex_lock_lem, kmutex_lock_cancellable_lem,
  kmutex_unlock_lem,
}

abbrev held_by : ℕ → Locks
held_by t = record { mtx = record { km_waitq = 5; km_holder = some t }; sched = busy }

held-IsMutex : IsMutex (held_by 1)
held-IsMutex = record {
  sched = busy-IsSched;
  waitq = other_queue;
  held = λ w e. cc;
  awake = λ t e. ground arith;
}

ready-IsMutex : IsMutex (held_by 2)
ready-IsMutex = record {
  sched = busy-IsSched;
  waitq = other_queue;
  held = λ w e. cc;
  awake = λ t e. ground arith;
}

kmutex_unlock_lem_example :
    (k' : Locks) × (kmutex_unlock (held_by 1) ≡ ok k') × IsMutex k' × Unlocked (held_by 1) k'
kmutex_unlock_lem_example = kmutex_unlock_lem (held_by 1) held-IsMutex refl

other_holder : (held_by 2).mtx.km_holder ≢ some 1
other_holder e = ground arith

kmutex_lock_lem_example :
    (((held_by 2).mtx.km_holder ≡ none)
      × (kmutex_lock [] (held_by 2) ≡ ok (some (set_holder (held_by 2) (some 1))))
      × IsMutex (set_holder (held_by 2) (some 1)))
    ⊎ (((held_by 2).mtx.km_holder ≢ none)
        × ((s' : Sched) × (kmutex_lock [] (held_by 2) ≡ ok (some (set_sched (held_by 2) s')))
            × IsMutex (set_sched (held_by 2) s')
            × IsRunning s'
            × ((s'.threads 1).kt_state ≡ sleep)
            × ((s'.queues 5).tq_list ≡ 1 ∷ 4 ∷ 3 ∷ [])))
kmutex_lock_lem_example =
    kmutex_lock_lem [] (held_by 2) ready-IsMutex busy-IsRunning other_holder ready

-- While the thread 1 sleeps it is cancelled, and nothing else happens.
abbrev flagged : Locks → Locks
flagged k = set_sched k (set_thread k.sched 1 (record (k.sched.threads 1) { kt_cancelled = true }))

kmutex_lock_cancellable_lem_example :
    (((held_by 2).mtx.km_holder ≡ none)
      × (lock_cancellable_through [] flagged (held_by 2)
          ≡ ok (some (false, set_holder (held_by 2) (some 1))))
      × IsMutex (set_holder (held_by 2) (some 1)))
    ⊎ (((held_by 2).mtx.km_holder ≢ none)
        × ((busy.threads 1).kt_cancelled ≡ true)
        × (lock_cancellable_through [] flagged (held_by 2) ≡ ok (some (true, held_by 2))))
    ⊎ (((held_by 2).mtx.km_holder ≢ none)
        × ((busy.threads 1).kt_cancelled ≡ false)
        × ((s' : Sched) × (lock_cancellable_through [] flagged (held_by 2)
              ≡ ok (some (false, flagged (set_sched (held_by 2) s'))))
            × IsMutex (set_sched (held_by 2) s')
            × IsRunning s'
            × ((s'.threads 1).kt_state ≡ sleep_cancellable)
            × ((s'.queues 5).tq_list ≡ 1 ∷ 4 ∷ 3 ∷ [])))
kmutex_lock_cancellable_lem_example =
    kmutex_lock_cancellable_lem [] flagged (held_by 2) ready-IsMutex busy-IsRunning other_holder
      ready

no_waiters : (t : ℕ) → (busy.threads t).kt_wchan ≢ some 6
no_waiters t e = ground arith

unused_queue : 6 ≢ kt_runq
unused_queue e = ground arith

fresh-IsMutex : IsMutex (kmutex_init 6 busy) × ((kmutex_init 6 busy).mtx.km_holder ≡ none)
fresh-IsMutex = kmutex_init_lem 6 busy busy-IsSched unused_queue no_waiters
