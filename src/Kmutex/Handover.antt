-- ===== src/Kmutex/Handover.antt =====
-- Who holds a mutex after each operation.
use csci_402_operating_syste.Prelude.{
  ℕ, ◌≡◌, ◌≢◌, ◌⊎◌, refl, ◌∙◌, sym, ap, inl, inr, Bool, true, false, Option, none, some, List, [],
  ◌∷◌, ◌++◌, ◌==◌, arith, if_true, if_false, Bool-cases, Option-cases, ==→eq,
}
use csci_402_operating_syste.Prelude.Run.{Run, ok, ◌>>=◌, kassert-pass}
use csci_402_operating_syste.Sched.{
  sched_queue_init, Sched, Interrupt, slept, sleep, sleep_cancellable, run, kt_runq, is_empty,
  is_null, on, negb, sched_queue_empty,
}
use csci_402_operating_syste.Sched.Queues.{elem, distinct, distinct-snoc}
use csci_402_operating_syste.Sched.Invariant.{
  IsSched, not-empty, dequeued, runnable, sched_wakeup_on_lem,
}
use csci_402_operating_syste.Sched.Switch.{
  IsRunning, sched_sleep_on_lem, sched_cancellable_sleep_on_lem,
}
use csci_402_operating_syste.Kmutex.{
  kmutex_init, Locks, set_holder, set_sched, kmutex_lock, kmutex_unlock, after_sleep, resumed,
  LockCancellable, kmutex_lock_cancellable, lock_cancellable_through,
}

-- The mutex's queue is not the run queue, a mutex that threads wait for is held, and its holder does
-- not wait for it.
pub record IsMutex (k : Locks) : Type 0 where
  pub sched : IsSched k.sched
  pub waitq : k.mtx.km_waitq ≢ kt_runq
  pub held : (k.sched.queues k.mtx.km_waitq).tq_list ≢ [] → k.mtx.km_holder ≢ none
  pub awake :
      (t : ℕ) → k.mtx.km_holder ≡ some t → elem t (k.sched.queues k.mtx.km_waitq).tq_list ≡ false

not_on : (q : ℕ) (o : Option ℕ) → o ≢ some q → on q o ≡ false
not_on q none ne = refl
not_on q (some x) ne = elim (Bool-cases (x == q)) [
  | inl t ↦ absurd (ne (ap some (==→eq x q t)))
  | inr f ↦ f
]

not-holder : (h : Option ℕ) (c : ℕ) → h ≢ some c → negb (on c h) ≡ true
not-holder h c ne = ap negb (not_on c h ne)

-- `kmutex_init`, at a queue other than the run queue that no thread waits on, gives a free mutex and
-- establishes its invariant.
pub kmutex_init_lem :
    (q : ℕ) (s : Sched)
    → IsSched s
    → q ≢ kt_runq
    → ((t : ℕ) → (s.threads t).kt_wchan ≢ some q)
    → IsMutex (kmutex_init q s) × ((kmutex_init q s).mtx.km_holder ≡ none)
unfolding kmutex_init sched_queue_init
kmutex_init_lem q s v ne w = (
  record {
    sched = record {
      sized = λ r. ground (arith, v.sized r);
      queued = λ t r. elim (Bool-cases (r == q)) [
        | inl e ↦ rw e (sym (not_on r (s.threads t).kt_wchan λ z. w t (z ∙ ap some (==→eq r q e))))
        | inr e ↦ rw e (v.queued t r)
      ];
      once = λ r. ground (arith, v.once r);
      placed = v.placed;
    };
    waitq = ne;
    held = λ z. absurd (z (ground arith));
    awake = λ t e. cc;
  },
  refl,
)

-- `kmutex_lock` by a running thread that does not hold the mutex, while another thread is ready: a free
-- mutex is taken at once, and nothing else changes. With the mutex held by another thread, the caller
-- goes to sleep as the newest waiter, another thread runs, and the holder stays. In both cases the
-- mutex's invariant holds again.
pub kmutex_lock_lem :
    (irqs : List Interrupt) (k : Locks)
    → IsMutex k
    → IsRunning k.sched
    → k.mtx.km_holder ≢ some k.sched.curthr
    → (k.sched.queues kt_runq).tq_list ≢ []
    → ((k.mtx.km_holder ≡ none)
        × (kmutex_lock irqs k ≡ ok (some (set_holder k (some k.sched.curthr))))
        × IsMutex (set_holder k (some k.sched.curthr)))
      ⊎ ((k.mtx.km_holder ≢ none)
          × ((s' : Sched) × (kmutex_lock irqs k ≡ ok (some (set_sched k s')))
              × IsMutex (set_sched k s')
              × IsRunning s'
              × ((s'.threads k.sched.curthr).kt_state ≡ sleep)
              × ((s'.queues k.mtx.km_waitq).tq_list
                  ≡ k.sched.curthr ∷ (k.sched.queues k.mtx.km_waitq).tq_list)))
unfolding kmutex_lock
kmutex_lock_lem irqs k v r ne ready =
    let pass = not-holder k.mtx.km_holder k.sched.curthr ne in
    elim (Option-cases k.mtx.km_holder) [
      | inl free ↦ inl (
        free,
        kassert-pass _ _ pass ∙ if_true _ _ _ (ap is_null free),
        record {
          sched = v.sched;
          waitq = v.waitq;
          held = λ w e. cc;
          awake =
              λ t e. ground (arith, e, v.sched.queued k.sched.curthr k.mtx.km_waitq, r.off_queue);
        },
      )
      | inr (h, e) ↦
          let (next, go, (t, xs, s', split, is, v', r', cur, st, q)) =
            sched_sleep_on_lem irqs k.sched k.mtx.km_waitq v.sched r v.waitq ready in
          inr (
            λ z. cc,
            (
              s',
              kassert-pass _ _ pass ∙ if_false _ _ _ (ap is_null e) ∙ rw (go, is),
              record {
                sched = v';
                waitq = v.waitq;
                held = λ w z. cc;
                awake = λ u f. ap (elem u) q ∙ ground (arith, v.awake u f, ne, f);
              },
              r',
              st,
              q,
            ),
          )
    ]

-- What `kmutex_unlock` makes of the mutex: the holder is the thread at the tail of the wait queue,
-- which is now runnable, or nobody where nobody waited.
abbrev pub Unlocked : Locks → Locks → Type 0
Unlocked k k' =
    (((k.sched.queues k.mtx.km_waitq).tq_list ≡ []) × (k' ≡ set_holder k none))
    ⊎ ((t : ℕ) × (xs : List ℕ) × ((k.sched.queues k.mtx.km_waitq).tq_list ≡ xs ++ t ∷ [])
        × (k'.mtx.km_holder ≡ some t)
        × ((k'.sched.queues k.mtx.km_waitq).tq_list ≡ xs)
        × ((k'.sched.threads t).kt_state ≡ run)
        × ((k'.sched.queues kt_runq).tq_list ≡ t ∷ (k.sched.queues kt_runq).tq_list)
        × (k'.sched.curthr ≡ k.sched.curthr))

-- By its holder `kmutex_unlock` passes its assertions and does not block: the thread that has waited
-- longest becomes the holder and runnable, or the mutex is free when nobody waits. The mutex's
-- invariant holds again.
pub kmutex_unlock_lem :
    (k : Locks)
    → IsMutex k
    → k.mtx.km_holder ≡ some k.sched.curthr
    → (k' : Locks) × (kmutex_unlock k ≡ ok k') × IsMutex k' × Unlocked k k'
unfolding kmutex_unlock sched_queue_empty
kmutex_unlock_lem k v own =
    let q = k.mtx.km_waitq in
    let pass : on k.sched.curthr k.mtx.km_holder ≡ true = ground arith in
    elim (sched_wakeup_on_lem q k.sched v.sched v.waitq) [
      | inl (e, got) ↦ (
        set_holder k none,
        kassert-pass _ _ pass ∙ if_true _ _ _ (ap is_empty e),
        record { sched = v.sched; waitq = v.waitq; held = λ w z. w e; awake = λ t z. cc },
        inl (e, refl),
      )
      | inr (t, xs, e, got, is) ↦
          let s' = runnable t (dequeued q t xs k.sched) in
          let left : (s'.queues q).tq_list ≡ xs = unfold runnable in ground (arith, v.waitq) in
          let gone : elem t xs ≡ false =
            ground (arith, v.sched.once q, ap distinct e, distinct-snoc t xs) in
          (
            set_holder (set_sched k s') (some t),
            kassert-pass _ _ pass ∙ if_false _ _ _ (ap is_empty e ∙ not-empty xs t) ∙ rw got,
            record {
              sched = is;
              waitq = v.waitq;
              held = λ w z. cc;
              awake = λ u z. ap (elem u) left ∙ ground (arith, gone, z);
            },
            inr (
              t,
              xs,
              e,
              refl,
              left,
              (unfold runnable in ground arith),
              (unfold runnable in ground (arith, v.waitq)),
              (unfold runnable in refl),
            ),
          )
    ]

-- `kmutex_lock_cancellable`, to its end, by a running thread that does not hold the mutex, while another
-- thread is ready. A free mutex is taken, and the call returns 0. With the mutex held, a thread that is
-- cancelled gets -EINTR, and nothing changes. Any other goes to sleep as the newest waiter, in the sleep
-- that can be cancelled, another thread runs, and the mutex's invariant holds. Whatever happens then until
-- the caller runs again, the call returns 0 and changes nothing more: also if the caller was cancelled, and
-- another thread holds the mutex.
pub kmutex_lock_cancellable_lem :
    (irqs : List Interrupt) (others : Locks → Locks) (k : Locks)
    → IsMutex k
    → IsRunning k.sched
    → k.mtx.km_holder ≢ some k.sched.curthr
    → (k.sched.queues kt_runq).tq_list ≢ []
    → ((k.mtx.km_holder ≡ none)
        × (lock_cancellable_through irqs others k
            ≡ ok (some (false, set_holder k (some k.sched.curthr))))
        × IsMutex (set_holder k (some k.sched.curthr)))
      ⊎ ((k.mtx.km_holder ≢ none)
          × ((k.sched.threads k.sched.curthr).kt_cancelled ≡ true)
          × (lock_cancellable_through irqs others k ≡ ok (some (true, k))))
      ⊎ ((k.mtx.km_holder ≢ none)
          × ((k.sched.threads k.sched.curthr).kt_cancelled ≡ false)
          × ((s' : Sched) × (lock_cancellable_through irqs others k
                ≡ ok (some (false, others (set_sched k s'))))
              × IsMutex (set_sched k s')
              × IsRunning s'
              × ((s'.threads k.sched.curthr).kt_state ≡ sleep_cancellable)
              × ((s'.queues k.mtx.km_waitq).tq_list
                  ≡ k.sched.curthr ∷ (k.sched.queues k.mtx.km_waitq).tq_list)))
unfolding lock_cancellable_through kmutex_lock_cancellable after_sleep resumed
kmutex_lock_cancellable_lem irqs others k v r ne ready =
    let pass = not-holder k.mtx.km_holder k.sched.curthr ne in
    let rest : Run LockCancellable → Run (Option (Bool × Locks)) =
      λ z. z >>= λ x. ok (resumed others x) in
    elim (Option-cases k.mtx.km_holder) [
      | inl free ↦ inl (
        free,
        ap rest (kassert-pass _ _ pass ∙ if_true _ _ _ (ap is_null free)),
        record {
          sched = v.sched;
          waitq = v.waitq;
          held = λ w e. cc;
          awake =
              λ t e. ground (arith, e, v.sched.queued k.sched.curthr k.mtx.km_waitq, r.off_queue);
        },
      )
      | inr (h, e) ↦
          let enter = kassert-pass _ _ pass ∙ if_false _ _ _ (ap is_null e) in
          elim (sched_cancellable_sleep_on_lem irqs k.sched k.mtx.km_waitq v.sched r v.waitq
            ready) [
              | inl (c, go) ↦
                  inr (
                    inl
                      (λ z. cc, c, ap rest (enter ∙ ap (λ z. z >>= λ x. ok (after_sleep k x)) go)))
              | inr (c, (next, go, (t, xs, s', split, is, v', r', cur, st, q))) ↦ inr (
                  inr (
                    λ z. cc,
                    c,
                    (
                      s',
                      ap rest (
                          enter
                          ∙ ap (λ z. z >>= λ x. ok (after_sleep k x))
                              (go ∙ ap (λ n. ok (slept n)) is)),
                      record {
                        sched = v';
                        waitq = v.waitq;
                        held = λ w z. cc;
                        awake = λ u f. ap (elem u) q ∙ ground (arith, v.awake u f, ne, f);
                      },
                      r',
                      st,
                      q,
                    ),
                  ))
            ]
    ]
