-- ===== src/Sched/Switch.antt =====
-- Giving up the processor: `sched_switch` and the sleeps.
use csci_402_operating_syste.Prelude.{
  ℕ, subst, ◌≡◌, ◌≢◌, refl, ◌∙◌, sym, ap, inl, inr, true, false, Option, none, some, List, [], ◌∷◌,
  ◌++◌, ◌==◌, arith, if_true, if_false, All, Bool-cases, ◌⊎◌,
}
use csci_402_operating_syste.Prelude.Run.{Run, ok, kassert-pass}
use csci_402_operating_syste.Sched.{
  Sched, State, run, sleep, sleep_cancellable, kt_runq, set_thread, is_run, is_empty, Interrupt,
  sched_queue_empty, ktqueue_dequeue, wait_runnable, current, sched_switch, fall_asleep,
  sched_sleep_on, interrupted, slept, sched_cancellable_sleep_on,
}
use csci_402_operating_syste.Sched.Invariant.{
  IsSched, fits, not-empty, enqueued, enqueued-IsSched, state-IsSched, enqueue-run, dequeued,
  dequeued-IsSched, dequeued-state, ktqueue_dequeue-cases,
}

-- The current thread runs: it is in state KT_RUN and on no queue.
pub record IsRunning (s : Sched) : Type 0 where
  pub state : (s.threads s.curthr).kt_state ≡ run
  pub off_queue : (s.threads s.curthr).kt_wchan ≡ none
  pub process : s.curproc ≡ (s.threads s.curthr).kt_proc

-- The thread `t` that was at the tail of the run queue runs in place of the one before.
abbrev pub switched : ℕ → List ℕ → Sched → Sched
switched t xs s = record (dequeued kt_runq t xs s) { curthr = t; curproc = (s.threads t).kt_proc }

current-IsSched : (s : Sched) (t p : ℕ) → IsSched s → IsSched (record s { curthr = t; curproc = p })
current-IsSched s t p v = record {
  sized = v.sized;
  queued = v.queued;
  once = v.once;
  placed = v.placed;
}

ready-wait :
    (irqs : List Interrupt) (s : Sched)
    → sched_queue_empty s kt_runq ≡ false
    → wait_runnable irqs s ≡ ok (some s)
unfolding wait_runnable
ready-wait [] s e = rw e
ready-wait (h ∷ irqs) s e = rw (e, wait_runnable)

-- The thread that `sched_switch` picks from a run queue with threads on it.
pick :
    (s : Sched)
    → IsSched s
    → (s.queues kt_runq).tq_list ≢ []
    → (t : ℕ) × (xs : List ℕ) × ((s.queues kt_runq).tq_list ≡ xs ++ t ∷ [])
      × (current (ktqueue_dequeue kt_runq s) ≡ switched t xs s)
      × IsSched (switched t xs s)
      × IsRunning (switched t xs s)
pick s v ne = elim (ktqueue_dequeue-cases kt_runq s) [
  | inl (e, got) ↦ absurd (ne e)
  | inr (t, xs, e, got) ↦
      let run_t : (s.threads t).kt_state ≡ run =
        ground (arith, dequeued-state s v kt_runq t xs e) in
      (
        t,
        xs,
        e,
        rw got (ground arith),
        current-IsSched _ t _ (dequeued-IsSched s v kt_runq t xs e),
        record { state = ground arith; off_queue = ground arith; process = ground arith },
      )
]

-- With a thread on the run queue, `sched_switch` waits for no interrupt: the thread at the tail,
-- which has been there longest, leaves the queue and runs.
pub switch-ready :
    (irqs : List Interrupt) (s : Sched)
    → IsSched s
    → (s.queues kt_runq).tq_list ≢ []
    → (t : ℕ) × (xs : List ℕ) × ((s.queues kt_runq).tq_list ≡ xs ++ t ∷ [])
      × (sched_switch irqs s ≡ ok (some (switched t xs s)))
      × IsSched (switched t xs s)
      × IsRunning (switched t xs s)
unfolding sched_switch
switch-ready irqs s v ne =
    let (t, xs, e, cur, v', r) = pick s v ne in
    let busy : sched_queue_empty s kt_runq ≡ false =
      unfold sched_queue_empty in ap is_empty e ∙ not-empty xs t in
    (t, xs, e, rw (ready-wait irqs s busy) (ap (λ u. ok (some u)) cur), v', r)

-- A handler that returns, and keeps the scheduler's invariant.
abbrev pub Keeps : Interrupt → Type 0
Keeps h = (s : Sched) → IsSched s → (s' : Sched) × (h s ≡ ok s') × IsSched s'

-- The interrupts make a thread ready, one after another.
abbrev pub Wakes : List Interrupt → Sched → Type 0
Wakes [] s = (s.queues kt_runq).tq_list ≢ []
Wakes (h ∷ irqs) s =
    ((s.queues kt_runq).tq_list ≢ []) ⊎ ((s' : Sched) × (h s ≡ ok s') × Wakes irqs s')

-- The wait ends in a state with a thread that is ready, exactly if the interrupts make one ready.
abbrev pub Waited : List Interrupt → Sched → Type 0
Waited irqs s =
    (Wakes irqs s
      × ((u : Sched) × (wait_runnable irqs s ≡ ok (some u))
          × IsSched u
          × ((u.queues kt_runq).tq_list ≢ [])))
    ⊎ ((¬ Wakes irqs s) × (wait_runnable irqs s ≡ ok none))

full : (l : List ℕ) → is_empty l ≡ false → l ≢ []
full l e f = cc (ap is_empty f)

none_left : (l : List ℕ) → is_empty l ≡ true → l ≡ []
none_left [] e = refl
none_left (x ∷ l) e = cc

same_end : {s t : Sched} {r : Run Sched} → r ≡ ok s → r ≡ ok t → s ≡ t
same_end e f = cc

wait-Waited : (irqs : List Interrupt) (s : Sched) → All Keeps irqs → IsSched s → Waited irqs s
unfolding wait_runnable sched_queue_empty
wait-Waited [] s ks v = elim (Bool-cases (is_empty (s.queues kt_runq).tq_list)) [
  | inl t ↦ inr (λ w. w (none_left _ t), rw t refl)
  | inr f ↦ inl (full _ f, (s, rw f refl, v, full _ f))
]
wait-Waited (h ∷ irqs) s ks v = elim (Bool-cases (is_empty (s.queues kt_runq).tq_list)) [
  | inr f ↦ inl (inl (full _ f), (s, ready-wait (h ∷ irqs) s f, v, full _ f))
  | inl t ↦
      let (s', e, v') = ks.0 s v in
      elim (wait-Waited irqs s' ks.1 v') [
        | inl (w, (u, g, i, ne)) ↦ inl (inr (s', e, w), (u, rw (t, e, wait_runnable) g, i, ne))
        | inr (n, g) ↦ inr (
          λ x. elim x [
            | inl ne ↦ ne (none_left _ t)
            | inr (s2, e2, w) ↦ n (subst (Wakes irqs) (same_end e2 e) w)
          ],
          rw (t, e, wait_runnable) g,
        )
      ]
]

-- With handlers that return and keep the scheduler's invariant: if the interrupts that arrive make a
-- thread ready, `sched_switch` returns. The thread that is then at the tail of the run queue leaves it
-- and is the current thread, runnable and on no queue, the current process is that thread's, and the
-- scheduler's invariant holds. It does not return, for all of these interrupts, exactly if none of them
-- makes a thread ready.
pub sched_switch_lem :
    (irqs : List Interrupt) (s : Sched)
    → All Keeps irqs
    → IsSched s
    → (Wakes irqs s
        × ((u : Sched) × (t : ℕ) × (xs : List ℕ) × (wait_runnable irqs s ≡ ok (some u))
            × ((u.queues kt_runq).tq_list ≡ xs ++ t ∷ [])
            × (sched_switch irqs s ≡ ok (some (switched t xs u)))
            × IsSched (switched t xs u)
            × IsRunning (switched t xs u)))
      ⊎ ((¬ Wakes irqs s) × (sched_switch irqs s ≡ ok none))
unfolding sched_switch
sched_switch_lem irqs s ks v = elim (wait-Waited irqs s ks v) [
  | inl (w, (u, g, i, ne)) ↦
      let (t, xs, split, cur, v', r) = pick u i ne in
      inl (w, (u, t, xs, g, split, rw g (ap (λ z. ok (some z)) cur), v', r))
  | inr (n, g) ↦ inr (n, rw g refl)
]

-- The state before the switch, with the current thread asleep at the head of the queue.
abbrev pub asleep_on : State → ℕ → Sched → Sched
asleep_on st q s =
    enqueued q s.curthr (set_thread s s.curthr (record (s.threads s.curthr) { kt_state = st }))

pub fall_asleep-run :
    (st : State) (q : ℕ) (s : Sched)
    → (s.threads s.curthr).kt_wchan ≡ none
    → fall_asleep st q s ≡ ok (asleep_on st q s)
unfolding fall_asleep
fall_asleep-run st q s w = enqueue-run q s.curthr _ (ground arith)

-- What a sleep leads to: the thread at the tail of the run queue runs in a scheduler that keeps its
-- invariant, and the thread that went to sleep is the newest on its queue, in the state of its sleep.
abbrev pub Slept : Sched → ℕ → State → Option Sched → Type 0
Slept s q st next =
    (t : ℕ) × (xs : List ℕ) × (s' : Sched) × ((s.queues kt_runq).tq_list ≡ xs ++ t ∷ [])
    × (next ≡ some s')
    × IsSched s'
    × IsRunning s'
    × (s'.curthr ≡ t)
    × ((s'.threads s.curthr).kt_state ≡ st)
    × ((s'.queues q).tq_list ≡ s.curthr ∷ (s.queues q).tq_list)

module _ (irqs : List Interrupt) (s : Sched) (q : ℕ) (v : IsSched s) (r : IsRunning s)
    (ne : q ≢ kt_runq) (ready : (s.queues kt_runq).tq_list ≢ []) where
  fall-IsSched :
      (st : State)
      → fits q st ≡ true
      → (fall_asleep st q s ≡ ok (asleep_on st q s)) × IsSched (asleep_on st q s)
  fall-IsSched st f = (
    fall_asleep-run st q s r.off_queue,
    enqueued-IsSched _ (state-IsSched s v s.curthr st r.off_queue) q s.curthr
        (ground (arith, r.off_queue)) (ground arith),
  )

  same-runq :
      (st : State) → ((asleep_on st q s).queues kt_runq).tq_list ≡ (s.queues kt_runq).tq_list
  same-runq st = ground arith

  switch-Slept :
      (st : State)
      → fits q st ≡ true
      → (next : Option Sched) × (sched_switch irqs (asleep_on st q s) ≡ ok next) × Slept s q st next
  switch-Slept st f =
      let (run_eq, v') = fall-IsSched st f in
      let (t, xs, e, go, w, k) =
        switch-ready irqs (asleep_on st q s) v' (λ z. ready (sym (same-runq st) ∙ z)) in
      (
        some (switched t xs (asleep_on st q s)),
        go,
        (
          t,
          xs,
          switched t xs (asleep_on st q s),
          sym (same-runq st) ∙ e,
          refl,
          w,
          k,
          refl,
          ground arith,
          ground arith,
        ),
      )

  -- On a queue other than the run queue, and with another thread ready, `sched_sleep_on` passes its
  -- assertions and puts the current thread to sleep on the queue, as its newest thread; a thread that
  -- was ready runs, and the scheduler's invariant holds again.
  pub sched_sleep_on_lem :
      (next : Option Sched) × (sched_sleep_on irqs q s ≡ ok next) × Slept s q sleep next
  unfolding sched_sleep_on
  sched_sleep_on_lem =
      let away : (q == kt_runq) ≡ false = ground arith in
      let (run_eq, v') = fall-IsSched sleep (ground arith) in
      let (next, go, k) = switch-Slept sleep (ground arith) in
      let up : is_run (s.threads s.curthr).kt_state ≡ true = ap is_run r.state in
      (next, kassert-pass _ _ up ∙ rw (run_eq, go), k)

  -- On a queue other than the run queue, and with another thread ready, a cancelled thread does not
  -- sleep: `sched_cancellable_sleep_on` returns -EINTR and changes nothing. Any other sleeps as in
  -- `sched_sleep_on`, in the state that can be cancelled.
  pub sched_cancellable_sleep_on_lem :
      (((s.threads s.curthr).kt_cancelled ≡ true)
        × (sched_cancellable_sleep_on irqs q s ≡ ok (interrupted s)))
      ⊎ (((s.threads s.curthr).kt_cancelled ≡ false)
          × ((next : Option Sched) × (sched_cancellable_sleep_on irqs q s ≡ ok (slept next))
              × Slept s q sleep_cancellable next))
  unfolding sched_cancellable_sleep_on
  sched_cancellable_sleep_on_lem = elim (Bool-cases (s.threads s.curthr).kt_cancelled) [
    | inl c ↦ inl (c, if_true _ _ _ c)
    | inr c ↦
        let (run_eq, v') = fall-IsSched sleep_cancellable (ground arith) in
        let (next, go, k) = switch-Slept sleep_cancellable (ground arith) in
        inr (c, (next, if_false _ _ _ c ∙ rw (run_eq, go), k))
  ]
