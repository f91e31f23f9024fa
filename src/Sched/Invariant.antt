-- ===== src/Sched/Invariant.antt =====
-- The scheduler's invariant, for waking and cancelling.
use csci_402_operating_syste.Prelude.{
  ℕ, ◌+◌, ◌-◌, ◌≡◌, refl, ◌∙◌, sym, ap, ◌⊎◌, ◌≢◌, inl, inr, Bool, true, false, ◌&&◌, none, some,
  List, [], ◌∷◌, ◌++◌, ◌==◌, arith, length, if◌then◌else◌, Bool-cases, if_true, length-append,
}
use csci_402_operating_syste.Prelude.Run.{ok, ◌>>=◌, kassert-pass}
use csci_402_operating_syste.Sched.{
  State, run, Thread, Sched, kt_runq, set_thread, set_queue, is_null, is_empty, on, negb, is_run,
  is_asleep, is_alive, is_cancellable, ktqueue_enqueue, ktqueue_dequeue, ktqueue_remove, take_out,
  split_last, sched_make_runnable, wake, sched_wakeup_on, sched_cancel, cancel_from,
  sched_queue_empty,
}
use csci_402_operating_syste.Sched.Queues.{
  split_last-append, elem-append, distinct-snoc, elem, distinct, elem-unlink,
}

-- The state that a thread on a queue has: running on the run queue, asleep on any other.
abbrev pub fits : ℕ → State → Bool
fits q st = if q == kt_runq then is_run st else is_asleep st

abbrev pub is_placed : Thread → Bool
is_placed t = elim t.kt_wchan [ none ↦ true | some q ↦ fits q t.kt_state ]

-- Sizes are right, a thread is on a queue exactly when its `kt_wchan` says so and then only once, and
-- its state fits the queue.
pub record IsSched (s : Sched) : Type 0 where
  pub sized : (q : ℕ) → (s.queues q).tq_size ≡ length (s.queues q).tq_list
  pub queued : (t q : ℕ) → elem t (s.queues q).tq_list ≡ on q (s.threads t).kt_wchan
  pub once : (q : ℕ) → distinct (s.queues q).tq_list ≡ true
  pub placed : (t : ℕ) → is_placed (s.threads t) ≡ true

abbrev pub enqueued : ℕ → ℕ → Sched → Sched
enqueued q t s =
    set_thread
      (set_queue s q
        (record { tq_list = t ∷ (s.queues q).tq_list; tq_size = (s.queues q).tq_size + 1 }))
      t (record (s.threads t) { kt_wchan = some q })

module _ (s : Sched) (v : IsSched s) where
  pub state-IsSched :
      (t : ℕ) (st : State)
      → (s.threads t).kt_wchan ≡ none
      → IsSched (set_thread s t (record (s.threads t) { kt_state = st }))
  state-IsSched t st w = record {
    sized = v.sized;
    queued = λ u q. ground (arith, v.queued u q);
    once = v.once;
    placed = λ u. ground (arith, v.placed u);
  }

  pub flag-IsSched :
      (t : ℕ) (b : Bool) → IsSched (set_thread s t (record (s.threads t) { kt_cancelled = b }))
  flag-IsSched t b = record {
    sized = v.sized;
    queued = λ u q. ground (arith, v.queued u q);
    once = v.once;
    placed = λ u. ground (arith, v.placed u);
  }

  pub enqueued-IsSched :
      (q t : ℕ)
      → (s.threads t).kt_wchan ≡ none
      → fits q (s.threads t).kt_state ≡ true
      → IsSched (enqueued q t s)
  enqueued-IsSched q t w f = record {
    sized = λ r. ground (arith, v.sized r);
    queued = λ u r. ground (arith, v.queued u r, v.queued u q);
    once = λ r. ground (arith, v.once r, v.once q, v.queued t q);
    placed = λ u. ground (arith, v.placed u);
  }

  pub remove-IsSched : (q t : ℕ) → (s.threads t).kt_wchan ≡ some q → IsSched (take_out q t s)
  unfolding take_out
  remove-IsSched q t w = record {
    sized = λ r.
        ground (
          arith,
          v.sized r,
          v.sized q,
          v.once q,
          v.queued t q,
          elem-unlink t t (s.queues q).tq_list,
        );
    queued = λ u r.
        ground (arith, v.queued u r, v.queued u q, v.once q, elem-unlink u t (s.queues q).tq_list);
    once = λ r. ground (arith, v.once r, v.once q, elem-unlink t t (s.queues q).tq_list);
    placed = λ u. ground (arith, v.placed u);
  }

pub enqueue-run :
    (q t : ℕ) (s : Sched)
    → (s.threads t).kt_wchan ≡ none
    → ktqueue_enqueue q t s ≡ ok (enqueued q t s)
unfolding ktqueue_enqueue
enqueue-run q t s w = ground arith

abbrev pub dequeued : ℕ → ℕ → List ℕ → Sched → Sched
dequeued q t xs s =
    set_thread (set_queue s q (record { tq_list = xs; tq_size = (s.queues q).tq_size - 1 })) t
      (record (s.threads t) { kt_wchan = none })

-- What `ktqueue_dequeue` does: nothing on an empty queue, and else it takes the thread at the tail.
abbrev pub Dequeues : ℕ → Sched → List ℕ → Type 0
Dequeues q s l =
    ((l ≡ []) × (ktqueue_dequeue q s ≡ (none, s)))
    ⊎ ((t : ℕ) × (xs : List ℕ) × (l ≡ xs ++ t ∷ [])
        × (ktqueue_dequeue q s ≡ (some t, dequeued q t xs s)))

Dequeues-of : (q : ℕ) (s : Sched) (l : List ℕ) → (s.queues q).tq_list ≡ l → Dequeues q s l
unfolding ktqueue_dequeue
Dequeues-of q s [] e = inl (refl, ground arith)
Dequeues-of q s (x ∷ xs) e =
    inr ((split_last x xs).1, (split_last x xs).0, sym (split_last-append x xs), ground arith)

pub ktqueue_dequeue-cases : (q : ℕ) (s : Sched) → Dequeues q s (s.queues q).tq_list
ktqueue_dequeue-cases q s = Dequeues-of q s (s.queues q).tq_list refl

module _ (s : Sched) (v : IsSched s) (q t : ℕ) (xs : List ℕ)
    (e : (s.queues q).tq_list ≡ xs ++ t ∷ []) where
  pub dequeued-wchan : (s.threads t).kt_wchan ≡ some q
  dequeued-wchan = ground (arith, v.queued t q, ap (elem t) e, elem-append t xs (t ∷ []))

  pub dequeued-state : fits q (s.threads t).kt_state ≡ true
  dequeued-state = ground (arith, dequeued-wchan, v.placed t)

  pub dequeued-IsSched : IsSched (dequeued q t xs s)
  dequeued-IsSched = record {
    sized = λ r. ground (arith, v.sized r, v.sized q, ap length e, length-append xs (t ∷ []));
    queued = λ u r. ground (
      arith,
      v.queued u r,
      v.queued u q,
      v.once q,
      ap (elem u) e,
      ap distinct e,
      distinct-snoc t xs,
      elem-append u xs (t ∷ []),
    );
    once = λ r. ground (arith, v.once r, v.once q, ap distinct e, distinct-snoc t xs);
    placed = λ u. ground (arith, v.placed u);
  }

-- Waking a thread that is on no queue puts it at the head of the run queue.
unfoldable pub runnable : ℕ → Sched → Sched
runnable t s = enqueued kt_runq t (set_thread s t (record (s.threads t) { kt_state = run }))

pub make_runnable-run :
    (t : ℕ) (s : Sched)
    → (s.threads t).kt_wchan ≡ none
    → sched_make_runnable t s ≡ ok (runnable t s)
unfolding sched_make_runnable runnable
make_runnable-run t s w =
    let live : negb (on kt_runq (s.threads t).kt_wchan) ≡ true = ground arith in
    kassert-pass _ _ live
    ∙ enqueue-run kt_runq t (set_thread s t (record (s.threads t) { kt_state = run }))
        (ground arith)

pub runnable-IsSched :
    (t : ℕ) (s : Sched) → IsSched s → (s.threads t).kt_wchan ≡ none → IsSched (runnable t s)
unfolding runnable
runnable-IsSched t s v w =
    enqueued-IsSched _ (state-IsSched s v t run w) kt_runq t (ground arith) (ground arith)

pub wake-run :
    (t : ℕ) (s : Sched)
    → is_asleep (s.threads t).kt_state ≡ true
    → (s.threads t).kt_wchan ≡ none
    → wake (some t, s) ≡ ok (some t, runnable t s)
unfolding wake
wake-run t s a w = kassert-pass _ _ a ∙ rw (make_runnable-run t s w)

pub not-empty : (xs : List ℕ) (t : ℕ) → is_empty (xs ++ t ∷ []) ≡ false
not-empty [] t = refl
not-empty (x ∷ xs) t = refl

wakeup-nonempty :
    (q : ℕ) (s : Sched) (t : ℕ) (xs : List ℕ)
    → (s.queues q).tq_list ≡ xs ++ t ∷ []
    → sched_wakeup_on q s ≡ wake (ktqueue_dequeue q s)
unfolding sched_wakeup_on sched_queue_empty
wakeup-nonempty q s t xs e = rw (e, not-empty xs t)

wakeup-empty : (q : ℕ) (s : Sched) → (s.queues q).tq_list ≡ [] → sched_wakeup_on q s ≡ ok (none, s)
unfolding sched_wakeup_on sched_queue_empty
wakeup-empty q s e = ground arith

-- `sched_wakeup_on` on a queue other than the run queue passes its assertion. With nobody waiting it
-- returns NULL and changes nothing. Otherwise the thread at the tail, the longest waiter, leaves the
-- queue, is put in state KT_RUN at the head of the run queue and is returned, and the scheduler's
-- invariant holds again.
pub sched_wakeup_on_lem :
    (q : ℕ) (s : Sched)
    → IsSched s
    → q ≢ kt_runq
    → (((s.queues q).tq_list ≡ []) × (sched_wakeup_on q s ≡ ok (none, s)))
      ⊎ ((t : ℕ) × (xs : List ℕ) × ((s.queues q).tq_list ≡ xs ++ t ∷ [])
          × (sched_wakeup_on q s ≡ ok (some t, runnable t (dequeued q t xs s)))
          × IsSched (runnable t (dequeued q t xs s)))
sched_wakeup_on_lem q s v ne = elim (ktqueue_dequeue-cases q s) [
  | inl (e, got) ↦ inl (e, wakeup-empty q s e)
  | inr (t, xs, e, got) ↦
      let asleep : is_asleep ((dequeued q t xs s).threads t).kt_state ≡ true =
        ground (arith, dequeued-state s v q t xs e) in
      let free : ((dequeued q t xs s).threads t).kt_wchan ≡ none = ground arith in
      inr (
        t,
        xs,
        e,
        wakeup-nonempty q s t xs e ∙ ap wake got ∙ wake-run t _ asleep free,
        runnable-IsSched t (dequeued q t xs s) (dequeued-IsSched s v q t xs e) free,
      )
]

abbrev cancelled : ℕ → Sched → Sched
cancelled t s = set_thread s t (record (s.threads t) { kt_cancelled = true })

take_out-run :
    (q t : ℕ) (s : Sched)
    → is_null (s.threads t).kt_wchan ≡ false
    → ktqueue_remove q t s ≡ ok (take_out q t s)
unfolding ktqueue_remove
take_out-run q t s e = kassert-pass _ _ (ap negb e)

module _ (t q : ℕ) (s : Sched) (v : IsSched s) (w : (s.threads t).kt_wchan ≡ some q) where
  cancel-pass : sched_cancel t s ≡ (
      if is_cancellable (s.threads t).kt_state && negb (on kt_runq (s.threads t).kt_wchan)
      then cancel_from (s.threads t).kt_wchan t (cancelled t s)
      else ok (cancelled t s))
  unfolding sched_cancel
  cancel-pass =
      let alive : (is_alive (s.threads t).kt_state && negb (is_null (s.threads t).kt_wchan))
          ≡ true =
        ground (arith, v.placed t) in
      kassert-pass _ _ alive

  cancel-wakes :
      is_cancellable (s.threads t).kt_state ≡ true
      → sched_cancel t s ≡ ok (runnable t (take_out q t (cancelled t s)))
  unfolding cancel_from
  cancel-wakes c =
      let free : ((take_out q t (cancelled t s)).threads t).kt_wchan ≡ none =
        unfold take_out in ground arith in
      let sleeps : (is_cancellable (s.threads t).kt_state
            && negb (on kt_runq (s.threads t).kt_wchan))
          ≡ true =
        ground (arith, v.placed t) in
      cancel-pass
      ∙ if_true _ _ _ sleeps
      ∙ ap (λ c. cancel_from c t (cancelled t s)) w
      ∙ ap (λ z. z >>= λ s'. sched_make_runnable t s')
          (take_out-run q t (cancelled t s) (ground (arith, w)))
      ∙ make_runnable-run t (take_out q t (cancelled t s)) free

  cancel-marks :
      is_cancellable (s.threads t).kt_state ≡ false → sched_cancel t s ≡ ok (cancelled t s)
  cancel-marks c = cancel-pass ∙ rw c

-- `sched_cancel` of a thread that has a state and is on a queue passes its assertion, keeps the
-- scheduler's invariant and sets the thread's flag. A thread in a cancellable sleep comes to the run
-- queue, in state KT_RUN; any other stays on the queue where it is, in the state that it has. Every
-- other thread is as before.
pub sched_cancel_lem :
    (t q : ℕ) (s : Sched)
    → IsSched s
    → (s.threads t).kt_wchan ≡ some q
    → (s' : Sched) × (sched_cancel t s ≡ ok s')
      × IsSched s'
      × ((s'.threads t).kt_cancelled ≡ true)
      × (if is_cancellable (s.threads t).kt_state
          then ((s'.threads t).kt_wchan ≡ some kt_runq) × ((s'.threads t).kt_state ≡ run)
          else (((s'.threads t).kt_wchan ≡ some q)
              × ((s'.threads t).kt_state ≡ (s.threads t).kt_state)))
      × ((u : ℕ) → (u == t) ≡ false → s'.threads u ≡ s.threads u)
unfolding take_out runnable
sched_cancel_lem t q s v w = elim (Bool-cases (is_cancellable (s.threads t).kt_state)) [
  | inl c ↦
      let v' = remove-IsSched (cancelled t s) (flag-IsSched s v t true) q t (ground arith) in
      (
        runnable t (take_out q t (cancelled t s)),
        cancel-wakes t q s v w c,
        runnable-IsSched t _ v' (ground arith),
        ground arith,
        rw c (ground arith),
        λ u n. ground (arith, n),
      )
  | inr c ↦ (
    cancelled t s,
    cancel-marks t q s v w c,
    flag-IsSched s v t true,
    ground arith,
    rw c (ground arith, ground arith),
    λ u n. ground (arith, n),
  )
]
