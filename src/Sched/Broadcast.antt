-- ===== src/Sched/Broadcast.antt =====
-- `sched_broadcast_on` and its loop.
use csci_402_operating_syste.Prelude.{
  ℕ, zero, suc, ◌≡◌, ◌≢◌, refl, ◌∙◌, sym, ap, inl, inr, false, none, some, List, [], ◌∷◌, ◌++◌,
  arith, length, length-append, append_assoc,
}
use csci_402_operating_syste.Prelude.Run.{ok}
use csci_402_operating_syste.Sched.{
  Sched, kt_runq, is_empty, sched_queue_empty, ktqueue_dequeue, broadcast_one, broadcast_loop,
  sched_broadcast_on,
}
use csci_402_operating_syste.Sched.Invariant.{
  IsSched, not-empty, dequeued, dequeued-IsSched, runnable, runnable-IsSched, make_runnable-run,
  ktqueue_dequeue-cases,
}

module _ (q : ℕ) (ne : q ≢ kt_runq) where
  nonempty :
      (s : Sched) (t : ℕ) (xs : List ℕ)
      → (s.queues q).tq_list ≡ xs ++ t ∷ []
      → sched_queue_empty s q ≡ false
  unfolding sched_queue_empty
  nonempty s t xs e = ap is_empty e ∙ not-empty xs t

  round :
      (k : ℕ) (s : Sched) (t : ℕ) (xs : List ℕ)
      → (s.queues q).tq_list ≡ xs ++ t ∷ []
      → ktqueue_dequeue q s ≡ (some t, dequeued q t xs s)
      → broadcast_loop (suc k) q s ≡ broadcast_loop k q (runnable t (dequeued q t xs s))
  unfolding broadcast_loop
  round k s t xs e got =
      let free : ((dequeued q t xs s).threads t).kt_wchan ≡ none = ground arith in
      let one : broadcast_one (ktqueue_dequeue q s) ≡ ok (runnable t (dequeued q t xs s)) =
        ap broadcast_one got
        ∙ (unfold broadcast_one in make_runnable-run t (dequeued q t xs s) free) in
      rw (nonempty s t xs e, broadcast_loop, one)

  loop :
      (k : ℕ) (s : Sched) (l r : List ℕ)
      → IsSched s
      → (s.queues q).tq_list ≡ l
      → (s.queues kt_runq).tq_list ≡ r
      → length l ≡ k
      → (s' : Sched) × (broadcast_loop k q s ≡ ok (some s'))
        × IsSched s'
        × ((s'.queues q).tq_list ≡ [])
        × ((s'.queues kt_runq).tq_list ≡ l ++ r)
  loop zero s [] r v e f n = (s, (unfold broadcast_loop sched_queue_empty in rw e), v, e, f)
  loop zero s (x ∷ l) r v e f n = absurd (omega arith)
  loop (suc k) s l r v e f n = elim (ktqueue_dequeue-cases q s) [
    | inl (none', got) ↦ absurd (omega (arith, ap length (sym e ∙ none')))
    | inr (t, xs, split, got) ↦
        let s2 = runnable t (dequeued q t xs s) in
        let v2 =
          runnable-IsSched t (dequeued q t xs s) (dequeued-IsSched s v q t xs split)
            (ground arith) in
        let e2 : (s2.queues q).tq_list ≡ xs = unfold runnable in ground arith in
        let f2 : (s2.queues kt_runq).tq_list ≡ t ∷ r = unfold runnable in ground arith in
        let len : length xs ≡ k =
          omega (arith, ap length (sym e ∙ split), length-append xs (t ∷ [])) in
        let (s3, run3, v3, e3, f3) = loop k s2 xs (t ∷ r) v2 e2 f2 len in
        (
          s3,
          round k s t xs split got ∙ run3,
          v3,
          e3,
          f3 ∙ sym (append_assoc xs (t ∷ []) r) ∙ ap (λ m. m ++ r) (sym split ∙ e),
        )
  ]

-- `sched_broadcast_on` on a queue other than the run queue returns: as many rounds as there are
-- waiters are enough. The queue is then empty, its threads stand in their order before those that
-- were on the run queue, and the scheduler's invariant holds, so they are all in state KT_RUN.
pub sched_broadcast_on_lem :
    (q : ℕ) (s : Sched)
    → q ≢ kt_runq
    → IsSched s
    → (s' : Sched) × (sched_broadcast_on q s ≡ ok (some s'))
      × IsSched s'
      × ((s'.queues q).tq_list ≡ [])
      × ((s'.queues kt_runq).tq_list ≡ (s.queues q).tq_list ++ (s.queues kt_runq).tq_list)
unfolding sched_broadcast_on
sched_broadcast_on_lem q s ne v =
    loop q ne (length (s.queues q).tq_list) s (s.queues q).tq_list (s.queues kt_runq).tq_list v refl
      refl refl
